-- ===== src/Elixir/Bridge/NifMap.antt =====
-- The configuration of a client as the map that `client_connect` decodes.
use sdk_elixir.Base.{String, true, ◌≡◌, refl, ◌∙◌, ap, none, some, All, ◌⊎◌, inl, inr}
use mathlib.Core.Option
use sdk_elixir.Base.Dict
use sdk_elixir.Base.Dict.{Dict}
use sdk_elixir.Base.Utf8.{bytes, bytes_eq}
use sdk_elixir.Nif.{Rustler}
use sdk_elixir.Elixir.Term.{Term, Pairs, map, Machine, atom_key}
use sdk_elixir.Elixir.Maps.{fetch}
use sdk_elixir.Elixir.Maps.Lookup.{is_distinct, fetch-put_all-distinct}
use sdk_elixir.Elixir.Client.Config.{Config, nil_term}
use sdk_elixir.Elixir.Client.Options.{nif_entries, to_nif_config}
use sdk_elixir.Elixir.Bridge.{Carries, IsTextKey}

-- A value that Rust does not take for a map with texts as keys: `nil`, and a map with an atom as a key.
abbrev pub IsAtomMap : {F : Type 0} → Term F → Type 0
IsAtomMap {F} t =
    (t ≡ nil_term)
    ⊎ ((es : Pairs F) × (name : String) × (v : Term F) × (t ≡ map es) × (atom_key name es ≡ some v))

module _ {F : Type 0} (M : Machine F) (R : Rustler) (B : Carries M R) (cfg : Config F) where
  pub nif_keys : All IsTextKey (nif_entries M cfg)
  unfolding nif_entries
  nif_keys = (
    ("target_host", refl),
    (
      ("namespace", refl),
      (
        ("task_queue", refl),
        (
          ("identity", refl),
          (
            ("headers", refl),
            (
              ("tls_config", refl),
              (
                ("retries", refl),
                (("payload_converter", refl), (("payload_converter_options", refl), tt)),
              ),
            ),
          ),
        ),
      ),
    ),
  )

  nif_distinct : is_distinct (nif_entries M cfg) ≡ true
  unfolding is_distinct nif_entries bytes bytes_eq
  nif_distinct = refl

  -- The map that the native function decodes, and its entries.
  abbrev pub nif_map : Dict R.Term
  nif_map = (B.decode_map_texts (nif_entries M cfg) nif_keys).0

  pub decode_nif_config : R.decode_map (B.embed (to_nif_config M cfg)) ≡ some nif_map
  unfolding to_nif_config
  decode_nif_config = (B.decode_map_texts (nif_entries M cfg) nif_keys).1

  get-nif_map :
      (k : String) → Dict.get k nif_map ≡ Option.map B.embed (fetch (bytes k) (nif_entries M cfg))
  get-nif_map k =
      (B.decode_map_texts (nif_entries M cfg) nif_keys).2 k
      ∙ ap (Option.map B.embed) (fetch-put_all-distinct (bytes k) (nif_entries M cfg) nif_distinct)

  module _ (k : String) (v : Term F) where
    pub get-entry :
        fetch (bytes k) (nif_entries M cfg) ≡ some v → Dict.get k nif_map ≡ some (B.embed v)
    get-entry h = get-nif_map k ∙ ap (Option.map B.embed) h

  pub get-missing :
      (k : String) → fetch (bytes k) (nif_entries M cfg) ≡ none → Dict.get k nif_map ≡ none
  get-missing k h = get-nif_map k ∙ ap (Option.map B.embed) h

  pub decode_map-IsAtomMap : (t : Term F) → IsAtomMap t → R.decode_map (B.embed t) ≡ none
  decode_map-IsAtomMap t (inl e) = ap (λ x. R.decode_map (B.embed x)) e ∙ B.decode_map_atom "nil"
  decode_map-IsAtomMap t (inr (es, name, v, e, h)) =
      ap (λ x. R.decode_map (B.embed x)) e ∙ B.decode_map_atoms name v es h
