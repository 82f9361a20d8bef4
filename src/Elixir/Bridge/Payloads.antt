-- ===== src/Elixir/Bridge/Payloads.antt =====
-- The payloads that the Elixir converters make, as the native functions read them.
use sdk_elixir.Base.{
  String, ◌==◌, true, Bool-cases, ◌≡◌, ◌≢◌, refl, ◌∙◌, sym, ap, subst, arith, Option, none, some,
  or_else, ok, All, [], ◌∷◌, map as map_list, inl, inr,
}
use mathlib.Core.Option
use text.Mathlib.TextEquality.{eq_iff}
use sdk_elixir.Base.Dict
use sdk_elixir.Base.Dict.{Dict, get-insert}
use sdk_elixir.Base.Utf8.{Bytes, bytes}
use sdk_elixir.Converter.{Payload}
use sdk_elixir.Nif.{Rustler}
use sdk_elixir.Nif.Payload.{term_to_payload, atom_metadata, atom_data}
use sdk_elixir.Elixir.Term.{Term, binary, map, Machine}
use sdk_elixir.Elixir.Maps.{map_new}
use sdk_elixir.Elixir.Client.Params.{metadata_entries, payload_term}
use sdk_elixir.Nif.Payload.Atoms.{term_to_payload-IsAtomMap}
use sdk_elixir.Elixir.Bridge.{atom_map, Carries, HasDistinctKeys, text_entries}

-- The metadata of texts.
abbrev pub text_bytes : Dict String → Dict Bytes
text_bytes [] = []
text_bytes ((k, v) ∷ m) = (k, bytes v) ∷ text_bytes m

get-text_bytes :
    (k : String) (m : Dict String) → Dict.get k (text_bytes m) ≡ Option.map bytes (Dict.get k m)
unfolding Dict.get
get-text_bytes k [] = refl
get-text_bytes k ((j, v) ∷ m) = elim (Bool-cases (j == k)) [
  | inl e ↦ rw e refl
  | inr e ↦ rw e (get-text_bytes k m)
]

module _ {V : Type 0} where
  pub get_absent :
      (k : String) (m : Dict V) → All (λ (e : String × V). k ≢ e.0) m → Dict.get k m ≡ none
  unfolding Dict.get
  get_absent k [] a = refl
  get_absent k ((j, v) ∷ m) a = ground (arith, eq_iff j k, get_absent k m)

  -- Entries with different keys are collected as they are.
  get-collect_onto :
      (k : String) (ps m : Dict V)
      → HasDistinctKeys ps
      → Dict.get k (Dict.collect_onto m ps) ≡ or_else (Dict.get k ps) (Dict.get k m)
  unfolding Dict.get Dict.collect_onto
  get-collect_onto k [] m d = refl
  get-collect_onto k ((j, v) ∷ ps) m d =
      get-collect_onto k ps (Dict.insert j v m) d.1
      ∙ ap (or_else (Dict.get k ps)) (get-insert j k v m)
      ∙ elim (Bool-cases (j == k)) [ inl e ↦ rw (e, absent e) refl | inr e ↦ rw e refl ]
    where
      absent : (j == k) ≡ true → Dict.get k ps ≡ none
      absent e =
          get_absent k ps (subst (λ i. All (λ (x : String × V). i ≢ x.0) ps) ((eq_iff j k).0 e) d.0)

  get-collect :
      (k : String) (ps : Dict V) → HasDistinctKeys ps → Dict.get k (Dict.collect ps) ≡ Dict.get k ps
  unfolding Dict.get Dict.collect
  get-collect k ps d = get-collect_onto k ps [] d ∙ or_else_none (Dict.get k ps)
    where
      or_else_none : (o : Option V) → or_else o none ≡ o
      or_else_none none = refl
      or_else_none (some v) = refl

metadata_entries-text_bytes :
    {F : Type 0} (M : Machine F) (m : Dict String)
    → metadata_entries M (text_bytes m) ≡ text_entries m
unfolding metadata_entries
metadata_entries-text_bytes M [] = refl
metadata_entries-text_bytes M ((k, v) ∷ m) =
    ap (◌∷◌ (bytes k, binary (bytes v))) (metadata_entries-text_bytes M m)

collected_texts :
    (d : Dict String) → map_list (λ (e : String × String). (e.0, bytes e.1)) d ≡ text_bytes d
collected_texts [] = refl
collected_texts ((k, v) ∷ d) = ap (◌∷◌ (k, bytes v)) (collected_texts d)

text_bytes-HasDistinctKeys : (d : Dict String) → HasDistinctKeys d → HasDistinctKeys (text_bytes d)
text_bytes-HasDistinctKeys [] h = tt
text_bytes-HasDistinctKeys ((k, v) ∷ d) h = (fresh d h.0, text_bytes-HasDistinctKeys d h.1)
  where
    fresh :
        (m : Dict String)
        → All (λ (e : String × String). k ≢ e.0) m
        → All (λ (e : String × Bytes). k ≢ e.0) (text_bytes m)
    fresh [] a = tt
    fresh ((j, w) ∷ m) a = (a.0, fresh m a.1)

module _ {F : Type 0} (M : Machine F) (R : Rustler) (B : Carries M R) where
  -- The metadata of texts, at least one, arrives with the same entries.
  Arrives : R.Term → Dict String → Type 0
  Arrives t m = (k : String) → Dict.get k (atom_metadata R t) ≡ Dict.get k (text_bytes m)

  metadata-Arrives :
      (k v : String) (m : Dict String)
      → HasDistinctKeys ((k, v) ∷ m)
      → Arrives (B.embed (map_new M (text_entries ((k, v) ∷ m)))) ((k, v) ∷ m)
  unfolding Arrives atom_metadata
  metadata-Arrives k v m h j =
      let (d, e, n, g) = B.decode_string_map_texts ((k, v) ∷ m) h in
      rw
        (
          B.decode_bytes_map_texts k v m,
          B.decode_string_bytes_map_texts k v m,
          e,
          collected_texts d,
          atom_metadata,
        )
        (get-collect j (text_bytes d) (text_bytes-HasDistinctKeys d n)
          ∙ get-text_bytes j d
          ∙ ap (Option.map bytes) (g j)
          ∙ sym (get-text_bytes j ((k, v) ∷ m)))

  -- Rust reads the payload that the term stands for: the same data, and the same metadata under each key,
  -- if the metadata are texts, at least one, under different keys.
  pub payload_arrives :
      (p : Payload) (k v : String) (m : Dict String)
      → p.metadata ≡ text_bytes ((k, v) ∷ m)
      → HasDistinctKeys ((k, v) ∷ m)
      → (q : Payload) × (term_to_payload R (B.embed (payload_term M p)) ≡ ok q)
        × (q.contents ≡ p.contents)
        × ((j : String) → Dict.get j q.metadata ≡ Dict.get j p.metadata)
  unfolding payload_term Arrives Dict.get atom_data
  payload_arrives p k v m e h =
      let metadata : Term F = map_new M (metadata_entries M p.metadata) in
      let entries : Dict (Term F) = ("data", binary p.contents) ∷ ("metadata", metadata) ∷ [] in
      let (n, d, decoded, a, g) =
        B.decode_atom_map_atoms entries (((λ q. cc), tt), (tt, tt)) (refl, (refl, tt)) in
      (
        record {
          metadata = atom_metadata R (B.embed metadata);
          contents = atom_data R (B.embed (binary p.contents));
        },
        term_to_payload-IsAtomMap R (B.embed (map (atom_map entries))) n d decoded a
            ∙ rw (g "metadata", g "data") refl,
        rw (B.decode_binary_binary p.contents, atom_data) refl,
        λ j. received j ∙ ap (Dict.get j) (sym e),
      )
    where
      received :
          (j : String)
          → Dict.get j (atom_metadata R (B.embed (map_new M (metadata_entries M p.metadata))))
            ≡ Dict.get j (text_bytes ((k, v) ∷ m))
      received j =
          ap (λ ps. Dict.get j (atom_metadata R (B.embed (map_new M ps))))
            (ap (metadata_entries M) e ∙ metadata_entries-text_bytes M ((k, v) ∷ m))
          ∙ metadata-Arrives k v m h j
