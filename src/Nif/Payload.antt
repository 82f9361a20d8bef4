-- ===== src/Nif/Payload.antt =====
-- `term_to_payload`, and the lists of payloads that the workflow functions take.
pub mod Inputs
pub mod Atoms
use sdk_elixir.Base.{
  ℕ, String, ◌==◌, if◌then◌else◌, Bool, true, false, Option, none, some, Result, ok, err, then_try,
  map_err, or_else, unwrap_or, and_then, List, [], ◌∷◌, ◌++◌, map,
}
use mathlib.Core.Option
use sdk_elixir.Base.Dict
use sdk_elixir.Base.Dict.{Dict}
use sdk_elixir.Base.Utf8.{Bytes, bytes, from_utf8_lossy}
use sdk_elixir.Converter.{Payload}
use sdk_elixir.Nif.{Rustler}

-- `key.strip_prefix(':').unwrap_or(key)`
abbrev pub strip_colon : String → String
strip_colon String.[] = ""
strip_colon (String.◌∷◌ c s) = if String.◌∷◌ c String.[] == ":" then s else String.◌∷◌ c s

module _ (R : Rustler) where
  -- The two terms that the loop over the entries keeps: of each name the last one.
  unfoldable pub scan_keys :
      Dict R.Term → Option R.Term → Option R.Term → Option R.Term × Option R.Term
  scan_keys [] metadata contents = (metadata, contents)
  scan_keys ((key, t) ∷ m) metadata contents =
      let named = strip_colon key in
      scan_keys m (if named == "metadata" then some t else metadata)
        (if named == "metadata" then contents else if named == "data" then some t else contents)

  -- The metadata of a map with atom keys: the first format that decodes.
  unfoldable pub atom_metadata : R.Term → Dict Bytes
  unfolding Dict.collect
  atom_metadata t = elim (R.decode_bytes_map t) [
    | some m ↦ Dict.collect (map (λ (e : Bytes × Bytes). (from_utf8_lossy e.0, e.1)) m)
    | none ↦ elim (R.decode_string_bytes_map t) [
      | some m ↦ m
      | none ↦ elim (R.decode_string_map t) [
        | some m ↦ Dict.collect (map (λ (e : String × String). (e.0, bytes e.1)) m)
        | none ↦ []
      ]
    ]
  ]

  unfoldable pub atom_data : R.Term → Bytes
  atom_data t = elim (R.decode_binary t) [
    | some b ↦ b
    | none ↦ elim (R.decode_bytes t) [
      | some b ↦ b
      | none ↦ elim (R.decode_string t) [ some s ↦ bytes s | none ↦ [] ]
    ]
  ]

  unfoldable pub string_metadata : Option R.Term → Result (Dict Bytes) String
  unfolding Dict.collect
  string_metadata none = ok []
  string_metadata (some t) = elim (R.decode_string_map t) [
    | some m ↦ ok (Dict.collect (map (λ (e : String × String). (e.0, bytes e.1)) m))
    | none ↦ err "Failed to decode metadata as map"
  ]

  unfoldable pub string_data : Option R.Term → Bytes
  string_data none = []
  string_data (some t) = elim (R.decode_bytes t) [
    | some b ↦ b
    | none ↦ elim (R.decode_string t) [ some s ↦ bytes s | none ↦ [] ]
  ]

  unfoldable pub atom_payload : Dict R.Term → Payload
  unfolding scan_keys atom_metadata atom_data
  atom_payload m =
      let (metadata, contents) = scan_keys m none none in
      record {
        metadata = unwrap_or [] (Option.map atom_metadata metadata);
        contents = unwrap_or [] (Option.map atom_data contents);
      }

  unfoldable pub string_payload : Dict R.Term → Result Payload String
  unfolding Dict.get string_metadata string_data
  string_payload m =
      then_try (string_metadata (Dict.get "metadata" m)) (λ metadata.
        ok (record { metadata = metadata; contents = string_data (Dict.get "data" m) }))

  unfoldable pub term_to_payload : R.Term → Result Payload String
  unfolding atom_payload string_payload
  term_to_payload t = elim (R.decode_atom_map t) [
    | some m ↦ ok (atom_payload m)
    | none ↦ elim (R.decode_map t) [
      | some m ↦ string_payload m
      | none ↦ err "Failed to decode payload as map (tried both atom and string keys)"
    ]
  ]

  -- The loop of `client_start_workflow` over the terms of `input`: `payloads` are pushed at the end,
  -- and the first failure leaves the loop with `None`.
  unfoldable pub push_payloads : List Payload → List R.Term → Option (List Payload)
  push_payloads payloads [] = some payloads
  push_payloads payloads (t ∷ ts) = elim (term_to_payload t) [
    | ok p ↦ push_payloads (payloads ++ (p ∷ [])) ts
    | err _ ↦ none
  ]

  -- `iter().map(term_to_payload).collect::<Result<Vec<_>, _>>()` of the other two functions.
  unfoldable pub collect_payloads : List R.Term → Result (List Payload) String
  collect_payloads [] = ok []
  collect_payloads (t ∷ ts) =
      then_try (term_to_payload t) (λ p. then_try (collect_payloads ts) (λ ps. ok (p ∷ ps)))
