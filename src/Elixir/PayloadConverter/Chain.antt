-- ===== src/Elixir/PayloadConverter/Chain.antt =====
-- lib/temporal/payload_converter/chain.ex, and the default chain of lib/temporal/payload_converter.ex.
pub mod Order
pub mod First
pub mod Labels
pub mod Reading
pub mod RoundTrip
use sdk_elixir.Base.{
  ◌*◌, ltb, String, if◌then◌else◌, true, Option, none, some, Result, ok, err, then_try, List, [],
  ◌∷◌,
}
use sdk_elixir.Base.Dict
use sdk_elixir.Base.Utf8.{Bytes, bytes_eq}
use sdk_elixir.Converter.{Payload}
use sdk_elixir.Elixir.Term.{Term, Machine}
use sdk_elixir.Elixir.PayloadConverter.{
  Reason, PayloadConverter, Raises, Outcome, made, failed, skip,
}
use sdk_elixir.Elixir.PayloadConverter.BuiltIn.{dispatch_all, default_structs}

abbrev pub Converters : Type 0 → Type 0
Converters F = List (PayloadConverter F)

-- The reasons of the chain, each with what was to be converted.
pub data Failure {ℓ} (A : Type ℓ) : Type ℓ where
  no_converter_for : A → Failure A
  conversion_failed : Reason → A → Failure A
  no_converter_found : Failure A

module _ {F : Type 0} where
  -- `Enum.sort_by`, a stable sort.
  unfoldable pub insert_by_priority : PayloadConverter F → Converters F → Converters F
  insert_by_priority c [] = c ∷ []
  insert_by_priority c (d ∷ ds) =
      if ltb d.priority c.priority then d ∷ insert_by_priority c ds else c ∷ d ∷ ds

  unfoldable pub sort_converters_by_priority : Converters F → Converters F
  unfolding insert_by_priority
  sort_converters_by_priority [] = []
  sort_converters_by_priority (c ∷ cs) = insert_by_priority c (sort_converters_by_priority cs)

  -- A converter that refuses, fails or raises is passed over. `none` is `:no_converter`.
  unfoldable pub try_converters_for_data : Term F → Converters F → Option Payload
  try_converters_for_data t [] = none
  try_converters_for_data t (c ∷ cs) = elim (c.to_payload t) [
    | ok (made p) ↦ some p
    | ok skip ↦ try_converters_for_data t cs
    | ok (failed _) ↦ try_converters_for_data t cs
    | err _ ↦ try_converters_for_data t cs
  ]

  -- The third case of the source, an error of `try_converters_for_data`, cannot come.
  unfoldable pub convert_single_data : Term F → Converters F → Result Payload (Failure (Term F))
  unfolding try_converters_for_data
  convert_single_data t cs = elim (try_converters_for_data t cs) [
    | some p ↦ ok p
    | none ↦ err (no_converter_for t)
  ]

  unfoldable pub try_converters_for_payload :
      Payload → Converters F → Result (Term F) (Failure Payload)
  try_converters_for_payload p [] = err no_converter_found
  try_converters_for_payload p (c ∷ cs) = elim (c.from_payload p) [
    | ok (made t) ↦ ok t
    | ok skip ↦ try_converters_for_payload p cs
    | ok (failed _) ↦ try_converters_for_payload p cs
    | err _ ↦ try_converters_for_payload p cs
  ]

  -- `Enum.find`
  unfoldable pub select_converter_by_encoding : Converters F → Bytes → Option (PayloadConverter F)
  unfolding bytes_eq
  select_converter_by_encoding [] e = none
  select_converter_by_encoding (c ∷ cs) e =
      if bytes_eq c.encoding e then some c else select_converter_by_encoding cs e

  -- What the selected converter raises is not rescued.
  unfoldable pub convert_selected :
      Payload → Converters F → PayloadConverter F → Raises (Result (Term F) (Failure Payload))
  unfolding try_converters_for_payload
  convert_selected p cs c = elim (c.from_payload p) [
    | ok (made t) ↦ ok (ok t)
    | ok (failed e) ↦ ok (err (conversion_failed e p))
    | ok skip ↦ ok (try_converters_for_payload p cs)
    | err e ↦ err e
  ]

  unfoldable pub convert_single_payload :
      Payload → Converters F → Raises (Result (Term F) (Failure Payload))
  unfolding Dict.get select_converter_by_encoding convert_selected try_converters_for_payload
  convert_single_payload p cs = elim (Dict.get "encoding" p.metadata) [
    | none ↦ ok (try_converters_for_payload p cs)
    | some e ↦ elim (select_converter_by_encoding cs e) [
      | some c ↦ convert_selected p cs c
      | none ↦ ok (try_converters_for_payload p cs)
    ]
  ]

  unfoldable pub to_payload : Term F → Converters F → Result Payload (Failure (Term F))
  unfolding convert_single_data sort_converters_by_priority
  to_payload t cs = convert_single_data t (sort_converters_by_priority cs)

  unfoldable pub from_payload : Payload → Converters F → Raises (Result (Term F) (Failure Payload))
  unfolding convert_single_payload
  from_payload p cs = convert_single_payload p cs

  -- `Enum.map` of `convert_single_data`.
  unfoldable pub convert_all :
      List (Term F) → Converters F → List (Result Payload (Failure (Term F)))
  unfolding convert_single_data
  convert_all [] cs = []
  convert_all (t ∷ ts) cs = convert_single_data t cs ∷ convert_all ts cs

  -- `Enum.map` of `convert_single_payload`, which the first exception ends.
  unfoldable pub convert_all_payloads :
      List Payload → Converters F → Raises (List (Result (Term F) (Failure Payload)))
  unfolding convert_single_payload
  convert_all_payloads [] cs = ok []
  convert_all_payloads (p ∷ ps) cs =
      then_try (convert_single_payload p cs)
        (λ r. then_try (convert_all_payloads ps cs) (λ rs. ok (r ∷ rs)))

-- `Enum.split_with(results, &match?({:ok, _}, &1))`, with the values taken out.
unfoldable pub split_results {ℓ κ} : {A : Type ℓ} {E : Type κ} → List (Result A E) → List A × List E
split_results [] = ([], [])
split_results (ok a ∷ rs) = let (values, errors) = split_results rs in (a ∷ values, errors)
split_results (err e ∷ rs) = let (values, errors) = split_results rs in (values, e ∷ errors)

-- All the values, or the first error.
unfoldable pub extract_results {ℓ κ} :
    {A : Type ℓ} {E : Type κ} → List (Result A E) → Result (List A) E
unfolding split_results
extract_results rs =
    let (values, errors) = split_results rs in elim errors [ [] ↦ ok values | e ∷ _ ↦ err e ]

module _ {F : Type 0} where
  unfoldable pub to_payloads :
      List (Term F) → Converters F → Result (List Payload) (Failure (Term F))
  unfolding convert_all extract_results sort_converters_by_priority
  to_payloads ts cs = extract_results (convert_all ts (sort_converters_by_priority cs))

  unfoldable pub from_payloads :
      List Payload → Converters F → Raises (Result (List (Term F)) (Failure Payload))
  unfolding convert_all_payloads extract_results
  from_payloads ps cs = then_try (convert_all_payloads ps cs) (λ rs. ok (extract_results rs))

  unfoldable pub default_converter_chain : Machine F → Converters F
  unfolding dispatch_all default_structs
  default_converter_chain M = dispatch_all M default_structs
