-- ===== src/Converter/Composite.antt =====
-- `CompositeConverter`: the converters in the order of their priorities.
pub mod Order
pub mod Chain
pub mod BuiltIn
pub mod RoundTrip
pub mod Default
pub mod Lists
pub mod Unknown
use sdk_elixir.Base.{
  ◌*◌, ltb, if◌then◌else◌, String, ◌==◌, true, Option, none, some, Result, ok, err, then_try, List,
  [], ◌∷◌,
}
use sdk_elixir.Base.Dict
use sdk_elixir.Base.Utf8.{from_utf8_lossy}
use sdk_elixir.Json.{Value}
use sdk_elixir.Converter.{ConversionError, no_converter_found, Payload, Codecs, PayloadConverter}
use sdk_elixir.Converter.NilConverter
use sdk_elixir.Converter.BinaryConverter
use sdk_elixir.Converter.JsonConverter

abbrev pub Converters : Type 0 → Type 0
Converters N = List (PayloadConverter N)

module _ {N : Type 0} where
  -- `sort_by_key(|c| c.priority())`, a stable sort.
  unfoldable pub insert_by_priority : PayloadConverter N → Converters N → Converters N
  insert_by_priority c [] = c ∷ []
  insert_by_priority c (d ∷ ds) =
      if ltb d.priority c.priority then d ∷ insert_by_priority c ds else c ∷ d ∷ ds

  -- `CompositeConverter::new`
  unfoldable pub new : Converters N → Converters N
  unfolding insert_by_priority
  new [] = []
  new (c ∷ cs) = insert_by_priority c (new cs)

  -- An error of a converter is skipped like a refusal.
  unfoldable pub to_payload : Converters N → Value N → Result Payload ConversionError
  to_payload [] v = err no_converter_found
  to_payload (c ∷ cs) v = elim (c.to_payload v) [
    | ok (some p) ↦ ok p
    | ok none ↦ to_payload cs v
    | err _ ↦ to_payload cs v
  ]

  unfoldable pub to_payloads : Converters N → List (Value N) → Result (List Payload) ConversionError
  to_payloads cs [] = ok []
  to_payloads cs (v ∷ vs) =
      then_try (to_payload cs v) (λ p. then_try (to_payloads cs vs) (λ ps. ok (p ∷ ps)))

  -- The first loop of `from_payload`: the converters whose encoding is the payload's. `none` means
  -- that the loop ended.
  unfoldable pub by_encoding :
      Converters N → String → Payload → Result (Option (Value N)) ConversionError
  by_encoding [] e p = ok none
  by_encoding (c ∷ cs) e p =
      let rest = by_encoding cs e p in
      if c.encoding == e
      then then_try (c.from_payload p) (λ found. elim found [ some v ↦ ok (some v) | none ↦ rest ])
      else rest

  -- The second loop tries them all.
  unfoldable pub fallback : Converters N → Payload → Result (Value N) ConversionError
  fallback [] p = err no_converter_found
  fallback (c ∷ cs) p =
      let rest = fallback cs p in
      then_try (c.from_payload p) (λ found. elim found [ some v ↦ ok v | none ↦ rest ])

  unfoldable pub select : Converters N → Payload → Result (Option (Value N)) ConversionError
  select cs p = elim (Dict.get "encoding" p.metadata) [
    | none ↦ ok none
    | some encoding ↦ by_encoding cs (from_utf8_lossy encoding) p
  ]

  unfoldable pub from_payload : Converters N → Payload → Result (Value N) ConversionError
  unfolding select fallback by_encoding
  from_payload cs p =
      then_try (select cs p) (λ found. elim found [ some v ↦ ok v | none ↦ fallback cs p ])

  unfoldable pub from_payloads :
      Converters N → List Payload → Result (List (Value N)) ConversionError
  unfolding from_payload
  from_payloads cs [] = ok []
  from_payloads cs (p ∷ ps) =
      then_try (from_payload cs p) (λ v. then_try (from_payloads cs ps) (λ vs. ok (v ∷ vs)))

module _ (C : Codecs) where
  -- `CompositeConverter::default`: 1 MB of binary data, 32 levels, sorted keys.
  unfoldable pub default : Converters C.Number
  unfolding new
  default = new (
      NilConverter.converter
      ∷ BinaryConverter.converter C (1024 * 1024)
      ∷ JsonConverter.converter C (record { max_depth = 32; sort_keys = true })
      ∷ [])
