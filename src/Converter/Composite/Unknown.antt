-- ===== src/Converter/Composite/Unknown.antt =====
-- Payloads of an encoding that no converter of the program has.
use sdk_elixir.Base.{
  ◌≡◌, ◌≢◌, refl, ◌∙◌, ap, inl, inr, arith, some, Bool-cases, All, [], ◌∷◌, String, false, none, ok,
  err, Option-cases,
}
use sdk_elixir.Base.Dict
use sdk_elixir.Base.Utf8.{bytes, bytes_eq, bytes_eq→eq}
use sdk_elixir.Converter.{no_converter_found, Payload, Codecs, PayloadConverter}
use sdk_elixir.Converter.Basic.{has_encoding}
use sdk_elixir.Converter.NilConverter
use sdk_elixir.Converter.BinaryConverter
use sdk_elixir.Converter.JsonConverter
use sdk_elixir.Converter.JsonConverter.{JsonConverter}
use sdk_elixir.Converter.Composite.{Converters, by_encoding, select, fallback, from_payload}
use sdk_elixir.Converter.Composite.BuiltIn.{IsBuiltIn, built_in}

-- The payload is labelled with none of the encodings of the program's converters, or not at all.
abbrev pub IsForeign : Payload → Type 0
IsForeign p =
    (Dict.get "encoding" p.metadata ≢ some (bytes "binary/null"))
    × (Dict.get "encoding" p.metadata ≢ some (bytes "binary/plain"))
    × (Dict.get "encoding" p.metadata ≢ some (bytes "json/plain"))

has_encoding-false :
    (e : String) (p : Payload)
    → Dict.get "encoding" p.metadata ≢ some (bytes e)
    → has_encoding e p ≡ false
unfolding has_encoding
has_encoding-false e p h = elim (Option-cases (Dict.get "encoding" p.metadata)) [
  | inl n ↦ rw (n, has_encoding) refl
  | inr (b, n) ↦ elim (Bool-cases (bytes_eq b (bytes e))) [
    | inl q ↦ absurd (h (n ∙ ap some (bytes_eq→eq b (bytes e) q)))
    | inr q ↦ rw (n, q, has_encoding) refl
  ]
]

module _ (C : Codecs) (p : Payload) (foreign : IsForeign p) where
  refuses : (c : PayloadConverter C.Number) → IsBuiltIn C c → c.from_payload p ≡ ok none
  unfolding NilConverter.from_payload BinaryConverter.from_payload JsonConverter.from_payload
  refuses =
      built_in C (λ c. c.from_payload p ≡ ok none) (rw (has_encoding-false _ p foreign.0))
        (λ m. rw (has_encoding-false _ p foreign.1)) (λ d _. rw (has_encoding-false _ p foreign.2))

  by_encoding-none :
      (e : String) (cs : Converters C.Number) → All (IsBuiltIn C) cs → by_encoding cs e p ≡ ok none
  unfolding by_encoding
  by_encoding-none e [] a = refl
  by_encoding-none e (c ∷ cs) a = ground (arith, refuses c a.0, by_encoding-none e cs a.1)

  fallback_none :
      (cs : Converters C.Number) → All (IsBuiltIn C) cs → fallback cs p ≡ err no_converter_found
  unfolding fallback
  fallback_none [] a = refl
  fallback_none (c ∷ cs) a = rw (refuses c a.0) (fallback_none cs a.1)

  -- A chain of the program's converters refuses, with `NoConverterFound`, every payload that is not
  -- labelled with the encoding of one of the program's converters: also a payload without a label,
  -- which the second loop of `from_payload` offers to each converter.
  pub from_payload-IsForeign :
      (cs : Converters C.Number) → All (IsBuiltIn C) cs → from_payload cs p ≡ err no_converter_found
  unfolding from_payload select
  from_payload-IsForeign cs a = elim (Option-cases (Dict.get "encoding" p.metadata)) [
    | inl e ↦ rw (e, select, fallback_none cs a)
    | inr (b, e) ↦ rw (e, select, by_encoding-none _ cs a, fallback_none cs a)
  ]
