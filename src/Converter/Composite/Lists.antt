-- ===== src/Converter/Composite/Lists.antt =====
-- The conversions of lists of values.
use sdk_elixir.Base.{◌≡◌, inl, inr, arith, All, List, [], ◌∷◌, map, ok, Result-cases, false}
use sdk_elixir.Json.{Value}
use sdk_elixir.Converter.{Payload, Codecs}
use sdk_elixir.Converter.JsonConverter.Canonical.{canonical}
use sdk_elixir.Converter.JsonConverter.Normal.{IsProper}
use sdk_elixir.Converter.JsonConverter.Numbers.{AllNumbers}
use sdk_elixir.Converter.Composite.{Converters, to_payload, to_payloads, from_payloads}
use sdk_elixir.Converter.Composite.BuiltIn.{IsLawful, IsBuiltIn}
use sdk_elixir.Converter.Composite.RoundTrip.{from_payload-to_payload}

module _ (C : Codecs) (L : IsLawful C) (cs : Converters C.Number)
    (built : All (IsBuiltIn C) cs) where
  -- A list of payloads that a chain of the program's converters makes is read back by the chain as
  -- the canonical forms of the values, in their order, for values whose maps list each key once and
  -- which hold no floating-point number.
  pub from_payloads-to_payloads :
      (vs : List (Value C.Number)) (ps : List Payload)
      → All IsProper vs
      → All (AllNumbers (λ n. L.is_f64 n ≡ false)) vs
      → to_payloads cs vs ≡ ok ps
      → from_payloads cs ps ≡ ok (map (canonical C) vs)
  unfolding to_payloads from_payloads
  from_payloads-to_payloads [] ps proper exact h = ground arith
  from_payloads-to_payloads (v ∷ vs) ps proper exact h = elim (Result-cases (to_payload cs v)) [
    | inl (p, e) ↦ elim (Result-cases (to_payloads cs vs)) [
      | inl (qs, f) ↦ ground (
        arith,
        from_payload-to_payload C L v p proper.0 exact.0 cs built e,
        from_payloads-to_payloads vs qs proper.1 exact.1 f,
      )
      | inr (x, f) ↦ ground arith
    ]
    | inr (x, e) ↦ ground arith
  ]
