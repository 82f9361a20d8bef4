-- ===== src/Converter/Composite/Chain.antt =====
-- Which converter of a chain makes the payload.
use sdk_elixir.Base.{
  ◌≡◌, ◌≢◌, refl, ◌↔◌, ◌∙◌, ◌⊎◌, inl, inr, arith, All, Any, [], ◌∷◌, Option, none, some, Result, ok,
  err,
}
use sdk_elixir.Json.{Value}
use sdk_elixir.Converter.{ConversionError, no_converter_found, Payload, PayloadConverter}
use sdk_elixir.Converter.Composite.{Converters, to_payload}

module _ {N : Type 0} (v : Value N) where
  -- The converter makes no payload of the value: it refuses it, or fails.
  abbrev pub Skips : PayloadConverter N → Type 0
  Skips c = (p : Payload) → c.to_payload v ≢ ok (some p)

  -- Some converter of the chain makes `p`, and none before it makes any payload.
  abbrev pub FirstMakes : Payload → Converters N → Type 0
  FirstMakes p [] = ⊥
  FirstMakes p (c ∷ cs) = (c.to_payload v ≡ ok (some p)) ⊎ (Skips c × FirstMakes p cs)

  Outcome-cases :
      (r : Result (Option Payload) ConversionError)
      → ((p : Payload) × (r ≡ ok (some p))) ⊎ ((p : Payload) → r ≢ ok (some p))
  Outcome-cases (ok (some p)) = inl (p, refl)
  Outcome-cases (ok none) = inr (λ p e. cc)
  Outcome-cases (err e) = inr (λ p e. cc)

  to_payload_skip :
      (c : PayloadConverter N) (cs : Converters N)
      → Skips c
      → to_payload (c ∷ cs) v ≡ to_payload cs v
  unfolding to_payload
  to_payload_skip c cs h = go (c.to_payload v) h
    where
      go :
          (r : Result (Option Payload) ConversionError)
          → ((p : Payload) → r ≢ ok (some p))
          → (elim r [ ok (some p) ↦ ok p | ok none ↦ to_payload cs v | err _ ↦ to_payload cs v ])
            ≡ to_payload cs v
      go (ok (some p)) k = absurd (k p refl)
      go (ok none) k = refl
      go (err e) k = refl

  to_payload→FirstMakes :
      (cs : Converters N) (p : Payload) → to_payload cs v ≡ ok p → FirstMakes p cs
  unfolding to_payload
  to_payload→FirstMakes [] p h = cc
  to_payload→FirstMakes (c ∷ cs) p h = elim (Outcome-cases (c.to_payload v)) [
    | inl (q, e) ↦ inl (ground arith)
    | inr s ↦ inr (s, to_payload→FirstMakes cs p (rw (to_payload_skip c cs s) at h))
  ]

  FirstMakes→to_payload :
      (cs : Converters N) (p : Payload) → FirstMakes p cs → to_payload cs v ≡ ok p
  unfolding to_payload
  FirstMakes→to_payload [] p h = absurd h
  FirstMakes→to_payload (c ∷ cs) p (inl e) = rw e
  FirstMakes→to_payload (c ∷ cs) p (inr (s, h)) =
      to_payload_skip c cs s ∙ FirstMakes→to_payload cs p h

  to_payload_Skips : (cs : Converters N) → All Skips cs → to_payload cs v ≡ err no_converter_found
  unfolding to_payload
  to_payload_Skips [] a = refl
  to_payload_Skips (c ∷ cs) a = to_payload_skip c cs a.0 ∙ to_payload_Skips cs a.1

  Skips-to_payload :
      (cs : Converters N) (e : ConversionError) → to_payload cs v ≡ err e → All Skips cs
  unfolding to_payload
  Skips-to_payload [] e h = tt
  Skips-to_payload (c ∷ cs) e h = elim (Outcome-cases (c.to_payload v)) [
    | inl (q, k) ↦ absurd (ground arith)
    | inr s ↦ (s, Skips-to_payload cs e (rw (to_payload_skip c cs s) at h))
  ]

  -- The chain gives a payload exactly if some converter makes it and all before that one refuse or
  -- fail; it fails exactly if all converters refuse or fail, always with `NoConverterFound`.
  pub to_payload_first :
      (cs : Converters N)
      → ((p : Payload) → (to_payload cs v ≡ ok p) ↔ FirstMakes p cs)
        × ((to_payload cs v ≡ err no_converter_found) ↔ All Skips cs)
        × ((e : ConversionError) → to_payload cs v ≡ err e → e ≡ no_converter_found)
  to_payload_first cs = (
    λ p. (to_payload→FirstMakes cs p, FirstMakes→to_payload cs p),
    (Skips-to_payload cs _, to_payload_Skips cs),
    λ e h. ground (arith, to_payload_Skips cs (Skips-to_payload cs e h)),
  )

  -- The payload of a chain is made by one of its converters.
  pub to_payload-Any :
      (cs : Converters N) (p : Payload)
      → FirstMakes p cs
      → Any (λ c. c.to_payload v ≡ ok (some p)) cs
  to_payload-Any [] p h = h
  to_payload-Any (c ∷ cs) p (inl e) = inl e
  to_payload-Any (c ∷ cs) p (inr (s, h)) = inr (to_payload-Any cs p h)
