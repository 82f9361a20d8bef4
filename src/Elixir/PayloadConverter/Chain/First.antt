-- ===== src/Elixir/PayloadConverter/Chain/First.antt =====
-- Which converter makes a payload.
use sdk_elixir.Base.{
  ◌≡◌, ◌≢◌, refl, ◌↔◌, ◌∙◌, ◌⊎◌, inl, inr, arith, All, Any, [], ◌∷◌, none, some, ok, err,
}
use sdk_elixir.Converter.{Payload}
use sdk_elixir.Elixir.Term.{Term}
use sdk_elixir.Elixir.PayloadConverter.{PayloadConverter, Raises, Outcome, made, failed, skip}
use sdk_elixir.Elixir.PayloadConverter.Chain.{
  Converters, Failure, no_converter_for, sort_converters_by_priority, try_converters_for_data,
  convert_single_data, to_payload,
}
use sdk_elixir.Base.Stable.{IsStableSort}
use sdk_elixir.Elixir.PayloadConverter.Chain.Order.{
  sort_converters_by_priority-IsStableSort, sort_converters_by_priority-Any,
}

module _ {F : Type 0} (t : Term F) where
  abbrev pub Makes : Payload → PayloadConverter F → Type 0
  Makes p c = c.to_payload t ≡ ok (made p)

  -- The converter makes no payload of the term: it refuses it, fails, or raises.
  abbrev pub Skips : PayloadConverter F → Type 0
  Skips c = (p : Payload) → c.to_payload t ≢ ok (made p)

  -- Some converter makes `p`, and none before it makes any payload.
  abbrev pub FirstMakes : Payload → Converters F → Type 0
  FirstMakes p [] = ⊥
  FirstMakes p (c ∷ cs) = Makes p c ⊎ (Skips c × FirstMakes p cs)

  Made-cases :
      (r : Raises (Outcome Payload))
      → ((p : Payload) × (r ≡ ok (made p))) ⊎ ((p : Payload) → r ≢ ok (made p))
  Made-cases (ok (made p)) = inl (p, refl)
  Made-cases (ok (failed e)) = inr (λ p h. cc)
  Made-cases (ok skip) = inr (λ p h. cc)
  Made-cases (err e) = inr (λ p h. cc)

  try_skip :
      (c : PayloadConverter F) (cs : Converters F)
      → Skips c
      → try_converters_for_data t (c ∷ cs) ≡ try_converters_for_data t cs
  unfolding try_converters_for_data
  try_skip c cs h = go (c.to_payload t) h
    where
      go :
          (r : Raises (Outcome Payload))
          → ((p : Payload) → r ≢ ok (made p))
          → (elim r [
            | ok (made p) ↦ some p
            | ok skip ↦ try_converters_for_data t cs
            | ok (failed _) ↦ try_converters_for_data t cs
            | err _ ↦ try_converters_for_data t cs
          ])
            ≡ try_converters_for_data t cs
      go (ok (made p)) k = absurd (k p refl)
      go (ok (failed e)) k = refl
      go (ok skip) k = refl
      go (err e) k = refl

  try→FirstMakes :
      (cs : Converters F) (p : Payload) → try_converters_for_data t cs ≡ some p → FirstMakes p cs
  unfolding try_converters_for_data
  try→FirstMakes [] p h = cc
  try→FirstMakes (c ∷ cs) p h = elim (Made-cases (c.to_payload t)) [
    | inl (q, e) ↦ inl (ground arith)
    | inr s ↦ inr (s, try→FirstMakes cs p (rw (try_skip c cs s) at h))
  ]

  FirstMakes→try :
      (cs : Converters F) (p : Payload) → FirstMakes p cs → try_converters_for_data t cs ≡ some p
  unfolding try_converters_for_data
  FirstMakes→try [] p h = absurd h
  FirstMakes→try (c ∷ cs) p (inl e) = rw e
  FirstMakes→try (c ∷ cs) p (inr (s, h)) = try_skip c cs s ∙ FirstMakes→try cs p h

  try_Skips : (cs : Converters F) → All Skips cs → try_converters_for_data t cs ≡ none
  unfolding try_converters_for_data
  try_Skips [] a = refl
  try_Skips (c ∷ cs) a = try_skip c cs a.0 ∙ try_Skips cs a.1

  Skips-try : (cs : Converters F) → try_converters_for_data t cs ≡ none → All Skips cs
  unfolding try_converters_for_data
  Skips-try [] h = tt
  Skips-try (c ∷ cs) h = elim (Made-cases (c.to_payload t)) [
    | inl (q, e) ↦ absurd (ground arith)
    | inr s ↦ (s, Skips-try cs (rw (try_skip c cs s) at h))
  ]

  -- The three results of a chain that is in order.
  convert_single_data-FirstMakes :
      (cs : Converters F)
      → ((p : Payload) → (convert_single_data t cs ≡ ok p) ↔ FirstMakes p cs)
        × ((convert_single_data t cs ≡ err (no_converter_for t)) ↔ All Skips cs)
        × ((e : Failure (Term F)) → convert_single_data t cs ≡ err e → e ≡ no_converter_for t)
  unfolding convert_single_data
  convert_single_data-FirstMakes cs = (
    λ p. (λ h. try→FirstMakes cs p (ground arith), λ h. ground (arith, FirstMakes→try cs p h)),
    (λ h. Skips-try cs (ground arith), λ h. ground (arith, try_Skips cs h)),
    λ e h. ground arith,
  )

  -- A chain makes of a term the payload of the first converter that makes one, if its converters are put
  -- into ascending order of their priority numbers, and those of one priority stay in their order; those
  -- before it refuse, fail or raise. If all do, the chain fails, with the reason :no_converter_found and
  -- the term, and with no other reason.
  pub to_payload-FirstMakes :
      (cs : Converters F)
      → (ds : Converters F) × IsStableSort (λ c. c.priority) ds cs
        × ((p : Payload) → (to_payload t cs ≡ ok p) ↔ FirstMakes p ds)
        × ((to_payload t cs ≡ err (no_converter_for t)) ↔ All Skips ds)
        × ((e : Failure (Term F)) → to_payload t cs ≡ err e → e ≡ no_converter_for t)
  unfolding to_payload
  to_payload-FirstMakes cs =
      let (makes, skips, fails) = convert_single_data-FirstMakes (sort_converters_by_priority cs) in
      (
        sort_converters_by_priority cs,
        sort_converters_by_priority-IsStableSort cs,
        makes,
        skips,
        fails,
      )

  FirstMakes-Any : (cs : Converters F) (p : Payload) → FirstMakes p cs → Any (Makes p) cs
  FirstMakes-Any [] p h = h
  FirstMakes-Any (c ∷ cs) p (inl e) = inl e
  FirstMakes-Any (c ∷ cs) p (inr (s, h)) = inr (FirstMakes-Any cs p h)

-- The payload of a chain is made by one of its converters.
pub to_payload-Any :
    {F : Type 0} (t : Term F) (cs : Converters F) (p : Payload)
    → to_payload t cs ≡ ok p
    → Any (Makes t p) cs
unfolding to_payload
to_payload-Any t cs p h = sort_converters_by_priority-Any (Makes t p) cs (
    FirstMakes-Any t (sort_converters_by_priority cs) p
      (((convert_single_data-FirstMakes t (sort_converters_by_priority cs)).0 p).0 h))
