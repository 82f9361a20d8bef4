-- ===== src/Nif/Payload/Inputs.antt =====
-- The two ways in which the workflow functions turn the terms of `input` into payloads.
use mathlib.Core.List.{append-nil, append_assoc}
use sdk_elixir.Base.{
  ◌≡◌, refl, sym, ◌∙◌, ap, inl, inr, Option-cases, Result-cases, String, Option, none, some, Result,
  ok, err, then_try, to_option, List, [], ◌∷◌, ◌++◌,
}
use mathlib.Core.Option
use sdk_elixir.Converter.{Payload}
use sdk_elixir.Nif.{Rustler}
use sdk_elixir.Nif.Payload.{term_to_payload, push_payloads, collect_payloads}
use sdk_elixir.Nif.Workflow.{start_input, collected_input}

module _ (R : Rustler) where
  push_first :
      (done : List Payload) (p : Payload) (r : Result (List Payload) String)
      → Option.map (λ ps. (done ++ p ∷ []) ++ ps) (to_option r)
        ≡ Option.map (λ ps. done ++ ps) (to_option (then_try r (λ ps. ok (p ∷ ps))))
  push_first done p (ok ps) = ap some (append_assoc done (p ∷ []) ps)
  push_first done p (err e) = refl

  push_payloads_lem :
      (done : List Payload) (ts : List R.Term)
      → push_payloads R done ts ≡ Option.map (λ ps. done ++ ps) (to_option (collect_payloads R ts))
  unfolding push_payloads collect_payloads
  push_payloads_lem done [] = ap some (sym (append-nil done))
  push_payloads_lem done (t ∷ ts) = elim (Result-cases (term_to_payload R t)) [
    | inl (p, e) ↦
        rw (e, push_payloads)
          (push_payloads_lem (done ++ p ∷ []) ts ∙ push_first done p (collect_payloads R ts))
    | inr (m, e) ↦ rw (e, push_payloads)
  ]

  map_same : (o : Option (List Payload)) → Option.map (λ ps. [] ++ ps) o ≡ o
  map_same none = refl
  map_same (some ps) = refl

  -- `client_start_workflow` collects its input by a loop that gives up at the first term that is no
  -- payload, the other two functions by `collect` into a `Result`: they give the same payloads, and
  -- give no input for the same terms.
  pub start_input-eq-collected_input : (t : R.Term) → start_input R t ≡ collected_input R t
  unfolding start_input collected_input
  start_input-eq-collected_input t = elim (Option-cases (R.decode_list t)) [
    | inl e ↦ rw e
    | inr (ts, e) ↦ rw e (push_payloads_lem [] ts ∙ map_same _)
  ]
