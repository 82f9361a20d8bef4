-- ===== src/Nif/Workflow/Input.antt =====
-- Which payloads the workflow functions send for the entry `input`.
use sdk_elixir.Base.{
  ◌≡◌, ◌≢◌, refl, ◌⊎◌, inl, inr, String, Option, none, some, Option-cases, Result-cases, ok, err,
  and_then, Any, List, [], ◌∷◌,
}
use sdk_elixir.Converter.{Payload}
use sdk_elixir.Client.Workflow.{input_payloads}
use sdk_elixir.Nif.{Rustler}
use sdk_elixir.Nif.Payload.{term_to_payload, collect_payloads}
use sdk_elixir.Nif.Payload.Inputs.{start_input-eq-collected_input}
use sdk_elixir.Nif.Workflow.{start_input, collected_input}

-- A list of payloads is sent as it is, but an empty one as no input.
abbrev pub IsSent : List Payload → Option (List Payload) → Type 0
IsSent ps sent = ((ps ≡ []) × (sent ≡ none)) ⊎ ((ps ≢ []) × (sent ≡ some ps))

pub input_payloads-IsSent : (ps : List Payload) → IsSent ps (input_payloads (some ps))
unfolding input_payloads
input_payloads-IsSent [] = inl (refl, refl)
input_payloads-IsSent (p ∷ ps) = inr ((λ e. cc), refl)

module _ (R : Rustler) where
  -- The terms are payloads, one by one and in this order.
  abbrev pub AllPayloads : List R.Term → List Payload → Type 0
  AllPayloads [] [] = Unit
  AllPayloads (t ∷ ts) (p ∷ ps) = (term_to_payload R t ≡ ok p) × AllPayloads ts ps
  AllPayloads _ _ = ⊥

  -- Some term is no payload.
  abbrev pub AnyFails : List R.Term → Type 0
  AnyFails ts = Any (λ t. (e : String) × (term_to_payload R t ≡ err e)) ts

  -- What is sent for an entry: nothing if it is missing, no list, or a list with a term that is no
  -- payload, and else the payloads of its terms.
  abbrev pub IsInput : Option R.Term → Option (List Payload) → Type 0
  IsInput none sent = sent ≡ none
  IsInput (some t) sent =
      ((R.decode_list t ≡ none) × (sent ≡ none))
      ⊎ ((ts : List R.Term) × (R.decode_list t ≡ some ts)
          × ((AnyFails ts × (sent ≡ none))
              ⊎ ((ps : List Payload) × AllPayloads ts ps × IsSent ps sent)))

  collect_payloads-cases :
      (ts : List R.Term)
      → ((ps : List Payload) × (collect_payloads R ts ≡ ok ps) × AllPayloads ts ps)
        ⊎ ((e : String) × (collect_payloads R ts ≡ err e) × AnyFails ts)
  unfolding collect_payloads
  collect_payloads-cases [] = inl ([], refl, tt)
  collect_payloads-cases (t ∷ ts) = elim (Result-cases (term_to_payload R t)) [
    | inr (e, h) ↦ inr (e, rw h refl, inl (e, h))
    | inl (p, h) ↦ elim (collect_payloads-cases ts) [
      | inl (ps, k, a) ↦ inl (p ∷ ps, rw (h, k) refl, (h, a))
      | inr (e, k, a) ↦ inr (e, rw (h, k) refl, inr a)
    ]
  ]

  pub collected_input-IsInput :
      (o : Option R.Term) → IsInput o (input_payloads (and_then o (collected_input R)))
  unfolding collected_input input_payloads
  collected_input-IsInput none = refl
  collected_input-IsInput (some t) = elim (Option-cases (R.decode_list t)) [
    | inl e ↦ inl (e, rw e refl)
    | inr (ts, e) ↦ inr (
      ts,
      e,
      elim (collect_payloads-cases ts) [
        | inr (x, k, a) ↦ inl (a, rw (e, k) refl)
        | inl (ps, k, a) ↦ inr (ps, a, rw (e, k) (input_payloads-IsSent ps))
      ],
    )
  ]

  pub start_input-IsInput :
      (o : Option R.Term) → IsInput o (input_payloads (and_then o (start_input R)))
  unfolding input_payloads
  start_input-IsInput none = refl
  start_input-IsInput (some t) =
      rw (start_input-eq-collected_input R t) (collected_input-IsInput (some t))
