-- ===== src/Nif/Workflow/Requests.antt =====
-- Which parameters the workflow functions refuse, and what they read of the others.
use sdk_elixir.Base.{
  ◌≡◌, refl, inl, inr, String, ◌<>◌, Option, Option-cases, none, some, and_then, ok, err, or_else,
  All, List, [], ◌∷◌, arith,
}
use sdk_elixir.Base.Dict
use sdk_elixir.Base.Dict.{Dict}
use sdk_elixir.Base.Int.{ℤ}
use sdk_elixir.Client.{SdkClient, ClientResource}
use sdk_elixir.Nif.{Rustler, error_reply, optional}
use sdk_elixir.Nif.Workflow.{
  start_input, collected_input, parse_start, parse_signal, parse_query, client_start_workflow,
  client_signal_workflow, client_query_workflow,
}

module _ (R : Rustler) where
  -- What is wrong with the entry of a key that must be a text.
  unfoldable pub problem : String → Dict R.Term → Option String
  problem key m = elim (Dict.get key m) [
    | none ↦ some (key <> " is required")
    | some t ↦ elim (R.decode_string t) [ some _ ↦ none | none ↦ some (key <> " must be a string") ]
  ]

  -- The problem of the first key that has one.
  unfoldable pub first_problem : List String → Dict R.Term → Option String
  first_problem [] m = none
  first_problem (key ∷ keys) m = or_else (problem key m) (first_problem keys m)

  pub parse_start-problem :
      (t : R.Term) (m : Dict R.Term) (e : String)
      → R.decode_map t ≡ some m
      → first_problem ("workflow_id" ∷ "workflow_type" ∷ "task_queue" ∷ []) m ≡ some e
      → parse_start R t ≡ err e
  unfolding parse_start first_problem problem
  parse_start-problem t m e h p = ground arith

  pub parse_signal-problem :
      (t : R.Term) (m : Dict R.Term) (e : String)
      → R.decode_map t ≡ some m
      → first_problem ("workflow_id" ∷ "signal_name" ∷ []) m ≡ some e
      → parse_signal R t ≡ err e
  unfolding parse_signal first_problem problem
  parse_signal-problem t m e h p = ground arith

  parse_query-problem :
      (t : R.Term) (m : Dict R.Term) (e : String)
      → R.decode_map t ≡ some m
      → first_problem ("workflow_id" ∷ "query_type" ∷ []) m ≡ some e
      → parse_query R t ≡ err e
  unfolding parse_query first_problem problem
  parse_query-problem t m e h p = ground arith

  -- The text under a key.
  abbrev pub text_at : String → Dict R.Term → Option String
  text_at key m = and_then (Dict.get key m) R.decode_string

  -- Under the keys of which none has a problem there are texts.
  problem-none :
      (key : String) (m : Dict R.Term)
      → problem key m ≡ none
      → (s : String) × (text_at key m ≡ some s)
  unfolding problem
  problem-none key m h = elim (Option-cases (Dict.get key m)) [
    | inl e ↦ absurd (ground arith)
    | inr (t, e) ↦ elim (Option-cases (R.decode_string t)) [
      | inl d ↦ absurd (ground arith)
      | inr (s, d) ↦ (s, rw (e, d) refl)
    ]
  ]

  pub first_problem-none :
      (keys : List String) (m : Dict R.Term)
      → first_problem keys m ≡ none
      → All (λ key. (s : String) × (text_at key m ≡ some s)) keys
  unfolding first_problem
  first_problem-none [] m h = tt
  first_problem-none (key ∷ keys) m h = elim (Option-cases (problem key m)) [
    | inl e ↦ (problem-none key m e, first_problem-none keys m (ground arith))
    | inr (x, e) ↦ absurd (ground arith)
  ]

  pub parse_start-fine :
      (t : R.Term) (m : Dict R.Term) (i k q : String)
      → R.decode_map t ≡ some m
      → text_at "workflow_id" m ≡ some i
      → text_at "workflow_type" m ≡ some k
      → text_at "task_queue" m ≡ some q
      → parse_start R t
        ≡ ok (record {
          workflow_id = i;
          workflow_type = k;
          task_queue = q;
          input = and_then (Dict.get "input" m) (start_input R);
          request_id = text_at "request_id" m;
          execution_timeout = and_then (Dict.get "execution_timeout" m) R.decode_u64;
          run_timeout = and_then (Dict.get "run_timeout" m) R.decode_u64;
          task_timeout = and_then (Dict.get "task_timeout" m) R.decode_u64;
        })
  unfolding parse_start optional
  parse_start-fine t m i k q h hi hk hq = ground arith

  pub parse_signal-fine :
      (t : R.Term) (m : Dict R.Term) (i k : String)
      → R.decode_map t ≡ some m
      → text_at "workflow_id" m ≡ some i
      → text_at "signal_name" m ≡ some k
      → parse_signal R t
        ≡ ok (record {
          workflow_id = i;
          run_id = text_at "run_id" m;
          signal_name = k;
          input = and_then (Dict.get "input" m) (collected_input R);
          namespace = text_at "namespace" m;
        })
  unfolding parse_signal optional
  parse_signal-fine t m i k h hi hk = ground arith

module _ (R : Rustler) (S : SdkClient) {N : Type 0} (c : ClientResource S N) where
  -- A map of parameters in which a required key is missing or is no text is refused, whatever the
  -- server would answer: the three functions reply with the error that names the first such key, in
  -- the order in which each function reads its keys.
  pub workflow_functions_refuse :
      (as_i64 : N → Option ℤ) (as_f64 : N → Option R.Float)
      → (uuid : String) (t : R.Term) (m : Dict R.Term) (e : String) → R.decode_map t ≡ some m
      → (first_problem R ("workflow_id" ∷ "workflow_type" ∷ "task_queue" ∷ []) m ≡ some e
          → client_start_workflow R S c uuid t ≡ error_reply R e)
        × (first_problem R ("workflow_id" ∷ "signal_name" ∷ []) m ≡ some e
            → client_signal_workflow R S c uuid t ≡ error_reply R e)
        × (first_problem R ("workflow_id" ∷ "query_type" ∷ []) m ≡ some e
            → client_query_workflow R S c as_i64 as_f64 t ≡ error_reply R e)
  unfolding client_start_workflow client_signal_workflow client_query_workflow
  workflow_functions_refuse as_i64 as_f64 uuid t m e h = (
    λ p. rw (parse_start-problem R t m e h p, client_start_workflow),
    λ p. rw (parse_signal-problem R t m e h p, client_signal_workflow),
    λ p. rw (parse_query-problem R t m e h p, client_query_workflow),
  )
