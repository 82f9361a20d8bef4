-- ===== src/Nif/Workflow/Sends.antt =====
-- What the workflow functions send for a map of parameters.
use sdk_elixir.Base.{
  ◌≡◌, refl, ◌⊎◌, inl, inr, String, ◌<>◌, Option, Option-cases, some, and_then, Result, ok, err,
  unwrap_or, List, [], ◌∷◌, arith,
}
use sdk_elixir.Base.Dict
use sdk_elixir.Base.Dict.{Dict}
use sdk_elixir.Client.{SdkClient, ClientResource}
use sdk_elixir.Client.Workflow.{input_payloads}
use sdk_elixir.Nif.{Rustler}
use sdk_elixir.Converter.{Payload}
use sdk_elixir.Nif.Workflow.Input.{IsInput, collected_input-IsInput, start_input-IsInput}
use sdk_elixir.Nif.Workflow.{
  start_input, collected_input, client_start_workflow, client_signal_workflow,
}
use sdk_elixir.Nif.Workflow.Requests.{
  text_at, first_problem, parse_start-problem, parse_signal-problem, parse_start-fine,
  parse_signal-fine, first_problem-none,
}

module _ (R : Rustler) where
  -- The reply to a start: the run id of the server, as run id and first run id, with the workflow id.
  abbrev pub started_reply : String → Result String String → R.Term
  started_reply workflow_id (ok run_id) = R.pair (R.atom "ok") (
      R.list (
        R.pair (R.text "run_id") (R.text run_id)
        ∷ R.pair (R.text "workflow_id") (R.text workflow_id)
        ∷ R.pair (R.text "first_execution_run_id") (R.text run_id)
        ∷ []))
  started_reply workflow_id (err e) =
      R.pair (R.atom "error") (R.text ("Workflow start failed: " <> e))

  abbrev pub signalled_reply : Result (Unit {0}) String → R.Term
  signalled_reply (ok _) = R.atom "ok"
  signalled_reply (err e) = R.pair (R.atom "error") (R.text ("Signal workflow failed: " <> e))

module _ (R : Rustler) (S : SdkClient) {N : Type 0} (c : ClientResource S N) where
  pub client_start_workflow-fine :
      (uuid : String) (t : R.Term) (m : Dict R.Term) (i k q : String)
      → R.decode_map t ≡ some m
      → text_at R "workflow_id" m ≡ some i
      → text_at R "workflow_type" m ≡ some k
      → text_at R "task_queue" m ≡ some q
      → client_start_workflow R S c uuid t
        ≡ started_reply R i (
            S.start_workflow_execution c.inner (record {
              namespace = S.namespace c.inner;
              workflow_id = i;
              workflow_type = k;
              task_queue = q;
              input = input_payloads (and_then (Dict.get "input" m) (start_input R));
              request_id = unwrap_or uuid (text_at R "request_id" m);
            }))
  unfolding client_start_workflow
  client_start_workflow-fine uuid t m i k q h hi hk hq =
      rw (parse_start-fine R t m i k q h hi hk hq, client_start_workflow) (ground arith)

  client_signal_workflow-fine :
      (uuid : String) (t : R.Term) (m : Dict R.Term) (i k : String)
      → R.decode_map t ≡ some m
      → text_at R "workflow_id" m ≡ some i
      → text_at R "signal_name" m ≡ some k
      → client_signal_workflow R S c uuid t
        ≡ signalled_reply R (
            S.signal_workflow_execution c.inner (record {
              namespace = unwrap_or (S.namespace c.inner) (text_at R "namespace" m);
              workflow_id = i;
              run_id = unwrap_or "" (text_at R "run_id" m);
              signal_name = k;
              input = input_payloads (and_then (Dict.get "input" m) (collected_input R));
              request_id = uuid;
            }))
  unfolding client_signal_workflow
  client_signal_workflow-fine uuid t m i k h hi hk =
      rw (parse_signal-fine R t m i k h hi hk, client_signal_workflow) (ground arith)

  -- Of every map of parameters, `client_start_workflow` either refuses it, with the error that names
  -- the first required key that is missing or no text; or it sends one request, which carries the three
  -- required texts, the client's namespace, the request id that is given or else the fresh one, and the
  -- payloads of the terms of `input`, in order: nothing if `input` is missing, no list, an empty list,
  -- or a list with a term that is no payload. Then the reply is the run id of the server, as run id
  -- and first run id, with the workflow id; or the server's error.
  pub client_start_workflow-sends :
      (uuid : String) (t : R.Term) (m : Dict R.Term)
      → R.decode_map t ≡ some m
      → ((e : String) × (first_problem R ("workflow_id" ∷ "workflow_type" ∷ "task_queue" ∷ []) m
            ≡ some e)
          × (client_start_workflow R S c uuid t ≡ R.pair (R.atom "error") (R.text e)))
        ⊎ ((i k q : String) × (sent : Option (List Payload)) × (text_at R "workflow_id" m ≡ some i)
            × (text_at R "workflow_type" m ≡ some k)
            × (text_at R "task_queue" m ≡ some q)
            × IsInput R (Dict.get "input" m) sent
            × (client_start_workflow R S c uuid t
                ≡ started_reply R i (
                    S.start_workflow_execution c.inner (record {
                      namespace = S.namespace c.inner;
                      workflow_id = i;
                      workflow_type = k;
                      task_queue = q;
                      input = sent;
                      request_id = unwrap_or uuid (text_at R "request_id" m);
                    }))))
  client_start_workflow-sends uuid t m h =
      elim (Option-cases
        (first_problem R ("workflow_id" ∷ "workflow_type" ∷ "task_queue" ∷ []) m)) [
          | inr (e, p) ↦ inl (
            e,
            p,
            unfold client_start_workflow in
                rw (parse_start-problem R t m e h p, client_start_workflow) refl,
          )
          | inl p ↦
              let ((i, hi), ((k, hk), ((q, hq), _))) = first_problem-none R _ m p in
              inr (
                i,
                k,
                q,
                _,
                hi,
                hk,
                hq,
                start_input-IsInput R (Dict.get "input" m),
                client_start_workflow-fine uuid t m i k q h hi hk hq,
              )
        ]

  -- Of every map of parameters, `client_signal_workflow` either refuses it, with the error that names
  -- the first required key that is missing or no text; or it sends one request, which carries the two
  -- required texts, a fresh request id, the namespace that is given or else the client's, the run id
  -- that is given or else the empty one, and the payloads of the terms of `input`, in order: nothing if
  -- `input` is missing, no list, an empty list, or a list with a term that is no payload. Then the reply
  -- is `ok`, or the server's error.
  pub client_signal_workflow-sends :
      (uuid : String) (t : R.Term) (m : Dict R.Term)
      → R.decode_map t ≡ some m
      → ((e : String) × (first_problem R ("workflow_id" ∷ "signal_name" ∷ []) m ≡ some e)
          × (client_signal_workflow R S c uuid t ≡ R.pair (R.atom "error") (R.text e)))
        ⊎ ((i k : String) × (sent : Option (List Payload)) × (text_at R "workflow_id" m ≡ some i)
            × (text_at R "signal_name" m ≡ some k)
            × IsInput R (Dict.get "input" m) sent
            × (client_signal_workflow R S c uuid t
                ≡ signalled_reply R (
                    S.signal_workflow_execution c.inner (record {
                      namespace = unwrap_or (S.namespace c.inner) (text_at R "namespace" m);
                      workflow_id = i;
                      run_id = unwrap_or "" (text_at R "run_id" m);
                      signal_name = k;
                      input = sent;
                      request_id = uuid;
                    }))))
  client_signal_workflow-sends uuid t m h =
      elim (Option-cases (first_problem R ("workflow_id" ∷ "signal_name" ∷ []) m)) [
        | inr (e, p) ↦ inl (
          e,
          p,
          unfold client_signal_workflow in
              rw (parse_signal-problem R t m e h p, client_signal_workflow) refl,
        )
        | inl p ↦
            let ((i, hi), ((k, hk), _)) = first_problem-none R _ m p in
            inr (
              i,
              k,
              _,
              hi,
              hk,
              collected_input-IsInput R (Dict.get "input" m),
              client_signal_workflow-fine uuid t m i k h hi hk,
            )
      ]
