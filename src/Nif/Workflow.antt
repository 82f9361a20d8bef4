-- ===== src/Nif/Workflow.antt =====
-- `client_start_workflow`, `client_signal_workflow` and `client_query_workflow`
pub mod Input
pub mod Requests
pub mod Sends
pub mod Answers
use sdk_elixir.Base.{
  String, Option, none, some, Result, ok, err, ◌>>=◌, ◌>>◌, and_then, to_option, List, [], ◌∷◌,
}
use sdk_elixir.Base.Dict.{Dict}
use sdk_elixir.Base.Int.{ℤ}
use sdk_elixir.Json.{Value}
use sdk_elixir.Converter.{Payload}
use sdk_elixir.Client.{
  WorkflowStartParams, WorkflowHandle, WorkflowSignalParams, WorkflowQueryParams, QueryResponse,
  SdkClient, ClientResource,
}
use sdk_elixir.Client.Workflow.{start_workflow, signal_workflow, query_workflow}
use sdk_elixir.Nif.{Rustler, error_reply, ok_reply, params_map, required, optional}
use sdk_elixir.Nif.Payload.{push_payloads, collect_payloads}
use sdk_elixir.Nif.Json.{json_value_to_elixir_term}

module _ (R : Rustler) where
  -- The closures over the term of `input`.
  unfoldable pub start_input : R.Term → Option (List Payload)
  start_input t = and_then (R.decode_list t) (push_payloads R [])

  unfoldable pub collected_input : R.Term → Option (List Payload)
  collected_input t = and_then (R.decode_list t) (λ ts. to_option (collect_payloads R ts))

  unfoldable pub parse_start : R.Term → Result WorkflowStartParams String
  unfolding params_map required optional
  parse_start params = do
    m ← params_map R "Parameters must be a map" params
    workflow_id ← required R "workflow_id" m
    workflow_type ← required R "workflow_type" m
    task_queue ← required R "task_queue" m
    ok (record {
      workflow_id = workflow_id;
      workflow_type = workflow_type;
      task_queue = task_queue;
      input = optional R start_input "input" m;
      request_id = optional R R.decode_string "request_id" m;
      execution_timeout = optional R R.decode_u64 "execution_timeout" m;
      run_timeout = optional R R.decode_u64 "run_timeout" m;
      task_timeout = optional R R.decode_u64 "task_timeout" m;
    })

  unfoldable pub parse_signal : R.Term → Result WorkflowSignalParams String
  unfolding params_map required optional
  parse_signal params = do
    m ← params_map R "Parameters must be a map" params
    workflow_id ← required R "workflow_id" m
    signal_name ← required R "signal_name" m
    ok (record {
      workflow_id = workflow_id;
      run_id = optional R R.decode_string "run_id" m;
      signal_name = signal_name;
      input = optional R collected_input "input" m;
      namespace = optional R R.decode_string "namespace" m;
    })

  unfoldable pub parse_query : R.Term → Result WorkflowQueryParams String
  unfolding params_map required optional
  parse_query params = do
    m ← params_map R "Parameters must be a map" params
    workflow_id ← required R "workflow_id" m
    query_type ← required R "query_type" m
    ok (record {
      workflow_id = workflow_id;
      run_id = optional R R.decode_string "run_id" m;
      query_type = query_type;
      input = optional R collected_input "input" m;
      namespace = optional R R.decode_string "namespace" m;
    })

  -- The handle, as a list of pairs.
  unfoldable pub handle_term : WorkflowHandle → R.Term
  handle_term h = R.list (
      R.pair (R.text "run_id") (R.text h.run_id)
      ∷ R.pair (R.text "workflow_id") (R.text h.workflow_id)
      ∷ R.pair (R.text "first_execution_run_id") (R.text h.first_execution_run_id)
      ∷ [])

  module _ (S : SdkClient) {N : Type 0} (c : ClientResource S N) where
    unfoldable pub client_start_workflow : String → R.Term → R.Term
    unfolding parse_start start_workflow handle_term
    client_start_workflow uuid params = elim (parse_start params) [
      | err message ↦ error_reply R message
      | ok start ↦ elim (start_workflow S c uuid start) [
        | ok handle ↦ ok_reply R (handle_term handle)
        | err message ↦ error_reply R message
      ]
    ]

    unfoldable pub client_signal_workflow : String → R.Term → R.Term
    unfolding parse_signal signal_workflow
    client_signal_workflow uuid params = elim (parse_signal params) [
      | err message ↦ error_reply R message
      | ok signal ↦ elim (signal_workflow S c uuid signal) [
        | ok _ ↦ R.atom "ok"
        | err message ↦ error_reply R message
      ]
    ]

    module _ (as_i64 : N → Option ℤ) (as_f64 : N → Option R.Float) where
      -- What is answered to a query that the server has answered.
      unfoldable pub query_reply : QueryResponse N → R.Term
      query_reply response = elim response.query_rejected [
        | some rejection ↦ error_reply R rejection
        | none ↦ elim response.result [
          | none ↦ ok_reply R (R.atom "nil")
          | some value ↦ elim (json_value_to_elixir_term R as_i64 as_f64 value) [
            | ok t ↦ ok_reply R t
            | err _ ↦ ok_reply R (R.atom "nil")
          ]
        ]
      ]

      unfoldable pub client_query_workflow : R.Term → R.Term
      unfolding parse_query query_workflow query_reply json_value_to_elixir_term
      client_query_workflow params = elim (parse_query params) [
        | err message ↦ error_reply R message
        | ok query ↦ elim (query_workflow S c query) [
          | ok response ↦ query_reply response
          | err message ↦ error_reply R message
        ]
      ]
