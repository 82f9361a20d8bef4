-- ===== src/Client/Workflow.antt =====
-- `ClientResource::start_workflow`, `signal_workflow` and `query_workflow`
use sdk_elixir.Base.{
  String, ◌<>◌, Option, none, some, Result, ok, map_err, ◌>>=◌, unwrap_or, and_then, first, List,
  [], ◌∷◌,
}
use sdk_elixir.Base.Int.{display_int}
use sdk_elixir.Converter.{Payload, display}
use sdk_elixir.Converter.Composite.{from_payload}
use sdk_elixir.Client.{
  WorkflowStartParams, WorkflowHandle, WorkflowSignalParams, WorkflowQueryParams, QueryResponse,
  StartWorkflowExecutionRequest, SignalWorkflowExecutionRequest, QueryWorkflowRequest,
  QueryWorkflowResponse, SdkClient, ClientResource,
}

-- No payloads are sent as no input at all.
unfoldable pub input_payloads : Option (List Payload) → Option (List Payload)
input_payloads none = none
input_payloads (some []) = none
input_payloads (some (p ∷ ps)) = some (p ∷ ps)

module _ (S : SdkClient) {N : Type 0} (c : ClientResource S N) where
  -- `uuid` is the text of a fresh UUID.
  unfoldable pub start_request : String → WorkflowStartParams → StartWorkflowExecutionRequest
  unfolding input_payloads
  start_request uuid params = record {
    namespace = S.namespace c.inner;
    workflow_id = params.workflow_id;
    workflow_type = params.workflow_type;
    task_queue = params.task_queue;
    input = input_payloads params.input;
    request_id = unwrap_or uuid params.request_id;
  }

  unfoldable pub start_workflow : String → WorkflowStartParams → Result WorkflowHandle String
  unfolding start_request
  start_workflow uuid params = do
    run_id ←
        map_err (λ e. "Workflow start failed: " <> e)
          (S.start_workflow_execution c.inner (start_request uuid params))
    ok (record {
      run_id = run_id;
      workflow_id = params.workflow_id;
      first_execution_run_id = run_id;
    })

  unfoldable pub signal_request : String → WorkflowSignalParams → SignalWorkflowExecutionRequest
  unfolding input_payloads
  signal_request uuid params = record {
    namespace = unwrap_or (S.namespace c.inner) params.namespace;
    workflow_id = params.workflow_id;
    run_id = unwrap_or "" params.run_id;
    signal_name = params.signal_name;
    input = input_payloads params.input;
    request_id = uuid;
  }

  unfoldable pub signal_workflow : String → WorkflowSignalParams → Result (Unit {0}) String
  unfolding signal_request
  signal_workflow uuid params =
      map_err (λ e. "Signal workflow failed: " <> e)
        (S.signal_workflow_execution c.inner (signal_request uuid params))

  unfoldable pub query_request : WorkflowQueryParams → QueryWorkflowRequest
  unfolding input_payloads
  query_request params = record {
    namespace = unwrap_or (S.namespace c.inner) params.namespace;
    workflow_id = params.workflow_id;
    run_id = unwrap_or "" params.run_id;
    query_type = params.query_type;
    query_args = input_payloads params.input;
  }

  -- The answer of the server: a rejection, or the first payload read by the client's converters.
  unfoldable pub query_response : QueryWorkflowResponse → Result (QueryResponse N) String
  query_response response = elim response.query_rejected [
    | some status ↦
        ok (record {
          result = none;
          query_rejected = some ("Query rejected: " <> display_int status);
        })
    | none ↦ elim (and_then response.query_result first) [
      | none ↦ ok (record { result = none; query_rejected = none })
      | some payload ↦ do
        value ←
            map_err (λ e. "Failed to deserialize query result: " <> display e)
              (from_payload c.converter payload)
        ok (record { result = some value; query_rejected = none })
    ]
  ]

  unfoldable pub query_workflow : WorkflowQueryParams → Result (QueryResponse N) String
  unfolding query_request query_response
  query_workflow params = do
    response ←
        map_err (λ e. "Query workflow failed: " <> e)
          (S.query_workflow c.inner (query_request params))
    query_response response
