-- ===== src/Examples/Server.antt =====
-- A stand-in for the server and for sdk-core's client, and the theorems on the workflow functions, at
-- concrete parameters.
use sdk_elixir.Base.{
  ℕ, String, ◌==◌, if◌then◌else◌, Option, none, some, Result, ok, [], ◌∷◌, ◌≡◌, refl, ◌⊎◌, List,
  unwrap_or,
}
use sdk_elixir.Base.Dict
use sdk_elixir.Base.Dict.{Dict}
use sdk_elixir.Base.Int.{ℤ, pos}
use sdk_elixir.Converter.{Payload}
use sdk_elixir.Converter.JsonConverter.Canonical.{canonical}
use sdk_elixir.Client.{
  SdkClient, ClientResource, QueryWorkflowRequest, QueryWorkflowResponse, WorkflowQueryParams,
}
use sdk_elixir.Client.Workflow.{query_request}
use sdk_elixir.Nif.{error_reply, ok_reply, params_map, required, optional}
use sdk_elixir.Nif.Workflow.{
  parse_query, client_start_workflow, client_signal_workflow, client_query_workflow,
}
use sdk_elixir.Nif.Workflow.Input.{IsInput}
use sdk_elixir.Nif.Workflow.Sends.{
  started_reply, signalled_reply, client_start_workflow-sends, client_signal_workflow-sends,
}
use sdk_elixir.Nif.Workflow.Requests.{first_problem, problem, text_at, workflow_functions_refuse}
use sdk_elixir.Nif.Workflow.Answers.{term_or_nil, client_query_workflow-reads}
use sdk_elixir.Examples.Codec.{codec, codec-IsLawful}
use sdk_elixir.Examples.Conversions.{
  unsorted, chain, chain-IsBuiltIn, sorted_payload, chain_makes, unsorted-IsProper,
  unsorted-AllNumbers,
}
use sdk_elixir.Examples.Terms.{Term, Entries, text, map, end, entry, to_dict, terms}

-- The server rejects every query but "state", which it answers with a payload.
abbrev answer_query : String → QueryWorkflowRequest → Result QueryWorkflowResponse String
answer_query client request =
    if request.query_type == "state"
    then ok (record { query_rejected = none; query_result = some (sorted_payload ∷ []) })
    else ok (record { query_rejected = some (pos 2); query_result = none })

-- A client is its namespace.
abbrev pub server : SdkClient
server = record {
  Client = String;
  Url = String;
  parse_url = ok;
  read_file = λ _. ok [];
  build = ok;
  connect = λ _ namespace. ok namespace;
  namespace = λ client. client;
  start_workflow_execution = λ _ _. ok "run-1";
  signal_workflow_execution = λ _ _. ok tt;
  query_workflow = answer_query;
}

abbrev pub client : ClientResource server ℕ
client = record { inner = "default"; converter = chain }

abbrev as_i64 : ℕ → Option ℤ
as_i64 n = some (pos n)

abbrev as_f64 : ℕ → Option ℕ
as_f64 n = none

abbrev query_entries : String → Entries
query_entries kind = entry "workflow_id" (text "w") (entry "query_type" (text kind) end)

abbrev query_of : String → WorkflowQueryParams
query_of kind = record {
  workflow_id = "w";
  run_id = none;
  query_type = kind;
  input = none;
  namespace = none;
}

parsed_query : parse_query terms (map (query_entries "state")) ≡ ok (query_of "state")
unfolding parse_query params_map required optional Dict.get
parsed_query = refl

client_query_workflow-reads_example :
    client_query_workflow terms server client as_i64 as_f64 (map (query_entries "state"))
    ≡ ok_reply terms
        (term_or_nil terms server codec client as_i64 as_f64 (canonical codec unsorted))
unfolding query_request
client_query_workflow-reads_example =
    client_query_workflow-reads terms server codec client as_i64 as_f64 codec-IsLawful unsorted
      sorted_payload [] (map (query_entries "state")) (query_of "state") unsorted-IsProper
      unsorted-AllNumbers chain-IsBuiltIn chain_makes parsed_query refl

parsed_other : parse_query terms (map (query_entries "other")) ≡ ok (query_of "other")
unfolding parse_query params_map required optional Dict.get
parsed_other = refl

abbrev start_entries : Entries
start_entries = entry "workflow_id" (text "w") (
    entry "workflow_type" (text "greet")
      (entry "task_queue" (text "q") (entry "signal_name" (text "s") end)))

abbrev start_map : Dict Term
start_map = to_dict start_entries

client_start_workflow-sends_example :
    ((e : String) × (first_problem terms
          ("workflow_id" ∷ "workflow_type" ∷ "task_queue" ∷ [])
          start_map
        ≡ some e)
      × (client_start_workflow terms server client "uuid" (map start_entries)
          ≡ terms.pair (terms.atom "error") (terms.text e)))
    ⊎ ((i k q : String) × (sent : Option (List Payload)) × (text_at terms "workflow_id" start_map
          ≡ some i)
        × (text_at terms "workflow_type" start_map ≡ some k)
        × (text_at terms "task_queue" start_map ≡ some q)
        × IsInput terms (Dict.get "input" start_map) sent
        × (client_start_workflow terms server client "uuid" (map start_entries)
            ≡ started_reply terms i (
                server.start_workflow_execution "default" (record {
                  namespace = "default";
                  workflow_id = i;
                  workflow_type = k;
                  task_queue = q;
                  input = sent;
                  request_id = unwrap_or "uuid" (text_at terms "request_id" start_map);
                }))))
client_start_workflow-sends_example =
    client_start_workflow-sends terms server client "uuid" (map start_entries) start_map refl

client_signal_workflow-sends_example :
    ((e : String) × (first_problem terms ("workflow_id" ∷ "signal_name" ∷ []) start_map ≡ some e)
      × (client_signal_workflow terms server client "uuid" (map start_entries)
          ≡ terms.pair (terms.atom "error") (terms.text e)))
    ⊎ ((i k : String) × (sent : Option (List Payload)) × (text_at terms "workflow_id" start_map
          ≡ some i)
        × (text_at terms "signal_name" start_map ≡ some k)
        × IsInput terms (Dict.get "input" start_map) sent
        × (client_signal_workflow terms server client "uuid" (map start_entries)
            ≡ signalled_reply terms (
                server.signal_workflow_execution "default" (record {
                  namespace = unwrap_or "default" (text_at terms "namespace" start_map);
                  workflow_id = i;
                  run_id = unwrap_or "" (text_at terms "run_id" start_map);
                  signal_name = k;
                  input = sent;
                  request_id = "uuid";
                }))))
client_signal_workflow-sends_example =
    client_signal_workflow-sends terms server client "uuid" (map start_entries) start_map refl

-- The map has no workflow type, nor a task queue.
abbrev short_map : Dict Term
short_map = to_dict (query_entries "state")

workflow_functions_refuse_example :
    (first_problem terms ("workflow_id" ∷ "workflow_type" ∷ "task_queue" ∷ []) short_map
        ≡ some "workflow_type is required"
      → client_start_workflow terms server client "uuid" (map (query_entries "state"))
        ≡ error_reply terms "workflow_type is required")
    × (first_problem terms ("workflow_id" ∷ "signal_name" ∷ []) short_map
          ≡ some "workflow_type is required"
        → client_signal_workflow terms server client "uuid" (map (query_entries "state"))
          ≡ error_reply terms "workflow_type is required")
    × (first_problem terms ("workflow_id" ∷ "query_type" ∷ []) short_map
          ≡ some "workflow_type is required"
        → client_query_workflow terms server client as_i64 as_f64 (map (query_entries "state"))
          ≡ error_reply terms "workflow_type is required")
workflow_functions_refuse_example =
    workflow_functions_refuse terms server client as_i64 as_f64 "uuid" (map (query_entries "state"))
      short_map "workflow_type is required" refl

first_missing :
    first_problem terms ("workflow_id" ∷ "workflow_type" ∷ "task_queue" ∷ []) short_map
    ≡ some "workflow_type is required"
unfolding first_problem problem Dict.get
first_missing = refl
