-- ===== src/Examples/ElixirStart.antt =====
-- A workflow that is started from Elixir, with concrete parameters.
use sdk_elixir.Base.{List, Option, ℕ, ◌≡◌, refl, none, ok, [], ◌∷◌}
use sdk_elixir.Base.Dict
use sdk_elixir.Base.Dict.{Dict}
use sdk_elixir.Converter.{Payload}
use sdk_elixir.Nif.Workflow.Input.{IsSent}
use sdk_elixir.Nif.Workflow.Sends.{started_reply}
use sdk_elixir.Nif.Workflow.{client_start_workflow}
use sdk_elixir.Elixir.Term.{Term, wrap}
use sdk_elixir.Elixir.PayloadConverter.Chain.{to_payloads, default_converter_chain}
use sdk_elixir.Elixir.Client.Config.{text_term}
use sdk_elixir.Elixir.Client.Params.{normalize_workflow_params}
use sdk_elixir.Elixir.Bridge.{HasDistinctKeys}
use sdk_elixir.Elixir.Bridge.{atom_map}
use sdk_elixir.Elixir.Bridge.Inputs.{AllSame}
use sdk_elixir.Elixir.Bridge.Start.{normalize_workflow_params-client_start_workflow}
use sdk_elixir.Examples.Carried.{carries}
use sdk_elixir.Examples.Erlang.{machine}
use sdk_elixir.Examples.Rustler.{erlang}
use sdk_elixir.Examples.Elixir.{entry_term, entry_payload}
use sdk_elixir.Examples.Server.{server, client}

-- %{workflow_id: "w", workflow_type: "t", task_queue: "q", input: %{"a" => 7}}
abbrev params : Dict (Term ℕ)
params =
    ("workflow_id", text_term "w")
    ∷ ("workflow_type", text_term "t")
    ∷ ("task_queue", text_term "q")
    ∷ ("input", entry_term)
    ∷ []

params_distinct : HasDistinctKeys params
params_distinct = (
  ((λ e. cc), ((λ e. cc), ((λ e. cc), tt))),
  (((λ e. cc), ((λ e. cc), tt)), (((λ e. cc), tt), (tt, tt))),
)

input_converted :
    to_payloads (wrap entry_term) (default_converter_chain machine) ≡ ok (entry_payload ∷ [])
unfolding to_payloads default_converter_chain
input_converted = refl

normalize_workflow_params-client_start_workflow_example :
    (t : Term ℕ) × (normalize_workflow_params machine (atom_map params) ≡ ok t)
    × (qs : List Payload) × AllSame qs (entry_payload ∷ [])
    × (sent : Option (List Payload)) × IsSent qs sent
    × (client_start_workflow erlang server client "uuid" (carries.embed t)
        ≡ started_reply erlang "w" (
            server.start_workflow_execution "default" (record {
              namespace = "default";
              workflow_id = "w";
              workflow_type = "t";
              task_queue = "q";
              input = sent;
              request_id = "uuid";
            })))
unfolding Dict.get
normalize_workflow_params-client_start_workflow_example =
    normalize_workflow_params-client_start_workflow machine erlang carries server client "uuid"
      params entry_term "w" "t" "q" none (entry_payload ∷ []) params_distinct refl refl refl refl
      refl input_converted
