-- ===== src/Examples/ElixirClient.antt =====
-- The client of the Elixir library, with concrete options and a concrete native library.
use sdk_elixir.Base.{
  ℕ, Bool, true, false, if◌then◌else◌, ◌≡◌, refl, inr, none, some, ok, err, [], ◌∷◌,
}
use sdk_elixir.Base.Dict
use sdk_elixir.Base.Utf8.{bytes}
use sdk_elixir.Nif.Connect.{client_connect}
use sdk_elixir.Elixir.Term.{Term, atom, map, end, pair, reference, atom_key}
use sdk_elixir.Elixir.Client.{Native}
use sdk_elixir.Elixir.Client.Config.{Config, nil_term, text_term, number_term, validate}
use sdk_elixir.Elixir.Client.Config.Env.{System}
use sdk_elixir.Elixir.Client.Config.Parse.{parse_payload_converter}
use sdk_elixir.Elixir.Client.Config.Types.{Plain, parse_payload_converter-Plain}
use sdk_elixir.Elixir.Client.Config.Stable.{IsAccepted, validate_lem}
use sdk_elixir.Elixir.Client.Options.{
  Keyword, keyword_get, opts_to_cfg, build_config, to_nif_config,
}
use sdk_elixir.Elixir.Client.Server.{
  State, connect, failed_status, error_tuple, handle_call, do_connect,
}
use sdk_elixir.Elixir.Client.Server.Reachable.{Reach, begun, called, initial, IsConsistent}
use sdk_elixir.Elixir.Client.Server.Invariant.{Reach-IsConsistent}
use sdk_elixir.Elixir.Bridge.Connect.{bare_client, connect_reply}
use sdk_elixir.Elixir.Bridge.Options.{build_config-client_connect}
use sdk_elixir.Examples.Carried.{carries}
use sdk_elixir.Examples.Codec.{codec}
use sdk_elixir.Examples.Erlang.{machine, machine-TextLaws}
use sdk_elixir.Examples.Files.{files}
use sdk_elixir.Examples.Rustler.{erlang}
use sdk_elixir.Examples.Server.{server}

-- The connection is refused the first time, and made the second time.
abbrev native : Native ℕ
native = record {
  World = Bool;
  client_connect =
      λ config w. (ok (if w then reference 7 else error_tuple (text_term "refused")), true);
  client_start_workflow = λ resource p w. (ok (ok []), w);
  client_signal_workflow = λ resource p w. (ok (ok tt), w);
  client_query_workflow = λ resource p w. (ok (err (atom "nil")), w);
}

abbrev refused : State ℕ
refused = record {
  config = map end;
  client_resource = none;
  status = failed_status;
  connect_attempts = 1;
}

refused_once : Reach machine native (map end) refused 1
unfolding do_connect
refused_once =
    called connect (initial machine native (map end)) refused 0 (error_tuple (text_term "refused"))
      false true begun (unfold handle_call in refl)

Reach-IsConsistent_example : IsConsistent (map end) 1 refused
Reach-IsConsistent_example = Reach-IsConsistent machine native (map end) refused 1 refused_once

-- [target_url: " A", tls: %{insecure_skip_verify: true}]
abbrev secured : Term ℕ
secured = map (pair (atom "insecure_skip_verify") (atom "true") end)

abbrev options : Keyword ℕ
options = ("target_url", text_term " A") ∷ ("tls", secured) ∷ []

abbrev given : Config ℕ
given = record {
  host = text_term " A";
  namespace = text_term "default";
  task_queue = text_term "default";
  tls = secured;
  retries = map end;
  identity = nil_term;
  headers = map end;
  payload_converter = atom "default";
  payload_converter_options = map end;
}

abbrev checked : Config ℕ
checked = record given {
  host = text_term "A";
  retries = map (
      pair (atom "max_attempts") (number_term 3) (
        pair (atom "initial_backoff_ms") (number_term 100)
          (pair (atom "max_backoff_ms") (number_term 5000) end)));
}

were_given : opts_to_cfg machine options ≡ ok given
unfolding opts_to_cfg
were_given = refl

was_valid : validate machine given ≡ ok (ok checked)
unfolding validate bytes
was_valid = refl

validate_lem_example : IsAccepted machine checked
validate_lem_example = validate_lem machine given checked machine-TextLaws was_valid

-- The environment asks for certificates.
abbrev system : System
system = record { env = (bytes "TEMPORAL_TLS_CA", bytes "pem") ∷ []; read = λ name. none }

build_config-client_connect_example :
    (build_config machine system options ≡ ok (to_nif_config machine checked))
    × (client_connect erlang codec server files
          (λ c. reference 1)
          (carries.embed (to_nif_config machine checked))
          []
        ≡ (
          connect_reply machine erlang carries checked
              (λ c. reference 1)
              (bare_client machine erlang carries checked codec server "A" "default"),
          [],
        ))
unfolding keyword_get atom_key Dict.get
build_config-client_connect_example =
    build_config-client_connect machine erlang carries system options given checked codec server
      files (λ c. reference 1) "A" "default" [] were_given was_valid refl refl
      (inr (
        pair (atom "insecure_skip_verify") (atom "true") end,
        "insecure_skip_verify",
        atom "true",
        refl,
        refl,
      ))

parse_payload_converter-Plain_example :
    Plain (parse_payload_converter machine (some (bytes "protobuf,json")))
parse_payload_converter-Plain_example =
    parse_payload_converter-Plain machine (some (bytes "protobuf,json"))
