-- ===== src/Elixir/Client/Server.antt =====
-- The process of a client: the callbacks of its GenServer in lib/temporal/client.ex. Log messages and
-- telemetry events, which have no part in the results, are left out.
pub mod Reachable
pub mod Invariant
use sdk_elixir.Base.{
  ℕ, ◌+◌, String, ◌==◌, if◌then◌else◌, Bool, true, false, not, Result, ok, err, Option, none, some,
  unwrap_or,
}
use sdk_elixir.Elixir.Term.{Term, Pairs, atom, reference, tuple, map, cons, nil, Machine, is_falsy}
use sdk_elixir.Elixir.Maps.{map_new}
use sdk_elixir.Elixir.PayloadConverter.{Raises}
use sdk_elixir.Elixir.Client.{Native}
use sdk_elixir.Elixir.Client.Config.Env.{System}
use sdk_elixir.Elixir.Client.Options.{Keyword, keyword_get, build_config}
use sdk_elixir.Elixir.Client.Params.{
  normalize_workflow_params, normalize_signal_params, normalize_query_params,
}

pub data Status : Type 0 where
  disconnected : Status
  connected : Status
  failed_status : Status

pub record State (F : Type 0) : Type 0 where
  pub config : Term F
  pub client_resource : Option (Term F)
  pub status : Status
  pub connect_attempts : ℕ

-- The messages of `handle_call`, each with its parameters.
pub data Call (F : Type 0) : Type 0 where
  connect : Call F
  start_workflow : (params : Pairs F) → Call F
  signal_workflow : (params : Pairs F) → Call F
  query_workflow : (params : Pairs F) → Call F
  status_call : Call F

module _ {F : Type 0} where
  abbrev pub error_tuple : Term F → Term F
  error_tuple reason = tuple (cons (atom "error") (cons reason nil))

  abbrev pub ok_tuple : Term F → Term F
  ok_tuple value = tuple (cons (atom "ok") (cons value nil))

  abbrev pub status_term : Status → Term F
  status_term disconnected = atom "disconnected"
  status_term connected = atom "connected"
  status_term failed_status = atom "error"

  -- The three cases of the result of `client_connect`: a reference, `{:error, reason}`, and any other.
  unfoldable pub connect_result : Term F → Result (Term F) (Term F)
  connect_result (reference n) = ok (reference n)
  connect_result (tuple (cons (atom s) (cons reason nil))) =
      if s == "error"
      then err (error_tuple reason)
      else err (
          error_tuple (
            tuple (
              cons (atom "unexpected_result")
                (cons (tuple (cons (atom s) (cons reason nil))) nil))))
  connect_result t = err (error_tuple (tuple (cons (atom "unexpected_result") (cons t nil))))

  -- The state, and whether `{:continue, :connect}` follows.
  unfoldable pub init : Machine F → System → Keyword F → Raises (State F × Bool)
  unfolding build_config keyword_get
  init M S opts = elim (build_config M S opts) [
    | err e ↦ err e
    | ok config ↦ ok (
      record {
        config = config;
        client_resource = none;
        status = disconnected;
        connect_attempts = 0;
      },
      not (is_falsy (keyword_get M opts "connect_on_start" (atom "false"))),
    )
  ]

  -- `state.client_resource`, which is `nil` before the first connection.
  unfoldable pub resource_of : State F → Term F
  resource_of s = unwrap_or (atom "nil") s.client_resource

  module _ (N : Native F) where
    -- A callback may raise, which ends the process.
    abbrev pub Run : Type 0 → Type 0
    Run A = N.World → Raises A × N.World

    abbrev pub return : {A : Type 0} → A → Run A
    return a w = (ok a, w)

    abbrev pub bind_run : {A B : Type 0} → Run A → (A → Run B) → Run B
    bind_run m f w = let (r, w') = m w in elim r [ ok a ↦ f a w' | err e ↦ (err e, w') ]

    abbrev pub lift : {A : Type 0} → Raises A → Run A
    lift r w = (r, w)

    unfoldable pub do_connect : Term F → Run (Result (Term F) (Term F))
    unfolding connect_result
    do_connect config = bind_run (N.client_connect config) (λ t. return (connect_result t))

    abbrev pub connected_state : State F → Term F → State F
    connected_state s resource = record s {
      client_resource = some resource;
      status = connected;
      connect_attempts = 0;
    }

    abbrev pub failed_state : State F → State F
    failed_state s = record s { status = failed_status; connect_attempts = s.connect_attempts + 1 }

    -- The number of attempts is left as it is.
    unfoldable pub handle_continue : State F → Run (State F)
    unfolding do_connect
    handle_continue s = bind_run (do_connect s.config) (λ r. elim r [
      | ok resource ↦ return (record s { client_resource = some resource; status = connected })
      | err _ ↦ return (record s { status = failed_status })
    ])

    unfoldable pub ensure_connected : State F → Run (State F)
    unfolding do_connect
    ensure_connected s = elim s.status [
      | connected ↦ return s
      | _ ↦ bind_run (do_connect s.config) (λ r. elim r [
        | ok resource ↦ return (connected_state s resource)
        | err _ ↦ return (failed_state s)
      ])
    ]

    unfoldable pub handle_connect : State F → Run (Term F × State F)
    unfolding do_connect
    handle_connect s = elim s.status [
      | connected ↦ return (atom "ok", s)
      | _ ↦ bind_run (do_connect s.config) (λ r. elim r [
        | ok resource ↦ return (atom "ok", connected_state s resource)
        | err error ↦ return (error, failed_state s)
      ])
    ]

    -- What the three calls of workflows share: `send` is the call of the native function and the reply.
    unfoldable pub when_connected : (Term F → Run (Term F)) → State F → Run (Term F × State F)
    unfolding ensure_connected resource_of
    when_connected send s = bind_run (ensure_connected s) (λ t. elim t.status [
      | connected ↦ bind_run (send (resource_of t)) (λ reply. return (reply, t))
      | _ ↦ return (error_tuple (atom "not_connected"), t)
    ])

    module _ (M : Machine F) where
      unfoldable pub send_start : Pairs F → Term F → Run (Term F)
      unfolding normalize_workflow_params map_new
      send_start params resource = bind_run (lift (normalize_workflow_params M params)) (λ p.
          bind_run (N.client_start_workflow resource p) (λ r. elim r [
            | ok handle ↦ return (ok_tuple (map_new M handle))
            | err reason ↦ return (error_tuple reason)
          ]))

      unfoldable pub send_signal : Pairs F → Term F → Run (Term F)
      unfolding normalize_signal_params
      send_signal params resource = bind_run (lift (normalize_signal_params M params)) (λ p.
          bind_run (N.client_signal_workflow resource p)
            (λ r. elim r [ ok _ ↦ return (atom "ok") | err reason ↦ return (error_tuple reason) ]))

      unfoldable pub send_query : Pairs F → Term F → Run (Term F)
      unfolding normalize_query_params
      send_query params resource = bind_run (lift (normalize_query_params M params)) (λ p.
          bind_run (N.client_query_workflow resource p) (λ r. elim r [
            | ok result ↦ return (ok_tuple result)
            | err reason ↦ return (error_tuple reason)
          ]))

      unfoldable pub handle_call : Call F → State F → Run (Term F × State F)
      unfolding handle_connect when_connected send_start send_signal send_query
      handle_call connect s = handle_connect s
      handle_call (start_workflow params) s = when_connected (send_start params) s
      handle_call (signal_workflow params) s = when_connected (send_signal params) s
      handle_call (query_workflow params) s = when_connected (send_query params) s
      handle_call status_call s = return (status_term s.status, s)
