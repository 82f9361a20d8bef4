-- ===== src/Nif/Worker.antt =====
-- `worker_new`, the polls and the completions.
pub mod Polls
pub mod Public
pub mod Defaults
use sdk_elixir.Base.{
  ℕ, String, ◌<>◌, Bool, true, false, Option, none, some, Result, ok, err, then_try, ◌>>=◌, ◌>>◌,
  unwrap_or,
}
use sdk_elixir.Base.Dict
use sdk_elixir.Base.Dict.{Dict}
use sdk_elixir.Base.Int.{ℤ}
use sdk_elixir.Converter.{Codecs}
use sdk_elixir.Worker.{WorkerConfig, SdkCore}
use sdk_elixir.Worker.Resource.{WorkerResource, new, start}
use sdk_elixir.Worker.Tasks.{
  WorkflowTaskData, ActivityTaskData, poll_workflow_task, poll_activity_task,
}
use sdk_elixir.Nif.{Rustler, error_reply, ok_reply, params_map, required, optional}
use sdk_elixir.Sanitize.{sanitize_polling_error}

module _ (R : Rustler) where
  -- The namespace may be left out, but must be a text if it is there.
  unfoldable pub namespace_or_default : Dict R.Term → Result String String
  unfolding Dict.get
  namespace_or_default m = elim (Dict.get "namespace" m) [
    | none ↦ ok "default"
    | some t ↦ elim (R.decode_string t) [ some s ↦ ok s | none ↦ err "namespace must be a string" ]
  ]

  unfoldable pub parse_worker_config : R.Term → Result WorkerConfig String
  unfolding params_map namespace_or_default required optional
  parse_worker_config config = do
    m ← params_map R "Configuration must be a map" config
    namespace ← namespace_or_default m
    task_queue ← required R "task_queue" m
    ok (record {
      namespace = namespace;
      task_queue = task_queue;
      max_cached_workflows = unwrap_or 0 (optional R R.decode_usize "max_cached_workflows" m);
      max_outstanding_workflow_tasks =
          unwrap_or 100 (optional R R.decode_usize "max_outstanding_workflow_tasks" m);
      max_outstanding_activities =
          unwrap_or 100 (optional R R.decode_usize "max_outstanding_activities" m);
      max_outstanding_local_activities =
          unwrap_or 100 (optional R R.decode_usize "max_outstanding_local_activities" m);
      no_remote_activities = unwrap_or false (optional R R.decode_bool "no_remote_activities" m);
      sticky_queue_schedule_to_start_timeout_ms =
          unwrap_or 10000 (optional R R.decode_u32 "sticky_queue_schedule_to_start_timeout_ms" m);
      max_heartbeat_throttle_interval_ms =
          unwrap_or 60000 (optional R R.decode_u32 "max_heartbeat_throttle_interval_ms" m);
      default_heartbeat_throttle_interval_ms =
          unwrap_or 5000 (optional R R.decode_u32 "default_heartbeat_throttle_interval_ms" m);
    })

  module _ {Client : Type 0} (K : SdkCore Client) where
    unfoldable pub worker_new : (WorkerResource K → R.Term) → Client → R.Term → R.Term
    unfolding parse_worker_config new
    worker_new resource client config =
        elim (then_try (parse_worker_config config) (new K client)) [
          | ok w ↦ resource w
          | err message ↦ error_reply R message
        ]

    -- The worker is started if it does not run, and polled for 60 seconds.
    unfoldable pub start_and_poll :
        {D : Type 0}
        → (WorkerResource K → Option (Result (Option D) String))
        → WorkerResource K
        → Result (Option D) String × WorkerResource K
    unfolding start
    start_and_poll poll w =
        let (started, w') = start K w in
        (then_try started (λ _. unwrap_or (err "Polling timeout") (poll w')), w')

    unfoldable pub poll_reply : {D : Type 0} → (D → R.Term) → Result (Option D) String → R.Term
    unfolding sanitize_polling_error
    poll_reply encode (ok (some task_data)) = ok_reply R (encode task_data)
    poll_reply encode (ok none) = ok_reply R (R.atom "nil")
    poll_reply encode (err e) = error_reply R (sanitize_polling_error e)

    module _ (C : Codecs) (from_i64 : ℤ → C.Number) (from_u64 : ℕ → C.Number) where
      unfoldable pub worker_poll_workflow_task :
          (WorkflowTaskData → R.Term) → WorkerResource K → R.Term × WorkerResource K
      unfolding start_and_poll poll_reply poll_workflow_task
      worker_poll_workflow_task encode w =
          let (r, w') = start_and_poll (poll_workflow_task C from_i64 from_u64 K) w in
          (poll_reply encode r, w')

      unfoldable pub worker_poll_activity_task :
          (ActivityTaskData → R.Term) → WorkerResource K → R.Term × WorkerResource K
      unfolding start_and_poll poll_reply poll_activity_task
      worker_poll_activity_task encode w =
          let (r, w') = start_and_poll (poll_activity_task C from_i64 from_u64 K) w in
          (poll_reply encode r, w')

    -- The completions are not implemented: each answers the atom `error`.
    unfoldable pub worker_complete_workflow_task : WorkerResource K → R.Term → R.Term
    worker_complete_workflow_task w completion = R.atom "error"

    unfoldable pub worker_complete_activity_task : WorkerResource K → R.Term → R.Term
    worker_complete_activity_task w completion = R.atom "error"
