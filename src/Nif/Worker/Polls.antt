-- ===== src/Nif/Worker/Polls.antt =====
-- What the two polls answer, for every state of the worker and every answer of sdk-core.
use sdk_elixir.Base.{
  ℕ, ◌≡◌, refl, String, ◌<>◌, true, false, Option, none, some, unwrap_or, Result, ok, err, then_try,
  map_err, contains, ap, arith, ◌⊎◌, inl, inr, Result-cases, Bool-cases, Option-cases,
}
use sdk_elixir.Base.Int.{ℤ}
use sdk_elixir.Base.Utf8.{Bytes}
use sdk_elixir.Converter.{Codecs}
use sdk_elixir.Worker.{
  WorkflowActivation, ActivityTask, ActivityVariant, cancel, PollError, shut_down, other_error,
  SdkCore,
}
use sdk_elixir.Worker.{start as start_task}
use sdk_elixir.Worker.Resource.{WorkerResource, make_core, start}
use sdk_elixir.Worker.Resource.Invariant.{IsReady}
use sdk_elixir.Worker.Tasks.{
  WorkflowTaskData, ActivityTaskData, convert_workflow_activation, convert_activity_start,
  convert_activity_task, poll_result, poll_workflow_task, poll_activity_task,
}
use sdk_elixir.Nif.{Rustler, error_reply, ok_reply}
use sdk_elixir.Nif.Worker.{
  start_and_poll, poll_reply, worker_poll_workflow_task, worker_poll_activity_task,
}
use sdk_elixir.Sanitize.{sanitize_polling_error}

module _ {Client : Type 0} (K : SdkCore Client) where
  -- The worker of sdk-core that a poll uses: that of a running worker, or a new one.
  abbrev pub Serves : WorkerResource K → K.Core → Type 0
  Serves w core =
      ((w.is_running ≡ true) × (w.core_worker ≡ some core))
      ⊎ ((w.is_running ≡ false) × (make_core K w ≡ ok core))

  -- There is none, for the reason given.
  abbrev pub CannotStart : WorkerResource K → String → Type 0
  CannotStart w e = (w.is_running ≡ false) × (make_core K w ≡ err e)

  abbrev pub started_with : WorkerResource K → K.Core → WorkerResource K
  started_with w core = record w { core_worker = some core; is_running = true }

  start-Serves :
      (w : WorkerResource K) (core : K.Core)
      → Serves w core
      → start K w ≡ (ok tt, started_with w core)
  unfolding start
  start-Serves w core (inl (r, e)) = ground arith
  start-Serves w core (inr (r, e)) = ground arith

  start-CannotStart : (w : WorkerResource K) (e : String) → CannotStart w e → start K w ≡ (err e, w)
  unfolding start
  start-CannotStart w e (r, h) = ground arith

  ready_cases :
      (w : WorkerResource K)
      → IsReady K w
      → ((core : K.Core) × Serves w core) ⊎ ((e : String) × CannotStart w e)
  ready_cases w ready = elim (Bool-cases w.is_running) [
    | inl r ↦ elim (Option-cases w.core_worker) [
      | inl e ↦ absurd (ground arith)
      | inr (core, e) ↦ inl (core, inl (r, e))
    ]
    | inr r ↦ elim (Result-cases (make_core K w)) [
      | inl (core, e) ↦ inl (core, inr (r, e))
      | inr (x, e) ↦ inr (x, (r, e))
    ]
  ]

module _ (R : Rustler) {Client : Type 0} (K : SdkCore Client) (C : Codecs) (from_i64 : ℤ → C.Number)
    (from_u64 : ℕ → C.Number) where
  module _ (encode : WorkflowTaskData → R.Term) where
    -- The reply to each answer of sdk-core; `none` is the time-out.
    abbrev pub workflow_reply : Option (Result WorkflowActivation PollError) → R.Term
    workflow_reply none = error_reply R "Operation timeout"
    workflow_reply (some (err shut_down)) = ok_reply R (R.atom "nil")
    workflow_reply (some (err (other_error e))) =
        error_reply R (sanitize_polling_error ("SDK Core polling error: " <> e))
    workflow_reply (some (ok a)) = elim (convert_workflow_activation C from_i64 from_u64 a) [
      | ok d ↦ ok_reply R (encode d)
      | err e ↦
          error_reply R (sanitize_polling_error ("Failed to convert workflow activation: " <> e))
    ]

    workflow_reply_lem :
        (answer : Option (Result WorkflowActivation PollError))
        → poll_reply R K encode (
            unwrap_or (err "Polling timeout") (
              poll_result C from_i64 from_u64 K "Failed to convert workflow activation: "
                "SDK Core polling error: "
                (convert_workflow_activation C from_i64 from_u64)
                answer))
          ≡ workflow_reply answer
    unfolding poll_result poll_reply sanitize_polling_error contains
    workflow_reply_lem none = refl
    workflow_reply_lem (some (err shut_down)) = refl
    workflow_reply_lem (some (err (other_error e))) = refl
    workflow_reply_lem (some (ok a)) =
        elim (Result-cases (convert_workflow_activation C from_i64 from_u64 a)) [
          | inl (d, e) ↦ rw (workflow_reply, e, poll_reply)
          | inr (x, e) ↦ rw (workflow_reply, e, poll_reply)
        ]

    -- `worker_poll_workflow_task` on a worker that is in order: if the worker runs, or can be started,
    -- it polls that worker of sdk-core, which then runs, and replies with the task, with `nil` at
    -- shutdown, with "Operation timeout" if no answer comes in time, and else with the sanitized
    -- error; if it cannot be started, the state is unchanged and the reply is the sanitized error.
    pub worker_poll_workflow_task_lem :
        (w : WorkerResource K)
        → IsReady K w
        → ((core : K.Core) × Serves K w core
            × (worker_poll_workflow_task R K C from_i64 from_u64 encode w
                ≡ (workflow_reply (K.poll_workflow_activation core), started_with K w core)))
          ⊎ ((e : String) × CannotStart K w e
              × (worker_poll_workflow_task R K C from_i64 from_u64 encode w
                  ≡ (error_reply R (sanitize_polling_error e), w)))
    unfolding worker_poll_workflow_task start_and_poll poll_workflow_task
    worker_poll_workflow_task_lem w ready = elim (ready_cases K w ready) [
      | inl (core, s) ↦ inl (
        core,
        s,
        rw (start-Serves K w core s) (ap (λ t. (t, started_with K w core)) (workflow_reply_lem _)),
      )
      | inr (e, s) ↦ inr (e, s, rw (start-CannotStart K w e s) refl)
    ]

  module _ (encode : ActivityTaskData → R.Term) where
    abbrev pub activity_task_reply : ActivityTask → R.Term
    activity_task_reply t = elim t.variant [
      | none ↦ error_reply R "Polling error"
      | some cancel ↦ error_reply R "Polling error"
      | some (start_task s) ↦ elim (convert_activity_start C from_i64 from_u64 t.task_token s) [
        | ok d ↦ ok_reply R (encode d)
        | err e ↦ error_reply R (sanitize_polling_error ("Failed to convert activity task: " <> e))
      ]
    ]

    -- The reply to each answer of sdk-core; `none` is the time-out.
    abbrev pub activity_reply : Option (Result ActivityTask PollError) → R.Term
    activity_reply none = error_reply R "Operation timeout"
    activity_reply (some (err shut_down)) = ok_reply R (R.atom "nil")
    activity_reply (some (err (other_error e))) =
        error_reply R (sanitize_polling_error ("SDK Core activity polling error: " <> e))
    activity_reply (some (ok t)) = activity_task_reply t

    abbrev converted : ActivityTask → Result (Option ActivityTaskData) String
    converted t =
        then_try
          (map_err (λ e. "Failed to convert activity task: " <> e)
            (convert_activity_task C from_i64 from_u64 t))
          (λ task_data. ok (some task_data))

    variant_reply_lem :
        (token : Bytes) (v : Option ActivityVariant)
        → (let t : ActivityTask = record { task_token = token; variant = v } in
            poll_reply R K encode (converted t) ≡ activity_task_reply t)
    unfolding convert_activity_task poll_reply sanitize_polling_error contains
    variant_reply_lem token none = refl
    variant_reply_lem token (some cancel) = refl
    variant_reply_lem token (some (start_task s)) =
        elim (Result-cases (convert_activity_start C from_i64 from_u64 token s)) [
          | inl (d, e) ↦ rw (activity_task_reply, e, poll_reply)
          | inr (x, e) ↦ rw (activity_task_reply, e, poll_reply)
        ]

    activity_task_reply_lem :
        (t : ActivityTask) → poll_reply R K encode (converted t) ≡ activity_task_reply t
    activity_task_reply_lem t = variant_reply_lem t.task_token t.variant

    activity_reply_lem :
        (answer : Option (Result ActivityTask PollError))
        → poll_reply R K encode (
            unwrap_or (err "Polling timeout") (
              poll_result C from_i64 from_u64 K "Failed to convert activity task: "
                "SDK Core activity polling error: "
                (convert_activity_task C from_i64 from_u64)
                answer))
          ≡ activity_reply answer
    unfolding poll_result poll_reply sanitize_polling_error contains
    activity_reply_lem none = refl
    activity_reply_lem (some (err shut_down)) = refl
    activity_reply_lem (some (err (other_error e))) = refl
    activity_reply_lem (some (ok t)) = activity_task_reply_lem t

    -- `worker_poll_activity_task` on a worker that is in order: if the worker runs, or can be started,
    -- it polls that worker of sdk-core, which then runs, and replies with a task that starts an
    -- activity, with the error "Polling error" to any other task, such as a cancellation, with `nil` at
    -- shutdown, with "Operation timeout" if no answer comes in time, and else with the sanitized error;
    -- if it cannot be started, the state is unchanged and the reply is the sanitized error.
    pub worker_poll_activity_task_lem :
        (w : WorkerResource K)
        → IsReady K w
        → ((core : K.Core) × Serves K w core
            × (worker_poll_activity_task R K C from_i64 from_u64 encode w
                ≡ (activity_reply (K.poll_activity_task core), started_with K w core)))
          ⊎ ((e : String) × CannotStart K w e
              × (worker_poll_activity_task R K C from_i64 from_u64 encode w
                  ≡ (error_reply R (sanitize_polling_error e), w)))
    unfolding worker_poll_activity_task start_and_poll poll_activity_task
    worker_poll_activity_task_lem w ready = elim (ready_cases K w ready) [
      | inl (core, s) ↦ inl (
        core,
        s,
        rw (start-Serves K w core s) (ap (λ t. (t, started_with K w core)) (activity_reply_lem _)),
      )
      | inr (e, s) ↦ inr (e, s, rw (start-CannotStart K w e s) refl)
    ]
