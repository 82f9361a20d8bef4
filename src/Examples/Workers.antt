-- ===== src/Examples/Workers.antt =====
-- A stand-in for sdk-core's worker, and the theorems on workers at concrete inputs.
use sdk_elixir.Base.{ℕ, String, false, none, some, ok, err, [], ◌≡◌, refl, arith, ◌⊎◌}
use sdk_elixir.Base.Int.{pos, times, ◌+ℤ◌, div_trunc}
use sdk_elixir.Worker.{default_config, shut_down, cancel, SdkCore}
use sdk_elixir.Worker.Resource.{WorkerResource, new, start, validate}
use sdk_elixir.Worker.Resource.Invariant.{IsReady, Reach, here, next, start_call, Reach-IsReady}
use sdk_elixir.Worker.Resource.Valid.{IsValid, new-IsValid}
use sdk_elixir.Worker.Tasks.{millis}
use sdk_elixir.Worker.Tasks.Millis.{millis_exact}
use sdk_elixir.Nif.{error_reply, ok_reply}
use sdk_elixir.Nif.Worker.{worker_poll_workflow_task, worker_poll_activity_task}
use sdk_elixir.Nif.Worker.Polls.{
  Serves, CannotStart, started_with, workflow_reply, activity_reply, worker_poll_workflow_task_lem,
  worker_poll_activity_task_lem,
}
use sdk_elixir.Nif.Worker.Public.{IsPublic, polls-IsPublic}
use sdk_elixir.Sanitize.{sanitize_polling_error}
use sdk_elixir.Examples.Codec.{codec}
use sdk_elixir.Examples.Terms.{text, terms}

-- Every workflow poll finds the worker shut down, and every activity task is a cancellation.
abbrev pub core : SdkCore String
core = record {
  Core = ℕ;
  build = ok;
  init_worker = λ _ _. ok 7;
  poll_workflow_activation = λ _. some (err shut_down);
  poll_activity_task = λ _. some (ok (record { task_token = []; variant = some cancel }));
}

abbrev pub fresh : WorkerResource core
fresh = record {
  client = "client";
  namespace = "default";
  task_queue = "default";
  config = default_config;
  core_worker = none;
  is_running = false;
}

fresh_is_new : new core "client" default_config ≡ ok fresh
unfolding new
fresh_is_new = refl

Reach-IsReady_example : IsReady core (start core fresh).1
Reach-IsReady_example =
    Reach-IsReady core "client" default_config fresh_is_new (next here (start_call fresh))

fresh-IsReady : IsReady core fresh
fresh-IsReady h = Reach-IsReady core "client" default_config fresh_is_new here h

new-IsValid_example :
    ((e : String) → new core "client" default_config ≡ err e → ¬ IsValid default_config)
    × ((w : WorkerResource core)
        → new core "client" default_config ≡ ok w
        → IsValid default_config
          × (w.is_running ≡ false)
          × (w.core_worker ≡ none)
          × ((v : WorkerResource core) → Reach core w v → validate core v ≡ ok tt))
new-IsValid_example = new-IsValid core "client" default_config

millis_exact_example :
    millis (record { seconds = pos 5; nanos = pos 2500000 })
    ≡ times (pos 5) 1000 +ℤ div_trunc (pos 2500000) 1000000
millis_exact_example =
    millis_exact (record { seconds = pos 5; nanos = pos 2500000 })
      (record {
        seconds_above = omega arith;
        seconds_below = omega arith;
        nanos_above = omega arith;
        nanos_below = omega arith;
      })

worker_poll_workflow_task_lem_example :
    ((worker : ℕ) × Serves core fresh worker
      × (worker_poll_workflow_task terms core codec (λ _. 0) (λ n. n) (λ d. text d.run_id) fresh ≡ (
        workflow_reply terms core codec
            (λ _. 0)
            (λ n. n)
            (λ d. text d.run_id)
            (core.poll_workflow_activation worker),
        started_with core fresh worker,
      )))
    ⊎ ((e : String) × CannotStart core fresh e
        × (worker_poll_workflow_task terms core codec (λ _. 0) (λ n. n) (λ d. text d.run_id) fresh
            ≡ (error_reply terms (sanitize_polling_error e), fresh)))
worker_poll_workflow_task_lem_example =
    worker_poll_workflow_task_lem terms core codec (λ _. 0) (λ n. n) (λ d. text d.run_id) fresh
      fresh-IsReady

worker_poll_activity_task_lem_example :
    ((worker : ℕ) × Serves core fresh worker
      × (worker_poll_activity_task terms core codec
            (λ _. 0)
            (λ n. n)
            (λ d. text d.activity_id)
            fresh
          ≡ (
            activity_reply terms core codec
                (λ _. 0)
                (λ n. n)
                (λ d. text d.activity_id)
                (core.poll_activity_task worker),
            started_with core fresh worker,
          )))
    ⊎ ((e : String) × CannotStart core fresh e
        × (worker_poll_activity_task terms core codec
              (λ _. 0)
              (λ n. n)
              (λ d. text d.activity_id)
              fresh
            ≡ (error_reply terms (sanitize_polling_error e), fresh)))
worker_poll_activity_task_lem_example =
    worker_poll_activity_task_lem terms core codec (λ _. 0) (λ n. n) (λ d. text d.activity_id) fresh
      fresh-IsReady

-- A workflow poll of a worker that is shut down starts it and answers nil.
polled_at_shutdown :
    worker_poll_workflow_task terms core codec (λ _. 0) (λ n. n) (λ d. text d.run_id) fresh
    ≡ (ok_reply terms (terms.atom "nil"), started_with core fresh 7)
unfolding worker_poll_workflow_task
polled_at_shutdown = refl

polls-IsPublic_example :
    IsPublic terms
      (worker_poll_workflow_task terms core codec (λ _. 0) (λ n. n) (λ d. text d.run_id) fresh).0
    × IsPublic terms
        (worker_poll_activity_task terms core codec
          (λ _. 0)
          (λ n. n)
          (λ d. text d.activity_id)
          fresh).0
polls-IsPublic_example =
    polls-IsPublic terms core codec (λ _. 0) (λ n. n) (λ d. text d.run_id) (λ d. text d.activity_id)
      fresh
