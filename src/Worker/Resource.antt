-- ===== src/Worker/Resource.antt =====
-- `WorkerResource`: its state, and the operations that change it.
pub mod Invariant
pub mod Valid
use sdk_elixir.Base.{
  ℕ, eqb, String, ◌<>◌, is_empty, if◌then◌else◌, Bool, true, false, Option, none, some, Result, ok,
  err, then_try, map_err,
}
use sdk_elixir.Worker.{WorkerConfig, CoreConfig, SdkCore}

pub record WorkerResource {Client : Type 0} (K : SdkCore Client) : Type 0 where
  pub client : Client
  pub namespace : String
  pub task_queue : String
  pub config : WorkerConfig
  pub core_worker : Option K.Core
  pub is_running : Bool

-- The checks of `WorkerResource::new`, in their order.
unfoldable pub check_config : WorkerConfig → Result (Unit {0}) String
check_config config =
    if is_empty config.namespace
    then err "Namespace cannot be empty"
    else if is_empty config.task_queue
    then err "Task queue cannot be empty"
    else if eqb config.max_outstanding_workflow_tasks 0
    then err "Max outstanding workflow tasks must be greater than 0"
    else if eqb config.max_outstanding_activities 0
    then err "Max outstanding activities must be greater than 0"
    else ok tt

module _ {Client : Type 0} (K : SdkCore Client) where
  unfoldable pub new : Client → WorkerConfig → Result (WorkerResource K) String
  unfolding check_config
  new client config = then_try (check_config config) (λ _. ok (record {
    client = client;
    namespace = config.namespace;
    task_queue = config.task_queue;
    config = config;
    core_worker = none;
    is_running = false;
  }))

  abbrev pub core_config : WorkerResource K → CoreConfig
  core_config w = record {
    namespace = w.namespace;
    task_queue = w.task_queue;
    max_outstanding_workflow_tasks = w.config.max_outstanding_workflow_tasks;
    max_outstanding_activities = w.config.max_outstanding_activities;
    max_outstanding_local_activities = w.config.max_outstanding_local_activities;
  }

  -- A worker of sdk-core for this resource. The shared `CoreRuntime` is made at its first use, or
  -- the process stops there.
  unfoldable pub make_core : WorkerResource K → Result K.Core String
  make_core w =
      then_try (map_err (λ e. "Failed to build worker config: " <> e) (K.build (core_config w)))
        (λ built.
          map_err (λ e. "Failed to initialize SDK Core worker: " <> e)
            (K.init_worker built w.client))

  -- `start`, which is `initialize_core_worker`.
  unfoldable pub start : WorkerResource K → Result (Unit {0}) String × WorkerResource K
  unfolding make_core
  start w = if w.is_running then (ok tt, w) else elim (make_core w) [
    | ok core ↦ (ok tt, record w { core_worker = some core; is_running = true })
    | err message ↦ (err message, w)
  ]

  unfoldable pub stop : WorkerResource K → WorkerResource K
  stop w = record w { is_running = false; core_worker = none }

  -- `drop` marks the worker as stopped.
  unfoldable pub drop : WorkerResource K → WorkerResource K
  drop w = record w { is_running = false }

  unfoldable pub validate : WorkerResource K → Result (Unit {0}) String
  validate w =
      if is_empty w.namespace
      then err "Invalid namespace"
      else if is_empty w.task_queue
      then err "Invalid task queue"
      else ok tt
