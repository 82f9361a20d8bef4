-- ===== src/Worker/Resource/Valid.antt =====
-- Which configurations make a worker, and what stays true of it.
use text.Mathlib.TextEquality.{eq_iff}
use sdk_elixir.Base.{◌<◌, ◌≡◌, ◌≢◌, refl, String, false, none, ok, err, arith, ◌↔◌}
use sdk_elixir.Worker.{WorkerConfig, SdkCore}
use sdk_elixir.Worker.Resource.{WorkerResource, check_config, new, start, stop, drop, validate}
use sdk_elixir.Worker.Resource.Invariant.{Call, start_call, stop_call, drop_call, Reach, here, next}

abbrev pub IsValid : WorkerConfig → Type 0
IsValid config =
    (config.namespace ≢ "")
    × (config.task_queue ≢ "")
    × (0 < config.max_outstanding_workflow_tasks)
    × (0 < config.max_outstanding_activities)

check_config-IsValid : (config : WorkerConfig) → (check_config config ≡ ok tt) ↔ IsValid config
unfolding check_config
check_config-IsValid config =
    ground (arith, eq_iff config.namespace "", eq_iff config.task_queue "")

module _ {Client : Type 0} (K : SdkCore Client) where
  Call-names :
      {u v : WorkerResource K}
      → Call K u v
      → (v.namespace ≡ u.namespace) × (v.task_queue ≡ u.task_queue)
  unfolding start stop drop
  Call-names (start_call w) = ground arith
  Call-names (stop_call w) = (refl, refl)
  Call-names (drop_call w) = (refl, refl)

  Reach-names :
      {w v : WorkerResource K}
      → Reach K w v
      → (v.namespace ≡ w.namespace) × (v.task_queue ≡ w.task_queue)
  Reach-names here = (refl, refl)
  Reach-names (next r c) = ground (arith, Reach-names r, Call-names c)

  -- `WorkerResource::new` accepts exactly the configurations with a namespace, a task queue, and
  -- positive limits of outstanding workflow tasks and activities. The new worker does not run and
  -- has no worker of sdk-core; and `validate` accepts it, and whatever calls make of it, one after
  -- the other.
  pub new-IsValid :
      (client : Client) (config : WorkerConfig)
      → ((e : String) → new K client config ≡ err e → ¬ IsValid config)
        × ((w : WorkerResource K)
            → new K client config ≡ ok w
            → IsValid config
              × (w.is_running ≡ false)
              × (w.core_worker ≡ none)
              × ((v : WorkerResource K) → Reach K w v → validate K v ≡ ok tt))
  unfolding new validate
  new-IsValid client config = (
    λ e h v. ground (arith, check_config-IsValid config),
    λ w h. (
      ground (arith, check_config-IsValid config),
      ground arith,
      ground arith,
      λ v r. ground (arith, Reach-names r),
    ),
  )
