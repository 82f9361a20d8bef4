-- ===== src/Nif/Worker/Defaults.antt =====
-- What a worker's configuration is where the map leaves everything out that it may.
use text.Mathlib.TextEquality.{eq_iff}
use sdk_elixir.Base.{false, true, is_empty, ◌≡◌, ◌≢◌, String, none, some, ok, [], ◌∷◌, arith}
use sdk_elixir.Base.Dict
use sdk_elixir.Worker.{default_config, SdkCore}
use sdk_elixir.Worker.Resource.{WorkerResource, new}
use sdk_elixir.Nif.{Rustler, error_reply, params_map, required, optional}
use sdk_elixir.Nif.Worker.{namespace_or_default, parse_worker_config, worker_new}

empty_test : (s : String) → s ≡ "" → is_empty s ≡ true
empty_test s e = (eq_iff s "").1 e

full_test : (s : String) → s ≢ "" → is_empty s ≡ false
full_test s n = ground (arith, eq_iff s "")

module _ (R : Rustler) {Client : Type 0} (K : SdkCore Client) where
  parse_default :
      (t q : R.Term) (s : String)
      → R.decode_map t ≡ some (("task_queue", q) ∷ [])
      → R.decode_string q ≡ some s
      → parse_worker_config R t ≡ ok (record default_config { task_queue = s })
  unfolding parse_worker_config namespace_or_default params_map required optional Dict.get
  parse_default t q s h k = rw (parse_worker_config, params_map, h, k)

  -- A configuration that has nothing but the text of a task queue gives a worker with the values of
  -- `WorkerConfig::default` for all the rest, unless the text is empty, which is refused.
  pub worker_new-default :
      (resource : WorkerResource K → R.Term) (client : Client) (t q : R.Term) (s : String)
      → R.decode_map t ≡ some (("task_queue", q) ∷ [])
      → R.decode_string q ≡ some s
      → (s ≡ "" → worker_new R K resource client t ≡ error_reply R "Task queue cannot be empty")
        × (s ≢ ""
            → worker_new R K resource client t
              ≡ resource (record {
                client = client;
                namespace = "default";
                task_queue = s;
                config = record default_config { task_queue = s };
                core_worker = none;
                is_running = false;
              }))
  unfolding worker_new new
  worker_new-default resource client t q s h k = (
    λ e. rw (worker_new, parse_default t q s h k, new, empty_test s e),
    λ n. rw (worker_new, parse_default t q s h k, new, full_test s n),
  )
