-- ===== src/Worker/Resource/Invariant.antt =====
-- The states of a worker that one caller at a time can bring about.
use sdk_elixir.Base.{◌≡◌, true, ok, arith, is_some}
use sdk_elixir.Worker.{WorkerConfig, SdkCore}
use sdk_elixir.Worker.Resource.{WorkerResource, new, start, stop, drop}

module _ {Client : Type 0} (K : SdkCore Client) where
  -- A worker that is marked as running has a worker of sdk-core.
  abbrev pub IsReady : WorkerResource K → Type 0
  IsReady w = w.is_running ≡ true → is_some w.core_worker ≡ true

  -- One call on a worker.
  pub data Call : WorkerResource K → WorkerResource K → Type 0 where
    start_call : (w : WorkerResource K) → Call w (start K w).1
    stop_call : (w : WorkerResource K) → Call w (stop K w)
    drop_call : (w : WorkerResource K) → Call w (drop K w)

  -- The states that a new worker reaches.
  pub data Reach (w : WorkerResource K) : WorkerResource K → Type 0 where
    here : Reach w w
    next : {u v : WorkerResource K} → Reach w u → Call u v → Reach w v

  Call-IsReady : {u v : WorkerResource K} → Call u v → IsReady u → IsReady v
  unfolding start stop drop
  Call-IsReady (start_call w) r = ground arith
  Call-IsReady (stop_call w) r = ground arith
  Call-IsReady (drop_call w) r = ground arith

  -- Calls that do not overlap keep a worker in order: however a new worker is started, stopped and
  -- dropped, one call after the other, it has a worker of sdk-core whenever it is marked as running.
  pub Reach-IsReady :
      (client : Client) (config : WorkerConfig) {w v : WorkerResource K}
      → new K client config ≡ ok w
      → Reach w v
      → IsReady v
  unfolding new
  Reach-IsReady client config e here = ground arith
  Reach-IsReady client config e (next r c) = Call-IsReady c (Reach-IsReady client config e r)
