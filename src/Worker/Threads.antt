-- ===== src/Worker/Threads.antt =====
-- Calls of the polling functions that overlap: `start` and then a poll, by any number of threads on
-- one worker. Each access to the shared state is one step. The flag is written while the mutex is
-- held, after the slot, so that a thread that reads it as set, even by a relaxed load, takes the mutex
-- later than the thread that has set it.
pub mod Invariant
pub mod Race
pub mod Progress
pub mod Stop
use sdk_elixir.Base.{ℕ, suc, ◌+◌, eqb, if◌then◌else◌, ◌≡◌, Bool, true, false, Option, none, some}

-- The fields of `WorkerResource` that the threads share. `slot` is the content of the mutex
-- `core_worker`, where a worker of sdk-core is named by the number of those made before it; `lock` is
-- the thread that holds the mutex; `made` counts the workers that `init_worker` has made.
pub record Shared : Type 0 where
  pub flag : Bool
  pub slot : Option ℕ
  pub lock : Option ℕ
  pub made : ℕ

-- Where a thread stands.
pub data Pc : Type 0 where
  begin : Pc  -- before `is_running.load` of `initialize_core_worker`
  making : Pc  -- the flag was false: before `init_worker`
  got : (core : ℕ) → Pc  -- before the lock of `initialize_core_worker`
  locked : (core : ℕ) → Pc  -- has the lock: before the write of the slot
  written : Pc  -- has the lock: before `is_running.store(true)`, after which the lock is dropped
  started : Pc  -- before the test of the poll, `is_running`
  waiting : Pc  -- before the lock of the poll
  polling : (core : Option ℕ) → Pc  -- has the lock and what the slot held, while sdk-core is polled
  done : Pc

-- A step of thread `i`. `init_worker` may fail, which ends the call.
pub data Move (i : ℕ) (m : Shared) : Pc → Shared → Pc → Type 0 where
  skip : m.flag ≡ true → Move i m begin m started
  pass : m.flag ≡ false → Move i m begin m making
  make : Move i m making (record m { made = suc m.made }) (got m.made)
  fail : Move i m making m done
  take : {core : ℕ} → m.lock ≡ none → Move i m (got core) (record m { lock = some i }) (locked core)
  write : {core : ℕ} → Move i m (locked core) (record m { slot = some core }) written
  mark : Move i m written (record m { flag = true; lock = none }) started
  test : m.flag ≡ true → Move i m started m waiting
  refuse : m.flag ≡ false → Move i m started m done
  read : m.lock ≡ none → Move i m waiting (record m { lock = some i }) (polling m.slot)
  give_up : Move i m waiting m done  -- the 60 seconds of the poll are over before it has the lock
  answer : {core : Option ℕ} → Move i m (polling core) (record m { lock = none }) done

unfoldable pub update : (ℕ → Pc) → ℕ → Pc → ℕ → Pc
update f i p j = if eqb i j then p else f j

pub record System : Type 0 where
  pub mem : Shared
  pub pc : ℕ → Pc

pub data Step (s : System) : System → Type 0 where
  pick :
      (i : ℕ) {m : Shared} {p : Pc}
      → Move i s.mem (s.pc i) m p
      → Step s (record { mem = m; pc = update s.pc i p })

-- A new worker, and every thread at the start of its call.
abbrev pub init : System
init = record { mem = record { flag = false; slot = none; lock = none; made = 0 }; pc = λ _. begin }

pub data Reach : System → Type 0 where
  here : Reach init
  next : {s t : System} → Reach s → Step s t → Reach t

-- The thread holds the mutex.
abbrev pub holds : Pc → Bool
holds (locked _) = true
holds written = true
holds (polling _) = true
holds _ = false
