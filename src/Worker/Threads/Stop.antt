-- ===== src/Worker/Threads/Stop.antt =====
-- `stop` of worker.rs beside the calls of the polling functions: the worker is marked as not running,
-- and then, under the mutex, its slot is emptied.
use sdk_elixir.Base.{
  ℕ, eqb, if◌then◌else◌, ◌≡◌, ◌≢◌, refl, sym, ◌∙◌, true, false, none, some, arith,
}
use sdk_elixir.Worker.Threads.{
  Shared, Pc, begin, making, started, Move, pass, make, take, write, mark,
}

-- A thread polls, or it stops the worker.
pub data Role : Type 0 where
  caller : Pc → Role
  stopping : Role  -- before `is_running.store(false)`
  clearing : Role  -- before the lock of `stop`
  cleared : Role  -- has the lock: before the slot is emptied, after which the lock is dropped
  stopped : Role

unfoldable pub assign : (ℕ → Role) → ℕ → Role → ℕ → Role
assign f i r j = if eqb i j then r else f j

pub record Crew : Type 0 where
  pub mem : Shared
  pub role : ℕ → Role

pub data CrewStep (s : Crew) : Crew → Type 0 where
  call_step :
      (i : ℕ) {m : Shared} {p p' : Pc}
      → s.role i ≡ caller p
      → Move i s.mem p m p'
      → CrewStep s (record { mem = m; role = assign s.role i (caller p') })
  clear_flag :
      (i : ℕ)
      → s.role i ≡ stopping
      → CrewStep s
          (record { mem = record (s.mem) { flag = false }; role = assign s.role i clearing })
  lock_slot :
      (i : ℕ)
      → s.role i ≡ clearing
      → s.mem.lock ≡ none
      → CrewStep s
          (record { mem = record (s.mem) { lock = some i }; role = assign s.role i cleared })
  clear_slot :
      (i : ℕ)
      → s.role i ≡ cleared
      → CrewStep s (record {
        mem = record (s.mem) { slot = none; lock = none };
        role = assign s.role i stopped;
      })

pub data CrewSteps (s : Crew) : Crew → Type 0 where
  stay : CrewSteps s s
  go : {t u : Crew} → CrewSteps s t → CrewStep t u → CrewSteps s u

assign_self : (f : ℕ → Role) (i : ℕ) (r : Role) → assign f i r i ≡ r
unfolding assign
assign_self f i r = ground arith

assign_other : (f : ℕ → Role) (i j : ℕ) (r : Role) → i ≢ j → assign f i r j ≡ f j
unfolding assign
assign_other f i j r h = ground arith

-- The call of thread `j` runs to the end of its start.
start_runs :
    {s t : Crew} (j : ℕ)
    → CrewSteps s t
    → t.mem.flag ≡ false
    → t.mem.lock ≡ none
    → t.role j ≡ caller begin
    → (u : Crew) × CrewSteps s u
      × (u.mem.flag ≡ true)
      × (u.mem.lock ≡ none)
      × (u.role j ≡ caller started)
      × ((i : ℕ) → j ≢ i → u.role i ≡ t.role i)
start_runs {s} {t} j r off free e = (
  _,
  go
      (go
        (go
          (go (go r (call_step j e (pass off)))
            (call_step j (assign_self _ j (caller making)) make))
          (call_step j (assign_self _ j _) (take free)))
        (call_step j (assign_self _ j _) write))
      (call_step j (assign_self _ j _) mark),
  refl,
  refl,
  assign_self _ j (caller started),
  λ i h.
      assign_other _ j i _ h
      ∙ assign_other _ j i _ h
      ∙ assign_other _ j i _ h
      ∙ assign_other _ j i _ h
      ∙ assign_other t.role j i _ h,
)

-- A `stop` and the start of a poll that overlap can leave the worker marked as running without a worker
-- of sdk-core: this can happen from every state in which no thread holds the mutex, one thread is about
-- to stop the worker, and another one is about to start it.
pub stop_overtaken :
    (s : Crew) (i j : ℕ)
    → i ≢ j
    → s.mem.lock ≡ none
    → s.role i ≡ stopping
    → s.role j ≡ caller begin
    → (t : Crew) × CrewSteps s t
      × (t.mem.flag ≡ true)
      × (t.mem.slot ≡ none)
      × (t.role i ≡ stopped)
      × (t.role j ≡ caller started)
stop_overtaken s i j h free ei ej =
    let (u, r, on, open_lock, ready, others) =
      start_runs j (go stay (clear_flag i ei)) refl free
        (assign_other s.role i j clearing h ∙ ej) in
    let waits : u.role i ≡ clearing = others i (λ e. h (sym e)) ∙ assign_self s.role i clearing in
    (
      _,
      go (go r (lock_slot i waits open_lock)) (clear_slot i (assign_self _ i cleared)),
      on,
      refl,
      assign_self _ i stopped,
      assign_other _ i j stopped h ∙ assign_other _ i j cleared h ∙ ready,
    )
