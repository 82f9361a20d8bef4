-- ===== src/Examples/Calls.antt =====
-- The theorems on overlapping calls, at concrete states.
use sdk_elixir.Base.{ℕ, true, Option, none, is_some, ◌≡◌, ◌≢◌, refl}
use sdk_elixir.Worker.Threads
use sdk_elixir.Worker.Threads.{System, Pc, begin, started, polling, holds, init}
use sdk_elixir.Worker.Threads.Invariant.{Reach-safe}
use sdk_elixir.Worker.Threads.Race.{last, start_makes_many}
use sdk_elixir.Worker.Threads.Progress.{Reach-progress}
use sdk_elixir.Base.{◌≢◌}
use sdk_elixir.Base.{eqb, if◌then◌else◌}
use sdk_elixir.Worker.Threads.Stop.{caller, stopping, stopped, Crew, CrewSteps, stop_overtaken}

Reach-safe_example :
    ((i j : ℕ) → holds (init.pc i) ≡ true → holds (init.pc j) ≡ true → i ≡ j)
    × ((i : ℕ) (worker : Option ℕ) → init.pc i ≡ polling worker → is_some worker ≡ true)
    × ((i : ℕ) → init.pc i ≡ started → init.mem.flag ≡ true)
Reach-safe_example = Reach-safe Threads.here

start_makes_many_example : (s : System) × Threads.Reach s × (s.mem.made ≡ 2) × (s.mem.slot ≡ last 2)
start_makes_many_example = start_makes_many 2

begin≢done : begin ≢ Threads.done
begin≢done h = cc

Reach-progress_example : (t : System) × Threads.Step init t
Reach-progress_example = Reach-progress Threads.here 0 begin≢done

-- Thread 0 stops the worker, and every other thread polls.
abbrev crew : Crew
crew = record { mem = init.mem; role = λ i. if eqb i 0 then stopping else caller begin }

zero≢one : ◌≢◌ {A = ℕ} 0 1
zero≢one h = cc

stop_overtaken_example :
    (t : Crew) × CrewSteps crew t
    × (t.mem.flag ≡ true)
    × (t.mem.slot ≡ none)
    × (t.role 0 ≡ stopped)
    × (t.role 1 ≡ caller started)
stop_overtaken_example = stop_overtaken crew 0 1 zero≢one refl refl refl
