-- ===== src/Worker/Threads/Progress.antt =====
-- The steps that are left to overlapping calls.
use sdk_elixir.Base.{ℕ, ◌≡◌, ◌≢◌, refl, true, none, inl, inr, Bool-cases, Option-cases}
use sdk_elixir.Worker.Threads.{
  Shared, Pc, begin, making, got, locked, written, started, waiting, polling, done, Move, skip,
  pass, fail, take, write, mark, test, refuse, read, answer, System, Step, pick, Reach, holds,
}
use sdk_elixir.Worker.Threads.Invariant.{Reach-Inv}

-- The thread can make a step.
abbrev CanMove : Shared → ℕ → Pc → Type 0
CanMove m i p = (m' : Shared) × (p' : Pc) × Move i m p m' p'

-- One that holds the mutex always can.
holds-CanMove : (m : Shared) (i : ℕ) (p : Pc) → holds p ≡ true → CanMove m i p
holds-CanMove m i (locked core) h = (_, _, write)
holds-CanMove m i written h = (_, _, mark)
holds-CanMove m i (polling core) h = (_, _, answer)
holds-CanMove m i begin h = cc
holds-CanMove m i making h = cc
holds-CanMove m i (got core) h = cc
holds-CanMove m i started h = cc
holds-CanMove m i waiting h = cc
holds-CanMove m i done h = cc

-- One that waits for nothing always can, unless it has ended; and any can if the mutex is free.
free-CanMove : (m : Shared) (i : ℕ) (p : Pc) → m.lock ≡ none → p ≢ done → CanMove m i p
free-CanMove m i begin f n = elim (Bool-cases m.flag) [
  | inl h ↦ (_, _, skip h)
  | inr h ↦ (_, _, pass h)
]
free-CanMove m i making f n = (_, _, fail)
free-CanMove m i (got core) f n = (_, _, take f)
free-CanMove m i (locked core) f n = (_, _, write)
free-CanMove m i written f n = (_, _, mark)
free-CanMove m i started f n = elim (Bool-cases m.flag) [
  | inl h ↦ (_, _, test h)
  | inr h ↦ (_, _, refuse h)
]
free-CanMove m i waiting f n = (_, _, read f)
free-CanMove m i (polling core) f n = (_, _, answer)
free-CanMove m i done f n = absurd (n refl)

CanMove-Step : (s : System) (i : ℕ) → CanMove s.mem i (s.pc i) → (t : System) × Step s t
CanMove-Step s i (m, p, mv) = (_, pick i mv)

-- In every state that calls reach in which some thread has not ended its call, some thread can make a
-- step: the calls do not deadlock.
pub Reach-progress : {s : System} → Reach s → (i : ℕ) → s.pc i ≢ done → (t : System) × Step s t
Reach-progress {s} r i n = elim (Option-cases s.mem.lock) [
  | inl f ↦ CanMove-Step s i (free-CanMove s.mem i (s.pc i) f n)
  | inr (j, h) ↦ CanMove-Step s j (holds-CanMove s.mem j (s.pc j) ((Reach-Inv r).holder j h))
]
