-- ===== src/Worker/Threads/Invariant.antt =====
-- The invariant of overlapping calls.
use sdk_elixir.Base.{ℕ, ◌≡◌, refl, true, Option, some, is_some, arith}
use sdk_elixir.Worker.Threads.{
  Shared, Pc, written, started, waiting, polling, Move, skip, pass, make, fail, take, write, mark,
  test, refuse, read, give_up, answer, update, System, Step, pick, Reach, here, next, holds,
}

-- What a thread at `p` relies on.
abbrev pub Fact : Shared → Pc → Type 0
Fact m written = is_some m.slot ≡ true
Fact m started = m.flag ≡ true
Fact m waiting = m.flag ≡ true
Fact m (polling core) = is_some core ≡ true
Fact m _ = Unit

pub record Inv (m : Shared) (pc : ℕ → Pc) : Type 0 where
  pub ready : m.flag ≡ true → is_some m.slot ≡ true
  pub owner : (i : ℕ) → holds (pc i) ≡ true → m.lock ≡ some i
  pub holder : (i : ℕ) → m.lock ≡ some i → holds (pc i) ≡ true
  pub facts : (i : ℕ) → Fact m (pc i)

module _ {m : Shared} {pc : ℕ → Pc} (inv : Inv m pc) (i : ℕ) where
  open inv use {ready, owner, holder, facts}

  Move-ready :
      {p p' : Pc} {m' : Shared}
      → Move i m p m' p'
      → pc i ≡ p
      → m'.flag ≡ true
      → is_some m'.slot ≡ true
  Move-ready (skip h) e f = ready f
  Move-ready (pass h) e f = ready f
  Move-ready make e f = ready f
  Move-ready fail e f = ready f
  Move-ready (take h) e f = ready f
  Move-ready write e f = refl
  Move-ready mark e f = ground (arith, facts i)
  Move-ready (test h) e f = ready f
  Move-ready (refuse h) e f = ready f
  Move-ready (read h) e f = ready f
  Move-ready give_up e f = ready f
  Move-ready answer e f = ready f

  Move-owner :
      {p p' : Pc} {m' : Shared}
      → Move i m p m' p'
      → pc i ≡ p
      → (j : ℕ) → holds (update pc i p' j) ≡ true
      → m'.lock ≡ some j
  unfolding update
  Move-owner (skip h) e j k = ground (arith, owner j)
  Move-owner (pass h) e j k = ground (arith, owner j)
  Move-owner make e j k = ground (arith, owner j)
  Move-owner fail e j k = ground (arith, owner j)
  Move-owner (take h) e j k = ground (arith, owner j)
  Move-owner write e j k = ground (arith, owner i, owner j)
  Move-owner mark e j k = ground (arith, owner i, owner j)
  Move-owner (test h) e j k = ground (arith, owner j)
  Move-owner (refuse h) e j k = ground (arith, owner j)
  Move-owner (read h) e j k = ground (arith, owner j)
  Move-owner give_up e j k = ground (arith, owner j)
  Move-owner answer e j k = ground (arith, owner i, owner j)

  Move-holder :
      {p p' : Pc} {m' : Shared}
      → Move i m p m' p'
      → pc i ≡ p
      → (j : ℕ) → m'.lock ≡ some j
      → holds (update pc i p' j) ≡ true
  unfolding update
  Move-holder (skip h) e j k = ground (arith, holder i, holder j)
  Move-holder (pass h) e j k = ground (arith, holder i, holder j)
  Move-holder make e j k = ground (arith, holder i, holder j)
  Move-holder fail e j k = ground (arith, holder i, holder j)
  Move-holder (take h) e j k = ground (arith, holder i, holder j)
  Move-holder write e j k = ground (arith, holder i, holder j)
  Move-holder mark e j k = ground (arith, holder i, holder j)
  Move-holder (test h) e j k = ground (arith, holder i, holder j)
  Move-holder (refuse h) e j k = ground (arith, holder i, holder j)
  Move-holder (read h) e j k = ground (arith, holder i, holder j)
  Move-holder give_up e j k = ground (arith, holder i, holder j)
  Move-holder answer e j k = ground (arith, holder i, holder j)

  Move-facts :
      {p p' : Pc} {m' : Shared} → Move i m p m' p' → pc i ≡ p → (j : ℕ) → Fact m' (update pc i p' j)
  unfolding update
  Move-facts (skip h) e j = ground (arith, facts j)
  Move-facts (pass h) e j = ground (arith, facts j)
  Move-facts make e j = ground (arith, facts j)
  Move-facts fail e j = ground (arith, facts j)
  Move-facts (take h) e j = ground (arith, facts j)
  Move-facts write e j = ground (arith, facts j)
  Move-facts mark e j = ground (arith, facts j)
  Move-facts (test h) e j = ground (arith, facts j)
  Move-facts (refuse h) e j = ground (arith, facts j)
  Move-facts (read h) e j = ground (arith, facts j, facts i)
  Move-facts give_up e j = ground (arith, facts j)
  Move-facts answer e j = ground (arith, facts j)

Step-Inv : {s t : System} → Step s t → Inv s.mem s.pc → Inv t.mem t.pc
Step-Inv (pick i mv) inv = record {
  ready = Move-ready inv i mv refl;
  owner = Move-owner inv i mv refl;
  holder = Move-holder inv i mv refl;
  facts = Move-facts inv i mv refl;
}

pub Reach-Inv : {s : System} → Reach s → Inv s.mem s.pc
Reach-Inv here = record { ready = λ h. cc; owner = λ i h. cc; holder = λ i h. cc; facts = λ i. tt }
Reach-Inv (next r st) = Step-Inv st (Reach-Inv r)

-- However the calls of any number of threads on one worker overlap: two threads never hold the mutex
-- together, so at most one thread polls at a time; a thread that polls has a worker of sdk-core; and
-- a worker that a thread has found started, or has started itself, is marked as running when the
-- thread tests it for its poll.
pub Reach-safe :
    {s : System}
    → Reach s
    → ((i j : ℕ) → holds (s.pc i) ≡ true → holds (s.pc j) ≡ true → i ≡ j)
      × ((i : ℕ) (core : Option ℕ) → s.pc i ≡ polling core → is_some core ≡ true)
      × ((i : ℕ) → s.pc i ≡ started → s.mem.flag ≡ true)
Reach-safe {s} r = (
  λ i j p q. ground (arith, (Reach-Inv r).owner i, (Reach-Inv r).owner j),
  λ i core p. ground (arith, (Reach-Inv r).facts i),
  λ i p. ground (arith, (Reach-Inv r).facts i),
)
