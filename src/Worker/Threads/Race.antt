-- ===== src/Worker/Threads/Race.antt =====
-- How often overlapping calls make a worker of sdk-core.
use sdk_elixir.Base.{
  ℕ, zero, suc, ◌<◌, ◌≤◌, ◌≡◌, ◌≢◌, refl, sym, subst, true, Option, none, some, arith,
}
use sdk_elixir.Worker.Threads.{
  Shared, Pc, begin, making, got, locked, written, started, Move, pass, make, take, write, mark,
  update, System, Step, pick, init, Reach, here, next,
}

-- A thread at `p` can move.
move :
    (s : System) (i : ℕ) {p p' : Pc} {m : Shared}
    → s.pc i ≡ p
    → Move i s.mem p m p'
    → Step s (record { mem = m; pc = update s.pc i p' })
move s i {p'} {m} e mv = pick i (subst (λ p. Move i s.mem p m p') (sym e) mv)

-- The first `k` threads have passed the test of the flag, and the others have not begun.
passed :
    (k : ℕ)
    → (s : System) × Reach s
      × (s.mem ≡ init.mem)
      × ((j : ℕ) → j < k → s.pc j ≡ making)
      × ((j : ℕ) → k ≤ j → s.pc j ≡ begin)
unfolding update
passed zero = (init, here, refl, λ j h. absurd (omega arith), λ j h. refl)
passed (suc k) =
    let (s, r, fresh, before, after) = passed k in
    (
      record { mem = s.mem; pc = update s.pc k making },
      next r (move s k (after k (omega arith)) (pass (rw fresh refl))),
      fresh,
      λ j h. ground (arith, before j),
      λ j h. ground (arith, after j),
    )

pub update_self : (f : ℕ → Pc) (i : ℕ) (p : Pc) → update f i p i ≡ p
unfolding update
update_self f i p = ground arith

update_other : (f : ℕ → Pc) (i j : ℕ) (p : Pc) → i ≢ j → update f i p j ≡ f j
unfolding update
update_other f i j p h = ground arith

-- Thread `i`, which has passed the test, makes its worker and stores it.
module _ (s : System) (r : Reach s) (i : ℕ) (free : s.mem.lock ≡ none) (e : s.pc i ≡ making) where
  abbrev after_make : System
  after_make = record {
    mem = record (s.mem) { made = suc s.mem.made };
    pc = update s.pc i (got s.mem.made);
  }

  abbrev after_take : System
  after_take = record {
    mem = record (after_make.mem) { lock = some i };
    pc = update after_make.pc i (locked s.mem.made);
  }

  abbrev after_write : System
  after_write = record {
    mem = record (after_take.mem) { slot = some s.mem.made };
    pc = update after_take.pc i written;
  }

  abbrev after_mark : System
  after_mark = record {
    mem = record (after_write.mem) { flag = true; lock = none };
    pc = update after_write.pc i started;
  }

  stores : Reach after_mark
  stores =
      next
        (next (next (next r (move s i e make)) (move after_make i (update_self _ i _) (take free)))
          (move after_take i (update_self _ i _) write))
        (move after_write i (update_self _ i _) mark)

  stores_others : (j : ℕ) → i ≢ j → after_mark.pc j ≡ s.pc j
  unfolding update
  stores_others j h = ground arith

-- The worker that the slot holds when `j` have been made, one after the other.
abbrev pub last : ℕ → Option ℕ
last zero = none
last (suc n) = some n

finished :
    (k j : ℕ)
    → j ≤ k
    → (s : System) × Reach s
      × (s.mem.made ≡ j)
      × (s.mem.lock ≡ none)
      × (s.mem.slot ≡ last j)
      × ((i : ℕ) → j ≤ i → i < k → s.pc i ≡ making)
finished k zero h =
    let (s, r, fresh, before, after) = passed k in
    (s, r, rw fresh refl, rw fresh refl, rw fresh refl, λ i _ lt. before i lt)
finished k (suc j) h =
    let (s, r, made, free, slot, others) = finished k j (omega arith) in
    let e = others j (omega arith) (omega arith) in
    (
      after_mark s r j free e,
      stores s r j free e,
      rw made refl,
      refl,
      rw made refl,
      λ i le lt. rw (stores_others s r j free e i (omega arith)) (others i (omega arith) lt),
    )

-- Overlapping calls make a worker of sdk-core each: for every `k` there is a run in which `k` calls
-- on a new worker have made `k` workers, of which the last one is kept and the others are lost.
pub start_makes_many : (k : ℕ) → (s : System) × Reach s × (s.mem.made ≡ k) × (s.mem.slot ≡ last k)
start_makes_many k =
    let (s, r, made, free, slot, others) = finished k k (omega arith) in (s, r, made, slot)
