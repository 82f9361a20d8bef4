-- ===== src/Base/Stable.antt =====
-- A stable sort by numbers, and what it keeps.
use mathlib.Core.List.{Perm}
use mathlib.Core.List.Perm
use sdk_elixir.Base.{
  ℕ, ◌≤◌, ltb, eqb, if◌then◌else◌, Bool-cases, ◌≡◌, refl, ◌∙◌, ap, inl, inr, arith, All, Any, List,
  [], ◌∷◌,
}

module _ {A : Type 0} (key : A → ℕ) where
  -- A stable sort by insertion.
  unfoldable pub insert_by : A → List A → List A
  insert_by c [] = c ∷ []
  insert_by c (d ∷ ds) = if ltb (key d) (key c) then d ∷ insert_by c ds else c ∷ d ∷ ds

  unfoldable pub sort_by : List A → List A
  unfolding insert_by
  sort_by [] = []
  sort_by (c ∷ cs) = insert_by c (sort_by cs)

  -- No element stands before one of a smaller key.
  abbrev pub IsByKey : List A → Type 0
  IsByKey [] = Unit
  IsByKey (c ∷ cs) = All (λ d. key c ≤ key d) cs × IsByKey cs

  -- The elements of one key, in their order.
  unfoldable pub with_key : ℕ → List A → List A
  with_key n [] = []
  with_key n (c ∷ cs) = let rest = with_key n cs in if eqb (key c) n then c ∷ rest else rest

  module _ (c : A) where
    insert-All : (P : A → Type 0) (cs : List A) → P c → All P cs → All P (insert_by c cs)
    unfolding insert_by
    insert-All P [] h a = (h, tt)
    insert-All P (d ∷ ds) h a = elim (Bool-cases (ltb (key d) (key c))) [
      | inl e ↦ rw e (a.0, insert-All P ds h a.1)
      | inr e ↦ rw e (h, a)
    ]

    All-le :
        (d : A) (cs : List A)
        → key c ≤ key d
        → All (λ x. key d ≤ key x) cs
        → All (λ x. key c ≤ key x) cs
    All-le d [] h a = tt
    All-le d (x ∷ xs) h a = (omega arith, All-le d xs h a.1)

    insert-IsByKey : (cs : List A) → IsByKey cs → IsByKey (insert_by c cs)
    unfolding insert_by
    insert-IsByKey [] s = (tt, tt)
    insert-IsByKey (d ∷ ds) s = elim (Bool-cases (ltb (key d) (key c))) [
      | inl e ↦ rw e (insert-All (λ x. key d ≤ key x) ds (ground arith) s.0, insert-IsByKey ds s.1)
      | inr e ↦ rw e ((ground arith, All-le d ds (ground arith) s.0), s)
    ]

    insert-perm : (cs : List A) → Perm (insert_by c cs) (c ∷ cs)
    unfolding insert_by
    insert-perm [] = Perm.refl _
    insert-perm (d ∷ ds) = elim (Bool-cases (ltb (key d) (key c))) [
      | inl e ↦ rw e (Perm.trans (Perm.cons d (insert-perm ds)) (Perm.swap c d ds))
      | inr e ↦ rw e (Perm.refl _)
    ]

    with_key-insert : (n : ℕ) (cs : List A) → with_key n (insert_by c cs) ≡ with_key n (c ∷ cs)
    unfolding insert_by with_key
    with_key-insert n [] = refl
    with_key-insert n (d ∷ ds) = ground (arith, with_key-insert n ds)

  sort_by-IsByKey_lem : (cs : List A) → IsByKey (sort_by cs)
  unfolding sort_by
  sort_by-IsByKey_lem [] = tt
  sort_by-IsByKey_lem (c ∷ cs) = insert-IsByKey c (sort_by cs) (sort_by-IsByKey_lem cs)

  sort_by-perm_lem : (cs : List A) → Perm (sort_by cs) cs
  unfolding sort_by
  sort_by-perm_lem [] = Perm.refl _
  sort_by-perm_lem (c ∷ cs) =
      Perm.trans (insert-perm c (sort_by cs)) (Perm.cons c (sort_by-perm_lem cs))

  with_key-sort_by_lem : (n : ℕ) (cs : List A) → with_key n (sort_by cs) ≡ with_key n cs
  unfolding sort_by with_key
  with_key-sort_by_lem n [] = refl
  with_key-sort_by_lem n (c ∷ cs) =
      with_key-insert c n (sort_by cs)
      ∙ ap (λ rest. if eqb (key c) n then c ∷ rest else rest) (with_key-sort_by_lem n cs)

  pub sort_by-All : (P : A → Type 0) (cs : List A) → All P cs → All P (sort_by cs)
  unfolding sort_by
  sort_by-All P [] a = tt
  sort_by-All P (c ∷ cs) a = insert-All c P (sort_by cs) a.0 (sort_by-All P cs a.1)

  -- The same elements, in ascending order of their keys, and those of one key in their order.
  abbrev pub IsStableSort : List A → List A → Type 0
  IsStableSort ds cs = Perm ds cs × IsByKey ds × ((n : ℕ) → with_key n ds ≡ with_key n cs)

  pub sort_by-IsStableSort : (cs : List A) → IsStableSort (sort_by cs) cs
  sort_by-IsStableSort cs =
      (sort_by-perm_lem cs, sort_by-IsByKey_lem cs, λ n. with_key-sort_by_lem n cs)

  insert-Any : (P : A → Type 0) (c : A) (cs : List A) → Any P (insert_by c cs) → Any P (c ∷ cs)
  unfolding insert_by
  insert-Any P c [] h = h
  insert-Any P c (d ∷ ds) h = elim (Bool-cases (ltb (key d) (key c))) [
    | inl e ↦ elim (rw e at h) as (λ _. Any P (c ∷ d ∷ ds)) [
      | inl a ↦ inr (inl a)
      | inr a ↦ elim (insert-Any P c ds a) [ inl b ↦ inl b | inr b ↦ inr (inr b) ]
    ]
    | inr e ↦ rw e at h
  ]

  pub sort_by-Any : (P : A → Type 0) (cs : List A) → Any P (sort_by cs) → Any P cs
  unfolding sort_by
  sort_by-Any P [] h = h
  sort_by-Any P (c ∷ cs) h = elim (insert-Any P c (sort_by cs) h) [
    | inl a ↦ inl a
    | inr a ↦ inr (sort_by-Any P cs a)
  ]
