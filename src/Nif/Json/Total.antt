-- ===== src/Nif/Json/Total.antt =====
-- Which JSON values have a term.
use sdk_elixir.Base.{
  ◌≡◌, refl, String, Option, is_some, true, Result, ok, err, then_try, List, ◌∷◌, ◌⊎◌, inl, inr,
  arith, Option-cases, Result-cases,
}
use sdk_elixir.Base.Dict.{Dict}
use sdk_elixir.Base.Int.{ℤ}
use sdk_elixir.Json.{Value, Items, Fields, null, bool, num, str, arr, obj, nil, cons, end, field}
use sdk_elixir.Converter.JsonConverter.Numbers.{AllNumbers, AllNumbersItems, AllNumbersFields}
use sdk_elixir.Nif.{Rustler}
use sdk_elixir.Nif.Json.{number_term, json_value_to_elixir_term, items_to_terms, fields_to_terms}

module _ (R : Rustler) {N : Type 0} (as_i64 : N → Option ℤ) (as_f64 : N → Option R.Float) where
  abbrev Succeeds : {A : Type 0} → Result A String → Type 0
  Succeeds {A} r = (a : A) × (r ≡ ok a)

  -- The number has a term: it is an i64, or is given as an f64.
  abbrev pub IsShown : N → Type 0
  IsShown n = (is_some (as_i64 n) ≡ true) ⊎ (is_some (as_f64 n) ≡ true)

  number-Succeeds : (n : N) → IsShown n → Succeeds (number_term R as_i64 as_f64 n)
  unfolding number_term
  number-Succeeds n h = elim (Option-cases (as_i64 n)) [
    | inr (i, e) ↦ rw (number_term, e) (_, refl)
    | inl e ↦ elim (Option-cases (as_f64 n)) [
      | inr (f, k) ↦ rw (number_term, e, k) (_, refl)
      | inl k ↦ absurd (ground arith)
    ]
  ]

  number-IsShown : (n : N) (t : R.Term) → number_term R as_i64 as_f64 n ≡ ok t → IsShown n
  unfolding number_term
  number-IsShown n t h = ground arith

  then-Succeeds :
      {A B : Type 0} (r : Result A String) (f : A → B)
      → Succeeds r
      → Succeeds (then_try r (λ a. ok (f a)))
  then-Succeeds r f (a, e) = rw e (f a, refl)

  both_Succeed :
      {A B D : Type 0} (r : Result A String) (q : Result B String) (f : A → B → D)
      → Succeeds r
      → Succeeds q
      → Succeeds (then_try r (λ a. then_try q (λ b. ok (f a b))))
  both_Succeed r q f (a, e) (b, k) = rw (e, k) (f a b, refl)

  both_succeeded :
      {A B D : Type 0} (r : Result A String) (q : Result B String) (f : A → B → D) (d : D)
      → then_try r (λ a. then_try q (λ b. ok (f a b))) ≡ ok d
      → Succeeds r × Succeeds q
  both_succeeded (ok a) (ok b) f d h = ((a, refl), (b, refl))
  both_succeeded (ok a) (err e) f d h = ground arith
  both_succeeded (err e) q f d h = ground arith

  mutual
    unfolding json_value_to_elixir_term AllNumbers

    value-Succeeds :
        (v : Value N)
        → AllNumbers IsShown v
        → Succeeds (json_value_to_elixir_term R as_i64 as_f64 v)
    value-Succeeds null a = (_, refl)
    value-Succeeds (bool b) a = (_, refl)
    value-Succeeds (num n) a = number-Succeeds n a
    value-Succeeds (str s) a = (_, refl)
    value-Succeeds (arr xs) a = then-Succeeds _ _ (items_Succeed xs a)
    value-Succeeds (obj fs) a = then-Succeeds _ _ (fields_Succeed fs a)

    items_Succeed :
        (xs : Items N) → AllNumbersItems IsShown xs → Succeeds (items_to_terms R as_i64 as_f64 xs)
    items_Succeed nil a = (_, refl)
    items_Succeed (cons x xs) a =
        both_Succeed _ _ (λ t ts. t ∷ ts) (value-Succeeds x a.0) (items_Succeed xs a.1)

    fields_Succeed :
        (fs : Fields N)
        → AllNumbersFields IsShown fs
        → Succeeds (fields_to_terms R as_i64 as_f64 fs)
    fields_Succeed end a = (_, refl)
    fields_Succeed (field k v fs) a =
        both_Succeed _ _ (λ t m. (k, t) ∷ m) (value-Succeeds v a.0) (fields_Succeed fs a.1)

  mutual
    unfolding json_value_to_elixir_term AllNumbers

    value-IsShown :
        (v : Value N) (t : R.Term)
        → json_value_to_elixir_term R as_i64 as_f64 v ≡ ok t
        → AllNumbers IsShown v
    value-IsShown null t h = tt
    value-IsShown (bool b) t h = tt
    value-IsShown (num n) t h = number-IsShown n t h
    value-IsShown (str s) t h = tt
    value-IsShown (arr xs) t h = elim (Result-cases (items_to_terms R as_i64 as_f64 xs)) [
      | inl (ts, e) ↦ items-IsShown xs ts e
      | inr (x, e) ↦ absurd (ground arith)
    ]
    value-IsShown (obj fs) t h = elim (Result-cases (fields_to_terms R as_i64 as_f64 fs)) [
      | inl (m, e) ↦ fields-IsShown fs m e
      | inr (x, e) ↦ absurd (ground arith)
    ]

    items-IsShown :
        (xs : Items N) (ts : List R.Term)
        → items_to_terms R as_i64 as_f64 xs ≡ ok ts
        → AllNumbersItems IsShown xs
    items-IsShown nil ts h = tt
    items-IsShown (cons x xs) ts h =
        let ((t, e), (us, k)) = both_succeeded _ _ (λ t ts. t ∷ ts) ts h in
        (value-IsShown x t e, items-IsShown xs us k)

    fields-IsShown :
        (fs : Fields N) (m : Dict R.Term)
        → fields_to_terms R as_i64 as_f64 fs ≡ ok m
        → AllNumbersFields IsShown fs
    fields-IsShown end m h = tt
    fields-IsShown (field k v fs) m h =
        let ((t, e), (us, l)) = both_succeeded _ _ (λ t m. (k, t) ∷ m) m h in
        (value-IsShown v t e, fields-IsShown fs us l)

  -- `json_value_to_elixir_term` succeeds exactly on the values in which every number, at any depth,
  -- is an i64 or has an f64.
  pub json_value_to_elixir_term_total :
      (v : Value N)
      → (AllNumbers IsShown v → (t : R.Term) × (json_value_to_elixir_term R as_i64 as_f64 v ≡ ok t))
        × ((t : R.Term) → json_value_to_elixir_term R as_i64 as_f64 v ≡ ok t → AllNumbers IsShown v)
  json_value_to_elixir_term_total v = (value-Succeeds v, value-IsShown v)
