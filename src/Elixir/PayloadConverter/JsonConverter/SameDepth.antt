-- ===== src/Elixir/PayloadConverter/JsonConverter/SameDepth.antt =====
-- The depth checks of the Elixir and of the Rust converter.
use sdk_elixir.Base.{
  ℕ, ◌+◌, leb, if◌then◌else◌, true, false, Bool-cases, ◌≡◌, refl, ◌∙◌, sym, ◌⊎◌, inl, inr, Result,
  ok, err, then_try, map_err,
}
use sdk_elixir.Base.Int.{ℤ}
use sdk_elixir.Base.Utf8.{bytes}
use sdk_elixir.Json.{Value, Items, Fields, null, bool, num, str, arr, obj, field}
use sdk_elixir.Json as J
use sdk_elixir.Converter.{ConversionError}
use sdk_elixir.Converter as C
use sdk_elixir.Converter.JsonConverter as R
use sdk_elixir.Elixir.Term.{
  Term, Terms, Pairs, atom, integer, float, binary, list, map, nil, cons, end, pair,
}
use sdk_elixir.Elixir.PayloadConverter.{Reason, depth_limit_exceeded, custom}
use sdk_elixir.Elixir.PayloadConverter.JsonConverter.{
  validate_depth, validate_terms, validate_values,
}

-- A number of JSON is an integer or a float of Elixir.
abbrev pub Numbers : Type 0 → Type 0 → Type 0
Numbers F N = N → ℤ ⊎ F

abbrev number_term : {F : Type 0} → ℤ ⊎ F → Term F
number_term (inl n) = integer n
number_term (inr x) = float x

abbrev pub reason_of : ConversionError → Reason
reason_of (C.depth_limit_exceeded most) = depth_limit_exceeded most
reason_of e = custom (C.display e)

module _ {F N : Type 0} (number : Numbers F N) where
  -- The term of a JSON value, as Jason decodes it.
  mutual
    pub value_term : Value N → Term F
    value_term null = atom "nil"
    value_term (bool true) = atom "true"
    value_term (bool false) = atom "false"
    value_term (num n) = number_term (number n)
    value_term (str s) = binary (bytes s)
    value_term (arr xs) = list (items_term xs)
    value_term (obj fs) = map (fields_term fs)

    pub items_term : Items N → Terms F
    items_term J.nil = nil
    items_term (J.cons x xs) = cons (value_term x) (items_term xs)

    pub fields_term : Fields N → Pairs F
    fields_term J.end = end
    fields_term (field k v fs) = pair (binary (bytes k)) (value_term v) (fields_term fs)

step_errors :
    {A : Type 0} (r : Result (Unit {0}) ConversionError) (f : Result A ConversionError)
    → map_err reason_of (then_try r (λ _. f))
      ≡ then_try (map_err reason_of r) (λ _. map_err reason_of f)
step_errors (ok a) f = refl
step_errors (err e) f = refl

module _ {F N : Type 0} (number : Numbers F N) (most : ℕ) where
  same_guard :
      (current : ℕ) (r : Result (Unit {0}) Reason) (q : Result (Unit {0}) ConversionError)
      → r ≡ map_err reason_of q
      → (if leb most current then err (depth_limit_exceeded most) else r)
        ≡ map_err reason_of (if leb most current then err (C.depth_limit_exceeded most) else q)
  same_guard current r q h = elim (Bool-cases (leb most current)) [
    | inl e ↦ rw e refl
    | inr e ↦ rw e h
  ]

  number_same :
      (x : ℤ ⊎ F) (n : N) (current : ℕ)
      → validate_depth most (number_term x) current
        ≡ map_err reason_of (R.validate_depth most (num n) current)
  unfolding validate_depth R.validate_depth
  number_same (inl z) n current = same_guard current (ok tt) (ok tt) refl
  number_same (inr x) n current = same_guard current (ok tt) (ok tt) refl

  mutual
    unfolding validate_depth R.validate_depth value_term

    depth_same :
        (v : Value N) (current : ℕ)
        → validate_depth most (value_term number v) current
          ≡ map_err reason_of (R.validate_depth most v current)
    depth_same null current = same_guard current (ok tt) (ok tt) refl
    depth_same (bool true) current = same_guard current (ok tt) (ok tt) refl
    depth_same (bool false) current = same_guard current (ok tt) (ok tt) refl
    depth_same (num n) current = number_same (number n) n current
    depth_same (str s) current = same_guard current (ok tt) (ok tt) refl
    depth_same (arr xs) current = same_guard current _ _ (items_same xs current)
    depth_same (obj fs) current = same_guard current _ _ (fields_same fs current)

    items_same :
        (xs : Items N) (current : ℕ)
        → validate_terms most (items_term number xs) current
          ≡ map_err reason_of (R.validate_items most xs current)
    items_same J.nil current = refl
    items_same (J.cons x xs) current =
        (λ i. then_try (depth_same x (current + 1) i) (λ _. items_same xs current i))
        ∙ sym
            (step_errors (R.validate_depth most x (current + 1)) (R.validate_items most xs current))

    fields_same :
        (fs : Fields N) (current : ℕ)
        → validate_values most (fields_term number fs) current
          ≡ map_err reason_of (R.validate_fields most fs current)
    fields_same J.end current = refl
    fields_same (field k v fs) current =
        (λ i. then_try (depth_same v (current + 1) i) (λ _. fields_same fs current i))
        ∙ sym (
            step_errors (R.validate_depth most v (current + 1)) (R.validate_fields most fs current))

  -- The two JSON converters have the same limit of depth: on the term of a JSON value the check of the
  -- Elixir converter accepts, or fails with the limit, exactly as that of the Rust converter does on the
  -- value, at whatever depth it starts.
  pub validate_depth-value_term :
      (v : Value N) (current : ℕ)
      → validate_depth most (value_term number v) current
        ≡ map_err reason_of (R.validate_depth most v current)
  validate_depth-value_term v current = depth_same v current
