-- ===== src/Converter/JsonConverter/Depth.antt =====
-- `validate_depth` and the depth of a value.
use sdk_elixir.Base.{
  ℕ, suc, ◌+◌, ◌<◌, max, leb, if◌then◌else◌, Bool-cases, ◌≡◌, ◌∙◌, inl, inr, Result, ok, err,
  then_try, arith,
}
use sdk_elixir.Json.{Value, Items, Fields, null, bool, num, str, arr, obj, nil, cons, end, field}
use sdk_elixir.Json.Depth.{depth, depth_items, depth_fields}
use sdk_elixir.Converter.{ConversionError, depth_limit_exceeded}
use sdk_elixir.Converter.JsonConverter.{validate_depth, validate_items, validate_fields}

-- Accepts a depth of at most `most`.
abbrev pub within : ℕ → ℕ → Result (Unit {0}) ConversionError
within most d = if leb d most then ok tt else err (depth_limit_exceeded most)

module _ (most : ℕ) where
  within_guard :
      (d current : ℕ) (r : Result (Unit {0}) ConversionError)
      → (current < most → r ≡ within most (d + current + 1))
      → (if leb most current then err (depth_limit_exceeded most) else r)
        ≡ within most (suc d + current)
  within_guard d current r h = elim (Bool-cases (leb most current)) [
    | inl e ↦ rw e (ground arith)
    | inr e ↦ rw e (h (ground arith) ∙ ground arith)
  ]

  within_both :
      (a b current : ℕ)
      → then_try (within most (a + (current + 1))) (λ _. within most (b + current + 1))
        ≡ within most (max a b + current + 1)
  within_both a b current = ground arith

module _ {N : Type 0} (most : ℕ) where
  mutual
    unfolding validate_depth depth

    validate_depth-within :
        (v : Value N) (current : ℕ)
        → validate_depth most v current ≡ within most (depth v + current)
    validate_depth-within null current = ground arith
    validate_depth-within (bool b) current = ground arith
    validate_depth-within (num n) current = ground arith
    validate_depth-within (str s) current = ground arith
    validate_depth-within (arr xs) current =
        within_guard most (depth_items xs) current _ (validate_items-within xs current)
    validate_depth-within (obj fs) current =
        within_guard most (depth_fields fs) current _ (validate_fields-within fs current)

    validate_items-within :
        (xs : Items N) (current : ℕ)
        → current < most
        → validate_items most xs current ≡ within most (depth_items xs + current + 1)
    validate_items-within nil current h = ground arith
    validate_items-within (cons x xs) current h =
        rw (validate_depth-within x (current + 1), validate_items-within xs current h)
          (within_both most (depth x) (depth_items xs) current)

    validate_fields-within :
        (fs : Fields N) (current : ℕ)
        → current < most
        → validate_fields most fs current ≡ within most (depth_fields fs + current + 1)
    validate_fields-within end current h = ground arith
    validate_fields-within (field k v fs) current h =
        rw (validate_depth-within v (current + 1), validate_fields-within fs current h)
          (within_both most (depth v) (depth_fields fs) current)

  -- Whatever the value and the depth at which the check starts, `validate_depth` accepts exactly
  -- if the nesting of the value on top of that depth stays within the limit; otherwise its error
  -- is `DepthLimitExceeded` with the limit.
  pub validate_depth_lem :
      (v : Value N) (current : ℕ) → validate_depth most v current ≡ within most (depth v + current)
  validate_depth_lem v current = validate_depth-within v current
