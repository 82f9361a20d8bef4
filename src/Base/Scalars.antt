-- ===== src/Base/Scalars.antt =====
-- The scalar values of Unicode, and the characters that stand for them.
use Prim.Native.Nat.{ℕ, compare, Ordering}
use Prim.Native.Char.{Char, char, code, IsScalar}
use Prim.Native.String.{String, ◌++◌ as ◌<>◌}
use text.Mathlib.TextEquality.{Char-path}
use text.Mathlib.TextLemmas.{nil-append, cons-append}
use mathlib.Core.Path.{◌≡◌, refl, ap, ◌∙◌}
use mathlib.Core.Logic.{◌≢◌, ◌⊎◌, inl, inr}
use native.Mathlib.Omega.{arith}
use sdk_elixir.Base.Utf8.{emit, to_char, char_of}

pub Ordering-cases : (o : Ordering) → (o ≡ Ordering.lt) ⊎ ((o ≡ Ordering.eq) ⊎ (o ≡ Ordering.gt))
Ordering-cases Ordering.lt = inl refl
Ordering-cases Ordering.eq = inr (inl refl)
Ordering-cases Ordering.gt = inr (inr refl)

pub at_surrogates : (n : ℕ) → compare n 55296 ≡ Ordering.eq → compare 57343 n ≡ Ordering.gt
at_surrogates n k = ground arith

-- A scalar value lies below the surrogates or above them, and is a character.
pub upper_bounds :
    (n : ℕ)
    → IsScalar n
    → compare n 55296 ≢ Ordering.lt
    → (compare 57343 n ≡ Ordering.lt) × (compare n 1114112 ≡ Ordering.lt)
upper_bounds n s h = elim (Ordering-cases (compare n 55296)) [
  | inl k ↦ absurd (h k)
  | inr (inl k) ↦ absurd (rw (k, at_surrogates n k) at s)
  | inr (inr k) ↦ elim (Ordering-cases (compare 57343 n)) [
    | inl l ↦ elim (Ordering-cases (compare n 1114112)) [
      | inl m ↦ (l, m)
      | inr (inl m) ↦ absurd (rw (k, l, m) at s)
      | inr (inr m) ↦ absurd (rw (k, l, m) at s)
    ]
    | inr (inl l) ↦ absurd (rw (k, l) at s)
    | inr (inr l) ↦ absurd (rw (k, l) at s)
  ]
]

pub code-to_char : (n : ℕ) → IsScalar n → code (to_char n) ≡ n
unfolding to_char char_of
code-to_char n s = go _ _ _ refl refl refl (upper_bounds n s)
  where
    go :
        (low high top : Ordering) (h : compare n 55296 ≡ low) (k : compare 57343 n ≡ high)
        (l : compare n 1114112 ≡ top)
        → (compare n 55296 ≢ Ordering.lt
            → (compare 57343 n ≡ Ordering.lt) × (compare n 1114112 ≡ Ordering.lt))
        → code (char_of n low high top h k l) ≡ n
    go Ordering.lt high top h k l u = refl
    go Ordering.gt Ordering.lt Ordering.lt h k l u = refl
    go Ordering.eq high top h k l u = absurd (ground (arith, u (λ e. cc)))
    go Ordering.gt Ordering.lt Ordering.eq h k l u = absurd (ground (arith, u (λ e. cc)))
    go Ordering.gt Ordering.lt Ordering.gt h k l u = absurd (ground (arith, u (λ e. cc)))
    go Ordering.gt Ordering.eq top h k l u = absurd (ground (arith, u (λ e. cc)))
    go Ordering.gt Ordering.gt top h k l u = absurd (ground (arith, u (λ e. cc)))

pub to_char-code : (c : Char) → to_char (code c) ≡ c
to_char-code (char n s) = Char-path (to_char n) (char n s) (code-to_char n s)

pub emit-append : (c : Char) (t : String) → emit c <> t ≡ String.◌∷◌ c t
unfolding emit
emit-append c t = cons-append c String.[] t ∙ ap (String.◌∷◌ c) (nil-append t)
