-- ===== src/Base/Text.antt =====
-- The order of Rust's texts, byte by byte: a strict total order.
use Prim.Native.Nat.{ℕ, ◌<◌, compare as compare_ℕ}
use Prim.Native.Char.{code}
use Prim.Native.String.{String, compare, then}
use Prim.Native.String.compare
use mathlib.Core.Path.{◌≡◌, refl, ap₂, ◌∙◌, sym}
use mathlib.Core.Logic.{◌⊎◌, inl, inr}
use mathlib.Core.Bool.{Bool, true, false}
use native.Mathlib.Omega.{arith}
use text.Mathlib.Text.{is_lt}
use text.Mathlib.TextEquality.{Char-path}

-- `a < b` for texts.
abbrev pub str_lt : String → String → Bool
str_lt s t = is_lt (compare s t)

-- The order by the characters.
abbrev text_lt : String → String → Bool
text_lt String.[] String.[] = false
text_lt String.[] (String.◌∷◌ d t) = true
text_lt (String.◌∷◌ c s) String.[] = false
text_lt (String.◌∷◌ c s) (String.◌∷◌ d t) = is_lt (then (compare_ℕ (code c) (code d)) (compare s t))

str_lt-eq-text_lt : (s t : String) → str_lt s t ≡ text_lt s t
str_lt-eq-text_lt String.[] String.[] = refl
str_lt-eq-text_lt String.[] (String.◌∷◌ d t) = λ i. is_lt (compare.nil-cons d t i)
str_lt-eq-text_lt (String.◌∷◌ c s) String.[] = λ i. is_lt (compare.cons-nil c s i)
str_lt-eq-text_lt (String.◌∷◌ c s) (String.◌∷◌ d t) = λ i. is_lt (compare.cons-cons c d s t i)

text_lt_trans : (s t u : String) → text_lt s t ≡ true → text_lt t u ≡ true → text_lt s u ≡ true
text_lt_trans String.[] String.[] u p q = q
text_lt_trans String.[] (String.◌∷◌ d t) String.[] p q = q
text_lt_trans String.[] (String.◌∷◌ d t) (String.◌∷◌ e u) p q = refl
text_lt_trans (String.◌∷◌ c s) String.[] u p q = cc
text_lt_trans (String.◌∷◌ c s) (String.◌∷◌ d t) String.[] p q = q
text_lt_trans (String.◌∷◌ c s) (String.◌∷◌ d t) (String.◌∷◌ e u) p q = ground (
  arith,
  text_lt_trans s t u,
  str_lt-eq-text_lt s t,
  str_lt-eq-text_lt t u,
  str_lt-eq-text_lt s u,
)

pub str_lt_trans : (s t u : String) → str_lt s t ≡ true → str_lt t u ≡ true → str_lt s u ≡ true
str_lt_trans s t u p q =
    str_lt-eq-text_lt s u
    ∙ text_lt_trans s t u (sym (str_lt-eq-text_lt s t) ∙ p) (sym (str_lt-eq-text_lt t u) ∙ q)

trichotomy : (a b : ℕ) → (a < b) ⊎ (b < a) ⊎ (a ≡ b)
trichotomy a b = omega arith

-- Of two texts one is smaller, or they are equal.
text_total : (s t : String) → (text_lt s t ≡ true) ⊎ (text_lt t s ≡ true) ⊎ (s ≡ t)
text_total String.[] String.[] = inr (inr refl)
text_total String.[] (String.◌∷◌ d t) = inl refl
text_total (String.◌∷◌ c s) String.[] = inr (inl refl)
text_total (String.◌∷◌ c s) (String.◌∷◌ d t) = elim (trichotomy (code c) (code d)) [
  | inl p ↦ inl (ground arith)
  | inr (inl p) ↦ inr (inl (ground arith))
  | inr (inr e) ↦ elim (text_total s t) [
    | inl p ↦ inl (ground (arith, str_lt-eq-text_lt s t))
    | inr (inl p) ↦ inr (inl (ground (arith, str_lt-eq-text_lt t s)))
    | inr (inr q) ↦ inr (inr (ap₂ String.◌∷◌ (Char-path c d e) q))
  ]
]

pub str_total : (s t : String) → (str_lt s t ≡ true) ⊎ (str_lt t s ≡ true) ⊎ (s ≡ t)
str_total s t = ground (arith, text_total s t, str_lt-eq-text_lt s t, str_lt-eq-text_lt t s)

text_lt_irrefl : (s : String) → text_lt s s ≡ false
text_lt_irrefl String.[] = refl
text_lt_irrefl (String.◌∷◌ c s) = ground (arith, text_lt_irrefl s, str_lt-eq-text_lt s s)

pub str_lt_irrefl : (s : String) → str_lt s s ≡ false
str_lt_irrefl s = str_lt-eq-text_lt s s ∙ text_lt_irrefl s
