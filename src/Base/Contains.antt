-- ===== src/Base/Contains.antt =====
-- What `contains` finds: every text that stands in another one, wherever it stands.
use Prim.Native.Nat.{ℕ, ◌+◌, ◌≤◌, compare as compare_ℕ, Ordering}
use Prim.Native.Char.{Char, code, len_utf8}
use Prim.Native.String.{String, ◌++◌ as ◌<>◌, len, find, begins, same}
use Prim.Native.String.find
use Prim.Native.String.len
use text.Mathlib.TextLemmas.{nil-append, cons-append}
use text.Mathlib.TextFind.{begins_cases}
use mathlib.Core.Path.{◌≡◌, refl, ap, ◌∙◌, sym, subst}
use mathlib.Core.Bool.{true}
use mathlib.Core.Logic.{inl, inr}
use native.Mathlib.Omega.{arith}
use sdk_elixir.Base.Tests.{contains}

compare_same : (n : ℕ) → compare_ℕ n n ≡ Ordering.eq
compare_same n = ground arith

begins-append : (s t : String) (y n : ℕ) → begins (s <> t) s y n ≡ y
begins-append String.[] t y n = refl
begins-append (String.◌∷◌ c s) t y n =
    ap (λ u. begins u (String.◌∷◌ c s) y n) (cons-append c s t)
    ∙ ap (λ o. same o (begins (s <> t) s y n) n) (compare_same (code c))
    ∙ begins-append s t y n

find-begins : (s t : String) → ((y n : ℕ) → begins s t y n ≡ y) → find s t ≡ 0
find-begins String.[] t h = find.nil t ∙ h 0 1
find-begins (String.◌∷◌ c s) t h = find.cons c s t ∙ h 0 (len_utf8 c + find s t)

find-later :
    (c : Char) (s t : String) → find s t ≤ len s → find (String.◌∷◌ c s) t ≤ len (String.◌∷◌ c s)
find-later c s t h =
    let l : len (String.◌∷◌ c s) ≡ len_utf8 c + len s = len.cons c s in
    let e = find.cons c s t in
    elim (begins_cases (String.◌∷◌ c s) t 0 (len_utf8 c + find s t)) [
      | inl b ↦ let z : find (String.◌∷◌ c s) t ≡ 0 = e ∙ b.0 in omega arith
      | inr b ↦ let z : find (String.◌∷◌ c s) t ≡ len_utf8 c + find s t = e ∙ b in omega arith
    ]

find-append : (u t v : String) → find (u <> (t <> v)) t ≤ len (u <> (t <> v))
find-append String.[] t v =
    subst (λ s. find s t ≤ len s) (sym (nil-append (t <> v)))
      (let z : find (t <> v) t ≡ 0 = find-begins (t <> v) t (begins-append t v) in omega arith)
find-append (String.◌∷◌ c u) t v =
    subst (λ s. find s t ≤ len s) (sym (cons-append c u (t <> v)))
      (find-later c (u <> (t <> v)) t (find-append u t v))

pub contains-append : (u t v : String) → contains (u <> (t <> v)) t ≡ true
unfolding contains
contains-append u t v = let h = find-append u t v in ground arith
