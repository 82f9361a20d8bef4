-- ===== src/Base/Utf8.antt =====
-- UTF-8: Rust's `str::as_bytes` and `String::from_utf8_lossy`.
-- Decoding follows the table of well-formed sequences of the Unicode standard; each maximal part
-- of an ill-formed sequence gives one U+FFFD, as the documentation of `from_utf8_lossy` says.
use Prim.Native.Nat.{ℕ, ◌+◌, ◌-◌, ◌*◌, ◌/◌, ◌%◌, compare, Ordering}
use Prim.Native.Char.{Char, char, code, IsScalar}
use Prim.Native.String.{String, ◌++◌ as ◌<>◌}
use mathlib.Core.Path.{◌≡◌, refl}
use mathlib.Core.Bool.{Bool, true, false, ◌&&◌}
use mathlib.Core.List.{List, [], ◌∷◌, ◌++◌}
use native.Mathlib.Omega.{arith}
use sdk_elixir.Base.Tests.{ltb, leb, eqb, if◌then◌else◌}

abbrev pub Bytes : Type 0
Bytes = List ℕ

-- The bytes of one character.
abbrev pub char_bytes : ℕ → Bytes
char_bytes n =
    if ltb n 0x80
    then n ∷ []
    else if ltb n 0x800
    then (0xc0 + n / 64) ∷ (0x80 + n % 64) ∷ []
    else if ltb n 0x10000
    then (0xe0 + n / 4096) ∷ (0x80 + n / 64 % 64) ∷ (0x80 + n % 64) ∷ []
    else (0xf0 + n / 262144) ∷ (0x80 + n / 4096 % 64) ∷ (0x80 + n / 64 % 64) ∷ (0x80 + n % 64) ∷ []

unfoldable pub bytes : String → Bytes
bytes String.[] = []
bytes (String.◌∷◌ c s) = char_bytes (code c) ++ bytes s

-- Equality of byte slices.
unfoldable pub bytes_eq : Bytes → Bytes → Bool
bytes_eq [] [] = true
bytes_eq (x ∷ xs) (y ∷ ys) = if eqb x y then bytes_eq xs ys else false
bytes_eq _ _ = false

pub bytes_eq_refl : (xs : Bytes) → bytes_eq xs xs ≡ true
unfolding bytes_eq
bytes_eq_refl [] = refl
bytes_eq_refl (x ∷ xs) = ground (arith, bytes_eq_refl xs)

pub bytes_eq→eq : (xs ys : Bytes) → bytes_eq xs ys ≡ true → xs ≡ ys
unfolding bytes_eq
bytes_eq→eq [] [] h = refl
bytes_eq→eq [] (y ∷ ys) h = cc
bytes_eq→eq (x ∷ xs) [] h = cc
bytes_eq→eq (x ∷ xs) (y ∷ ys) h = ground (arith, bytes_eq→eq xs ys)

pub below_surrogates : (n : ℕ) → compare n 55296 ≡ Ordering.lt → IsScalar n
below_surrogates n h = rw h tt

pub above_surrogates :
    (n : ℕ)
    → compare n 55296 ≡ Ordering.gt
    → compare 57343 n ≡ Ordering.lt
    → compare n 1114112 ≡ Ordering.lt
    → IsScalar n
above_surrogates n h k l = rw (h, k, l) tt

unfoldable pub replacement_char : Char
replacement_char = char 0xfffd tt

unfoldable pub char_of :
    (n : ℕ) (low high top : Ordering)
    → compare n 55296 ≡ low
    → compare 57343 n ≡ high
    → compare n 1114112 ≡ top
    → Char
char_of n Ordering.lt high top h k l = char n (below_surrogates n h)
char_of n Ordering.gt Ordering.lt Ordering.lt h k l = char n (above_surrogates n h k l)
char_of n _ _ _ h k l = replacement_char

unfoldable pub to_char : ℕ → Char
unfolding char_of
to_char n = char_of n (compare n 55296) (compare 57343 n) (compare n 1114112) refl refl refl

-- Between characters, or inside one: how many bytes are missing, the bits so far, and the range of
-- the next byte.
pub data State : Type 0 where
  idle : State
  inside : (missing point lower upper : ℕ) → State

unfoldable pub emit : Char → String
emit c = String.◌∷◌ c String.[]

-- A byte that begins a character.
unfoldable pub lead : ℕ → State × String
lead b =
    if ltb b 0x80
    then (idle, emit (to_char b))
    else if leb 0xc2 b && leb b 0xdf
    then (inside 1 (b - 0xc0) 0x80 0xbf, "")
    else if leb 0xe0 b && leb b 0xef
    then (
      inside 2 (b - 0xe0) (if eqb b 0xe0 then 0xa0 else 0x80) (if eqb b 0xed then 0x9f else 0xbf),
      "",
    )
    else if leb 0xf0 b && leb b 0xf4
    then (
      inside 3 (b - 0xf0) (if eqb b 0xf0 then 0x90 else 0x80) (if eqb b 0xf4 then 0x8f else 0xbf),
      "",
    )
    else (idle, emit replacement_char)

-- The byte `b` in its range adds six bits; any other ends the part before it, and begins anew.
unfoldable pub extend : ℕ → ℕ → ℕ → State × String
extend missing point b =
    if eqb missing 1
    then (idle, emit (to_char (point * 64 + (b - 0x80))))
    else (inside (missing - 1) (point * 64 + (b - 0x80)) 0x80 0xbf, "")

unfoldable pub step : State → ℕ → State × String
step idle b = lead b
step (inside missing point lower upper) b =
    if leb lower b && leb b upper
    then extend missing point b
    else let (s, out) = lead b in (s, emit replacement_char <> out)

unfoldable pub decode : State → Bytes → String
decode idle [] = ""
decode (inside _ _ _ _) [] = emit replacement_char
decode s (b ∷ bs) = let (s', out) = step s b in out <> decode s' bs

unfoldable pub from_utf8_lossy : Bytes → String
unfolding decode step lead extend emit to_char replacement_char
from_utf8_lossy bs = decode idle bs

ascii : from_utf8_lossy (bytes "json/plain") ≡ "json/plain"
unfolding from_utf8_lossy bytes
ascii = refl

wide : from_utf8_lossy (bytes "aé€😀z") ≡ "aé€😀z"
unfolding from_utf8_lossy bytes
wide = refl

-- 0xff begins nothing; a truncated sequence gives one replacement.
ill_formed : from_utf8_lossy (0x61 ∷ 0xff ∷ 0xe2 ∷ 0x82 ∷ 0x62 ∷ []) ≡ "a��b"
unfolding from_utf8_lossy
ill_formed = refl
