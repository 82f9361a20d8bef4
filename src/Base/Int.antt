-- ===== src/Base/Int.antt =====
-- Signed integers over the native numbers, under the library's names (its ℤ is built on the unary ℕ).
use Prim.Native.Nat.{ℕ, suc, ◌+◌, ◌-◌, ◌*◌, ◌/◌, ◌%◌, ◌^◌}
use sdk_elixir.Base.Tests.{leb, ltb, if◌then◌else◌}
use Prim.Native.String.{String, ◌++◌ as ◌<>◌}
use sdk_elixir.Base.Decimal.{decimal}

-- `negsuc n` is -(n + 1).
pub data ℤ : Type 0 where
  pos : ℕ → ℤ
  negsuc : ℕ → ℤ

-- The decimal text of an integer, with its sign.
unfoldable pub display_int : ℤ → String
unfolding decimal
display_int (pos n) = decimal n
display_int (negsuc n) = "-" <> decimal (n + 1)

abbrev pub pos_part : ℤ → ℕ
pos_part (pos n) = n
pos_part (negsuc n) = 0

abbrev pub neg_part : ℤ → ℕ
neg_part (pos n) = 0
neg_part (negsuc n) = suc n

-- a - b, as an integer.
abbrev pub sub_ℕ : ℕ → ℕ → ℤ
sub_ℕ a b = if leb b a then pos (a - b) else negsuc (b - a - 1)

infixl 65 ◌+ℤ◌
unfoldable pub ◌+ℤ◌ : ℤ → ℤ → ℤ
a +ℤ b = sub_ℕ (pos_part a + pos_part b) (neg_part a + neg_part b)

-- Multiplication by a number, and Rust's division by one, which rounds towards zero.
unfoldable pub times : ℤ → ℕ → ℤ
times a k = sub_ℕ (pos_part a * k) (neg_part a * k)

unfoldable pub div_trunc : ℤ → ℕ → ℤ
div_trunc a k = sub_ℕ (pos_part a / k) (neg_part a / k)

-- The bits of a word of `modulus` values, and the signed number that they stand for.
abbrev pub to_word : ℕ → ℤ → ℕ
to_word modulus (pos n) = n % modulus
to_word modulus (negsuc n) = modulus - 1 - n % modulus

abbrev pub signed : ℕ → ℕ → ℤ
signed modulus u = if ltb u (modulus / 2) then pos u else negsuc (modulus - 1 - u)

unfoldable pub wrap_i64 : ℤ → ℤ
wrap_i64 a = signed (2 ^ 64) (to_word (2 ^ 64) a)

-- `u32 as i32`
unfoldable pub u32_as_i32 : ℕ → ℤ
u32_as_i32 u = signed (2 ^ 32) u
