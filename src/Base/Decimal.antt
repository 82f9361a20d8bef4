-- ===== src/Base/Decimal.antt =====
-- `{}` of a number: its decimal digits.
use Prim.Native.Nat.{ℕ, zero, suc, ◌+◌, ◌/◌, ◌%◌}
use Prim.Native.String.{String, ◌++◌ as ◌<>◌}
use mathlib.Core.Path.{◌≡◌, refl}
use mathlib.Core.Bool.{true, false}
use sdk_elixir.Base.Tests.{ltb}

digit : ℕ → String
digit zero = "0"
digit (suc zero) = "1"
digit (suc (suc zero)) = "2"
digit (suc (suc (suc zero))) = "3"
digit (suc (suc (suc (suc zero)))) = "4"
digit (suc (suc (suc (suc (suc zero))))) = "5"
digit (suc (suc (suc (suc (suc (suc zero)))))) = "6"
digit (suc (suc (suc (suc (suc (suc (suc zero))))))) = "7"
digit (suc (suc (suc (suc (suc (suc (suc (suc zero)))))))) = "8"
digit (suc (suc (suc (suc (suc (suc (suc (suc (suc n))))))))) = "9"

-- The first number bounds the rounds: a number has no more digits than its value and one.
digits : ℕ → ℕ → String
unfolding digit
digits zero n = ""
digits (suc rounds) n = elim (ltb n 10) [
  | true ↦ digit n
  | false ↦ digits rounds (n / 10) <> digit (n % 10)
]

unfoldable pub decimal : ℕ → String
unfolding digits
decimal n = digits (n + 1) n

decimal_million : decimal 1048576 ≡ "1048576"
unfolding decimal
decimal_million = refl

decimal_zero : decimal 0 ≡ "0"
unfolding decimal
decimal_zero = refl
