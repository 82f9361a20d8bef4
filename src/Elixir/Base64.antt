-- ===== src/Elixir/Base64.antt =====
-- `Base.encode64` and `Base.decode64!` of Elixir, with padding.
use sdk_elixir.Base.{
  ℕ, ◌+◌, ◌-◌, ◌*◌, ◌/◌, ◌%◌, ◌<◌, ltb, leb, eqb, if◌then◌else◌, false, ◌&&◌, Option, none, some,
  and_then, All, [], ◌∷◌, ◌≡◌, refl, ap, ◌∙◌, arith,
}
use sdk_elixir.Base.Utf8.{Bytes, bytes}

-- The letter of six bits, and the six bits of a letter. 61 is the padding.
unfoldable pub letter : ℕ → ℕ
letter i =
    if ltb i 26
    then i + 65
    else if ltb i 52
    then i + 71
    else if ltb i 62
    then i - 4
    else if eqb i 62
    then 43
    else 47

unfoldable pub six_bits : ℕ → Option ℕ
six_bits c =
    if leb 65 c && leb c 90
    then some (c - 65)
    else if leb 97 c && leb c 122
    then some (c - 71)
    else if leb 48 c && leb c 57
    then some (c + 4)
    else if eqb c 43
    then some 62
    else if eqb c 47
    then some 63
    else none

unfoldable pub encode64 : Bytes → Bytes
unfolding letter
encode64 [] = []
encode64 (a ∷ []) = letter (a / 4) ∷ letter (a % 4 * 16) ∷ 61 ∷ 61 ∷ []
encode64 (a ∷ b ∷ []) =
    letter (a / 4) ∷ letter (a % 4 * 16 + b / 16) ∷ letter (b % 16 * 4) ∷ 61 ∷ []
encode64 (a ∷ b ∷ c ∷ bs) =
    letter (a / 4)
    ∷ letter (a % 4 * 16 + b / 16)
    ∷ letter (b % 16 * 4 + c / 64)
    ∷ letter (c % 64)
    ∷ encode64 bs

-- The bytes of two, three and four letters, before the bytes that follow.
unfoldable pub two_letters : ℕ → ℕ → Option Bytes
unfolding six_bits
two_letters a b =
    and_then (six_bits a) (λ i. and_then (six_bits b) (λ j. some ((i * 4 + j / 16) ∷ [])))

unfoldable pub three_letters : ℕ → ℕ → ℕ → Option Bytes
unfolding six_bits
three_letters a b c = and_then (six_bits a) (λ i.
    and_then (six_bits b)
      (λ j. and_then (six_bits c) (λ k. some ((i * 4 + j / 16) ∷ (j % 16 * 16 + k / 4) ∷ []))))

unfoldable pub four_letters : ℕ → ℕ → ℕ → ℕ → Option Bytes → Option Bytes
unfolding six_bits
four_letters a b c d rest = and_then (six_bits a) (λ i. and_then (six_bits b) (λ j.
    and_then (six_bits c) (λ k. and_then (six_bits d) (λ l.
      and_then rest
        (λ bs. some ((i * 4 + j / 16) ∷ (j % 16 * 16 + k / 4) ∷ (k % 4 * 64 + l) ∷ bs))))))

-- `none` is an `ArgumentError`.
unfoldable pub decode64 : Bytes → Option Bytes
unfolding two_letters three_letters four_letters
decode64 [] = some []
decode64 (a ∷ b ∷ c ∷ d ∷ []) =
    if eqb d 61
    then if eqb c 61 then two_letters a b else three_letters a b c
    else four_letters a b c d (some [])
decode64 (a ∷ b ∷ c ∷ d ∷ e ∷ bs) = let rest = decode64 (e ∷ bs) in four_letters a b c d rest
decode64 _ = none

module _ (i : ℕ) (h : i < 64) where
  six_bits-letter : six_bits (letter i) ≡ some i
  unfolding six_bits letter
  six_bits-letter = ground arith

  letter_unpadded : eqb (letter i) 61 ≡ false
  unfolding letter
  letter_unpadded = ground arith

-- Bytes, and three of them in four letters.
abbrev pub IsByte : ℕ → Type 0
IsByte b = b < 256

-- The bits that two letters share.
module _ (a b c : ℕ) (ha : a < 256) (hb : b < 256) (hc : c < 256) where
  first_byte : a / 4 * 4 + (a % 4 * 16 + b / 16) / 16 ≡ a
  first_byte = omega arith

  second_byte : (a % 4 * 16 + b / 16) % 16 * 16 + (b % 16 * 4 + c / 64) / 4 ≡ b
  second_byte = omega arith

  third_byte : (b % 16 * 4 + c / 64) % 4 * 64 + c % 64 ≡ c
  third_byte = omega arith

  four_letters_lem :
      (rest : Option Bytes)
      → four_letters
          (letter (a / 4))
          (letter (a % 4 * 16 + b / 16))
          (letter (b % 16 * 4 + c / 64))
          (letter (c % 64))
          rest
        ≡ and_then rest (λ bs. some (a ∷ b ∷ c ∷ bs))
  unfolding four_letters
  four_letters_lem rest =
      rw
        (
          six_bits-letter (a / 4) (omega arith),
          six_bits-letter (a % 4 * 16 + b / 16) (omega arith),
          six_bits-letter (b % 16 * 4 + c / 64) (omega arith),
          six_bits-letter (c % 64) (omega arith),
        )
        (λ i. and_then rest (λ bs. some (first_byte i ∷ second_byte i ∷ third_byte i ∷ bs)))

three_letters_lem :
    (a b : ℕ)
    → a < 256
    → b < 256
    → three_letters (letter (a / 4)) (letter (a % 4 * 16 + b / 16)) (letter (b % 16 * 4))
      ≡ some (a ∷ b ∷ [])
unfolding three_letters
three_letters_lem a b ha hb =
    rw
      (
        six_bits-letter (a / 4) (omega arith),
        six_bits-letter (a % 4 * 16 + b / 16) (omega arith),
        six_bits-letter (b % 16 * 4) (omega arith),
      )
      (ground arith)

two_letters_lem :
    (a : ℕ) → a < 256 → two_letters (letter (a / 4)) (letter (a % 4 * 16)) ≡ some (a ∷ [])
unfolding two_letters
two_letters_lem a ha =
    rw (six_bits-letter (a / 4) (omega arith), six_bits-letter (a % 4 * 16) (omega arith))
      (ground arith)

-- What follows a block of four letters does not matter for it, whether it is the last one or not.
decode64_block :
    (a b c : ℕ) (bs : Bytes)
    → a < 256
    → b < 256
    → c < 256
    → decode64 (encode64 (a ∷ b ∷ c ∷ bs))
      ≡ and_then (decode64 (encode64 bs)) (λ rest. some (a ∷ b ∷ c ∷ rest))
unfolding decode64 encode64
decode64_block a b c [] ha hb hc =
    rw (letter_unpadded (c % 64) (omega arith)) (four_letters_lem a b c ha hb hc (some []))
decode64_block a b c (x ∷ []) ha hb hc = four_letters_lem a b c ha hb hc _
decode64_block a b c (x ∷ y ∷ []) ha hb hc = four_letters_lem a b c ha hb hc _
decode64_block a b c (x ∷ y ∷ z ∷ bs) ha hb hc = four_letters_lem a b c ha hb hc _

pub decode64-encode64 : (bs : Bytes) → All IsByte bs → decode64 (encode64 bs) ≡ some bs
decode64-encode64 [] h = unfold decode64 encode64 in refl
decode64-encode64 (a ∷ []) h = unfold decode64 encode64 in two_letters_lem a h.0
decode64-encode64 (a ∷ b ∷ []) h =
    unfold decode64 encode64 in
    rw (letter_unpadded (b % 16 * 4) (omega arith)) (three_letters_lem a b h.0 h.1.0)
decode64-encode64 (a ∷ b ∷ c ∷ bs) h =
    decode64_block a b c bs h.0 h.1.0 h.1.1.0
    ∙ ap (λ r. and_then r (λ rest. some (a ∷ b ∷ c ∷ rest))) (decode64-encode64 bs h.1.1.1)

decode64_test : decode64 (bytes "aGVsbG8=") ≡ some (bytes "hello")
unfolding decode64 bytes
decode64_test = refl

encode64_test : encode64 (bytes "hello") ≡ bytes "aGVsbG8="
unfolding encode64 bytes
encode64_test = refl
