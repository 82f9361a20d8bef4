-- ===== src/Base/Lossless.antt =====
-- The lossy decoding of UTF-8 is lossless on the bytes of a text.
use Prim.Native.Nat.{ℕ, ◌+◌, ◌-◌, ◌*◌, ◌/◌, ◌%◌, ◌≤◌, ◌<◌, compare}
use Prim.Native.Char.{Char, char, code, IsScalar}
use Prim.Native.String.{String, ◌++◌ as ◌<>◌}
use text.Mathlib.TextEquality.{eq_iff}
use text.Mathlib.TextLemmas.{nil-append}
use mathlib.Core.Path.{◌≡◌, refl, ap, ◌∙◌, sym}
use mathlib.Core.Bool.{true}
use mathlib.Core.Logic.{◌⊎◌, inl, inr}
use mathlib.Core.List.{◌∷◌, ◌++◌}
use native.Mathlib.Omega.{arith}
use sdk_elixir.Base.Tests.{ltb, leb, eqb, if◌then◌else◌, ◌==◌, Bool-cases, ltb→lt}
use sdk_elixir.Base.Scalars.{Ordering-cases, upper_bounds, to_char-code, emit-append}
use sdk_elixir.Base.Utf8.{
  bytes_eq, bytes_eq_refl, bytes_eq→eq, Bytes, bytes, char_bytes, from_utf8_lossy, decode, step,
  lead, extend, emit, to_char, idle, inside, State,
}

decode_one :
    (n : ℕ) (bs : Bytes) → n < 128 → decode idle (n ∷ bs) ≡ emit (to_char n) <> decode idle bs
unfolding decode step lead
decode_one n bs h = ground arith

-- The decoder before a byte of a longer character.
module _ (bs : Bytes) where
  after_lead : (b : ℕ) (s : State) → lead b ≡ (s, "") → decode idle (b ∷ bs) ≡ decode s bs
  unfolding decode step
  after_lead b s h = ap (λ (r : State × String). r.1 <> decode r.0 bs) h ∙ nil-append (decode s bs)

  -- A byte in its range, which is not the last one.
  after_third :
      (point lower upper b : ℕ)
      → leb lower b ≡ true
      → leb b upper ≡ true
      → decode (inside 3 point lower upper) (b ∷ bs)
        ≡ decode (inside 2 (point * 64 + (b - 0x80)) 0x80 0xbf) bs
  unfolding decode step extend
  after_third point lower upper b h k = rw (h, k) (nil-append _)

  after_second :
      (point lower upper b : ℕ)
      → leb lower b ≡ true
      → leb b upper ≡ true
      → decode (inside 2 point lower upper) (b ∷ bs)
        ≡ decode (inside 1 (point * 64 + (b - 0x80)) 0x80 0xbf) bs
  unfolding decode step extend
  after_second point lower upper b h k = rw (h, k) (nil-append _)

  after_last :
      (point lower upper b : ℕ)
      → leb lower b ≡ true
      → leb b upper ≡ true
      → decode (inside 1 point lower upper) (b ∷ bs)
        ≡ emit (to_char (point * 64 + (b - 0x80))) <> decode idle bs
  unfolding decode step extend
  after_last point lower upper b h k = rw (h, k) refl

lead_two : (n : ℕ) → 128 ≤ n → n < 2048 → lead (0xc0 + n / 64) ≡ (inside 1 (n / 64) 0x80 0xbf, "")
unfolding lead
lead_two n h k = ground arith

lead_three :
    (n : ℕ)
    → 2048 ≤ n
    → n < 65536
    → lead (0xe0 + n / 4096) ≡ (
      inside 2
          (n / 4096)
          (if ltb n 4096 then 0xa0 else 0x80)
          (if eqb (n / 4096) 13 then 0x9f else 0xbf),
      "",
    )
unfolding lead
lead_three n h k = ground arith

lead_four :
    (n : ℕ)
    → 65536 ≤ n
    → n < 1114112
    → lead (0xf0 + n / 262144) ≡ (
      inside 3
          (n / 262144)
          (if ltb n 262144 then 0x90 else 0x80)
          (if eqb (n / 262144) 4 then 0x8f else 0xbf),
      "",
    )
unfolding lead
lead_four n h k = ground arith

decode_two :
    (n : ℕ) (bs : Bytes)
    → 128 ≤ n
    → n < 2048
    → decode idle ((0xc0 + n / 64) ∷ (0x80 + n % 64) ∷ bs) ≡ emit (to_char n) <> decode idle bs
decode_two n bs h k =
    after_lead ((0x80 + n % 64) ∷ bs) _ _ (lead_two n h k)
    ∙ after_last bs (n / 64) 0x80 0xbf (0x80 + n % 64) (ground arith) (ground arith)
    ∙ ap (λ m. emit (to_char m) <> decode idle bs) (omega arith)

decode_three :
    (n : ℕ) (bs : Bytes)
    → 2048 ≤ n
    → n < 65536
    → (n < 55296) ⊎ (57343 < n)
    → decode idle ((0xe0 + n / 4096) ∷ (0x80 + n / 64 % 64) ∷ (0x80 + n % 64) ∷ bs)
      ≡ emit (to_char n) <> decode idle bs
decode_three n bs h k s =
    after_lead _ _ _ (lead_three n h k)
    ∙ after_second _ (n / 4096) _ _ (0x80 + n / 64 % 64) (ground arith) (ground arith)
    ∙ after_last bs (n / 4096 * 64 + (0x80 + n / 64 % 64 - 0x80)) 0x80 0xbf (0x80 + n % 64)
        (ground arith) (ground arith)
    ∙ ap (λ m. emit (to_char m) <> decode idle bs) (omega arith)

decode_four :
    (n : ℕ) (bs : Bytes)
    → 65536 ≤ n
    → n < 1114112
    → decode idle
        ((0xf0 + n / 262144) ∷ (0x80 + n / 4096 % 64) ∷ (0x80 + n / 64 % 64) ∷ (0x80 + n % 64) ∷ bs)
      ≡ emit (to_char n) <> decode idle bs
decode_four n bs h k =
    after_lead _ _ _ (lead_four n h k)
    ∙ after_third _ (n / 262144) _ _ (0x80 + n / 4096 % 64) (ground arith) (ground arith)
    ∙ after_second _ (n / 262144 * 64 + (0x80 + n / 4096 % 64 - 0x80)) 0x80 0xbf
        (0x80 + n / 64 % 64) (ground arith) (ground arith)
    ∙ after_last bs
        ((n / 262144 * 64 + (0x80 + n / 4096 % 64 - 0x80)) * 64 + (0x80 + n / 64 % 64 - 0x80)) 0x80
        0xbf (0x80 + n % 64) (ground arith) (ground arith)
    ∙ ap (λ m. emit (to_char m) <> decode idle bs) (omega arith)

not_surrogate : (n : ℕ) → IsScalar n → (n < 55296) ⊎ (57343 < n)
not_surrogate n s = elim (Ordering-cases (compare n 55296)) [
  | inl k ↦ inl (ground arith)
  | inr (inl k) ↦ absurd (ground (arith, upper_bounds n s (λ e. cc)))
  | inr (inr k) ↦ inr (ground (arith, upper_bounds n s (λ e. cc)))
]

largest : (n : ℕ) → IsScalar n → n < 1114112
largest n s = elim (Ordering-cases (compare n 55296)) [
  | inl k ↦ ground arith
  | inr (inl k) ↦ ground arith
  | inr (inr k) ↦ ground (arith, upper_bounds n s (λ e. cc))
]

decode_scalar :
    (n : ℕ) (bs : Bytes)
    → IsScalar n
    → decode idle (char_bytes n ++ bs) ≡ emit (to_char n) <> decode idle bs
decode_scalar n bs s = elim (Bool-cases (ltb n 0x80)) [
  | inl h ↦ rw h (decode_one n bs (ltb→lt n 0x80 h))
  | inr h ↦ elim (Bool-cases (ltb n 0x800)) [
    | inl k ↦ rw (h, k) (decode_two n bs (ground arith) (ground arith))
    | inr k ↦ elim (Bool-cases (ltb n 0x10000)) [
      | inl l ↦ rw (h, k, l) (decode_three n bs (ground arith) (ground arith) (not_surrogate n s))
      | inr l ↦ rw (h, k, l) (decode_four n bs (ground arith) (largest n s))
    ]
  ]
]

-- The decoder reads the bytes of one character.
decode-char_bytes :
    (c : Char) (bs : Bytes)
    → decode idle (char_bytes (code c) ++ bs) ≡ String.◌∷◌ c (decode idle bs)
decode-char_bytes (char n s) bs =
    decode_scalar n bs s
    ∙ ap (λ c. emit c <> decode idle bs) (to_char-code (char n s))
    ∙ emit-append (char n s) (decode idle bs)

pub from_utf8_lossy-bytes : (s : String) → from_utf8_lossy (bytes s) ≡ s
unfolding from_utf8_lossy bytes
from_utf8_lossy-bytes String.[] = unfold decode in refl
from_utf8_lossy-bytes (String.◌∷◌ c s) =
    decode-char_bytes c (bytes s) ∙ ap (String.◌∷◌ c) (from_utf8_lossy-bytes s)

-- Texts with the same bytes are the same.
pub bytes-injective : (s t : String) → bytes s ≡ bytes t → s ≡ t
bytes-injective s t h =
    sym (from_utf8_lossy-bytes s) ∙ ap from_utf8_lossy h ∙ from_utf8_lossy-bytes t

-- The test on texts is the test on their bytes.
pub bytes_eq-bytes : (s t : String) → bytes_eq (bytes s) (bytes t) ≡ (s == t)
bytes_eq-bytes s t = elim (Bool-cases (s == t)) [
  | inl e ↦
      ap (λ u. bytes_eq (bytes s) (bytes u)) (sym ((eq_iff s t).0 e))
      ∙ bytes_eq_refl (bytes s)
      ∙ sym e
  | inr e ↦ elim (Bool-cases (bytes_eq (bytes s) (bytes t))) [
    | inl f ↦
        absurd (ground (arith, eq_iff s t, bytes-injective s t (bytes_eq→eq (bytes s) (bytes t) f)))
    | inr f ↦ f ∙ sym e
  ]
]
