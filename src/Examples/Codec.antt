-- ===== src/Examples/Codec.antt =====
-- Stand-ins for `serde_json` and `base64`: JSON text for null, for numbers, and for objects with the
-- keys "a" and "b" whose values are numbers, and the base64 text of "hi".
use text.Mathlib.TextEquality.{eq_iff}
use sdk_elixir.Base.{
  ℕ, eqb, ◌≡◌, refl, ◌&&◌, if◌then◌else◌, true, false, String, ◌==◌, Result, ok, err, [], ◌∷◌,
  arith,
}
use sdk_elixir.Base.Utf8.{Bytes}
use sdk_elixir.Json.{Value, null, bool, num, str, arr, obj, end, field}
use sdk_elixir.Converter.{Codecs}
use sdk_elixir.Converter.Composite.BuiltIn.{IsLawful}

abbrev pub write_value : Value ℕ → Result Bytes String
write_value null = ok (110 ∷ [])
write_value (num n) = ok (48 ∷ n ∷ [])
write_value (obj (field j (num n) (field k (num m) end))) =
    if j == "a" && k == "b" then ok (123 ∷ n ∷ m ∷ []) else err "not written"
write_value _ = err "not written"

abbrev pub read_value : Bytes → Result (Value ℕ) String
read_value (c ∷ []) = if eqb c 110 then ok null else err "not read"
read_value (c ∷ n ∷ []) = if eqb c 48 then ok (num n) else err "not read"
read_value (c ∷ n ∷ m ∷ []) =
    if eqb c 123 then ok (obj (field "a" (num n) (field "b" (num m) end))) else err "not read"
read_value _ = err "not read"

abbrev pub decode_hi : String → Result Bytes String
decode_hi s = if s == "aGk=" then ok (104 ∷ 105 ∷ []) else err "not base64"

abbrev pub encode_hi : Bytes → String
encode_hi (h ∷ i ∷ []) = if eqb h 104 && eqb i 105 then "aGk=" else ""
encode_hi _ = ""

abbrev pub codec : Codecs
codec = record {
  Number = ℕ;
  to_vec = write_value;
  from_slice = read_value;
  collect_map = λ fs. fs;
  base64_decode = decode_hi;
  base64_encode = encode_hi;
}

-- Two texts that are tested equal are equal.
same_text : (s t : String) → (s == t) ≡ true → s ≡ t
same_text s t h = (eq_iff s t).0 h

pub read_written : (v : Value ℕ) (b : Bytes) → write_value v ≡ ok b → read_value b ≡ ok v
read_written null b h = ground arith
read_written (bool x) b h = ground arith
read_written (num n) b h = ground arith
read_written (str s) b h = ground arith
read_written (arr xs) b h = ground arith
read_written (obj end) b h = ground arith
read_written (obj (field j null fs)) b h = ground arith
read_written (obj (field j (bool x) fs)) b h = ground arith
read_written (obj (field j (str s) fs)) b h = ground arith
read_written (obj (field j (arr xs) fs)) b h = ground arith
read_written (obj (field j (obj gs) fs)) b h = ground arith
read_written (obj (field j (num n) end)) b h = ground arith
read_written (obj (field j (num n) (field k null fs))) b h = ground arith
read_written (obj (field j (num n) (field k (bool x) fs))) b h = ground arith
read_written (obj (field j (num n) (field k (str s) fs))) b h = ground arith
read_written (obj (field j (num n) (field k (arr xs) fs))) b h = ground arith
read_written (obj (field j (num n) (field k (obj gs) fs))) b h = ground arith
read_written (obj (field j (num n) (field k (num m) (field l v fs)))) b h = ground arith
read_written (obj (field j (num n) (field k (num m) end))) b h =
    ground (arith, same_text j "a", same_text k "b")

pub decode_encode : (s : String) (b : Bytes) → decode_hi s ≡ ok b → encode_hi b ≡ s
decode_encode s b h = ground (arith, same_text s "aGk=")

abbrev pub codec-IsLawful : IsLawful codec
codec-IsLawful = record {
  is_f64 = λ _. false;
  collects = λ fs _ _. refl;
  reads_json = λ v b _ _ _ h. read_written v b h;
  reads_base64 = decode_encode;
}
