-- ===== src/Converter/Composite/RoundTrip.antt =====
-- What a chain of the program's converters reads of the payloads that it makes.
use text.Mathlib.TextPositions.{eq_refl}
use sdk_elixir.Base.{
  ℕ, ◌≤◌, ◌≡◌, refl, inl, inr, arith, All, Any, [], ◌∷◌, String, ◌==◌, true, false, some, ok,
  Bool-cases,
}
use sdk_elixir.Base.Dict
use sdk_elixir.Base.Utf8.{Bytes, bytes, from_utf8_lossy}
use sdk_elixir.Json.{Value, null, str}
use sdk_elixir.Json.Depth.{depth}
use sdk_elixir.Converter.{Payload, Codecs, PayloadConverter}
use sdk_elixir.Converter.NilConverter
use sdk_elixir.Converter.BinaryConverter
use sdk_elixir.Converter.JsonConverter
use sdk_elixir.Converter.JsonConverter.{JsonConverter, json_metadata}
use sdk_elixir.Converter.JsonConverter.Canonical.{canonical, serialize_canonical_lem}
use sdk_elixir.Converter.JsonConverter.Depth.{validate_depth_lem}
use sdk_elixir.Converter.JsonConverter.Normal.{IsProper, canonical-IsCanonical}
use sdk_elixir.Converter.JsonConverter.CanonicalDepth.{depth-canonical}
use sdk_elixir.Converter.JsonConverter.Numbers.{AllNumbers, AllNumbers-canonical}
use sdk_elixir.Converter.Composite.Chain.{to_payload_first, to_payload-Any}
use sdk_elixir.Converter.Composite.{Converters, to_payload, by_encoding, select, from_payload}
use sdk_elixir.Converter.Composite.BuiltIn.{
  IsLawful, IsBuiltIn, nil_payload, binary_payload, json_payload, built_in,
}

module _ (C : Codecs) where
  -- The converter reads `p` as `w`, if it is a converter for the encoding `e`.
  abbrev Reads : String → Payload → Value C.Number → PayloadConverter C.Number → Type 0
  Reads e p w c = (c.encoding == e) ≡ true → c.from_payload p ≡ ok (some w)

  nil-Reads :
      (c : PayloadConverter C.Number) → IsBuiltIn C c → Reads "binary/null" (nil_payload C) null c
  unfolding NilConverter.from_payload nil_payload
  nil-Reads =
      built_in C (Reads "binary/null" (nil_payload C) null) (λ _. refl) (λ m h. cc) (λ d _ h. cc)

  binary-Reads :
      (b : Bytes) (c : PayloadConverter C.Number)
      → IsBuiltIn C c
      → Reads "binary/plain" (binary_payload C b) (str (C.base64_encode b)) c
  unfolding BinaryConverter.from_payload binary_payload
  binary-Reads b =
      built_in C (Reads "binary/plain" (binary_payload C b) (str (C.base64_encode b))) (λ h. cc)
        (λ m _. refl) (λ d _ h. cc)

  json-Reads :
      (b : Bytes) (w : Value C.Number)
      → C.from_slice b ≡ ok w
      → (c : PayloadConverter C.Number) → IsBuiltIn C c
      → Reads "json/plain" (json_payload C b) w c
  unfolding JsonConverter.from_payload json_payload
  json-Reads b w e =
      built_in C (Reads "json/plain" (json_payload C b) w) (λ h. cc) (λ m h. cc) (λ d _ h. rw e)

  -- The first loop of `from_payload` finds a converter for the encoding.
  by_encoding-Any :
      (e : String) (p : Payload) (w : Value C.Number) (cs : Converters C.Number)
      → All (Reads e p w) cs
      → Any (λ c. (c.encoding == e) ≡ true) cs
      → by_encoding cs e p ≡ ok (some w)
  unfolding by_encoding
  by_encoding-Any e p w [] a h = absurd h
  by_encoding-Any e p w (c ∷ cs) a (inl t) = rw (t, a.0 t)
  by_encoding-Any e p w (c ∷ cs) a (inr h) = elim (Bool-cases (c.encoding == e)) [
    | inl t ↦ rw (t, a.0 t)
    | inr f ↦ rw f (by_encoding-Any e p w cs a.1 h)
  ]

module _ (C : Codecs) (v : Value C.Number) (p : Payload) where
  nil_makes : NilConverter.to_payload v ≡ ok (some p) → (v ≡ null) × (p ≡ nil_payload C)
  unfolding NilConverter.to_payload nil_payload
  nil_makes h = ground arith

  binary_makes :
      (m : ℕ)
      → BinaryConverter.to_payload C m v ≡ ok (some p)
      → (s : String) × (b : Bytes) × (v ≡ str s)
        × (C.base64_decode s ≡ ok b)
        × (p ≡ binary_payload C b)
  unfolding BinaryConverter.to_payload binary_payload
  binary_makes m h = ground arith

  json_makes :
      (d : ℕ)
      → JsonConverter.to_payload C (record { max_depth = d; sort_keys = true }) v ≡ ok (some p)
      → (b : Bytes) × (C.to_vec (canonical C v) ≡ ok b) × (depth v ≤ d) × (p ≡ json_payload C b)
  unfolding JsonConverter.to_payload JsonConverter.to_deterministic_json json_payload
  json_makes d h = ground (arith, validate_depth_lem d v 0, serialize_canonical_lem C v)

module _ (C : Codecs) (L : IsLawful C) (v : Value C.Number) (p : Payload) where
  -- What a converter's payload says of its encoding, and how the built-in converters read it.
  record Made (e : String) : Type 0 where
    labelled : Dict.get "encoding" p.metadata ≡ some (bytes e)
    readable : from_utf8_lossy (bytes e) ≡ e
    reads : (c : PayloadConverter C.Number) → IsBuiltIn C c → Reads C e p (canonical C v) c

  nil_made : NilConverter.to_payload v ≡ ok (some p) → Made "binary/null"
  unfolding nil_payload canonical Dict.get from_utf8_lossy
  nil_made h =
      let (is_null, made) = nil_makes C v p h in
      record { labelled = rw made refl; readable = refl; reads = rw (is_null, made) (nil-Reads C) }

  binary_made : (m : ℕ) → BinaryConverter.to_payload C m v ≡ ok (some p) → Made "binary/plain"
  unfolding binary_payload canonical Dict.get from_utf8_lossy
  binary_made m h =
      let (s, b, text, decoded, made) = binary_makes C v p m h in
      record {
        labelled = rw made refl;
        readable = refl;
        reads = rw (text, made, ← L.reads_base64 s b decoded) (binary-Reads C b);
      }

  json_made :
      IsProper v
      → AllNumbers (λ n. L.is_f64 n ≡ false) v
      → (d : ℕ) → d ≤ 127
      → JsonConverter.to_payload C (record { max_depth = d; sort_keys = true }) v ≡ ok (some p)
      → Made "json/plain"
  unfolding json_payload Dict.get from_utf8_lossy
  json_made proper exact d small h =
      let (b, written, within, made) = json_makes C v p d h in
      let read : C.from_slice b ≡ ok (canonical C v) =
        L.reads_json (canonical C v) b (canonical-IsCanonical C L.collects v proper)
          (AllNumbers-canonical C (λ n. L.is_f64 n ≡ false) L.collects v proper exact)
          (rw (depth-canonical C L.collects v proper) (omega arith)) written in
      record {
        labelled = rw made refl;
        readable = refl;
        reads = rw made (json-Reads C b (canonical C v) read);
      }

  made :
      IsProper v
      → AllNumbers (λ n. L.is_f64 n ≡ false) v
      → (c : PayloadConverter C.Number) → IsBuiltIn C c
      → c.to_payload v ≡ ok (some p)
      → Made c.encoding
  made proper exact =
      built_in C (λ c. c.to_payload v ≡ ok (some p) → Made c.encoding) nil_made binary_made
        (json_made proper exact)

  All-Reads :
      (e : String) (cs : Converters C.Number)
      → Made e
      → All (IsBuiltIn C) cs
      → All (Reads C e p (canonical C v)) cs
  All-Reads e [] m a = tt
  All-Reads e (c ∷ cs) m a = (m.reads c a.0, All-Reads e cs m a.1)

  -- One of the converters made `p`: that gives the encoding, which stands in the chain.
  maker :
      IsProper v
      → AllNumbers (λ n. L.is_f64 n ≡ false) v
      → (cs : Converters C.Number) → All (IsBuiltIn C) cs
      → Any (λ c. c.to_payload v ≡ ok (some p)) cs
      → (e : String) × Made e × Any (λ c. (c.encoding == e) ≡ true) cs
  maker proper exact [] a h = absurd h
  maker proper exact (c ∷ cs) a (inl h) =
      (c.encoding, made proper exact c a.0 h, inl (eq_refl c.encoding))
  maker proper exact (c ∷ cs) a (inr h) =
      let (e, m, k) = maker proper exact cs a.1 h in (e, m, inr k)

  select_labelled :
      (e : String) (cs : Converters C.Number)
      → Made e
      → by_encoding cs e p ≡ ok (some (canonical C v))
      → select cs p ≡ ok (some (canonical C v))
  unfolding select
  select_labelled e cs m h = rw (m.labelled, select, m.readable, h)

  -- For a chain of the program's converters (JSON with sorted keys and at most 127 levels): the
  -- payload that the chain makes of a value is read back by the chain as the canonical form of the
  -- value, for values whose maps list each key once and which hold no floating-point number.
  pub from_payload-to_payload :
      IsProper v
      → AllNumbers (λ n. L.is_f64 n ≡ false) v
      → (cs : Converters C.Number) → All (IsBuiltIn C) cs
      → to_payload cs v ≡ ok p
      → from_payload cs p ≡ ok (canonical C v)
  unfolding from_payload
  from_payload-to_payload proper exact cs a h =
      let (e, m, found) =
        maker proper exact cs a (to_payload-Any v cs p (((to_payload_first v cs).0 p).0 h)) in
      let chosen : select cs p ≡ ok (some (canonical C v)) =
        select_labelled e cs m
          (by_encoding-Any C e p (canonical C v) cs (All-Reads e cs m a) found) in
      rw chosen
