-- ===== src/Elixir/PayloadConverter/Made.antt =====
-- What a payload that a converter has made says of the term.
use sdk_elixir.Base.{
  ℕ, leb, String, ◌==◌, true, Bool-cases, ◌≡◌, refl, inl, inr, arith, [], ◌∷◌, length, some,
  Option-cases, ok, err, Result-cases,
}
use text.Mathlib.TextEquality.{eq_iff}
use sdk_elixir.Base.Utf8.{Bytes, bytes}
use sdk_elixir.Converter.{Payload}
use sdk_elixir.Elixir.Term.{
  Term, atom, integer, float, binary, list, tuple, map, reference, other, Machine, struct_module,
}
use sdk_elixir.Elixir.Base64.{encode64}
use sdk_elixir.Elixir.PayloadConverter.{made}
use sdk_elixir.Elixir.PayloadConverter.NilConverter
use sdk_elixir.Elixir.PayloadConverter.NilConverter.{nil_payload}
use sdk_elixir.Elixir.PayloadConverter.BinaryConverter
use sdk_elixir.Elixir.PayloadConverter.BinaryConverter.{plain_payload}
use sdk_elixir.Elixir.PayloadConverter.JsonConverter
use sdk_elixir.Elixir.PayloadConverter.JsonConverter.{
  JsonConverter, validate_depth, prepare_for_encoding, encode_json, json_payload,
}
use sdk_elixir.Elixir.PayloadConverter.ProtobufConverter
use sdk_elixir.Elixir.PayloadConverter.ProtobufConverter.{
  ProtobufConverter, Mode, binary_mode, json_mode, module_implements_protobuf, encode_protobuf,
  encode_protobuf_binary, encode_protobuf_json, message_metadata,
}

module _ {F : Type 0} where
  pub nil_made :
      (t : Term F) (p : Payload)
      → NilConverter.to_payload t ≡ ok (made p)
      → (t ≡ atom "nil") × (p ≡ nil_payload)
  unfolding NilConverter.to_payload
  nil_made (atom s) p h = elim (Bool-cases (s == "nil")) [
    | inl e ↦ (ground (arith, eq_iff s "nil"), ground arith)
    | inr e ↦ absurd (ground arith)
  ]
  nil_made (integer n) p h = cc
  nil_made (float x) p h = cc
  nil_made (binary b) p h = cc
  nil_made (list ts) p h = cc
  nil_made (tuple ts) p h = cc
  nil_made (map es) p h = cc
  nil_made (reference n) p h = cc
  nil_made (other n) p h = cc

  pub binary_made :
      (max_size : ℕ) (t : Term F) (p : Payload)
      → BinaryConverter.to_payload max_size t ≡ ok (made p)
      → (b : Bytes) × (t ≡ binary b) × (p ≡ plain_payload b)
  unfolding BinaryConverter.to_payload
  binary_made max_size (binary b) p h = elim (Bool-cases (leb (length b) max_size)) [
    | inl e ↦ (b, refl, ground arith)
    | inr e ↦ absurd (ground arith)
  ]
  binary_made max_size (atom s) p h = cc
  binary_made max_size (integer n) p h = cc
  binary_made max_size (float x) p h = cc
  binary_made max_size (list ts) p h = cc
  binary_made max_size (tuple ts) p h = cc
  binary_made max_size (map es) p h = cc
  binary_made max_size (reference n) p h = cc
  binary_made max_size (other n) p h = cc

-- The content and the metadata of a message, in a mode.
abbrev pub message_payload : ProtobufConverter → String → Bytes → Mode → Payload
message_payload c name b binary_mode = record {
  metadata = message_metadata c "proto/binary" [] name;
  contents = b;
}
message_payload c name b json_mode = record {
  metadata =
      message_metadata c "proto/json" (("contentType", bytes "application/x-protobuf") ∷ []) name;
  contents = encode64 b;
}

module _ {F : Type 0} (M : Machine F) where
  pub json_encoded :
      (j : JsonConverter) (t : Term F) (b : Bytes)
      → encode_json M j t ≡ ok (ok b)
      → (u : Term F) × (prepare_for_encoding M t ≡ ok (ok u)) × (M.json_encode u ≡ ok b)
  unfolding encode_json
  json_encoded j t b h = elim (Bool-cases j.sort_keys) [
    | inr e ↦ absurd (ground arith)
    | inl e ↦ elim (Result-cases (prepare_for_encoding M t)) [
      | inr (x, k) ↦ absurd (ground arith)
      | inl (err r, k) ↦ absurd (ground arith)
      | inl (ok u, k) ↦ elim (Result-cases (M.json_encode u)) [
        | inr (x, l) ↦ absurd (ground arith)
        | inl (c, l) ↦ (u, k, ground arith)
      ]
    ]
  ]

  pub json_made :
      (j : JsonConverter) (t : Term F) (p : Payload)
      → JsonConverter.to_payload M j t ≡ ok (made p)
      → (u : Term F) × (b : Bytes) × (prepare_for_encoding M t ≡ ok (ok u))
        × (M.json_encode u ≡ ok b)
        × (p ≡ json_payload b)
  unfolding JsonConverter.to_payload
  json_made j t p h = elim (Result-cases (validate_depth j.max_depth t 0)) [
    | inr (e, k) ↦ absurd (ground arith)
    | inl (x, k) ↦ elim (Result-cases (encode_json M j t)) [
      | inr (e, l) ↦ absurd (ground arith)
      | inl (err e, l) ↦ absurd (ground arith)
      | inl (ok b, l) ↦ let (u, q, r) = json_encoded j t b l in (u, b, q, r, ground arith)
    ]
  ]

  encoded_message :
      (c : ProtobufConverter) (name : String) (t : Term F) (p : Payload)
      → encode_protobuf M c name t ≡ made p
      → (b : Bytes) × (M.module_encode name t ≡ ok b) × (p ≡ message_payload c name b c.mode)
  unfolding encode_protobuf encode_protobuf_binary encode_protobuf_json
  encoded_message c name t p h = elim (Result-cases (M.module_encode name t)) [
    | inr (e, k) ↦ absurd (ground arith)
    | inl (b, k) ↦ (b, k, ground arith)
  ]

  pub protobuf_made :
      (c : ProtobufConverter) (t : Term F) (p : Payload)
      → ProtobufConverter.to_payload M c t ≡ ok (made p)
      → (name : String) × (b : Bytes) × (struct_module t ≡ some name)
        × (module_implements_protobuf M name ≡ true)
        × (M.module_encode name t ≡ ok b)
        × (p ≡ message_payload c name b c.mode)
  unfolding ProtobufConverter.to_payload
  protobuf_made c t p h = elim (Option-cases (struct_module t)) [
    | inl k ↦ absurd (ground arith)
    | inr (name, k) ↦ elim (Bool-cases (module_implements_protobuf M name)) [
      | inr e ↦ absurd (ground arith)
      | inl e ↦ let (b, q, r) = encoded_message c name t p (ground arith) in (name, b, k, e, q, r)
    ]
  ]
