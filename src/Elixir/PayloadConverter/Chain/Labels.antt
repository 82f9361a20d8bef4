-- ===== src/Elixir/PayloadConverter/Chain/Labels.antt =====
-- How a chain of the library's converters reads a payload: by its label.
use sdk_elixir.Base.{
  if◌then◌else◌, Bool-cases, ◌≡◌, ◌≢◌, refl, inl, inr, arith, [], Option, some, ok, err,
  Result-cases, unwrap_or,
}
use sdk_elixir.Base.Dict
use sdk_elixir.Base.Utf8.{Bytes, bytes, bytes_eq}
use sdk_elixir.Converter.{Payload}
use sdk_elixir.Elixir.Term.{Term, Machine, atom, binary}
use sdk_elixir.Elixir.PayloadConverter.{
  json_decoding_failed, Outcome, made, failed, skip, has_encoding, has_encoding-get,
}
use sdk_elixir.Elixir.PayloadConverter.BuiltIn.{
  Struct, nil_struct, protobuf_struct, binary_struct, json_struct, custom_struct, dispatch,
}
use sdk_elixir.Elixir.PayloadConverter.NilConverter
use sdk_elixir.Elixir.PayloadConverter.BinaryConverter
use sdk_elixir.Elixir.PayloadConverter.JsonConverter
use sdk_elixir.Elixir.PayloadConverter.ProtobufConverter
use sdk_elixir.Elixir.PayloadConverter.ProtobufConverter.{
  ProtobufConverter, Mode, binary_mode, json_mode, decode_protobuf_binary, decode_protobuf_json,
  mode_encoding,
}

-- A converter of the library, not of the application.
abbrev pub IsBuiltIn : {F : Type 0} → Struct F → Type 0
IsBuiltIn (custom_struct c) = ⊥
IsBuiltIn _ = Unit

abbrev pub label : Payload → Option Bytes
label p = Dict.get "encoding" p.metadata

module _ {F : Type 0} (M : Machine F) where
  -- What the content of a payload with the label `e` means.
  unfoldable pub read_content : Bytes → Payload → Outcome (Term F)
  unfolding bytes bytes_eq decode_protobuf_binary decode_protobuf_json
  read_content e p =
      if bytes_eq e (bytes "binary/null")
      then made (atom "nil")
      else if bytes_eq e (bytes "binary/plain")
      then made (binary p.contents)
      else if bytes_eq e (bytes "json/plain")
      then (elim (M.json_decode p.contents) [
        | ok t ↦ made t
        | err x ↦ failed (json_decoding_failed x)
      ])
      else if bytes_eq e (bytes "proto/binary")
      then decode_protobuf_binary M p.contents p.metadata
      else if bytes_eq e (bytes "proto/json")
      then decode_protobuf_json M p.contents p.metadata
      else skip

  -- A converter reads the payloads with its label as their label says.
  pub read_content-dispatch :
      (s : Struct F) (p : Payload)
      → IsBuiltIn s
      → label p ≡ some ((dispatch M s).encoding)
      → (dispatch M s).from_payload p ≡ ok (read_content ((dispatch M s).encoding) p)
  unfolding read_content dispatch NilConverter.from_payload BinaryConverter.from_payload
      JsonConverter.from_payload ProtobufConverter.from_payload NilConverter.converter
      BinaryConverter.converter JsonConverter.converter ProtobufConverter.converter mode_encoding
      bytes bytes_eq
  read_content-dispatch nil_struct p b h = rw (has_encoding-get "binary/null" p _ h) refl
  read_content-dispatch (binary_struct max_size) p b h =
      rw (has_encoding-get "binary/plain" p _ h) refl
  read_content-dispatch (json_struct j) p b h =
      rw (has_encoding-get "json/plain" p _ h) (ground arith)
  read_content-dispatch (protobuf_struct c) p b h = go c.mode h
    where
      go :
          (m : Mode)
          → label p ≡ some (mode_encoding m)
          → ProtobufConverter.from_payload M p ≡ ok (read_content (mode_encoding m) p)
      go binary_mode k = rw (k, ProtobufConverter.from_payload) refl
      go json_mode k = rw (k, ProtobufConverter.from_payload) refl
  read_content-dispatch (custom_struct c) p b h = elim b [ ]

  pub read_content_answers :
      (s : Struct F) (p : Payload) → IsBuiltIn s → read_content ((dispatch M s).encoding) p ≢ skip
  unfolding read_content dispatch NilConverter.converter BinaryConverter.converter
      JsonConverter.converter ProtobufConverter.converter mode_encoding bytes bytes_eq
      decode_protobuf_binary decode_protobuf_json
  read_content_answers nil_struct p b h = cc
  read_content_answers (binary_struct max_size) p b h = cc
  read_content_answers (json_struct j) p b h = ground arith
  read_content_answers (protobuf_struct c) p b h = go c.mode h
    where
      go : (m : Mode) → read_content (mode_encoding m) p ≢ skip
      go binary_mode k = ground arith
      go json_mode k = ground arith
  read_content_answers (custom_struct c) p b h = elim b [ ]

  -- The converters of the library do not raise when they read.
  pub from_payload_runs :
      (s : Struct F) (p : Payload)
      → IsBuiltIn s
      → (r : Outcome (Term F)) × ((dispatch M s).from_payload p ≡ ok r)
  unfolding dispatch NilConverter.from_payload BinaryConverter.from_payload
      JsonConverter.from_payload ProtobufConverter.from_payload NilConverter.converter
      BinaryConverter.converter JsonConverter.converter ProtobufConverter.converter
  from_payload_runs nil_struct p b = elim (Bool-cases (has_encoding "binary/null" p)) [
    | inl e ↦ (made (atom "nil"), rw e refl)
    | inr e ↦ (skip, rw e refl)
  ]
  from_payload_runs (binary_struct max_size) p b =
      elim (Bool-cases (has_encoding "binary/plain" p)) [
        | inl e ↦ (made (binary p.contents), rw e refl)
        | inr e ↦ (skip, rw e refl)
      ]
  from_payload_runs (json_struct j) p b = elim (Bool-cases (has_encoding "json/plain" p)) [
    | inl e ↦ elim (Result-cases (M.json_decode p.contents)) [
      | inl (t, k) ↦ (made t, rw (e, k) refl)
      | inr (x, k) ↦ (failed (json_decoding_failed x), rw (e, k) refl)
    ]
    | inr e ↦ (skip, rw e refl)
  ]
  from_payload_runs (protobuf_struct c) p b =
      elim (Bool-cases (bytes_eq (unwrap_or [] (label p)) (bytes "proto/binary"))) [
        | inl e ↦ (decode_protobuf_binary M p.contents p.metadata, rw e refl)
        | inr e ↦ elim (Bool-cases (bytes_eq (unwrap_or [] (label p)) (bytes "proto/json"))) [
          | inl k ↦ (decode_protobuf_json M p.contents p.metadata, rw (e, k) refl)
          | inr k ↦ (skip, rw (e, k) refl)
        ]
      ]
  from_payload_runs (custom_struct c) p b = elim b [ ]
