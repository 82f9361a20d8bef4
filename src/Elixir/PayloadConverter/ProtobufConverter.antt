-- ===== src/Elixir/PayloadConverter/ProtobufConverter.antt =====
-- lib/temporal/payload_converter/protobuf_converter.ex
pub mod RoundTrip
use Prim.Native.String
use sdk_elixir.Base.{
  String, ◌<>◌, ◌==◌, if◌then◌else◌, Bool, true, false, ◌&&◌, Option, none, some, Result, ok, err,
  then_try, unwrap_or, List, [], ◌∷◌, ◌++◌,
}
use sdk_elixir.Base.Dict
use sdk_elixir.Base.Dict.{Dict}
use sdk_elixir.Base.Utf8.{Bytes, bytes, bytes_eq}
use sdk_elixir.Converter.{Payload}
use sdk_elixir.Elixir.Term.{Term, Machine, struct_module}
use sdk_elixir.Elixir.Base64.{encode64, decode64}
use sdk_elixir.Elixir.PayloadConverter.{
  Reason, protobuf_encoding_failed, protobuf_json_encoding_failed, protobuf_decoding_failed,
  protobuf_json_decoding_failed, missing_message_type, not_protobuf_module, unknown_message_type,
  PayloadConverter, Raises, Outcome, made, failed, skip,
}

-- `:binary` and `:json`.
pub data Mode : Type 0 where
  binary_mode : Mode
  json_mode : Mode

-- The struct.
pub record ProtobufConverter : Type 0 where
  pub mode : Mode
  pub include_type_url : Bool

-- `String.replace_prefix(name, prefix, "")`; `none` if there is no such prefix.
unfoldable pub drop_prefix : String → String → Option String
drop_prefix String.[] s = some s
drop_prefix (String.◌∷◌ c p) String.[] = none
drop_prefix (String.◌∷◌ c p) (String.◌∷◌ d s) =
    if String.◌∷◌ c String.[] == String.◌∷◌ d String.[] then drop_prefix p s else none

unfoldable pub get_message_type : String → String
unfolding drop_prefix
get_message_type name = unwrap_or name (drop_prefix "Elixir." name)

unfoldable pub get_type_url : String → String
unfolding get_message_type
get_type_url name = "type.googleapis.com/" <> get_message_type name

-- The metadata of a message; `kind` has the entries that the mode adds.
unfoldable pub message_metadata : ProtobufConverter → String → Dict Bytes → String → Dict Bytes
unfolding get_message_type get_type_url Dict.insert bytes
message_metadata c e extra name =
    let metadata =
      ("encoding", bytes e)
      ∷ ("messageType", bytes (get_message_type name))
      ∷ (extra ++ (("sdk", bytes "elixir") ∷ [])) in
    if c.include_type_url
    then Dict.insert "messageTypeUrl" (bytes (get_type_url name)) metadata
    else metadata

unfoldable pub mode_encoding : Mode → Bytes
unfolding bytes
mode_encoding binary_mode = bytes "proto/binary"
mode_encoding json_mode = bytes "proto/json"

module _ {F : Type 0} (M : Machine F) where
  unfoldable pub module_implements_protobuf : String → Bool
  module_implements_protobuf name =
      M.function_exported name "encode" 1
      && (M.function_exported name "decode" 1 && M.function_exported name "__message_props__" 0)

  unfoldable pub is_protobuf_struct : Term F → Bool
  unfolding struct_module module_implements_protobuf
  is_protobuf_struct t = elim (struct_module t) [
    | some name ↦ module_implements_protobuf name
    | none ↦ false
  ]

  unfoldable pub encode_protobuf_binary : ProtobufConverter → String → Term F → Outcome Payload
  unfolding message_metadata
  encode_protobuf_binary c name t = elim (M.module_encode name t) [
    | ok b ↦ made (record { metadata = message_metadata c "proto/binary" [] name; contents = b })
    | err e ↦ failed (protobuf_encoding_failed e)
  ]

  -- The JSON mode stores the bytes of the binary mode as base64.
  unfoldable pub encode_protobuf_json : ProtobufConverter → String → Term F → Outcome Payload
  unfolding message_metadata encode64 bytes
  encode_protobuf_json c name t = elim (M.module_encode name t) [
    | ok b ↦ made (record {
      metadata =
          message_metadata c "proto/json" (("contentType", bytes "application/x-protobuf") ∷ [])
            name;
      contents = encode64 b;
    })
    | err e ↦ failed (protobuf_json_encoding_failed e)
  ]

  unfoldable pub encode_protobuf : ProtobufConverter → String → Term F → Outcome Payload
  unfolding encode_protobuf_binary encode_protobuf_json
  encode_protobuf c name t = elim c.mode [
    | binary_mode ↦ encode_protobuf_binary c name t
    | json_mode ↦ encode_protobuf_json c name t
  ]

  unfoldable pub to_payload : ProtobufConverter → Term F → Raises (Outcome Payload)
  unfolding struct_module module_implements_protobuf encode_protobuf
  to_payload c t = elim (struct_module t) [
    | none ↦ ok skip
    | some name ↦ if module_implements_protobuf name then ok (encode_protobuf c name t) else ok skip
  ]

  unfoldable pub get_module_from_metadata : Dict Bytes → Result String Reason
  unfolding Dict.get module_implements_protobuf bytes
  get_module_from_metadata metadata = elim (Dict.get "messageType" metadata) [
    | none ↦ err missing_message_type
    | some name ↦ elim (M.existing_atom (bytes "Elixir." ++ name)) [
      | none ↦ err (unknown_message_type name)
      | some found ↦
          if module_implements_protobuf found then ok found else err (not_protobuf_module found)
    ]
  ]

  unfoldable pub decode_protobuf_binary : Bytes → Dict Bytes → Outcome (Term F)
  unfolding get_module_from_metadata
  decode_protobuf_binary b metadata = elim (get_module_from_metadata metadata) [
    | err e ↦ failed e
    | ok name ↦ elim (M.module_decode name b) [
      | ok t ↦ made t
      | err e ↦ failed (protobuf_decoding_failed e)
    ]
  ]

  unfoldable pub decode_protobuf_json : Bytes → Dict Bytes → Outcome (Term F)
  unfolding get_module_from_metadata decode64
  decode_protobuf_json b metadata = elim (get_module_from_metadata metadata) [
    | err e ↦ failed e
    | ok name ↦ elim (decode64 b) [
      | none ↦ failed (protobuf_json_decoding_failed "ArgumentError")
      | some message ↦ elim (M.module_decode name message) [
        | ok t ↦ made t
        | err e ↦ failed (protobuf_json_decoding_failed e)
      ]
    ]
  ]

  -- Both encodings are read, whatever the mode.
  unfoldable pub from_payload : Payload → Raises (Outcome (Term F))
  unfolding Dict.get bytes bytes_eq decode_protobuf_binary decode_protobuf_json
  from_payload p =
      let encoding = unwrap_or [] (Dict.get "encoding" p.metadata) in
      if bytes_eq encoding (bytes "proto/binary")
      then ok (decode_protobuf_binary p.contents p.metadata)
      else if bytes_eq encoding (bytes "proto/json")
      then ok (decode_protobuf_json p.contents p.metadata)
      else ok skip

  unfoldable pub converter : ProtobufConverter → PayloadConverter F
  unfolding to_payload from_payload mode_encoding is_protobuf_struct
  converter c = record {
    to_payload = to_payload c;
    from_payload = from_payload;
    encoding = mode_encoding c.mode;
    priority = 15;
    can_convert = is_protobuf_struct;
  }
