-- ===== src/Elixir/PayloadConverter/ProtobufConverter/RoundTrip.antt =====
-- A message is read back from its payload, in both modes.
use sdk_elixir.Base.{String, ◌<>◌, true, ◌≡◌, refl, ◌∙◌, sym, ap, arith, ◌++◌, some, ok}
use text.Mathlib.TextLemmas.{nil-append, cons-append}
use text.Mathlib.TextPositions.{eq_refl}
use sdk_elixir.Base.Append.{bytes-append}
use sdk_elixir.Base.Dict
use sdk_elixir.Base.Utf8.{Bytes, bytes}
use sdk_elixir.Converter.{Payload}
use sdk_elixir.Elixir.Term.{Term, Machine, struct_module}
use sdk_elixir.Elixir.Base64.{decode64-encode64}
use sdk_elixir.Elixir.PayloadConverter.{Outcome, made}
use sdk_elixir.Elixir.PayloadConverter.ProtobufConverter.{
  ProtobufConverter, Mode, binary_mode, json_mode, drop_prefix, get_message_type, message_metadata,
  mode_encoding, module_implements_protobuf, get_module_from_metadata, decode_protobuf_binary,
  decode_protobuf_json,
}
use sdk_elixir.Elixir.PayloadConverter.Made.{message_payload}
use sdk_elixir.Elixir.PayloadConverter.Lawful.{IsLawful}

drop_prefix-append : (p s : String) → drop_prefix p (p <> s) ≡ some s
unfolding drop_prefix
drop_prefix-append String.[] s = ap some (nil-append s)
drop_prefix-append (String.◌∷◌ c p) s =
    rw (cons-append c p s, eq_refl (String.◌∷◌ c String.[])) (drop_prefix-append p s)

message_type_Elixir : (rest : String) → get_message_type ("Elixir." <> rest) ≡ rest
unfolding get_message_type
message_type_Elixir rest = rw (drop_prefix-append "Elixir." rest) refl

metadata_type :
    (c : ProtobufConverter) (m : Mode) (name : String) (b : Bytes)
    → Dict.get "messageType" ((message_payload c name b m).metadata)
      ≡ some (bytes (get_message_type name))
unfolding message_metadata Dict.get Dict.insert
metadata_type c binary_mode name b = ground arith
metadata_type c json_mode name b = ground arith

pub metadata_encoding :
    (c : ProtobufConverter) (m : Mode) (name : String) (b : Bytes)
    → Dict.get "encoding" ((message_payload c name b m).metadata) ≡ some (mode_encoding m)
unfolding message_metadata Dict.get Dict.insert mode_encoding
metadata_encoding c binary_mode name b = ground arith
metadata_encoding c json_mode name b = ground arith

module _ {F : Type 0} (M : Machine F) where
  -- What was encoded is decoded, in the mode in which it was encoded.
  abbrev pub decode_mode : Mode → Payload → Outcome (Term F)
  decode_mode binary_mode p = decode_protobuf_binary M p.contents p.metadata
  decode_mode json_mode p = decode_protobuf_json M p.contents p.metadata

module _ {F : Type 0} (M : Machine F) (law : IsLawful M) where
  found_module :
      (c : ProtobufConverter) (m : Mode) (name : String) (b : Bytes)
      → module_implements_protobuf M name ≡ true
      → get_module_from_metadata M ((message_payload c name b m).metadata) ≡ ok name
  unfolding get_module_from_metadata
  found_module c m name b h =
      let (rest, e) = law.module_name name h in
      let named : bytes "Elixir." ++ bytes (get_message_type name) ≡ bytes name =
        ap (λ n. bytes "Elixir." ++ bytes (get_message_type n)) e
        ∙ ap (λ r. bytes "Elixir." ++ bytes r) (message_type_Elixir rest)
        ∙ sym (bytes-append "Elixir." rest)
        ∙ ap bytes (sym e) in
      rw (metadata_type c m name b, named, law.module_atom name h, h, get_module_from_metadata) refl

  pub decode_mode-message_payload :
      (c : ProtobufConverter) (m : Mode) (name : String) (t : Term F) (b : Bytes)
      → struct_module t ≡ some name
      → module_implements_protobuf M name ≡ true
      → M.module_encode name t ≡ ok b
      → decode_mode M m (message_payload c name b m) ≡ made t
  unfolding decode_protobuf_binary decode_protobuf_json
  decode_mode-message_payload c binary_mode name t b s h e =
      rw
        (
          found_module c binary_mode name b h,
          law.module_inverse name t b s e,
          decode_protobuf_binary,
        )
        refl
  decode_mode-message_payload c json_mode name t b s h e =
      rw
        (
          found_module c json_mode name b h,
          decode64-encode64 b (law.module_bytes name t b e),
          law.module_inverse name t b s e,
          decode_protobuf_json,
        )
        refl
