-- ===== src/Converter/BinaryConverter.antt =====
-- `BinaryConverter`
use sdk_elixir.Base.{
  ℕ, ltb, length, if◌then◌else◌, Bool, true, false, Option, none, some, Result, ok, err,
}
use sdk_elixir.Base.Utf8.{Bytes}
use sdk_elixir.Json.{Value, str, as_str}
use sdk_elixir.Converter.{ConversionError, binary_too_large, Payload, Codecs, PayloadConverter}
use sdk_elixir.Converter.Basic.{plain_metadata, has_encoding}

module _ (C : Codecs) where
  -- The size check, and the payload.
  unfoldable pub pack : ℕ → Bytes → Result (Option Payload) ConversionError
  unfolding plain_metadata
  pack max_size binary =
      if ltb max_size (length binary)
      then err (binary_too_large (length binary) max_size)
      else ok (some (record { metadata = plain_metadata "binary/plain"; contents = binary }))

  unfoldable pub to_payload : ℕ → Value C.Number → Result (Option Payload) ConversionError
  unfolding pack
  to_payload max_size v = elim (as_str v) [
    | none ↦ ok none
    | some s ↦ elim (C.base64_decode s) [ ok binary ↦ pack max_size binary | err _ ↦ ok none ]
  ]

  unfoldable pub from_payload : Payload → Result (Option (Value C.Number)) ConversionError
  unfolding has_encoding
  from_payload p =
      if has_encoding "binary/plain" p
      then ok (some (str (C.base64_encode p.contents)))
      else ok none

  unfoldable pub can_convert : Value C.Number → Bool
  can_convert v = elim (as_str v) [
    | none ↦ false
    | some s ↦ elim (C.base64_decode s) [ ok _ ↦ true | err _ ↦ false ]
  ]

  -- `BinaryConverter::new(max_size)` as a trait object.
  abbrev pub converter : ℕ → PayloadConverter C.Number
  converter max_size = record {
    to_payload = to_payload max_size;
    from_payload = from_payload;
    encoding = "binary/plain";
    priority = 20;
    can_convert = can_convert;
  }
