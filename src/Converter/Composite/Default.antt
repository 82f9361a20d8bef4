-- ===== src/Converter/Composite/Default.antt =====
-- What the default chain makes of each value.
use sdk_elixir.Base.{◌≡◌, leb, if◌then◌else◌, length, arith, Result, ok, err}
use sdk_elixir.Json.{Value, null, str}
use sdk_elixir.Json.Depth.{depth}
use sdk_elixir.Converter.{ConversionError, no_converter_found, Payload, Codecs}
use sdk_elixir.Converter.NilConverter
use sdk_elixir.Converter.BinaryConverter
use sdk_elixir.Converter.JsonConverter
use sdk_elixir.Converter.JsonConverter.Canonical.{canonical, serialize_canonical_lem}
use sdk_elixir.Converter.JsonConverter.Depth.{validate_depth_lem}
use sdk_elixir.Converter.Composite.{to_payload, default}
use sdk_elixir.Converter.Composite.BuiltIn.{nil_payload, binary_payload, json_payload}

module _ (C : Codecs) where
  -- As JSON, up to 32 levels.
  abbrev pub as_json : Value C.Number → Result Payload ConversionError
  as_json v =
      if leb (depth v) 32
      then elim (C.to_vec (canonical C v)) [
        | ok b ↦ ok (json_payload C b)
        | err _ ↦ err no_converter_found
      ]
      else err no_converter_found

  -- A text that is base64 of at most 1 MB goes as bytes.
  abbrev pub expected : Value C.Number → Result Payload ConversionError
  expected null = ok (nil_payload C)
  expected (str s) = elim (C.base64_decode s) [
    | ok b ↦ if leb (length b) 1048576 then ok (binary_payload C b) else as_json (str s)
    | err _ ↦ as_json (str s)
  ]
  expected v = as_json v

  -- The default chain sends null as the nil payload, a text that is base64 of at most 1 MB as its
  -- bytes, and any other value as its canonical JSON text. It fails, with `NoConverterFound`, if
  -- that value nests deeper than 32 levels or cannot be serialised.
  pub to_payload-default : (v : Value C.Number) → to_payload (default C) v ≡ expected v
  unfolding default to_payload NilConverter.to_payload BinaryConverter.to_payload
      JsonConverter.to_payload JsonConverter.to_deterministic_json nil_payload binary_payload
      json_payload
  to_payload-default null = ground arith
  to_payload-default (str s) =
      ground
        (arith, validate_depth_lem {N = C.Number} 32 (str s) 0, serialize_canonical_lem C (str s))
  to_payload-default v = ground (arith, validate_depth_lem 32 v 0, serialize_canonical_lem C v)
