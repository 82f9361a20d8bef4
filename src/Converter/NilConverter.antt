-- ===== src/Converter/NilConverter.antt =====
-- `NilConverter`
use sdk_elixir.Base.{if◌then◌else◌, Option, none, some, Result, ok, []}
use sdk_elixir.Json.{Value, null, is_null}
use sdk_elixir.Converter.{ConversionError, Payload, PayloadConverter}
use sdk_elixir.Converter.Basic.{plain_metadata, has_encoding}

module _ {N : Type 0} where
  unfoldable pub to_payload : Value N → Result (Option Payload) ConversionError
  unfolding plain_metadata
  to_payload v =
      if is_null v
      then ok (some (record { metadata = plain_metadata "binary/null"; contents = [] }))
      else ok none

  unfoldable pub from_payload : Payload → Result (Option (Value N)) ConversionError
  unfolding has_encoding
  from_payload p = if has_encoding "binary/null" p then ok (some null) else ok none

  -- `NilConverter` as a trait object, with its `encoding`, `priority` and `can_convert`.
  abbrev pub converter : PayloadConverter N
  converter = record {
    to_payload = to_payload;
    from_payload = from_payload;
    encoding = "binary/null";
    priority = 10;
    can_convert = is_null;
  }
