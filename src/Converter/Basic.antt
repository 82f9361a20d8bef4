-- ===== src/Converter/Basic.antt =====
-- The metadata that the nil and the binary converter write, and the test that all converters make.
use sdk_elixir.Base.{String, Bool, false, none, some, []}
use sdk_elixir.Base.Dict
use sdk_elixir.Base.Dict.{Dict}
use sdk_elixir.Base.Utf8.{Bytes, bytes, bytes_eq}
use sdk_elixir.Converter.{Payload}

-- The metadata that the nil and the binary converter write.
unfoldable pub plain_metadata : String → Dict Bytes
unfolding Dict.insert bytes
plain_metadata encoding =
    Dict.insert "sdk" (bytes "elixir") (Dict.insert "encoding" (bytes encoding) [])

-- `if let Some(encoding) = payload.metadata.get("encoding") { if encoding == e.as_bytes() { … } }`
unfoldable pub has_encoding : String → Payload → Bool
unfolding Dict.get bytes_eq bytes
has_encoding e p = elim (Dict.get "encoding" p.metadata) [
  | none ↦ false
  | some encoding ↦ bytes_eq encoding (bytes e)
]
