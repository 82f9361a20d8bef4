-- ===== src/Converter.antt =====
-- native/temporal_nif/src/converter.rs: the errors, the payload, the trait of converters, and what
-- the converters call of other crates.
pub mod Basic
pub mod NilConverter
pub mod BinaryConverter
pub mod JsonConverter
pub mod Composite
pub mod CanConvert
use sdk_elixir.Base.{ℕ, String, ◌<>◌, Bool, Option, Result}
use sdk_elixir.Base.Dict.{Dict}
use sdk_elixir.Base.Utf8.{Bytes}
use sdk_elixir.Base.Decimal.{decimal}
use sdk_elixir.Json.{Value, Fields}

-- `enum ConversionError`; the source of a failed serialisation is kept as its message.
pub data ConversionError : Type 0 where
  unsupported_type : (type_name : String) → ConversionError
  serialization_failed : (source : String) → ConversionError
  depth_limit_exceeded : (max : ℕ) → ConversionError
  binary_too_large : (size max : ℕ) → ConversionError
  deserialization_failed : (reason : String) → ConversionError
  no_converter_found : ConversionError

-- The `#[error]` attributes.
unfoldable pub display : ConversionError → String
display (unsupported_type name) = "Unsupported type: " <> name
display (serialization_failed source) = "Serialization failed: " <> source
display (depth_limit_exceeded most) = "Depth limit exceeded (max: " <> decimal most <> ")"
display (binary_too_large size most) =
    "Binary data too large: " <> decimal size <> " bytes (max: " <> decimal most <> ")"
display (deserialization_failed reason) = "Deserialization failed: " <> reason
display no_converter_found = "No suitable converter found"

-- `Payload` of the protocol; its `data` is `contents` here.
pub record Payload : Type 0 where
  pub metadata : Dict Bytes
  pub contents : Bytes

-- What is called of `serde_json` and `base64`. `collect_map` is `Map::from_iter`, whose result is
-- given by the order in which it iterates.
pub record Codecs : Type 1 where
  pub Number : Type 0
  pub to_vec : Value Number → Result Bytes String
  pub from_slice : Bytes → Result (Value Number) String
  pub collect_map : Fields Number → Fields Number
  pub base64_decode : String → Result Bytes String
  pub base64_encode : Bytes → String

-- `trait PayloadConverter`
pub record PayloadConverter (N : Type 0) : Type 0 where
  pub to_payload : Value N → Result (Option Payload) ConversionError
  pub from_payload : Payload → Result (Option (Value N)) ConversionError
  pub encoding : String
  pub priority : ℕ
  pub can_convert : Value N → Bool
