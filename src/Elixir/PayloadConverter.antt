-- ===== src/Elixir/PayloadConverter.antt =====
-- lib/temporal/payload_converter.ex: the behaviour of the converters, and the errors that they give.
pub mod NilConverter
pub mod BinaryConverter
pub mod JsonConverter
pub mod ProtobufConverter
pub mod BuiltIn
pub mod Made
pub mod Lawful
pub mod Chain
use sdk_elixir.Base.{ℕ, String, Bool, Option, none, some, Result, false, ◌≡◌}
use sdk_elixir.Base.Dict
use sdk_elixir.Base.Dict.{Dict}
use sdk_elixir.Base.Utf8.{Bytes, bytes, bytes_eq}
use sdk_elixir.Converter.{Payload}
use sdk_elixir.Elixir.Term.{Term}

-- What `typeof` of the JSON converter names.
pub data Kind : Type 0 where
  kind_binary : Kind
  kind_atom : Kind
  kind_number : Kind
  kind_list : Kind
  kind_map : Kind
  kind_tuple : Kind
  kind_unknown : Kind

-- The reasons in `{:error, reason}`. An exception is kept as its text; `custom` is a reason of a
-- converter of the application.
pub data Reason : Type 0 where
  binary_too_large : (size max : ℕ) → Reason
  depth_limit_exceeded : (max : ℕ) → Reason
  unsupported_type : Kind → Reason
  jason : (error : String) → Reason
  json_encoding_failed : Reason → Reason
  json_decoding_failed : (error : String) → Reason
  protobuf_encoding_failed : (exception : String) → Reason
  protobuf_json_encoding_failed : (exception : String) → Reason
  protobuf_decoding_failed : (exception : String) → Reason
  protobuf_json_decoding_failed : (exception : String) → Reason
  missing_message_type : Reason
  not_protobuf_module : (name : String) → Reason
  unknown_message_type : (name : Bytes) → Reason
  custom : String → Reason

-- `{:ok, value}`, `{:error, reason}` and `:skip`.
pub data Outcome {ℓ} (A : Type ℓ) : Type ℓ where
  made : A → Outcome A
  failed : Reason → Outcome A
  skip : Outcome A

-- A value, or an exception.
abbrev pub Raises {ℓ} : Type ℓ → Type ℓ
Raises A = Result A String

-- A converter: its struct with the functions of its module. Its encoding is a binary.
pub record PayloadConverter (F : Type 0) : Type 0 where
  pub to_payload : Term F → Raises (Outcome Payload)
  pub from_payload : Payload → Raises (Outcome (Term F))
  pub encoding : Bytes
  pub priority : ℕ
  pub can_convert : Term F → Bool

-- The pattern `%{metadata: %{"encoding" => e}}`.
unfoldable pub has_encoding : String → Payload → Bool
unfolding Dict.get bytes bytes_eq
has_encoding e p = elim (Dict.get "encoding" p.metadata) [
  | none ↦ false
  | some b ↦ bytes_eq b (bytes e)
]

pub has_encoding-get :
    (e : String) (p : Payload) (b : Bytes)
    → Dict.get "encoding" p.metadata ≡ some b
    → has_encoding e p ≡ bytes_eq b (bytes e)
unfolding has_encoding
has_encoding-get e p b h = λ i. elim (h i) [ none ↦ false | some c ↦ bytes_eq c (bytes e) ]
