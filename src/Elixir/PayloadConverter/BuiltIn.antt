-- ===== src/Elixir/PayloadConverter/BuiltIn.antt =====
-- The structs of the library's converters, and the calls of lib/temporal/payload_converter.ex, which go
-- to the module of the struct.
use sdk_elixir.Base.{ℕ, ◌*◌, true, List, [], ◌∷◌, map}
use sdk_elixir.Elixir.Term.{Machine}
use sdk_elixir.Elixir.PayloadConverter.{PayloadConverter}
use sdk_elixir.Elixir.PayloadConverter.NilConverter
use sdk_elixir.Elixir.PayloadConverter.BinaryConverter
use sdk_elixir.Elixir.PayloadConverter.JsonConverter
use sdk_elixir.Elixir.PayloadConverter.JsonConverter.{JsonConverter, as_string}
use sdk_elixir.Elixir.PayloadConverter.ProtobufConverter
use sdk_elixir.Elixir.PayloadConverter.ProtobufConverter.{ProtobufConverter, binary_mode}

pub data Struct (F : Type 0) : Type 0 where
  nil_struct : Struct F
  protobuf_struct : ProtobufConverter → Struct F
  binary_struct : (max_size : ℕ) → Struct F
  json_struct : JsonConverter → Struct F
  -- A struct of the application, with the functions of its module.
  custom_struct : PayloadConverter F → Struct F

module _ {F : Type 0} (M : Machine F) where
  -- `converter.__struct__`, whose functions are called.
  unfoldable pub dispatch : Struct F → PayloadConverter F
  unfolding NilConverter.converter ProtobufConverter.converter BinaryConverter.converter
      JsonConverter.converter
  dispatch nil_struct = NilConverter.converter
  dispatch (protobuf_struct c) = ProtobufConverter.converter M c
  dispatch (binary_struct max_size) = BinaryConverter.converter max_size
  dispatch (json_struct j) = JsonConverter.converter M j
  dispatch (custom_struct c) = c

  unfoldable pub dispatch_all : List (Struct F) → List (PayloadConverter F)
  unfolding dispatch
  dispatch_all ss = map dispatch ss

unfoldable pub default_structs : {F : Type 0} → List (Struct F)
default_structs =
    nil_struct
    ∷ protobuf_struct (record { mode = binary_mode; include_type_url = true })
    ∷ binary_struct (1024 * 1024)
    ∷ json_struct (record { max_depth = 32; atom_handling = as_string; sort_keys = true })
    ∷ []
