-- ===== src/Elixir/Client/Config/Resolve.antt =====
-- `resolve_payload_converter` of lib/temporal/client/config.ex
use sdk_elixir.Base.{
  ℕ, ◌*◌, ltb, if◌then◌else◌, String, Bool, true, Option, unwrap_or, List, [], ◌∷◌, map,
}
use sdk_elixir.Elixir.Term.{Machine}
use sdk_elixir.Elixir.PayloadConverter.BuiltIn.{
  Struct, nil_struct, protobuf_struct, binary_struct, json_struct, dispatch,
}
use sdk_elixir.Elixir.PayloadConverter.JsonConverter.{AtomHandling, as_string}
use sdk_elixir.Elixir.PayloadConverter.ProtobufConverter.{Mode, binary_mode}

-- `nil`, `:binary`, `:json`, `:protobuf` and `{:custom, module}`.
pub data ConverterType : Type 0 where
  nil_type : ConverterType
  binary_type : ConverterType
  json_type : ConverterType
  protobuf_type : ConverterType
  custom_type : (name : String) → ConverterType

-- `:default`, a list, and `{module, opts}`, with the struct that `struct(module, opts)` makes.
pub data ConverterSpec (F : Type 0) : Type 0 where
  default_spec : ConverterSpec F
  listed : List ConverterType → ConverterSpec F
  module_spec : Struct F → ConverterSpec F

-- `payload_converter_options`, a map with some of these keys.
pub record ConverterOptions : Type 0 where
  pub binary_max_size : Option ℕ
  pub json_max_depth : Option ℕ
  pub json_atom_handling : Option AtomHandling
  pub protobuf_mode : Option Mode
  pub protobuf_include_type_url : Option Bool

-- `structs` makes the struct of a module of the application.
module _ {F : Type 0} (structs : String → Struct F) where
  unfoldable pub resolve_single_converter : ConverterOptions → ConverterType → Struct F
  resolve_single_converter o nil_type = nil_struct
  resolve_single_converter o binary_type = binary_struct (unwrap_or (1024 * 1024) o.binary_max_size)
  resolve_single_converter o json_type = json_struct (record {
    max_depth = unwrap_or 32 o.json_max_depth;
    atom_handling = unwrap_or as_string o.json_atom_handling;
    sort_keys = true;
  })
  resolve_single_converter o protobuf_type = protobuf_struct (record {
    mode = unwrap_or binary_mode o.protobuf_mode;
    include_type_url = unwrap_or true o.protobuf_include_type_url;
  })
  resolve_single_converter o (custom_type name) = structs name

  module _ (M : Machine F) where
    -- `Enum.sort_by(&Temporal.PayloadConverter.priority/1)`, a stable sort.
    unfoldable pub insert_struct : Struct F → List (Struct F) → List (Struct F)
    unfolding dispatch
    insert_struct s [] = s ∷ []
    insert_struct s (r ∷ rs) =
        if ltb (dispatch M r).priority (dispatch M s).priority
        then r ∷ insert_struct s rs
        else s ∷ r ∷ rs

    unfoldable pub sort_structs : List (Struct F) → List (Struct F)
    unfolding insert_struct
    sort_structs [] = []
    sort_structs (s ∷ ss) = insert_struct s (sort_structs ss)

    unfoldable pub resolve_payload_converter : ConverterSpec F → ConverterOptions → List (Struct F)
    unfolding resolve_single_converter sort_structs
    resolve_payload_converter default_spec o =
        sort_structs (
          map (resolve_single_converter o)
            (nil_type ∷ protobuf_type ∷ binary_type ∷ json_type ∷ []))
    resolve_payload_converter (listed types) o =
        sort_structs (map (resolve_single_converter o) types)
    resolve_payload_converter (module_spec s) o = s ∷ []
