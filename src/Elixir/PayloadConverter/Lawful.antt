-- ===== src/Elixir/PayloadConverter/Lawful.antt =====
-- What the dependencies document, as far as the round trips rely on it.
use sdk_elixir.Base.{String, ◌<>◌, true, ◌≡◌, some, ok, All}
use sdk_elixir.Base.Utf8.{Bytes, bytes}
use sdk_elixir.Elixir.Term.{Term, Machine, struct_module}
use sdk_elixir.Elixir.Base64.{IsByte}
use sdk_elixir.Elixir.PayloadConverter.JsonConverter.{prepare_for_encoding}
use sdk_elixir.Elixir.PayloadConverter.ProtobufConverter.{module_implements_protobuf}

pub record IsLawful {F : Type 0} (M : Machine F) : Type 0 where
  -- Jason reads what it has written of a term of nil, booleans, numbers, strings, lists and maps with
  -- strings as keys.
  pub jason_inverse :
      (t u : Term F) (b : Bytes)
      → prepare_for_encoding M t ≡ ok (ok u)
      → M.json_encode u ≡ ok b
      → M.json_decode b ≡ ok u
  -- A module of messages decodes what it has encoded, which is a binary of bytes.
  pub module_inverse :
      (name : String) (t : Term F) (b : Bytes)
      → struct_module t ≡ some name
      → M.module_encode name t ≡ ok b
      → M.module_decode name b ≡ ok t
  pub module_bytes :
      (name : String) (t : Term F) (b : Bytes) → M.module_encode name t ≡ ok b → All IsByte b
  -- A module of messages is a module of Elixir, and once it is loaded its name exists as an atom.
  pub module_name :
      (name : String)
      → module_implements_protobuf M name ≡ true
      → (rest : String) × (name ≡ "Elixir." <> rest)
  pub module_atom :
      (name : String)
      → module_implements_protobuf M name ≡ true
      → M.existing_atom (bytes name) ≡ some name
