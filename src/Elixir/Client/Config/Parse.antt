-- ===== src/Elixir/Client/Config/Parse.antt =====
-- The readers of texts of the environment in lib/temporal/client/config.ex.
use sdk_elixir.Base.{
  ℕ, ◌+◌, ◌-◌, ◌*◌, leb, eqb, String, if◌then◌else◌, Bool, true, false, ◌&&◌, Option, none, some,
  and_then, List, [], ◌∷◌, ◌++◌,
}
use sdk_elixir.Base.Utf8.{Bytes, bytes, bytes_eq}
use sdk_elixir.Elixir.Term.{Machine}
use sdk_elixir.Elixir.PayloadConverter.JsonConverter.{AtomHandling, as_string, as_atom, as_error}
use sdk_elixir.Elixir.Client.Config.Resolve.{ConverterType, nil_type, binary_type, json_type}

abbrev pub is_text : Bytes → String → Bool
is_text b s = bytes_eq b (bytes s)

-- `Integer.parse`, which reads the digits after a sign and leaves the rest: the value, and whether it is
-- negative.
abbrev pub is_digit : ℕ → Bool
is_digit c = leb 48 c && leb c 57

unfoldable pub take_digits : ℕ → Bytes → ℕ
take_digits n [] = n
take_digits n (c ∷ cs) =
    let rest = take_digits (n * 10 + (c - 48)) cs in if is_digit c then rest else n

unfoldable pub unsigned : Bytes → Option ℕ
unfolding take_digits
unsigned [] = none
unsigned (c ∷ cs) = if is_digit c then some (take_digits 0 (c ∷ cs)) else none

unfoldable pub integer_parse : Bytes → Option (Bool × ℕ)
unfolding unsigned
integer_parse [] = none
integer_parse (c ∷ cs) =
    if eqb c 45
    then and_then (unsigned cs) (λ n. some (true, n))
    else if eqb c 43
    then and_then (unsigned cs) (λ n. some (false, n))
    else and_then (unsigned (c ∷ cs)) (λ n. some (false, n))

-- The default stands for what is no number, and for a negative number.
unfoldable pub parse_int : Option Bytes → ℕ → ℕ
unfolding integer_parse
parse_int none d = d
parse_int (some b) d = elim (integer_parse b) [
  | none ↦ d
  | some (negative, n) ↦ if negative then (if eqb n 0 then 0 else d) else n
]

-- `String.split(",")`
unfoldable pub split_onto : Bytes → Bytes → List Bytes
split_onto part [] = part ∷ []
split_onto part (c ∷ cs) = elim (eqb c 44) [
  | true ↦ part ∷ split_onto [] cs
  | false ↦ split_onto (part ++ (c ∷ [])) cs
]

-- `nil` is both the type of that name and the answer to an unknown name.
unfoldable pub parse_converter_type : Bytes → ConverterType
unfolding bytes bytes_eq
parse_converter_type b =
    if is_text b "binary" then binary_type else if is_text b "json" then json_type else nil_type

-- `Enum.reject(&is_nil/1)`
unfoldable pub reject_nil : List ConverterType → List ConverterType
reject_nil [] = []
reject_nil (nil_type ∷ ts) = reject_nil ts
reject_nil (t ∷ ts) = t ∷ reject_nil ts

module _ {F : Type 0} (M : Machine F) where
  -- `String.downcase(String.trim(v))`
  abbrev pub lowered : Bytes → Bytes
  lowered b = M.downcase (M.trim b)

  unfoldable pub parse_bool : Option Bytes → Option Bool
  unfolding bytes bytes_eq
  parse_bool none = none
  parse_bool (some b) =
      if is_text (lowered b) "true"
      then some true
      else if is_text (lowered b) "1"
      then some true
      else if is_text (lowered b) "false"
      then some false
      else if is_text (lowered b) "0"
      then some false
      else none

  unfoldable pub parse_types : List Bytes → List ConverterType
  unfolding parse_converter_type
  parse_types [] = []
  parse_types (b ∷ bs) = parse_converter_type (M.trim b) ∷ parse_types bs

  -- `none` is `:default`.
  unfoldable pub parse_payload_converter : Option Bytes → Option (List ConverterType)
  unfolding bytes bytes_eq split_onto parse_types reject_nil
  parse_payload_converter none = none
  parse_payload_converter (some b) =
      if is_text (lowered b) "default"
      then none
      else if is_text (lowered b) "json"
      then some (json_type ∷ [])
      else some (reject_nil (parse_types (split_onto [] (lowered b))))

  unfoldable pub parse_atom_handling : Option Bytes → AtomHandling
  unfolding bytes bytes_eq
  parse_atom_handling none = as_string
  parse_atom_handling (some b) =
      if is_text (lowered b) "string"
      then as_string
      else if is_text (lowered b) "atom"
      then as_atom
      else if is_text (lowered b) "error"
      then as_error
      else as_string
