-- ===== src/Elixir/Term.antt =====
-- The terms of Elixir, and what the library uses of the language: `to_string`, atoms, structs.
use sdk_elixir.Base.{
  ℕ, leb, String, ◌==◌, if◌then◌else◌, Bool, true, false, ◌&&◌, ◌||◌, Option, none, some, Result,
  and_then, List, [], ◌∷◌, ◌++◌,
}
use sdk_elixir.Base.Int.{ℤ, pos, negsuc, display_int}
use sdk_elixir.Base.Utf8.{Bytes, bytes, bytes_eq, char_bytes, from_utf8_lossy}

-- Floats are opaque. `nil`, `true`, `false` and the names of modules are atoms, a struct is a map whose
-- key `:__struct__` has its module, and a string is a binary. A reference is known by a
-- number, and so is `other`: a function, a pid, a port or a bitstring. A map lists its entries as it iterates.
mutual
  pub data Term (F : Type 0) : Type 0 where
    atom : String → Term F
    integer : ℤ → Term F
    float : F → Term F
    binary : Bytes → Term F
    list : Terms F → Term F
    tuple : Terms F → Term F
    map : Pairs F → Term F
    reference : ℕ → Term F
    other : ℕ → Term F

  pub data Terms (F : Type 0) : Type 0 where
    nil : Terms F
    cons : Term F → Terms F → Terms F

  pub data Pairs (F : Type 0) : Type 0 where
    end : Pairs F
    pair : Term F → Term F → Pairs F → Pairs F

-- What the library uses of the application and of its dependencies. A result that is an error stands
-- for an exception, unless it is said otherwise.
pub record Machine (F : Type 0) : Type 0 where
  -- The text of a float, and the implementations of `String.Chars` that the application adds.
  pub float_text : F → Bytes
  pub chars : Term F → Option Bytes
  -- `String.trim` and `String.downcase`, which stand on tables that are made from Unicode's data.
  pub trim : Bytes → Bytes
  pub downcase : Bytes → Bytes
  -- The entries of a map as it iterates, which are given in ascending order of the keys.
  pub iterate : Pairs F → Pairs F
  -- `Jason.encode` and `Jason.decode`, which give their errors as values.
  pub json_encode : Term F → Result Bytes String
  pub json_decode : Bytes → Result (Term F) String
  -- The modules that are loaded: `function_exported?`, `String.to_existing_atom`, and the functions
  -- `encode` and `decode` of a module.
  pub function_exported : String → String → ℕ → Bool
  pub existing_atom : Bytes → Option String
  pub module_encode : String → Term F → Result Bytes String
  pub module_decode : String → Bytes → Result (Term F) String

-- The bytes of a code point, if it is one.
unfoldable pub code_point : ℤ → Option Bytes
code_point (pos n) =
    if leb n 0xd7ff || (leb 0xe000 n && leb n 0x10ffff) then some (char_bytes n) else none
code_point (negsuc n) = none

-- A binary that is valid UTF-8 is what its lossy decoding encodes to.
unfoldable pub is_valid : Bytes → Bool
unfolding bytes bytes_eq from_utf8_lossy
is_valid b = bytes_eq (bytes (from_utf8_lossy b)) b

module _ {F : Type 0} where
  abbrev pub is_binary : Term F → Bool
  is_binary (binary b) = true
  is_binary _ = false

  -- What a test takes for false: `nil` and `false`.
  abbrev pub is_falsy : Term F → Bool
  is_falsy (atom s) = (s == "nil") || (s == "false")
  is_falsy _ = false

  -- `a || b`
  abbrev pub or_term : Term F → Term F → Term F
  or_term a b = if is_falsy a then b else a

  -- A list of terms as the list that Elixir has.
  abbrev pub of_list : List (Term F) → Terms F
  of_list [] = nil
  of_list (t ∷ ts) = cons t (of_list ts)

  abbrev pub to_list : Terms F → List (Term F)
  to_list nil = []
  to_list (cons t ts) = t ∷ to_list ts

  -- `List.wrap`
  abbrev pub wrap : Term F → List (Term F)
  wrap (list ts) = to_list ts
  wrap (atom s) = if s == "nil" then [] else atom s ∷ []
  wrap t = t ∷ []

  -- The value of the key `:name` of a map.
  unfoldable pub atom_key : String → Pairs F → Option (Term F)
  atom_key name end = none
  atom_key name (pair (atom s) v es) = if s == name then some v else atom_key name es
  atom_key name (pair k v es) = atom_key name es

  -- The pattern `%module{}`.
  unfoldable pub struct_module : Term F → Option String
  unfolding atom_key
  struct_module (map es) = elim (atom_key "__struct__" es) [ some (atom s) ↦ some s | _ ↦ none ]
  struct_module _ = none

  -- `List.to_string`, on code points, strings and lists of these.
  unfoldable pub chardata : Terms F → Option Bytes
  unfolding code_point is_valid
  chardata nil = some []
  chardata (cons (integer n) ts) =
      let rest = chardata ts in and_then (code_point n) (λ b. and_then rest (λ bs. some (b ++ bs)))
  chardata (cons (binary b) ts) =
      let rest = chardata ts in if is_valid b then and_then rest (λ bs. some (b ++ bs)) else none
  chardata (cons (list xs) ts) =
      and_then (chardata xs) (λ b. and_then (chardata ts) (λ bs. some (b ++ bs)))
  chardata (cons _ ts) = none

  -- `to_string`; `none` is an exception.
  unfoldable pub to_string : Machine F → Term F → Option Bytes
  unfolding chardata display_int
  to_string M (atom s) = some (if s == "nil" then [] else bytes s)
  to_string M (integer n) = some (bytes (display_int n))
  to_string M (float x) = some (M.float_text x)
  to_string M (binary b) = some b
  to_string M (list ts) = chardata ts
  to_string M t = M.chars t
