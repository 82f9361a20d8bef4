-- ===== src/Elixir/Bridge.antt =====
-- Terms that the Elixir library hands to the native functions: how rustler reads them, as far as it is
-- relied on.
pub mod NifMap
pub mod Connect
pub mod Options
pub mod Payloads
pub mod Made
pub mod Params
pub mod Inputs
pub mod Total
pub mod Start
use sdk_elixir.Base.{
  ℕ, leb, ◌&&◌, Bool, true, String, ◌≡◌, ◌≢◌, Option, none, some, All, List, [], ◌∷◌,
  map as map_list,
}
use mathlib.Core.Option
use sdk_elixir.Base.Dict
use sdk_elixir.Base.Dict.{Dict}
use sdk_elixir.Base.Utf8.{Bytes, bytes}
use sdk_elixir.Elixir.Term.{
  Term, Terms, Pairs, atom, binary, list, map, end, pair, Machine, atom_key, to_list,
}
use sdk_elixir.Elixir.Maps.{Entries, put_all, fetch, map_new}
use sdk_elixir.Nif.{Rustler}
use sdk_elixir.Nif.Payload.Atoms.{IsAtomMap}

module _ {F : Type 0} where
  -- A key that is a text, as Rust's `String` holds it.
  abbrev pub IsTextKey : Bytes × Term F → Type 0
  IsTextKey e = (s : String) × (e.0 ≡ bytes s)

-- A map with atoms as keys.
abbrev pub atom_map : {F : Type 0} → Dict (Term F) → Pairs F
atom_map [] = end
atom_map ((s, v) ∷ m) = pair (atom s) v (atom_map m)

-- A name in the letters from a to z, which Erlang prints without quotes.
abbrev lower_bytes : Bytes → Bool
lower_bytes [] = true
lower_bytes (c ∷ cs) = let rest = lower_bytes cs in leb 97 c && leb c 122 && rest

abbrev pub is_lower : String → Bool
is_lower name = lower_bytes (bytes name)

-- A map of texts, with its terms.
abbrev pub text_entries : {F : Type 0} → Dict String → Entries (Term F)
text_entries [] = []
text_entries ((k, v) ∷ m) = (bytes k, binary (bytes v)) ∷ text_entries m

-- No key twice.
abbrev pub HasDistinctKeys : {V : Type 0} → Dict V → Type 0
HasDistinctKeys [] = Unit
HasDistinctKeys ((k, v) ∷ m) = All (λ (e : String × _). k ≢ e.0) m × HasDistinctKeys m

pub record Carries {F : Type 0} (M : Machine F) (R : Rustler) : Type 0 where
  -- The term that Rust sees.
  pub embed : Term F → R.Term
  -- A map with texts as keys is a `HashMap<String, Term>` with the same entries; a map with an atom among
  -- its keys is none, and neither is an atom.
  pub decode_map_texts :
      (es : Entries (Term F))
      → All IsTextKey es
      → (d : Dict R.Term) × (R.decode_map (embed (map_new M es)) ≡ some d)
        × ((k : String) → Dict.get k d ≡ Option.map embed (fetch (bytes k) (put_all [] es)))
  pub decode_map_atoms :
      (name : String) (v : Term F) (es : Pairs F)
      → atom_key name es ≡ some v
      → R.decode_map (embed (map es)) ≡ none
  pub decode_map_atom : (s : String) → R.decode_map (embed (atom s)) ≡ none
  -- An atom is neither a list nor a text.
  pub decode_list_atom : (s : String) → R.decode_list (embed (atom s)) ≡ none
  pub decode_list_list :
      (ts : Terms F) → R.decode_list (embed (list ts)) ≡ some (map_list embed (to_list ts))
  pub decode_string_text : (s : String) → R.decode_string (embed (binary (bytes s))) ≡ some s
  -- A map with atoms as keys is a `HashMap<Atom, Term>` with the same entries, which iterates in an order
  -- of its own. The debug text of an atom is its name; a colon before it is allowed for.
  pub decode_atom_map_atoms :
      (es : Dict (Term F))
      → HasDistinctKeys es
      → All (λ (e : String × Term F). is_lower e.0 ≡ true) es
      → (n : Dict R.Term) × (d : Dict R.Term) × (R.decode_atom_map (embed (map (atom_map es)))
          ≡ some d)
        × IsAtomMap n d
        × ((k : String) → Dict.get k n ≡ Option.map embed (Dict.get k es))
  -- A binary is a `Binary`.
  pub decode_binary_binary : (b : Bytes) → R.decode_binary (embed (binary b)) ≡ some b
  -- Of a map of texts the values are no lists of bytes, and neither are the keys; it is a
  -- `HashMap<String, String>` with the same entries.
  pub decode_bytes_map_texts :
      (k v : String) (m : Dict String)
      → R.decode_bytes_map (embed (map_new M (text_entries ((k, v) ∷ m)))) ≡ none
  pub decode_string_bytes_map_texts :
      (k v : String) (m : Dict String)
      → R.decode_string_bytes_map (embed (map_new M (text_entries ((k, v) ∷ m)))) ≡ none
  pub decode_string_map_texts :
      (m : Dict String)
      → HasDistinctKeys m
      → (d : Dict String) × (R.decode_string_map (embed (map_new M (text_entries m))) ≡ some d)
        × HasDistinctKeys d
        × ((k : String) → Dict.get k d ≡ Dict.get k m)
