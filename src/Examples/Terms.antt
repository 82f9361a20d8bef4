-- ===== src/Examples/Terms.antt =====
-- A stand-in for the terms of the Erlang machine and for rustler's conversions.
use sdk_elixir.Base.{ℕ, String, Bool, Option, none, some, List, [], ◌∷◌, and_then}
use mathlib.Core.Option
use sdk_elixir.Base.Dict.{Dict}
use sdk_elixir.Base.Int.{ℤ, pos}
use sdk_elixir.Nif.{Rustler}

mutual
  pub data Term : Type 0 where
    atom : String → Term
    text : String → Term
    boolean : Bool → Term
    integer : ℤ → Term
    float : ℕ → Term
    list : Terms → Term
    map : Entries → Term
    pair : Term → Term → Term

  pub data Terms : Type 0 where
    nil : Terms
    cons : Term → Terms → Terms

  pub data Entries : Type 0 where
    end : Entries
    entry : String → Term → Entries → Entries

abbrev pub of_list : List Term → Terms
of_list [] = nil
of_list (t ∷ ts) = cons t (of_list ts)

abbrev pub to_list : Terms → List Term
to_list nil = []
to_list (cons t ts) = t ∷ to_list ts

abbrev pub of_dict : Dict Term → Entries
of_dict [] = end
of_dict ((k, t) ∷ m) = entry k t (of_dict m)

abbrev pub to_dict : Entries → Dict Term
to_dict end = []
to_dict (entry k t es) = (k, t) ∷ to_dict es

abbrev as_map : Term → Option (Dict Term)
as_map (map es) = some (to_dict es)
as_map _ = none

abbrev as_list : Term → Option (List Term)
as_list (list ts) = some (to_list ts)
as_list _ = none

abbrev as_text : Term → Option String
as_text (text s) = some s
as_text _ = none

abbrev as_number : Term → Option ℕ
as_number (integer (pos n)) = some n
as_number _ = none

abbrev as_flag : Term → Option Bool
as_flag (boolean b) = some b
as_flag _ = none

abbrev texts : Entries → Option (Dict String)
texts end = some []
texts (entry k t es) =
    let rest = texts es in and_then (as_text t) (λ s. Option.map (λ m. (k, s) ∷ m) rest)

abbrev as_text_map : Term → Option (Dict String)
as_text_map (map es) = texts es
as_text_map _ = none

abbrev pub terms : Rustler
terms = record {
  Term = Term;
  Float = ℕ;
  decode_map = as_map;
  decode_atom_map = λ _. none;
  decode_bytes_map = λ _. none;
  decode_string_bytes_map = λ _. none;
  decode_string_map = as_text_map;
  decode_list = as_list;
  decode_string = as_text;
  decode_binary = λ _. none;
  decode_bytes = λ _. none;
  decode_u64 = as_number;
  decode_u32 = as_number;
  decode_usize = as_number;
  decode_bool = as_flag;
  atom = atom;
  text = text;
  boolean = boolean;
  integer = integer;
  float = float;
  list = λ ts. list (of_list ts);
  map = λ m. map (of_dict m);
  pair = pair;
}
