-- ===== src/Examples/Rustler.antt =====
-- A stand-in for rustler on the terms of Elixir.
use sdk_elixir.Base.{
  ℕ, if◌then◌else◌, true, false, Bool, Bool-cases, String, ◌==◌, ◌≡◌, ◌≢◌, subst, arith, refl, sym,
  ap, ◌∙◌, Option, none, some, and_then, List, [], ◌∷◌, All, inl, inr,
}
use mathlib.Core.Option
use sdk_elixir.Base.Dict
use sdk_elixir.Base.Dict.{Dict}
use sdk_elixir.Base.Int.{pos}
use sdk_elixir.Base.Lossless.{from_utf8_lossy-bytes, bytes_eq-bytes}
use sdk_elixir.Base.Utf8.{Bytes, bytes, bytes_eq, bytes_eq_refl, from_utf8_lossy}
use sdk_elixir.Nif.{Rustler}
use sdk_elixir.Elixir.Term.{
  Term, Pairs, atom, integer, float, binary, list, tuple, map, nil, cons, end, pair, of_list,
  to_list, is_valid, atom_key,
}
use sdk_elixir.Elixir.Maps.{Entries, fetch, of_entries}
use sdk_elixir.Nif.Payload.Atoms.{colon, IsAtomMap}
use sdk_elixir.Elixir.Bridge.{IsTextKey, HasDistinctKeys, atom_map, is_lower}
use sdk_elixir.Elixir.Bridge.Payloads.{get_absent}

-- The readers of maps: with texts as keys, with atoms as keys, and of texts.
abbrev pub text_dict : Pairs ℕ → Option (Dict (Term ℕ))
text_dict end = some []
text_dict (pair (binary b) v es) =
    let rest = text_dict es in
    if is_valid b then and_then rest (λ d. some ((from_utf8_lossy b, v) ∷ d)) else none
text_dict (pair k v es) = none

abbrev pub atom_dict : Pairs ℕ → Option (Dict (Term ℕ))
atom_dict end = some []
atom_dict (pair (atom s) v es) = and_then (atom_dict es) (λ d. some ((s, v) ∷ d))
atom_dict (pair k v es) = none

abbrev pub string_dict : Pairs ℕ → Option (Dict String)
string_dict end = some []
string_dict (pair (binary b) (binary c) es) =
    and_then (string_dict es) (λ d. some ((from_utf8_lossy b, from_utf8_lossy c) ∷ d))
string_dict (pair k v es) = none

abbrev pub of_map : {A : Type 0} → (Pairs ℕ → Option A) → Term ℕ → Option A
of_map f (map es) = f es
of_map f _ = none

abbrev pub no_entries : {A : Type 0} → Pairs ℕ → Option (List A)
no_entries end = some []
no_entries _ = none

abbrev pub as_binary : Term ℕ → Option Bytes
as_binary (binary b) = some b
as_binary _ = none

abbrev pub as_text : Term ℕ → Option String
as_text (binary b) = if is_valid b then some (from_utf8_lossy b) else none
as_text _ = none

abbrev pub as_list : Term ℕ → Option (List (Term ℕ))
as_list (list ts) = some (to_list ts)
as_list _ = none

abbrev pub as_number : Term ℕ → Option ℕ
as_number (integer (pos n)) = some n
as_number _ = none

abbrev pub as_flag : Term ℕ → Option Bool
as_flag (atom s) = if s == "true" then some true else if s == "false" then some false else none
as_flag _ = none

abbrev pub dict_pairs : Dict (Term ℕ) → Pairs ℕ
dict_pairs [] = end
dict_pairs ((k, v) ∷ m) = pair (binary (bytes k)) v (dict_pairs m)

abbrev pub erlang : Rustler
erlang = record {
  Term = Term ℕ;
  Float = ℕ;
  decode_map = of_map text_dict;
  decode_atom_map = of_map atom_dict;
  decode_bytes_map = of_map no_entries;
  decode_string_bytes_map = of_map no_entries;
  decode_string_map = of_map string_dict;
  decode_list = as_list;
  decode_string = as_text;
  decode_binary = as_binary;
  decode_bytes = λ t. none;
  decode_u64 = as_number;
  decode_u32 = as_number;
  decode_usize = as_number;
  decode_bool = as_flag;
  atom = atom;
  text = λ s. binary (bytes s);
  boolean = λ b. if b then atom "true" else atom "false";
  integer = integer;
  float = float;
  list = λ ts. list (of_list ts);
  map = λ m. map (dict_pairs m);
  pair = λ a b. tuple (cons a (cons b nil));
}

pub valid_text : (s : String) → is_valid (bytes s) ≡ true
unfolding is_valid
valid_text s =
    ap (λ t. bytes_eq (bytes t) (bytes s)) (from_utf8_lossy-bytes s) ∙ bytes_eq_refl (bytes s)

-- A map of entries with texts as keys is read, and has the same entries.
unfoldable pub Reads : Entries (Term ℕ) → Type 0
Reads m =
    (d : Dict (Term ℕ)) × (text_dict (of_entries m) ≡ some d)
    × ((k : String) → Dict.get k d ≡ fetch (bytes k) m)

-- Texts are tested as their bytes are.
pub same_test : (s t : String) → (s == t) ≡ bytes_eq (bytes s) (bytes t)
same_test s t = sym (bytes_eq-bytes s t)

pub text_dict-Reads : (m : Entries (Term ℕ)) → All IsTextKey m → Reads m
unfolding Reads Dict.get fetch
text_dict-Reads [] a = ([], refl, λ k. refl)
text_dict-Reads ((b, v) ∷ m) a =
    let (s, e) = a.0 in
    let (d, h, g) = text_dict-Reads m a.1 in
    let back : from_utf8_lossy b ≡ s = ap from_utf8_lossy e ∙ from_utf8_lossy-bytes s in
    (
      (s, v) ∷ d,
      rw (ap is_valid e ∙ valid_text s, h, back) refl,
      λ k. rw (same_test s k, ← e, g k) refl,
    )

pub text_dict-atom :
    (name : String) (v : Term ℕ) (es : Pairs ℕ) → atom_key name es ≡ some v → text_dict es ≡ none
unfolding atom_key
text_dict-atom name v end h = cc
text_dict-atom name v (pair (binary b) w es) h = elim (Bool-cases (is_valid b)) [
  | inl e ↦ rw (e, text_dict-atom name v es h) refl
  | inr e ↦ rw e refl
]
text_dict-atom name v (pair k w es) h = refl

pub same_option : (o : Option (Term ℕ)) → o ≡ Option.map (λ t. t) o
same_option none = refl
same_option (some t) = refl

-- A map with atoms as keys is read with the names as debug texts.
atom_dict-atom_map : (es : Dict (Term ℕ)) → atom_dict (atom_map es) ≡ some es
atom_dict-atom_map [] = refl
atom_dict-atom_map ((s, v) ∷ es) = rw (atom_dict-atom_map es) refl

lower-no_colon : (name s : String) → is_lower name ≡ true → name ≢ String.◌∷◌ colon s
unfolding bytes
lower-no_colon name s h q =
    let k : is_lower (String.◌∷◌ colon s) ≡ true = subst (λ n. is_lower n ≡ true) q h in
    absurd (ground arith)

lower-IsAtomMap :
    (es : Dict (Term ℕ))
    → HasDistinctKeys es
    → All (λ (e : String × Term ℕ). is_lower e.0 ≡ true) es
    → IsAtomMap es es
lower-IsAtomMap [] d a = tt
lower-IsAtomMap ((s, v) ∷ es) d a =
    (inl (refl, λ t. lower-no_colon s t a.0), refl, get_absent s es d.0, lower-IsAtomMap es d.1 a.1)

pub atom_dict-IsAtomMap :
    (es : Dict (Term ℕ))
    → HasDistinctKeys es
    → All (λ (e : String × Term ℕ). is_lower e.0 ≡ true) es
    → (n : Dict (Term ℕ)) × (d : Dict (Term ℕ)) × (atom_dict (atom_map es) ≡ some d)
      × IsAtomMap n d
      × ((k : String) → Dict.get k n ≡ Option.map (λ t. t) (Dict.get k es))
atom_dict-IsAtomMap es d a =
    (es, es, atom_dict-atom_map es, lower-IsAtomMap es d a, λ k. same_option (Dict.get k es))
