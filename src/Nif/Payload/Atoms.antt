-- ===== src/Nif/Payload/Atoms.antt =====
-- Which entries `term_to_payload` reads of a map with atom keys.
use text.Mathlib.TextEquality.{eq_iff}
use Prim.Native.Char.{Char, char}
use mathlib.Core.Option
use sdk_elixir.Base.{
  subst, ◌≡◌, ◌≢◌, refl, ap, sym, ◌∙◌, String, ◌==◌, false, Option, none, some, ok, or_else,
  unwrap_or, [], ◌∷◌, ◌⊎◌, inl, inr, Bool-cases,
}
use sdk_elixir.Base.Dict
use sdk_elixir.Base.Dict.{Dict}
use sdk_elixir.Nif.{Rustler}
use sdk_elixir.Nif.Payload.{
  strip_colon, scan_keys, atom_metadata, atom_data, atom_payload, term_to_payload,
}

abbrev pub colon : Char
colon = char 58 tt

-- The debug text of an atom: its name, which does not begin with a colon, or its name after a colon.
abbrev pub IsDebugText : String → String → Type 0
IsDebugText name k =
    ((k ≡ name) × ((s : String) → name ≢ String.◌∷◌ colon s)) ⊎ (k ≡ String.◌∷◌ colon name)

-- A map by the names of its atoms, and the same map by their debug texts, in the order in which it
-- iterates. Each atom stands in a map once.
abbrev pub IsAtomMap : {A : Type 0} → Dict A → Dict A → Type 0
IsAtomMap [] [] = Unit
IsAtomMap ((name, a) ∷ n) ((k, b) ∷ m) =
    IsDebugText name k × (a ≡ b) × (Dict.get name n ≡ none) × IsAtomMap n m
IsAtomMap _ _ = ⊥

-- A text before another one.
abbrev onto : String → String → String
onto String.[] t = t
onto (String.◌∷◌ c s) t = String.◌∷◌ c (onto s t)

unstripped : (name : String) → ((s : String) → name ≢ String.◌∷◌ colon s) → strip_colon name ≡ name
unstripped String.[] h = refl
unstripped (String.◌∷◌ c s) h = elim (Bool-cases (String.◌∷◌ c String.[] == ":")) [
  | inl e ↦ absurd (h s (ap (λ t. onto t s) ((eq_iff (String.◌∷◌ c String.[]) ":").0 e)))
  | inr e ↦ rw e refl
]

strip_colon-IsDebugText : (name k : String) → IsDebugText name k → strip_colon k ≡ name
strip_colon-IsDebugText name k (inl (e, h)) = ap strip_colon e ∙ unstripped name h
strip_colon-IsDebugText name k (inr e) = ap strip_colon e

or_none : {A : Type 0} (o : Option A) → or_else o none ≡ o
or_none none = refl
or_none (some a) = refl

module _ (R : Rustler) where
  scan_keys_lem :
      (n m : Dict R.Term) (a b : Option R.Term)
      → IsAtomMap n m
      → scan_keys R m a b ≡ (or_else (Dict.get "metadata" n) a, or_else (Dict.get "data" n) b)
  unfolding scan_keys Dict.get
  scan_keys_lem [] [] a b h = refl
  scan_keys_lem [] (e ∷ m) a b h = absurd h
  scan_keys_lem (e ∷ n) [] a b h = absurd h
  scan_keys_lem ((name, t) ∷ n) ((k, u) ∷ m) a b (d, e, fresh, h) =
      rw (strip_colon-IsDebugText name k d, ← e)
        (elim (Bool-cases (name == "metadata")) [
          | inl p ↦
              let same : name ≡ "metadata" = (eq_iff name "metadata").0 p in
              let off : (name == "data") ≡ false =
                subst (λ x. (x == "data") ≡ false) (sym same) refl in
              let absent : Dict.get "metadata" n ≡ none =
                subst (λ x. Dict.get x n ≡ none) same fresh in
              rw (p, off) (scan_keys_lem n m (some t) b h ∙ rw absent)
          | inr p ↦ elim (Bool-cases (name == "data")) [
            | inl q ↦
                let absent : Dict.get "data" n ≡ none =
                  subst (λ x. Dict.get x n ≡ none) ((eq_iff name "data").0 q) fresh in
                rw (p, q) (scan_keys_lem n m a (some t) h ∙ rw absent)
            | inr q ↦ rw (p, q) (scan_keys_lem n m a b h)
          ]
        ])

  pub term_to_payload-IsAtomMap :
      (t : R.Term) (n m : Dict R.Term)
      → R.decode_atom_map t ≡ some m
      → IsAtomMap n m
      → term_to_payload R t
        ≡ ok (record {
          metadata = unwrap_or [] (Option.map (atom_metadata R) (Dict.get "metadata" n));
          contents = unwrap_or [] (Option.map (atom_data R) (Dict.get "data" n));
        })
  unfolding term_to_payload atom_payload
  term_to_payload-IsAtomMap t n m h a = rw (
    term_to_payload,
    h,
    atom_payload,
    scan_keys_lem n m none none a,
    or_none (Dict.get "metadata" n),
    or_none (Dict.get "data" n),
  )
