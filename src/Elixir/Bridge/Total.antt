-- ===== src/Elixir/Bridge/Total.antt =====
-- When `normalize_workflow_params` does not raise.
use text.Mathlib.TextEquality.{eq_iff}
use text.Mathlib.TextPositions.{eq_refl}
use sdk_elixir.Base.{
  String, ◌==◌, true, Bool-cases, ◌≡◌, refl, ◌∙◌, sym, ap, subst, ◌⊎◌, inl, inr, arith, Option,
  none, some, ok, All, List, [], ◌∷◌,
}
use mathlib.Core.Option
use sdk_elixir.Base.Dict
use sdk_elixir.Base.Dict.{Dict}
use sdk_elixir.Base.Utf8.{Bytes, bytes}
use sdk_elixir.Elixir.Term.{Term, atom, binary, Machine, to_string}
use sdk_elixir.Elixir.Maps.{Entries}
use sdk_elixir.Elixir.Client.Params.{is_one_of, normalized_param, normalized_params, input_payloads}
use sdk_elixir.Elixir.Bridge.{HasDistinctKeys}
use sdk_elixir.Elixir.Bridge.{atom_map}
use sdk_elixir.Elixir.Bridge.Payloads.{get_absent}

-- What holds of each value under its key holds of all entries.
pub All-get :
    {V : Type 0} {P : String → V → Type 0} (m : Dict V)
    → HasDistinctKeys m
    → ((k : String) (v : V) → Dict.get k m ≡ some v → P k v)
    → All (λ (e : String × V). P e.0 e.1) m
unfolding Dict.get
All-get [] d h = tt
All-get {V} {P} ((j, w) ∷ m) d h = (h j w (rw (eq_refl j) refl), All-get {P = P} m d.1 later)
  where
    later : (k : String) (v : V) → Dict.get k m ≡ some v → P k v
    later k v e = elim (Bool-cases (j == k)) [
      | inl x ↦
          let n : Dict.get k m ≡ none =
            ap (λ i. Dict.get i m) (sym ((eq_iff j k).0 x)) ∙ get_absent j m d.0 in
          absurd (ground arith)
      | inr x ↦ h k v (rw x e)
    ]

is_one_of-cases :
    (s n : String) (ns : List String)
    → is_one_of s (n ∷ ns) ≡ true
    → (s ≡ n) ⊎ (is_one_of s ns ≡ true)
unfolding is_one_of
is_one_of-cases s n ns h = elim (Bool-cases (s == n)) [
  | inl e ↦ inl ((eq_iff s n).0 e)
  | inr e ↦ inr (rw e at h)
]

-- The values under the named keys are texts.
pub named_texts :
    {F : Type 0} (names : List String) (m : Dict (Term F))
    → All (λ n. (r : Option Bytes) × (Dict.get n m ≡ Option.map binary r)) names
    → (k : String) (v : Term F) → is_one_of k names ≡ true
    → Dict.get k m ≡ some v
    → (b : Bytes) × (v ≡ binary b)
named_texts [] m a k v i h = absurd (unfold is_one_of in ground arith)
named_texts (n ∷ names) m ((r, e), a) k v i h = elim (is_one_of-cases k n names i) [
  | inl x ↦ textual r (sym h ∙ ap (λ j. Dict.get j m) x ∙ e)
  | inr x ↦ named_texts names m a k v x h
]
  where
    textual : (r : Option Bytes) → some v ≡ Option.map binary r → (b : Bytes) × (v ≡ binary b)
    textual none q = cc
    textual (some b) q = (b, ground arith)

module _ {F : Type 0} (M : Machine F) (texts : List String) where
  normalized_param_total :
      (k : String) (v : Term F)
      → (is_one_of k texts ≡ true → (b : Bytes) × (v ≡ binary b))
      → (e : Bytes × Term F) × (normalized_param M texts (atom k) v ≡ ok e)
  unfolding normalized_param
  normalized_param_total k v h = elim (Bool-cases (is_one_of k texts)) [
    | inl i ↦
        let (b, q) = h i in
        (
          (bytes k, binary b),
          subst (λ u. normalized_param M texts (atom k) u ≡ ok (bytes k, binary b)) (sym q)
              (unfold to_string in rw i refl),
        )
    | inr i ↦ elim (Bool-cases (k == "input")) [
      | inl n ↦ ((bytes "input", input_payloads M v), rw (i, n) refl)
      | inr n ↦ ((bytes k, v), rw (i, n) refl)
    ]
  ]

  entries_normalized :
      (m : Dict (Term F))
      → All
          (λ (p : String × Term F).
            (e : Bytes × Term F) × (normalized_param M texts (atom p.0) p.1 ≡ ok e))
          m
      → (es : Entries (Term F)) × (normalized_params M texts (atom_map m) ≡ ok es)
  unfolding normalized_params
  entries_normalized [] a = ([], refl)
  entries_normalized ((k, v) ∷ m) ((e, h), a) =
      let (es, g) = entries_normalized m a in (e ∷ es, rw (h, g) refl)

  -- Parameters with atoms as keys are normalised if the values that become texts are texts already.
  pub normalized_params_total :
      (m : Dict (Term F))
      → HasDistinctKeys m
      → All (λ n. (r : Option Bytes) × (Dict.get n m ≡ Option.map binary r)) texts
      → (es : Entries (Term F)) × (normalized_params M texts (atom_map m) ≡ ok es)
  normalized_params_total m d a = entries_normalized m (
      All-get {P = λ k v. (e : Bytes × Term F) × (normalized_param M texts (atom k) v ≡ ok e)} m d
        (λ k v h. normalized_param_total k v (λ i. named_texts texts m a k v i h)))
