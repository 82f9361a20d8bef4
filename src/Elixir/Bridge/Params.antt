-- ===== src/Elixir/Bridge/Params.antt =====
-- The parameters of a call, as `normalize_workflow_params` hands them over.
use text.Mathlib.TextEquality.{eq_iff}
use sdk_elixir.Base.{
  String, ◌==◌, true, false, Bool-cases, ◌≡◌, refl, ◌∙◌, sym, ap, inl, inr, arith, Option-cases,
  none, some, Result-cases, ok, All, List, [], ◌∷◌,
}
use sdk_elixir.Base.Dict
use sdk_elixir.Base.Dict.{Dict}
use sdk_elixir.Base.Lossless.{bytes_eq-bytes}
use sdk_elixir.Base.Utf8.{Bytes, bytes, bytes_eq}
use sdk_elixir.Elixir.Term.{Term, Pairs, atom, pair, Machine, to_string}
use sdk_elixir.Elixir.Maps.{Entries, fetch}
use sdk_elixir.Elixir.Maps.Lookup.{is_fresh, is_distinct}
use sdk_elixir.Elixir.PayloadConverter.{Raises}
use sdk_elixir.Elixir.Client.Params.{is_one_of, normalized_param, normalized_params, input_payloads}
use sdk_elixir.Elixir.Bridge.{atom_map, IsTextKey, HasDistinctKeys}
use sdk_elixir.Elixir.Bridge.Payloads.{get_absent}

ok_same : {A : Type 0} (a b : A) (r : Raises A) → r ≡ ok a → r ≡ ok b → a ≡ b
ok_same a b r h k = ground arith

module _ {F : Type 0} (M : Machine F) (texts : List String) where
  -- The key of a parameter is the text of its atom.
  normalized_key :
      (s : String) (v : Term F) (e : Bytes × Term F)
      → normalized_param M texts (atom s) v ≡ ok e
      → e.0 ≡ bytes s
  unfolding normalized_param
  normalized_key s v e h = elim (Bool-cases (is_one_of s texts)) [
    | inl i ↦ elim (Option-cases (to_string M v)) [
      | inl n ↦ absurd (ground arith)
      | inr (b, n) ↦ ground arith
    ]
    | inr i ↦ elim (Bool-cases (s == "input")) [
      | inl n ↦
          ap (λ x. x.0)
            (ok_same e (bytes "input", input_payloads M v) (normalized_param M texts (atom s) v) h
              (rw (i, n) refl))
          ∙ ap bytes (sym ((eq_iff s "input").0 n))
      | inr n ↦ ground arith
    ]
  ]

  -- What the entries of normalised parameters start with.
  normalized_head :
      (k v : Term F) (ps : Pairs F) (es : Entries (Term F))
      → normalized_params M texts (pair k v ps) ≡ ok es
      → (e : Bytes × Term F) × (rest : Entries (Term F)) × (normalized_param M texts k v ≡ ok e)
        × (normalized_params M texts ps ≡ ok rest)
        × (es ≡ e ∷ rest)
  unfolding normalized_params
  normalized_head k v ps es h = elim (Result-cases (normalized_param M texts k v)) [
    | inr (x, e) ↦ absurd (ground arith)
    | inl (e, n) ↦ elim (Result-cases (normalized_params M texts ps)) [
      | inr (x, r) ↦ absurd (ground arith)
      | inl (rest, r) ↦ (e, rest, n, r, ground arith)
    ]
  ]

  -- Each entry has the text of an atom as its key, different from the keys of the rest.
  pub normalized_absent :
      (k : String) (m : Dict (Term F)) (es : Entries (Term F))
      → HasDistinctKeys m
      → normalized_params M texts (atom_map m) ≡ ok es
      → Dict.get k m ≡ none
      → (fetch (bytes k) es ≡ none) × (is_fresh (bytes k) es ≡ true)
  unfolding Dict.get fetch is_fresh
  normalized_absent k [] es a h n =
      let q : [] ≡ es = unfold normalized_params in ground arith in rw (← q) (refl, refl)
  normalized_absent k ((s, v) ∷ m) es a h n = elim (Bool-cases (s == k)) [
    | inl x ↦ absurd (ground arith)
    | inr x ↦
        let (e, rest, c, r, q) = normalized_head (atom s) v (atom_map m) es h in
        let y : bytes_eq e.0 (bytes k) ≡ false =
          ap (λ b. bytes_eq b (bytes k)) (normalized_key s v e c) ∙ bytes_eq-bytes s k ∙ x in
        let (f, g) = normalized_absent k m rest a.1 r (rw x at n) in rw (q, y) (f, g)
  ]

  pub normalized_keys :
      (m : Dict (Term F)) (es : Entries (Term F))
      → HasDistinctKeys m
      → normalized_params M texts (atom_map m) ≡ ok es
      → All IsTextKey es × (is_distinct es ≡ true)
  unfolding is_distinct
  normalized_keys [] es a h =
      let q : [] ≡ es = unfold normalized_params in ground arith in rw (← q) (tt, refl)
  normalized_keys ((s, v) ∷ m) es a h =
      let (e, rest, c, r, q) = normalized_head (atom s) v (atom_map m) es h in
      let (t, d) = normalized_keys m rest a.1 r in
      let k = normalized_key s v e c in
      let f = (normalized_absent s m rest a.1 r (get_absent s m a.0)).1 in
      rw q (((s, k), t), rw (k, f, d) refl)

  -- Under each key is the normalised value.
  pub normalized_present :
      (k : String) (v u : Term F) (m : Dict (Term F)) (es : Entries (Term F))
      → HasDistinctKeys m
      → normalized_params M texts (atom_map m) ≡ ok es
      → Dict.get k m ≡ some v
      → normalized_param M texts (atom k) v ≡ ok (bytes k, u)
      → fetch (bytes k) es ≡ some u
  unfolding Dict.get fetch
  normalized_present k v u [] es a h n c = cc
  normalized_present k v u ((s, w) ∷ m) es a h n c =
      let (e, rest, d, r, q) = normalized_head (atom s) w (atom_map m) es h in
      let y : bytes_eq e.0 (bytes k) ≡ (s == k) =
        ap (λ b. bytes_eq b (bytes k)) (normalized_key s w e d) ∙ bytes_eq-bytes s k in
      elim (Bool-cases (s == k)) [
        | inl x ↦ rw (q, y, x) (same ((eq_iff s k).0 x) (rw x at n) d)
        | inr x ↦ rw (q, y, x) (normalized_present k v u m rest a.1 r (rw x at n) c)
      ]
    where
      same :
          {e : Bytes × Term F}
          → s ≡ k
          → some w ≡ some v
          → normalized_param M texts (atom s) w ≡ ok e
          → some e.1 ≡ some u
      same {e} x n d =
          ap (λ t. some t.1)
            (ok_same e (bytes k, u) (normalized_param M texts (atom s) w) d
              (ap (λ i. normalized_param M texts (atom i) w) x
                ∙ ap (normalized_param M texts (atom k)) (ground arith)
                ∙ c))
