-- ===== src/Examples/Carried.antt =====
-- The stand-in for rustler carries the terms of the stand-in for the machine.
use text.Mathlib.TextEquality.{eq_iff}
use sdk_elixir.Base.{
  ℕ, if◌then◌else◌, true, Bool-cases, String, ◌==◌, ◌≡◌, ◌≢◌, refl, sym, ap, ◌∙◌, subst, none, some,
  and_then, List, [], ◌∷◌, All, map as map_list, inl, inr, arith,
}
use sdk_elixir.Base.Dict
use sdk_elixir.Base.Dict.{Dict}
use sdk_elixir.Base.Lossless.{from_utf8_lossy-bytes}
use sdk_elixir.Base.Utf8.{Bytes, bytes, bytes_eq}
use sdk_elixir.Elixir.Term.{Term, binary, pair, to_list}
use sdk_elixir.Elixir.Maps.{bytes_lt, Entries, put, put_all, fetch, of_entries, map_new}
use sdk_elixir.Elixir.Maps.Order.{bytes_lt_irrefl}
use sdk_elixir.Elixir.Maps.Lookup.{is_fresh, is_distinct, fetch-put_all-distinct}
use sdk_elixir.Elixir.Maps.Ascending.{AllAbove, IsAscending, put_all-IsAscending, All-put_all}
use sdk_elixir.Elixir.Bridge.{Carries, IsTextKey, text_entries, HasDistinctKeys}
use sdk_elixir.Examples.Erlang.{machine}
use sdk_elixir.Examples.Rustler.{
  erlang, string_dict, as_text, text_dict-Reads, text_dict-atom, atom_dict-IsAtomMap, same_option,
  same_test, valid_text, Reads, no_entries,
}

-- An entry of texts.
abbrev IsTextPair : Bytes × Term ℕ → Type 0
IsTextPair e = (s : String) × (t : String) × (e ≡ (bytes s, binary (bytes t)))

dict_of : (m : Entries (Term ℕ)) → All IsTextPair m → Dict String
dict_of [] a = []
dict_of (e ∷ m) ((s, t, h), a) = (s, t) ∷ dict_of m a

as_text-bytes : (s : String) → as_text (binary (bytes s)) ≡ some s
as_text-bytes s = rw (valid_text s) (ap some (from_utf8_lossy-bytes s))

string_dict-dict_of :
    (m : Entries (Term ℕ)) (a : All IsTextPair m) → string_dict (of_entries m) ≡ some (dict_of m a)
unfolding dict_of
string_dict-dict_of [] a = refl
string_dict-dict_of (e ∷ m) ((s, t, h), a) =
    ap (λ x. string_dict (pair (binary x.0) x.1 (of_entries m))) h
    ∙ rw (string_dict-dict_of m a, from_utf8_lossy-bytes s, from_utf8_lossy-bytes t) refl

get-dict_of :
    (k : String) (m : Entries (Term ℕ)) (a : All IsTextPair m)
    → Dict.get k (dict_of m a) ≡ and_then (fetch (bytes k) m) as_text
unfolding dict_of Dict.get fetch
get-dict_of k [] a = refl
get-dict_of k (e ∷ m) ((s, t, h), a) =
    subst
      (λ x.
        (if s == k then some t else Dict.get k (dict_of m a))
        ≡ and_then (if bytes_eq x.0 (bytes k) then some x.1 else fetch (bytes k) m) as_text)
      (sym h)
      (rw (same_test s k) (elim (Bool-cases (bytes_eq (bytes s) (bytes k))) [
        | inl f ↦ rw f (sym (as_text-bytes t))
        | inr f ↦ rw f (get-dict_of k m a)
      ]))

above-dict_of :
    (k : String) (m : Entries (Term ℕ)) (a : All IsTextPair m)
    → AllAbove (bytes k) m
    → All (λ (e : String × String). k ≢ e.0) (dict_of m a)
unfolding dict_of
above-dict_of k [] a b = tt
above-dict_of k (e ∷ m) ((s, t, h), a) (b, bs) = (λ q. absurd (differ q), above-dict_of k m a bs)
  where
    differ : k ≡ s → ⊥
    differ q =
        let x : bytes_lt (bytes k) (bytes k) ≡ true =
          subst (λ i. bytes_lt (bytes k) i ≡ true) (ap (λ y. y.0) h ∙ ap bytes (sym q)) b in
        ground (arith, bytes_lt_irrefl (bytes k))

dict_of-HasDistinctKeys :
    (m : Entries (Term ℕ)) (a : All IsTextPair m) → IsAscending m → HasDistinctKeys (dict_of m a)
unfolding dict_of
dict_of-HasDistinctKeys [] a b = tt
dict_of-HasDistinctKeys (e ∷ m) ((s, t, h), a) (b, bs) =
    (above-dict_of s m a (subst (λ x. AllAbove x.0 m) h b), dict_of-HasDistinctKeys m a bs)

-- The entries of a dictionary of texts.
text_entries-pairs : (m : Dict String) → All IsTextPair (text_entries m)
text_entries-pairs [] = tt
text_entries-pairs ((k, v) ∷ m) = ((k, v, refl), text_entries-pairs m)

text_entries-fresh :
    (k : String) (m : Dict String)
    → All (λ (e : String × String). k ≢ e.0) m
    → is_fresh {V = Term ℕ} (bytes k) (text_entries m) ≡ true
unfolding is_fresh
text_entries-fresh k [] a = refl
text_entries-fresh k ((j, v) ∷ m) a =
    rw (text_entries-fresh k m a.1, ← same_test j k) (ground (arith, eq_iff j k))

text_entries-distinct :
    (m : Dict String) → HasDistinctKeys m → is_distinct {V = Term ℕ} (text_entries m) ≡ true
unfolding is_distinct
text_entries-distinct [] d = refl
text_entries-distinct ((k, v) ∷ m) d =
    rw (text_entries-fresh k m d.0, text_entries-distinct m d.1) refl

fetch-text_entries :
    (k : String) (m : Dict String)
    → and_then (fetch {V = Term ℕ} (bytes k) (text_entries m)) as_text ≡ Dict.get k m
unfolding fetch Dict.get
fetch-text_entries k [] = refl
fetch-text_entries k ((j, v) ∷ m) =
    rw (same_test j k) (elim (Bool-cases (bytes_eq (bytes j) (bytes k))) [
      | inl f ↦ rw f (as_text-bytes v)
      | inr f ↦ rw f (fetch-text_entries k m)
    ])

text_map-pairs : (m : Dict String) → All IsTextPair (put_all [] (text_entries m))
text_map-pairs m = All-put_all IsTextPair [] (text_entries m) tt (text_entries-pairs m)

-- A map with an entry keeps one.
put_cons :
    (k : Bytes) (v : Term ℕ) (e : Bytes × Term ℕ) (m : Entries (Term ℕ))
    → (e' : Bytes × Term ℕ) × (m' : Entries (Term ℕ)) × (put k v (e ∷ m) ≡ e' ∷ m')
unfolding put
put_cons k v (j, w) m = elim (Bool-cases (bytes_lt j k)) [
  | inl f ↦ ((j, w), put k v m, rw f refl)
  | inr f ↦ elim (Bool-cases (bytes_lt k j)) [
    | inl g ↦ ((k, v), (j, w) ∷ m, rw (f, g) refl)
    | inr g ↦ ((k, v), m, rw (f, g) refl)
  ]
]

filled :
    {A : Type 0} (e : Bytes × Term ℕ) (m ps : Entries (Term ℕ))
    → no_entries {A = A} (of_entries (put_all (e ∷ m) ps)) ≡ none
unfolding put_all
filled e m [] = refl
filled e m ((k, v) ∷ ps) =
    let (e', m', h) = put_cons k v e m in
    ap (λ x. no_entries (of_entries (put_all x ps))) h ∙ filled e' m' ps

same_list : (ts : List (Term ℕ)) → ts ≡ map_list (λ t. t) ts
same_list [] = refl
same_list (t ∷ ts) = ap (◌∷◌ t) (same_list ts)

pub carries : Carries machine erlang
unfolding map_new Reads put_all put
carries = record {
  embed = λ t. t;
  decode_map_texts = λ es a.
      let (d, e, g) = text_dict-Reads (put_all [] es) (All-put_all IsTextKey [] es tt a) in
      (d, e, λ k. g k ∙ same_option (fetch (bytes k) (put_all [] es)));
  decode_map_atoms = text_dict-atom;
  decode_map_atom = λ s. refl;
  decode_list_atom = λ s. refl;
  decode_list_list = λ ts. ap some (same_list (to_list ts));
  decode_string_text = as_text-bytes;
  decode_atom_map_atoms = atom_dict-IsAtomMap;
  decode_binary_binary = λ b. refl;
  decode_bytes_map_texts = λ k v m. filled (bytes k, binary (bytes v)) [] (text_entries m);
  decode_string_bytes_map_texts = λ k v m. filled (bytes k, binary (bytes v)) [] (text_entries m);
  decode_string_map_texts = λ m d. (
    dict_of (put_all [] (text_entries m)) (text_map-pairs m),
    string_dict-dict_of (put_all [] (text_entries m)) (text_map-pairs m),
    dict_of-HasDistinctKeys (put_all [] (text_entries m)) (text_map-pairs m)
        (put_all-IsAscending [] (text_entries m) tt),
    λ k.
        get-dict_of k (put_all [] (text_entries m)) (text_map-pairs m)
        ∙ ap (λ o. and_then o as_text)
            (fetch-put_all-distinct (bytes k) (text_entries m) (text_entries-distinct m d))
        ∙ fetch-text_entries k m,
  );
}
