-- ===== src/Converter/JsonConverter/Normal.antt =====
-- What the canonical form of a value is like, where the maps of the value are maps.
use sdk_elixir.Base.{
  ◌≡◌, refl, ◌∙◌, ap, ap₂, String, str_lt, Bool-cases, inl, inr, arith, ok, subst,
}
use sdk_elixir.Json.{Value, Items, Fields, null, bool, num, str, arr, obj, nil, cons, end, field}
use sdk_elixir.Json.Keys.{
  sort_by_key, insert_sorted, IsSorted, HasDistinctKeys, Fresh, sort_by_key-IsSorted,
  sort_by_key_of_IsSorted, sort_by_key-HasDistinctKeys,
}
use sdk_elixir.Converter.{Codecs}
use sdk_elixir.Converter.JsonConverter.{canonicalize_value}
use sdk_elixir.Converter.JsonConverter.Canonical.{
  canonical, canonical_items, canonical_fields, canonicalize_value-ok,
}

-- Every object of the value lists each key once.
unfoldable mutual
  pub IsProper : {N : Type 0} → Value N → Type 0
  IsProper (arr xs) = AreProperItems xs
  IsProper (obj fs) = HasDistinctKeys fs × AreProperFields fs
  IsProper v = Unit

  pub AreProperItems : {N : Type 0} → Items N → Type 0
  AreProperItems nil = Unit
  AreProperItems (cons x xs) = IsProper x × AreProperItems xs

  pub AreProperFields : {N : Type 0} → Fields N → Type 0
  AreProperFields end = Unit
  AreProperFields (field k v fs) = IsProper v × AreProperFields fs

-- Besides, every object of the value lists its keys in ascending order.
unfoldable mutual
  pub IsCanonical : {N : Type 0} → Value N → Type 0
  IsCanonical (arr xs) = AreCanonicalItems xs
  IsCanonical (obj fs) = IsSorted fs × HasDistinctKeys fs × AreCanonicalFields fs
  IsCanonical v = Unit

  pub AreCanonicalItems : {N : Type 0} → Items N → Type 0
  AreCanonicalItems nil = Unit
  AreCanonicalItems (cons x xs) = IsCanonical x × AreCanonicalItems xs

  pub AreCanonicalFields : {N : Type 0} → Fields N → Type 0
  AreCanonicalFields end = Unit
  AreCanonicalFields (field k v fs) = IsCanonical v × AreCanonicalFields fs

-- A map that is collected from entries in ascending order iterates in that order. This holds of a
-- map that iterates by key and of one that iterates in the order of insertion.
abbrev pub CollectsInOrder : Codecs → Type 0
CollectsInOrder C =
    (fs : Fields C.Number) → IsSorted fs → HasDistinctKeys fs → C.collect_map fs ≡ fs

module _ {N : Type 0} where
  AreCanonicalFields-insert_sorted :
      (k : String) (v : Value N) (fs : Fields N)
      → IsCanonical v
      → AreCanonicalFields fs
      → AreCanonicalFields (insert_sorted k v fs)
  unfolding IsCanonical insert_sorted
  AreCanonicalFields-insert_sorted k v end h a = (h, tt)
  AreCanonicalFields-insert_sorted k v (field j w fs) h a = elim (Bool-cases (str_lt j k)) [
    | inl e ↦ rw e (a.0, AreCanonicalFields-insert_sorted k v fs h a.1)
    | inr e ↦ rw e (h, a)
  ]

  AreCanonicalFields-sort_by_key :
      (fs : Fields N) → AreCanonicalFields fs → AreCanonicalFields (sort_by_key fs)
  unfolding IsCanonical sort_by_key
  AreCanonicalFields-sort_by_key end a = tt
  AreCanonicalFields-sort_by_key (field k v fs) a =
      AreCanonicalFields-insert_sorted k v (sort_by_key fs) a.0
        (AreCanonicalFields-sort_by_key fs a.1)

module _ (C : Codecs) where
  Fresh-canonical_fields :
      (k : String) (fs : Fields C.Number) → Fresh k fs → Fresh k (canonical_fields C fs)
  unfolding canonical
  Fresh-canonical_fields k end f = tt
  Fresh-canonical_fields k (field j w fs) f = (f.0, Fresh-canonical_fields k fs f.1)

  canonical_fields-HasDistinctKeys :
      (fs : Fields C.Number) → HasDistinctKeys fs → HasDistinctKeys (canonical_fields C fs)
  unfolding canonical
  canonical_fields-HasDistinctKeys end d = tt
  canonical_fields-HasDistinctKeys (field k v fs) d =
      (Fresh-canonical_fields k fs d.0, canonical_fields-HasDistinctKeys fs d.1)

  -- The map that is collected from the sorted entries iterates in their order.
  pub collect_sorted :
      CollectsInOrder C
      → (fs : Fields C.Number) → HasDistinctKeys fs
      → C.collect_map (sort_by_key (canonical_fields C fs)) ≡ sort_by_key (canonical_fields C fs)
  collect_sorted law fs d =
      law _ (sort_by_key-IsSorted _)
        (sort_by_key-HasDistinctKeys _ (canonical_fields-HasDistinctKeys fs d))

module _ (C : Codecs) (law : CollectsInOrder C) where
  mutual
    unfolding canonical IsCanonical IsProper

    canonical_is : (v : Value C.Number) → IsProper v → IsCanonical (canonical C v)
    canonical_is null p = tt
    canonical_is (bool b) p = tt
    canonical_is (num n) p = tt
    canonical_is (str s) p = tt
    canonical_is (arr xs) p = canonical_items_are xs p
    canonical_is (obj fs) p = rw (collect_sorted C law fs p.0) (
      sort_by_key-IsSorted _,
      sort_by_key-HasDistinctKeys _ (canonical_fields-HasDistinctKeys C fs p.0),
      AreCanonicalFields-sort_by_key _ (canonical_fields_are fs p.1),
    )

    canonical_items_are :
        (xs : Items C.Number) → AreProperItems xs → AreCanonicalItems (canonical_items C xs)
    canonical_items_are nil p = tt
    canonical_items_are (cons x xs) p = (canonical_is x p.0, canonical_items_are xs p.1)

    canonical_fields_are :
        (fs : Fields C.Number) → AreProperFields fs → AreCanonicalFields (canonical_fields C fs)
    canonical_fields_are end p = tt
    canonical_fields_are (field k v fs) p = (canonical_is v p.0, canonical_fields_are fs p.1)

  mutual
    unfolding canonical IsCanonical

    canonical_keeps : (v : Value C.Number) → IsCanonical v → canonical C v ≡ v
    canonical_keeps null p = refl
    canonical_keeps (bool b) p = refl
    canonical_keeps (num n) p = refl
    canonical_keeps (str s) p = refl
    canonical_keeps (arr xs) p = ap arr (canonical_items_keeps xs p)
    canonical_keeps (obj fs) p =
        rw (canonical_fields_keeps fs p.2, sort_by_key_of_IsSorted fs p.0, law fs p.0 p.1)

    canonical_items_keeps : (xs : Items C.Number) → AreCanonicalItems xs → canonical_items C xs ≡ xs
    canonical_items_keeps nil p = refl
    canonical_items_keeps (cons x xs) p =
        ap₂ cons (canonical_keeps x p.0) (canonical_items_keeps xs p.1)

    canonical_fields_keeps :
        (fs : Fields C.Number) → AreCanonicalFields fs → canonical_fields C fs ≡ fs
    canonical_fields_keeps end p = refl
    canonical_fields_keeps (field k v fs) p =
        ap₂ (field k) (canonical_keeps v p.0) (canonical_fields_keeps fs p.1)

  pub canonical-IsCanonical : (v : Value C.Number) → IsProper v → IsCanonical (canonical C v)
  canonical-IsCanonical v p = canonical_is v p

  -- `canonicalize_value` puts the entries of every object at any depth into the ascending order of
  -- their keys, and its result is left as it is by a second run, for a value whose objects list each
  -- key once and a map that iterates as it was collected from entries in order.
  pub canonicalize_value-IsCanonical :
      (v w : Value C.Number)
      → IsProper v
      → canonicalize_value C v ≡ ok w
      → IsCanonical w × (canonicalize_value C w ≡ ok w)
  canonicalize_value-IsCanonical v w p h =
      let e : canonical C v ≡ w = ground (arith, canonicalize_value-ok C v) in
      let sorted : IsCanonical w = subst IsCanonical e (canonical_is v p) in
      (sorted, canonicalize_value-ok C w ∙ ap ok (canonical_keeps w sorted))
