-- ===== src/Converter/JsonConverter/Numbers.antt =====
-- The numbers of the canonical form.
use sdk_elixir.Base.{String, str_lt, Bool-cases, inl, inr}
use sdk_elixir.Json.{Value, Items, Fields, null, bool, num, str, arr, obj, nil, cons, end, field}
use sdk_elixir.Json.Keys.{sort_by_key, insert_sorted}
use sdk_elixir.Converter.{Codecs}
use sdk_elixir.Converter.JsonConverter.Canonical.{canonical, canonical_items, canonical_fields}
use sdk_elixir.Converter.JsonConverter.Normal.{
  CollectsInOrder, IsProper, AreProperItems, AreProperFields, collect_sorted,
}

module _ {N : Type 0} (P : N → Type 0) where
  unfoldable mutual
    pub AllNumbers : Value N → Type 0
    AllNumbers (num n) = P n
    AllNumbers (arr xs) = AllNumbersItems xs
    AllNumbers (obj fs) = AllNumbersFields fs
    AllNumbers v = Unit

    pub AllNumbersItems : Items N → Type 0
    AllNumbersItems nil = Unit
    AllNumbersItems (cons x xs) = AllNumbers x × AllNumbersItems xs

    pub AllNumbersFields : Fields N → Type 0
    AllNumbersFields end = Unit
    AllNumbersFields (field k v fs) = AllNumbers v × AllNumbersFields fs

  AllNumbersFields-insert_sorted :
      (k : String) (v : Value N) (fs : Fields N)
      → AllNumbers v
      → AllNumbersFields fs
      → AllNumbersFields (insert_sorted k v fs)
  unfolding AllNumbers insert_sorted
  AllNumbersFields-insert_sorted k v end h a = (h, tt)
  AllNumbersFields-insert_sorted k v (field j w fs) h a = elim (Bool-cases (str_lt j k)) [
    | inl e ↦ rw e (a.0, AllNumbersFields-insert_sorted k v fs h a.1)
    | inr e ↦ rw e (h, a)
  ]

  AllNumbersFields-sort_by_key :
      (fs : Fields N) → AllNumbersFields fs → AllNumbersFields (sort_by_key fs)
  unfolding AllNumbers sort_by_key
  AllNumbersFields-sort_by_key end a = tt
  AllNumbersFields-sort_by_key (field k v fs) a =
      AllNumbersFields-insert_sorted k v (sort_by_key fs) a.0 (AllNumbersFields-sort_by_key fs a.1)

module _ (C : Codecs) (P : C.Number → Type 0) (law : CollectsInOrder C) where
  mutual
    unfolding canonical AllNumbers IsProper

    numbers_of : (v : Value C.Number) → IsProper v → AllNumbers P v → AllNumbers P (canonical C v)
    numbers_of null p a = tt
    numbers_of (bool b) p a = tt
    numbers_of (num n) p a = a
    numbers_of (str s) p a = tt
    numbers_of (arr xs) p a = numbers_of_items xs p a
    numbers_of (obj fs) p a =
        rw (collect_sorted C law fs p.0)
          (AllNumbersFields-sort_by_key P _ (numbers_of_fields fs p.1 a))

    numbers_of_items :
        (xs : Items C.Number)
        → AreProperItems xs
        → AllNumbersItems P xs
        → AllNumbersItems P (canonical_items C xs)
    numbers_of_items nil p a = tt
    numbers_of_items (cons x xs) p a = (numbers_of x p.0 a.0, numbers_of_items xs p.1 a.1)

    numbers_of_fields :
        (fs : Fields C.Number)
        → AreProperFields fs
        → AllNumbersFields P fs
        → AllNumbersFields P (canonical_fields C fs)
    numbers_of_fields end p a = tt
    numbers_of_fields (field k v fs) p a = (numbers_of v p.0 a.0, numbers_of_fields fs p.1 a.1)

  pub AllNumbers-canonical :
      (v : Value C.Number) → IsProper v → AllNumbers P v → AllNumbers P (canonical C v)
  AllNumbers-canonical v p a = numbers_of v p a
