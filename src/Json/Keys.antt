-- ===== src/Json/Keys.antt =====
-- The entries of an object by key: the stable sort of `sort_by(|a, b| a.0.cmp(b.0))`.
use sdk_elixir.Base.{
  String, str_lt, str_lt_trans, str_total, str_lt_irrefl, if◌then◌else◌, Bool-cases, true, false,
  ◌≡◌, refl, ◌≢◌, inl, inr, arith, ap, ◌∙◌, sym,
}
use sdk_elixir.Json.{Value, Fields, end, field}

module _ {N : Type 0} where
  -- `(k, v)` goes before the entries that are not smaller.
  unfoldable pub insert_sorted : String → Value N → Fields N → Fields N
  insert_sorted k v end = field k v end
  insert_sorted k v (field j w fs) =
      if str_lt j k then field j w (insert_sorted k v fs) else field k v (field j w fs)

  unfoldable pub sort_by_key : Fields N → Fields N
  unfolding insert_sorted
  sort_by_key end = end
  sort_by_key (field k v fs) = insert_sorted k v (sort_by_key fs)

  -- Every key of the entries is at least `k`; or: greater than `k`.
  abbrev pub AtLeast : String → Fields N → Type 0
  AtLeast k end = Unit
  AtLeast k (field j w fs) = (str_lt j k ≡ false) × AtLeast k fs

  abbrev pub Fresh : String → Fields N → Type 0
  Fresh k end = Unit
  Fresh k (field j w fs) = (k ≢ j) × Fresh k fs

  -- Ascending keys.
  abbrev pub IsSorted : Fields N → Type 0
  IsSorted end = Unit
  IsSorted (field k v fs) = AtLeast k fs × IsSorted fs

  -- No key twice, as in every map.
  abbrev pub HasDistinctKeys : Fields N → Type 0
  HasDistinctKeys end = Unit
  HasDistinctKeys (field k v fs) = Fresh k fs × HasDistinctKeys fs

le_of_lt : (j k : String) → str_lt j k ≡ true → str_lt k j ≡ false
le_of_lt j k h = ground (arith, str_lt_trans j k j h, str_lt_irrefl j)

le_trans_keys : (a b c : String) → str_lt b a ≡ false → str_lt c b ≡ false → str_lt c a ≡ false
le_trans_keys a b c p q = elim (str_total b a) [
  | inl h ↦ cc
  | inr (inl h) ↦ ground (arith, str_lt_trans c a b)
  | inr (inr e) ↦ rw (← e) q
]

module _ {N : Type 0} where
  AtLeast-insert_sorted :
      (i k : String) (v : Value N) (fs : Fields N)
      → str_lt k i ≡ false
      → AtLeast i fs
      → AtLeast i (insert_sorted k v fs)
  unfolding insert_sorted
  AtLeast-insert_sorted i k v end h a = (h, tt)
  AtLeast-insert_sorted i k v (field j w fs) h a = ground (arith, AtLeast-insert_sorted i k v fs)

  AtLeast-le : (i k : String) (fs : Fields N) → str_lt k i ≡ false → AtLeast k fs → AtLeast i fs
  AtLeast-le i k end h a = tt
  AtLeast-le i k (field j w fs) h a = (le_trans_keys i k j h a.0, AtLeast-le i k fs h a.1)

  insert_sorted-IsSorted :
      (k : String) (v : Value N) (fs : Fields N) → IsSorted fs → IsSorted (insert_sorted k v fs)
  unfolding insert_sorted
  insert_sorted-IsSorted k v end s = (tt, tt)
  insert_sorted-IsSorted k v (field j w fs) s = ground (
    arith,
    insert_sorted-IsSorted k v fs,
    AtLeast-insert_sorted j k v fs,
    AtLeast-le k j fs,
    le_of_lt j k,
  )

  -- The sort puts the entries in order.
  pub sort_by_key-IsSorted : (fs : Fields N) → IsSorted (sort_by_key fs)
  unfolding sort_by_key
  sort_by_key-IsSorted end = tt
  sort_by_key-IsSorted (field k v fs) =
      insert_sorted-IsSorted k v (sort_by_key fs) (sort_by_key-IsSorted fs)

  insert_sorted_head :
      (k : String) (v : Value N) (fs : Fields N)
      → AtLeast k fs
      → insert_sorted k v fs ≡ field k v fs
  unfolding insert_sorted
  insert_sorted_head k v end a = refl
  insert_sorted_head k v (field j w fs) a = rw a.0

  -- Entries in order stay as they are.
  pub sort_by_key_of_IsSorted : (fs : Fields N) → IsSorted fs → sort_by_key fs ≡ fs
  unfolding sort_by_key
  sort_by_key_of_IsSorted end s = refl
  sort_by_key_of_IsSorted (field k v fs) s =
      ap (insert_sorted k v) (sort_by_key_of_IsSorted fs s.1) ∙ insert_sorted_head k v fs s.0

  Fresh-insert_sorted :
      (i k : String) (v : Value N) (fs : Fields N)
      → i ≢ k
      → Fresh i fs
      → Fresh i (insert_sorted k v fs)
  unfolding insert_sorted
  Fresh-insert_sorted i k v end h f = (h, tt)
  Fresh-insert_sorted i k v (field j w fs) h f = elim (Bool-cases (str_lt j k)) [
    | inl e ↦ rw e (f.0, Fresh-insert_sorted i k v fs h f.1)
    | inr e ↦ rw e (h, f)
  ]

  insert_sorted-HasDistinctKeys :
      (k : String) (v : Value N) (fs : Fields N)
      → Fresh k fs
      → HasDistinctKeys fs
      → HasDistinctKeys (insert_sorted k v fs)
  unfolding insert_sorted
  insert_sorted-HasDistinctKeys k v end f d = (tt, tt)
  insert_sorted-HasDistinctKeys k v (field j w fs) f d = elim (Bool-cases (str_lt j k)) [
    | inl e ↦ rw e (
      Fresh-insert_sorted j k v fs (λ q. f.0 (sym q)) d.0,
      insert_sorted-HasDistinctKeys k v fs f.1 d.1,
    )
    | inr e ↦ rw e (f, d)
  ]

  pub Fresh-sort_by_key : (k : String) (fs : Fields N) → Fresh k fs → Fresh k (sort_by_key fs)
  unfolding sort_by_key
  Fresh-sort_by_key k end f = tt
  Fresh-sort_by_key k (field j w fs) f =
      Fresh-insert_sorted k j w (sort_by_key fs) f.0 (Fresh-sort_by_key k fs f.1)

  pub sort_by_key-HasDistinctKeys :
      (fs : Fields N) → HasDistinctKeys fs → HasDistinctKeys (sort_by_key fs)
  unfolding sort_by_key
  sort_by_key-HasDistinctKeys end d = tt
  sort_by_key-HasDistinctKeys (field k v fs) d =
      insert_sorted-HasDistinctKeys k v (sort_by_key fs) (Fresh-sort_by_key k fs d.0)
        (sort_by_key-HasDistinctKeys fs d.1)

  -- Two entries with different keys may be put in either order.
  pub insert_sorted_comm :
      (k j : String) (v w : Value N) (fs : Fields N)
      → k ≢ j
      → insert_sorted k v (insert_sorted j w fs) ≡ insert_sorted j w (insert_sorted k v fs)
  unfolding insert_sorted
  insert_sorted_comm k j v w end h = ground (arith, str_total k j, le_of_lt k j, le_of_lt j k)
  insert_sorted_comm k j v w (field i u fs) h = ground (
    arith,
    str_total k j,
    le_of_lt k j,
    le_of_lt j k,
    str_lt_trans i k j,
    str_lt_trans i j k,
    insert_sorted_comm k j v w fs h,
  )

  -- What a sort reads of an entry is its key: changing the values before or after is the same.
  unfoldable pub map_values : (Value N → Value N) → Fields N → Fields N
  map_values f end = end
  map_values f (field k v fs) = field k (f v) (map_values f fs)

  map_values-insert_sorted :
      (f : Value N → Value N) (k : String) (v : Value N) (fs : Fields N)
      → map_values f (insert_sorted k v fs) ≡ insert_sorted k (f v) (map_values f fs)
  unfolding insert_sorted map_values
  map_values-insert_sorted f k v end = refl
  map_values-insert_sorted f k v (field j w fs) = ground (arith, map_values-insert_sorted f k v fs)

  pub map_values-sort_by_key :
      (f : Value N → Value N) (fs : Fields N)
      → map_values f (sort_by_key fs) ≡ sort_by_key (map_values f fs)
  unfolding sort_by_key map_values
  map_values-sort_by_key f end = refl
  map_values-sort_by_key f (field k v fs) =
      map_values-insert_sorted f k v (sort_by_key fs)
      ∙ ap (insert_sorted k (f v)) (map_values-sort_by_key f fs)
