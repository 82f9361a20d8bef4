-- ===== src/Elixir/Maps.antt =====
-- Maps whose keys are binaries, and `Enum.sort_by` on their entries.
pub mod Order
pub mod Sorted
pub mod Lookup
pub mod Ascending
use Prim.Native.Nat.{compare, Ordering}
use sdk_elixir.Base.{
  ℕ, ◌<◌, if◌then◌else◌, ltb, Bool, true, false, Bool-cases, ◌≡◌, ◌≢◌, refl, ◌∙◌, sym, ap, ap₂, ◌⊎◌,
  inl, inr, arith, Option, none, some, List, [], ◌∷◌,
}
use sdk_elixir.Base.Utf8.{Bytes, bytes_eq, bytes_eq_refl, bytes_eq→eq}
use sdk_elixir.Elixir.Term.{Term, Pairs, end, pair, binary, map, Machine}

-- The order of binaries, byte by byte.
unfoldable pub bytes_lt : Bytes → Bytes → Bool
bytes_lt [] [] = false
bytes_lt [] (y ∷ ys) = true
bytes_lt (x ∷ xs) [] = false
bytes_lt (x ∷ xs) (y ∷ ys) = elim (compare x y) [
  | Ordering.lt ↦ true
  | Ordering.eq ↦ bytes_lt xs ys
  | Ordering.gt ↦ false
]

abbrev pub Entries {ℓ} : Type ℓ → Type ℓ
Entries V = List (Bytes × V)

module _ {ℓ} {V : Type ℓ} where
  -- `Enum.sort_by(fn {k, _} -> k end)`, a stable sort.
  unfoldable pub insert_entry : Bytes → V → Entries V → Entries V
  unfolding bytes_lt
  insert_entry k v [] = (k, v) ∷ []
  insert_entry k v ((j, w) ∷ ps) =
      if bytes_lt j k then (j, w) ∷ insert_entry k v ps else (k, v) ∷ (j, w) ∷ ps

  unfoldable pub sort_entries : Entries V → Entries V
  unfolding insert_entry
  sort_entries [] = []
  sort_entries ((k, v) ∷ ps) = insert_entry k v (sort_entries ps)

  -- The content of a map, in ascending order of its keys: `Map.put`, and `Map.new`, where of the entries
  -- with one key the last one stays.
  unfoldable pub put : Bytes → V → Entries V → Entries V
  unfolding bytes_lt
  put k v [] = (k, v) ∷ []
  put k v ((j, w) ∷ m) =
      let rest = put k v m in
      if bytes_lt j k
      then (j, w) ∷ rest
      else if bytes_lt k j
      then (k, v) ∷ (j, w) ∷ m
      else (k, v) ∷ m

  unfoldable pub put_all : Entries V → Entries V → Entries V
  unfolding put
  put_all m [] = m
  put_all m ((k, v) ∷ ps) = put_all (put k v m) ps

  unfoldable pub fetch : Bytes → Entries V → Option V
  unfolding bytes_eq
  fetch k [] = none
  fetch k ((j, w) ∷ m) = if bytes_eq j k then some w else fetch k m

module _ {F : Type 0} where
  abbrev pub of_entries : Entries (Term F) → Pairs F
  of_entries [] = end
  of_entries ((k, v) ∷ m) = pair (binary k) v (of_entries m)

  -- `Map.new`, as the machine iterates the map.
  unfoldable pub map_new : Machine F → Entries (Term F) → Term F
  unfolding put_all
  map_new M ps = map (M.iterate (of_entries (put_all [] ps)))
