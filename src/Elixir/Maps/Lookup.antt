-- ===== src/Elixir/Maps/Lookup.antt =====
-- What a map that is made of entries has under a key.
use sdk_elixir.Base.{
  ◌&&◌, not, if◌then◌else◌, Bool, true, Bool-cases, ◌≡◌, refl, ◌∙◌, ap, inl, inr, arith, Option,
  none, some, or_else, [], ◌∷◌,
}
use sdk_elixir.Base.Utf8.{Bytes, bytes_eq, bytes_eq→eq}
use sdk_elixir.Elixir.Maps.{bytes_lt, Entries, put, put_all, fetch}
use sdk_elixir.Elixir.Maps.Order.{bytes_lt_irrefl, bytes_lt_total}

module _ {ℓ} {V : Type ℓ} where
  unfoldable pub is_fresh : Bytes → Entries V → Bool
  unfolding bytes_eq
  is_fresh k [] = true
  is_fresh k ((j, w) ∷ ps) = not (bytes_eq j k) && is_fresh k ps

  -- No key twice.
  unfoldable pub is_distinct : Entries V → Bool
  unfolding is_fresh
  is_distinct [] = true
  is_distinct ((k, v) ∷ ps) = is_fresh k ps && is_distinct ps

  fetch-put :
      (k j : Bytes) (v : V) (m : Entries V)
      → fetch j (put k v m) ≡ (if bytes_eq k j then some v else fetch j m)
  unfolding fetch put
  fetch-put k j v [] = refl
  fetch-put k j v ((i, w) ∷ m) = elim (Bool-cases (bytes_lt i k)) [
    | inl e ↦ ground (arith, fetch-put k j v m, bytes_lt_irrefl i, bytes_eq→eq i j, bytes_eq→eq k j)
    | inr e ↦ elim (Bool-cases (bytes_lt k i)) [
      | inl h ↦ ground arith
      | inr h ↦ ground (arith, bytes_lt_total i k)
    ]
  ]

  fetch-fresh : (k : Bytes) (ps : Entries V) → is_fresh k ps ≡ true → fetch k ps ≡ none
  unfolding fetch is_fresh
  fetch-fresh k [] h = refl
  fetch-fresh k ((j, w) ∷ ps) h = ground (arith, fetch-fresh k ps)

  fetch-put_all :
      (k : Bytes) (ps m : Entries V)
      → is_distinct ps ≡ true
      → fetch k (put_all m ps) ≡ or_else (fetch k ps) (fetch k m)
  unfolding put_all fetch is_distinct
  fetch-put_all k [] m h = refl
  fetch-put_all k ((j, v) ∷ ps) m h =
      fetch-put_all k ps (put j v m) (ground arith)
      ∙ ap (or_else (fetch k ps)) (fetch-put j k v m)
      ∙ elim (Bool-cases (bytes_eq j k)) [
        | inl e ↦ rw (e, fetch-fresh k ps (ground (arith, bytes_eq→eq j k))) refl
        | inr e ↦ rw e refl
      ]

  -- Of entries with different keys a map has each.
  pub fetch-put_all-distinct :
      (k : Bytes) (ps : Entries V) → is_distinct ps ≡ true → fetch k (put_all [] ps) ≡ fetch k ps
  unfolding fetch
  fetch-put_all-distinct k ps h = fetch-put_all k ps [] h ∙ or_else_none (fetch k ps)
    where
      or_else_none : (o : Option V) → or_else o none ≡ o
      or_else_none none = refl
      or_else_none (some v) = refl
