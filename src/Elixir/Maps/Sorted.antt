-- ===== src/Elixir/Maps/Sorted.antt =====
-- A sort of the entries by key does not change the map that is made of them.
use sdk_elixir.Base.{true, Bool-cases, ◌≡◌, refl, ◌∙◌, ap, inl, inr, arith, [], ◌∷◌}
use sdk_elixir.Base.Utf8.{Bytes}
use sdk_elixir.Elixir.Maps.{bytes_lt, Entries, insert_entry, sort_entries, put, put_all}
use sdk_elixir.Elixir.Maps.Order.{bytes_lt_irrefl, bytes_lt_trans, bytes_lt_total, bytes_lt_asym}

module _ {ℓ} {V : Type ℓ} where
  -- Entries with different keys may be put in either order.
  put_comm :
      (k j : Bytes) (v w : V) (m : Entries V)
      → bytes_lt j k ≡ true
      → put k v (put j w m) ≡ put j w (put k v m)
  unfolding put
  put_comm k j v w [] h = ground (arith, bytes_lt_asym j k h)
  put_comm k j v w ((i, u) ∷ m) h = ground (
    arith,
    bytes_lt_asym j k h,
    bytes_lt_total i j,
    bytes_lt_total i k,
    bytes_lt_asym i j,
    bytes_lt_asym i k,
    bytes_lt_asym j i,
    bytes_lt_asym k i,
    bytes_lt_trans i j k,
    bytes_lt_trans j i k,
    bytes_lt_trans j k i,
    bytes_lt_irrefl i,
    put_comm k j v w m h,
  )

  put_all-insert_entry :
      (m : Entries V) (k : Bytes) (v : V) (ps : Entries V)
      → put_all m (insert_entry k v ps) ≡ put_all (put k v m) ps
  unfolding put_all insert_entry
  put_all-insert_entry m k v [] = refl
  put_all-insert_entry m k v ((j, w) ∷ ps) = elim (Bool-cases (bytes_lt j k)) [
    | inl e ↦
        rw e
          (put_all-insert_entry (put j w m) k v ps ∙ ap (λ t. put_all t ps) (put_comm k j v w m e))
    | inr e ↦ rw e refl
  ]

  pub put_all-sort_entries : (ps m : Entries V) → put_all m (sort_entries ps) ≡ put_all m ps
  unfolding put_all sort_entries
  put_all-sort_entries [] m = refl
  put_all-sort_entries ((k, v) ∷ ps) m =
      put_all-insert_entry m k v (sort_entries ps) ∙ put_all-sort_entries ps (put k v m)
