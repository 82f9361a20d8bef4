-- ===== src/Elixir/Maps/Ascending.antt =====
-- The content of a map is in ascending order of its keys, and holds nothing but what was put into it.
use sdk_elixir.Base.{true, false, Bool-cases, ◌≡◌, subst, inl, inr, arith, All, [], ◌∷◌}
use sdk_elixir.Base.Utf8.{Bytes}
use sdk_elixir.Elixir.Maps.{bytes_lt, Entries, put, put_all}
use sdk_elixir.Elixir.Maps.Order.{bytes_lt_trans, bytes_lt_total}

module _ {ℓ} {V : Type ℓ} where
  -- All keys are greater than `k`.
  abbrev pub AllAbove : Bytes → Entries V → Type 0
  AllAbove k m = All (λ e. bytes_lt k e.0 ≡ true) m

  abbrev pub IsAscending : Entries V → Type 0
  IsAscending [] = Unit
  IsAscending ((k, v) ∷ m) = AllAbove k m × IsAscending m

  AllAbove-put :
      (i k : Bytes) (v : V) (m : Entries V)
      → bytes_lt i k ≡ true
      → AllAbove i m
      → AllAbove i (put k v m)
  unfolding put
  AllAbove-put i k v [] h a = (h, tt)
  AllAbove-put i k v ((j, w) ∷ m) h a = elim (Bool-cases (bytes_lt j k)) [
    | inl e ↦ rw e (a.0, AllAbove-put i k v m h a.1)
    | inr e ↦ elim (Bool-cases (bytes_lt k j)) [
      | inl f ↦ rw (e, f) (h, a)
      | inr f ↦ rw (e, f) (h, a.1)
    ]
  ]

  AllAbove-trans : (i k : Bytes) (m : Entries V) → bytes_lt i k ≡ true → AllAbove k m → AllAbove i m
  AllAbove-trans i k [] h a = tt
  AllAbove-trans i k ((j, w) ∷ m) h a = (bytes_lt_trans i k j h a.0, AllAbove-trans i k m h a.1)

  put-IsAscending : (k : Bytes) (v : V) (m : Entries V) → IsAscending m → IsAscending (put k v m)
  unfolding put
  put-IsAscending k v [] a = (tt, tt)
  put-IsAscending k v ((j, w) ∷ m) a = elim (Bool-cases (bytes_lt j k)) [
    | inl e ↦ rw e (AllAbove-put j k v m e a.0, put-IsAscending k v m a.1)
    | inr e ↦ elim (Bool-cases (bytes_lt k j)) [
      | inl f ↦ rw (e, f) ((f, AllAbove-trans k j m f a.0), a)
      | inr f ↦ rw (e, f) (subst (λ i. AllAbove i m) (same e f) a.0, a.1)
    ]
  ]
    where
      same : bytes_lt j k ≡ false → bytes_lt k j ≡ false → j ≡ k
      same e f = ground (arith, bytes_lt_total j k)

  pub put_all-IsAscending : (m ps : Entries V) → IsAscending m → IsAscending (put_all m ps)
  unfolding put_all
  put_all-IsAscending m [] a = a
  put_all-IsAscending m ((k, v) ∷ ps) a =
      put_all-IsAscending (put k v m) ps (put-IsAscending k v m a)

  -- What holds of the entries holds of the map.
  module _ {κ} (P : Bytes × V → Type κ) where
    All-put : (k : Bytes) (v : V) (m : Entries V) → P (k, v) → All P m → All P (put k v m)
    unfolding put
    All-put k v [] h a = (h, tt)
    All-put k v ((j, w) ∷ m) h a = elim (Bool-cases (bytes_lt j k)) [
      | inl e ↦ rw e (a.0, All-put k v m h a.1)
      | inr e ↦ elim (Bool-cases (bytes_lt k j)) [
        | inl f ↦ rw (e, f) (h, a)
        | inr f ↦ rw (e, f) (h, a.1)
      ]
    ]

    pub All-put_all : (m ps : Entries V) → All P m → All P ps → All P (put_all m ps)
    unfolding put_all
    All-put_all m [] a b = a
    All-put_all m ((k, v) ∷ ps) a b = All-put_all (put k v m) ps (All-put k v m b.0 a) b.1
