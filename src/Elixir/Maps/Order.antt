-- ===== src/Elixir/Maps/Order.antt =====
-- The order of binaries is a strict total order.
use sdk_elixir.Base.{ℕ, ◌<◌, true, false, ◌≡◌, refl, ap₂, ◌⊎◌, inl, inr, arith, [], ◌∷◌}
use sdk_elixir.Base.Utf8.{Bytes}
use sdk_elixir.Elixir.Maps.{bytes_lt}

pub bytes_lt_irrefl : (a : Bytes) → bytes_lt a a ≡ false
unfolding bytes_lt
bytes_lt_irrefl [] = refl
bytes_lt_irrefl (x ∷ xs) = ground (arith, bytes_lt_irrefl xs)

pub bytes_lt_trans :
    (a b c : Bytes) → bytes_lt a b ≡ true → bytes_lt b c ≡ true → bytes_lt a c ≡ true
unfolding bytes_lt
bytes_lt_trans [] [] c p q = q
bytes_lt_trans [] (y ∷ ys) [] p q = q
bytes_lt_trans [] (y ∷ ys) (z ∷ zs) p q = refl
bytes_lt_trans (x ∷ xs) [] c p q = cc
bytes_lt_trans (x ∷ xs) (y ∷ ys) [] p q = q
bytes_lt_trans (x ∷ xs) (y ∷ ys) (z ∷ zs) p q = ground (arith, bytes_lt_trans xs ys zs)

trichotomy : (a b : ℕ) → (a < b) ⊎ (b < a) ⊎ (a ≡ b)
trichotomy a b = omega arith

-- Of two binaries one is smaller, or they are equal.
pub bytes_lt_total : (a b : Bytes) → (bytes_lt a b ≡ true) ⊎ (bytes_lt b a ≡ true) ⊎ (a ≡ b)
unfolding bytes_lt
bytes_lt_total [] [] = inr (inr refl)
bytes_lt_total [] (y ∷ ys) = inl refl
bytes_lt_total (x ∷ xs) [] = inr (inl refl)
bytes_lt_total (x ∷ xs) (y ∷ ys) = elim (trichotomy x y) [
  | inl p ↦ inl (ground arith)
  | inr (inl p) ↦ inr (inl (ground arith))
  | inr (inr e) ↦ elim (bytes_lt_total xs ys) [
    | inl p ↦ inl (ground arith)
    | inr (inl p) ↦ inr (inl (ground arith))
    | inr (inr q) ↦ inr (inr (ap₂ ◌∷◌ e q))
  ]
]

pub bytes_lt_asym : (a b : Bytes) → bytes_lt a b ≡ true → bytes_lt b a ≡ false
bytes_lt_asym a b h = ground (arith, bytes_lt_trans a b a, bytes_lt_irrefl a)
