-- ===== src/Converter/Composite/Order.antt =====
-- The order that `CompositeConverter::new` gives to the converters.
use sdk_elixir.Base.{ℕ, ◌≡◌, refl, ◌∙◌, ap, sym, subst, All, [], ◌∷◌}
use sdk_elixir.Base.Stable.{insert_by, sort_by, IsStableSort, sort_by-IsStableSort, sort_by-All}
use sdk_elixir.Converter.{PayloadConverter}
use sdk_elixir.Converter.Composite.{Converters, insert_by_priority, new}

module _ {N : Type 0} where
  abbrev priority_of : PayloadConverter N → ℕ
  priority_of c = c.priority

  insert_by_priority-insert_by :
      (c : PayloadConverter N) (cs : Converters N)
      → insert_by_priority c cs ≡ insert_by priority_of c cs
  unfolding insert_by_priority insert_by
  insert_by_priority-insert_by c [] = refl
  insert_by_priority-insert_by c (d ∷ ds) = rw (insert_by_priority-insert_by c ds) refl

  new-sort_by : (cs : Converters N) → new cs ≡ sort_by priority_of cs
  unfolding new sort_by
  new-sort_by [] = refl
  new-sort_by (c ∷ cs) =
      insert_by_priority-insert_by c (new cs) ∙ ap (insert_by priority_of c) (new-sort_by cs)

  pub new-All : (P : PayloadConverter N → Type 0) (cs : Converters N) → All P cs → All P (new cs)
  new-All P cs a = subst (All P) (sym (new-sort_by cs)) (sort_by-All priority_of P cs a)

  -- `CompositeConverter::new` keeps all converters that are given and no other, puts them into ascending
  -- order of their priority numbers, and leaves those of one priority in the order in which they are given.
  pub new_sorts : (cs : Converters N) → IsStableSort (λ c. c.priority) (new cs) cs
  new_sorts cs =
      subst (λ ds. IsStableSort priority_of ds cs) (sym (new-sort_by cs))
        (sort_by-IsStableSort priority_of cs)
