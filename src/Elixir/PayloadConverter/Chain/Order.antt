-- ===== src/Elixir/PayloadConverter/Chain/Order.antt =====
-- The order of a chain.
use sdk_elixir.Base.{ℕ, ◌≡◌, refl, ◌∙◌, ap, sym, subst, Any, [], ◌∷◌}
use sdk_elixir.Base.Stable.{insert_by, sort_by, IsStableSort, sort_by-IsStableSort, sort_by-Any}
use sdk_elixir.Elixir.PayloadConverter.{PayloadConverter}
use sdk_elixir.Elixir.PayloadConverter.Chain.{
  Converters, insert_by_priority, sort_converters_by_priority,
}

module _ {F : Type 0} where
  abbrev priority_of : PayloadConverter F → ℕ
  priority_of c = c.priority

  insert_by_priority-insert_by :
      (c : PayloadConverter F) (cs : Converters F)
      → insert_by_priority c cs ≡ insert_by priority_of c cs
  unfolding insert_by_priority insert_by
  insert_by_priority-insert_by c [] = refl
  insert_by_priority-insert_by c (d ∷ ds) = rw (insert_by_priority-insert_by c ds) refl

  sort_converters_by_priority-sort_by :
      (cs : Converters F) → sort_converters_by_priority cs ≡ sort_by priority_of cs
  unfolding sort_converters_by_priority sort_by
  sort_converters_by_priority-sort_by [] = refl
  sort_converters_by_priority-sort_by (c ∷ cs) =
      insert_by_priority-insert_by c (sort_converters_by_priority cs)
      ∙ ap (insert_by priority_of c) (sort_converters_by_priority-sort_by cs)

  pub sort_converters_by_priority-IsStableSort :
      (cs : Converters F) → IsStableSort (λ c. c.priority) (sort_converters_by_priority cs) cs
  sort_converters_by_priority-IsStableSort cs =
      subst (λ ds. IsStableSort priority_of ds cs) (sym (sort_converters_by_priority-sort_by cs))
        (sort_by-IsStableSort priority_of cs)

  pub sort_converters_by_priority-Any :
      (P : PayloadConverter F → Type 0) (cs : Converters F)
      → Any P (sort_converters_by_priority cs)
      → Any P cs
  sort_converters_by_priority-Any P cs a =
      sort_by-Any priority_of P cs (subst (Any P) (sort_converters_by_priority-sort_by cs) a)
