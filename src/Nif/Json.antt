-- ===== src/Nif/Json.antt =====
-- `json_value_to_elixir_term`
pub mod Total
use sdk_elixir.Base.{String, Option, none, some, Result, ok, err, then_try, List, [], ◌∷◌}
use sdk_elixir.Base.Dict
use sdk_elixir.Base.Dict.{Dict}
use sdk_elixir.Base.Int.{ℤ}
use sdk_elixir.Json.{Value, Items, Fields, null, bool, num, str, arr, obj, nil, cons, end, field}
use sdk_elixir.Nif.{Rustler}

-- `Number::as_i64` and `Number::as_f64` of serde_json are parameters.
module _ (R : Rustler) {N : Type 0} (as_i64 : N → Option ℤ) (as_f64 : N → Option R.Float) where
  unfoldable pub number_term : N → Result R.Term String
  number_term n = elim (as_i64 n) [
    | some i ↦ ok (R.integer i)
    | none ↦ elim (as_f64 n) [ some f ↦ ok (R.float f) | none ↦ err "Invalid number format" ]
  ]

  unfoldable mutual
    pub json_value_to_elixir_term : Value N → Result R.Term String
    json_value_to_elixir_term null = ok (R.atom "nil")
    json_value_to_elixir_term (bool b) = ok (R.boolean b)
    json_value_to_elixir_term (num n) = number_term n
    json_value_to_elixir_term (str s) = ok (R.text s)
    json_value_to_elixir_term (arr xs) = then_try (items_to_terms xs) (λ ts. ok (R.list ts))
    json_value_to_elixir_term (obj fs) =
        then_try (fields_to_terms fs) (λ m. ok (R.map (Dict.collect m)))

    pub items_to_terms : Items N → Result (List R.Term) String
    items_to_terms nil = ok []
    items_to_terms (cons x xs) =
        then_try (json_value_to_elixir_term x)
          (λ t. then_try (items_to_terms xs) (λ ts. ok (t ∷ ts)))

    pub fields_to_terms : Fields N → Result (Dict R.Term) String
    fields_to_terms end = ok []
    fields_to_terms (field k v fs) =
        then_try (json_value_to_elixir_term v)
          (λ t. then_try (fields_to_terms fs) (λ m. ok ((k, t) ∷ m)))
