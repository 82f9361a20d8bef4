-- ===== src/Elixir/PayloadConverter/JsonConverter/Unsorted.antt =====
-- The sort of the entries in `prepare_for_encoding`.
use sdk_elixir.Base.{if◌then◌else◌, ◌≡◌, refl, ap, Result, ok, err, then_try, List, [], ◌∷◌}
use sdk_elixir.Base.Utf8.{Bytes, bytes}
use sdk_elixir.Elixir.Term.{
  Term, Terms, Pairs, atom, integer, float, binary, list, tuple, map, reference, other, nil, cons,
  end, pair, Machine, of_list,
}
use sdk_elixir.Elixir.Maps.{Entries, map_new, of_entries, sort_entries}
use sdk_elixir.Elixir.Maps.Sorted.{put_all-sort_entries}
use sdk_elixir.Elixir.PayloadConverter.{Reason, unsupported_type, kind_tuple, kind_unknown, Raises}
use sdk_elixir.Elixir.PayloadConverter.JsonConverter.{
  collect_results, is_json_atom, typeof, prepared_entry, prepare_for_encoding, prepare_terms,
  prepare_pairs,
}

module _ {F : Type 0} (M : Machine F) where
  -- The function without the line `Enum.sort_by`.
  mutual
    unfolding prepared_entry collect_results map_new typeof bytes

    pub unsorted : Term F → Raises (Result (Term F) Reason)
    unsorted (map es) =
        then_try (unsorted_pairs es)
          (λ rs. ok (then_try (collect_results rs) (λ ps. ok (map_new M ps))))
    unsorted (list ts) =
        then_try (unsorted_terms ts)
          (λ rs. ok (then_try (collect_results rs) (λ xs. ok (list (of_list xs)))))
    unsorted (atom s) = if is_json_atom s then ok (ok (atom s)) else ok (ok (binary (bytes s)))
    unsorted (binary b) = ok (ok (binary b))
    unsorted (integer n) = ok (ok (integer n))
    unsorted (float x) = ok (ok (float x))
    unsorted (tuple ts) = ok (err (unsupported_type kind_tuple))
    unsorted (reference n) = ok (err (unsupported_type kind_unknown))
    unsorted (other n) = ok (err (unsupported_type kind_unknown))

    pub unsorted_terms : Terms F → Raises (List (Result (Term F) Reason))
    unsorted_terms nil = ok []
    unsorted_terms (cons t ts) =
        then_try (unsorted t) (λ r. then_try (unsorted_terms ts) (λ rs. ok (r ∷ rs)))

    pub unsorted_pairs : Pairs F → Raises (List (Result (Bytes × Term F) Reason))
    unsorted_pairs end = ok []
    unsorted_pairs (pair k v es) = then_try (unsorted v) (λ r.
        then_try (prepared_entry M k r) (λ e. then_try (unsorted_pairs es) (λ rs. ok (e ∷ rs))))

  map_new-sort_entries : (ps : Entries (Term F)) → map_new M (sort_entries ps) ≡ map_new M ps
  unfolding map_new
  map_new-sort_entries ps = ap (λ m. map (M.iterate (of_entries m))) (put_all-sort_entries ps [])

  collected :
      (rs : List (Result (Bytes × Term F) Reason))
      → then_try (collect_results rs) (λ ps. ok (map_new M (sort_entries ps)))
        ≡ then_try (collect_results rs) (λ ps. ok (map_new M ps))
  collected rs = λ i. then_try (collect_results rs) (λ ps. ok (map_new-sort_entries ps i))

  mutual
    unfolding unsorted prepare_for_encoding typeof

    prepare-unsorted : (t : Term F) → prepare_for_encoding M t ≡ unsorted t
    prepare-unsorted (map es) = λ i. then_try (pairs-unsorted es i) (λ rs. ok (collected rs i))
    prepare-unsorted (list ts) = λ i.
        then_try (terms-unsorted ts i)
          (λ rs. ok (then_try (collect_results rs) (λ xs. ok (list (of_list xs)))))
    prepare-unsorted (atom s) = refl
    prepare-unsorted (binary b) = refl
    prepare-unsorted (integer n) = refl
    prepare-unsorted (float x) = refl
    prepare-unsorted (tuple ts) = refl
    prepare-unsorted (reference n) = refl
    prepare-unsorted (other n) = refl

    terms-unsorted : (ts : Terms F) → prepare_terms M ts ≡ unsorted_terms ts
    terms-unsorted nil = refl
    terms-unsorted (cons t ts) = λ i.
        then_try (prepare-unsorted t i) (λ r. then_try (terms-unsorted ts i) (λ rs. ok (r ∷ rs)))

    pairs-unsorted : (es : Pairs F) → prepare_pairs M es ≡ unsorted_pairs es
    pairs-unsorted end = refl
    pairs-unsorted (pair k v es) = λ i. then_try (prepare-unsorted v i) (λ r.
        then_try (prepared_entry M k r) (λ e. then_try (pairs-unsorted es i) (λ rs. ok (e ∷ rs))))

  -- The result of prepare_for_encoding is the same for every term, errors and exceptions included, if the line
  -- that sorts the entries is left out: Map.new, which follows it, forgets the order.
  pub prepare_for_encoding-unsorted : (t : Term F) → prepare_for_encoding M t ≡ unsorted t
  prepare_for_encoding-unsorted t = prepare-unsorted t
