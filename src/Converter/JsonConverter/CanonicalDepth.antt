-- ===== src/Converter/JsonConverter/CanonicalDepth.antt =====
-- How deep the canonical form nests.
use sdk_elixir.Base.{suc, ◌≡◌, refl, ◌∙◌, ap, ap₂, max, String, str_lt, Bool-cases, inl, inr, arith}
use sdk_elixir.Json.{Value, Items, Fields, null, bool, num, str, arr, obj, nil, cons, end, field}
use sdk_elixir.Json.Keys.{sort_by_key, insert_sorted}
use sdk_elixir.Json.Depth.{depth, depth_items, depth_fields}
use sdk_elixir.Converter.{Codecs}
use sdk_elixir.Converter.JsonConverter.Canonical.{canonical, canonical_items, canonical_fields}
use sdk_elixir.Converter.JsonConverter.Normal.{
  CollectsInOrder, IsProper, AreProperItems, AreProperFields, collect_sorted,
}

module _ {N : Type 0} where
  depth_fields-insert_sorted :
      (k : String) (v : Value N) (fs : Fields N)
      → depth_fields (insert_sorted k v fs) ≡ max (depth v) (depth_fields fs)
  unfolding insert_sorted depth
  depth_fields-insert_sorted k v end = refl
  depth_fields-insert_sorted k v (field j w fs) = elim (Bool-cases (str_lt j k)) [
    | inl e ↦ rw (e, depth_fields-insert_sorted k v fs) (omega arith)
    | inr e ↦ rw e
  ]

  depth_fields-sort_by_key : (fs : Fields N) → depth_fields (sort_by_key fs) ≡ depth_fields fs
  unfolding sort_by_key depth
  depth_fields-sort_by_key end = refl
  depth_fields-sort_by_key (field k v fs) =
      depth_fields-insert_sorted k v (sort_by_key fs)
      ∙ ap (max (depth v)) (depth_fields-sort_by_key fs)

module _ (C : Codecs) (law : CollectsInOrder C) where
  mutual
    unfolding canonical depth IsProper

    depth_of : (v : Value C.Number) → IsProper v → depth (canonical C v) ≡ depth v
    depth_of null p = refl
    depth_of (bool b) p = refl
    depth_of (num n) p = refl
    depth_of (str s) p = refl
    depth_of (arr xs) p = ap suc (depth_items_of xs p)
    depth_of (obj fs) p =
        rw (collect_sorted C law fs p.0, depth_fields-sort_by_key) (ap suc (depth_fields_of fs p.1))

    depth_items_of :
        (xs : Items C.Number)
        → AreProperItems xs
        → depth_items (canonical_items C xs) ≡ depth_items xs
    depth_items_of nil p = refl
    depth_items_of (cons x xs) p = ap₂ max (depth_of x p.0) (depth_items_of xs p.1)

    depth_fields_of :
        (fs : Fields C.Number)
        → AreProperFields fs
        → depth_fields (canonical_fields C fs) ≡ depth_fields fs
    depth_fields_of end p = refl
    depth_fields_of (field k v fs) p = ap₂ max (depth_of v p.0) (depth_fields_of fs p.1)

  pub depth-canonical : (v : Value C.Number) → IsProper v → depth (canonical C v) ≡ depth v
  depth-canonical v p = depth_of v p
