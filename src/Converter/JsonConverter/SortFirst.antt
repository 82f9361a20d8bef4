-- ===== src/Converter/JsonConverter/SortFirst.antt =====
-- `canonicalize_value` in the order of the source: the sort first.
use sdk_elixir.Base.{◌≡◌, refl, ap, ◌∙◌, sym, ok, then_try}
use sdk_elixir.Json.{Fields, end, field, obj}
use sdk_elixir.Json.Keys.{sort_by_key, map_values, map_values-sort_by_key}
use sdk_elixir.Converter.{Codecs}
use sdk_elixir.Converter.JsonConverter.{canonicalize_value, canonicalize_fields}
use sdk_elixir.Converter.JsonConverter.Canonical.{
  canonical, canonical_fields, canonicalize_value-ok, canonicalize_fields-ok,
}

module _ (C : Codecs) where
  canonical_fields-eq-map_values :
      (fs : Fields C.Number) → canonical_fields C fs ≡ map_values (canonical C) fs
  unfolding canonical map_values
  canonical_fields-eq-map_values end = refl
  canonical_fields-eq-map_values (field k v fs) =
      ap (field k (canonical C v)) (canonical_fields-eq-map_values fs)

  canonical_fields-sort_by_key :
      (fs : Fields C.Number)
      → canonical_fields C (sort_by_key fs) ≡ sort_by_key (canonical_fields C fs)
  canonical_fields-sort_by_key fs =
      canonical_fields-eq-map_values (sort_by_key fs)
      ∙ map_values-sort_by_key (canonical C) fs
      ∙ ap sort_by_key (sym (canonical_fields-eq-map_values fs))

  -- On an object, `canonicalize_value` gives the same whether its entries are sorted before their
  -- values are canonicalised, as the source does it, or after.
  pub canonicalize_value-sort_by_key :
      (fs : Fields C.Number)
      → canonicalize_value C (obj fs)
        ≡ then_try (canonicalize_fields C (sort_by_key fs)) (λ gs. ok (obj (C.collect_map gs)))
  unfolding canonical
  canonicalize_value-sort_by_key fs = rw (
    canonicalize_value-ok C (obj fs),
    canonicalize_fields-ok C (sort_by_key fs),
    canonical_fields-sort_by_key fs,
  )
