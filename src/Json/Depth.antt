-- ===== src/Json/Depth.antt =====
-- How deep a JSON value nests: a scalar has depth 1.
use sdk_elixir.Base.{ℕ, suc, max}
use sdk_elixir.Json.{Value, Items, Fields, arr, obj, nil, cons, end, field}

module _ {N : Type 0} where
  unfoldable mutual
    pub depth : Value N → ℕ
    depth (arr xs) = suc (depth_items xs)
    depth (obj fs) = suc (depth_fields fs)
    depth v = 1

    pub depth_items : Items N → ℕ
    depth_items nil = 0
    depth_items (cons x xs) = max (depth x) (depth_items xs)

    pub depth_fields : Fields N → ℕ
    depth_fields end = 0
    depth_fields (field k v fs) = max (depth v) (depth_fields fs)
