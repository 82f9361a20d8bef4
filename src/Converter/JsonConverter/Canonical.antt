-- ===== src/Converter/JsonConverter/Canonical.antt =====
-- The canonical form as a total function, and values that differ in the order of entries.
use sdk_elixir.Base.{◌≡◌, refl, ◌≢◌, ap, ap₂, ◌∙◌, String, sym, ok, map_err}
use sdk_elixir.Json.{Value, Items, Fields, null, bool, num, str, arr, obj, nil, cons, end, field}
use sdk_elixir.Json.Keys.{sort_by_key, insert_sorted, insert_sorted_comm}
use sdk_elixir.Converter.{serialization_failed, Codecs}
use sdk_elixir.Converter.JsonConverter.{
  canonicalize_value, canonicalize_items, canonicalize_fields, serialize_canonical,
}

module _ (C : Codecs) where
  -- The canonical form, as a total function.
  unfoldable mutual
    pub canonical : Value C.Number → Value C.Number
    canonical (obj fs) = obj (C.collect_map (sort_by_key (canonical_fields fs)))
    canonical (arr xs) = arr (canonical_items xs)
    canonical v = v

    pub canonical_items : Items C.Number → Items C.Number
    canonical_items nil = nil
    canonical_items (cons x xs) = cons (canonical x) (canonical_items xs)

    pub canonical_fields : Fields C.Number → Fields C.Number
    canonical_fields end = end
    canonical_fields (field k v fs) = field k (canonical v) (canonical_fields fs)

  mutual
    unfolding canonicalize_value canonical

    pub canonicalize_value-ok : (v : Value C.Number) → canonicalize_value C v ≡ ok (canonical v)
    canonicalize_value-ok null = refl
    canonicalize_value-ok (bool b) = refl
    canonicalize_value-ok (num n) = refl
    canonicalize_value-ok (str s) = refl
    canonicalize_value-ok (arr xs) = rw (canonicalize_items-ok xs)
    canonicalize_value-ok (obj fs) = rw (canonicalize_fields-ok fs)

    canonicalize_items-ok :
        (xs : Items C.Number) → canonicalize_items C xs ≡ ok (canonical_items xs)
    canonicalize_items-ok nil = refl
    canonicalize_items-ok (cons x xs) = rw (canonicalize_value-ok x, canonicalize_items-ok xs)

    pub canonicalize_fields-ok :
        (fs : Fields C.Number) → canonicalize_fields C fs ≡ ok (canonical_fields fs)
    canonicalize_fields-ok end = refl
    canonicalize_fields-ok (field k v fs) = rw (canonicalize_value-ok v, canonicalize_fields-ok fs)

  -- The bytes of a canonical serialisation are those of the canonical form.
  pub serialize_canonical_lem :
      (v : Value C.Number)
      → serialize_canonical C v ≡ map_err serialization_failed (C.to_vec (canonical v))
  unfolding serialize_canonical
  serialize_canonical_lem v = rw (canonicalize_value-ok v)

-- Two values that differ at most in the order of entries with different keys, at any depth.
mutual
  pub data SameValue {N : Type 0} : Value N → Value N → Type 0 where
    same : (v : Value N) → SameValue v v
    same_arr : {xs ys : Items N} → SameItems xs ys → SameValue (arr xs) (arr ys)
    same_obj : {fs gs : Fields N} → SameFields fs gs → SameValue (obj fs) (obj gs)

  pub data SameItems {N : Type 0} : Items N → Items N → Type 0 where
    same_nil : SameItems nil nil
    same_cons :
        {x y : Value N} {xs ys : Items N}
        → SameValue x y
        → SameItems xs ys
        → SameItems (cons x xs) (cons y ys)

  pub data SameFields {N : Type 0} : Fields N → Fields N → Type 0 where
    same_end : SameFields end end
    keep :
        (k : String) {v w : Value N} {fs gs : Fields N}
        → SameValue v w
        → SameFields fs gs
        → SameFields (field k v fs) (field k w gs)
    swap :
        (k j : String) (v w : Value N) (fs : Fields N)
        → k ≢ j
        → SameFields (field k v (field j w fs)) (field j w (field k v fs))
    both : {fs gs hs : Fields N} → SameFields fs gs → SameFields gs hs → SameFields fs hs

module _ (C : Codecs) where
  mutual
    unfolding canonical sort_by_key

    SameValue-canonical : {v w : Value C.Number} → SameValue v w → canonical C v ≡ canonical C w
    SameValue-canonical (same v) = refl
    SameValue-canonical (same_arr s) = ap arr (SameItems-canonical s)
    SameValue-canonical (same_obj s) = ap (λ gs. obj (C.collect_map gs)) (SameFields-canonical s)

    SameItems-canonical :
        {xs ys : Items C.Number} → SameItems xs ys → canonical_items C xs ≡ canonical_items C ys
    SameItems-canonical same_nil = refl
    SameItems-canonical (same_cons h s) = ap₂ cons (SameValue-canonical h) (SameItems-canonical s)

    SameFields-canonical :
        {fs gs : Fields C.Number}
        → SameFields fs gs
        → sort_by_key (canonical_fields C fs) ≡ sort_by_key (canonical_fields C gs)
    SameFields-canonical same_end = refl
    SameFields-canonical (keep k h s) =
        ap₂ (insert_sorted k) (SameValue-canonical h) (SameFields-canonical s)
    SameFields-canonical (swap k j v w fs h) = insert_sorted_comm k j _ _ _ h
    SameFields-canonical (both s t) = SameFields-canonical s ∙ SameFields-canonical t

  -- Two values that differ only in the order in which their objects list entries with different
  -- keys, at any depth, are serialised to the same bytes, or fail with the same error.
  pub serialize_canonical-SameValue :
      (v w : Value C.Number) → SameValue v w → serialize_canonical C v ≡ serialize_canonical C w
  serialize_canonical-SameValue v w s =
      serialize_canonical_lem C v
      ∙ ap (λ u. map_err serialization_failed (C.to_vec u)) (SameValue-canonical s)
      ∙ sym (serialize_canonical_lem C w)
