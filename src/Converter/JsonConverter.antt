-- ===== src/Converter/JsonConverter.antt =====
-- `JsonConverter`: the depth check, the canonical form, and the two conversions.
pub mod Depth
pub mod Canonical
pub mod Normal
pub mod CanonicalDepth
pub mod Numbers
pub mod SortFirst
use sdk_elixir.Base.{
  ℕ, ◌+◌, leb, if◌then◌else◌, String, Bool, true, Option, none, some, Result, ok, err, then_try,
  map_err, [],
}
use sdk_elixir.Base.Dict
use sdk_elixir.Base.Dict.{Dict}
use sdk_elixir.Base.Utf8.{Bytes, bytes}
use sdk_elixir.Json.{Value, Items, Fields, arr, obj, nil, cons, end, field, is_null}
use sdk_elixir.Json.Keys.{sort_by_key}
use sdk_elixir.Converter.{
  ConversionError, serialization_failed, depth_limit_exceeded, deserialization_failed, Payload,
  Codecs, PayloadConverter,
}
use sdk_elixir.Converter.Basic.{has_encoding}

-- `struct JsonConverter`
pub record JsonConverter : Type 0 where
  pub max_depth : ℕ
  pub sort_keys : Bool

module _ {N : Type 0} (max_depth : ℕ) where
  -- The loops over the items and over the values of the entries stop at the first error.
  unfoldable mutual
    pub validate_depth : Value N → ℕ → Result (Unit {0}) ConversionError
    validate_depth (arr xs) current =
        if leb max_depth current
        then err (depth_limit_exceeded max_depth)
        else validate_items xs current
    validate_depth (obj fs) current =
        if leb max_depth current
        then err (depth_limit_exceeded max_depth)
        else validate_fields fs current
    validate_depth v current =
        if leb max_depth current then err (depth_limit_exceeded max_depth) else ok tt

    pub validate_items : Items N → ℕ → Result (Unit {0}) ConversionError
    validate_items nil current = ok tt
    validate_items (cons x xs) current =
        then_try (validate_depth x (current + 1)) (λ _. validate_items xs current)

    pub validate_fields : Fields N → ℕ → Result (Unit {0}) ConversionError
    validate_fields end current = ok tt
    validate_fields (field k v fs) current =
        then_try (validate_depth v (current + 1)) (λ _. validate_fields fs current)

-- The metadata that the converter writes.
unfoldable pub json_metadata : Dict Bytes
unfolding Dict.insert bytes
json_metadata = Dict.insert "sdk" (bytes "elixir") (
    Dict.insert "contentType" (bytes "application/json")
      (Dict.insert "encoding" (bytes "json/plain") []))

module _ (C : Codecs) where
  -- The source sorts the references to the entries and then canonicalises each value. Here the values
  -- are canonicalised first, which makes the recursion structural; Converter/JsonConverter/SortFirst.antt
  -- compares the two.
  unfoldable mutual
    pub canonicalize_value : Value C.Number → Result (Value C.Number) ConversionError
    canonicalize_value (obj fs) =
        then_try (canonicalize_fields fs) (λ gs. ok (obj (C.collect_map (sort_by_key gs))))
    canonicalize_value (arr xs) = then_try (canonicalize_items xs) (λ ys. ok (arr ys))
    canonicalize_value v = ok v

    pub canonicalize_items : Items C.Number → Result (Items C.Number) ConversionError
    canonicalize_items nil = ok nil
    canonicalize_items (cons x xs) =
        then_try (canonicalize_value x)
          (λ y. then_try (canonicalize_items xs) (λ ys. ok (cons y ys)))

    pub canonicalize_fields : Fields C.Number → Result (Fields C.Number) ConversionError
    canonicalize_fields end = ok end
    canonicalize_fields (field k v fs) =
        then_try (canonicalize_value v)
          (λ w. then_try (canonicalize_fields fs) (λ gs. ok (field k w gs)))

  unfoldable pub serialize_canonical : Value C.Number → Result Bytes ConversionError
  serialize_canonical v =
      then_try (canonicalize_value v) (λ w. map_err serialization_failed (C.to_vec w))

  unfoldable pub to_deterministic_json :
      JsonConverter → Value C.Number → Result Bytes ConversionError
  unfolding serialize_canonical
  to_deterministic_json j v =
      if j.sort_keys then serialize_canonical v else map_err serialization_failed (C.to_vec v)

  unfoldable pub to_payload :
      JsonConverter → Value C.Number → Result (Option Payload) ConversionError
  unfolding json_metadata
  to_payload j v =
      if is_null v
      then ok none
      else then_try (validate_depth j.max_depth v 0) (λ _.
        then_try (to_deterministic_json j v)
          (λ json_bytes. ok (some (record { metadata = json_metadata; contents = json_bytes }))))

  unfoldable pub from_payload : Payload → Result (Option (Value C.Number)) ConversionError
  unfolding has_encoding
  from_payload p =
      if has_encoding "json/plain" p
      then then_try (map_err deserialization_failed (C.from_slice p.contents)) (λ v. ok (some v))
      else ok none

  -- `JsonConverter::new(max_depth, sort_keys)` as a trait object.
  abbrev pub converter : JsonConverter → PayloadConverter C.Number
  converter j = record {
    to_payload = to_payload j;
    from_payload = from_payload;
    encoding = "json/plain";
    priority = 100;
    can_convert = λ _. true;
  }
