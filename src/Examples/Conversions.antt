-- ===== src/Examples/Conversions.antt =====
-- The theorems on the converters, at concrete values.

use sdk_elixir.Base.{ℕ, ◌≡◌, ◌≢◌, refl, inl, inr, arith, String, ok, err, [], ◌∷◌, All, true, false}
use sdk_elixir.Json.{Value, null, num, str, obj, end, field}
use sdk_elixir.Converter.{Payload}
use sdk_elixir.Base.Dict
use sdk_elixir.Base.Utf8.{bytes}
use sdk_elixir.Converter.Composite
use sdk_elixir.Converter.Composite.{Converters, default}
use sdk_elixir.Converter.Composite.Order.{new_sorts}
use sdk_elixir.Base.Stable.{IsStableSort}
use sdk_elixir.Converter.Composite.Chain.{to_payload_first, Skips}
use sdk_elixir.Converter.Composite.BuiltIn.{IsBuiltIn, json_payload}
use sdk_elixir.Converter.Composite.RoundTrip.{from_payload-to_payload}
use sdk_elixir.Converter.JsonConverter
use sdk_elixir.Converter.NilConverter
use sdk_elixir.Converter.JsonConverter.{JsonConverter}
use sdk_elixir.Base.{Bool, ap, ◌==◌, ◌+◌, ◌↔◌}
use sdk_elixir.Json.Keys.{sort_by_key}
use sdk_elixir.Json.Depth.{depth}
use sdk_elixir.Converter.{ConversionError, depth_limit_exceeded, no_converter_found}
use sdk_elixir.Converter.JsonConverter.Canonical.{
  canonical, serialize_canonical-SameValue, same_obj, swap,
}
use sdk_elixir.Converter.JsonConverter.Normal.{
  IsProper, IsCanonical, canonicalize_value-IsCanonical,
}
use sdk_elixir.Converter.JsonConverter.Numbers.{AllNumbers}
use sdk_elixir.Converter.JsonConverter.Depth.{within, validate_depth_lem}
use sdk_elixir.Converter.Composite.Chain.{FirstMakes}
use sdk_elixir.Converter.Composite.BuiltIn.{nil_payload, binary_payload}
use sdk_elixir.Converter.Composite.Default.{expected, to_payload-default}
use sdk_elixir.Converter.Composite.Unknown.{IsForeign, from_payload-IsForeign}
use sdk_elixir.Examples.Codec.{codec, codec-IsLawful}

abbrev pub unsorted : Value ℕ
unsorted = obj (field "b" (num 1) (field "a" (num 2) end))

abbrev pub sorted : Value ℕ
sorted = obj (field "a" (num 2) (field "b" (num 1) end))

abbrev pub chain : Converters ℕ
chain =
    JsonConverter.converter codec (record { max_depth = 5; sort_keys = true })
    ∷ NilConverter.converter
    ∷ []

pub chain-IsBuiltIn : All (IsBuiltIn codec) chain
chain-IsBuiltIn = (inr (inr (5, omega arith, refl)), (inl refl, tt))

abbrev pub sorted_payload : Payload
sorted_payload = json_payload codec (123 ∷ 2 ∷ 1 ∷ [])

pub chain_makes : Composite.to_payload chain unsorted ≡ ok sorted_payload
unfolding Composite.to_payload JsonConverter.to_payload JsonConverter.to_deterministic_json
    json_payload JsonConverter.validate_depth JsonConverter.canonicalize_value sort_by_key
chain_makes = refl

false≢true : ◌≢◌ {A = Bool} false true
false≢true h = cc

pub b≢a : ◌≢◌ {A = String} "b" "a"
b≢a h = false≢true (ap (λ s. s == "a") h)

pub unsorted-IsProper : IsProper unsorted
unfolding IsProper
unsorted-IsProper = (((b≢a, tt), (tt, tt)), (tt, (tt, tt)))

pub unsorted-AllNumbers : AllNumbers (λ (n : ℕ). codec-IsLawful.is_f64 n ≡ false) unsorted
unfolding AllNumbers
unsorted-AllNumbers = (refl, (refl, tt))

pub unsorted_sorts : canonical codec unsorted ≡ sorted
unfolding canonical sort_by_key
unsorted_sorts = refl

from_payload-to_payload_example :
    Composite.from_payload chain sorted_payload ≡ ok (canonical codec unsorted)
from_payload-to_payload_example =
    from_payload-to_payload codec codec-IsLawful unsorted sorted_payload unsorted-IsProper
      unsorted-AllNumbers chain chain-IsBuiltIn chain_makes

null-IsProper : IsProper {N = ℕ} null
unfolding IsProper
null-IsProper = tt

null-AllNumbers : AllNumbers (λ (n : ℕ). codec-IsLawful.is_f64 n ≡ false) null
unfolding AllNumbers
null-AllNumbers = tt

-- A list of two values.
made_list :
    Composite.to_payloads chain (unsorted ∷ null ∷ [])
    ≡ ok (sorted_payload ∷ nil_payload codec ∷ [])
unfolding Composite.to_payloads Composite.to_payload JsonConverter.to_payload
    NilConverter.to_payload nil_payload
made_list = rw (chain_makes, Composite.to_payloads) refl

-- Every order of the entries gives the same bytes.
serialize_canonical-SameValue_example :
    JsonConverter.serialize_canonical codec unsorted
    ≡ JsonConverter.serialize_canonical codec sorted
serialize_canonical-SameValue_example =
    serialize_canonical-SameValue codec unsorted sorted
      (same_obj (swap "b" "a" (num 1) (num 2) end b≢a))

canonicalized : JsonConverter.canonicalize_value codec unsorted ≡ ok sorted
unfolding JsonConverter.canonicalize_value sort_by_key
canonicalized = refl

canonicalize_value-IsCanonical_example :
    IsCanonical sorted × (JsonConverter.canonicalize_value codec sorted ≡ ok sorted)
canonicalize_value-IsCanonical_example =
    canonicalize_value-IsCanonical codec codec-IsLawful.collects unsorted sorted unsorted-IsProper
      canonicalized

validate_depth_lem_example :
    JsonConverter.validate_depth 3 unsorted 2 ≡ within 3 (depth unsorted + 2)
validate_depth_lem_example = validate_depth_lem 3 unsorted 2

-- One level too deep.
too_deep : JsonConverter.validate_depth 3 unsorted 2 ≡ err (depth_limit_exceeded 3)
unfolding JsonConverter.validate_depth
too_deep = refl

to_payload_first_example :
    ((p : Payload) → (Composite.to_payload chain null ≡ ok p) ↔ FirstMakes null p chain)
    × ((Composite.to_payload chain null ≡ err no_converter_found) ↔ All (Skips null) chain)
    × ((e : ConversionError) → Composite.to_payload chain null ≡ err e → e ≡ no_converter_found)
to_payload_first_example = to_payload_first null chain

to_payload-default_example :
    Composite.to_payload (default codec) (str "aGk=") ≡ expected codec (str "aGk=")
to_payload-default_example = to_payload-default codec (str "aGk=")

goes_as_bytes : expected codec (str "aGk=") ≡ ok (binary_payload codec (104 ∷ 105 ∷ []))
goes_as_bytes = refl

-- A payload without a label.
abbrev stray : Payload
stray = record { metadata = []; contents = [] }

stray-IsForeign : IsForeign stray
unfolding Dict.get bytes
stray-IsForeign = ((λ e. cc), (λ e. cc), (λ e. cc))

from_payload-IsForeign_example : Composite.from_payload chain stray ≡ err no_converter_found
from_payload-IsForeign_example =
    from_payload-IsForeign codec stray stray-IsForeign chain chain-IsBuiltIn

new_sorts_example : IsStableSort (λ c. c.priority) (Composite.new chain) chain
new_sorts_example = new_sorts chain
