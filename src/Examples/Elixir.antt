-- ===== src/Examples/Elixir.antt =====
-- The converters of the Elixir library at concrete terms.
use sdk_elixir.Base.{ℕ, String, ◌≡◌, refl, inl, inr, ◌↔◌, ok, err, map_err, [], ◌∷◌, All, Any}
use sdk_elixir.Base.Dict
use sdk_elixir.Base.Int.{pos}
use sdk_elixir.Base.Utf8.{bytes}
use sdk_elixir.Base.Stable.{IsStableSort}
use sdk_elixir.Converter.{Payload}
use sdk_elixir.Converter.JsonConverter as Rust
use sdk_elixir.Json.{Value, num, arr, nil, cons}
use sdk_elixir.Nif.Payload.{term_to_payload}
use sdk_elixir.Elixir.Term.{Term, atom, integer, map, end, pair}
use sdk_elixir.Elixir.PayloadConverter.BuiltIn.{Struct, dispatch, dispatch_all, default_structs}
use sdk_elixir.Elixir.PayloadConverter.JsonConverter
use sdk_elixir.Elixir.PayloadConverter.JsonConverter.{
  prepare_for_encoding, validate_depth, json_payload,
}
use sdk_elixir.Elixir.PayloadConverter.JsonConverter.Unsorted.{
  unsorted, prepare_for_encoding-unsorted,
}
use sdk_elixir.Elixir.PayloadConverter.JsonConverter.SameDepth.{
  value_term, reason_of, Numbers, validate_depth-value_term,
}
use sdk_elixir.Elixir.PayloadConverter.Chain.{
  Converters, Failure, no_converter_for, to_payload, from_payload,
}
use sdk_elixir.Elixir.PayloadConverter.Chain.First.{FirstMakes, Skips, to_payload-FirstMakes}
use sdk_elixir.Elixir.PayloadConverter.Chain.Labels.{read_content, IsBuiltIn}
use sdk_elixir.Elixir.PayloadConverter.Chain.Reading.{answer, from_payload_labelled}
use sdk_elixir.Elixir.PayloadConverter.Chain.RoundTrip.{StandsFor, from_payload-StandsFor}
use sdk_elixir.Elixir.Client.Params.{payload_term}
use sdk_elixir.Elixir.Bridge.Made.{term_to_payload-to_payload}
use sdk_elixir.Examples.Erlang.{machine, machine-IsLawful}
use sdk_elixir.Examples.Rustler.{erlang}
use sdk_elixir.Examples.Carried.{carries}

-- %{"a" => 7}, and the payload that the default chain makes of it.
abbrev pub entry_term : Term ℕ
entry_term = map (pair (atom "a") (integer (pos 7)) end)

abbrev pub entry_payload : Payload
unfolding json_payload bytes
entry_payload = json_payload (123 ∷ 7 ∷ 97 ∷ [])

default_IsBuiltIn : All IsBuiltIn (default_structs {F = ℕ})
unfolding default_structs
default_IsBuiltIn = (tt, (tt, (tt, (tt, tt))))

entry_made : to_payload entry_term (dispatch_all machine default_structs) ≡ ok entry_payload
unfolding to_payload default_structs dispatch_all
entry_made = refl

prepare_for_encoding-unsorted_example :
    prepare_for_encoding machine entry_term ≡ unsorted machine entry_term
prepare_for_encoding-unsorted_example = prepare_for_encoding-unsorted machine entry_term

from_payload-StandsFor_example :
    (u : Term ℕ) × (from_payload entry_payload (dispatch_all machine default_structs) ≡ ok (ok u))
    × StandsFor machine entry_term entry_payload u
from_payload-StandsFor_example =
    from_payload-StandsFor machine machine-IsLawful default_structs entry_term entry_payload
      default_IsBuiltIn entry_made

abbrev default_converters : Converters ℕ
default_converters = dispatch_all machine default_structs

to_payload-FirstMakes_example :
    (ds : Converters ℕ) × IsStableSort (λ c. c.priority) ds default_converters
    × ((p : Payload)
        → (to_payload entry_term default_converters ≡ ok p) ↔ FirstMakes entry_term p ds)
    × ((to_payload entry_term default_converters ≡ err (no_converter_for entry_term))
        ↔ All (Skips entry_term) ds)
    × ((e : Failure (Term ℕ))
        → to_payload entry_term default_converters ≡ err e
        → e ≡ no_converter_for entry_term)
to_payload-FirstMakes_example = to_payload-FirstMakes entry_term default_converters

json_is_last :
    Any (λ (s : Struct ℕ). (dispatch machine s).encoding ≡ bytes "json/plain") default_structs
unfolding default_structs dispatch JsonConverter.converter
json_is_last = inr (inr (inr (inl refl)))

from_payload_labelled_example :
    from_payload entry_payload (dispatch_all machine default_structs)
    ≡ ok (answer entry_payload (read_content machine (bytes "json/plain") entry_payload))
from_payload_labelled_example =
    from_payload_labelled machine entry_payload default_structs (bytes "json/plain")
      default_IsBuiltIn (unfold Dict.get json_payload in refl) json_is_last

term_to_payload-to_payload_example :
    (q : Payload) × (term_to_payload erlang (carries.embed (payload_term machine entry_payload))
      ≡ ok q)
    × (q.contents ≡ entry_payload.contents)
    × ((j : String) → Dict.get j q.metadata ≡ Dict.get j entry_payload.metadata)
term_to_payload-to_payload_example =
    term_to_payload-to_payload machine erlang carries default_structs entry_term entry_payload
      default_IsBuiltIn entry_made

-- [7], where 7 is an integer.
abbrev as_integers : Numbers ℕ ℕ
as_integers n = inl (pos n)

abbrev seven_list : Value ℕ
seven_list = arr (cons (num 7) nil)

validate_depth-value_term_example :
    validate_depth 1 (value_term as_integers seven_list) 0
    ≡ map_err reason_of (Rust.validate_depth 1 seven_list 0)
validate_depth-value_term_example = validate_depth-value_term as_integers 1 seven_list 0
