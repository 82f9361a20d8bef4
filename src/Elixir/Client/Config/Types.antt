-- ===== src/Elixir/Client/Config/Types.antt =====
-- The converters that the environment can ask for.
use sdk_elixir.Base.{
  Bool-cases, ◌≡◌, refl, ◌⊎◌, inl, inr, arith, All, List, [], ◌∷◌, Option, none, some,
}
use sdk_elixir.Base.Utf8.{Bytes}
use sdk_elixir.Elixir.Term.{Machine}
use sdk_elixir.Elixir.Client.Config.Resolve.{
  ConverterType, nil_type, binary_type, json_type, protobuf_type, custom_type,
}
use sdk_elixir.Elixir.Client.Config.Parse.{
  is_text, lowered, parse_converter_type, reject_nil, parse_types, parse_payload_converter,
  split_onto,
}

-- `:binary` or `:json`.
abbrev pub IsPlain : ConverterType → Type 0
IsPlain t = (t ≡ binary_type) ⊎ (t ≡ json_type)

abbrev IsPlainOrNil : ConverterType → Type 0
IsPlainOrNil t = (t ≡ nil_type) ⊎ IsPlain t

-- The named types of a list.
abbrev pub Plain : Option (List ConverterType) → Type 0
Plain none = Unit
Plain (some ts) = All IsPlain ts

parse_converter_type-plain : (b : Bytes) → IsPlainOrNil (parse_converter_type b)
unfolding parse_converter_type
parse_converter_type-plain b = elim (Bool-cases (is_text b "binary")) [
  | inl e ↦ rw e (inr (inl refl))
  | inr e ↦ elim (Bool-cases (is_text b "json")) [
    | inl k ↦ rw (e, k) (inr (inr refl))
    | inr k ↦ rw (e, k) (inl refl)
  ]
]

reject_nil-plain : (ts : List ConverterType) → All IsPlainOrNil ts → All IsPlain (reject_nil ts)
unfolding reject_nil
reject_nil-plain [] a = tt
reject_nil-plain (nil_type ∷ ts) a = reject_nil-plain ts a.1
reject_nil-plain (binary_type ∷ ts) a = (inl refl, reject_nil-plain ts a.1)
reject_nil-plain (json_type ∷ ts) a = (inr refl, reject_nil-plain ts a.1)
reject_nil-plain (protobuf_type ∷ ts) (inl h, a) = absurd (ground arith)
reject_nil-plain (protobuf_type ∷ ts) (inr (inl h), a) = absurd (ground arith)
reject_nil-plain (protobuf_type ∷ ts) (inr (inr h), a) = absurd (ground arith)
reject_nil-plain (custom_type n ∷ ts) (inl h, a) = absurd (ground arith)
reject_nil-plain (custom_type n ∷ ts) (inr (inl h), a) = absurd (ground arith)
reject_nil-plain (custom_type n ∷ ts) (inr (inr h), a) = absurd (ground arith)

module _ {F : Type 0} (M : Machine F) where
  parse_types-plain : (bs : List Bytes) → All IsPlainOrNil (parse_types M bs)
  unfolding parse_types
  parse_types-plain [] = tt
  parse_types-plain (b ∷ bs) = (parse_converter_type-plain (M.trim b), parse_types-plain bs)

  -- Whatever TEMPORAL_PAYLOAD_CONVERTER holds, or if it is not set: the result is :default, or a list
  -- of :binary and :json alone; never of nil or :protobuf.
  pub parse_payload_converter-Plain : (v : Option Bytes) → Plain (parse_payload_converter M v)
  unfolding parse_payload_converter
  parse_payload_converter-Plain none = tt
  parse_payload_converter-Plain (some b) = elim (Bool-cases (is_text (lowered M b) "default")) [
    | inl e ↦ rw e tt
    | inr e ↦ elim (Bool-cases (is_text (lowered M b) "json")) [
      | inl k ↦ rw (e, k) (inr refl, tt)
      | inr k ↦
          rw (e, k)
            (reject_nil-plain (parse_types M (split_onto [] (lowered M b)))
              (parse_types-plain (split_onto [] (lowered M b))))
    ]
  ]
