-- ===== src/Elixir/PayloadConverter/Chain/Reading.antt =====
-- What a chain of the library's converters makes of any payload.
use sdk_elixir.Base.{
  String, false, Bool-cases, ◌≡◌, ◌≢◌, refl, ◌∙◌, sym, ap, ◌⊎◌, inl, inr, arith, All, Any, List, [],
  ◌∷◌, none, some, Option-cases, Result, ok, err, unwrap_or,
}
use sdk_elixir.Base.Utf8.{Bytes, bytes, bytes_eq, bytes_eq_refl, bytes_eq→eq}
use sdk_elixir.Converter.{Payload}
use sdk_elixir.Elixir.Term.{Term, Machine}
use sdk_elixir.Elixir.PayloadConverter.{PayloadConverter, Outcome, made, failed, skip, has_encoding}
use sdk_elixir.Elixir.PayloadConverter.BuiltIn.{
  Struct, nil_struct, protobuf_struct, binary_struct, json_struct, custom_struct, dispatch,
  dispatch_all,
}
use sdk_elixir.Elixir.PayloadConverter.NilConverter
use sdk_elixir.Elixir.PayloadConverter.BinaryConverter
use sdk_elixir.Elixir.PayloadConverter.JsonConverter
use sdk_elixir.Elixir.PayloadConverter.ProtobufConverter
use sdk_elixir.Elixir.PayloadConverter.Chain.{
  Converters, Failure, no_converter_found, conversion_failed, select_converter_by_encoding,
  try_converters_for_payload, convert_selected, convert_single_payload, from_payload,
}
use sdk_elixir.Elixir.PayloadConverter.Chain.Labels.{
  IsBuiltIn, label, read_content, read_content-dispatch, read_content_answers,
}

-- What the converters of the library write as labels.
abbrev pub labels : List String
labels = "binary/null" ∷ "binary/plain" ∷ "json/plain" ∷ "proto/binary" ∷ "proto/json" ∷ []

-- A payload without a label, or with a label that none of the library's converters writes.
abbrev pub IsForeign : Payload → Type 0
IsForeign p = All (λ name. label p ≢ some (bytes name)) labels

-- The answer to an outcome, which is not `:skip`.
abbrev pub answer : {F : Type 0} → Payload → Outcome (Term F) → Result (Term F) (Failure Payload)
answer p (made t) = ok t
answer p (failed e) = err (conversion_failed e p)
answer p skip = err no_converter_found

foreign_encoding :
    (name : String) (p : Payload) → label p ≢ some (bytes name) → has_encoding name p ≡ false
unfolding has_encoding
foreign_encoding name p h = elim (Option-cases (label p)) [
  | inl e ↦ ground arith
  | inr (b, e) ↦ elim (Bool-cases (bytes_eq b (bytes name))) [
    | inl k ↦ absurd (h (e ∙ ap some (bytes_eq→eq b (bytes name) k)))
    | inr k ↦ ground arith
  ]
]

foreign_default :
    (name : String) (p : Payload)
    → label p ≢ some (bytes name)
    → bytes_eq [] (bytes name) ≡ false
    → bytes_eq (unwrap_or [] (label p)) (bytes name) ≡ false
foreign_default name p h z = elim (Option-cases (label p)) [
  | inl e ↦ rw e z
  | inr (b, e) ↦ rw e (elim (Bool-cases (bytes_eq b (bytes name))) [
    | inl k ↦ absurd (h (e ∙ ap some (bytes_eq→eq b (bytes name) k)))
    | inr k ↦ k
  ])
]

module _ {F : Type 0} (M : Machine F) (p : Payload) where
  foreign_skip :
      (s : Struct F) → IsBuiltIn s → IsForeign p → (dispatch M s).from_payload p ≡ ok skip
  unfolding dispatch NilConverter.from_payload BinaryConverter.from_payload
      JsonConverter.from_payload ProtobufConverter.from_payload NilConverter.converter
      BinaryConverter.converter JsonConverter.converter ProtobufConverter.converter
  foreign_skip nil_struct b f = rw (foreign_encoding "binary/null" p f.0) refl
  foreign_skip (binary_struct max_size) b f = rw (foreign_encoding "binary/plain" p f.1.0) refl
  foreign_skip (json_struct j) b f = rw (foreign_encoding "json/plain" p f.1.1.0) refl
  foreign_skip (protobuf_struct c) b f =
      rw
        (
          foreign_default "proto/binary" p f.1.1.1.0 (unfold bytes bytes_eq in refl),
          foreign_default "proto/json" p f.1.1.1.1.0 (unfold bytes bytes_eq in refl),
        )
        refl
  foreign_skip (custom_struct c) b f = elim b [ ]

  try_foreign :
      (ss : List (Struct F))
      → All IsBuiltIn ss
      → IsForeign p
      → try_converters_for_payload p (dispatch_all M ss) ≡ err no_converter_found
  unfolding try_converters_for_payload dispatch_all
  try_foreign [] b f = refl
  try_foreign (s ∷ ss) b f =
      rw (foreign_skip s b.0 f, try_converters_for_payload) (try_foreign ss b.1 f)

  -- Of the converters with the label, the first one is selected.
  abbrev Selected : Bytes → List (Struct F) → Type 0
  Selected e ss =
      (s : Struct F) × IsBuiltIn s
      × ((dispatch M s).encoding ≡ e)
      × (select_converter_by_encoding (dispatch_all M ss) e ≡ some (dispatch M s))

  -- A converter is selected, or none has the label.
  select-cases :
      (e : Bytes) (ss : List (Struct F))
      → All IsBuiltIn ss
      → Selected e ss
        ⊎ ((select_converter_by_encoding (dispatch_all M ss) e ≡ none)
            × All (λ s. (dispatch M s).encoding ≢ e) ss)
  unfolding select_converter_by_encoding dispatch_all
  select-cases e [] b = inr (refl, tt)
  select-cases e (s ∷ ss) b = elim (Bool-cases (bytes_eq (dispatch M s).encoding e)) [
    | inl k ↦ inl (s, b.0, bytes_eq→eq _ _ k, rw k refl)
    | inr k ↦ elim (select-cases e ss b.1) [
      | inl (s', b', q, h) ↦ inl (s', b', q, rw k h)
      | inr (h, a) ↦ inr (rw k h, ((λ q. ground (arith, bytes_eq_refl e)), a))
    ]
  ]

  try_from_payload :
      (e : Bytes) (s : Struct F) (cs : Converters F)
      → IsBuiltIn s
      → (dispatch M s).encoding ≡ e
      → label p ≡ some e
      → convert_selected p cs (dispatch M s) ≡ ok (answer p (read_content M e p))
  unfolding convert_selected
  try_from_payload e s cs b q h =
      go _ (read_content_answers M s p b) (read_content-dispatch M s p b k)
      ∙ ap (λ x. ok (answer p (read_content M x p))) q
    where
      k : label p ≡ some ((dispatch M s).encoding)
      k = h ∙ ap some (sym q)

      go :
          (r : Outcome (Term F))
          → r ≢ skip
          → (dispatch M s).from_payload p ≡ ok r
          → convert_selected p cs (dispatch M s) ≡ ok (answer p r)
      go (made t) n j = rw (j, convert_selected) refl
      go (failed x) n j = rw (j, convert_selected) refl
      go skip n j = absurd (n refl)

module _ {F : Type 0} (p : Payload) (cs : Converters F) where
  from_payload_unlabelled :
      label p ≡ none → from_payload p cs ≡ ok (try_converters_for_payload p cs)
  unfolding from_payload convert_single_payload
  from_payload_unlabelled h = rw (h, from_payload, convert_single_payload) refl

  from_payload_unselected :
      (e : Bytes)
      → label p ≡ some e
      → select_converter_by_encoding cs e ≡ none
      → from_payload p cs ≡ ok (try_converters_for_payload p cs)
  unfolding from_payload convert_single_payload
  from_payload_unselected e h k = rw (h, k, from_payload, convert_single_payload) refl

  from_payload_selected :
      (e : Bytes) (c : PayloadConverter F)
      → label p ≡ some e
      → select_converter_by_encoding cs e ≡ some c
      → from_payload p cs ≡ convert_selected p cs c
  unfolding from_payload convert_single_payload
  from_payload_selected e c h k = rw (h, k, from_payload, convert_single_payload) refl

module _ {F : Type 0} (M : Machine F) (p : Payload) (ss : List (Struct F)) where
  -- A payload whose label is that of a converter in a chain of the library's converters, in any order and
  -- with any options, is read as the label says, without an exception: content that does not decode is an
  -- error that names the reason and the payload.
  pub from_payload_labelled :
      (e : Bytes)
      → All IsBuiltIn ss
      → label p ≡ some e
      → Any (λ s. (dispatch M s).encoding ≡ e) ss
      → from_payload p (dispatch_all M ss) ≡ ok (answer p (read_content M e p))
  from_payload_labelled e b h a = elim (select-cases M p e ss b) [
    | inl (s, b', q, k) ↦
        from_payload_selected p _ e _ h k ∙ try_from_payload M p e s (dispatch_all M ss) b' q h
    | inr (k, n) ↦ absurd (All-Any ss n a)
  ]
    where
      All-Any :
          (ts : List (Struct F))
          → All (λ s. (dispatch M s).encoding ≢ e) ts
          → Any (λ s. (dispatch M s).encoding ≡ e) ts
          → ⊥
      All-Any [] n x = x
      All-Any (s ∷ ts) n (inl x) = n.0 x
      All-Any (s ∷ ts) n (inr x) = All-Any ts n.1 x

  -- A payload without a label, or with one that no converter of the library writes, is refused.
  from_payload_foreign :
      All IsBuiltIn ss
      → IsForeign p
      → from_payload p (dispatch_all M ss) ≡ ok (err no_converter_found)
  unfolding convert_selected
  from_payload_foreign b f = elim (Option-cases (label p)) [
    | inl h ↦ from_payload_unlabelled p _ h ∙ ap ok (try_foreign M p ss b f)
    | inr (e, h) ↦ elim (select-cases M p e ss b) [
      | inl (s, b', q, k) ↦
          from_payload_selected p _ e _ h k
          ∙ rw (foreign_skip M p s b' f, convert_selected) (ap ok (try_foreign M p ss b f))
      | inr (k, n) ↦ from_payload_unselected p _ e h k ∙ ap ok (try_foreign M p ss b f)
    ]
  ]

  -- No payload makes such a chain raise.
  from_payload_total :
      All IsBuiltIn ss
      → (r : Result (Term F) (Failure Payload)) × (from_payload p (dispatch_all M ss) ≡ ok r)
  from_payload_total b = elim (Option-cases (label p)) [
    | inl h ↦ (try_converters_for_payload p (dispatch_all M ss), from_payload_unlabelled p _ h)
    | inr (e, h) ↦ elim (select-cases M p e ss b) [
      | inl (s, b', q, k) ↦ (
        answer p (read_content M e p),
        from_payload_selected p _ e _ h k ∙ try_from_payload M p e s (dispatch_all M ss) b' q h,
      )
      | inr (k, n) ↦
          (try_converters_for_payload p (dispatch_all M ss), from_payload_unselected p _ e h k)
    ]
  ]
