-- ===== src/Elixir/PayloadConverter/Chain/RoundTrip.antt =====
-- What a chain of the library's converters has made of a term, it reads back.
use sdk_elixir.Base.{
  ◌≡◌, ◌≢◌, refl, ◌∙◌, sym, ap, subst, ◌⊎◌, inl, inr, arith, All, Any, List, [], ◌∷◌, some, ok,
}
use sdk_elixir.Base.Dict
use sdk_elixir.Base.Utf8.{Bytes, bytes, bytes_eq}
use sdk_elixir.Converter.{Payload}
use sdk_elixir.Elixir.Term.{Term, Machine, atom, binary}
use sdk_elixir.Elixir.PayloadConverter.{made}
use sdk_elixir.Elixir.PayloadConverter.BuiltIn.{
  Struct, nil_struct, protobuf_struct, binary_struct, json_struct, custom_struct, dispatch,
  dispatch_all,
}
use sdk_elixir.Elixir.PayloadConverter.NilConverter
use sdk_elixir.Elixir.PayloadConverter.NilConverter.{nil_payload}
use sdk_elixir.Elixir.PayloadConverter.BinaryConverter
use sdk_elixir.Elixir.PayloadConverter.BinaryConverter.{plain_payload}
use sdk_elixir.Elixir.PayloadConverter.JsonConverter
use sdk_elixir.Elixir.PayloadConverter.JsonConverter.{json_payload, prepare_for_encoding}
use sdk_elixir.Elixir.PayloadConverter.ProtobufConverter
use sdk_elixir.Elixir.PayloadConverter.ProtobufConverter.{
  ProtobufConverter, Mode, binary_mode, json_mode, mode_encoding, decode_protobuf_binary,
  decode_protobuf_json,
}
use sdk_elixir.Elixir.PayloadConverter.ProtobufConverter.RoundTrip.{
  metadata_encoding, decode_mode, decode_mode-message_payload,
}
use sdk_elixir.Elixir.PayloadConverter.Made.{nil_made, binary_made, json_made, protobuf_made}
use sdk_elixir.Elixir.PayloadConverter.Lawful.{IsLawful}
use sdk_elixir.Elixir.PayloadConverter.Chain.{to_payload, from_payload}
use sdk_elixir.Elixir.PayloadConverter.Chain.First.{Makes, to_payload-Any}
use sdk_elixir.Elixir.PayloadConverter.Chain.Labels.{IsBuiltIn, label, read_content}
use sdk_elixir.Elixir.PayloadConverter.Chain.Reading.{answer, from_payload_labelled}

module _ {F : Type 0} (M : Machine F) where
  -- The term that a payload of `t` stands for: under the JSON label the prepared term, else `t`.
  abbrev pub StandsFor : Term F → Payload → Term F → Type 0
  StandsFor t p u =
      ((label p ≡ some (bytes "json/plain")) × (prepare_for_encoding M t ≡ ok (ok u)))
      ⊎ ((label p ≢ some (bytes "json/plain")) × (u ≡ t))

  read_message :
      (m : Mode) (p : Payload) (t : Term F)
      → decode_mode M m p ≡ made t
      → read_content M (mode_encoding m) p ≡ made t
  unfolding read_content mode_encoding bytes bytes_eq
  read_message binary_mode p t h = h
  read_message json_mode p t h = h

  not_json : (m : Mode) → mode_encoding m ≢ bytes "json/plain"
  unfolding mode_encoding bytes
  not_json binary_mode = λ h. cc
  not_json json_mode = λ h. cc

  -- Under another label than that of JSON the term is what it was.
  StandsFor-itself :
      (t u : Term F) (p : Payload) (e : Bytes)
      → label p ≡ some e
      → e ≢ bytes "json/plain"
      → u ≡ t
      → StandsFor t p u
  StandsFor-itself t u p e h n q = inr ((λ x. n (some_inj (sym h ∙ x))), q)
    where
      some_inj : {b c : Bytes} → some b ≡ some c → b ≡ c
      some_inj x = ground arith

  -- What a converter has made has its label, and its content stands for the term.
  abbrev Content : Struct F → Term F → Payload → Type 0
  Content s t p =
      (label p ≡ some ((dispatch M s).encoding))
      × (u : Term F) × (read_content M ((dispatch M s).encoding) p ≡ made u)
      × StandsFor t p u

  made-Content :
      IsLawful M
      → (s : Struct F) (t : Term F) (p : Payload) → IsBuiltIn s
      → Makes t p (dispatch M s)
      → Content s t p
  unfolding dispatch NilConverter.converter BinaryConverter.converter JsonConverter.converter
      ProtobufConverter.converter read_content nil_payload plain_payload json_payload Dict.get bytes
      bytes_eq
  made-Content law nil_struct t p b h =
      let (e, k) = nil_made t p h in
      let l : label p ≡ some (bytes "binary/null") = ap label k in
      (l, atom "nil", refl, StandsFor-itself t (atom "nil") p _ l (λ x. cc) (sym e))
  made-Content law (binary_struct max_size) t p b h =
      let (c, e, k) = binary_made max_size t p h in
      let l : label p ≡ some (bytes "binary/plain") = ap label k in
      (
        l,
        t,
        ap (λ (q : Payload). made (binary q.contents)) k ∙ ap made (sym e),
        StandsFor-itself t t p _ l (λ x. cc) refl,
      )
  made-Content law (json_struct j) t p b h =
      let (u, c, e, n, k) = json_made M j t p h in
      let l : label p ≡ some (bytes "json/plain") = ap label k in
      (
        l,
        u,
        subst (λ q. read_content M (bytes "json/plain") q ≡ made u) (sym k)
            (rw (law.jason_inverse t u c e n) refl),
        inl (l, e),
      )
  made-Content law (protobuf_struct c) t p b h =
      let (name, d, s, i, e, k) = protobuf_made M c t p h in
      let l : label p ≡ some (mode_encoding c.mode) =
        ap label k ∙ metadata_encoding c c.mode name d in
      (
        l,
        t,
        ap (read_content M (mode_encoding c.mode)) k
            ∙ read_message c.mode _ t (decode_mode-message_payload M law c c.mode name t d s i e),
        StandsFor-itself t t p _ l (not_json c.mode) refl,
      )
  made-Content law (custom_struct c) t p b h = elim b [ ]

  -- Some converter of the chain made the payload, so that its label is that of the converter.
  made_by :
      IsLawful M
      → (ss : List (Struct F)) (t : Term F) (p : Payload) → All IsBuiltIn ss
      → Any (Makes t p) (dispatch_all M ss)
      → (e : Bytes) × (label p ≡ some e)
        × Any (λ s. (dispatch M s).encoding ≡ e) ss
        × ((u : Term F) × (read_content M e p ≡ made u) × StandsFor t p u)
  unfolding dispatch_all
  made_by law [] t p b h = absurd h
  made_by law (s ∷ ss) t p b (inl h) =
      let (l, u, r, z) = made-Content law s t p b.0 h in
      ((dispatch M s).encoding, l, inl refl, (u, r, z))
  made_by law (s ∷ ss) t p b (inr h) =
      let (e, l, a, c) = made_by law ss t p b.1 h in (e, l, inr a, c)

  -- For a chain of the library's converters, in any order and with any options, of the payload that the
  -- chain makes of a term it reads back, without an exception, the term itself, or, if the payload is
  -- labelled as JSON, the term that was prepared for Jason; if Jason and the modules of messages decode
  -- what they have encoded.
  pub from_payload-StandsFor :
      IsLawful M
      → (ss : List (Struct F)) (t : Term F) (p : Payload) → All IsBuiltIn ss
      → to_payload t (dispatch_all M ss) ≡ ok p
      → (u : Term F) × (from_payload p (dispatch_all M ss) ≡ ok (ok u)) × StandsFor t p u
  from_payload-StandsFor law ss t p b h =
      let (e, l, a, (u, r, z)) = made_by law ss t p b (to_payload-Any t (dispatch_all M ss) p h) in
      (u, from_payload_labelled M p ss e b l a ∙ ap (λ o. ok (answer p o)) r, z)
