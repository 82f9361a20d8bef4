-- ===== src/Elixir/Bridge/Made.antt =====
-- The payloads that a chain of the Elixir converters makes arrive in Rust.
use sdk_elixir.Base.{
  String, ◌==◌, if◌then◌else◌, Bool, true, Bool-cases, not, ◌&&◌, ◌≡◌, ◌≢◌, refl, sym, ap, subst,
  arith, ok, All, Any, List, [], ◌∷◌, ◌++◌, inl, inr,
}
use text.Mathlib.TextEquality.{eq_iff}
use sdk_elixir.Base.Dict
use sdk_elixir.Base.Dict.{Dict}
use sdk_elixir.Base.Utf8.{Bytes}
use sdk_elixir.Converter.{Payload}
use sdk_elixir.Nif.{Rustler}
use sdk_elixir.Nif.Payload.{term_to_payload}
use sdk_elixir.Elixir.Term.{Term, Machine}
use sdk_elixir.Elixir.PayloadConverter.BuiltIn.{
  Struct, nil_struct, protobuf_struct, binary_struct, json_struct, custom_struct, dispatch,
  dispatch_all,
}
use sdk_elixir.Elixir.PayloadConverter.NilConverter
use sdk_elixir.Elixir.PayloadConverter.NilConverter.{nil_payload}
use sdk_elixir.Elixir.PayloadConverter.BinaryConverter
use sdk_elixir.Elixir.PayloadConverter.BinaryConverter.{plain_payload}
use sdk_elixir.Elixir.PayloadConverter.JsonConverter
use sdk_elixir.Elixir.PayloadConverter.JsonConverter.{json_payload}
use sdk_elixir.Elixir.PayloadConverter.ProtobufConverter
use sdk_elixir.Elixir.PayloadConverter.ProtobufConverter.{
  ProtobufConverter, Mode, binary_mode, json_mode, message_metadata, get_message_type, get_type_url,
}
use sdk_elixir.Elixir.PayloadConverter.Made.{
  nil_made, binary_made, json_made, protobuf_made, message_payload,
}
use sdk_elixir.Elixir.PayloadConverter.Chain.{to_payload}
use sdk_elixir.Elixir.PayloadConverter.Chain.First.{Makes, to_payload-Any}
use sdk_elixir.Elixir.PayloadConverter.Chain.Labels.{IsBuiltIn}
use sdk_elixir.Elixir.Client.Params.{payload_term}
use sdk_elixir.Elixir.Bridge.{Carries, HasDistinctKeys}
use sdk_elixir.Elixir.Bridge.Payloads.{text_bytes, payload_arrives}

-- A test of the keys.
module _ {V : Type 0} where
  abbrev lacks : String → Dict V → Bool
  lacks k [] = true
  lacks k ((j, v) ∷ m) = not (k == j) && lacks k m

  abbrev has_distinct_keys : Dict V → Bool
  has_distinct_keys [] = true
  has_distinct_keys ((k, v) ∷ m) = lacks k m && has_distinct_keys m

  lacks→All : (k : String) (m : Dict V) → lacks k m ≡ true → All (λ (e : String × V). k ≢ e.0) m
  lacks→All k [] h = tt
  lacks→All k ((j, v) ∷ m) h = ((λ e. ground (arith, eq_iff k j)), lacks→All k m (ground arith))

  keys-HasDistinctKeys : (m : Dict V) → has_distinct_keys m ≡ true → HasDistinctKeys m
  keys-HasDistinctKeys [] h = tt
  keys-HasDistinctKeys ((k, v) ∷ m) h =
      (lacks→All k m (ground arith), keys-HasDistinctKeys m (ground arith))

-- The metadata are texts under different keys, and not empty.
abbrev IsTextual : Dict Bytes → Type 0
IsTextual m =
    (k : String) × (v : String) × (d : Dict String) × (m ≡ text_bytes ((k, v) ∷ d))
    × (has_distinct_keys ((k, v) ∷ d) ≡ true)

-- `extra` is what the JSON mode adds.
abbrev message_texts : ProtobufConverter → String → Dict String → String → Dict String
message_texts c e extra name =
    let rest = ("messageType", get_message_type name) ∷ (extra ++ (("sdk", "elixir") ∷ [])) in
    if c.include_type_url then rest ++ (("messageTypeUrl", get_type_url name) ∷ []) else rest

message_payload-IsTextual :
    (c : ProtobufConverter) (m : Mode) (name : String) (b : Bytes)
    → IsTextual ((message_payload c name b m).metadata)
unfolding message_metadata Dict.insert
message_payload-IsTextual c binary_mode name b = elim (Bool-cases c.include_type_url) [
  | inl h ↦
      ("encoding", "proto/binary", message_texts c "proto/binary" [] name, rw h refl, rw h refl)
  | inr h ↦
      ("encoding", "proto/binary", message_texts c "proto/binary" [] name, rw h refl, rw h refl)
]
message_payload-IsTextual c json_mode name b = elim (Bool-cases c.include_type_url) [
  | inl h ↦ (
    "encoding",
    "proto/json",
    message_texts c "proto/json" (("contentType", "application/x-protobuf") ∷ []) name,
    rw h refl,
    rw h refl,
  )
  | inr h ↦ (
    "encoding",
    "proto/json",
    message_texts c "proto/json" (("contentType", "application/x-protobuf") ∷ []) name,
    rw h refl,
    rw h refl,
  )
]

module _ {F : Type 0} (M : Machine F) where
  made-IsTextual :
      (s : Struct F) (t : Term F) (p : Payload)
      → IsBuiltIn s
      → Makes t p (dispatch M s)
      → IsTextual p.metadata
  unfolding dispatch NilConverter.converter BinaryConverter.converter JsonConverter.converter
      ProtobufConverter.converter nil_payload plain_payload json_payload
  made-IsTextual nil_struct t p b h =
      let (e, k) = nil_made t p h in
      ("encoding", "binary/null", [], ap (λ (q : Payload). q.metadata) k, refl)
  made-IsTextual (binary_struct max_size) t p b h =
      let (c, e, k) = binary_made max_size t p h in
      ("encoding", "binary/plain", [], ap (λ (q : Payload). q.metadata) k, refl)
  made-IsTextual (json_struct j) t p b h =
      let (u, c, e, n, k) = json_made M j t p h in
      (
        "encoding",
        "json/plain",
        ("contentType", "application/json") ∷ [],
        ap (λ (q : Payload). q.metadata) k,
        refl,
      )
  made-IsTextual (protobuf_struct c) t p b h =
      let (name, d, s, i, e, k) = protobuf_made M c t p h in
      subst (λ (q : Payload). IsTextual q.metadata) (sym k)
        (message_payload-IsTextual c c.mode name d)
  made-IsTextual (custom_struct c) t p b h = elim b [ ]

  made_by-IsTextual :
      (ss : List (Struct F)) (t : Term F) (p : Payload)
      → All IsBuiltIn ss
      → Any (Makes t p) (dispatch_all M ss)
      → IsTextual p.metadata
  unfolding dispatch_all
  made_by-IsTextual [] t p b h = absurd h
  made_by-IsTextual (s ∷ ss) t p b (inl h) = made-IsTextual s t p b.0 h
  made_by-IsTextual (s ∷ ss) t p b (inr h) = made_by-IsTextual ss t p b.1 h

  -- Of the payload that a chain of the library's converters makes, in any order and with any options,
  -- the native functions read the term without an error, and have the same data and the same metadata
  -- under every key; if rustler reads terms as `Carries` says, which leaves open the order in which a map
  -- iterates and whether the debug text of an atom has a colon.
  pub term_to_payload-to_payload :
      (R : Rustler) (B : Carries M R) (ss : List (Struct F)) (t : Term F) (p : Payload)
      → All IsBuiltIn ss
      → to_payload t (dispatch_all M ss) ≡ ok p
      → (q : Payload) × (term_to_payload R (B.embed (payload_term M p)) ≡ ok q)
        × (q.contents ≡ p.contents)
        × ((j : String) → Dict.get j q.metadata ≡ Dict.get j p.metadata)
  term_to_payload-to_payload R B ss t p b h =
      let (k, v, m, e, d) = made_by-IsTextual ss t p b (to_payload-Any t (dispatch_all M ss) p h) in
      payload_arrives M R B p k v m e (keys-HasDistinctKeys ((k, v) ∷ m) d)
