-- ===== src/Examples/Erlang.antt =====
-- A stand-in for the machine that runs the Elixir library, with its dependencies.
use text.Mathlib.TextEquality.{eq_iff}
use sdk_elixir.Base.{
  ℕ, ◌+◌, leb, eqb, ◌&&◌, if◌then◌else◌, true, Bool-cases, String, ◌==◌, ◌≡◌, refl, sym, ap, subst,
  ◌∙◌, none, some, Result, ok, err, [], ◌∷◌, All, inl, inr, arith,
}
use sdk_elixir.Base.Int.{pos}
use sdk_elixir.Base.Utf8.{Bytes, bytes, bytes_eq}
use sdk_elixir.Elixir.Term.{Term, atom, integer, binary, map, end, pair, Machine}
use sdk_elixir.Elixir.Base64.{IsByte}
use sdk_elixir.Elixir.PayloadConverter.ProtobufConverter.{module_implements_protobuf}
use sdk_elixir.Elixir.PayloadConverter.Lawful.{IsLawful}
use sdk_elixir.Elixir.Client.Config.Stable.{TextLaws}

-- Spaces before a text are cut off, and the letters from A to Z made small.
abbrev cut : Bytes → Bytes
cut [] = []
cut (c ∷ cs) = let rest = cut cs in if eqb c 32 then rest else c ∷ cs

abbrev small : ℕ → ℕ
small c = if leb 65 c && leb c 90 then c + 32 else c

abbrev smalls : Bytes → Bytes
smalls [] = []
smalls (c ∷ cs) = small c ∷ smalls cs

-- JSON of a map with one key, whose value is a number.
abbrev write_json : Term ℕ → Result Bytes String
write_json (map (pair (binary k) (integer (pos n)) end)) = ok (123 ∷ n ∷ k)
write_json _ = err "not written"

abbrev read_json : Bytes → Result (Term ℕ) String
read_json (c ∷ n ∷ k) = ok (map (pair (binary k) (integer (pos n)) end))
read_json _ = err "not read"

-- The message without fields of the module Point.
abbrev pub point : Term ℕ
point = map (pair (atom "__struct__") (atom "Elixir.Point") end)

abbrev encode_point : String → Term ℕ → Result Bytes String
encode_point name (map (pair (atom k) (atom m) end)) =
    if (k == "__struct__") && (m == "Elixir.Point") then ok [] else err "no message"
encode_point name _ = err "no message"

abbrev pub machine : Machine ℕ
machine = record {
  float_text = λ x. [];
  chars = λ t. none;
  trim = cut;
  downcase = smalls;
  iterate = λ es. es;
  json_encode = write_json;
  json_decode = read_json;
  function_exported = λ name f n. name == "Elixir.Point";
  existing_atom = λ b. if bytes_eq b (bytes "Elixir.Point") then some "Elixir.Point" else none;
  module_encode = encode_point;
  module_decode = λ name b. ok point;
}

read_written_json : (t : Term ℕ) (b : Bytes) → write_json t ≡ ok b → read_json b ≡ ok t
read_written_json (map (pair (binary k) (integer (pos n)) end)) b h = ground arith
read_written_json t b h = cc

point_encoded :
    (name : String) (t : Term ℕ) (b : Bytes) → encode_point name t ≡ ok b → (t ≡ point) × (b ≡ [])
point_encoded name (map (pair (atom k) (atom m) end)) b h = elim (Bool-cases (k == "__struct__")) [
  | inl e ↦ elim (Bool-cases (m == "Elixir.Point")) [
    | inl f ↦ (
      ap (λ i. map (pair (atom i) (atom m) end)) ((eq_iff k "__struct__").0 e)
          ∙ ap (λ i. map (pair (atom "__struct__") (atom i) end)) ((eq_iff m "Elixir.Point").0 f),
      ground arith,
    )
    | inr f ↦ absurd (ground arith)
  ]
  | inr e ↦ absurd (ground arith)
]
point_encoded name t b h = cc

named_point :
    (name : String) → module_implements_protobuf machine name ≡ true → name ≡ "Elixir.Point"
unfolding module_implements_protobuf
named_point name h = elim (Bool-cases (name == "Elixir.Point")) [
  | inl e ↦ (eq_iff name "Elixir.Point").0 e
  | inr e ↦ absurd (ground arith)
]

known_point :
    (name : String) → name ≡ "Elixir.Point" → machine.existing_atom (bytes name) ≡ some name
unfolding bytes bytes_eq
known_point name e = subst (λ n. machine.existing_atom (bytes n) ≡ some n) (sym e) refl

pub machine-IsLawful : IsLawful machine
machine-IsLawful = record {
  jason_inverse = λ t u b e h. read_written_json u b h;
  module_inverse = λ name t b s h. ap ok (sym ((point_encoded name t b h).0));
  module_bytes = λ name t b h. no_bytes b ((point_encoded name t b h).1);
  module_name = λ name h. ("Point", named_point name h);
  module_atom = λ name h. known_point name (named_point name h);
}
  where
    no_bytes : (b : Bytes) → b ≡ [] → All IsByte b
    no_bytes [] e = tt
    no_bytes (c ∷ cs) e = cc

cut-cut : (b : Bytes) → cut (cut b) ≡ cut b
cut-cut [] = refl
cut-cut (c ∷ cs) = elim (Bool-cases (eqb c 32)) [
  | inl e ↦ rw e (cut-cut cs)
  | inr e ↦ rw (e, e) refl
]

smalls-smalls : (b : Bytes) → smalls (smalls b) ≡ smalls b
smalls-smalls [] = refl
smalls-smalls (c ∷ cs) = ground (arith, smalls-smalls cs)

cut-smalls : (b : Bytes) → cut (smalls (cut b)) ≡ smalls (cut b)
cut-smalls [] = refl
cut-smalls (c ∷ cs) = elim (Bool-cases (eqb c 32)) [
  | inl e ↦ rw e (cut-smalls cs)
  | inr e ↦ rw e (ground arith)
]

pub machine-TextLaws : TextLaws machine
machine-TextLaws = record {
  trim_idem = cut-cut;
  downcase_idem = smalls-smalls;
  trim_downcase = cut-smalls;
}
