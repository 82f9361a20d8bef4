-- ===== src/Elixir/PayloadConverter/JsonConverter.antt =====
-- lib/temporal/payload_converter/json_converter.ex
pub mod Unsorted
pub mod SameDepth
use sdk_elixir.Base.{
  ℕ, ◌+◌, leb, String, ◌==◌, if◌then◌else◌, Bool, true, false, ◌||◌, Option, none, some, Result, ok,
  err, then_try, map_err, List, [], ◌∷◌,
}
use sdk_elixir.Base.Utf8.{Bytes, bytes}
use sdk_elixir.Converter.{Payload}
use sdk_elixir.Elixir.Term.{
  Term, Terms, Pairs, atom, integer, float, binary, list, tuple, map, reference, other, nil, cons,
  end, pair, Machine, of_list, to_string,
}
use sdk_elixir.Elixir.Maps.{Entries, sort_entries, map_new}
use sdk_elixir.Elixir.PayloadConverter.{
  Kind, kind_binary, kind_atom, kind_number, kind_list, kind_map, kind_tuple, kind_unknown, Reason,
  depth_limit_exceeded, unsupported_type, jason, json_encoding_failed, json_decoding_failed,
  PayloadConverter, Raises, Outcome, made, failed, skip, has_encoding,
}

-- `:string`, `:atom` and `:error`.
pub data AtomHandling : Type 0 where
  as_string : AtomHandling
  as_atom : AtomHandling
  as_error : AtomHandling

-- The struct.
pub record JsonConverter : Type 0 where
  pub max_depth : ℕ
  pub atom_handling : AtomHandling
  pub sort_keys : Bool

module _ {F : Type 0} (max_depth : ℕ) where
  -- The loops stop at the first error. A struct is a map, with its module among the values.
  unfoldable mutual
    pub validate_depth : Term F → ℕ → Result (Unit {0}) Reason
    validate_depth (map es) current =
        if leb max_depth current
        then err (depth_limit_exceeded max_depth)
        else validate_values es current
    validate_depth (list ts) current =
        if leb max_depth current
        then err (depth_limit_exceeded max_depth)
        else validate_terms ts current
    validate_depth t current =
        if leb max_depth current then err (depth_limit_exceeded max_depth) else ok tt

    pub validate_terms : Terms F → ℕ → Result (Unit {0}) Reason
    validate_terms nil current = ok tt
    validate_terms (cons t ts) current =
        then_try (validate_depth t (current + 1)) (λ _. validate_terms ts current)

    pub validate_values : Pairs F → ℕ → Result (Unit {0}) Reason
    validate_values end current = ok tt
    validate_values (pair k v es) current =
        then_try (validate_depth v (current + 1)) (λ _. validate_values es current)

-- `collect_results`: all the values, or the first error.
unfoldable pub collect_results {ℓ} : {A : Type ℓ} → List (Result A Reason) → Result (List A) Reason
collect_results [] = ok []
collect_results (r ∷ rs) =
    let rest = collect_results rs in then_try r (λ a. then_try rest (λ as'. ok (a ∷ as')))

-- `data in [nil, true, false]`, on atoms.
abbrev pub is_json_atom : String → Bool
is_json_atom s = (s == "nil") || ((s == "true") || (s == "false"))

unfoldable pub json_payload : Bytes → Payload
unfolding bytes
json_payload b = record {
  metadata = ("encoding", bytes "json/plain") ∷ ("contentType", bytes "application/json") ∷ [];
  contents = b;
}

module _ {F : Type 0} where
  unfoldable pub typeof : Term F → Kind
  typeof (binary b) = kind_binary
  typeof (atom s) = kind_atom
  typeof (integer n) = kind_number
  typeof (float x) = kind_number
  typeof (list ts) = kind_list
  typeof (map es) = kind_map
  typeof (tuple ts) = kind_tuple
  typeof (reference n) = kind_unknown
  typeof (other n) = kind_unknown

  -- An entry of a map, once its value is prepared; `to_string` may raise.
  unfoldable pub prepared_entry :
      Machine F → Term F → Result (Term F) Reason → Raises (Result (Bytes × Term F) Reason)
  unfolding to_string
  prepared_entry M k (err e) = ok (err e)
  prepared_entry M k (ok v) = elim (to_string M k) [
    | some b ↦ ok (ok (b, v))
    | none ↦ err "Protocol.UndefinedError"
  ]

  module _ (M : Machine F) where
    -- `Enum.map` prepares every part before `collect_results` looks for an error, and an exception
    -- ends it at once.
    unfoldable mutual
      unfolding prepared_entry collect_results sort_entries map_new typeof bytes

      pub prepare_for_encoding : Term F → Raises (Result (Term F) Reason)
      prepare_for_encoding (map es) =
          then_try (prepare_pairs es)
            (λ rs. ok (then_try (collect_results rs) (λ ps. ok (map_new M (sort_entries ps)))))
      prepare_for_encoding (list ts) =
          then_try (prepare_terms ts)
            (λ rs. ok (then_try (collect_results rs) (λ xs. ok (list (of_list xs)))))
      prepare_for_encoding (atom s) =
          if is_json_atom s then ok (ok (atom s)) else ok (ok (binary (bytes s)))
      prepare_for_encoding (binary b) = ok (ok (binary b))
      prepare_for_encoding (integer n) = ok (ok (integer n))
      prepare_for_encoding (float x) = ok (ok (float x))
      prepare_for_encoding (tuple ts) = ok (err (unsupported_type (typeof (tuple ts))))
      prepare_for_encoding (reference n) = ok (err (unsupported_type (typeof (reference n))))
      prepare_for_encoding (other n) = ok (err (unsupported_type (typeof (other n))))

      pub prepare_terms : Terms F → Raises (List (Result (Term F) Reason))
      prepare_terms nil = ok []
      prepare_terms (cons t ts) =
          then_try (prepare_for_encoding t) (λ r. then_try (prepare_terms ts) (λ rs. ok (r ∷ rs)))

      pub prepare_pairs : Pairs F → Raises (List (Result (Bytes × Term F) Reason))
      prepare_pairs end = ok []
      prepare_pairs (pair k v es) = then_try (prepare_for_encoding v) (λ r.
          then_try (prepared_entry M k r) (λ e. then_try (prepare_pairs es) (λ rs. ok (e ∷ rs))))

    -- There is no clause for `sort_keys: false`.
    unfoldable pub encode_json : JsonConverter → Term F → Raises (Result Bytes Reason)
    unfolding prepare_for_encoding
    encode_json j t =
        if j.sort_keys
        then then_try (prepare_for_encoding t)
            (λ r. ok (then_try r (λ u. map_err jason (M.json_encode u))))
        else err "FunctionClauseError"

    unfoldable pub to_payload : JsonConverter → Term F → Raises (Outcome Payload)
    unfolding validate_depth encode_json json_payload
    to_payload j t = elim (validate_depth j.max_depth t 0) [
      | err e ↦ ok (failed e)
      | ok _ ↦ then_try (encode_json j t) (λ r. elim r [
        | ok b ↦ ok (made (json_payload b))
        | err e ↦ ok (failed (json_encoding_failed e))
      ])
    ]

    unfoldable pub from_payload : Payload → Raises (Outcome (Term F))
    unfolding has_encoding
    from_payload p =
        if has_encoding "json/plain" p
        then (elim (M.json_decode p.contents) [
          | ok t ↦ ok (made t)
          | err e ↦ ok (failed (json_decoding_failed e))
        ])
        else ok skip

    unfoldable pub can_convert : JsonConverter → Term F → Bool
    unfolding validate_depth
    can_convert j t = elim (validate_depth j.max_depth t 0) [ ok _ ↦ true | err _ ↦ false ]

    unfoldable pub converter : JsonConverter → PayloadConverter F
    unfolding to_payload from_payload can_convert
    converter j = record {
      to_payload = to_payload j;
      from_payload = from_payload;
      encoding = bytes "json/plain";
      priority = 100;
      can_convert = can_convert j;
    }
