-- ===== src/Elixir/Client/Params.antt =====
-- The parameters of a call: `normalize_workflow_params`, `normalize_signal_params` and
-- `normalize_query_params` of lib/temporal/client.ex.
use sdk_elixir.Base.{
  String, ◌==◌, if◌then◌else◌, Bool, false, ◌||◌, ok, err, ◌>>=◌, none, some, List, [], ◌∷◌,
  map as map_list,
}
use sdk_elixir.Base.Dict.{Dict}
use sdk_elixir.Base.Utf8.{Bytes, bytes}
use sdk_elixir.Converter.{Payload}
use sdk_elixir.Elixir.Term.{
  Term, Pairs, atom, binary, list, map, end, pair, Machine, of_list, wrap, to_string,
}
use sdk_elixir.Elixir.Maps.{Entries, map_new}
use sdk_elixir.Elixir.PayloadConverter.{Raises}
use sdk_elixir.Elixir.PayloadConverter.Chain.{default_converter_chain, to_payloads}

-- The key is one of the names.
unfoldable pub is_one_of : String → List String → Bool
is_one_of s [] = false
is_one_of s (n ∷ ns) = let rest = is_one_of s ns in (s == n) || rest

module _ {F : Type 0} (M : Machine F) where
  -- The term of a payload: a map with the atoms `:data` and `:metadata` as keys.
  unfoldable pub metadata_entries : Dict Bytes → Entries (Term F)
  unfolding bytes
  metadata_entries [] = []
  metadata_entries ((k, v) ∷ m) = (bytes k, binary v) ∷ metadata_entries m

  unfoldable pub payload_term : Payload → Term F
  unfolding metadata_entries map_new
  payload_term p = map (
      pair (atom "data") (binary p.contents)
        (pair (atom "metadata") (map_new M (metadata_entries p.metadata)) end))

  -- The value of `:input`. A failed conversion sends no input.
  unfoldable pub input_payloads : Term F → Term F
  unfolding to_payloads default_converter_chain payload_term
  input_payloads v = elim (to_payloads (wrap v) (default_converter_chain M)) [
    | ok payloads ↦ list (of_list (map_list payload_term payloads))
    | err _ ↦ list (of_list [])
  ]

  -- The clauses of the function that is mapped over the parameters; `texts` are the keys whose values
  -- become texts.
  unfoldable pub normalized_param : List String → Term F → Term F → Raises (Bytes × Term F)
  unfolding is_one_of to_string input_payloads bytes
  normalized_param texts (atom s) v =
      if is_one_of s texts
      then (elim (to_string M v) [
        | some b ↦ ok (bytes s, binary b)
        | none ↦ err "Protocol.UndefinedError"
      ])
      else if s == "input"
      then ok (bytes "input", input_payloads v)
      else ok (bytes s, v)
  normalized_param texts (binary b) v = ok (b, v)
  normalized_param texts k v = err "FunctionClauseError"

  unfoldable pub normalized_params : List String → Pairs F → Raises (Entries (Term F))
  unfolding normalized_param
  normalized_params texts end = ok []
  normalized_params texts (pair k v es) = do
    e ← normalized_param texts k v
    rest ← normalized_params texts es
    ok (e ∷ rest)

  unfoldable pub normalize_workflow_params : Pairs F → Raises (Term F)
  unfolding normalized_params map_new
  normalize_workflow_params params = do
    es ←
        normalized_params ("workflow_type" ∷ "task_queue" ∷ "workflow_id" ∷ "request_id" ∷ [])
          params
    ok (map_new M es)

  unfoldable pub normalize_signal_params : Pairs F → Raises (Term F)
  unfolding normalized_params map_new
  normalize_signal_params params = do
    es ← normalized_params ("workflow_id" ∷ "run_id" ∷ "signal_name" ∷ "namespace" ∷ []) params
    ok (map_new M es)

  unfoldable pub normalize_query_params : Pairs F → Raises (Term F)
  unfolding normalized_params map_new
  normalize_query_params params = do
    es ← normalized_params ("workflow_id" ∷ "run_id" ∷ "query_type" ∷ "namespace" ∷ []) params
    ok (map_new M es)
