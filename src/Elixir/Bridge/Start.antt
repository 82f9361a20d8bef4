-- ===== src/Elixir/Bridge/Start.antt =====
-- From the parameters of `start_workflow` in Elixir to the request that the native client sends.
use sdk_elixir.Base.{
  String, true, ◌≡◌, refl, ◌∙◌, ap, Option, none, some, and_then, unwrap_or, ok, All, List, [], ◌∷◌,
  map as map_list,
}
use mathlib.Core.Option
use sdk_elixir.Base.Dict
use sdk_elixir.Base.Dict.{Dict}
use sdk_elixir.Base.Utf8.{bytes}
use sdk_elixir.Converter.{Payload}
use sdk_elixir.Client.{SdkClient, ClientResource}
use sdk_elixir.Client.Workflow as Rust
use sdk_elixir.Nif.{Rustler, optional}
use sdk_elixir.Nif.Workflow.{client_start_workflow, start_input}
use sdk_elixir.Nif.Workflow.Input.{IsSent, input_payloads-IsSent}
use sdk_elixir.Nif.Workflow.Requests.{text_at}
use sdk_elixir.Nif.Workflow.Sends.{started_reply, client_start_workflow-fine}
use sdk_elixir.Elixir.Term.{Term, atom, binary, list, wrap, of_list, Machine, to_string}
use sdk_elixir.Elixir.Maps.{Entries, fetch, map_new}
use sdk_elixir.Elixir.Maps.Lookup.{fetch-put_all-distinct}
use sdk_elixir.Elixir.PayloadConverter.BuiltIn.{default_structs}
use sdk_elixir.Elixir.PayloadConverter.Chain.{to_payloads, default_converter_chain}
use sdk_elixir.Elixir.PayloadConverter.Chain.Labels.{IsBuiltIn}
use sdk_elixir.Elixir.Client.Params.{
  is_one_of, normalized_param, normalized_params, normalize_workflow_params, input_payloads,
  payload_term,
}
use sdk_elixir.Elixir.Bridge.{atom_map, Carries, HasDistinctKeys}
use sdk_elixir.Elixir.Bridge.Params.{normalized_keys, normalized_present, normalized_absent}
use sdk_elixir.Elixir.Bridge.Total.{normalized_params_total}
use sdk_elixir.Elixir.Bridge.Inputs.{AllSame, inputs_arrive}

-- The keys whose values become texts.
abbrev start_texts : List String
start_texts = "workflow_type" ∷ "task_queue" ∷ "workflow_id" ∷ "request_id" ∷ []

default_IsBuiltIn : (F : Type 0) → All IsBuiltIn (default_structs {F = F})
unfolding default_structs
default_IsBuiltIn F = (tt, (tt, (tt, (tt, tt))))

module _ {F : Type 0} (M : Machine F) where
  normalized_text :
      (k s : String)
      → is_one_of k start_texts ≡ true
      → normalized_param M start_texts (atom k) (binary (bytes s)) ≡ ok (bytes k, binary (bytes s))
  unfolding normalized_param to_string
  normalized_text k s h = rw h refl

  normalized_input :
      (v : Term F)
      → normalized_param M start_texts (atom "input") v ≡ ok (bytes "input", input_payloads M v)
  unfolding normalized_param is_one_of
  normalized_input v = refl

  input_payloads-to_payloads :
      (v : Term F) (ps : List Payload)
      → to_payloads (wrap v) (default_converter_chain M) ≡ ok ps
      → input_payloads M v ≡ list (of_list (map_list (payload_term M) ps))
  unfolding input_payloads
  input_payloads-to_payloads v ps h = rw (h, input_payloads) refl

  -- The parameters are normalised, since the values that become texts are texts.
  normalized_entries :
      (m : Dict (Term F)) (i k q : String) (request : Option String)
      → HasDistinctKeys m
      → Dict.get "workflow_id" m ≡ some (binary (bytes i))
      → Dict.get "workflow_type" m ≡ some (binary (bytes k))
      → Dict.get "task_queue" m ≡ some (binary (bytes q))
      → Dict.get "request_id" m ≡ Option.map (λ s. binary (bytes s)) request
      → (es : Entries (Term F)) × (normalized_params M start_texts (atom_map m) ≡ ok es)
        × (normalize_workflow_params M (atom_map m) ≡ ok (map_new M es))
  unfolding normalize_workflow_params
  normalized_entries m i k q request d hi hk hq hr =
      let (es, e) = normalized_params_total M start_texts m d (
        (some (bytes k), hk),
        (
          (some (bytes q), hq),
          ((some (bytes i), hi), ((Option.map bytes request, hr ∙ twice request), tt)),
        ),
      ) in
      (es, e, rw e refl)
    where
      twice :
          (r : Option String)
          → Option.map {B = Term F} (λ s. binary (bytes s)) r
            ≡ Option.map binary (Option.map bytes r)
      twice none = refl
      twice (some s) = refl

module _ {F : Type 0} (M : Machine F) (R : Rustler) (B : Carries M R) where
  abbrev text_option : Option String → Option (Term F)
  text_option r = Option.map (λ s. binary (bytes s)) r

  module _ (m : Dict (Term F)) (es : Entries (Term F)) (d : HasDistinctKeys m)
      (n : normalized_params M start_texts (atom_map m) ≡ ok es) where
    fetch_text :
        (k : String) (r : Option String)
        → is_one_of k start_texts ≡ true
        → Dict.get k m ≡ text_option r
        → fetch (bytes k) es ≡ text_option r
    fetch_text k none i h = (normalized_absent M start_texts k m es d n h).0
    fetch_text k (some s) i h =
        normalized_present M start_texts k (binary (bytes s)) (binary (bytes s)) m es d n h
          (normalized_text M k s i)

    -- The map that the native function decodes.
    abbrev nif_params : Dict R.Term
    nif_params = (B.decode_map_texts es (normalized_keys M start_texts m es d n).0).0

    get-nif_params : (k : String) → Dict.get k nif_params ≡ Option.map B.embed (fetch (bytes k) es)
    get-nif_params k =
        (B.decode_map_texts es (normalized_keys M start_texts m es d n).0).2 k
        ∙ ap (Option.map B.embed)
            (fetch-put_all-distinct (bytes k) es (normalized_keys M start_texts m es d n).1)

    text_at-nif_params :
        (k : String) (r : Option String)
        → is_one_of k start_texts ≡ true
        → Dict.get k m ≡ text_option r
        → text_at R k nif_params ≡ r
    unfolding optional
    text_at-nif_params k r i h =
        ap (λ o. and_then o R.decode_string)
          (get-nif_params k ∙ ap (Option.map B.embed) (fetch_text k r i h))
        ∙ decoded r
      where
        decoded :
            (r : Option String) → and_then (Option.map B.embed (text_option r)) R.decode_string ≡ r
        decoded none = refl
        decoded (some s) = B.decode_string_text s

    input-nif_params :
        (v : Term F) (ps : List Payload)
        → Dict.get "input" m ≡ some v
        → to_payloads (wrap v) (default_converter_chain M) ≡ ok ps
        → (qs : List Payload) × (and_then (Dict.get "input" nif_params) (start_input R) ≡ some qs)
          × AllSame qs ps
    unfolding optional default_converter_chain
    input-nif_params v ps h k =
        let (qs, e, _, same) =
          inputs_arrive M R B default_structs (wrap v) ps (default_IsBuiltIn F) k in
        let entry : fetch (bytes "input") es
            ≡ some (list (of_list (map_list (payload_term M) ps))) =
          normalized_present M start_texts "input" v (input_payloads M v) m es d n h
            (normalized_input M v)
          ∙ ap some (input_payloads-to_payloads M v ps k) in
        (
          qs,
          ap (λ o. and_then o (start_input R))
                (get-nif_params "input" ∙ ap (Option.map B.embed) entry)
              ∙ e,
          same,
        )

  module _ (S : SdkClient) {N : Type 0} (c : ClientResource S N) where
    -- Parameters with atoms as keys, the three required texts, an input that the default chain converts
    -- and a text or nothing as request id are normalised without an exception, and the result makes
    -- the native client send one request: it carries these texts, and for each term of the input, in order,
    -- a payload with the data and the metadata that the chain has made, or no input if there is no term.
    -- The reply is the run id of the server, as run id and first run id, with the workflow id; or the
    -- server's error.
    pub normalize_workflow_params-client_start_workflow :
        (uuid : String) (m : Dict (Term F)) (v : Term F) (i k q : String) (request : Option String)
        (ps : List Payload)
        → HasDistinctKeys m
        → Dict.get "workflow_id" m ≡ some (binary (bytes i))
        → Dict.get "workflow_type" m ≡ some (binary (bytes k))
        → Dict.get "task_queue" m ≡ some (binary (bytes q))
        → Dict.get "request_id" m ≡ Option.map (λ s. binary (bytes s)) request
        → Dict.get "input" m ≡ some v
        → to_payloads (wrap v) (default_converter_chain M) ≡ ok ps
        → (t : Term F) × (normalize_workflow_params M (atom_map m) ≡ ok t)
          × (qs : List Payload) × AllSame qs ps
          × (sent : Option (List Payload)) × IsSent qs sent
          × (client_start_workflow R S c uuid (B.embed t)
              ≡ started_reply R i (
                  S.start_workflow_execution c.inner (record {
                    namespace = S.namespace c.inner;
                    workflow_id = i;
                    workflow_type = k;
                    task_queue = q;
                    input = sent;
                    request_id = unwrap_or uuid request;
                  })))
    unfolding is_one_of
    normalize_workflow_params-client_start_workflow uuid m v i k q request ps d hi hk hq hr hv h =
        let (es, e, z) = normalized_entries M m i k q request d hi hk hq hr in
        let (qs, a, same) = input-nif_params m es d e v ps hv h in
        let texts = text_at-nif_params m es d e in
        let sent =
          client_start_workflow-fine R S c uuid (B.embed (map_new M es)) (nif_params m es d e) i k q
            (B.decode_map_texts es (normalized_keys M start_texts m es d e).0).1
            (texts "workflow_id" (some i) refl hi) (texts "workflow_type" (some k) refl hk)
            (texts "task_queue" (some q) refl hq) in
        (
          map_new M es,
          z,
          qs,
          same,
          Rust.input_payloads (some qs),
          input_payloads-IsSent qs,
          rw (← a, ← texts "request_id" request refl hr) sent,
        )
