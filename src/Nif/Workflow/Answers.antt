-- ===== src/Nif/Workflow/Answers.antt =====
-- What Elixir sees of the answer to a query.
use sdk_elixir.Base.{
  ◌≡◌, ◌<>◌, Option, none, some, ok, err, List, ◌∷◌, All, false, Result-cases, inl, inr,
}
use sdk_elixir.Base.Int.{ℤ, display_int}
use sdk_elixir.Json.{Value}
use sdk_elixir.Converter.{Payload, Codecs}
use sdk_elixir.Converter.Composite.{to_payload, from_payload}
use sdk_elixir.Converter.Composite.BuiltIn.{IsLawful, IsBuiltIn}
use sdk_elixir.Converter.Composite.RoundTrip.{from_payload-to_payload}
use sdk_elixir.Converter.JsonConverter.Canonical.{canonical}
use sdk_elixir.Converter.JsonConverter.Normal.{IsProper}
use sdk_elixir.Converter.JsonConverter.Numbers.{AllNumbers}
use sdk_elixir.Client.{SdkClient, ClientResource, WorkflowQueryParams}
use sdk_elixir.Client.Workflow.{query_request}
use sdk_elixir.Nif.{Rustler, error_reply, ok_reply}
use sdk_elixir.Nif.Json.{json_value_to_elixir_term}
use sdk_elixir.Nif.Workflow.{parse_query, query_reply, client_query_workflow}

module _ (R : Rustler) (S : SdkClient) (C : Codecs) (c : ClientResource S C.Number) where
  module _ (as_i64 : C.Number → Option ℤ) (as_f64 : C.Number → Option R.Float) where
    -- The term of a value, or nil where it has none.
    abbrev pub term_or_nil : Value C.Number → R.Term
    term_or_nil v = elim (json_value_to_elixir_term R as_i64 as_f64 v) [
      | ok t ↦ t
      | err _ ↦ R.atom "nil"
    ]

    -- If a worker that uses the same converters answers a query by the payload of a value, Elixir
    -- sees the term of the value's canonical form (nil if a number has no term). This holds for a
    -- client with the program's converters, and for values whose maps list each key once and which
    -- hold no floating-point number.
    pub client_query_workflow-reads :
        (L : IsLawful C) (v : Value C.Number) (p : Payload) (ps : List Payload) (t : R.Term)
        → (q : WorkflowQueryParams) → IsProper v
        → AllNumbers (λ n. L.is_f64 n ≡ false) v
        → All (IsBuiltIn C) c.converter
        → to_payload c.converter v ≡ ok p
        → parse_query R t ≡ ok q
        → S.query_workflow c.inner (query_request S c q)
          ≡ ok (record { query_rejected = none; query_result = some (p ∷ ps) })
        → client_query_workflow R S c as_i64 as_f64 t ≡ ok_reply R (term_or_nil (canonical C v))
    unfolding client_query_workflow
    client_query_workflow-reads L v p ps t q proper exact built made parsed answered =
        let read : from_payload c.converter p ≡ ok (canonical C v) =
          from_payload-to_payload C L v p proper exact c.converter built made in
        rw (parsed, client_query_workflow, answered, read)
          (elim (Result-cases (json_value_to_elixir_term R as_i64 as_f64 (canonical C v))) [
            | inl (u, e) ↦ rw (query_reply, term_or_nil, e)
            | inr (e, h) ↦ rw (query_reply, term_or_nil, h)
          ])

    -- A query that the server rejects is an error for Elixir that names the status, whatever result
    -- comes with the rejection.
    pub client_query_workflow-rejected :
        (status : ℤ) (result : Option (List Payload)) (t : R.Term) (q : WorkflowQueryParams)
        → parse_query R t ≡ ok q
        → S.query_workflow c.inner (query_request S c q)
          ≡ ok (record { query_rejected = some status; query_result = result })
        → client_query_workflow R S c as_i64 as_f64 t
          ≡ error_reply R ("Query rejected: " <> display_int status)
    unfolding client_query_workflow
    client_query_workflow-rejected status result t q parsed answered =
        rw (parsed, client_query_workflow, answered)
