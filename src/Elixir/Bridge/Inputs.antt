-- ===== src/Elixir/Bridge/Inputs.antt =====
-- The payloads of an input, as the native functions collect them.
use sdk_elixir.Base.{
  String, ◌≡◌, refl, ◌∙◌, ap, arith, some, Result, Result-cases, ok, err, All, List, [], ◌∷◌,
  map as map_list, inl, inr,
}
use sdk_elixir.Base.Dict
use sdk_elixir.Converter.{Payload}
use sdk_elixir.Nif.{Rustler}
use sdk_elixir.Nif.Payload.{collect_payloads}
use sdk_elixir.Nif.Payload.Inputs.{start_input-eq-collected_input}
use sdk_elixir.Nif.Workflow.{start_input, collected_input}
use sdk_elixir.Elixir.Term.{Term, list, of_list, to_list, Machine}
use sdk_elixir.Elixir.PayloadConverter.BuiltIn.{Struct, dispatch_all}
use sdk_elixir.Elixir.PayloadConverter.Chain.{
  Converters, convert_single_data, sort_converters_by_priority, convert_all, split_results,
  extract_results, to_payload, to_payloads,
}
use sdk_elixir.Elixir.PayloadConverter.Chain.Labels.{IsBuiltIn}
use sdk_elixir.Elixir.Client.Params.{payload_term}
use sdk_elixir.Elixir.Bridge.{Carries}
use sdk_elixir.Elixir.Bridge.Made.{term_to_payload-to_payload}

-- The same data, and the same metadata under every key.
abbrev pub IsSame : Payload → Payload → Type 0
IsSame q p =
    (q.contents ≡ p.contents) × ((j : String) → Dict.get j q.metadata ≡ Dict.get j p.metadata)

-- One by one, in the same order.
abbrev pub AllSame : List Payload → List Payload → Type 0
AllSame [] [] = Unit
AllSame (q ∷ qs) (p ∷ ps) = IsSame q p × AllSame qs ps
AllSame _ _ = ⊥

module _ {A E : Type 0} where
  extract_cons :
      (a : A) (rs : List (Result A E)) (as' : List A)
      → extract_results (ok a ∷ rs) ≡ ok as'
      → (rest : List A) × (extract_results rs ≡ ok rest) × (as' ≡ a ∷ rest)
  unfolding extract_results split_results
  extract_cons a rs as' h = go ((split_results rs).1) refl h
    where
      go :
          (errors : List E)
          → (split_results rs).1 ≡ errors
          → extract_results (ok a ∷ rs) ≡ ok as'
          → (rest : List A) × (extract_results rs ≡ ok rest) × (as' ≡ a ∷ rest)
      go [] e h = ((split_results rs).0, rw (e, extract_results) refl, ground arith)
      go (x ∷ errors) e h = absurd (ground arith)

  extract_error :
      (e : E) (rs : List (Result A E)) (as' : List A) → extract_results (err e ∷ rs) ≡ ok as' → ⊥
  unfolding extract_results split_results
  extract_error e rs as' h = ground arith

module _ {F : Type 0} (M : Machine F) (R : Rustler) (B : Carries M R) (ss : List (Struct F)) where
  abbrev chain : Converters F
  chain = sort_converters_by_priority (dispatch_all M ss)

  collected_same :
      (ts : List (Term F)) (ps : List Payload)
      → All IsBuiltIn ss
      → extract_results (convert_all ts chain) ≡ ok ps
      → (qs : List Payload) × (collect_payloads R (map_list B.embed (map_list (payload_term M) ps))
          ≡ ok qs)
        × AllSame qs ps
  unfolding convert_all collect_payloads
  collected_same [] [] b h = ([], refl, tt)
  collected_same [] (p ∷ ps) b h = absurd (unfold extract_results split_results in ground arith)
  collected_same (t ∷ ts) ps b h = elim (Result-cases (convert_single_data t chain)) [
    | inr (x, e) ↦ absurd (extract_error x (convert_all ts chain) ps (rw e at h))
    | inl (p, e) ↦
        let (rest, k, z) = extract_cons p (convert_all ts chain) ps (rw e at h) in
        let (q, i, d, g) = term_to_payload-to_payload M R B ss t p b (unfold to_payload in e) in
        let (qs, l, all) = collected_same ts rest b k in
        rw z (q ∷ qs, rw (i, l) refl, ((d, g), all))
  ]

  -- Of the list that a chain of the library's converters makes of an input, client_start_workflow and
  -- client_signal_workflow take a payload for each term, in order.
  pub inputs_arrive :
      (ts : List (Term F)) (ps : List Payload)
      → All IsBuiltIn ss
      → to_payloads ts (dispatch_all M ss) ≡ ok ps
      → (qs : List Payload) × (start_input R
            (B.embed (list (of_list (map_list (payload_term M) ps))))
          ≡ some qs)
        × (collected_input R (B.embed (list (of_list (map_list (payload_term M) ps)))) ≡ some qs)
        × AllSame qs ps
  unfolding to_payloads collected_input
  inputs_arrive ts ps b h =
      let (qs, k, same) = collected_same ts ps b h in
      let term = B.embed (list (of_list (map_list (payload_term M) ps))) in
      let collected : collected_input R term ≡ some qs =
        rw
          (
            B.decode_list_list (of_list (map_list (payload_term M) ps)),
            listed (map_list (payload_term M) ps),
            k,
          )
          refl in
      (qs, start_input-eq-collected_input R term ∙ collected, collected, same)
    where
      listed : (ts : List (Term F)) → to_list (of_list ts) ≡ ts
      listed [] = refl
      listed (t ∷ ts) = ap (◌∷◌ t) (listed ts)
