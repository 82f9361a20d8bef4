-- ===== src/Elixir/Bridge/Options.antt =====
-- The options of `start_link`, as far as they reach the native client.
use sdk_elixir.Base.{String, ◌≡◌, refl, ◌∙◌, sym, ap, arith, Result-cases, ok, subst, inl, inr}
use sdk_elixir.Base.Utf8.{bytes}
use sdk_elixir.Converter.{Codecs}
use sdk_elixir.Client.{SdkClient, ClientResource}
use sdk_elixir.Nif.{Rustler}
use sdk_elixir.Nif.Tls.{TempFiles}
use sdk_elixir.Nif.Connect.{client_connect}
use sdk_elixir.Elixir.Term.{Term, atom, binary, Machine, or_term}
use sdk_elixir.Elixir.Client.Config.{Config, nil_term, text_term, validate}
use sdk_elixir.Elixir.Client.Config.Env.{System}
use sdk_elixir.Elixir.Client.Config.Valid.{validate-Validated, normalize-Normalized}
use sdk_elixir.Elixir.Client.Config.Normal.{config_errors-nil}
use sdk_elixir.Elixir.Client.Options.{
  Keyword, keyword_get, as_text, opts_to_cfg, merge_structs, validated, build_config, to_nif_config,
}
use sdk_elixir.Elixir.Bridge.{Carries}
use sdk_elixir.Elixir.Bridge.NifMap.{IsAtomMap}
use sdk_elixir.Elixir.Bridge.Connect.{client_connect_bare, bare_client, connect_reply}

module _ {F : Type 0} (M : Machine F) where
  -- What the validation leaves as it was, and the retries that it fills up.
  validate_keeps :
      (g c : Config F)
      → validate M g ≡ ok (ok c)
      → (c.tls ≡ g.tls) × (c.payload_converter ≡ g.payload_converter) × IsAtomMap c.retries
  validate_keeps g c h =
      let v = validate-Validated M g c h in
      let z = normalize-Normalized M g v.normal v.normalized in
      let (n, e) = (config_errors-nil v.normal v.entries v.faultless).3 in
      (
        ap (λ (m : Config F). m.tls) (v.result) ∙ ap (λ (m : Config F). m.tls) z.result,
        ap (λ (m : Config F). m.payload_converter) (v.result)
            ∙ ap (λ (m : Config F). m.payload_converter) z.result,
        inr (v.entries, "max_attempts", _, ap (λ (m : Config F). m.retries) v.result, e),
      )

  opts_to_cfg_fields :
      (opts : Keyword F) (g : Config F)
      → opts_to_cfg M opts ≡ ok g
      → (g.tls ≡ keyword_get M opts "tls" nil_term) × (g.payload_converter ≡ atom "default")
  unfolding opts_to_cfg
  opts_to_cfg_fields opts g h =
      elim (Result-cases
        (as_text M (or_term (given "host" "target_url") (text_term "localhost:7233")))) [
          | inr (x, e) ↦ absurd (ground arith)
          | inl (a, e) ↦
              elim (Result-cases
                (as_text M (keyword_get M opts "namespace" (text_term "default")))) [
                  | inr (x, k) ↦ absurd (ground arith)
                  | inl (b, k) ↦
                      elim (Result-cases
                        (as_text M (keyword_get M opts "task_queue" (text_term "default")))) [
                          | inr (x, l) ↦ absurd (ground arith)
                          | inl (d, l) ↦ (ground arith, ground arith)
                        ]
                ]
        ]
    where
      given : String → String → Term F
      given a b = or_term (keyword_get M opts a nil_term) (keyword_get M opts b nil_term)

  -- The environment has no part in the result.
  build_config-validate :
      (S : System) (opts : Keyword F) (g c : Config F)
      → opts_to_cfg M opts ≡ ok g
      → validate M g ≡ ok (ok c)
      → build_config M S opts ≡ ok (to_nif_config M c)
  unfolding build_config merge_structs validated
  build_config-validate S opts g c h k = rw (h, build_config, k, validated) refl

module _ {F : Type 0} (M : Machine F) (R : Rustler) (B : Carries M R) where
  -- Whatever the environment holds: of options that are valid, and whose TLS is nil or a map with an atom
  -- among its keys, the client is made without TLS, without retries and with the default
  -- converters; only host, namespace, identity and headers count.
  pub build_config-client_connect :
      (E : System) (opts : Keyword F) (g c : Config F) (C : Codecs) (S : SdkClient) (T : TempFiles)
      (resource : ClientResource S C.Number → R.Term) (host namespace : String) (w : T.World)
      → opts_to_cfg M opts ≡ ok g
      → validate M g ≡ ok (ok c)
      → c.host ≡ binary (bytes host)
      → c.namespace ≡ binary (bytes namespace)
      → IsAtomMap (keyword_get M opts "tls" nil_term)
      → (build_config M E opts ≡ ok (to_nif_config M c))
        × (client_connect R C S T resource (B.embed (to_nif_config M c)) w
            ≡ (connect_reply M R B c resource (bare_client M R B c C S host namespace), w))
  build_config-client_connect E opts g c C S T resource host namespace w o v h n t =
      let (a, b, r) = validate_keeps M g c v in
      let (p, q) = opts_to_cfg_fields M opts g o in
      (
        build_config-validate M E opts g c o v,
        client_connect_bare M R B c C S T resource host namespace w h n
            (subst IsAtomMap (sym (a ∙ p)) t) r (b ∙ q),
      )
