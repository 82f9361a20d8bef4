-- ===== src/Elixir/Bridge/Connect.antt =====
-- The configuration of a client, as `client_connect` reads it.
use sdk_elixir.Base.{
  String, true, ◌≡◌, refl, ap, Option, none, some, Result, ok, err, then_try, ◌>>=◌,
}
use sdk_elixir.Base.Dict
use sdk_elixir.Base.Dict.{Dict}
use sdk_elixir.Base.Utf8.{bytes, bytes_eq}
use sdk_elixir.Converter.{Codecs}
use sdk_elixir.Converter.Composite.{default}
use sdk_elixir.Client.{ClientTlsConfig, ClientOptions, SdkClient, ClientResource}
use sdk_elixir.Client.Connect.{connect}
use sdk_elixir.Nif.{Rustler, error_reply, params_map, required, optional}
use sdk_elixir.Nif.Tls.{TempFiles, parse_tls_config}
use sdk_elixir.Nif.Connect.{
  client_connect, parse_target, parse_retries, client_options, configured_converter, connected,
}
use sdk_elixir.Elixir.Term.{Term, atom, binary, Machine}
use sdk_elixir.Elixir.Maps.{fetch}
use sdk_elixir.Elixir.Client.Config.{Config}
use sdk_elixir.Elixir.Client.Options.{nif_entries, to_nif_config}
use sdk_elixir.Elixir.Bridge.{Carries}
use sdk_elixir.Elixir.Bridge.NifMap.{
  IsAtomMap, nif_map, decode_nif_config, get-entry, get-missing, decode_map-IsAtomMap,
}

module _ {F : Type 0} (M : Machine F) (R : Rustler) (B : Carries M R) (cfg : Config F) where
  parse_tls_config-none :
      (T : TempFiles) (w : T.World)
      → IsAtomMap cfg.tls
      → parse_tls_config T R (nif_map M R B cfg) w ≡ (ok none, w)
  unfolding parse_tls_config fetch nif_entries bytes bytes_eq
  parse_tls_config-none T w h =
      rw
        (
          get-entry M R B cfg "tls_config" cfg.tls refl,
          decode_map-IsAtomMap M R B cfg cfg.tls h,
          parse_tls_config,
        )
        refl

  configured_converter-default :
      (C : Codecs)
      → cfg.payload_converter ≡ atom "default"
      → configured_converter R C (nif_map M R B cfg) ≡ default C
  unfolding configured_converter fetch nif_entries bytes bytes_eq
  configured_converter-default C h =
      rw
        (
          get-entry M R B cfg "payload_converter" cfg.payload_converter refl,
          h,
          B.decode_list_atom "default",
          configured_converter,
        )
        refl

  retries_none :
      IsAtomMap cfg.retries → optional R (parse_retries R) "retries" (nif_map M R B cfg) ≡ none
  unfolding optional parse_retries fetch nif_entries bytes bytes_eq
  retries_none h =
      rw
        (
          get-entry M R B cfg "retries" cfg.retries refl,
          decode_map-IsAtomMap M R B cfg cfg.retries h,
          parse_retries,
        )
        refl

  required_text :
      (key s : String) (t : Term F)
      → Dict.get key (nif_map M R B cfg) ≡ some (B.embed t)
      → t ≡ binary (bytes s)
      → required R key (nif_map M R B cfg) ≡ ok s
  unfolding required
  required_text key s t h e = rw (h, e, B.decode_string_text s, required) refl

  nif_params :
      params_map R "Configuration must be a map" (B.embed (to_nif_config M cfg))
      ≡ ok (nif_map M R B cfg)
  unfolding params_map
  nif_params = rw ((decode_nif_config M R B cfg), params_map) refl

  nif_target :
      (host namespace : String)
      → cfg.host ≡ binary (bytes host)
      → cfg.namespace ≡ binary (bytes namespace)
      → parse_target R (B.embed (to_nif_config M cfg)) ≡ ok ((nif_map M R B cfg), host, namespace)
  unfolding parse_target
  nif_target host namespace h k =
      rw
        (
          nif_params,
          required_text "target_host" host cfg.host
              (get-entry M R B cfg "target_host" cfg.host
                (unfold fetch nif_entries bytes bytes_eq in refl))
              h,
          required_text "namespace" namespace cfg.namespace
              (get-entry M R B cfg "namespace" cfg.namespace
                (unfold fetch nif_entries bytes bytes_eq in refl))
              k,
          parse_target,
        )
        refl

  -- The options that reach the native client.
  abbrev pub bare_options : ClientOptions
  bare_options = record {
    tls = none;
    client_name = none;
    client_version = none;
    identity = R.decode_string (B.embed cfg.identity);
    api_key = none;
    skip_system_info = true;
    headers = R.decode_string_map (B.embed cfg.headers);
    retries = none;
  }

  nif_options : IsAtomMap cfg.retries → client_options R none (nif_map M R B cfg) ≡ bare_options
  unfolding client_options optional fetch nif_entries bytes bytes_eq
  nif_options h =
      rw
        (
          retries_none h,
          get-entry M R B cfg "identity" cfg.identity refl,
          get-entry M R B cfg "headers" cfg.headers refl,
          get-missing M R B cfg "client_name" refl,
          get-missing M R B cfg "client_version" refl,
          get-missing M R B cfg "api_key" refl,
          get-missing M R B cfg "skip_system_info" refl,
          client_options,
        )
        refl

  -- The client that the native function makes, or its error, and what it replies.
  abbrev pub bare_client :
      (C : Codecs) (S : SdkClient) → String → String → Result (ClientResource S C.Number) String
  bare_client C S host namespace = do
    client ← connect S C host namespace bare_options
    ok (record client { converter = default C })

  abbrev pub connect_reply : {A : Type 0} → (A → R.Term) → Result A String → R.Term
  connect_reply resource (ok client) = resource client
  connect_reply resource (err message) = error_reply R message

  nif_connected :
      (C : Codecs) (S : SdkClient) (host namespace : String)
      → IsAtomMap cfg.retries
      → cfg.payload_converter ≡ atom "default"
      → connected R C S host namespace none (nif_map M R B cfg) ≡ bare_client C S host namespace
  unfolding connected
  nif_connected C S host namespace r c = λ i.
      then_try (connect S C host namespace (nif_options r i))
        (λ client. ok (record client { converter = configured_converter-default C c i }))

  -- A configuration whose TLS is nil or a map with an atom among its keys, whose retries are such a map,
  -- and whose payload converters are :default: client_connect takes of it the address, the
  -- namespace, the identity and the headers, and makes a client without TLS, without retries and with
  -- the default converters.
  pub client_connect_bare :
      (C : Codecs) (S : SdkClient) (T : TempFiles) (resource : ClientResource S C.Number → R.Term)
      (host namespace : String) (w : T.World)
      → cfg.host ≡ binary (bytes host)
      → cfg.namespace ≡ binary (bytes namespace)
      → IsAtomMap cfg.tls
      → IsAtomMap cfg.retries
      → cfg.payload_converter ≡ atom "default"
      → client_connect R C S T resource (B.embed (to_nif_config M cfg)) w
        ≡ (connect_reply resource (bare_client C S host namespace), w)
  unfolding client_connect
  client_connect_bare C S T resource host namespace w h k t r c =
      rw
        (
          nif_target host namespace h k,
          parse_tls_config-none T w t,
          nif_connected C S host namespace r c,
          client_connect,
        )
        (replies (bare_client C S host namespace) _ (
          ap (λ (x : Result (Option ClientTlsConfig) String × T.World). x.1)
            (parse_tls_config-none T w t)))
    where
      replies :
          (x : Result (ClientResource S C.Number) String) (v : T.World)
          → v ≡ w
          → (elim x as (λ _. R.Term × T.World) [
            | ok client ↦ (resource client, v)
            | err message ↦ (error_reply R message, v)
          ])
            ≡ (connect_reply resource x, w)
      replies (ok client) v e = ap (λ u. (resource client, u)) e
      replies (err message) v e = ap (λ u. (error_reply R message, u)) e
