-- ===== src/Nif/Connect.antt =====
-- `client_connect`
pub mod Configured
pub mod Refusals
use sdk_elixir.Base.{
  ℕ, ◌*◌, String, ◌==◌, if◌then◌else◌, Bool, true, Option, none, some, Result, ok, err, ◌>>=◌, ◌>>◌,
  and_then, unwrap_or, List, [], ◌∷◌,
}
use sdk_elixir.Base.Dict
use sdk_elixir.Base.Dict.{Dict}
use sdk_elixir.Converter.{PayloadConverter, Codecs}
use sdk_elixir.Converter.NilConverter
use sdk_elixir.Converter.BinaryConverter
use sdk_elixir.Converter.JsonConverter
use sdk_elixir.Converter.Composite.{Converters, new, default}
use sdk_elixir.Client.{ClientTlsConfig, ClientOptions, RetryOptions, SdkClient, ClientResource}
use sdk_elixir.Client.Connect.{connect}
use sdk_elixir.Nif.{Rustler, error_reply, params_map, required, optional}
use sdk_elixir.Nif.Tls.{TempFiles, Io, give, bind, parse_tls_config}

module _ (R : Rustler) where
  -- A number in the map of options, or its default.
  unfoldable pub option_or : ℕ → String → Option R.Term → ℕ
  unfolding optional
  option_or d key opts =
      unwrap_or d (and_then (and_then opts R.decode_map) (optional R R.decode_u64 key))

  module _ (C : Codecs) where
    -- One name of the list `payload_converter`: unknown names and other terms are skipped.
    unfoldable pub named_converter : ℕ → ℕ → R.Term → Converters C.Number → Converters C.Number
    named_converter binary_max json_depth item rest = elim (R.decode_string item) [
      | none ↦ rest
      | some s ↦
          if s == "nil"
          then NilConverter.converter ∷ rest
          else if s == "binary"
          then BinaryConverter.converter C binary_max ∷ rest
          else if s == "json"
          then JsonConverter.converter C (record { max_depth = json_depth; sort_keys = true })
            ∷ rest
          else rest
    ]

    unfoldable pub named_converters : ℕ → ℕ → List R.Term → Converters C.Number
    unfolding named_converter
    named_converters binary_max json_depth [] = []
    named_converters binary_max json_depth (item ∷ items) =
        named_converter binary_max json_depth item (named_converters binary_max json_depth items)

    -- `if !v.is_empty() { conv = CompositeConverter::new(v); }`
    unfoldable pub chain_or_default : Converters C.Number → Converters C.Number
    unfolding new default
    chain_or_default [] = default C
    chain_or_default (c ∷ cs) = new (c ∷ cs)

    unfoldable pub configured_converter : Dict R.Term → Converters C.Number
    unfolding named_converters chain_or_default option_or Dict.get
    configured_converter m =
        let opts = Dict.get "payload_converter_options" m in
        elim (and_then (Dict.get "payload_converter" m) R.decode_list) [
          | none ↦ default C
          | some items ↦ chain_or_default (
              named_converters (option_or (1024 * 1024) "binary_max_size" opts)
                (option_or 32 "json_max_depth" opts) items)
        ]

  unfoldable pub parse_retries : R.Term → Option RetryOptions
  unfolding optional
  parse_retries t = and_then (R.decode_map t) (λ m. some (record {
    max_attempts = unwrap_or 3 (optional R R.decode_u32 "max_attempts" m);
    initial_backoff_ms = unwrap_or 100 (optional R R.decode_u64 "initial_backoff_ms" m);
    max_backoff_ms = unwrap_or 5000 (optional R R.decode_u64 "max_backoff_ms" m);
  }))

  unfoldable pub client_options : Option ClientTlsConfig → Dict R.Term → ClientOptions
  unfolding optional parse_retries
  client_options tls m = record {
    tls = tls;
    client_name = optional R R.decode_string "client_name" m;
    client_version = optional R R.decode_string "client_version" m;
    identity = optional R R.decode_string "identity" m;
    api_key = optional R R.decode_string "api_key" m;
    skip_system_info = unwrap_or true (optional R R.decode_bool "skip_system_info" m);
    headers = optional R R.decode_string_map "headers" m;
    retries = optional R parse_retries "retries" m;
  }

  -- The map, the address and the namespace.
  unfoldable pub parse_target : R.Term → Result (Dict R.Term × String × String) String
  unfolding params_map required
  parse_target config = do
    m ← params_map R "Configuration must be a map" config
    target_url ← required R "target_host" m
    namespace ← required R "namespace" m
    ok (m, target_url, namespace)

  -- The client that is handed out has the configured converters.
  unfoldable pub connected :
      (C : Codecs) (S : SdkClient)
      → String
      → String
      → Option ClientTlsConfig
      → Dict R.Term
      → Result (ClientResource S C.Number) String
  unfolding client_options configured_converter connect
  connected C S target_url namespace tls m = do
    client ← connect S C target_url namespace (client_options tls m)
    ok (record client { converter = configured_converter C m })

  unfoldable pub client_connect :
      (C : Codecs) (S : SdkClient) (F : TempFiles)
      → (ClientResource S C.Number → R.Term)
      → R.Term
      → F.World
      → R.Term × F.World
  unfolding parse_target parse_tls_config connected
  client_connect C S F resource config w = elim (parse_target config) [
    | err message ↦ (error_reply R message, w)
    | ok (m, target_url, namespace) ↦
        let (tls, w') = parse_tls_config F R m w in
        elim tls [
          | err message ↦ (error_reply R message, w')
          | ok tls_config ↦ elim (connected C S target_url namespace tls_config m) [
            | ok client ↦ (resource client, w')
            | err message ↦ (error_reply R message, w')
          ]
        ]
  ]
