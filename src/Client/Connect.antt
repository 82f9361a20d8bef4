-- ===== src/Client/Connect.antt =====
-- `ClientResource::connect`
pub mod Paths
use sdk_elixir.Base.{
  String, ◌<>◌, Bool, true, false, ◌||◌, contains, if◌then◌else◌, is_some, Option, none, some,
  Result, ok, err, then_try, map_err, ◌>>=◌, ◌>>◌, unwrap_or,
}
use mathlib.Core.Option
use sdk_elixir.Base.Utf8.{Bytes}
use sdk_elixir.Converter.{Codecs}
use sdk_elixir.Converter.Composite.{default}
use sdk_elixir.Client.{
  ClientTlsConfig, RetryOptions, ClientOptions, TlsConfig, RetryConfig, BuilderOptions, SdkClient,
  ClientResource,
}

-- The check of a path for a step to the parent directory.
abbrev pub traverses : String → Bool
traverses path = contains path "../" || contains path "..\\"

abbrev pub retry_config : RetryOptions → RetryConfig
retry_config r = record {
  initial_interval_ms = r.initial_backoff_ms;
  max_interval_ms = r.max_backoff_ms;
  max_retries = r.max_attempts;
}

module _ (S : SdkClient) where
  -- `std::fs::read` of a checked path.
  unfoldable pub read_ca : Option String → Result (Option Bytes) String
  read_ca none = ok none
  read_ca (some path) =
      if traverses path
      then err "Invalid CA cert path"
      else then_try
          (map_err (λ e. "Failed to read CA cert file " <> path <> ": " <> e) (S.read_file path))
          (λ ca. ok (some ca))

  -- The certificate and the key of the client, if both are given.
  unfoldable pub read_pair : Option String → Option String → Result (Option (Bytes × Bytes)) String
  read_pair (some cert) (some key) =
      if traverses cert || traverses key then err "Invalid cert or key path" else do
        cert_data ←
            map_err (λ e. "Failed to read client cert file " <> cert <> ": " <> e)
              (S.read_file cert)
        key_data ←
            map_err (λ e. "Failed to read client key file " <> key <> ": " <> e) (S.read_file key)
        ok (some (cert_data, key_data))
  read_pair _ _ = ok none

  unfoldable pub read_tls : Option ClientTlsConfig → Result (Option TlsConfig) String
  unfolding read_ca read_pair
  read_tls none = ok none
  read_tls (some tls) = do
    ca ← read_ca tls.ca_cert_path
    client ← read_pair tls.client_cert_path tls.client_key_path
    ok (some (record { server_root_ca_cert = ca; client_tls_config = client }))

  abbrev pub full_url : String → ClientOptions → String
  full_url target_url options =
      (if is_some options.tls then "https" else "http") <> "://" <> target_url

  -- The options for sdk-core's builder.
  unfoldable pub builder_options : String → ClientOptions → Result (BuilderOptions S.Url) String
  unfolding read_tls
  builder_options target_url options = do
    url ←
        map_err (λ e. "Invalid URL '" <> full_url target_url options <> "': " <> e)
          (S.parse_url (full_url target_url options))
    tls ← read_tls options.tls
    ok (record {
      target_url = url;
      client_name = unwrap_or "temporal-elixir-sdk" options.client_name;
      client_version = unwrap_or "0.1.0" options.client_version;
      skip_get_system_info = options.skip_system_info;
      identity = options.identity;
      api_key = options.api_key;
      headers = options.headers;
      retry_config = Option.map retry_config options.retries;
      tls_cfg = tls;
    })

  unfoldable pub connect :
      (C : Codecs) → String → String → ClientOptions → Result (ClientResource S C.Number) String
  unfolding builder_options
  connect C target_url namespace options = do
    prepared ← builder_options target_url options
    built ← map_err (λ e. "Failed to build client options: " <> e) (S.build prepared)
    client ← map_err (λ e. "Connection failed: " <> e) (S.connect built namespace)
    ok (record { inner = client; converter = default C })
