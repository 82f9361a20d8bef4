-- ===== src/Client/Connect/Paths.antt =====
-- The paths of the files that `connect` reads.
use sdk_elixir.Base.{
  Result-cases, inl, inr, subst, ◌≡◌, ◌⊎◌, ap, ◌∙◌, true, false, ◌<>◌, contains, String, Option,
  none, some, ok, arith,
}
use sdk_elixir.Base.Contains.{contains-append}
use sdk_elixir.Base.Utf8.{Bytes}
use sdk_elixir.Converter.{Codecs}
use sdk_elixir.Client.{
  ClientTlsConfig, TlsConfig, ClientOptions, BuilderOptions, SdkClient, ClientResource,
}
use sdk_elixir.Client.Connect.{traverses, read_ca, read_pair, read_tls, builder_options, connect}

-- Somewhere in the path stands a step to the parent directory, with a slash or a backslash after it.
abbrev pub StepsUp : String → Type 0
StepsUp path =
    (a : String) × (b : String) × ((path ≡ a <> ("../" <> b)) ⊎ (path ≡ a <> ("..\\" <> b)))

not_traverses : (path : String) → traverses path ≡ false → ¬ StepsUp path
not_traverses path h (a, b, inl e) =
    let k : contains path "../" ≡ true = ap (λ p. contains p "../") e ∙ contains-append a "../" b in
    ground arith
not_traverses path h (a, b, inr e) =
    let k : contains path "..\\" ≡ true =
      ap (λ p. contains p "..\\") e ∙ contains-append a "..\\" b in
    ground arith

-- No path that the configuration gives steps upwards: neither that of the CA certificate, nor those
-- of the client's certificate and key, if both are given.
abbrev pub Contained : ClientTlsConfig → Type 0
Contained tls =
    ((path : String) → tls.ca_cert_path ≡ some path → ¬ StepsUp path)
    × ((cert key : String)
        → tls.client_cert_path ≡ some cert
        → tls.client_key_path ≡ some key
        → (¬ StepsUp cert) × (¬ StepsUp key))

module _ (S : SdkClient) where
  -- The checks of the two readers.
  read_ca_checks :
      (o : Option String) (r : Option Bytes)
      → read_ca S o ≡ ok r
      → (path : String) → o ≡ some path
      → ¬ StepsUp path
  unfolding read_ca
  read_ca_checks none r h path e = absurd (ground arith)
  read_ca_checks (some p) r h path e = not_traverses path (ground arith)

  read_pair_checks :
      (o k : Option String) (r : Option (Bytes × Bytes))
      → read_pair S o k ≡ ok r
      → (cert key : String) → o ≡ some cert
      → k ≡ some key
      → (¬ StepsUp cert) × (¬ StepsUp key)
  unfolding read_pair
  read_pair_checks (some c) (some k) r h cert key e f =
      (not_traverses cert (ground arith), not_traverses key (ground arith))
  read_pair_checks none k r h cert key e f = absurd (ground arith)
  read_pair_checks (some c) none r h cert key e f = absurd (ground arith)

  read_tls-Contained :
      (tls : ClientTlsConfig) (r : Option TlsConfig) → read_tls S (some tls) ≡ ok r → Contained tls
  unfolding read_tls
  read_tls-Contained tls r h = elim (Result-cases (read_ca S tls.ca_cert_path)) [
    | inl (ca, e) ↦ elim (Result-cases (read_pair S tls.client_cert_path tls.client_key_path)) [
      | inl (pair, f) ↦ (
        read_ca_checks tls.ca_cert_path ca e,
        read_pair_checks tls.client_cert_path tls.client_key_path pair f,
      )
      | inr (x, f) ↦ ground arith
    ]
    | inr (x, e) ↦ ground arith
  ]

  builder_options-Contained :
      (target_url : String) (options : ClientOptions) (b : BuilderOptions S.Url)
      → (tls : ClientTlsConfig) → builder_options S target_url options ≡ ok b
      → options.tls ≡ some tls
      → Contained tls
  unfolding builder_options
  builder_options-Contained target_url options b tls h e =
      elim (Result-cases (read_tls S options.tls)) [
        | inl (r, f) ↦ read_tls-Contained tls r (subst (λ o. read_tls S o ≡ ok r) e f)
        | inr (x, f) ↦ ground arith
      ]

  -- If `connect` succeeds with a TLS configuration, a step to the parent directory, which is two dots
  -- and a slash or a backslash, stands nowhere in a path of the configuration, neither in that of the
  -- CA certificate, nor in those of the client's certificate and key, if both are given.
  pub connect-Contained :
      (C : Codecs) (target_url namespace : String) (options : ClientOptions)
      → (client : ClientResource S C.Number) (tls : ClientTlsConfig)
      → connect S C target_url namespace options ≡ ok client
      → options.tls ≡ some tls
      → Contained tls
  unfolding connect
  connect-Contained C target_url namespace options client tls h e =
      elim (Result-cases (builder_options S target_url options)) [
        | inl (b, made) ↦ builder_options-Contained target_url options b tls made e
        | inr (x, f) ↦ ground arith
      ]
