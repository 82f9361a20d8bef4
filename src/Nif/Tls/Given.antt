-- ===== src/Nif/Tls/Given.antt =====
-- TLS configurations that give paths.
use sdk_elixir.Base.{◌≡◌, refl, String, Option, none, some, ok}
use sdk_elixir.Base.Dict.{Dict}
use sdk_elixir.Client.{ClientTlsConfig}
use sdk_elixir.Nif.{Rustler, optional}
use sdk_elixir.Nif.Tls.{TempFiles, bind, give, client_paths, ca_path, tls_of_map}

-- The two paths are used if both are given.
abbrev pub both : Option String → Option String → Option String × Option String
both (some cert) (some key) = (some cert, some key)
both _ _ = (none, none)

module _ (F : TempFiles) where
  paths_given :
      (cert key key_text ca : Option String) (w : F.World)
      → bind F {B = Option ClientTlsConfig}
          (client_paths F cert key none key_text)
          (λ paths. bind F {B = Option ClientTlsConfig} (ca_path F ca none) (λ ca_cert_path.
            give F (
              ok (
                some (record {
                  client_cert_path = paths.0;
                  client_key_path = paths.1;
                  ca_cert_path = ca_cert_path;
                })))))
          w
        ≡ (
          ok (
              some (record {
                client_cert_path = (both cert key).0;
                client_key_path = (both cert key).1;
                ca_cert_path = ca;
              })),
          w,
        )
  unfolding client_paths ca_path
  paths_given (some c) (some k) t none w = refl
  paths_given (some c) (some k) t (some a) w = refl
  paths_given (some c) none t none w = refl
  paths_given (some c) none t (some a) w = refl
  paths_given none k t none w = refl
  paths_given none k t (some a) w = refl

  module _ (R : Rustler) (m : Dict R.Term) where
    abbrev text : String → Option String
    text key = optional R R.decode_string key m

    -- A TLS configuration without the texts of a client's certificate and of a CA certificate is taken
    -- as it is, and no file is written: the path of the CA certificate is the one given, and those
    -- of the client's certificate and key are the ones given, or none if one of them is missing.
    pub tls_of_map-both :
        (w : F.World)
        → text "client_cert" ≡ none
        → text "ca_cert" ≡ none
        → tls_of_map F R m w ≡ (
          ok (
              some (record {
                client_cert_path = (both (text "client_cert_path") (text "client_key_path")).0;
                client_key_path = (both (text "client_cert_path") (text "client_key_path")).1;
                ca_cert_path = text "ca_cert_path";
              })),
          w,
        )
    unfolding tls_of_map
    tls_of_map-both w c a =
        rw (tls_of_map, c, a)
          (paths_given (text "client_cert_path") (text "client_key_path") (text "client_key")
            (text "ca_cert_path") w)
