-- ===== src/Nif/Tls.antt =====
-- `parse_tls_config` and `write_temp_pem`, over the temporary files of the machine.
pub mod Persist
pub mod Given
use sdk_elixir.Base.{
  String, ◌<>◌, Option, none, some, Result, ok, err, ◌≡◌, Bool, true, or_else, and_then, List, [],
  ◌∷◌,
}
use sdk_elixir.Base.Dict
use sdk_elixir.Base.Dict.{Dict}
use sdk_elixir.Base.Utf8.{Bytes, bytes}
use sdk_elixir.Client.{ClientTlsConfig}
use sdk_elixir.Nif.{Rustler, optional}

-- What is called of the crate `tempfile`. Every call may change the file system, the `World`.
pub record TempFiles : Type 1 where
  pub World : Type 0
  pub File : Type 0
  pub TempPath : Type 0
  pub tempfile : String → String → World → Result File String × World
  pub write_all : File → Bytes → World → Result (Unit {0}) String × World
  pub into_temp_path : File → TempPath
  pub path_text : TempPath → Option String
  pub persist_noclobber : TempPath → String → World → Result (Unit {0}) String × World

module _ (F : TempFiles) where
  -- A computation with the file system, which may fail.
  abbrev pub Io : Type 0 → Type 0
  Io A = F.World → Result A String × F.World

  abbrev pub give : {A : Type 0} → Result A String → Io A
  give r w = (r, w)

  abbrev pub bind : {A B : Type 0} → Io A → (A → Io B) → Io B
  bind m f w = let (r, w') = m w in elim r [ ok a ↦ f a w' | err e ↦ (err e, w') ]

  abbrev pub failing_with : {A : Type 0} → String → Io A → Io A
  failing_with context m w =
      let (r, w') = m w in (sdk_elixir.Base.map_err (λ e. context <> e) r, w')

  -- The last part of `write_temp_pem`: the file is to be kept under its own path.
  unfoldable pub persist_file : F.File → Io String
  persist_file file = elim (F.path_text (F.into_temp_path file)) [
    | none ↦ give (err "Invalid temp path")
    | some path ↦
        bind
          (failing_with "Failed to persist temp file: "
            (F.persist_noclobber (F.into_temp_path file) path))
          (λ _. give (ok path))
  ]

  unfoldable pub write_temp_pem : String → String → Io String
  unfolding persist_file
  write_temp_pem prefix contents =
      bind (failing_with "Failed to create temp file: " (F.tempfile prefix ".pem")) (λ file.
        bind (failing_with "Failed to write temp file: " (F.write_all file (bytes contents)))
          (λ _. persist_file file))

  -- The paths of the client's certificate and key: those given, or those of files that are written
  -- from the texts given.
  unfoldable pub client_paths :
      Option String
      → Option String
      → Option String
      → Option String
      → Io (Option String × Option String)
  client_paths (some cert) (some key) _ _ = give (ok (some cert, some key))
  client_paths _ _ (some cert) (some key) = bind (write_temp_pem "temporal_cert" cert) (λ cert_path.
      bind (write_temp_pem "temporal_key" key)
        (λ key_path. give (ok (some cert_path, some key_path))))
  client_paths _ _ _ _ = give (ok (none, none))

  unfoldable pub ca_path : Option String → Option String → Io (Option String)
  ca_path (some path) _ = give (ok (some path))
  ca_path none (some pem) = bind (write_temp_pem "temporal_ca" pem) (λ path. give (ok (some path)))
  ca_path none none = give (ok none)

  module _ (R : Rustler) where
    unfoldable pub tls_of_map : Dict R.Term → Io (Option ClientTlsConfig)
    unfolding client_paths ca_path
    tls_of_map m =
        let text = λ (key : String). optional R R.decode_string key m in
        bind
          (client_paths (text "client_cert_path") (text "client_key_path") (text "client_cert")
            (text "client_key"))
          (λ paths. bind (ca_path (text "ca_cert_path") (text "ca_cert")) (λ ca. give (
            ok (
              some (record {
                client_cert_path = paths.0;
                client_key_path = paths.1;
                ca_cert_path = ca;
              })))))

    unfoldable pub parse_tls_config : Dict R.Term → Io (Option ClientTlsConfig)
    unfolding Dict.get tls_of_map
    parse_tls_config config =
        elim (or_else (Dict.get "tls_config" config) (Dict.get "tls" config)) [
          | none ↦ give (ok none)
          | some t ↦ elim (R.decode_map t) [ none ↦ give (ok none) | some m ↦ tls_of_map m ]
        ]
