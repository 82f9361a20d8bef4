-- ===== src/Nif/Tls/Persist.antt =====
-- What becomes of temporary PEM files, which are persisted under the name that they have.
use sdk_elixir.Base.{
  ◌≡◌, refl, subst, Option-cases, String, Bool, true, Option, none, some, Result, ok, err, arith,
  inl, inr, ◌⊎◌,
}
use sdk_elixir.Base.Dict.{Dict}
use sdk_elixir.Base.Utf8.{Bytes, bytes}
use sdk_elixir.Client.{ClientTlsConfig}
use sdk_elixir.Nif.{Rustler, optional}
use sdk_elixir.Nif.Tls.{
  TempFiles, Io, give, bind, failing_with, persist_file, write_temp_pem, client_paths, ca_path,
  tls_of_map,
}

-- What the crate `tempfile` documents: a new temporary file exists under its path; writing to it
-- leaves it there; and `persist_noclobber` fails if a file exists at the target path.
pub record TempFilesLaws (F : TempFiles) : Type 1 where
  pub exists : F.World → String → Bool
  pub tempfile-exists :
      (prefix suffix : String) (w w' : F.World) (file : F.File) (path : String)
      → F.tempfile prefix suffix w ≡ (ok file, w')
      → F.path_text (F.into_temp_path file) ≡ some path
      → exists w' path ≡ true
  pub write_all-exists :
      (file : F.File) (b : Bytes) (w : F.World) (path : String)
      → exists w path ≡ true
      → exists (F.write_all file b w).1 path ≡ true
  pub persist_noclobber-exists :
      (from : F.TempPath) (path : String) (w : F.World)
      → exists w path ≡ true
      → (e : String) × ((F.persist_noclobber from path w).0 ≡ err e)

abbrev Fails : {A : Type 0} → Result A String → Type 0
Fails {A} r = (e : String) × (r ≡ err e)

module _ (F : TempFiles) where
  bind-Fails :
      (A B : Type 0) (m : Io F A) (f : A → Io F B) (w : F.World)
      → ((a : A) (w' : F.World) → m w ≡ (ok a, w') → Fails {A = B} (f a w').0)
      → Fails {A = B} (bind F m f w).0
  bind-Fails A B m f w h = go (m w) h
    where
      go :
          (r : Result A String × F.World)
          → ((a : A) (w' : F.World) → r ≡ (ok a, w') → Fails {A = B} (f a w').0)
          → Fails {A = B}
              (let (x, y) = r in
                elim x as (λ _. Result B String × F.World) [ ok a ↦ f a y | err e ↦ (err e, y) ]).0
      go (ok a, w') k = k a w' refl
      go (err e, w') k = (e, refl)

  failing_with-ok :
      (A : Type 0) (context : String) (m : Io F A) (w w' : F.World) (a : A)
      → failing_with F context m w ≡ (ok a, w')
      → m w ≡ (ok a, w')
  failing_with-ok A context m w w' a h = ground arith

module _ (F : TempFiles) (L : TempFilesLaws F) where
  not_both :
      {A : Type 0} {w' : F.World} {a : A} (m : String) (r : Result A String × F.World)
      → r.0 ≡ err m
      → r ≡ (ok a, w')
      → ⊥
  not_both m r h k = ground arith

  persist_file-Fails :
      (file : F.File) (w : F.World)
      → ((path : String) → F.path_text (F.into_temp_path file) ≡ some path → L.exists w path ≡ true)
      → Fails {A = String} (persist_file F file w).0
  unfolding persist_file
  persist_file-Fails file w h = elim (Option-cases (F.path_text (F.into_temp_path file))) [
    | inl e ↦ rw (e, persist_file) ("Invalid temp path", refl)
    | inr (path, e) ↦
        let (m, fails) = L.persist_noclobber-exists (F.into_temp_path file) path w (h path e) in
        rw (e, persist_file)
          (bind-Fails F (Unit {0}) String
            (failing_with F "Failed to persist temp file: "
              (F.persist_noclobber (F.into_temp_path file) path))
            (λ _. give F (ok path)) w
            λ a w' kept. absurd (
              not_both m (F.persist_noclobber (F.into_temp_path file) path w) fails (
                failing_with-ok F (Unit {0}) "Failed to persist temp file: "
                  (F.persist_noclobber (F.into_temp_path file) path) w w' a kept)))
  ]

  abbrev created : String → Io F F.File
  created prefix = failing_with F "Failed to create temp file: " (F.tempfile prefix ".pem")

  abbrev written_to : String → F.File → Io F (Unit {0})
  written_to contents file =
      failing_with F "Failed to write temp file: " (F.write_all file (bytes contents))

  abbrev write_and_persist : String → F.File → Io F String
  write_and_persist contents file = bind F (written_to contents file) (λ _. persist_file F file)

  -- `write_temp_pem` returns an error for every prefix and text and in every state of the file
  -- system, if `tempfile` does what it documents: the target of `persist_noclobber` is the file
  -- itself, which exists.
  pub write_temp_pem_fails :
      (prefix contents : String) (w : F.World)
      → (e : String) × ((write_temp_pem F prefix contents w).0 ≡ err e)
  unfolding write_temp_pem
  write_temp_pem_fails prefix contents w =
      bind-Fails F F.File String (created prefix) (write_and_persist contents) w λ file w₁ made.
        bind-Fails F (Unit {0}) String (written_to contents file) (λ _. persist_file F file) w₁
          λ _ w₂ written. persist_file-Fails file w₂ λ path named.
            subst (λ (r : Result (Unit {0}) String × F.World). L.exists r.1 path ≡ true)
              (failing_with-ok F (Unit {0}) "Failed to write temp file: "
                (F.write_all file (bytes contents)) w₁ w₂ tt written)
              (L.write_all-exists file (bytes contents) w₁ path (
                L.tempfile-exists prefix ".pem" w w₁ file path
                  (failing_with-ok F F.File "Failed to create temp file: "
                    (F.tempfile prefix ".pem") w w₁ file made)
                  named))

  bind-Fails_left :
      (A B : Type 0) (m : Io F A) (f : A → Io F B) (w : F.World)
      → Fails (m w).0
      → Fails {A = B} (bind F m f w).0
  bind-Fails_left A B m f w (e, h) = bind-Fails F A B m f w λ a w' k. absurd (not_both e (m w) h k)

  abbrev key_after : String → String → Io F (Option String × Option String)
  key_after key cert_path =
      bind F (write_temp_pem F "temporal_key" key)
        (λ key_path. give F (ok (some cert_path, some key_path)))

  client_paths-Fails :
      (cert_path key_path : Option String) (cert key : String) (w : F.World)
      → (cert_path ≡ none) ⊎ (key_path ≡ none)
      → Fails (client_paths F cert_path key_path (some cert) (some key) w).0
  unfolding client_paths
  client_paths-Fails (some c) (some k) cert key w (inl h) = cc
  client_paths-Fails (some c) (some k) cert key w (inr h) = cc
  client_paths-Fails (some c) none cert key w h =
      bind-Fails_left String (Option String × Option String) (write_temp_pem F "temporal_cert" cert)
        (key_after key) w (write_temp_pem_fails "temporal_cert" cert w)
  client_paths-Fails none key_path cert key w h =
      bind-Fails_left String (Option String × Option String) (write_temp_pem F "temporal_cert" cert)
        (key_after key) w (write_temp_pem_fails "temporal_cert" cert w)

  -- A TLS configuration that gives the client's certificate and key as texts, and not both as
  -- paths, is refused in every state of the file system, if `tempfile` does what it documents.
  pub tls_of_map_inline :
      (R : Rustler) (m : Dict R.Term) (cert key : String) (w : F.World)
      → optional R R.decode_string "client_cert" m ≡ some cert
      → optional R R.decode_string "client_key" m ≡ some key
      → (optional R R.decode_string "client_cert_path" m ≡ none)
        ⊎ (optional R R.decode_string "client_key_path" m ≡ none)
      → (e : String) × ((tls_of_map F R m w).0 ≡ err e)
  unfolding tls_of_map
  tls_of_map_inline R m cert key w c k p =
      rw (c, k)
        (bind-Fails_left (Option String × Option String) (Option ClientTlsConfig)
          (client_paths F (optional R R.decode_string "client_cert_path" m)
            (optional R R.decode_string "client_key_path" m) (some cert) (some key))
          (λ paths.
            bind F
              (ca_path F (optional R R.decode_string "ca_cert_path" m)
                (optional R R.decode_string "ca_cert" m))
              (λ ca. give F (
                ok (
                  some (record {
                    client_cert_path = paths.0;
                    client_key_path = paths.1;
                    ca_cert_path = ca;
                  })))))
          w (client_paths-Fails _ _ cert key w p))
