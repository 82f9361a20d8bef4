-- ===== src/Examples/Files.antt =====
-- A stand-in for the crate `tempfile`, and the theorems on the PEM files.
use sdk_elixir.Base.{
  String, ◌==◌, ◌<>◌, if◌then◌else◌, Bool, true, false, none, some, Result, ok, err, List, [], ◌∷◌,
  ◌≡◌, refl, inl, arith,
}
use package.text.Mathlib.TextPositions.{eq_refl}
use sdk_elixir.Base.Dict
use sdk_elixir.Base.Dict.{Dict}
use sdk_elixir.Nif.{optional}
use sdk_elixir.Nif.Tls.{TempFiles, write_temp_pem, tls_of_map}
use sdk_elixir.Nif.Tls.Persist.{TempFilesLaws, write_temp_pem_fails, tls_of_map_inline}
use sdk_elixir.Nif.{error_reply}
use sdk_elixir.Nif.Connect.{client_connect}
use sdk_elixir.Nif.Connect.Refusals.{client_connect-refuses}
use sdk_elixir.Nif.Workflow.Requests.{first_problem}
use sdk_elixir.Examples.Codec.{codec}
use sdk_elixir.Examples.Server.{server}
use sdk_elixir.Examples.Terms.{map, end, Term, text, terms}

-- The world is the list of the paths that exist; a new file is named by its prefix and suffix.
abbrev exists_in : List String → String → Bool
exists_in [] path = false
exists_in (p ∷ ps) path = let rest = exists_in ps path in if p == path then true else rest

abbrev pub files : TempFiles
files = record {
  World = List String;
  File = String;
  TempPath = String;
  tempfile = λ prefix suffix w. (ok (prefix <> suffix), (prefix <> suffix) ∷ w);
  write_all = λ file b w. (ok tt, w);
  into_temp_path = λ file. file;
  path_text = some;
  persist_noclobber =
      λ from path w. if exists_in w path then (err "file exists", w) else (ok tt, path ∷ w);
}

made_exists :
    (name : String) (w w' : List String) (file path : String)
    → (let r : Result String String × List String = (ok name, name ∷ w) in r ≡ (ok file, w'))
    → some file ≡ some path
    → exists_in w' path ≡ true
made_exists name w w' file path made named = ground (arith, eq_refl name)

files_laws : TempFilesLaws files
files_laws = record {
  exists = exists_in;
  tempfile-exists = λ prefix suffix w w' file path made named.
      made_exists (prefix <> suffix) w w' file path made named;
  write_all-exists = λ file b w path h. h;
  persist_noclobber-exists = λ from path w h. rw h ("file exists", refl);
}

write_temp_pem_fails_example :
    (e : String) × ((write_temp_pem files "temporal_ca" "PEM" []).0 ≡ err e)
write_temp_pem_fails_example = write_temp_pem_fails files files_laws "temporal_ca" "PEM" []

abbrev inline_map : Dict Term
inline_map = ("client_cert", text "C") ∷ ("client_key", text "K") ∷ []

text_of_cert : optional terms terms.decode_string "client_cert" inline_map ≡ some "C"
unfolding optional Dict.get
text_of_cert = refl

text_of_key : optional terms terms.decode_string "client_key" inline_map ≡ some "K"
unfolding optional Dict.get
text_of_key = refl

no_cert_path : optional terms terms.decode_string "client_cert_path" inline_map ≡ none
unfolding optional Dict.get
no_cert_path = refl

tls_of_map_inline_example : (e : String) × ((tls_of_map files terms inline_map []).0 ≡ err e)
tls_of_map_inline_example =
    tls_of_map_inline files files_laws terms inline_map "C" "K" [] text_of_cert text_of_key
      (inl no_cert_path)

abbrev path_map : Dict Term
path_map = ("client_cert_path", text "c.pem") ∷ ("ca_cert_path", text "ca.pem") ∷ []

no_cert_text : optional terms terms.decode_string "client_cert" path_map ≡ none
unfolding optional Dict.get
no_cert_text = refl

no_ca_text : optional terms terms.decode_string "ca_cert" path_map ≡ none
unfolding optional Dict.get
no_ca_text = refl

client_connect-refuses_example :
    (terms.decode_map (map end) ≡ none
      → client_connect terms codec server files (λ c. text c.inner) (map end) []
        ≡ (error_reply terms "Configuration must be a map", []))
    × ((m : Dict Term) (e : String)
        → terms.decode_map (map end) ≡ some m
        → first_problem terms ("target_host" ∷ "namespace" ∷ []) m ≡ some e
        → client_connect terms codec server files (λ c. text c.inner) (map end) []
          ≡ (error_reply terms e, []))
client_connect-refuses_example =
    client_connect-refuses terms codec server files (λ c. text c.inner) (map end) []
