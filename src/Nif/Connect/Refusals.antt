-- ===== src/Nif/Connect/Refusals.antt =====
-- Which configurations `client_connect` refuses before it does anything.
use sdk_elixir.Base.{◌≡◌, String, none, some, err, [], ◌∷◌, arith}
use sdk_elixir.Base.Dict.{Dict}
use sdk_elixir.Converter.{Codecs}
use sdk_elixir.Client.{SdkClient, ClientResource}
use sdk_elixir.Nif.{Rustler, error_reply, params_map, required}
use sdk_elixir.Nif.Tls.{TempFiles}
use sdk_elixir.Nif.Connect.{parse_target, client_connect}
use sdk_elixir.Nif.Workflow.Requests.{problem, first_problem}

module _ (R : Rustler) (C : Codecs) (S : SdkClient) (F : TempFiles)
    (resource : ClientResource S C.Number → R.Term) where
  parse_target-problem :
      (t : R.Term) (m : Dict R.Term) (e : String)
      → R.decode_map t ≡ some m
      → first_problem R ("target_host" ∷ "namespace" ∷ []) m ≡ some e
      → parse_target R t ≡ err e
  unfolding parse_target first_problem problem params_map required
  parse_target-problem t m e h p = ground arith

  -- A configuration that is no map, or in which the address or the namespace is missing or is no
  -- text, is refused with the error that names what is wrong first; no file is written for it.
  pub client_connect-refuses :
      (t : R.Term) (w : F.World)
      → (R.decode_map t ≡ none
          → client_connect R C S F resource t w ≡ (error_reply R "Configuration must be a map", w))
        × ((m : Dict R.Term) (e : String)
            → R.decode_map t ≡ some m
            → first_problem R ("target_host" ∷ "namespace" ∷ []) m ≡ some e
            → client_connect R C S F resource t w ≡ (error_reply R e, w))
  unfolding client_connect parse_target params_map
  client_connect-refuses t w = (
    λ h. rw (client_connect, parse_target, params_map, h),
    λ m e h p. rw (client_connect, parse_target-problem t m e h p),
  )
