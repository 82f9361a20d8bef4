-- ===== src/Nif/Connect/Configured.antt =====
-- The converters that a client is given by its configuration.
use sdk_elixir.Base.{
  ℕ, ◌*◌, ◌≤◌, ◌≡◌, refl, inl, inr, arith, All, List, [], ◌∷◌, String, ◌==◌, true, false, Option,
  ok, and_then, Option-cases, Bool-cases, Result-cases,
}
use sdk_elixir.Base.Dict
use sdk_elixir.Base.Dict.{Dict}
use sdk_elixir.Json.{Value}
use sdk_elixir.Converter.{Payload, Codecs}
use sdk_elixir.Converter.NilConverter
use sdk_elixir.Converter.BinaryConverter
use sdk_elixir.Converter.JsonConverter
use sdk_elixir.Converter.JsonConverter.{JsonConverter}
use sdk_elixir.Converter.Composite.{Converters, default, to_payload, from_payload}
use sdk_elixir.Converter.Composite.Order.{new-All}
use sdk_elixir.Converter.Composite.BuiltIn.{IsLawful, IsBuiltIn}
use sdk_elixir.Converter.Composite.RoundTrip.{from_payload-to_payload}
use sdk_elixir.Converter.JsonConverter.Canonical.{canonical}
use sdk_elixir.Converter.JsonConverter.Normal.{IsProper}
use sdk_elixir.Converter.JsonConverter.Numbers.{AllNumbers}
use sdk_elixir.Client.{ClientTlsConfig, SdkClient, ClientResource}
use sdk_elixir.Client.Connect.{connect}
use sdk_elixir.Nif.{Rustler}
use sdk_elixir.Nif.Connect.{
  option_or, named_converter, named_converters, chain_or_default, configured_converter,
  client_options, connected,
}

module _ (R : Rustler) (C : Codecs) where
  -- The limit of nesting that the configuration sets.
  abbrev pub json_depth : Dict R.Term → ℕ
  json_depth m = option_or R 32 "json_max_depth" (Dict.get "payload_converter_options" m)

  named-IsBuiltIn :
      (b d : ℕ) (item : R.Term) (rest : Converters C.Number)
      → d ≤ 127
      → All (IsBuiltIn C) rest
      → All (IsBuiltIn C) (named_converter R C b d item rest)
  unfolding named_converter
  named-IsBuiltIn b d item rest h a = elim (Option-cases (R.decode_string item)) [
    | inl e ↦ rw (named_converter, e) a
    | inr (s, e) ↦ elim (Bool-cases (s == "nil")) [
      | inl n ↦ rw (named_converter, e, n) (inl refl, a)
      | inr n ↦ elim (Bool-cases (s == "binary")) [
        | inl k ↦ rw (named_converter, e, n, k) (inr (inl (b, refl)), a)
        | inr k ↦ elim (Bool-cases (s == "json")) [
          | inl j ↦ rw (named_converter, e, n, k, j) (inr (inr (d, h, refl)), a)
          | inr j ↦ rw (named_converter, e, n, k, j) a
        ]
      ]
    ]
  ]

  names-IsBuiltIn :
      (b d : ℕ) (items : List R.Term) → d ≤ 127 → All (IsBuiltIn C) (named_converters R C b d items)
  unfolding named_converters
  names-IsBuiltIn b d [] h = tt
  names-IsBuiltIn b d (item ∷ items) h =
      named-IsBuiltIn b d item (named_converters R C b d items) h (names-IsBuiltIn b d items h)

  default-IsBuiltIn : All (IsBuiltIn C) (default C)
  unfolding default
  default-IsBuiltIn =
      new-All (IsBuiltIn C)
        (NilConverter.converter
          ∷ BinaryConverter.converter C (1024 * 1024)
          ∷ JsonConverter.converter C (record { max_depth = 32; sort_keys = true })
          ∷ [])
        (inl refl, (inr (inl (1024 * 1024, refl)), (inr (inr (32, omega arith, refl)), tt)))

  chain_or_default-IsBuiltIn :
      (cs : Converters C.Number)
      → All (IsBuiltIn C) cs
      → All (IsBuiltIn C) (chain_or_default R C cs)
  unfolding chain_or_default
  chain_or_default-IsBuiltIn [] a = default-IsBuiltIn
  chain_or_default-IsBuiltIn (c ∷ cs) a = new-All (IsBuiltIn C) (c ∷ cs) a

  configured-IsBuiltIn :
      (m : Dict R.Term) → json_depth m ≤ 127 → All (IsBuiltIn C) (configured_converter R C m)
  unfolding configured_converter
  configured-IsBuiltIn m h =
      elim (Option-cases (and_then (Dict.get "payload_converter" m) R.decode_list)) [
        | inl e ↦ rw (configured_converter, e) default-IsBuiltIn
        | inr (items, e) ↦
            rw (configured_converter, e)
              (chain_or_default-IsBuiltIn _ (names-IsBuiltIn _ _ items h))
      ]

module _ (R : Rustler) (C : Codecs) (S : SdkClient) where
  connected_converter :
      (target_url namespace : String) (tls : Option ClientTlsConfig) (m : Dict R.Term)
      → (client : ClientResource S C.Number)
      → connected R C S target_url namespace tls m ≡ ok client
      → client.converter ≡ configured_converter R C m
  unfolding connected
  connected_converter target_url namespace tls m client h =
      elim (Result-cases (connect S C target_url namespace (client_options R tls m))) [
        | inl (c, e) ↦ ground arith
        | inr (x, e) ↦ ground arith
      ]

  -- Whatever list of converters the configuration of `client_connect` asks for, and whatever it
  -- leaves out: the client that is handed out reads back the payloads that it makes, as the
  -- canonical forms of the values, if `json_max_depth` is at most 127, for values whose maps list
  -- each key once and which hold no floating-point number.
  pub connected-reads_back :
      (L : IsLawful C) (target_url namespace : String) (tls : Option ClientTlsConfig)
      → (m : Dict R.Term) (client : ClientResource S C.Number) (v : Value C.Number) (p : Payload)
      → json_depth R C m ≤ 127
      → connected R C S target_url namespace tls m ≡ ok client
      → IsProper v
      → AllNumbers (λ n. L.is_f64 n ≡ false) v
      → to_payload client.converter v ≡ ok p
      → from_payload client.converter p ≡ ok (canonical C v)
  connected-reads_back L target_url namespace tls m client v p h made proper exact =
      rw (connected_converter target_url namespace tls m client made) (
        from_payload-to_payload C L v p proper exact (configured_converter R C m)
          (configured-IsBuiltIn R C m h))
