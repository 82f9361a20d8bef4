-- ===== src/Elixir/Client/Config/Env.antt =====
-- `from_env` of lib/temporal/client/config.ex.
use sdk_elixir.Base.{
  ℕ, ◌*◌, eqb, String, if◌then◌else◌, Bool, true, false, ◌||◌, not, Option, none, some, is_some,
  unwrap_or, List, [], ◌∷◌,
}
use mathlib.Core.Option
use sdk_elixir.Base.Utf8.{Bytes, bytes, bytes_eq}
use sdk_elixir.Elixir.Term.{
  Term, Terms, atom, binary, list, map, end, pair, nil, cons, Machine, tuple,
}
use sdk_elixir.Elixir.Maps.{Entries, put, fetch, of_entries}
use sdk_elixir.Elixir.PayloadConverter.JsonConverter.{AtomHandling, as_string, as_atom, as_error}
use sdk_elixir.Elixir.Client.Config.{Config, nil_term, text_term, number_term}
use sdk_elixir.Elixir.Client.Config.Resolve.{
  ConverterType, nil_type, binary_type, json_type, protobuf_type, custom_type,
}
use sdk_elixir.Elixir.Client.Config.Parse.{
  parse_int, parse_bool, parse_payload_converter, parse_atom_handling,
}

-- The environment of the process, and what is called of `File`: the content of a regular file that
-- exists and can be read.
pub record System : Type 0 where
  pub env : Entries Bytes
  pub read : Bytes → Option Bytes

module _ (S : System) where
  unfoldable pub get_env : String → Option Bytes
  unfolding fetch bytes
  get_env name = fetch (bytes name) S.env

  -- `String.contains?(val, "/") or String.contains?(val, "\\")`
  unfoldable pub is_path : Bytes → Bool
  is_path [] = false
  is_path (c ∷ cs) = let rest = is_path cs in eqb c 47 || (eqb c 92 || rest)

  unfoldable pub maybe_read_pem_or_path : Bytes → Bytes
  unfolding is_path
  maybe_read_pem_or_path val = if is_path val then unwrap_or val (S.read val) else val

-- `String.starts_with?(k, prefix)`, with the rest of `k`.
unfoldable pub after_prefix : Bytes → Bytes → Option Bytes
after_prefix [] k = some k
after_prefix (c ∷ p) [] = none
after_prefix (c ∷ p) (d ∷ k) = let rest = after_prefix p k in if eqb c d then rest else none

module _ {F : Type 0} where
  -- A value of the environment, or `nil`.
  abbrev pub env_term : Option Bytes → Term F
  env_term none = nil_term
  env_term (some b) = binary b

  abbrev pub flag_term : Option Bool → Term F
  flag_term none = nil_term
  flag_term (some true) = atom "true"
  flag_term (some false) = atom "false"

  abbrev pub type_term : ConverterType → Term F
  type_term nil_type = nil_term
  type_term binary_type = atom "binary"
  type_term json_type = atom "json"
  type_term protobuf_type = atom "protobuf"
  type_term (custom_type name) = tuple (cons (atom "custom") (cons (atom name) nil))

  abbrev pub type_terms : List ConverterType → Terms F
  type_terms [] = nil
  type_terms (t ∷ ts) = cons (type_term t) (type_terms ts)

  abbrev pub handling_term : AtomHandling → Term F
  handling_term as_string = atom "string"
  handling_term as_atom = atom "atom"
  handling_term as_error = atom "error"

  module _ (M : Machine F) (S : System) where
    -- The entries named TEMPORAL_HEADER_…: `Enum.filter` and `Enum.reduce` with `Map.put`.
    unfoldable pub env_headers : Entries (Term F) → Entries Bytes → Entries (Term F)
    unfolding after_prefix put bytes
    env_headers headers [] = headers
    env_headers headers ((k, v) ∷ es) = elim (after_prefix (bytes "TEMPORAL_HEADER_") k) [
      | none ↦ env_headers headers es
      | some name ↦ env_headers (put (M.downcase name) (binary v) headers) es
    ]

    -- `v not in [nil, ""]`
    unfoldable pub is_set : Option Bytes → Bool
    unfolding bytes_eq
    is_set none = false
    is_set (some b) = not (bytes_eq b [])

    unfoldable pub env_tls : Term F
    unfolding get_env maybe_read_pem_or_path parse_bool is_set
    env_tls =
        let read = λ (name : String). Option.map (maybe_read_pem_or_path S) (get_env S name) in
        let insecure = parse_bool M (get_env S "TEMPORAL_TLS_INSECURE_SKIP_VERIFY") in
        if is_set (read "TEMPORAL_TLS_CA")
          || (is_set (read "TEMPORAL_TLS_CERT")
              || (is_set (read "TEMPORAL_TLS_KEY")
                  || (is_set (get_env S "TEMPORAL_TLS_SERVER_NAME") || is_some insecure)))
        then map (
            pair (atom "ca_cert") (env_term (read "TEMPORAL_TLS_CA")) (
              pair (atom "client_cert") (env_term (read "TEMPORAL_TLS_CERT")) (
                pair (atom "client_key") (env_term (read "TEMPORAL_TLS_KEY")) (
                  pair (atom "server_name") (env_term (get_env S "TEMPORAL_TLS_SERVER_NAME"))
                    (pair (atom "insecure_skip_verify") (flag_term insecure) end)))))
        else nil_term

    -- `System.get_env(name) || default`
    unfoldable pub env_or : String → String → Term F
    unfolding get_env
    env_or name d = elim (get_env S name) [ some b ↦ binary b | none ↦ text_term d ]

    unfoldable pub env_int : String → ℕ → Term F
    unfolding get_env parse_int
    env_int name d = number_term (parse_int (get_env S name) d)

    -- `:default`, or a list of types.
    unfoldable pub spec_term : Option (List ConverterType) → Term F
    spec_term none = atom "default"
    spec_term (some ts) = list (type_terms ts)

    unfoldable pub from_env : Config F
    unfolding env_headers env_tls env_or env_int spec_term get_env parse_payload_converter
        parse_atom_handling
    from_env = record {
      host = env_or "TEMPORAL_HOST" "localhost:7233";
      namespace = env_or "TEMPORAL_NAMESPACE" "default";
      task_queue = env_or "TEMPORAL_TASK_QUEUE" "default";
      tls = env_tls;
      retries = map (
          pair (atom "max_attempts") (env_int "TEMPORAL_RETRY_MAX_ATTEMPTS" 3) (
            pair (atom "initial_backoff_ms") (env_int "TEMPORAL_RETRY_INITIAL_BACKOFF_MS" 100)
              (pair (atom "max_backoff_ms") (env_int "TEMPORAL_RETRY_MAX_BACKOFF_MS" 5000) end)));
      identity = env_term (get_env S "TEMPORAL_IDENTITY");
      headers = map (M.iterate (of_entries (env_headers [] S.env)));
      payload_converter =
          spec_term (parse_payload_converter M (get_env S "TEMPORAL_PAYLOAD_CONVERTER"));
      payload_converter_options = map (
          pair (atom "json_max_depth") (env_int "TEMPORAL_JSON_MAX_DEPTH" 32) (
            pair (atom "json_atom_handling")
              (handling_term (parse_atom_handling M (get_env S "TEMPORAL_JSON_ATOM_HANDLING")))
              (pair (atom "binary_max_size") (env_int "TEMPORAL_BINARY_MAX_SIZE" (1024 * 1024))
                end)));
    }
