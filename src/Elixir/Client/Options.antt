-- ===== src/Elixir/Client/Options.antt =====
-- The configuration of a client: `build_config`, `opts_to_cfg` and `to_nif_config` of
-- lib/temporal/client.ex.
use sdk_elixir.Base.{String, ok, err, ◌>>=◌, none, some, unwrap_or, [], ◌∷◌}
use sdk_elixir.Base.Dict
use sdk_elixir.Base.Dict.{Dict}
use sdk_elixir.Base.Utf8.{bytes}
use sdk_elixir.Elixir.Term.{Term, atom, binary, map, end, Machine, or_term, to_string}
use sdk_elixir.Elixir.Maps.{Entries, map_new}
use sdk_elixir.Elixir.PayloadConverter.{Raises}
use sdk_elixir.Elixir.Client.Config.{Config, nil_term, text_term, validate}
use sdk_elixir.Elixir.Client.Config.Env.{System, from_env}

-- A keyword list. Of the entries with one key `Keyword.get` gives the first one.
abbrev pub Keyword : Type 0 → Type 0
Keyword F = Dict (Term F)

module _ {F : Type 0} (M : Machine F) where
  unfoldable pub keyword_get : Keyword F → String → Term F → Term F
  unfolding Dict.get
  keyword_get opts key d = unwrap_or d (Dict.get key opts)

  unfoldable pub as_text : Term F → Raises (Term F)
  unfolding to_string
  as_text t = elim (to_string M t) [ some b ↦ ok (binary b) | none ↦ err "Protocol.UndefinedError" ]

  -- `%Config{…}`: the fields that are not named have the defaults of the struct.
  unfoldable pub opts_to_cfg : Keyword F → Raises (Config F)
  unfolding keyword_get as_text
  opts_to_cfg opts =
      let host =
        or_term (keyword_get opts "host" nil_term) (keyword_get opts "target_url" nil_term) in
      do
        host ← as_text (or_term host (text_term "localhost:7233"))
        namespace ← as_text (keyword_get opts "namespace" (text_term "default"))
        task_queue ← as_text (keyword_get opts "task_queue" (text_term "default"))
        ok (record {
          host = host;
          namespace = namespace;
          task_queue = task_queue;
          tls = keyword_get opts "tls" nil_term;
          retries = keyword_get opts "retries" (map end);
          identity = keyword_get opts "identity" nil_term;
          headers = keyword_get opts "headers" (map end);
          payload_converter = atom "default";
          payload_converter_options = map end;
        })

  -- `Map.merge` of two structs: a struct has all the keys, so the second one gives every value.
  unfoldable pub merge_structs : Config F → Config F → Config F
  merge_structs a b = record a {
    host = b.host;
    namespace = b.namespace;
    task_queue = b.task_queue;
    tls = b.tls;
    retries = b.retries;
    identity = b.identity;
    headers = b.headers;
    payload_converter = b.payload_converter;
    payload_converter_options = b.payload_converter_options;
  }

  -- The entries of the map for the native function.
  unfoldable pub nif_entries : Config F → Entries (Term F)
  unfolding bytes
  nif_entries cfg =
      (bytes "target_host", cfg.host)
      ∷ (bytes "namespace", cfg.namespace)
      ∷ (bytes "task_queue", cfg.task_queue)
      ∷ (bytes "identity", cfg.identity)
      ∷ (bytes "headers", cfg.headers)
      ∷ (bytes "tls_config", cfg.tls)
      ∷ (bytes "retries", cfg.retries)
      ∷ (bytes "payload_converter", cfg.payload_converter)
      ∷ (bytes "payload_converter_options", cfg.payload_converter_options)
      ∷ []

  unfoldable pub to_nif_config : Config F → Term F
  unfolding nif_entries map_new
  to_nif_config cfg = map_new M (nif_entries cfg)

  -- `{:ok, cfg} = Config.validate(cfg)`
  unfoldable pub validated : Config F → Raises (Config F)
  unfolding validate
  validated cfg = do r ← validate M cfg; elim r [ ok c ↦ ok c | err errs ↦ err "MatchError" ]

  -- The clause for a struct, and the clause for a list of options.
  unfoldable pub build_config_of_struct : Config F → Raises (Term F)
  unfolding validated to_nif_config
  build_config_of_struct cfg = do cfg ← validated cfg; ok (to_nif_config cfg)

  unfoldable pub build_config : System → Keyword F → Raises (Term F)
  unfolding from_env opts_to_cfg merge_structs validated to_nif_config
  build_config S opts =
      let env = from_env M S in
      do given ← opts_to_cfg opts; cfg ← validated (merge_structs env given); ok (to_nif_config cfg)
