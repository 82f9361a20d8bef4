-- ===== src/Elixir/Client/Config.antt =====
-- lib/temporal/client/config.ex: the struct, and `validate`.
pub mod Parse
pub mod Env
pub mod Resolve
pub mod Types
pub mod Valid
pub mod Normal
pub mod Faultless
pub mod Stable
use sdk_elixir.Base.{
  ℕ, String, ◌==◌, if◌then◌else◌, Bool, true, false, ◌||◌, Option, none, some, Result, ok, err,
  ◌>>=◌, ◌>>◌, then_try, unwrap_or, List, [], ◌∷◌, ◌++◌,
}
use sdk_elixir.Base.Int.{pos}
use sdk_elixir.Base.Utf8.{Bytes, bytes, bytes_eq}
use sdk_elixir.Elixir.Term.{
  Term, Pairs, atom, integer, binary, map, end, pair, Machine, is_falsy, or_term, atom_key,
  struct_module, to_string,
}
use sdk_elixir.Elixir.PayloadConverter.{Raises}

-- `defstruct`: the values are not checked before `validate`.
pub record Config (F : Type 0) : Type 0 where
  pub host : Term F
  pub namespace : Term F
  pub task_queue : Term F
  pub tls : Term F
  pub retries : Term F
  pub identity : Term F
  pub headers : Term F
  pub payload_converter : Term F
  pub payload_converter_options : Term F

-- The reasons in the list of errors.
pub data ConfigError : Type 0 where
  host_required : ConfigError
  namespace_required : ConfigError
  task_queue_required : ConfigError
  non_negative_integer_required : (key : String) → ConfigError
  tls_invalid_boolean : ConfigError
  tls_invalid : ConfigError

-- `Enum.reverse(errs)`
unfoldable pub reverse_onto : List ConfigError → List ConfigError → List ConfigError
reverse_onto acc [] = acc
reverse_onto acc (e ∷ es) = reverse_onto (e ∷ acc) es

module _ {F : Type 0} where
  abbrev pub nil_term : Term F
  nil_term = atom "nil"

  abbrev pub text_term : String → Term F
  text_term s = binary (bytes s)

  abbrev pub number_term : ℕ → Term F
  number_term n = integer (pos n)

  -- One default of `Map.merge(%{…}, given)`. Nothing reads the order of the result.
  unfoldable pub with_default : String → ℕ → Pairs F → Pairs F
  unfolding atom_key
  with_default key n es = elim (atom_key key es) [
    | some _ ↦ es
    | none ↦ pair (atom key) (integer (pos n)) es
  ]

  unfoldable pub default_retries : Pairs F → Pairs F
  unfolding with_default
  default_retries es =
      with_default "max_attempts" 3
        (with_default "initial_backoff_ms" 100 (with_default "max_backoff_ms" 5000 es))

  -- `Map.merge` raises at what is no map.
  unfoldable pub merged_retries : Term F → Raises (Pairs F)
  unfolding default_retries
  merged_retries t = elim (or_term t (map end)) [
    | map es ↦ ok (default_retries es)
    | _ ↦ err "BadMapError"
  ]

  -- `blank?`
  unfoldable pub blank : Term F → Bool
  unfolding bytes_eq
  blank (binary b) = bytes_eq b []
  blank (atom s) = s == "nil"
  blank _ = false

  unfoldable pub check_nonneg : List ConfigError → String → Option (Term F) → List ConfigError
  check_nonneg errs key (some (integer (pos n))) = errs
  check_nonneg errs key v = non_negative_integer_required key ∷ errs

  -- `m[:insecure_skip_verify] in [true, false] or is_nil(…)`
  unfoldable pub is_flag : Option (Term F) → Bool
  is_flag none = true
  is_flag (some (atom s)) = (s == "true") || ((s == "false") || (s == "nil"))
  is_flag (some _) = false

  -- The access `m[:key]` raises at a struct.
  unfoldable pub check_tls : List ConfigError → Term F → Raises (List ConfigError)
  unfolding atom_key is_flag struct_module
  check_tls errs (atom s) = if s == "nil" then ok errs else ok (tls_invalid ∷ errs)
  check_tls errs (map es) = elim (struct_module (map es)) [
    | some _ ↦ err "UndefinedFunctionError"
    | none ↦
        if is_flag (atom_key "insecure_skip_verify" es)
        then ok errs
        else ok (tls_invalid_boolean ∷ errs)
  ]
  check_tls errs _ = ok (tls_invalid ∷ errs)

  -- The errors in the order in which they are found, which is the order of the result.
  unfoldable pub config_errors : Config F → Pairs F → Raises (List ConfigError)
  unfolding blank check_nonneg check_tls atom_key
  config_errors cfg retries =
      let errs : List ConfigError = if blank cfg.host then host_required ∷ [] else [] in
      let errs : List ConfigError =
        if blank cfg.namespace then namespace_required ∷ errs else errs in
      let errs : List ConfigError =
        if blank cfg.task_queue then task_queue_required ∷ errs else errs in
      let errs = check_nonneg errs "max_attempts" (atom_key "max_attempts" retries) in
      let errs = check_nonneg errs "initial_backoff_ms" (atom_key "initial_backoff_ms" retries) in
      let errs = check_nonneg errs "max_backoff_ms" (atom_key "max_backoff_ms" retries) in
      check_tls errs cfg.tls

  module _ (M : Machine F) where
    -- `value |> to_string() |> String.trim()`
    unfoldable pub trimmed : Term F → Raises Bytes
    unfolding to_string
    trimmed t = elim (to_string M t) [
      | some b ↦ ok (M.trim b)
      | none ↦ err "Protocol.UndefinedError"
    ]

    -- `(identity && String.trim(identity)) || identity`
    unfoldable pub trimmed_identity : Term F → Raises (Term F)
    trimmed_identity (binary b) = ok (binary (M.trim b))
    trimmed_identity t = if is_falsy t then ok t else err "FunctionClauseError"

    unfoldable pub normalize : Config F → Raises (Config F)
    unfolding trimmed trimmed_identity
    normalize cfg = do
      host ← trimmed cfg.host
      namespace ← trimmed cfg.namespace
      task_queue ← trimmed cfg.task_queue
      identity ← trimmed_identity cfg.identity
      ok (record cfg {
        host = binary host;
        namespace = binary (M.downcase namespace);
        task_queue = binary task_queue;
        identity = identity;
        headers = or_term cfg.headers (map end);
      })

    unfoldable pub validate : Config F → Raises (Result (Config F) (List ConfigError))
    unfolding normalize merged_retries config_errors reverse_onto
    validate cfg = do
      cfg ← normalize cfg
      retries ← merged_retries cfg.retries
      errs ← config_errors cfg retries
      elim errs [
        | [] ↦ ok (ok (record cfg { retries = map retries }))
        | e ∷ es ↦ ok (err (reverse_onto [] (e ∷ es)))
      ]
