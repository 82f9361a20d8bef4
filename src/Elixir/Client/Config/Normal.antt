-- ===== src/Elixir/Client/Config/Normal.antt =====
-- `validate` accepts normal configurations, which it leaves as they are.
use sdk_elixir.Base.{
  ℕ, String, ◌==◌, true, false, Bool-cases, ok, Option, none, some, Option-cases, ◌≡◌, refl, ap,
  ◌⊎◌, inl, inr, arith, List, [],
}
use text.Mathlib.TextEquality.{eq_iff}
use sdk_elixir.Base.Int.{pos, negsuc}
use sdk_elixir.Elixir.Term.{
  Term, Pairs, atom, integer, float, binary, list, tuple, map, reference, other, atom_key,
  struct_module,
}
use sdk_elixir.Elixir.Client.Config.{
  Config, ConfigError, blank, check_nonneg, is_flag, check_tls, config_errors, nil_term,
}

module _ {F : Type 0} where
  -- A non-negative integer.
  abbrev pub IsCount : Option (Term F) → Type 0
  IsCount v = (n : ℕ) × (v ≡ some (integer (pos n)))

  -- nil, or a map that is no struct and whose flag is true, false or nil, if it is there.
  abbrev pub IsTls : Term F → Type 0
  IsTls t =
      (t ≡ nil_term)
      ⊎ ((es : Pairs F) × (t ≡ map es)
          × (struct_module (map es) ≡ none)
          × (is_flag (atom_key "insecure_skip_verify" es) ≡ true))

  check_nonneg-nil :
      (errs : List ConfigError) (key : String) (v : Option (Term F))
      → check_nonneg errs key v ≡ []
      → (errs ≡ []) × IsCount v
  unfolding check_nonneg
  check_nonneg-nil errs key (some (integer (pos n))) h = (h, (n, refl))
  check_nonneg-nil errs key (some (integer (negsuc n))) h = cc
  check_nonneg-nil errs key none h = cc
  check_nonneg-nil errs key (some t) h = cc

  check_tls-nil :
      (errs : List ConfigError) (t : Term F) → check_tls errs t ≡ ok [] → (errs ≡ []) × IsTls t
  unfolding check_tls
  check_tls-nil errs (atom s) h = elim (Bool-cases (s == "nil")) [
    | inl e ↦ (ground arith, inl (ap atom (ground (arith, eq_iff s "nil"))))
    | inr e ↦ absurd (ground arith)
  ]
  check_tls-nil errs (map es) h = elim (Option-cases (struct_module (map es))) [
    | inr (m, e) ↦ absurd (ground arith)
    | inl e ↦ elim (Bool-cases (is_flag (atom_key "insecure_skip_verify" es))) [
      | inl k ↦ (ground arith, inr (es, refl, e, k))
      | inr k ↦ absurd (ground arith)
    ]
  ]
  check_tls-nil errs (integer n) h = cc
  check_tls-nil errs (float x) h = cc
  check_tls-nil errs (binary b) h = cc
  check_tls-nil errs (list ts) h = cc
  check_tls-nil errs (tuple ts) h = cc
  check_tls-nil errs (reference n) h = cc
  check_tls-nil errs (other n) h = cc

  abbrev pub IsFaultless : Config F → Pairs F → Type 0
  IsFaultless c es =
      (blank c.host ≡ false)
      × (blank c.namespace ≡ false)
      × (blank c.task_queue ≡ false)
      × IsCount (atom_key "max_attempts" es)
      × IsCount (atom_key "initial_backoff_ms" es)
      × IsCount (atom_key "max_backoff_ms" es)
      × IsTls c.tls

  pub config_errors-nil :
      (c : Config F) (es : Pairs F) → config_errors c es ≡ ok [] → IsFaultless c es
  unfolding config_errors
  config_errors-nil c es h =
      let (a, t) = check_tls-nil _ c.tls h in
      let (b, z) = check_nonneg-nil _ "max_backoff_ms" _ a in
      let (d, y) = check_nonneg-nil _ "initial_backoff_ms" _ b in
      let (e, x) = check_nonneg-nil _ "max_attempts" _ d in
      (ground arith, ground arith, ground arith, x, y, z, t)
