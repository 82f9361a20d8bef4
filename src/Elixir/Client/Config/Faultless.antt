-- ===== src/Elixir/Client/Config/Faultless.antt =====
-- A faultless configuration gives no errors, and its retries are complete.
use sdk_elixir.Base.{ℕ, String, ok, Option, some, ◌≡◌, refl, ◌∙◌, ap, inl, inr, List, []}
use sdk_elixir.Elixir.Term.{Term, Pairs, atom_key}
use sdk_elixir.Elixir.Client.Config.{
  Config, ConfigError, with_default, default_retries, check_nonneg, check_tls, config_errors,
}
use sdk_elixir.Elixir.Client.Config.Normal.{IsCount, IsTls, IsFaultless}

module _ {F : Type 0} where
  check_nonneg_count :
      (errs : List ConfigError) (key : String) (v : Option (Term F))
      → IsCount v
      → check_nonneg errs key v ≡ errs
  unfolding check_nonneg
  check_nonneg_count errs key v (n, e) = ap (check_nonneg errs key) e

  check_tls_valid : (errs : List ConfigError) (t : Term F) → IsTls t → check_tls errs t ≡ ok errs
  unfolding check_tls
  check_tls_valid errs t (inl e) = ap (check_tls errs) e
  check_tls_valid errs t (inr (es, e, s, f)) = ap (check_tls errs) e ∙ rw (s, f, check_tls) refl

  pub config_errors_faultless :
      (c : Config F) (es : Pairs F) → IsFaultless c es → config_errors c es ≡ ok []
  unfolding config_errors
  config_errors_faultless c es (h, n, q, x, y, z, t) =
      rw
        (
          h,
          n,
          q,
          check_nonneg_count [] "max_attempts" _ x,
          check_nonneg_count [] "initial_backoff_ms" _ y,
          check_nonneg_count [] "max_backoff_ms" _ z,
        )
        (check_tls_valid [] c.tls t)

  -- The defaults are added once.
  with_default_present :
      (key : String) (n : ℕ) (es : Pairs F) (v : Term F)
      → atom_key key es ≡ some v
      → with_default key n es ≡ es
  unfolding with_default
  with_default_present key n es v h = rw (h, with_default) refl

  pub default_retries_present :
      (es : Pairs F)
      → IsCount (atom_key "max_attempts" es)
      → IsCount (atom_key "initial_backoff_ms" es)
      → IsCount (atom_key "max_backoff_ms" es)
      → default_retries es ≡ es
  unfolding default_retries
  default_retries_present es (a, x) (b, y) (c, z) =
      rw
        (
          with_default_present "max_backoff_ms" 5000 es _ z,
          with_default_present "initial_backoff_ms" 100 es _ y,
          with_default_present "max_attempts" 3 es _ x,
        )
        refl
