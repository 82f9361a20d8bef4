-- ===== src/Elixir/Client/Config/Valid.antt =====
-- What `validate` of lib/temporal/client/config.ex accepts.
use sdk_elixir.Base.{Result-cases, ok, ◌≡◌, inl, inr, arith, [], ◌∷◌}
use sdk_elixir.Base.Utf8.{Bytes}
use sdk_elixir.Elixir.Term.{Term, Pairs, binary, map, end, Machine, or_term}
use sdk_elixir.Elixir.Client.Config.{
  Config, merged_retries, config_errors, trimmed, trimmed_identity, normalize, validate,
}

module _ {F : Type 0} (M : Machine F) where
  -- The steps of a call that succeeds.
  pub record Validated (g c : Config F) : Type 0 where
    pub normal : Config F
    pub entries : Pairs F
    pub normalized : normalize M g ≡ ok normal
    pub merged : merged_retries normal.retries ≡ ok entries
    pub faultless : config_errors normal entries ≡ ok []
    pub result : c ≡ record normal { retries = map entries }

  pub validate-Validated : (g c : Config F) → validate M g ≡ ok (ok c) → Validated g c
  unfolding validate
  validate-Validated g c h = elim (Result-cases (normalize M g)) [
    | inr (x, e) ↦ absurd (ground arith)
    | inl (n, e) ↦ elim (Result-cases (merged_retries n.retries)) [
      | inr (x, k) ↦ absurd (ground arith)
      | inl (es, k) ↦ elim (Result-cases (config_errors n es)) [
        | inr (x, l) ↦ absurd (ground arith)
        | inl (y ∷ ys, l) ↦ absurd (ground arith)
        | inl ([], l) ↦ record {
          normal = n;
          entries = es;
          normalized = e;
          merged = k;
          faultless = l;
          result = ground arith;
        }
      ]
    ]
  ]

  -- The texts of a normalized configuration.
  pub record Normalized (g n : Config F) : Type 0 where
    pub host : Bytes
    pub namespace : Bytes
    pub task_queue : Bytes
    pub identity : Term F
    pub host_trimmed : trimmed M g.host ≡ ok host
    pub namespace_trimmed : trimmed M g.namespace ≡ ok namespace
    pub task_queue_trimmed : trimmed M g.task_queue ≡ ok task_queue
    pub identity_trimmed : trimmed_identity M g.identity ≡ ok identity
    pub result : n ≡ record g {
      host = binary host;
      namespace = binary (M.downcase namespace);
      task_queue = binary task_queue;
      identity = identity;
      headers = or_term g.headers (map end);
    }

  pub normalize-Normalized : (g n : Config F) → normalize M g ≡ ok n → Normalized g n
  unfolding normalize
  normalize-Normalized g n h = elim (Result-cases (trimmed M g.host)) [
    | inr (x, e) ↦ absurd (ground arith)
    | inl (a, e) ↦ elim (Result-cases (trimmed M g.namespace)) [
      | inr (x, k) ↦ absurd (ground arith)
      | inl (b, k) ↦ elim (Result-cases (trimmed M g.task_queue)) [
        | inr (x, l) ↦ absurd (ground arith)
        | inl (c, l) ↦ elim (Result-cases (trimmed_identity M g.identity)) [
          | inr (x, m) ↦ absurd (ground arith)
          | inl (d, m) ↦ record {
            host = a;
            namespace = b;
            task_queue = c;
            identity = d;
            host_trimmed = e;
            namespace_trimmed = k;
            task_queue_trimmed = l;
            identity_trimmed = m;
            result = ground arith;
          }
        ]
      ]
    ]
  ]
