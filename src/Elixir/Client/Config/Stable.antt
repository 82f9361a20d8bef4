-- ===== src/Elixir/Client/Config/Stable.antt =====
-- A configuration that `validate` has accepted is normal, and is accepted as it is.
use sdk_elixir.Base.{
  false, Bool-cases, ok, Option-cases, ◌≡◌, refl, ◌∙◌, sym, ap, subst, inl, inr, arith,
}
use sdk_elixir.Base.Utf8.{Bytes}
use sdk_elixir.Elixir.Term.{
  Term, Pairs, atom, integer, float, binary, list, tuple, map, reference, other, end, Machine,
  or_term, is_falsy, atom_key, to_string,
}
use sdk_elixir.Elixir.Client.Config.{
  Config, merged_retries, blank, trimmed, trimmed_identity, normalize, validate,
}
use sdk_elixir.Elixir.Client.Config.Valid.{validate-Validated, Normalized, normalize-Normalized}
use sdk_elixir.Elixir.Client.Config.Faultless.{config_errors_faultless, default_retries_present}
use sdk_elixir.Elixir.Client.Config.Normal.{IsCount, IsTls, IsFaultless, config_errors-nil}

-- What Unicode's tables give: a text that is trimmed stays so, also in lower case.
pub record TextLaws {F : Type 0} (M : Machine F) : Type 0 where
  pub trim_idem : (b : Bytes) → M.trim (M.trim b) ≡ M.trim b
  pub downcase_idem : (b : Bytes) → M.downcase (M.downcase b) ≡ M.downcase b
  pub trim_downcase : (b : Bytes) → M.trim (M.downcase (M.trim b)) ≡ M.downcase (M.trim b)

module _ {F : Type 0} (M : Machine F) where
  -- The texts are trimmed, the namespace is in lower case, and identity and headers are normal.
  pub record IsNormal (c : Config F) : Type 0 where
    pub host_text : (b : Bytes) × (c.host ≡ binary b) × (M.trim b ≡ b)
    pub namespace_text :
        (b : Bytes) × (c.namespace ≡ binary b) × (M.trim b ≡ b) × (M.downcase b ≡ b)
    pub task_queue_text : (b : Bytes) × (c.task_queue ≡ binary b) × (M.trim b ≡ b)
    pub identity_text : trimmed_identity M c.identity ≡ ok c.identity
    pub headers_map : or_term c.headers (map end) ≡ c.headers

  trimmed_normal : (t : Term F) (b : Bytes) → t ≡ binary b → M.trim b ≡ b → trimmed M t ≡ ok b
  unfolding trimmed to_string
  trimmed_normal t b e h = rw e (ap ok h)

  normalize_normal : (c : Config F) → IsNormal c → normalize M c ≡ ok c
  unfolding normalize
  normalize_normal c i =
      let (h, p, a) = i.host_text in
      let (n, q, b, d) = i.namespace_text in
      let (k, r, e) = i.task_queue_text in
      rw
        (
          trimmed_normal c.host h p a,
          trimmed_normal c.namespace n q b,
          trimmed_normal c.task_queue k r e,
          i.identity_text,
          i.headers_map,
          d,
          ← p,
          ← q,
          ← r,
        )
        refl

  trimmed_twice : TextLaws M → (t : Term F) (b : Bytes) → trimmed M t ≡ ok b → M.trim b ≡ b
  unfolding trimmed
  trimmed_twice law t b h = elim (Option-cases (to_string M t)) [
    | inl e ↦ absurd (ground arith)
    | inr (c, e) ↦ let q : M.trim c ≡ b = ground arith in ap M.trim (sym q) ∙ law.trim_idem c ∙ q
  ]

  downcased :
      TextLaws M
      → (t : Term F) (b : Bytes) → trimmed M t ≡ ok b
      → M.trim (M.downcase b) ≡ M.downcase b
  downcased law t b h =
      let e = trimmed_twice law t b h in
      ap (λ c. M.trim (M.downcase c)) (sym e) ∙ law.trim_downcase b ∙ ap M.downcase e

  identity_twice :
      TextLaws M → (t u : Term F) → trimmed_identity M t ≡ ok u → trimmed_identity M u ≡ ok u
  unfolding trimmed_identity
  identity_twice law (binary b) u h =
      let q : binary (M.trim b) ≡ u = ground arith in
      subst (λ v. trimmed_identity M v ≡ ok v) q (ap (λ c. ok (binary c)) (law.trim_idem b))
  identity_twice law (atom s) u h = elim (Bool-cases (is_falsy {F = F} (atom s))) [
    | inl e ↦
        let q : atom s ≡ u = ground arith in subst (λ v. trimmed_identity M v ≡ ok v) q (rw e refl)
    | inr e ↦ absurd (ground arith)
  ]
  identity_twice law (integer n) u h = cc
  identity_twice law (float x) u h = cc
  identity_twice law (list ts) u h = cc
  identity_twice law (tuple ts) u h = cc
  identity_twice law (map es) u h = cc
  identity_twice law (reference n) u h = cc
  identity_twice law (other n) u h = cc

  headers_twice : (t : Term F) → or_term (or_term t (map end)) (map end) ≡ or_term t (map end)
  headers_twice t = elim (Bool-cases (is_falsy t)) [ inl e ↦ rw e refl | inr e ↦ rw (e, e) refl ]

  Normalized-IsNormal :
      TextLaws M
      → (g n : Config F) (es : Pairs F) → Normalized M g n
      → IsNormal (record n { retries = map es })
  Normalized-IsNormal law g n es z =
      subst (λ m. IsNormal (record m { retries = map es })) (sym z.result)
        (record {
          host_text = (z.host, refl, trimmed_twice law g.host z.host z.host_trimmed);
          namespace_text = (
            M.downcase z.namespace,
            refl,
            downcased law g.namespace z.namespace z.namespace_trimmed,
            law.downcase_idem z.namespace,
          );
          task_queue_text = (
            z.task_queue,
            refl,
            trimmed_twice law g.task_queue z.task_queue z.task_queue_trimmed,
          );
          identity_text = identity_twice law g.identity z.identity z.identity_trimmed;
          headers_map = headers_twice g.headers;
        })

  -- A map of retries.
  abbrev pub IsRetries : Term F → Type 0
  IsRetries t =
      (es : Pairs F) × (t ≡ map es)
      × IsCount (atom_key "max_attempts" es)
      × IsCount (atom_key "initial_backoff_ms" es)
      × IsCount (atom_key "max_backoff_ms" es)

  -- A normal configuration, which is accepted as it is.
  abbrev pub IsAccepted : Config F → Type 0
  IsAccepted c =
      IsNormal c
      × (blank c.host ≡ false)
      × (blank c.namespace ≡ false)
      × (blank c.task_queue ≡ false)
      × IsRetries c.retries
      × IsTls c.tls
      × (validate M c ≡ ok (ok c))

  merged_again :
      (t : Term F) (es : Pairs F)
      → t ≡ map es
      → IsCount (atom_key "max_attempts" es)
      → IsCount (atom_key "initial_backoff_ms" es)
      → IsCount (atom_key "max_backoff_ms" es)
      → merged_retries t ≡ ok es
  unfolding merged_retries
  merged_again t es e x y z = ap merged_retries e ∙ ap ok (default_retries_present es x y z)

  accepted_again :
      (m : Config F) (es : Pairs F)
      → IsNormal m
      → m.retries ≡ map es
      → IsFaultless m es
      → validate M m ≡ ok (ok m)
  unfolding validate
  accepted_again m es i e f =
      rw
        (
          normalize_normal m i,
          merged_again m.retries es e f.3 f.4 f.5,
          config_errors_faultless m es f,
          validate,
        )
        (ap (λ t. ok (ok (record m { retries = t }))) (sym e))

  -- If validate accepts a configuration, the result is normal: host, namespace and task queue are texts
  -- without space around them and not empty, the namespace in lower case; the three numbers of the
  -- retries are there and none is negative; TLS is nil, or a map whose flag is a boolean or nil. And
  -- validate accepts the result as it is; if the tables of Unicode are as they should be.
  pub validate_lem : (g c : Config F) → TextLaws M → validate M g ≡ ok (ok c) → IsAccepted c
  validate_lem g c law h =
      let v = validate-Validated M g c h in
      let m : Config F = record v.normal { retries = map v.entries } in
      let i =
        Normalized-IsNormal law g v.normal v.entries
          (normalize-Normalized M g v.normal v.normalized) in
      let f = config_errors-nil v.normal v.entries v.faultless in
      subst IsAccepted (sym v.result) (
        i,
        f.0,
        f.1,
        f.2,
        (v.entries, refl, f.3, f.4, f.5),
        f.6,
        accepted_again m v.entries i refl f,
      )
