-- ===== src/Elixir/Client/Server/Reachable.antt =====
-- What the process of a client keeps, whatever calls it gets and whatever the native functions answer.
use sdk_elixir.Base.{
  ℕ, suc, String, if◌then◌else◌, Bool, true, false, Bool-cases, Result, Result-cases, ok, err,
  Option, none, some, ◌≡◌, ◌≢◌, refl, ◌⊎◌, inl, inr, arith,
}
use sdk_elixir.Elixir.Term.{Term, reference, Machine}
use sdk_elixir.Elixir.PayloadConverter.{Raises}
use sdk_elixir.Elixir.Client.{Native}
use sdk_elixir.Elixir.Client.Server.{
  Status, disconnected, connected, failed_status, State, Call, status_call, handle_continue,
  ensure_connected, handle_connect, when_connected, handle_call, do_connect, Run, connected_state,
  failed_state,
}

abbrev pub is_connected : Status → Bool
is_connected connected = true
is_connected _ = false

module _ {F : Type 0} where
  -- The calls that connect first, and attempts to connect that fail.
  abbrev pub connects : Call F → Bool
  connects status_call = false
  connects _ = true

  abbrev pub failing : Raises (Result (Term F) (Term F)) → Bool
  failing (ok (err e)) = true
  failing _ = false

  -- The resource is there exactly in the status :connected, and then it is a reference; the attempts
  -- are counted up to the first connection.
  abbrev pub Agrees : Status → Option (Term F) → ℕ → ℕ → Type 0
  Agrees connected r attempts n = ((k : ℕ) × (r ≡ some (reference k))) × (attempts ≡ 0)
  Agrees disconnected r attempts n = (r ≡ none) × (attempts ≡ n) × (n ≡ 0)
  Agrees failed_status r attempts n = (r ≡ none) × (attempts ≡ n)

  pub record IsConsistent (config : Term F) (n : ℕ) (s : State F) : Type 0 where
    pub keeps : s.config ≡ config
    pub agrees : Agrees s.status s.client_resource s.connect_attempts n

module _ {F : Type 0} (M : Machine F) (N : Native F) where
  abbrev pub fails : Call F → State F → N.World → Bool
  fails c s w =
      if is_connected s.status
      then false
      else if connects c
      then failing ((do_connect N s.config w).0)
      else false

  -- The state after `init`, with the configuration that was built.
  abbrev pub initial : Term F → State F
  initial config = record {
    config = config;
    client_resource = none;
    status = disconnected;
    connect_attempts = 0;
  }

  -- The states that a process comes to, with the number of its calls in which connecting failed. The
  -- connection on start comes before all calls. A call that raises ends the process.
  pub data Reach (config : Term F) : State F → ℕ → Type 0 where
    begun : Reach config (initial config) 0
    continued :
        (s : State F) (w w' : N.World)
        → handle_continue N (initial config) w ≡ (ok s, w')
        → Reach config s 0
    called :
        (c : Call F) (s s' : State F) (n : ℕ) (reply : Term F) (w w' : N.World)
        → Reach config s n
        → handle_call N M c s w ≡ (ok (reply, s'), w')
        → Reach config s' (if fails c s w then suc n else n)

module _ {F : Type 0} (N : Native F) where
  Status-cases : (x : Status) → (x ≡ connected) ⊎ ((x ≡ disconnected) ⊎ (x ≡ failed_status))
  Status-cases connected = inl refl
  Status-cases disconnected = inr (inl refl)
  Status-cases failed_status = inr (inr refl)

  pub Attempt-cases :
      (r : Raises (Result (Term F) (Term F)))
      → ((a : Term F) × (r ≡ ok (ok a)))
        ⊎ (((e : Term F) × (r ≡ ok (err e))) ⊎ ((x : String) × (r ≡ err x)))
  Attempt-cases (ok (ok a)) = inl (a, refl)
  Attempt-cases (ok (err e)) = inr (inl (e, refl))
  Attempt-cases (err x) = inr (inr (x, refl))

  -- What connecting makes of a state: nothing if it is connected, and else it depends on the attempt.
  abbrev pub Ensured : State F → N.World → State F → Type 0
  Ensured s w s' =
      ((s.status ≡ connected) × (s' ≡ s))
      ⊎ ((s.status ≢ connected)
          × (((a : Term F) × ((do_connect N s.config w).0 ≡ ok (ok a))
                × (s' ≡ connected_state N s a))
              ⊎ ((e : Term F) × ((do_connect N s.config w).0 ≡ ok (err e))
                  × (s' ≡ failed_state N s))))

  module _ (s : State F) (w : N.World) where
    connecting-Ensured :
        (s' : State F) (w' : N.World)
        → is_connected s.status ≡ false
        → ensure_connected N s w ≡ (ok s', w')
        → Ensured s w s'
    unfolding ensure_connected
    connecting-Ensured s' w' n h = inr (
      (λ c. ground arith),
      elim (Attempt-cases ((do_connect N s.config w).0)) [
        | inl (a, e) ↦ inl (a, e, ground arith)
        | inr (inl (x, e)) ↦ inr (x, e, ground arith)
        | inr (inr (x, e)) ↦ absurd (ground arith)
      ],
    )

    pub ensure_connected-Ensured :
        (s' : State F) (w' : N.World) → ensure_connected N s w ≡ (ok s', w') → Ensured s w s'
    ensure_connected-Ensured s' w' h = elim (Bool-cases (is_connected s.status)) [
      | inl e ↦ inl (connected_of e, unfold ensure_connected in ground arith)
      | inr e ↦ connecting-Ensured s' w' e h
    ]
      where
        connected_of : is_connected s.status ≡ true → s.status ≡ connected
        connected_of e = ground arith

    -- The call :connect leaves the state that connecting makes.
    pub handle_connect_ensures :
        (s' : State F) (reply : Term F) (w' : N.World)
        → handle_connect N s w ≡ (ok (reply, s'), w')
        → ensure_connected N s w ≡ (ok s', w')
    unfolding handle_connect ensure_connected
    handle_connect_ensures s' reply w' h = elim (Bool-cases (is_connected s.status)) [
      | inl e ↦ ground arith
      | inr e ↦ elim (Attempt-cases ((do_connect N s.config w).0)) [
        | inl (a, k) ↦ ground arith
        | inr (inl (x, k)) ↦ ground arith
        | inr (inr (x, k)) ↦ ground arith
      ]
    ]

    -- So does a call of a workflow, whatever is sent.
    pub when_connected_ensures :
        (send : Term F → Run N (Term F)) (s' : State F) (reply : Term F) (w' : N.World)
        → when_connected N send s w ≡ (ok (reply, s'), w')
        → (w'' : N.World) × (ensure_connected N s w ≡ (ok s', w''))
    unfolding when_connected
    when_connected_ensures send s' reply w' h = (
      (ensure_connected N s w).1,
      elim (Result-cases ((ensure_connected N s w).0)) [
        | inr (x, e) ↦ absurd (ground arith)
        | inl (t, e) ↦ elim (Bool-cases (is_connected t.status)) [
          | inr k ↦ ground arith
          | inl k ↦ ground arith
        ]
      ],
    )
