-- ===== src/Elixir/Client/Server/Invariant.antt =====
-- The invariant of the process of a client, by induction on its calls.
use sdk_elixir.Base.{
  ℕ, suc, ◌+◌, ◌==◌, if◌then◌else◌, true, false, Bool-cases, Result-cases, ok, some, ◌≡◌, ◌≢◌, refl,
  sym, ap, inl, inr, arith, subst,
}
use sdk_elixir.Elixir.Term.{Term, atom, reference, tuple, cons, nil, Machine}
use sdk_elixir.Elixir.Client.{Native}
use sdk_elixir.Elixir.Client.Server.{
  Status, disconnected, connected, failed_status, State, Call, connect, start_workflow,
  signal_workflow, query_workflow, status_call, connect_result, handle_continue, ensure_connected,
  handle_call, do_connect, send_start, send_signal, send_query,
}
use sdk_elixir.Elixir.Client.Server.Reachable.{
  is_connected, connects, failing, fails, initial, Reach, begun, continued, called, IsConsistent,
  Agrees, Ensured, Attempt-cases, ensure_connected-Ensured, handle_connect_ensures,
  when_connected_ensures,
}

module _ {F : Type 0} (N : Native F) where
  connect_result-reference : (t a : Term F) → connect_result t ≡ ok a → (k : ℕ) × (a ≡ reference k)
  unfolding connect_result
  connect_result-reference (reference n) a h = (n, ground arith)
  connect_result-reference (tuple (cons (atom s) (cons reason nil))) a h =
      elim (Bool-cases (s == "error")) [
        | inl e ↦ absurd (ground arith)
        | inr e ↦ absurd (ground arith)
      ]
  connect_result-reference t a h = cc

  do_connect-reference :
      (c a : Term F) (w : N.World) → (do_connect N c w).0 ≡ ok (ok a) → (k : ℕ) × (a ≡ reference k)
  unfolding do_connect
  do_connect-reference c a w h = elim (Result-cases ((N.client_connect c w).0)) [
    | inr (x, e) ↦ absurd (ground arith)
    | inl (t, e) ↦ connect_result-reference t a (ground arith)
  ]

  -- Connecting keeps the invariant, and counts.
  module _ (config : Term F) (n : ℕ) (s s' : State F) (w : N.World) where
    Ensured-IsConsistent :
        IsConsistent config n s
        → Ensured N s w s'
        → IsConsistent config
            (if is_connected s.status
              then n
              else if failing ((do_connect N s.config w).0)
              then suc n
              else n)
            s'
    Ensured-IsConsistent i (inl (e, q)) = rw (e, q) i
    Ensured-IsConsistent i (inr (e, inl (a, h, q))) =
        let (k, r) = do_connect-reference s.config a w h in
        subst (IsConsistent config _) (sym q)
          (record { keeps = i.keeps; agrees = ((k, ap some r), refl) })
    Ensured-IsConsistent i (inr (e, inr (x, h, q))) =
        subst (IsConsistent config _) (sym q)
          (record { keeps = i.keeps; agrees = failed_agrees s.status i.agrees e })
      where
        failed_agrees :
            (y : Status)
            → Agrees y s.client_resource s.connect_attempts n
            → y ≢ connected
            → Agrees failed_status s.client_resource (s.connect_attempts + 1) (
                if is_connected y
                then n
                else if failing ((do_connect N s.config w).0)
                then suc n
                else n)
        failed_agrees connected g c = absurd (c refl)
        failed_agrees disconnected g c = rw h (g.0, ground arith)
        failed_agrees failed_status g c = rw h (g.0, ground arith)

module _ {F : Type 0} (M : Machine F) (N : Native F) where
  handle_call_ensures :
      (c : Call F) (s s' : State F) (reply : Term F) (w w' : N.World)
      → connects c ≡ true
      → handle_call N M c s w ≡ (ok (reply, s'), w')
      → (w'' : N.World) × (ensure_connected N s w ≡ (ok s', w''))
  unfolding handle_call
  handle_call_ensures connect s s' reply w w' k h = (w', handle_connect_ensures N s w s' reply w' h)
  handle_call_ensures (start_workflow p) s s' reply w w' k h =
      when_connected_ensures N s w (send_start N M p) s' reply w' h
  handle_call_ensures (signal_workflow p) s s' reply w w' k h =
      when_connected_ensures N s w (send_signal N M p) s' reply w' h
  handle_call_ensures (query_workflow p) s s' reply w w' k h =
      when_connected_ensures N s w (send_query N M p) s' reply w' h
  handle_call_ensures status_call s s' reply w w' k h = cc

  status_unchanged :
      (c : Call F) (s s' : State F) (reply : Term F) (w w' : N.World)
      → connects c ≡ false
      → handle_call N M c s w ≡ (ok (reply, s'), w')
      → s' ≡ s
  unfolding handle_call
  status_unchanged connect s s' reply w w' k h = cc
  status_unchanged (start_workflow p) s s' reply w w' k h = cc
  status_unchanged (signal_workflow p) s s' reply w w' k h = cc
  status_unchanged (query_workflow p) s s' reply w w' k h = cc
  status_unchanged status_call s s' reply w w' k h = ground arith

  continue-IsConsistent :
      (config : Term F) (s : State F) (w w' : N.World)
      → handle_continue N (initial M N config) w ≡ (ok s, w')
      → IsConsistent config 0 s
  unfolding handle_continue
  continue-IsConsistent config s w w' h = elim (Attempt-cases N ((do_connect N config w).0)) [
    | inl (a, e) ↦
        let (k, r) = do_connect-reference N config a w e in
        let q : s ≡ record (initial M N config) { client_resource = some a; status = connected } =
          ground arith in
        subst (IsConsistent config 0) (sym q)
          (record { keeps = refl; agrees = ((k, ap some r), refl) })
    | inr (inl (x, e)) ↦
        let q : s ≡ record (initial M N config) { status = failed_status } = ground arith in
        subst (IsConsistent config 0) (sym q) (record { keeps = refl; agrees = (refl, refl) })
    | inr (inr (x, e)) ↦ absurd (ground arith)
  ]

  call-IsConsistent :
      (config : Term F) (n : ℕ) (c : Call F) (s s' : State F) (reply : Term F) (w w' : N.World)
      → IsConsistent config n s
      → handle_call N M c s w ≡ (ok (reply, s'), w')
      → IsConsistent config (if fails M N c s w then suc n else n) s'
  call-IsConsistent config n c s s' reply w w' i h = elim (Bool-cases (connects c)) [
    | inl k ↦
        let (w'', e) = handle_call_ensures c s s' reply w w' k h in
        subst (λ m. IsConsistent config m s') (counted k)
          (Ensured-IsConsistent N config n s s' w i (ensure_connected-Ensured N s w s' w'' e))
    | inr k ↦ rw (status_unchanged c s s' reply w w' k h, not_counted k) i
  ]
    where
      counted :
          connects c ≡ true
          → (if is_connected s.status
              then n
              else if failing ((do_connect N s.config w).0)
              then suc n
              else n)
            ≡ (if fails M N c s w then suc n else n)
      counted k = ground arith

      not_counted : connects c ≡ false → (if fails M N c s w then suc n else n) ≡ n
      not_counted k = ground arith

  -- However a client is called, one call after the other, and whatever the native functions answer: its
  -- configuration stays the one that it was started with; it has a resource, a reference, exactly while
  -- its status is :connected; until then connect_attempts is the number of calls in which connecting
  -- failed, without the failure on start, and from then on it is 0.
  pub Reach-IsConsistent :
      (config : Term F) (s : State F) (n : ℕ) → Reach M N config s n → IsConsistent config n s
  Reach-IsConsistent config _ _ begun = record { keeps = refl; agrees = (refl, refl, refl) }
  Reach-IsConsistent config _ _ (continued s w w' h) = continue-IsConsistent config s w w' h
  Reach-IsConsistent config _ _ (called c s s' m reply w w' r h) =
      call-IsConsistent config m c s s' reply w w' (Reach-IsConsistent config s m r) h
