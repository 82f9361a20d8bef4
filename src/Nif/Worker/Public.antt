-- ===== src/Nif/Worker/Public.antt =====
-- What the polls may say of an error.
use sdk_elixir.Base.{◌≡◌, refl, ◌⊎◌, inl, inr, String, Option, none, some, Result, ok, err, ap, ℕ}
use sdk_elixir.Base.Int.{ℤ}
use sdk_elixir.Converter.{Codecs}
use sdk_elixir.Worker.{SdkCore}
use sdk_elixir.Worker.Resource.{WorkerResource}
use sdk_elixir.Worker.Tasks.{WorkflowTaskData, ActivityTaskData}
use sdk_elixir.Nif.{Rustler, error_reply, ok_reply}
use sdk_elixir.Nif.Worker.{poll_reply, worker_poll_workflow_task, worker_poll_activity_task}
use sdk_elixir.Sanitize.Classes.{sanitize_polling_error_classes}

module _ (R : Rustler) where
  -- The reply is a result, or one of four messages.
  abbrev pub IsPublic : R.Term → Type 0
  IsPublic t =
      ((u : R.Term) × (t ≡ ok_reply R u))
      ⊎ (t ≡ error_reply R "Worker not running")
      ⊎ (t ≡ error_reply R "Operation timeout")
      ⊎ (t ≡ error_reply R "Connection error")
      ⊎ (t ≡ error_reply R "Polling error")

  module _ {Client : Type 0} (K : SdkCore Client) where
    poll_reply-IsPublic :
        {D : Type 0} (encode : D → R.Term) (r : Result (Option D) String)
        → IsPublic (poll_reply R K encode r)
    unfolding poll_reply
    poll_reply-IsPublic encode (ok (some d)) = inl (encode d, refl)
    poll_reply-IsPublic encode (ok none) = inl (R.atom "nil", refl)
    poll_reply-IsPublic encode (err e) = elim (sanitize_polling_error_classes e).0 [
      | inl h ↦ inr (inl (ap (error_reply R) h))
      | inr (inl h) ↦ inr (inr (inl (ap (error_reply R) h)))
      | inr (inr (inl h)) ↦ inr (inr (inr (inl (ap (error_reply R) h))))
      | inr (inr (inr h)) ↦ inr (inr (inr (inr (ap (error_reply R) h))))
    ]

    -- Whatever the state of the worker and whatever errors sdk-core gives, a poll of either kind
    -- replies with a result or with one of four error messages.
    pub polls-IsPublic :
        (C : Codecs) (from_i64 : ℤ → C.Number) (from_u64 : ℕ → C.Number)
        → (encode_workflow : WorkflowTaskData → R.Term)
          (encode_activity : ActivityTaskData → R.Term)
        → (w : WorkerResource K)
        → IsPublic (worker_poll_workflow_task R K C from_i64 from_u64 encode_workflow w).0
          × IsPublic (worker_poll_activity_task R K C from_i64 from_u64 encode_activity w).0
    unfolding worker_poll_workflow_task worker_poll_activity_task
    polls-IsPublic C from_i64 from_u64 encode_workflow encode_activity w =
        (poll_reply-IsPublic encode_workflow _, poll_reply-IsPublic encode_activity _)
