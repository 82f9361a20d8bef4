-- ===== src/Sanitize/Classes.antt =====
-- What a polling error may reveal.
use sdk_elixir.Base.{◌≡◌, ◌⊎◌, inl, inr, String, ◌<>◌, contains, arith, ap, Any, List, [], ◌∷◌, err}
use sdk_elixir.Nif.{Rustler, error_reply}
use sdk_elixir.Sanitize.{sanitize_polling_error, sanitize_error_message, execute_async_sanitized}

-- The message of a polling error is one of four, and it depends on nothing but whether the error
-- contains the three words that are looked for: two errors that agree on these give the same message.
pub sanitize_polling_error_classes :
    (e : String)
    → ((sanitize_polling_error e ≡ "Worker not running")
        ⊎ (sanitize_polling_error e ≡ "Operation timeout")
        ⊎ (sanitize_polling_error e ≡ "Connection error")
        ⊎ (sanitize_polling_error e ≡ "Polling error"))
      × ((d : String)
          → contains d "not running" ≡ contains e "not running"
          → contains d "timeout" ≡ contains e "timeout"
          → contains d "connection" ≡ contains e "connection"
          → sanitize_polling_error d ≡ sanitize_polling_error e)
unfolding sanitize_polling_error
sanitize_polling_error_classes e = (ground arith, λ d p q r. rw (p, q, r))

Any-map :
    {P Q : String → Type 0} (ss : List String) → ((s : String) → P s → Q s) → Any P ss → Any Q ss
Any-map [] f h = h
Any-map (s ∷ ss) f (inl h) = inl (f s h)
Any-map (s ∷ ss) f (inr h) = inr (Any-map ss f h)

-- What `execute_async_sanitized` may say after the context.
abbrev pub public_messages : List String
public_messages =
    ": Connection failed - check server configuration" ∷ ": Operation timed out"
    ∷ ": Authentication failed" ∷ ": Permission denied" ∷ ": Resource not found"
    ∷ ": Operation failed" ∷ []

sanitize_error_message_public :
    (e context : String)
    → Any (λ s. sanitize_error_message e context ≡ context <> s) public_messages
unfolding sanitize_error_message
sanitize_error_message_public e context = ground arith

-- The reply of `execute_async_sanitized` to an error is the context with one of six fixed messages,
-- whatever the error says.
pub execute_async_sanitized_public :
    (R : Rustler) {A : Type 0} (encode : A → R.Term) (e context : String)
    → Any
        (λ s. execute_async_sanitized R encode (err e) context ≡ error_reply R (context <> s))
        public_messages
unfolding execute_async_sanitized
execute_async_sanitized_public R encode e context =
    Any-map {P = λ s. sanitize_error_message e context ≡ context <> s}
      {Q = λ s. error_reply R (sanitize_error_message e context) ≡ error_reply R (context <> s)}
      public_messages (λ s h. ap (error_reply R) h) (sanitize_error_message_public e context)
