-- ===== src/Sanitize.antt =====
-- The error messages that are shown to Elixir: `sanitize_polling_error` of
-- native/temporal_nif/src/lib.rs and `sanitize_error_message` of async_helpers.rs there.
pub mod Classes
use sdk_elixir.Base.{String, ◌<>◌, contains, ◌||◌, if◌then◌else◌, Result, ok, err}
use sdk_elixir.Nif.{Rustler, ok_reply, error_reply}

unfoldable pub sanitize_polling_error : String → String
sanitize_polling_error error =
    if contains error "not running"
    then "Worker not running"
    else if contains error "timeout"
    then "Operation timeout"
    else if contains error "connection"
    then "Connection error"
    else "Polling error"

unfoldable pub sanitize_error_message : String → String → String
sanitize_error_message error context =
    if contains error "connection" || contains error "Connection"
    then context <> ": Connection failed - check server configuration"
    else if contains error "timeout" || contains error "Timeout"
    then context <> ": Operation timed out"
    else if contains error "authentication" || contains error "Authentication"
    then context <> ": Authentication failed"
    else if contains error "permission" || contains error "Permission"
    then context <> ": Permission denied"
    else if contains error "not found" || contains error "Not found"
    then context <> ": Resource not found"
    else context <> ": Operation failed"

-- `AsyncExecutor`: what the operation gives is already computed; `encode` is its `Encoder`.
module _ (R : Rustler) {A : Type 0} (encode : A → R.Term) where
  unfoldable pub execute_async : Result A String → R.Term
  execute_async (ok result) = ok_reply R (encode result)
  execute_async (err e) = error_reply R e

  unfoldable pub execute_async_sanitized : Result A String → String → R.Term
  unfolding sanitize_error_message
  execute_async_sanitized (ok result) context = ok_reply R (encode result)
  execute_async_sanitized (err e) context = error_reply R (sanitize_error_message e context)
