-- ===== src/Elixir/Client.antt =====
-- lib/temporal/client.ex, and the calls of lib/temporal/native/behaviour.ex.
pub mod Config
pub mod Options
pub mod Params
pub mod Server
use sdk_elixir.Base.{String, Result}
use sdk_elixir.Elixir.Term.{Term}
use sdk_elixir.Elixir.Maps.{Entries}
use sdk_elixir.Elixir.PayloadConverter.{Raises}

-- The native functions that the client calls, with the results that the behaviour gives them. Each call
-- may change the `World`: the server, and the memory of the native functions.
pub record Native (F : Type 0) : Type 1 where
  pub World : Type 0
  pub client_connect : Term F → World → Raises (Term F) × World
  pub client_start_workflow :
      Term F → Term F → World → Raises (Result (Entries (Term F)) (Term F)) × World
  pub client_signal_workflow : Term F → Term F → World → Raises (Result (Unit {0}) (Term F)) × World
  pub client_query_workflow : Term F → Term F → World → Raises (Result (Term F) (Term F)) × World
