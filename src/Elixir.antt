-- ===== src/Elixir.antt =====
-- The Elixir library under lib/temporal, which calls the native functions.
pub mod Term
pub mod Maps
pub mod Base64
pub mod PayloadConverter
pub mod Client
pub mod Bridge
