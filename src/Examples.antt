-- ===== src/Examples.antt =====
-- The theorems at concrete inputs, and runs of the definitions: the other crates are given by small
-- stand-ins.
mod Codec
mod Terms
mod Conversions
mod Server
mod Connection
mod Workers
mod Calls
mod Files
mod Payloads
mod Erlang
mod Rustler
mod Carried
mod Elixir
mod ElixirClient
mod ElixirStart
