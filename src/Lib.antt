-- ===== src/Lib.antt =====
-- The Temporal SDK for Elixir: a model of its native bridge, native/temporal_nif/src, and of its Elixir
-- library, lib/temporal.
--
-- The program. A process of the Elixir library (client.ex) keeps a configuration and a connection,
-- makes payloads of the terms that it is given (payload_converter.ex), and calls the functions of
-- native/temporal_nif/src/lib.rs with terms of the Erlang machine. They read the terms, call a
-- client (client.rs) or a worker (worker.rs), which stand on sdk-core, and turn the result into a
-- term again. Payloads are made and read by a chain of converters (converter.rs). Errors of polls
-- are sanitized (lib.rs, async_helpers.rs).
--
-- The parts, and the files that model them:
--   Base        the shared types and helpers: `Result` with `?` as do blocks, Rust's order of texts,
--               signed machine integers with their wrap-around, `HashMap` as an association list,
--               UTF-8 and its lossy decoding, decimal digits, what a stable sort is
--   Json        `serde_json::Value`; the sort of an object's entries by key; the depth of a value
--   Converter   native/temporal_nif/src/converter.rs: the errors, the payload, the trait
--               `PayloadConverter` as a record of functions, and what is called of serde_json and
--               base64 (`Codecs`). Converter/NilConverter, BinaryConverter, JsonConverter and Composite
--               are the structs of these names, with their methods as functions
--   Client      native/temporal_nif/src/client.rs: its structs, the requests and sdk-core's client
--               (`SdkClient`). Client/Connect is `ClientResource::connect`; Client/Workflow has
--               `start_workflow`, `signal_workflow` and `query_workflow`
--   Worker      native/temporal_nif/src/worker.rs: its structs and sdk-core's worker (`SdkCore`).
--               Worker/Resource has the state and the operations `new`, `start` (which is
--               `initialize_core_worker`), `stop`, `drop` and `validate`, for calls one after the
--               other; Worker/Tasks has the polls and the conversions of tasks; Worker/Threads has
--               overlapping calls, a step relation in which each access to the flag `is_running`, to
--               the mutex and to its content is one step of one thread. None of lib.rs's functions calls
--               `stop`, which Worker/Threads/Stop.antt adds to that relation
--   Nif         native/temporal_nif/src/lib.rs: Nif/Payload is `term_to_payload`, Nif/Json is
--               `json_value_to_elixir_term`, Nif/Tls is `parse_tls_config` and `write_temp_pem`,
--               Nif/Connect is `client_connect`, Nif/Workflow is `client_start_workflow`,
--               `client_signal_workflow` and `client_query_workflow`, Nif/Worker is `worker_new`, the
--               polls and the completions
--   Sanitize    `sanitize_polling_error` of lib.rs, and async_helpers.rs
--   Elixir      lib/temporal: Elixir/Term has the terms of the Erlang machine and what the library calls of
--               it and of its dependencies (`Machine`), Elixir/Maps its maps, Elixir/Base64 the module
--               Base. Elixir/PayloadConverter is payload_converter.ex with the directory of that name:
--               NilConverter, BinaryConverter, JsonConverter, ProtobufConverter and Chain are the files
--               nil_converter.ex to chain.ex. Elixir/Client is client.ex: Config is client/config.ex
--               (Env is `from_env`, Resolve `resolve_payload_converter`, Parse the readers of texts),
--               Options is `build_config`, Params the parameters of calls, Server the callbacks of the
--               process, of which `Reach` in Server/Reachable.antt makes the runs. Elixir/Bridge
--               joins the two halves, and the terms of Elixir go to the functions of Nif: a
--               configuration to `client_connect` (Options), a payload to `term_to_payload` (Made), the
--               parameters of a workflow to `client_start_workflow` (Start)
--   Examples    stand-ins for the other crates, runs, and the theorems at concrete inputs
--
-- Code outside of the repository is a parameter: serde_json and base64 (`Codecs`, with the laws
-- `IsLawful`), rustler's conversions of terms (`Rustler`), sdk-core, url and the file system
-- (`SdkClient`, `SdkCore`), and tempfile (`TempFiles`, with the laws `TempFilesLaws`). A fresh UUID is
-- an argument. On the side of Elixir these are Jason, the modules of protobuf messages, the tables of
-- Unicode, and the order in which a map iterates (`Machine`, with the laws `IsLawful` of Lawful.antt and
-- `TextLaws`), the environment and the files (`System`), and the native functions as the client sees
-- them (`Native`). `Carries` says how rustler reads the terms of Elixir: it relates `Machine` to
-- `Rustler`; a map of atoms may iterate in any order, and the debug text of an atom may have a colon or
-- none. An error of these is its text. A poll's parameter answers `none` where the time-out of 60
-- seconds would end the poll.
--
-- Correspondence. A Rust text is a text whose order is that of its bytes, a `Vec<u8>` a list of
-- numbers. A JSON object lists its entries in the order in which its map iterates; `collect_map` stands
-- for the collection of entries into such a map, so that maps which iterate by key and maps which
-- iterate in the order of insertion are both covered. `canonicalize_value` sorts the entries and then
-- canonicalises their values; the model does it in the other order, since the sort looks at the keys
-- alone (Converter/JsonConverter/SortFirst.antt compares the two). `?` is a do block or
-- `then_try`, an early return an `if` or an `elim`. In Elixir a value or an exception is a `Raises`,
-- a `rescue` takes the exception out of it, and a callback of the process takes the world of the native
-- functions and returns it. A map is a list of entries in the order of its iteration; integers have no
-- bound.
--
-- Bounds and fuel. All recursion is on the structure of values, lists and texts; the only fuel is in
-- `decimal`, whose n + 1 rounds are more than the digits of n. Limits of lengths are numbers without a
-- bound, as a `usize` holds every length; the milliseconds of worker.rs wrap at 64 bits, and the
-- attempt of an activity is cast from 32 bits unsigned to signed.
--
-- Not modelled: the submodule sdk-core, which is another project's library; logging and telemetry; the
-- two runtimes that are made once per process; the crate's unit tests; the functions of client.ex that only
-- send a message to the process, application.ex and native.ex, which have no logic; the examples.
pub mod Base
pub mod Json
pub mod Converter
pub mod Client
pub mod Worker
pub mod Sanitize
pub mod Nif
pub mod Elixir
pub mod Examples
