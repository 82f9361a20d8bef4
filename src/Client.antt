-- ===== src/Client.antt =====
-- native/temporal_nif/src/client.rs: the records of the client, and the client of sdk-core.
pub mod Connect
pub mod Workflow
use sdk_elixir.Base.{ℕ, String, Bool, Option, Result, List}
use sdk_elixir.Base.Dict.{Dict}
use sdk_elixir.Base.Int.{ℤ}
use sdk_elixir.Base.Utf8.{Bytes}
use sdk_elixir.Json.{Value}
use sdk_elixir.Converter.{Payload}
use sdk_elixir.Converter.Composite.{Converters}

pub record ClientTlsConfig : Type 0 where
  pub client_cert_path : Option String
  pub client_key_path : Option String
  pub ca_cert_path : Option String

pub record RetryOptions : Type 0 where
  pub max_attempts : ℕ  -- u32
  pub initial_backoff_ms : ℕ  -- u64
  pub max_backoff_ms : ℕ  -- u64

pub record ClientOptions : Type 0 where
  pub tls : Option ClientTlsConfig
  pub client_name : Option String
  pub client_version : Option String
  pub identity : Option String
  pub api_key : Option String
  pub skip_system_info : Bool
  pub headers : Option (Dict String)
  pub retries : Option RetryOptions

pub record WorkflowStartParams : Type 0 where
  pub workflow_id : String
  pub workflow_type : String
  pub task_queue : String
  pub input : Option (List Payload)
  pub request_id : Option String
  pub execution_timeout : Option ℕ
  pub run_timeout : Option ℕ
  pub task_timeout : Option ℕ

pub record WorkflowHandle : Type 0 where
  pub run_id : String
  pub workflow_id : String
  pub first_execution_run_id : String

pub record WorkflowSignalParams : Type 0 where
  pub workflow_id : String
  pub run_id : Option String
  pub signal_name : String
  pub input : Option (List Payload)
  pub namespace : Option String

pub record WorkflowQueryParams : Type 0 where
  pub workflow_id : String
  pub run_id : Option String
  pub query_type : String
  pub input : Option (List Payload)
  pub namespace : Option String

pub record QueryResponse (N : Type 0) : Type 0 where
  pub result : Option (Value N)
  pub query_rejected : Option String

-- The fields of the protocol's requests that the program sets; it leaves the others at their
-- defaults.
pub record StartWorkflowExecutionRequest : Type 0 where
  pub namespace : String
  pub workflow_id : String
  pub workflow_type : String
  pub task_queue : String
  pub input : Option (List Payload)
  pub request_id : String

pub record SignalWorkflowExecutionRequest : Type 0 where
  pub namespace : String
  pub workflow_id : String
  pub run_id : String
  pub signal_name : String
  pub input : Option (List Payload)
  pub request_id : String

pub record QueryWorkflowRequest : Type 0 where
  pub namespace : String
  pub workflow_id : String
  pub run_id : String
  pub query_type : String
  pub query_args : Option (List Payload)

-- The answer to a query: the status of a rejection, and the payloads of a result.
pub record QueryWorkflowResponse : Type 0 where
  pub query_rejected : Option ℤ
  pub query_result : Option (List Payload)

-- The options that are handed to sdk-core's builder. `none` means that the setter is not called.
pub record TlsConfig : Type 0 where
  pub server_root_ca_cert : Option Bytes
  pub client_tls_config : Option (Bytes × Bytes)

pub record RetryConfig : Type 0 where
  pub initial_interval_ms : ℕ
  pub max_interval_ms : ℕ
  pub max_retries : ℕ

pub record BuilderOptions (Url : Type 0) : Type 0 where
  pub target_url : Url
  pub client_name : String
  pub client_version : String
  pub skip_get_system_info : Bool
  pub identity : Option String
  pub api_key : Option String
  pub headers : Option (Dict String)
  pub retry_config : Option RetryConfig
  pub tls_cfg : Option TlsConfig

-- What is called of sdk-core's client, of `url`, and of the file system. Errors are their texts.
-- The calls of the server answer by the request; a retry of sdk-core is a part of the call.
pub record SdkClient : Type 1 where
  pub Client : Type 0
  pub Url : Type 0
  pub parse_url : String → Result Url String
  pub read_file : String → Result Bytes String
  pub build : BuilderOptions Url → Result (BuilderOptions Url) String
  pub connect : BuilderOptions Url → String → Result Client String
  pub namespace : Client → String
  pub start_workflow_execution : Client → StartWorkflowExecutionRequest → Result String String
  pub signal_workflow_execution : Client → SignalWorkflowExecutionRequest → Result (Unit {0}) String
  pub query_workflow : Client → QueryWorkflowRequest → Result QueryWorkflowResponse String

-- `struct ClientResource`
pub record ClientResource (S : SdkClient) (N : Type 0) : Type 0 where
  pub inner : S.Client
  pub converter : Converters N
