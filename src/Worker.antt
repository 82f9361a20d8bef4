-- ===== src/Worker.antt =====
-- native/temporal_nif/src/worker.rs: the worker's configuration, its state, and what it calls of
-- sdk-core.
pub mod Resource
pub mod Tasks
pub mod Threads
use sdk_elixir.Base.{ℕ, ◌*◌, String, Bool, false, Option, Result, List}
use sdk_elixir.Base.Int.{ℤ}
use sdk_elixir.Base.Utf8.{Bytes}

pub record WorkerConfig : Type 0 where
  pub namespace : String
  pub task_queue : String
  pub max_cached_workflows : ℕ
  pub max_outstanding_workflow_tasks : ℕ
  pub max_outstanding_activities : ℕ
  pub max_outstanding_local_activities : ℕ
  pub no_remote_activities : Bool
  pub sticky_queue_schedule_to_start_timeout_ms : ℕ  -- u32
  pub max_heartbeat_throttle_interval_ms : ℕ  -- u32
  pub default_heartbeat_throttle_interval_ms : ℕ  -- u32

-- `impl Default for WorkerConfig`
abbrev pub default_config : WorkerConfig
default_config = record {
  namespace = "default";
  task_queue = "default";
  max_cached_workflows = 0;
  max_outstanding_workflow_tasks = 100;
  max_outstanding_activities = 100;
  max_outstanding_local_activities = 100;
  no_remote_activities = false;
  sticky_queue_schedule_to_start_timeout_ms = 10000;
  max_heartbeat_throttle_interval_ms = 60000;
  default_heartbeat_throttle_interval_ms = 5000;
}

-- The settings that are handed to sdk-core's builder.
pub record CoreConfig : Type 0 where
  pub namespace : String
  pub task_queue : String
  pub max_outstanding_workflow_tasks : ℕ
  pub max_outstanding_activities : ℕ
  pub max_outstanding_local_activities : ℕ

-- A timestamp or a duration of the protocol: `seconds` is an i64, `nanos` an i32.
pub record Timestamp : Type 0 where
  pub seconds : ℤ
  pub nanos : ℤ

pub record WorkflowExecution : Type 0 where
  pub workflow_id : String
  pub run_id : String

-- The jobs of an activation: `InitializeWorkflow` with what is read of it, or any other.
pub data Job : Type 0 where
  initialize_workflow : (workflow_id workflow_type : String) → Job
  other_job : Job

pub record WorkflowActivation : Type 0 where
  pub run_id : String
  pub timestamp : Option Timestamp
  pub is_replaying : Bool
  pub history_length : ℕ  -- u32
  pub jobs : List Job

pub record ActivityStart : Type 0 where
  pub workflow_execution : Option WorkflowExecution
  pub activity_id : String
  pub activity_type : String
  pub input_size : ℕ
  pub scheduled_time : Option Timestamp
  pub schedule_to_close_timeout : Option Timestamp
  pub start_to_close_timeout : Option Timestamp
  pub heartbeat_timeout : Option Timestamp
  pub attempt : ℕ  -- u32

pub data ActivityVariant : Type 0 where
  start : ActivityStart → ActivityVariant
  cancel : ActivityVariant

pub record ActivityTask : Type 0 where
  pub task_token : Bytes
  pub variant : Option ActivityVariant

pub data PollError : Type 0 where
  shut_down : PollError
  other_error : (message : String) → PollError

-- What is called of sdk-core's worker. `Core` is a running worker; a poll answers, or does not answer
-- within the 60 seconds that are given to it (`none`).
pub record SdkCore (Client : Type 0) : Type 1 where
  pub Core : Type 0
  pub build : CoreConfig → Result CoreConfig String
  pub init_worker : CoreConfig → Client → Result Core String
  pub poll_workflow_activation : Core → Option (Result WorkflowActivation PollError)
  pub poll_activity_task : Core → Option (Result ActivityTask PollError)
