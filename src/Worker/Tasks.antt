-- ===== src/Worker/Tasks.antt =====
-- The two polls of `WorkerResource`, and the conversion of what they bring.
pub mod Millis
use sdk_elixir.Base.{
  ℕ, zero, ◌*◌, String, ◌<>◌, if◌then◌else◌, Bool, true, false, Option, none, some, Result, ok, err,
  then_try, map_err, ◌>>=◌, ◌>>◌, unwrap_or, List, [], ◌∷◌, length,
}
use mathlib.Core.Option
use sdk_elixir.Base.Int.{ℤ, pos, ◌+ℤ◌, times, div_trunc, wrap_i64, u32_as_i32}
use sdk_elixir.Base.Utf8.{Bytes}
use sdk_elixir.Json.{Value, Fields, null, bool, num, str, obj, end, field}
use sdk_elixir.Converter.{Codecs}
use sdk_elixir.Worker.{
  Timestamp, WorkflowExecution, Job, initialize_workflow, other_job, WorkflowActivation,
  ActivityStart, start, cancel, ActivityVariant, ActivityTask, PollError, shut_down, other_error,
  SdkCore,
}
use sdk_elixir.Worker.Resource.{WorkerResource}

pub record WorkflowType : Type 0 where
  pub name : String

pub record ActivityType : Type 0 where
  pub name : String

pub record WorkflowTaskData : Type 0 where
  pub run_id : String
  pub workflow_execution : WorkflowExecution
  pub workflow_type : WorkflowType
  pub started_event_id : ℤ
  pub previous_started_event_id : ℤ
  pub attempt : ℤ
  pub history_events : Bytes

pub record ActivityTaskData : Type 0 where
  pub task_token : Bytes
  pub workflow_execution : WorkflowExecution
  pub activity_id : String
  pub activity_type : ActivityType
  pub input : Bytes
  pub scheduled_time_ms : ℤ
  pub schedule_to_close_timeout_ms : ℤ
  pub start_to_close_timeout_ms : ℤ
  pub heartbeat_timeout_ms : ℤ
  pub attempt : ℤ

-- `ts.seconds * 1000 + (ts.nanos as i64) / 1_000_000`: each operation wraps at 64 bits.
unfoldable pub millis : Timestamp → ℤ
unfolding wrap_i64 times div_trunc ◌+ℤ◌
millis t = wrap_i64 (wrap_i64 (times t.seconds 1000) +ℤ div_trunc t.nanos 1000000)

abbrev pub millis_or_zero : Option Timestamp → ℤ
millis_or_zero t = unwrap_or (pos 0) (Option.map millis t)

-- The loop over the jobs: the names in the first `InitializeWorkflow`.
unfoldable pub workflow_names : List Job → String × String
workflow_names [] = ("unknown", "unknown")
workflow_names (initialize_workflow workflow_id workflow_type ∷ jobs) = (workflow_id, workflow_type)
workflow_names (other_job ∷ jobs) = workflow_names jobs

-- `json!` makes its numbers by `from_i64` and `from_u64`, and its maps by insertion.
module _ (C : Codecs) (from_i64 : ℤ → C.Number) (from_u64 : ℕ → C.Number) where
  abbrev seconds_json : Option Timestamp → Value C.Number
  seconds_json none = null
  seconds_json (some t) = num (from_i64 t.seconds)

  unfoldable pub activation_info : WorkflowActivation → Value C.Number
  activation_info a = obj (
      C.collect_map (
        field "run_id" (str a.run_id) (
          field "timestamp" (seconds_json a.timestamp) (
            field "is_replaying" (bool a.is_replaying) (
              field "history_length" (num (from_u64 a.history_length))
                (field "job_count" (num (from_u64 (length a.jobs))) end))))))

  unfoldable pub convert_workflow_activation : WorkflowActivation → Result WorkflowTaskData String
  unfolding workflow_names activation_info
  convert_workflow_activation a = do
    history_events ←
        map_err (λ e. "Failed to serialize activation info: " <> e) (C.to_vec (activation_info a))
    ok (record {
      run_id = a.run_id;
      workflow_execution = record { workflow_id = (workflow_names a.jobs).0; run_id = a.run_id };
      workflow_type = record { name = (workflow_names a.jobs).1 };
      started_event_id = pos a.history_length;
      previous_started_event_id = pos 0;
      attempt = pos 1;
      history_events = history_events;
    })

  unfoldable pub input_info : ActivityStart → Value C.Number
  input_info s = obj (
      C.collect_map (
        field "activity_id" (str s.activity_id) (
          field "activity_type" (str s.activity_type) (
            field "input_size" (num (from_u64 s.input_size))
              (field "scheduled_time" (seconds_json s.scheduled_time) end)))))

  unfoldable pub convert_activity_start : Bytes → ActivityStart → Result ActivityTaskData String
  unfolding input_info millis u32_as_i32
  convert_activity_start task_token s = do
    input ← map_err (λ e. "Failed to serialize activity input: " <> e) (C.to_vec (input_info s))
    ok (record {
      task_token = task_token;
      workflow_execution =
          unwrap_or (record { workflow_id = "unknown"; run_id = "unknown" }) s.workflow_execution;
      activity_id = s.activity_id;
      activity_type = record { name = s.activity_type };
      input = input;
      scheduled_time_ms = millis_or_zero s.scheduled_time;
      schedule_to_close_timeout_ms = millis_or_zero s.schedule_to_close_timeout;
      start_to_close_timeout_ms = millis_or_zero s.start_to_close_timeout;
      heartbeat_timeout_ms = millis_or_zero s.heartbeat_timeout;
      attempt = u32_as_i32 s.attempt;
    })

  unfoldable pub convert_activity_task : ActivityTask → Result ActivityTaskData String
  unfolding convert_activity_start
  convert_activity_task t = elim t.variant [
    | none ↦ err "Activity task has no variant"
    | some cancel ↦ err "Received activity cancel task, not start task"
    | some (start s) ↦ convert_activity_start t.task_token s
  ]

  module _ {Client : Type 0} (K : SdkCore Client) where
    -- What a poll makes of the answer of sdk-core. `none` is the time-out of the caller.
    unfoldable pub poll_result :
        {T D : Type 0}
        → String
        → String
        → (T → Result D String)
        → Option (Result T PollError)
        → Option (Result (Option D) String)
    poll_result converting polling convert none = none
    poll_result converting polling convert (some (err shut_down)) = some (ok none)
    poll_result converting polling convert (some (err (other_error e))) = some (err (polling <> e))
    poll_result converting polling convert (some (ok task)) = some (
        then_try (map_err (λ e. converting <> e) (convert task)) (λ task_data. ok (some task_data)))

    -- The worker of sdk-core, or why there is none to poll.
    unfoldable pub running_core : WorkerResource K → Result K.Core String
    running_core w =
        if w.is_running
        then elim w.core_worker [
          | some core ↦ ok core
          | none ↦ err "SDK Core worker not initialized"
        ]
        else err "Worker is not running"

    unfoldable pub poll_workflow_task :
        WorkerResource K → Option (Result (Option WorkflowTaskData) String)
    unfolding running_core poll_result convert_workflow_activation
    poll_workflow_task w = elim (running_core w) [
      | err e ↦ some (err e)
      | ok core ↦
          poll_result "Failed to convert workflow activation: " "SDK Core polling error: "
            convert_workflow_activation (K.poll_workflow_activation core)
    ]

    unfoldable pub poll_activity_task :
        WorkerResource K → Option (Result (Option ActivityTaskData) String)
    unfolding running_core poll_result convert_activity_task
    poll_activity_task w = elim (running_core w) [
      | err e ↦ some (err e)
      | ok core ↦
          poll_result "Failed to convert activity task: " "SDK Core activity polling error: "
            convert_activity_task (K.poll_activity_task core)
    ]
