-- ===== src/Sidecar/RunService.antt =====
-- `RunService` of services/pixelflow-agent-harness/src/pixelflow_harness_sidecar/run_service.py. The
-- engine is seen through its replies: `validate_request` and `snapshot_skills` answer a result,
-- `execute` ends in a `Reply`, and what its callbacks and other requests do to the run meanwhile is
-- a list of `Meanwhile`. A cancelled task is one whose engine call raises `CancelledError`. The
-- clock is the parameter `clock`, a function of the store it is read at.
pub mod Settling
pub mod Execution
pub mod Outcome
pub mod Tasks
use Prim.Native.String.{◌++◌ as ◌◇◌}
use pixelflow.Base.Dict.{Dict, get, put, pop}
use pixelflow.Base.Exec.{Exec, pure, raise, catch, on_error, ◌>>=◌, ◌>>◌}
use pixelflow.Base.Json.{Fields, end, field, text, null}
use pixelflow.Base.Results.{Result, ok, err, Error, runtime_error, lookup_error, integrity}
use pixelflow.Base.{
  same_text, ℕ, String, Bool, true, false, ◌&&◌, ◌||◌, not, Option, none, some, List, [], ◌∷◌, ◌++◌,
  ◌==◌, if◌then◌else◌, any, filter, is_some,
}
use pixelflow.Sidecar.EventStore.{
  append_locked, create_or_get, get_by_request, start_if_accepted, cancel, transition, find_run,
  single,
}
use pixelflow.Sidecar.Rows.{
  RunStatus, suspended_operation, suspended_confirmation, suspended_authorization, completed,
  failed, TerminationReason, by_completion, max_output_tokens, max_model_steps, max_business_tools,
  deadline_exceeded, engine_error, by_operation, by_confirmation, by_authorization, is_accepted,
  is_running, is_terminal, status_text, RunRow, EventRow, Store, RunRequest, SkillSnapshot,
}

-- `HarnessExecutionDiagnostic`
pub record Diagnostic : Type 0 where
  pub exception_type : String
  pub failure_phase : String
  pub failure_reason : Option String
  pub timeout_phase : Option String
  pub failure_code : Option String
  pub failure_type : Option String
  pub failure_category : Option String

-- `DeepSeekEngineResult`
pub record ExecutionResult : Type 0 where
  pub finish_reason : Option String
  pub suspension_kind : Option String
  pub suspension_interrupt_id : Option String
  pub tool_results_seen : Bool
  pub tool_names : List String
  pub notification_events_emitted : Bool
  pub public_summaries : List String
  pub response_deltas : List String
  pub final_response : String

pub data Reply : Type 0 where
  returned : ExecutionResult → Reply
  raised : (type_name : String) → Option Diagnostic → Reply
  task_cancelled : Reply

pub data Meanwhile : Type 0 where
  public_event : (event_type : String) → Fields → Meanwhile
  cancel_requested : Meanwhile

-- `"\n".join(lines)`
abbrev pub join_lines : List String → String
join_lines [] = ""
join_lines (x ∷ xs) = elim xs [ [] ↦ x | y ∷ ys ↦ x ◇ "\n" ◇ join_lines xs ]

-- `type(error).__name__` of the errors of the store.
abbrev pub type_name_of : Error → String
type_name_of lookup_error = "LookupError"
type_name_of integrity = "IntegrityError"
type_name_of _ = "RuntimeError"

abbrev pub optional_text : Option String → Fields → String → Fields
optional_text none fs key = field key null fs
optional_text (some v) fs key = field key (text v) fs

abbrev pub present : String → Option String → Fields → Fields
present key none fs = fs
present key (some v) fs = field key (text v) fs

abbrev pub diagnostic_extras : Diagnostic → Fields
diagnostic_extras d =
    present "failure_code" d.failure_code
      (present "failure_type" d.failure_type (present "failure_category" d.failure_category end))

abbrev pub failure_payload : String → Option Diagnostic → Fields
failure_payload type_name none = field "code" (text "engine_execution_failed") (
    field "exception_type" (text type_name) (
      field "failure_phase" (text "sidecar_execution")
        (field "failure_reason" null (field "timeout_phase" null end))))
failure_payload type_name (some d) = field "code" (text "engine_execution_failed") (
    field "exception_type" (text d.exception_type) (
      field "failure_phase" (text d.failure_phase) (
        optional_text d.failure_reason
          (optional_text d.timeout_phase (diagnostic_extras d) "timeout_phase") "failure_reason")))

abbrev pub is_output_limit : Option String → Bool
is_output_limit none = false
is_output_limit (some reason) = reason == "max_output_tokens_without_public_response"

abbrev pub recovery_required : Option Diagnostic → Bool
recovery_required none = false
recovery_required (some d) =
    d.failure_phase == "result_projection" && is_output_limit d.failure_reason

-- `finish_failure_codes.get(reason, …)`
unfoldable pub finish_failure : Option String → TerminationReason × String
finish_failure none = (engine_error, "engine_finish_reason_unexpected")
finish_failure (some reason) =
    if reason == "deadline_exceeded"
    then (deadline_exceeded, reason)
    else if reason == "max_model_steps"
    then (max_model_steps, reason)
    else if reason == "max_business_tools"
    then (max_business_tools, reason)
    else if reason == "max_output_tokens"
    then (max_output_tokens, reason)
    else (engine_error, "engine_finish_reason_unexpected")

pub data Suspension : Type 0 where
  operation confirmation authorization : Suspension

-- `mapping[kind]`
unfoldable pub suspension_of : String → Option Suspension
suspension_of kind =
    if kind == "pending_operation"
    then some operation
    else if kind == "awaiting_confirmation"
    then some confirmation
    else if kind == "authorization_required"
    then some authorization
    else none

abbrev pub suspended_status : Suspension → RunStatus
suspended_status operation = suspended_operation
suspended_status confirmation = suspended_confirmation
suspended_status authorization = suspended_authorization

abbrev pub suspended_reason : Suspension → TerminationReason
suspended_reason operation = by_operation
suspended_reason confirmation = by_confirmation
suspended_reason authorization = by_authorization

abbrev pub runs_now : Option RunRow → Bool
runs_now none = false
runs_now (some row) = is_running row.status

module _ (sha256_hex : String → String) (clock : Store → ℕ) (run_id : String) where
  unfoldable pub append_event : String → Fields → Exec Store EventRow
  append_event event_type payload s = append_locked sha256_hex run_id event_type payload (clock s) s

  unfoldable pub move_to : RunStatus → TerminationReason → Exec Store RunRow
  move_to status reason s = transition run_id status (some reason) (clock s) s

  unfoldable pub cancel_now : Exec Store (Option RunRow)
  cancel_now s = cancel sha256_hex run_id (clock s) (clock s) s

  -- A loop of `append_event` with the same type and key.
  unfoldable pub append_all : String → String → List String → Exec Store (Unit {0})
  unfolding append_event ◌>>=◌
  append_all event_type key [] = pure tt
  append_all event_type key (v ∷ vs) =
      append_event event_type (single key v) >>= λ e. append_all event_type key vs

  unfoldable pub suspended_payload : Suspension → Option String → Result Fields
  suspended_payload operation interrupt_id = ok (single "status" "suspended_operation")
  suspended_payload kind none = err runtime_error
  suspended_payload kind (some interrupt_id) = ok (
      field "status" (text (status_text (suspended_status kind)))
        (single "interrupt_id" interrupt_id))

  unfoldable pub append_result : Result Fields → Exec Store (Unit {0})
  unfolding append_event ◌>>=◌
  append_result (ok payload) = append_event "run.suspended" payload >>= λ e. pure tt
  append_result (err e) = raise e

  unfoldable pub suspend_as : Option Suspension → Option String → Exec Store (Unit {0})
  unfolding move_to suspended_payload append_result ◌>>=◌
  suspend_as none interrupt_id = raise runtime_error
  suspend_as (some kind) interrupt_id =
      move_to (suspended_status kind) (suspended_reason kind) >>= λ r.
      append_result (suspended_payload kind interrupt_id)

  -- Transition to a final status, then the event of it.
  unfoldable pub finish_with :
      RunStatus → TerminationReason → String → Fields → Exec Store (Unit {0})
  unfolding move_to append_event ◌>>=◌
  finish_with status reason event_type payload = do
    move_to status reason
    append_event event_type payload
    pure tt

  abbrev pub append_summary : ExecutionResult → Exec Store (Unit {0})
  append_summary result s = elim result.public_summaries [
    | [] ↦ (ok tt, s)
    | x ∷ xs ↦
        (append_event "public_summary.completed"
              (single "summary" (join_lines result.public_summaries))
            >>= λ e. pure tt)
          s
  ]

  -- From the public summaries to the end of the `try` block.
  unfoldable pub complete_run : ExecutionResult → Exec Store (Unit {0})
  unfolding append_all append_event finish_with ◌>>=◌
  complete_run result = do
    append_all "public_summary.delta" "delta"
        (if result.notification_events_emitted then [] else result.public_summaries)
    append_summary result
    append_all "response.delta" "delta"
        (if result.notification_events_emitted then [] else result.response_deltas)
    append_event "response.completed" (single "response" result.final_response)
    finish_with completed by_completion "run.completed" (single "status" "completed")

  -- From the tool events on.
  unfoldable pub project_tools : ExecutionResult → Exec Store (Unit {0})
  unfolding append_all complete_run finish_with finish_failure ◌>>=◌
  project_tools result = do
    append_all "tool.completed" "tool_name"
        (if result.tool_results_seen then result.tool_names else [])
    if not (same_text result.finish_reason (some "completed"))
        then finish_with failed (finish_failure result.finish_reason).0 "run.failed"
            (single "code" (finish_failure result.finish_reason).1)
        else complete_run result

  unfoldable pub project_result : ExecutionResult → Exec Store (Unit {0})
  unfolding suspend_as suspension_of project_tools
  project_result result = elim result.suspension_kind [
    | some kind ↦ suspend_as (suspension_of kind) result.suspension_interrupt_id
    | none ↦ project_tools result
  ]

  unfoldable pub fail_found : String → Option Diagnostic → Option RunRow → Exec Store (Unit {0})
  unfolding finish_with
  fail_found type_name diagnostic none s = (ok tt, s)
  fail_found type_name diagnostic (some row) s =
      if is_terminal row.status
      then (ok tt, s)
      else if recovery_required diagnostic
      then finish_with failed max_output_tokens "run.failed"
          (single "code" "harness_run_recovery_required") s
      else finish_with failed engine_error "run.failed" (failure_payload type_name diagnostic) s

  -- `except Exception`
  unfoldable pub fail : String → Option Diagnostic → Exec Store (Unit {0})
  unfolding fail_found
  fail type_name diagnostic s = fail_found type_name diagnostic (find_run run_id s) s

  unfoldable pub fail_store : Error → Exec Store (Unit {0})
  unfolding fail
  fail_store e = fail (type_name_of e) none

  -- After `await self._engine.execute(…)`.
  unfoldable pub engine_replied : Reply → Exec Store (Unit {0})
  unfolding fail_store project_result catch cancel_now ◌>>=◌
  engine_replied (returned result) s =
      if runs_now (find_run run_id s)
      then catch (project_result result) fail_store s
      else (ok tt, s)
  engine_replied (raised type_name diagnostic) s = fail type_name diagnostic s
  engine_replied task_cancelled s = (cancel_now >>= λ r. pure tt) s

  -- The store after what other tasks did; their own errors reach them, not this task.
  unfoldable pub meanwhile : List Meanwhile → Store → Store
  unfolding append_event cancel_now
  meanwhile [] s = s
  meanwhile (public_event event_type payload ∷ ms) s =
      meanwhile ms (append_event event_type payload s).1
  meanwhile (cancel_requested ∷ ms) s = meanwhile ms (cancel_now s).1

  -- `start_if_accepted` and the first event; whether the run is to go on.
  unfoldable pub announce : Option RunRow → Exec Store Bool
  unfolding append_event ◌>>=◌
  announce started =
      if runs_now started
      then (append_event "public_summary.delta" (single "delta" "正在分析你的请求并核对工作区。") >>= λ e.
          pure true)
      else pure false

  unfoldable pub begin : Exec Store Bool
  unfolding announce ◌>>=◌
  begin s = (start_if_accepted sha256_hex run_id (clock s) >>= announce) s

  unfoldable pub begun : List Meanwhile → Reply → Result Bool → Exec Store (Unit {0})
  unfolding meanwhile engine_replied fail_store
  begun others reply (ok true) s = engine_replied reply (meanwhile others s)
  begun others reply (ok false) s = (ok tt, s)
  begun others reply (err e) s = fail_store e s

  -- The `try` statement of `_execute`.
  unfoldable pub execute : List Meanwhile → Reply → Exec Store (Unit {0})
  unfolding begin begun
  execute others reply s = let (r, t) = begin s in begun others reply r t
