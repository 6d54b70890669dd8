-- ===== src/Sidecar/Rows.antt =====
-- The enumerations of services/pixelflow-agent-harness/src/pixelflow_harness_sidecar/contracts.py and
-- the three tables of event_store.py. A time is a number; a payload is kept as the object that
-- `json.dumps` writes and `json.loads` reads back.
use pixelflow.Base.Json.{Fields}
use pixelflow.Base.{ℕ, String, Bool, true, false, Option, List, []}

pub data RunStatus : Type 0 where
  accepted running suspended_operation suspended_confirmation suspended_authorization completed
        failed cancelled :
      RunStatus

pub data TerminationReason : Type 0 where
  by_completion max_output_tokens max_model_steps max_business_tools deadline_exceeded engine_error
        by_cancellation by_operation by_confirmation by_authorization :
      TerminationReason

abbrev pub is_accepted : RunStatus → Bool
is_accepted accepted = true
is_accepted _ = false

abbrev pub is_running : RunStatus → Bool
is_running running = true
is_running _ = false

-- `terminal_statuses` of `cancel`
abbrev pub is_terminal : RunStatus → Bool
is_terminal completed = true
is_terminal failed = true
is_terminal cancelled = true
is_terminal _ = false

-- `StrEnum.value`
abbrev pub status_text : RunStatus → String
status_text accepted = "accepted"
status_text running = "running"
status_text suspended_operation = "suspended_operation"
status_text suspended_confirmation = "suspended_confirmation"
status_text suspended_authorization = "suspended_authorization"
status_text completed = "completed"
status_text failed = "failed"
status_text cancelled = "cancelled"

-- A row of `harness_runs`, which is also what `_state` shows of it.
pub record RunRow : Type 0 where
  pub run_id : String
  pub run_request_key : String
  pub request_digest : String
  pub status : RunStatus
  pub termination_reason : Option TerminationReason
  pub engine_id : String
  pub engine_version : String
  pub skill_catalog_digest : String
  pub accepted_at : ℕ
  pub completed_at : Option ℕ

-- A row of `harness_run_events`.
pub record EventRow : Type 0 where
  pub event_run : String
  pub sequence : ℕ
  pub event_id : String
  pub event_type : String
  pub occurred_at : ℕ
  pub payload : Fields

-- A row of `harness_run_skills`, and an entry of a skill snapshot without the run.
pub record SkillRow : Type 0 where
  pub skill_run : String
  pub name : String
  pub description : String
  pub content_sha256 : String
  pub body : String

pub record Store : Type 0 where
  pub runs : List RunRow
  pub events : List EventRow
  pub skills : List SkillRow

abbrev pub empty_store : Store
empty_store = record { runs = []; events = []; skills = [] }

-- The part of `HarnessRunRequest` that the store reads.
pub record RunRequest : Type 0 where
  pub run_request_key : String
  pub request_digest : String

pub record SkillSnapshot : Type 0 where
  pub catalog_digest : String
  pub entries : List SkillRow
