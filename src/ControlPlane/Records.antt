-- ===== src/ControlPlane/Records.antt =====
-- The workflows and summaries of `MemoryAgentRuntimeRepository`, of
-- backend/pixelflow/agent_control_plane/persistence/repositories.py. An identifier is taken once for
-- all owners and nothing is removed: `_workflows` and `_workflow_ids`, and `_summaries`,
-- `_summary_ids` and `_summary_version_keys`, are one dictionary each. What the validators of the
-- contracts check of a record holds of the one that is given.
use pixelflow.Base.Dict.{Dict, get, put, values}
use pixelflow.Base.Exec.{Exec, continue}
use pixelflow.Base.Json.{Fields}
use pixelflow.Base.Results.{Result, ok, err, conflict, ◌>>=◌}
use pixelflow.Base.Sorting.{sort}
use pixelflow.Base.{
  ℕ, String, Bool, ◌&&◌, ◌||◌, Option, none, some, List, map, ltb, nat_beq, ◌==◌, if◌then◌else◌,
  is_some, filter, any, text_leb,
}
use pixelflow.ControlPlane.Turns.{require_text, optional_text}

pub data WorkflowKind : Type 0 where
  image video ppt video_analysis : WorkflowKind

pub data WorkflowStatus : Type 0 where
  draft awaiting_user running paused_quota failed completed cancelled : WorkflowStatus

pub record WorkflowRecord : Type 0 where
  pub workflow_id : String
  pub conversation_id : String
  pub kind : WorkflowKind
  pub status : WorkflowStatus
  pub current_stage : String
  pub stage_version : ℕ
  pub creation_contract_snapshot : Fields
  pub latest_artifact_refs : List String
  pub context_version : ℕ
  pub created_at : ℕ
  pub updated_at : ℕ

pub record ContextSummary : Type 0 where
  pub summary_id : String
  pub conversation_id : String
  pub version : ℕ
  pub previous_summary_id : Option String
  pub content_hash : String
  pub user_goals : List String
  pub confirmed_decisions : List String
  pub negative_constraints : List String
  pub workflow_states : Dict String
  pub unresolved_questions : List String
  pub artifact_evidence_refs : List String
  pub covered_message_ids : List String
  pub covered_sequence_start : Option ℕ
  pub covered_sequence_end : Option ℕ
  pub compression_model : String
  pub created_at : ℕ

-- A record under its owner.
pub record Owned (A : Type 0) : Type 0 where
  pub owner : String
  pub content : A

abbrev pub content_of : {A : Type 0} → String → Option (Owned A) → Option A
content_of owner none = none
content_of owner (some entry) = if entry.owner == owner then some entry.content else none

-- The records of an owner that pass a test, in the order of the dictionary.
abbrev pub owned_where : {A : Type 0} → String → (A → Bool) → Dict (Owned A) → List (Owned A)
owned_where owner test d = filter (λ e. e.owner == owner && test e.content) (values d)

abbrev pub Workflows : Type 0
Workflows = Dict (Owned WorkflowRecord)

abbrev pub Summaries : Type 0
Summaries = Dict (Owned ContextSummary)

unfoldable pub normalize_workflow : WorkflowRecord → Result WorkflowRecord
unfolding require_text
normalize_workflow record' = require_text record'.workflow_id 64 >>= λ workflow_id.
    require_text record'.conversation_id 64 >>= λ conversation_id.
    require_text record'.current_stage 64 >>= λ current_stage. ok (record record' {
      workflow_id = workflow_id;
      conversation_id = conversation_id;
      current_stage = current_stage;
    })

abbrev pub insert_workflow : String → WorkflowRecord → Exec Workflows WorkflowRecord
insert_workflow owner normalized d =
    if is_some (get normalized.workflow_id d) then (err conflict, d) else (
      ok normalized,
      put normalized.workflow_id (record { owner = owner; content = normalized }) d,
    )

unfoldable pub create_workflow : String → WorkflowRecord → Exec Workflows WorkflowRecord
unfolding require_text normalize_workflow
create_workflow user_id record' = continue (require_text user_id 64) (λ owner.
    continue (normalize_workflow record') (λ normalized. insert_workflow owner normalized))

unfoldable pub get_workflow : String → String → Workflows → Result (Option WorkflowRecord)
unfolding require_text
get_workflow user_id workflow_id d = require_text user_id 64 >>= λ owner.
    require_text workflow_id 64 >>= λ id. ok (content_of owner (get id d))

-- The latest update first, then the greatest identifier.
abbrev pub updated_after : Owned WorkflowRecord → Owned WorkflowRecord → Bool
updated_after a b =
    ltb b.content.updated_at a.content.updated_at
    || nat_beq b.content.updated_at a.content.updated_at
      && text_leb b.content.workflow_id a.content.workflow_id

unfoldable pub list_workflows : String → String → Workflows → Result (List WorkflowRecord)
unfolding require_text
list_workflows user_id conversation_id d = require_text user_id 64 >>= λ owner.
    require_text conversation_id 64 >>= λ conversation. ok (
      map (λ e. e.content)
        (sort updated_after (owned_where owner (λ w. w.conversation_id == conversation) d)))

unfoldable pub normalize_summary : ContextSummary → Result ContextSummary
unfolding require_text optional_text
normalize_summary record' = require_text record'.summary_id 64 >>= λ summary_id.
    require_text record'.conversation_id 64 >>= λ conversation_id.
    optional_text record'.previous_summary_id 64 >>= λ previous_summary_id.
    require_text record'.content_hash 128 >>= λ content_hash.
    require_text record'.compression_model 128 >>= λ compression_model. ok (record record' {
      summary_id = summary_id;
      conversation_id = conversation_id;
      previous_summary_id = previous_summary_id;
      content_hash = content_hash;
      compression_model = compression_model;
    })

-- The version is taken in the conversation.
abbrev pub has_version : ContextSummary → Owned ContextSummary → Bool
has_version summary e =
    e.content.conversation_id == summary.conversation_id
    && nat_beq e.content.version summary.version

abbrev pub insert_summary : String → ContextSummary → Exec Summaries ContextSummary
insert_summary owner normalized d =
    if is_some (get normalized.summary_id d) || any (has_version normalized) (values d)
    then (err conflict, d)
    else (
      ok normalized,
      put normalized.summary_id (record { owner = owner; content = normalized }) d,
    )

unfoldable pub create_summary : String → ContextSummary → Exec Summaries ContextSummary
unfolding require_text normalize_summary
create_summary user_id record' =
    continue (require_text user_id 64) (λ owner.
      continue (normalize_summary record') (λ normalized. insert_summary owner normalized))

unfoldable pub get_summary : String → String → Summaries → Result (Option ContextSummary)
unfolding require_text
get_summary user_id summary_id d = require_text user_id 64 >>= λ owner.
    require_text summary_id 64 >>= λ id. ok (content_of owner (get id d))

abbrev pub older_version : Owned ContextSummary → Owned ContextSummary → Bool
older_version a b =
    ltb a.content.version b.content.version
    || nat_beq a.content.version b.content.version
      && text_leb a.content.summary_id b.content.summary_id

unfoldable pub list_summaries : String → String → Summaries → Result (List ContextSummary)
unfolding require_text
list_summaries user_id conversation_id d = require_text user_id 64 >>= λ owner.
    require_text conversation_id 64 >>= λ conversation. ok (
      map (λ e. e.content)
        (sort older_version (owned_where owner (λ x. x.conversation_id == conversation) d)))
