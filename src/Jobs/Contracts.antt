-- ===== src/Jobs/Contracts.antt =====
-- backend/pixelflow/generation_jobs/contracts.py. A `datetime` is a number of microseconds (UTC).
use pixelflow.Base.Json.{Fields, end, is_falsy}
use pixelflow.Base.Results.{Result, ok, value_error, ◌>>◌, guard}
use pixelflow.Base.{
  ℕ, String, ◌≡◌, Bool, true, false, ◌&&◌, ◌||◌, not, Option, none, is_some, is_missing,
}

pub data GenerationJobKind : Type 0 where
  image video : GenerationJobKind

pub data GenerationJobStatus : Type 0 where
  queued starting polling succeeded failed timeout expired indeterminate : GenerationJobStatus

-- `left is right`
abbrev pub same_kind : GenerationJobKind → GenerationJobKind → Bool
same_kind image image = true
same_kind video video = true
same_kind _ _ = false

abbrev pub is_queued : GenerationJobStatus → Bool
is_queued queued = true
is_queued _ = false

abbrev pub is_starting : GenerationJobStatus → Bool
is_starting starting = true
is_starting _ = false

abbrev pub is_polling : GenerationJobStatus → Bool
is_polling polling = true
is_polling _ = false

abbrev pub is_succeeded : GenerationJobStatus → Bool
is_succeeded succeeded = true
is_succeeded _ = false

abbrev pub is_indeterminate : GenerationJobStatus → Bool
is_indeterminate indeterminate = true
is_indeterminate _ = false

-- `_TERMINAL_STATUSES`
abbrev pub is_terminal : GenerationJobStatus → Bool
is_terminal queued = false
is_terminal starting = false
is_terminal polling = false
is_terminal _ = true

-- The terminal statuses that need a failure reason.
abbrev pub is_failure : GenerationJobStatus → Bool
is_failure failed = true
is_failure timeout = true
is_failure expired = true
is_failure indeterminate = true
is_failure _ = false

pub record GenerationJobRecord : Type 0 where
  pub generation_job_id : String
  pub user_id : String
  pub conversation_id : String
  pub workspace_id : String
  pub kind : GenerationJobKind
  pub item_id : String
  pub variant_index : ℕ
  pub status : GenerationJobStatus
  pub request_json : Fields
  pub request_hash : String
  pub idempotency_key : String
  pub provider_id : String
  pub provider_job_id : Option String
  pub result_json : Option Fields
  pub failure_reason_code : Option String
  pub next_poll_at : Option ℕ
  pub lease_owner : Option String
  pub lease_expires_at : Option ℕ
  pub created_at : ℕ
  pub updated_at : ℕ

-- The checks in the order of the source; each raises `ValueError`.
unfoldable pub validate_status_contract : GenerationJobRecord → Result GenerationJobRecord
validate_status_contract r = do
  guard
      (not (is_polling r.status && (is_missing r.provider_job_id || not (is_some r.next_poll_at))))
      value_error
  guard
      (not (is_starting r.status && (is_missing r.lease_owner || not (is_some r.lease_expires_at))))
      value_error
  guard (not (is_terminal r.status && (is_some r.lease_owner || is_some r.lease_expires_at)))
      value_error
  guard (not (is_succeeded r.status && is_falsy r.result_json)) value_error
  guard (not (is_failure r.status && is_missing r.failure_reason_code)) value_error
  ok r

-- The record passes its validator.
abbrev pub IsValid : GenerationJobRecord → Type 0
IsValid r = validate_status_contract r ≡ ok r

-- A queued job for tests and examples.
abbrev pub sample_job : GenerationJobRecord
sample_job = record {
  generation_job_id = "generation-job-1";
  user_id = "u1";
  conversation_id = "c1";
  workspace_id = "w1";
  kind = image;
  item_id = "asset-1";
  variant_index = 1;
  status = queued;
  request_json = end;
  request_hash = "h1";
  idempotency_key = "key-1";
  provider_id = "content_app";
  provider_job_id = none;
  result_json = none;
  failure_reason_code = none;
  next_poll_at = none;
  lease_owner = none;
  lease_expires_at = none;
  created_at = 100;
  updated_at = 100;
}
