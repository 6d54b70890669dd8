-- ===== src/Jobs/Repository.antt =====
-- `MemoryGenerationJobRepository` of backend/pixelflow/generation_jobs/repository.py. Each method
-- raises before it writes, so an error leaves the records as they were; the `asyncio.Lock` makes a
-- method one step. `_utc` changes no instant, and `deepcopy` no value.
pub mod Commands
pub mod Cases
pub mod Validity
pub mod Lifecycle
pub mod Leases
pub mod Idempotency
pub mod Reopening
mod Tests
use pixelflow.Base.Dict.{Dict, get, put, put_all, values}
use pixelflow.Base.Results.{
  Result, ok, err, value_error, lookup_error, conflict, ◌>>=◌, ◌>>◌, guard,
}
use pixelflow.Base.Json.{Fields}
use pixelflow.Base.{
  ℕ, ◌+◌, String, Bool, false, ◌&&◌, ◌||◌, not, Option, none, some, List, [], ◌∷◌, map, ltb, leb,
  ◌==◌, if◌then◌else◌, is_blank, is_missing, is_member, same_text, length, take, filter, find, any,
}
use pixelflow.Jobs.Contracts.{
  GenerationJobRecord, GenerationJobStatus, starting, polling, same_kind, is_queued, is_starting,
  is_polling, is_succeeded, is_indeterminate,
}

abbrev pub Records : Type 0
Records = Dict GenerationJobRecord

abbrev pub id_of : GenerationJobRecord → String
id_of item = item.generation_job_id

-- `value is not None and value > now`, and `value is not None and value <= now`.
abbrev pub is_after : Option ℕ → ℕ → Bool
is_after none now = false
is_after (some t) now = ltb now t

abbrev pub is_due : Option ℕ → ℕ → Bool
is_due none now = false
is_due (some t) now = leb t now

unfoldable pub lease_owned : GenerationJobRecord → String → ℕ → Bool
lease_owned item worker_id now =
    same_text item.lease_owner (some worker_id) && is_after item.lease_expires_at now

-- A `timedelta` is a number; the source refuses those that are not positive.
unfoldable pub validate_claim_inputs : String → ℕ → ℕ → Result (Unit {0})
validate_claim_inputs worker_id lease_duration limit =
    guard (not (is_blank worker_id || leb lease_duration 0 || ltb limit 1 || ltb 6 limit))
      value_error

unfoldable pub same_identity : GenerationJobRecord → GenerationJobRecord → Bool
same_identity left right =
    left.user_id == right.user_id
    && left.conversation_id == right.conversation_id
    && left.workspace_id == right.workspace_id
    && same_kind left.kind right.kind
    && left.item_id == right.item_id
    && (leb left.variant_index right.variant_index && leb right.variant_index left.variant_index)
    && left.request_hash == right.request_hash
    && left.provider_id == right.provider_id

abbrev pub missing_mapped_result_reasons : List String
missing_mapped_result_reasons =
    "provider_result_missing" ∷ "provider_poll_image_result_url_missing"
    ∷ "provider_start_image_result_url_missing" ∷ "provider_poll_video_result_url_missing"
    ∷ "provider_start_video_result_url_missing"
    ∷ "provider_poll_provider_status_authorization_unavailable" ∷ []

abbrev pub reason_in : Option String → List String → Bool
reason_in none reasons = false
reason_in (some reason) reasons = is_member reason reasons

-- Every kind is one of the two that the source lists.
unfoldable pub is_missing_mapped_result : GenerationJobRecord → Bool
is_missing_mapped_result item =
    is_indeterminate item.status
    && reason_in item.failure_reason_code missing_mapped_result_reasons
    && not (is_missing item.provider_job_id)

-- `_get`
unfoldable pub find_record : Records → String → Result GenerationJobRecord
find_record records generation_job_id = elim (get generation_job_id records) [
  | none ↦ err lookup_error
  | some item ↦ ok item
]

unfoldable pub create_or_read :
    Records → GenerationJobRecord → Result (GenerationJobRecord × Records)
create_or_read records candidate =
    elim (find (λ item. item.idempotency_key == candidate.idempotency_key) (values records)) [
      | some existing ↦
          if same_identity existing candidate then ok (existing, records) else err conflict
      | none ↦ ok (candidate, put candidate.generation_job_id candidate records)
    ]

abbrev pub start_claimable : ℕ → GenerationJobRecord → Bool
start_claimable now item =
    is_queued item.status || (is_starting item.status && is_due item.lease_expires_at now)

abbrev pub start_claimed : String → ℕ → ℕ → GenerationJobRecord → GenerationJobRecord
start_claimed worker_id now lease_duration item = record item {
  status = starting;
  lease_owner = some worker_id;
  lease_expires_at = some (now + lease_duration);
  updated_at = now;
}

-- The candidates are read before the loop writes, so the loop stores each one's own update.
unfoldable pub claim_start_jobs :
    Records → String → ℕ → ℕ → ℕ → Result (List GenerationJobRecord × Records)
claim_start_jobs records worker_id now lease_duration limit = do
  validate_claim_inputs worker_id lease_duration limit
  let candidates = take limit (filter (start_claimable now) (values records))
  let claimed = map (start_claimed worker_id now lease_duration) candidates
  ok (claimed, put_all id_of claimed records)

abbrev pub bound : String → ℕ → ℕ → GenerationJobRecord → GenerationJobRecord
bound job now next item = record item {
  status = polling;
  provider_job_id = some job;
  next_poll_at = some next;
  lease_owner = none;
  lease_expires_at = none;
  updated_at = now;
}

unfoldable pub bind_provider_job :
    Records → String → String → String → ℕ → ℕ → Result (GenerationJobRecord × Records)
unfolding find_record
bind_provider_job records generation_job_id provider_job_id worker_id now next_poll_at = do
  item ← find_record records generation_job_id
  guard (lease_owned item worker_id now && is_starting item.status) conflict
  let updated = bound provider_job_id now next_poll_at item
  ok (updated, put generation_job_id updated records)

abbrev pub poll_claimable : ℕ → GenerationJobRecord → Bool
poll_claimable now item =
    is_polling item.status
    && is_due item.next_poll_at now
    && not (is_after item.lease_expires_at now)

abbrev pub poll_claimed : String → ℕ → ℕ → GenerationJobRecord → GenerationJobRecord
poll_claimed worker_id now lease_duration item = record item {
  lease_owner = some worker_id;
  lease_expires_at = some (now + lease_duration);
  updated_at = now;
}

unfoldable pub claim_poll_jobs :
    Records → String → ℕ → ℕ → ℕ → Result (List GenerationJobRecord × Records)
claim_poll_jobs records worker_id now lease_duration limit = do
  validate_claim_inputs worker_id lease_duration limit
  let candidates = take limit (filter (poll_claimable now) (values records))
  let claimed = map (poll_claimed worker_id now lease_duration) candidates
  ok (claimed, put_all id_of claimed records)

abbrev pub rescheduled : ℕ → ℕ → GenerationJobRecord → GenerationJobRecord
rescheduled now next item = record item {
  next_poll_at = some next;
  lease_owner = none;
  lease_expires_at = none;
  updated_at = now;
}

unfoldable pub reschedule_poll :
    Records → String → String → ℕ → ℕ → Result (GenerationJobRecord × Records)
unfolding find_record
reschedule_poll records generation_job_id worker_id now next_poll_at = do
  item ← find_record records generation_job_id
  guard (lease_owned item worker_id now && is_polling item.status) conflict
  let updated = rescheduled now next_poll_at item
  ok (updated, put generation_job_id updated records)

abbrev pub completed :
    GenerationJobStatus
    → ℕ
    → Option Fields
    → Option String
    → GenerationJobRecord
    → GenerationJobRecord
completed outcome now result reason item = record item {
  status = outcome;
  result_json = result;
  failure_reason_code = reason;
  next_poll_at = none;
  lease_owner = none;
  lease_expires_at = none;
  updated_at = now;
}

unfoldable pub complete :
    Records
    → String
    → String
    → GenerationJobStatus
    → ℕ
    → Option Fields
    → Option String
    → Result (GenerationJobRecord × Records)
unfolding find_record
complete records generation_job_id worker_id status now result_json failure_reason_code = do
  item ← find_record records generation_job_id
  guard (lease_owned item worker_id now) conflict
  let updated = completed status now result_json failure_reason_code item
  ok (updated, put generation_job_id updated records)

abbrev pub same_asset : GenerationJobRecord → GenerationJobRecord → Bool
same_asset a b = a.workspace_id == b.workspace_id && a.item_id == b.item_id

-- The dictionary `latest`, whose key is the asset of the record that it holds.
unfoldable pub keep_latest :
    GenerationJobRecord → List GenerationJobRecord → List GenerationJobRecord
keep_latest item [] = item ∷ []
keep_latest item (current ∷ rest) =
    if same_asset current item
    then (if ltb current.created_at item.created_at then item ∷ rest else current ∷ rest)
    else current ∷ keep_latest item rest

-- `(item.workspace_id, item.item_id) in succeeded`
abbrev pub has_succeeded : List GenerationJobRecord → GenerationJobRecord → Bool
has_succeeded items item = any (λ other. is_succeeded other.status && same_asset other item) items

abbrev pub replayable : List GenerationJobRecord → GenerationJobRecord → Bool
replayable items item = is_missing_mapped_result item && not (has_succeeded items item)

unfoldable pub latest_of :
    List GenerationJobRecord
    → List GenerationJobRecord
    → List GenerationJobRecord
    → List GenerationJobRecord
unfolding keep_latest
latest_of all [] latest = latest
latest_of all (item ∷ items) latest =
    latest_of all items (if replayable all item then keep_latest item latest else latest)

abbrev pub reopened : ℕ → GenerationJobRecord → GenerationJobRecord
reopened now item = record item {
  status = polling;
  failure_reason_code = none;
  result_json = none;
  lease_owner = none;
  lease_expires_at = none;
  next_poll_at = some now;
  updated_at = now;
}

unfoldable pub reopen_missing_image_results : Records → ℕ → ℕ → ℕ × Records
unfolding latest_of
reopen_missing_image_results records now limit =
    let chosen = take limit (latest_of (values records) (values records) []) in
    if leb limit 0
    then (0, records)
    else (length chosen, put_all id_of (map (reopened now) chosen) records)
