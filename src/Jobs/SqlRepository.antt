-- ===== src/Jobs/SqlRepository.antt =====
-- `SQLGenerationJobRepository` of backend/pixelflow/generation_jobs/repository.py. The table is a
-- dictionary by its primary key, whose rows are the records as they are written; a transaction is
-- one step, and an exception rolls it back. Reading a row validates the record again, which strips
-- its texts and refuses those that are too long; what pydantic does to a value of JSON is the
-- parameter `validate_json`. Blanks are those of `str.strip`.
pub mod Agreement
mod Reopening
mod Tests
use Prim.Native.String.{count}
use pixelflow.Base.Dict.{get, put, put_all, values}
use pixelflow.Base.Json.{Fields}
use pixelflow.Base.Results.{Result, ok, err, conflict, value_error, ◌>>=◌, ◌>>◌, guard}
use pixelflow.Base.Sorting.{sort}
use pixelflow.Base.{
  ℕ, String, Bool, true, false, ◌&&◌, ◌||◌, not, Option, none, some, List, [], ◌∷◌, map, ltb, leb,
  nat_beq, ◌==◌, if◌then◌else◌, is_some, take, filter, find, text_leb, length, strip, is_empty,
}
use pixelflow.Jobs.Contracts.{
  GenerationJobRecord, GenerationJobStatus, validate_status_contract, is_starting, is_polling,
  is_indeterminate,
}
use pixelflow.Jobs.Repository.{
  Records, id_of, lease_owned, validate_claim_inputs, same_identity, start_claimable, start_claimed,
  bound, poll_claimable, poll_claimed, rescheduled, completed, reason_in,
  missing_mapped_result_reasons, keep_latest, has_succeeded, reopened,
}

-- A text field of the model, with `str_strip_whitespace` and its limits.
unfoldable pub text_field : ℕ → String → Result String
text_field max_length value =
    let text = strip value in
    if is_empty text || ltb max_length (count text) then err value_error else ok text

unfoldable pub optional_field : ℕ → Option String → Result (Option String)
optional_field max_length none = ok none
optional_field max_length (some value) =
    let text = strip value in
    if ltb max_length (count text) then err value_error else ok (some text)

module _ (validate_json : Fields → Fields) where
  abbrev pub optional_json : Option Fields → Option Fields
  optional_json none = none
  optional_json (some fields) = some (validate_json fields)

  -- The fields in the order of the class.
  unfoldable pub validate_fields : GenerationJobRecord → Result GenerationJobRecord
  unfolding text_field optional_field
  validate_fields r = text_field 64 r.generation_job_id >>= λ generation_job_id.
      text_field 64 r.user_id >>= λ user_id. text_field 64 r.conversation_id >>= λ conversation_id.
      text_field 64 r.workspace_id >>= λ workspace_id. text_field 128 r.item_id >>= λ item_id.
      guard (leb 1 r.variant_index && leb r.variant_index 3) value_error
      >> (text_field 128 r.request_hash >>= λ request_hash.
          text_field 255 r.idempotency_key >>= λ idempotency_key.
          text_field 128 r.provider_id >>= λ provider_id.
          optional_field 255 r.provider_job_id >>= λ provider_job_id.
          optional_field 128 r.failure_reason_code >>= λ failure_reason_code.
          optional_field 128 r.lease_owner >>= λ lease_owner. ok (record r {
            generation_job_id = generation_job_id;
            user_id = user_id;
            conversation_id = conversation_id;
            workspace_id = workspace_id;
            item_id = item_id;
            request_json = validate_json r.request_json;
            request_hash = request_hash;
            idempotency_key = idempotency_key;
            provider_id = provider_id;
            provider_job_id = provider_job_id;
            result_json = optional_json r.result_json;
            failure_reason_code = failure_reason_code;
            lease_owner = lease_owner;
          }))

  unfoldable pub model_validate : GenerationJobRecord → Result GenerationJobRecord
  unfolding validate_fields validate_status_contract
  model_validate r = validate_fields r >>= validate_status_contract

  unfoldable pub record_from_row : Option GenerationJobRecord → Result GenerationJobRecord
  unfolding model_validate
  record_from_row none = err conflict
  record_from_row (some row) = model_validate row

  -- The row of the key, read again, has to be of the same request.
  abbrev pub read_existing :
      GenerationJobRecord
      → Option GenerationJobRecord
      → Records
      → Result (GenerationJobRecord × Records)
  read_existing candidate row rows = record_from_row row >>= λ existing.
      guard (same_identity existing candidate) conflict >> ok (existing, rows)

  -- Where the key is new, the identifier may still be taken: then the insert fails, and the key is
  -- looked for again.
  abbrev pub insert_candidate :
      GenerationJobRecord
      → Option GenerationJobRecord
      → Records
      → Result (GenerationJobRecord × Records)
  insert_candidate candidate none rows =
      read_existing candidate (some candidate) (put candidate.generation_job_id candidate rows)
  insert_candidate candidate (some other) rows = read_existing candidate none rows

  abbrev pub create_found :
      GenerationJobRecord
      → Option GenerationJobRecord
      → Records
      → Result (GenerationJobRecord × Records)
  create_found candidate none rows =
      insert_candidate candidate (get candidate.generation_job_id rows) rows
  create_found candidate (some row) rows = read_existing candidate (some row) rows

  unfoldable pub create_or_read :
      Records → GenerationJobRecord → Result (GenerationJobRecord × Records)
  unfolding record_from_row
  create_or_read rows candidate =
      create_found candidate
        (find (λ row. row.idempotency_key == candidate.idempotency_key) (values rows)) rows

  -- A row that is locked, checked, changed, flushed and read again.
  abbrev pub change_found :
      String
      → (GenerationJobRecord → Bool)
      → (GenerationJobRecord → GenerationJobRecord)
      → Option GenerationJobRecord
      → Records
      → Result (GenerationJobRecord × Records)
  change_found generation_job_id allowed change none rows = err conflict
  change_found generation_job_id allowed change (some row) rows =
      record_from_row (some row) >>= λ current.
      guard (allowed current) conflict
      >> (record_from_row (some (change row)) >>= λ updated.
          ok (updated, put generation_job_id (change row) rows))

  unfoldable pub change_row :
      String
      → (GenerationJobRecord → Bool)
      → (GenerationJobRecord → GenerationJobRecord)
      → Records
      → Result (GenerationJobRecord × Records)
  unfolding record_from_row
  change_row generation_job_id allowed change rows =
      change_found generation_job_id allowed change (get generation_job_id rows) rows

  unfoldable pub bind_provider_job :
      Records → String → String → String → ℕ → ℕ → Result (GenerationJobRecord × Records)
  unfolding change_row
  bind_provider_job rows generation_job_id provider_job_id worker_id now next_poll_at =
      change_row generation_job_id (λ row. lease_owned row worker_id now && is_starting row.status)
        (bound provider_job_id now next_poll_at) rows

  unfoldable pub reschedule_poll :
      Records → String → String → ℕ → ℕ → Result (GenerationJobRecord × Records)
  unfolding change_row
  reschedule_poll rows generation_job_id worker_id now next_poll_at =
      change_row generation_job_id (λ row. lease_owned row worker_id now && is_polling row.status)
        (rescheduled now next_poll_at) rows

  unfoldable pub complete :
      Records
      → String
      → String
      → GenerationJobStatus
      → ℕ
      → Option Fields
      → Option String
      → Result (GenerationJobRecord × Records)
  unfolding change_row
  complete rows generation_job_id worker_id status now result_json failure_reason_code =
      change_row generation_job_id (λ row. lease_owned row worker_id now)
        (completed status now result_json failure_reason_code) rows

  -- `tuple(_record_from_row(row) for row in rows)`
  unfoldable pub records_from_rows : List GenerationJobRecord → Result (List GenerationJobRecord)
  unfolding record_from_row
  records_from_rows [] = ok []
  records_from_rows (row ∷ rows) =
      record_from_row (some row) >>= λ x. records_from_rows rows >>= λ xs. ok (x ∷ xs)

  -- Rows that a claim selects, changes and hands out.
  abbrev pub hand_out :
      (GenerationJobRecord → GenerationJobRecord)
      → List GenerationJobRecord
      → Records
      → Result (List GenerationJobRecord × Records)
  hand_out change selected rows = records_from_rows (map change selected) >>= λ claimed.
      ok (claimed, put_all id_of (map change selected) rows)

  -- ORDER BY created_at, generation_job_id
  abbrev pub created_before : GenerationJobRecord → GenerationJobRecord → Bool
  created_before a b =
      ltb a.created_at b.created_at
      || nat_beq a.created_at b.created_at && text_leb a.generation_job_id b.generation_job_id

  unfoldable pub claim_start_jobs :
      Records → String → ℕ → ℕ → ℕ → Result (List GenerationJobRecord × Records)
  unfolding records_from_rows
  claim_start_jobs rows worker_id now lease_duration limit =
      validate_claim_inputs worker_id lease_duration limit
      >> hand_out (start_claimed worker_id now lease_duration)
          (take limit (sort created_before (filter (start_claimable now) (values rows)))) rows

  -- ORDER BY next_poll_at, created_at; a row that is selected has a next poll.
  abbrev pub time_leb : Option ℕ → Option ℕ → Bool → Bool
  time_leb (some a) (some b) tie = ltb a b || nat_beq a b && tie
  time_leb _ _ tie = tie

  abbrev pub polled_before : GenerationJobRecord → GenerationJobRecord → Bool
  polled_before a b = time_leb a.next_poll_at b.next_poll_at (leb a.created_at b.created_at)

  unfoldable pub claim_poll_jobs :
      Records → String → ℕ → ℕ → ℕ → Result (List GenerationJobRecord × Records)
  unfolding records_from_rows
  claim_poll_jobs rows worker_id now lease_duration limit =
      validate_claim_inputs worker_id lease_duration limit
      >> hand_out (poll_claimed worker_id now lease_duration)
          (take limit (
            sort polled_before (
              filter (λ row. poll_claimable now row && is_some row.provider_job_id) (values rows))))
          rows

-- The rows that the statement of `reopen_missing_image_results` selects: it asks for a provider's
-- job that is not null, which may be empty. Every kind is one of the two that it lists.
unfoldable pub is_missing_row : GenerationJobRecord → Bool
is_missing_row row =
    is_indeterminate row.status
    && reason_in row.failure_reason_code missing_mapped_result_reasons
    && is_some row.provider_job_id

-- The dictionary `latest` of the rows whose asset has no success.
unfoldable pub latest_rows :
    List GenerationJobRecord
    → List GenerationJobRecord
    → List GenerationJobRecord
    → List GenerationJobRecord
unfolding keep_latest
latest_rows all [] latest = latest
latest_rows all (row ∷ rows) latest =
    latest_rows all rows (if has_succeeded all row then latest else keep_latest row latest)

unfoldable pub reopen_selected : List GenerationJobRecord → Records → ℕ → ℕ → ℕ × Records
unfolding latest_rows
reopen_selected [] rows now limit = (0, rows)
reopen_selected (row ∷ missing) rows now limit =
    let chosen = take limit (latest_rows (values rows) (row ∷ missing) []) in
    (length chosen, put_all id_of (map (reopened now) chosen) rows)

-- The statement names no order: `arranged` is the one in which the database returns the rows.
unfoldable pub reopen_missing_image_results :
    (List GenerationJobRecord → List GenerationJobRecord) → Records → ℕ → ℕ → ℕ × Records
unfolding is_missing_row reopen_selected
reopen_missing_image_results arranged rows now limit =
    if leb limit 0
    then (0, rows)
    else reopen_selected (arranged (filter is_missing_row (values rows))) rows now limit
