-- ===== src/Jobs/Worker/Decisions.antt =====
-- The specification of the worker's handlers: the one write that each makes, as a pure function of
-- the job, its credential and the provider's answer.
use pixelflow.Base.Json.{Fields, is_falsy}
use pixelflow.Base.Results.{Result, ok, err, mapping}
use pixelflow.Base.{ℕ, ◌+◌, String, Option, some, none, is_empty, ◌==◌, if◌then◌else◌}
use pixelflow.Jobs.Contracts.{
  GenerationJobRecord, GenerationJobStatus, succeeded, failed, indeterminate,
}
use pixelflow.Jobs.Providers.{
  ProviderJobOutcome, ProviderJobSnapshot, Provider, provider_status, result_mapping,
  safe_provider_mapping_reason,
}
use pixelflow.Jobs.Repository.{bound, rescheduled, completed}
use pixelflow.Jobs.Worker.{Config, phase_reason, or_default, start_phase, poll_phase}

pub data Write : Type 0 where
  bind : String → Write
  done : GenerationJobStatus → Option Fields → Option String → Write
  postpone : Write

abbrev pub give_up : GenerationJobStatus → String → Write
give_up status reason = done status none (some reason)

unfoldable pub polling_write : Option String → String → Write
polling_write none phase = give_up indeterminate (phase_reason phase "job_id_missing")
polling_write (some job) phase =
    if is_empty job then give_up indeterminate (phase_reason phase "job_id_missing") else bind job

unfoldable pub result_write : Fields → Write
result_write result =
    if is_falsy (some result)
    then give_up indeterminate "provider_result_missing"
    else done succeeded (some result) none

-- The write for an accepted answer.
unfoldable pub outcome_write : ProviderJobOutcome → String → ProviderJobSnapshot → Write
unfolding polling_write result_write
outcome_write ProviderJobOutcome.polling phase snapshot =
    polling_write snapshot.provider_job_id phase
outcome_write ProviderJobOutcome.succeeded phase snapshot =
    result_write (result_mapping snapshot.result)
outcome_write _ phase snapshot =
    give_up failed (or_default snapshot.reason_code "provider_business_failed")

unfoldable pub start_answer_write : Result ProviderJobSnapshot → Write
unfolding outcome_write
start_answer_write (ok snapshot) = outcome_write snapshot.outcome start_phase snapshot
start_answer_write (err (mapping reason)) =
    give_up indeterminate (phase_reason start_phase (safe_provider_mapping_reason reason))
start_answer_write (err _) = give_up indeterminate "provider_start_indeterminate"

-- `_start`: a missing provider ends the job, a missing credential leaves its fate open; otherwise
-- the answer decides.
unfoldable pub start_write : Option Provider → GenerationJobRecord → Option String → Write
unfolding start_answer_write
start_write none job credential = give_up failed "provider_unavailable"
start_write (some provider) job none = give_up indeterminate "authorization_unavailable"
start_write (some provider) job (some authorization) =
    start_answer_write (provider.start job.request_json authorization job.idempotency_key)

unfoldable pub status_outcome_write : ProviderJobOutcome → ProviderJobSnapshot → Write
unfolding outcome_write
status_outcome_write ProviderJobOutcome.polling snapshot = postpone
status_outcome_write o snapshot = outcome_write o poll_phase snapshot

unfoldable pub status_write : Result ProviderJobSnapshot → Write
unfolding status_outcome_write
status_write (ok snapshot) = status_outcome_write snapshot.outcome snapshot
status_write (err (mapping reason)) =
    if safe_provider_mapping_reason reason == "provider_status_authorization_unavailable"
    then postpone
    else give_up indeterminate (phase_reason poll_phase (safe_provider_mapping_reason reason))
status_write (err _) = postpone

-- `_poll`: a job that cannot be asked about is given up; otherwise the answer decides.
unfoldable pub poll_write :
    Option Provider → Option String → GenerationJobRecord → Option String → Write
unfolding status_write
poll_write (some provider) (some provider_job_id) job credential =
    if is_empty provider_job_id
    then give_up indeterminate "provider_job_unavailable"
    else status_write (provider_status provider job provider_job_id credential)
poll_write _ _ job credential = give_up indeterminate "provider_job_unavailable"

-- The record that a write makes of the job, by the clock reading `t`; `u` is the second reading
-- that a postponement takes.
abbrev pub stored_write : Config → Write → ℕ → ℕ → GenerationJobRecord → GenerationJobRecord
stored_write cfg (bind job) t u item = bound job t (t + cfg.poll_interval) item
stored_write cfg (done status result reason) t u item = completed status t result reason item
stored_write cfg postpone t u item = rescheduled t (u + cfg.poll_interval) item
