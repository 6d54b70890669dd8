-- ===== src/Jobs/Repository/Commands.antt =====
-- The calls that change the records, and the conditions under which the worker and the submission
-- service make them.
use pixelflow.Base.Results.{Result, ok, err}
use pixelflow.Base.Json.{Fields, is_falsy}
use pixelflow.Base.{ℕ, String, ◌≡◌, true, false, Option, is_missing}
use pixelflow.Jobs.Contracts.{
  GenerationJobRecord, GenerationJobStatus, IsValid, is_terminal, is_succeeded, is_failure,
}
use pixelflow.Jobs.Repository.{
  Records, create_or_read, claim_start_jobs, bind_provider_job, claim_poll_jobs, reschedule_poll,
  complete, reopen_missing_image_results,
}

pub data Command : Type 0 where
  create : GenerationJobRecord → Command
  claim_start : String → ℕ → ℕ → ℕ → Command
  bind : String → String → String → ℕ → ℕ → Command
  claim_poll : String → ℕ → ℕ → ℕ → Command
  reschedule : String → String → ℕ → ℕ → Command
  finish : String → String → GenerationJobStatus → ℕ → Option Fields → Option String → Command
  reopen : ℕ → ℕ → Command

-- A call that raises leaves the records as they were.
abbrev pub after {ℓ} : {A : Type ℓ} → Records → Result (A × Records) → Records
after records (ok (a, records')) = records'
after records (err e) = records

unfoldable pub step : Records → Command → Records
step s (create candidate) = after s (create_or_read s candidate)
step s (claim_start worker now lease limit) = after s (claim_start_jobs s worker now lease limit)
step s (bind job provider_job worker now next) =
    after s (bind_provider_job s job provider_job worker now next)
step s (claim_poll worker now lease limit) = after s (claim_poll_jobs s worker now lease limit)
step s (reschedule job worker now next) = after s (reschedule_poll s job worker now next)
step s (finish job worker status now result reason) =
    after s (complete s job worker status now result reason)
step s (reopen now limit) = (reopen_missing_image_results s now limit).1

-- A finished job is terminal, with a result if it succeeded and with a reason if it did not.
abbrev pub IsOutcome : GenerationJobStatus → Option Fields → Option String → Type 0
IsOutcome status result reason =
    (is_terminal status ≡ true)
    × (is_succeeded status ≡ true → is_falsy result ≡ false)
    × (is_failure status ≡ true → is_missing reason ≡ false)

-- What a caller has to respect; `model_copy` runs no validator.
abbrev pub IsProper : Command → Type 0
IsProper (create candidate) = IsValid candidate
IsProper (bind job provider_job worker now next) = (provider_job ≡ "") → ⊥
IsProper (finish job worker status now result reason) = IsOutcome status result reason
IsProper _ = Unit
