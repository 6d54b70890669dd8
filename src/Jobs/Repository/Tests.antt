-- ===== src/Jobs/Repository/Tests.antt =====
-- Runs of the job repository, and its theorems at concrete records.
use pixelflow.Jobs.Repository.{Records}
use pixelflow.Jobs.Repository.{same_identity}
use pixelflow.Base.Dict.{put}
use pixelflow.Base.Dict.{put_all}
use pixelflow.Base.{is_blank}
use pixelflow.Jobs.Repository.{validate_claim_inputs}
use pixelflow.Base.Dict.{get, IsKeyed}
use pixelflow.Base.Results.{ok, err, conflict}
use pixelflow.Base.{String, ◌≡◌, refl, ◌+◌, ◌≤◌, inl, some, [], ◌∷◌, arith, IsIn, length, eq_iff}
use pixelflow.Jobs.Contracts.{
  GenerationJobRecord, validate_status_contract, sample_job, polling, indeterminate,
}
use pixelflow.Jobs.Repository.{
  Records, id_of, create_or_read, claim_start_jobs, claim_poll_jobs, start_claimed, start_claimable,
  poll_claimed, poll_claimable, reopen_missing_image_results, is_missing_mapped_result,
}
use pixelflow.Jobs.Repository.Commands.{claim_start, reopen, step}
use pixelflow.Jobs.Repository.Validity.{AllValid, step-AllValid}
use pixelflow.Jobs.Repository.Lifecycle.{Evolves, step-IsKeyed, step-Evolves}
use pixelflow.Jobs.Repository.Leases.{
  IsLeased, run, run_foreign, IsHandedOut, claim_start_jobs-IsHandedOut,
  claim_poll_jobs-IsHandedOut,
}
use pixelflow.Jobs.Repository.Idempotency.{create_or_read_twice, HasUniqueKeys, step-HasUniqueKeys}

abbrev job_id : String
job_id = "generation-job-1"

abbrev queued_records : Records
queued_records = (job_id, sample_job) ∷ []

abbrev starting_job : GenerationJobRecord
starting_job = start_claimed "w1" 100 60 sample_job

abbrev polling_job : GenerationJobRecord
polling_job = record sample_job {
  status = polling;
  provider_job_id = some "p1";
  next_poll_at = some 100;
}

abbrev lost_job : GenerationJobRecord
lost_job = record sample_job {
  status = indeterminate;
  provider_job_id = some "p1";
  failure_reason_code = some "provider_result_missing";
}

starting_job-IsLeased : IsLeased "w1" 160 starting_job
starting_job-IsLeased = record { owner = refl; expires = refl; at_work = inl refl }

step-AllValid_example : AllValid (step queued_records (claim_start "w1" 100 60 6))
unfolding validate_status_contract
step-AllValid_example = step-AllValid queued_records (claim_start "w1" 100 60 6) tt (refl, tt)

step-IsKeyed_example : IsKeyed id_of (step queued_records (claim_start "w1" 100 60 6))
unfolding get
step-IsKeyed_example = step-IsKeyed queued_records (claim_start "w1" 100 60 6) (refl, refl, tt)

step-Evolves_example :
    (r : GenerationJobRecord) × (get job_id (step queued_records (claim_start "w1" 100 60 6))
      ≡ some r)
    × Evolves sample_job r
unfolding validate_status_contract get
step-Evolves_example =
    step-Evolves queued_records (claim_start "w1" 100 60 6) job_id sample_job tt tt (refl, tt)
      (refl, refl, tt) refl

run_foreign_example :
    get job_id (run ((job_id, starting_job) ∷ []) (claim_start "w2" 120 60 6 ∷ reopen 130 6 ∷ []))
    ≡ some starting_job
unfolding get
run_foreign_example =
    run_foreign "w1" 160 ((job_id, starting_job) ∷ [])
      (claim_start "w2" 120 60 6 ∷ reopen 130 6 ∷ []) job_id starting_job refl starting_job-IsLeased
      (refl, refl, tt) (omega arith, (tt, tt))

claim_start_jobs-IsHandedOut_example :
    (length (starting_job ∷ []) ≤ 6)
    × ((r : GenerationJobRecord)
        → IsIn r (starting_job ∷ [])
        → IsHandedOut
            (start_claimable 100)
            "w1"
            (100 + 60)
            queued_records
            ((job_id, starting_job) ∷ [])
            r)
unfolding claim_start_jobs get validate_claim_inputs is_blank put_all put
claim_start_jobs-IsHandedOut_example =
    claim_start_jobs-IsHandedOut queued_records ((job_id, starting_job) ∷ []) "w1" 100 60 6
      (starting_job ∷ []) (refl, refl, tt) refl

claim_poll_jobs-IsHandedOut_example :
    (length (poll_claimed "w1" 100 60 polling_job ∷ []) ≤ 6)
    × ((r : GenerationJobRecord)
        → IsIn r (poll_claimed "w1" 100 60 polling_job ∷ [])
        → IsHandedOut
            (poll_claimable 100)
            "w1"
            (100 + 60)
            ((job_id, polling_job) ∷ [])
            ((job_id, poll_claimed "w1" 100 60 polling_job) ∷ [])
            r)
unfolding claim_poll_jobs get validate_claim_inputs is_blank put_all put
claim_poll_jobs-IsHandedOut_example =
    claim_poll_jobs-IsHandedOut ((job_id, polling_job) ∷ [])
      ((job_id, poll_claimed "w1" 100 60 polling_job) ∷ []) "w1" 100 60 6
      (poll_claimed "w1" 100 60 polling_job ∷ []) (refl, refl, tt) refl

create_or_read_twice_example :
    create_or_read queued_records sample_job ≡ ok (sample_job, queued_records)
unfolding create_or_read put
create_or_read_twice_example = create_or_read_twice [] queued_records sample_job sample_job refl

queued_records-HasUniqueKeys : HasUniqueKeys queued_records
unfolding get
queued_records-HasUniqueKeys k j r q e f p = ground (arith, eq_iff job_id k, eq_iff job_id j)

step-HasUniqueKeys_example : HasUniqueKeys (step queued_records (claim_start "w1" 100 60 6))
unfolding get
step-HasUniqueKeys_example =
    step-HasUniqueKeys queued_records (claim_start "w1" 100 60 6) (refl, refl, tt)
      queued_records-HasUniqueKeys

-- The job whose result was lost is polled again, by its provider's identifier.
reopened_at_once : (reopen_missing_image_results ((job_id, lost_job) ∷ []) 200 6).0 ≡ 1
unfolding reopen_missing_image_results is_missing_mapped_result
reopened_at_once = refl

-- Another request under the same idempotency key is refused.
conflicting_submission :
    create_or_read queued_records (record sample_job { request_hash = "h2" }) ≡ err conflict
unfolding create_or_read same_identity
conflicting_submission = refl
