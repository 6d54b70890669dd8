-- ===== src/Jobs/Worker/Safety.antt =====
-- Whatever a provider answers, the worker stores only records that pass the validator.
use text.Mathlib.TextLemmas.{append-eq-nil_iff}
use pixelflow.Base.Dict.{get, All-put, All-get}
use pixelflow.Base.Json.{Fields, is_falsy}
use pixelflow.Base.Results.{Result, ok, err, value_error, mapping}
use pixelflow.Base.{
  ℕ, ◌+◌, String, ◌≡◌, refl, sym, subst, true, false, Option, some, none, arith, Bool-cases, inl,
  inr, ◌==◌, eq_iff, is_empty, Bool-cases,
}
use pixelflow.Jobs.Contracts.{GenerationJobRecord, IsValid, is_starting, is_polling}
use pixelflow.Jobs.Providers.{
  ProviderJobOutcome, ProviderJobSnapshot, Provider, result_mapping, safe_provider_mapping_reason,
}
use pixelflow.Jobs.Repository.{lease_owned}
use pixelflow.Jobs.Repository.Commands.{IsOutcome}
use pixelflow.Jobs.Repository.Validity.{
  AllValid, bound-IsValid, completed-IsValid, rescheduled-IsValid,
}
use pixelflow.Jobs.Worker.{
  WorkspacePort, Config, World, provider_of, start_job, poll_job, phase_reason, or_default,
  start_phase, poll_phase,
}
use pixelflow.Jobs.Worker.Decisions.{
  Write, bind, done, postpone, polling_write, result_write, outcome_write, start_answer_write,
  start_write, status_outcome_write, status_write, poll_write, stored_write,
}
use pixelflow.Jobs.Worker.Start.{start_job_lem}
use pixelflow.Jobs.Worker.Poll.{poll_job_lem}

-- A write whose record passes the validator; a postponement wants a polling job.
abbrev IsProperWrite : GenerationJobRecord → Write → Type 0
IsProperWrite job (bind id) = id ≡ "" → ⊥
IsProperWrite job (done status result reason) = IsOutcome status result reason
IsProperWrite job postpone = is_polling job.status ≡ true

phase_reason-ne-nil : (phase reason : String) → is_empty (phase_reason phase reason) ≡ false
phase_reason-ne-nil phase reason = elim (Bool-cases (is_empty (phase_reason phase reason))) [
  | inl t ↦
      let p = (eq_iff (phase_reason phase reason) "").0 t in
      ground (arith, eq_iff "provider_" "", append-eq-nil_iff.0 p)
  | inr t ↦ t
]

or_default-ne-nil :
    (reason : String) → is_empty (or_default reason "provider_business_failed") ≡ false
or_default-ne-nil reason = elim (Bool-cases (is_empty reason)) [
  | inl t ↦ rw t (refl)
  | inr t ↦ rw (t) t
]

module _ (job : GenerationJobRecord) where
  polling_write-IsProper :
      (id : Option String) (phase : String) → IsProperWrite job (polling_write id phase)
  unfolding polling_write
  polling_write-IsProper none phase = ground (arith, phase_reason-ne-nil phase "job_id_missing")
  polling_write-IsProper (some id) phase = elim (Bool-cases (is_empty id)) [
    | inl t ↦ rw (t) (ground (arith, phase_reason-ne-nil phase "job_id_missing"))
    | inr t ↦ rw (t) (λ e. ground (arith, eq_iff id ""))
  ]

  result_write-IsProper : (result : Fields) → IsProperWrite job (result_write result)
  unfolding result_write
  result_write-IsProper result = elim (Bool-cases (is_falsy (some result))) [
    | inl t ↦ rw (t) (ground arith)
    | inr t ↦ rw (t) (refl, (λ _. t), (λ e. cc))
  ]

  outcome_write-IsProper :
      (o : ProviderJobOutcome) (phase : String) (snapshot : ProviderJobSnapshot)
      → IsProperWrite job (outcome_write o phase snapshot)
  unfolding outcome_write
  outcome_write-IsProper ProviderJobOutcome.polling phase snapshot =
      polling_write-IsProper snapshot.provider_job_id phase
  outcome_write-IsProper ProviderJobOutcome.succeeded phase snapshot =
      result_write-IsProper (result_mapping snapshot.result)
  outcome_write-IsProper _ phase snapshot = ground (arith, or_default-ne-nil snapshot.reason_code)

  start_answer_write-IsProper :
      (answer : Result ProviderJobSnapshot) → IsProperWrite job (start_answer_write answer)
  unfolding start_answer_write
  start_answer_write-IsProper (ok snapshot) =
      outcome_write-IsProper snapshot.outcome start_phase snapshot
  start_answer_write-IsProper (err (mapping reason)) =
      ground (arith, phase_reason-ne-nil start_phase (safe_provider_mapping_reason reason))
  start_answer_write-IsProper (err value_error) = ground arith
  start_answer_write-IsProper (err _) = ground arith

  start_write-IsProper :
      (provider : Option Provider) (credential : Option String)
      → IsProperWrite job (start_write provider job credential)
  unfolding start_write
  start_write-IsProper none credential = ground arith
  start_write-IsProper (some provider) none = ground arith
  start_write-IsProper (some provider) (some text) =
      start_answer_write-IsProper (provider.start job.request_json text job.idempotency_key)

  status_write-IsProper :
      (answer : Result ProviderJobSnapshot)
      → is_polling job.status ≡ true
      → IsProperWrite job (status_write answer)
  unfolding status_write status_outcome_write
  status_write-IsProper (ok snapshot) s = go snapshot.outcome
    where
      go : (o : ProviderJobOutcome) → IsProperWrite job (status_outcome_write o snapshot)
      go ProviderJobOutcome.polling = s
      go ProviderJobOutcome.succeeded =
          outcome_write-IsProper ProviderJobOutcome.succeeded poll_phase snapshot
      go ProviderJobOutcome.failed =
          outcome_write-IsProper ProviderJobOutcome.failed poll_phase snapshot
      go ProviderJobOutcome.paused_quota =
          outcome_write-IsProper ProviderJobOutcome.paused_quota poll_phase snapshot
      go ProviderJobOutcome.timeout =
          outcome_write-IsProper ProviderJobOutcome.timeout poll_phase snapshot
      go ProviderJobOutcome.expired =
          outcome_write-IsProper ProviderJobOutcome.expired poll_phase snapshot
  status_write-IsProper (err (mapping reason)) s =
      elim (Bool-cases
        (safe_provider_mapping_reason reason == "provider_status_authorization_unavailable")) [
          | inl t ↦ rw (t) s
          | inr t ↦
              rw (t) (
                ground
                  (arith, phase_reason-ne-nil poll_phase (safe_provider_mapping_reason reason)))
        ]
  status_write-IsProper (err value_error) s = s
  status_write-IsProper (err _) s = s

  poll_write-IsProper :
      (provider : Option Provider) (id credential : Option String)
      → is_polling job.status ≡ true
      → IsProperWrite job (poll_write provider id job credential)
  unfolding poll_write
  poll_write-IsProper (some provider) (some id) credential s = elim (Bool-cases (is_empty id)) [
    | inl t ↦ rw (t) (ground arith)
    | inr t ↦ rw (t) (status_write-IsProper _ s)
  ]
  poll_write-IsProper (some provider) none credential s = ground arith
  poll_write-IsProper none id credential s = ground arith

  stored_write-IsValid :
      (cfg : Config) (write : Write) (t u : ℕ)
      → IsValid job
      → IsProperWrite job write
      → IsValid (stored_write cfg write t u job)
  stored_write-IsValid cfg (bind id) t u v p = bound-IsValid id t (t + cfg.poll_interval) job p
  stored_write-IsValid cfg (done status result reason) t u v p =
      completed-IsValid status t result reason job p
  stored_write-IsValid cfg postpone t u v p = rescheduled-IsValid t (u + cfg.poll_interval) job v p

module _ (port : WorkspacePort) (cfg : Config) (job : GenerationJobRecord)
    (held : (n : ℕ) → lease_owned job cfg.worker_id (cfg.clock n) ≡ true) (w : World port)
    (found : get job.generation_job_id w.jobs ≡ some job) (valid : AllValid w.jobs) where
  -- While its lease holds, handling a stored starting job leaves only records that pass the
  -- validator, whatever the provider answers or raises, and whatever the workspace does.
  pub start_job-AllValid :
      is_starting job.status ≡ true → AllValid (start_job port cfg job w).1.jobs
  start_job-AllValid s =
      let (n, p) = start_job_lem port cfg job held w found s in
      subst AllValid (sym p) (
        All-put IsValid job.generation_job_id _ w.jobs
          (stored_write-IsValid job cfg _ (cfg.clock n) (cfg.clock (n + 1))
            (All-get IsValid job.generation_job_id job w.jobs found valid)
            (start_write-IsProper job (provider_of cfg job.kind) _))
          valid)

  -- While its lease holds, handling a stored polling job leaves only records that pass the validator,
  -- whatever the provider answers or raises, and whatever the workspace does.
  pub poll_job-AllValid : is_polling job.status ≡ true → AllValid (poll_job port cfg job w).1.jobs
  poll_job-AllValid s =
      let (n, p) = poll_job_lem port cfg job held w found s in
      subst AllValid (sym p) (
        All-put IsValid job.generation_job_id _ w.jobs
          (stored_write-IsValid job cfg _ (cfg.clock n) (cfg.clock (n + 1))
            (All-get IsValid job.generation_job_id job w.jobs found valid)
            (poll_write-IsProper job (provider_of cfg job.kind) job.provider_job_id _ s))
          valid)
