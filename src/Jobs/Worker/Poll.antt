-- ===== src/Jobs/Worker/Poll.antt =====
-- `_poll` makes the write that its specification says: a result or a failure is final, everything
-- else gives the lease back and is polled again.
use pixelflow.Base.Dict.{get}
use pixelflow.Base.Exec.{lift, catch, ◌>>=◌}
use pixelflow.Base.Results.{Result, ok, err, Error, value_error, mapping}
use pixelflow.Base.{
  ℕ, ◌+◌, String, ◌≡◌, refl, sym, subst, ◌∙◌, ◌≢◌, true, Option, some, none, arith, Bool-cases, inl,
  inr, ◌==◌, is_empty,
}
use pixelflow.Jobs.Contracts.{GenerationJobRecord, is_polling}
use pixelflow.Jobs.Credentials.{get_credential}
use pixelflow.Jobs.Providers.{
  ProviderJobOutcome, ProviderJobSnapshot, Provider, provider_status, safe_provider_mapping_reason,
}
use pixelflow.Jobs.Repository.{lease_owned}
use pixelflow.Jobs.Repository.Cases.{reschedule_owned}
use pixelflow.Jobs.Worker.{
  WorkspacePort, Config, World, provider_of, poll_phase, reschedule, try_reschedule, accept_status,
  accept_status_outcome, accept_snapshot, poll_failed, poll_with, poll_known, poll_job,
  credential_of,
}
use pixelflow.Jobs.Worker.Decisions.{
  Write, postpone, status_outcome_write, status_write, outcome_write, poll_write,
}
use pixelflow.Jobs.Worker.Effects.{jobs-catch, jobs-poll_failed_free}
use pixelflow.Jobs.Worker.Start.{
  After, Makes, After-found, stored_write-free, jobs-finish_failure, jobs-accept_outcome,
}

module _ (port : WorkspacePort) (cfg : Config) (job : GenerationJobRecord)
    (held : (n : ℕ) → lease_owned job cfg.worker_id (cfg.clock n) ≡ true) where
  jobs-reschedule :
      (w : World port)
      → get job.generation_job_id w.jobs ≡ some job
      → is_polling job.status ≡ true
      → (reschedule port cfg job w).1.jobs ≡ After port cfg job postpone w w.reads
  unfolding reschedule ◌>>=◌
  jobs-reschedule w found s = ground (
    arith,
    reschedule_owned w.jobs job.generation_job_id cfg.worker_id (cfg.clock w.reads) job found
        (cfg.clock (w.reads + 1) + cfg.poll_interval) (held w.reads) s,
  )

  jobs-try_reschedule :
      (w : World port)
      → get job.generation_job_id w.jobs ≡ some job
      → is_polling job.status ≡ true
      → (try_reschedule port cfg job w).1.jobs ≡ After port cfg job postpone w w.reads
  unfolding try_reschedule
  jobs-try_reschedule w found s =
      jobs-catch port cfg (reschedule port cfg job) _ w _ (jobs-reschedule w found s) (λ e u p. p)

  jobs-poll_failed-after :
      (write : Write) (w : World port) (n : ℕ) (e : Error) (u : World port)
      → u.jobs ≡ After port cfg job write w n
      → (poll_failed port cfg job e u).1.jobs ≡ After port cfg job write w n
  jobs-poll_failed-after write w n e u p =
      jobs-poll_failed_free port cfg job u _ (After-found port cfg job held write w n u.jobs p)
        (stored_write-free port cfg job held write (cfg.clock n) (cfg.clock (n + 1))) e
      ∙ p

  jobs-accept_final :
      (o : ProviderJobOutcome) (snapshot : ProviderJobSnapshot) (w : World port)
      → snapshot.outcome ≡ o
      → o ≢ ProviderJobOutcome.polling
      → get job.generation_job_id w.jobs ≡ some job
      → Makes port cfg job held
          (outcome_write o poll_phase snapshot)
          w
          (accept_snapshot port cfg job poll_phase snapshot)
  unfolding accept_snapshot ◌>>=◌
  jobs-accept_final o snapshot w e ne found =
      subst
        (λ q.
          Makes port cfg job held (outcome_write q poll_phase snapshot) w
            (accept_snapshot port cfg job poll_phase snapshot))
        e
        (jobs-accept_outcome port cfg job held snapshot.outcome poll_phase snapshot
          (record w { reads = w.reads + 1 }) w.reads found (λ p. absurd (ne (sym e ∙ p))))

  jobs-accept_status :
      (o : ProviderJobOutcome) (snapshot : ProviderJobSnapshot) (w : World port)
      → snapshot.outcome ≡ o
      → get job.generation_job_id w.jobs ≡ some job
      → is_polling job.status ≡ true
      → Makes port cfg job held
          (status_outcome_write o snapshot)
          w
          (accept_status_outcome port cfg o job snapshot)
  unfolding status_outcome_write accept_status_outcome
  jobs-accept_status ProviderJobOutcome.polling snapshot w e found s =
      (w.reads, jobs-reschedule w found s)
  jobs-accept_status ProviderJobOutcome.succeeded snapshot w e found s =
      jobs-accept_final ProviderJobOutcome.succeeded snapshot w e (λ p. cc) found
  jobs-accept_status ProviderJobOutcome.failed snapshot w e found s =
      jobs-accept_final ProviderJobOutcome.failed snapshot w e (λ p. cc) found
  jobs-accept_status ProviderJobOutcome.paused_quota snapshot w e found s =
      jobs-accept_final ProviderJobOutcome.paused_quota snapshot w e (λ p. cc) found
  jobs-accept_status ProviderJobOutcome.timeout snapshot w e found s =
      jobs-accept_final ProviderJobOutcome.timeout snapshot w e (λ p. cc) found
  jobs-accept_status ProviderJobOutcome.expired snapshot w e found s =
      jobs-accept_final ProviderJobOutcome.expired snapshot w e (λ p. cc) found

  jobs-status_answer :
      (answer : Result ProviderJobSnapshot) (w : World port)
      → get job.generation_job_id w.jobs ≡ some job
      → is_polling job.status ≡ true
      → Makes port cfg job held
          (status_write answer)
          w
          (catch (lift answer >>= accept_status port cfg job) (poll_failed port cfg job))
  unfolding status_write catch ◌>>=◌ accept_status poll_failed
  jobs-status_answer (ok snapshot) w found s =
      let (n, p) = jobs-accept_status snapshot.outcome snapshot w refl found s in
      (
        n,
        jobs-catch port cfg (accept_status port cfg job snapshot) (poll_failed port cfg job) w _ p
            (jobs-poll_failed-after (status_outcome_write snapshot.outcome snapshot) w n),
      )
  jobs-status_answer (err (mapping reason)) w found s =
      elim (Bool-cases
        (safe_provider_mapping_reason reason == "provider_status_authorization_unavailable")) [
          | inl t ↦ (w.reads, rw (t) (jobs-try_reschedule w found s))
          | inr t ↦ (w.reads, rw (t) (jobs-finish_failure port cfg job held w _ _ found))
        ]
  jobs-status_answer (err value_error) w found s = (w.reads, jobs-try_reschedule w found s)
  jobs-status_answer (err _) w found s = (w.reads, jobs-try_reschedule w found s)

  jobs-poll_known :
      (provider : Option Provider) (id : Option String) (w : World port)
      → get job.generation_job_id w.jobs ≡ some job
      → is_polling job.status ≡ true
      → let credential =
          (get_credential w.credentials job.generation_job_id (cfg.clock w.reads)).0 in
        Makes port cfg job held
          (poll_write provider id job credential)
          w
          (poll_known port cfg provider id job)
  unfolding poll_write poll_known poll_with credential_of ◌>>=◌
  jobs-poll_known (some provider) (some id) w found s = elim (Bool-cases (is_empty id)) [
    | inl t ↦ (w.reads, rw (t) (jobs-finish_failure port cfg job held w _ _ found))
    | inr t ↦ rw (t) (
        jobs-status_answer
          (provider_status provider job id
            (get_credential w.credentials job.generation_job_id (cfg.clock w.reads)).0)
          (record w {
            credentials =
                (get_credential w.credentials job.generation_job_id (cfg.clock w.reads)).1;
            reads = w.reads + 1;
          })
          found s)
  ]
  jobs-poll_known (some provider) none w found s =
      (w.reads, jobs-finish_failure port cfg job held w _ _ found)
  jobs-poll_known none id w found s = (w.reads, jobs-finish_failure port cfg job held w _ _ found)

  -- While its lease holds, `_poll` on a stored polling job makes exactly the write that the
  -- provider, the credential and the provider's answer determine, at a reading of the clock. No
  -- other job changes, and neither a failure of the workspace nor an exception handler undoes it.
  pub poll_job_lem :
      (w : World port)
      → get job.generation_job_id w.jobs ≡ some job
      → is_polling job.status ≡ true
      → let credential =
          (get_credential w.credentials job.generation_job_id (cfg.clock w.reads)).0 in
        (n : ℕ) × ((poll_job port cfg job w).1.jobs
          ≡ After port cfg job
              (poll_write (provider_of cfg job.kind) job.provider_job_id job credential)
              w
              n)
  unfolding poll_job
  poll_job_lem w found s = jobs-poll_known (provider_of cfg job.kind) job.provider_job_id w found s
