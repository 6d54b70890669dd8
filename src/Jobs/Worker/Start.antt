-- ===== src/Jobs/Worker/Start.antt =====
-- `_start` makes the write that its specification says, and no exception after it undoes it.
use pixelflow.Base.Dict.{get, put, get-put_self}
use pixelflow.Base.Exec.{lift, catch, ◌>>=◌}
use pixelflow.Base.Json.{is_falsy}
use pixelflow.Base.Results.{Result, ok, err, Error, value_error, mapping}
use pixelflow.Base.{
  ℕ, ◌+◌, String, ◌≡◌, refl, ap, ◌∙◌, true, Option, some, none, arith, Bool-cases, inl, inr,
  is_empty,
}
use pixelflow.Jobs.Contracts.{GenerationJobRecord, GenerationJobStatus, is_starting}
use pixelflow.Jobs.Credentials.{get_credential}
use pixelflow.Jobs.Providers.{ProviderJobOutcome, ProviderJobSnapshot, Provider, result_mapping}
use pixelflow.Jobs.Repository.{Records, lease_owned}
use pixelflow.Jobs.Repository.Cases.{bind_owned}
use pixelflow.Jobs.Worker.{
  WorkspacePort, Config, World, Act, accept_polling, accept_outcome, start_with, provider_of,
  start_phase, bind_provider, accept_snapshot, start_failed, start_job, credential_of,
  finish_failure,
}
use pixelflow.Jobs.Worker.Decisions.{
  Write, bind, done, postpone, give_up, polling_write, outcome_write, start_answer_write,
  start_write, stored_write,
}
use pixelflow.Jobs.Worker.Effects.{jobs-finish, jobs-catch, jobs-start_failed_free}

module _ (port : WorkspacePort) (cfg : Config) (job : GenerationJobRecord) where
  -- The jobs after the write.
  abbrev pub After : Write → World port → ℕ → Records
  After write w n =
      put job.generation_job_id (stored_write cfg write (cfg.clock n) (cfg.clock (n + 1)) job)
        w.jobs

  module _ (held : (n : ℕ) → lease_owned job cfg.worker_id (cfg.clock n) ≡ true) where
    jobs-bind_provider :
        (w : World port) (provider_job : String) (n : ℕ)
        → get job.generation_job_id w.jobs ≡ some job
        → is_starting job.status ≡ true
        → (bind_provider port cfg job provider_job (cfg.clock n) w).1.jobs
          ≡ After (bind provider_job) w n
    unfolding bind_provider ◌>>=◌
    jobs-bind_provider w provider_job n found s = ground (
      arith,
      bind_owned w.jobs job.generation_job_id cfg.worker_id (cfg.clock n) job found provider_job
          (cfg.clock n + cfg.poll_interval) (held n) s,
    )

    pub jobs-finish_failure :
        (w : World port) (status : GenerationJobStatus) (reason : String)
        → get job.generation_job_id w.jobs ≡ some job
        → (finish_failure port cfg job status reason w).1.jobs
          ≡ After (give_up status reason) w w.reads
    unfolding finish_failure
    jobs-finish_failure w status reason found =
        jobs-finish port cfg job w job found status none (some reason) (held w.reads)

    -- Accepting an answer makes the write for it, at a reading of the clock.
    abbrev pub Makes : Write → World port → Act port cfg (Unit {0}) → Type 0
    Makes write w m = (n : ℕ) × ((m w).1.jobs ≡ After write w n)

    pub jobs-accept_outcome :
        (o : ProviderJobOutcome) (phase : String) (snapshot : ProviderJobSnapshot) (w : World port)
        (n : ℕ)
        → get job.generation_job_id w.jobs ≡ some job
        → (o ≡ ProviderJobOutcome.polling → is_starting job.status ≡ true)
        → Makes
            (outcome_write o phase snapshot)
            w
            (accept_outcome port cfg o job phase snapshot (cfg.clock n))
    unfolding accept_outcome outcome_write
    jobs-accept_outcome ProviderJobOutcome.polling phase snapshot w n found s =
        go snapshot.provider_job_id
      where
        go :
            (pid : Option String)
            → Makes
                (polling_write pid phase)
                w
                (accept_polling port cfg pid job phase (cfg.clock n))
        go none = (w.reads, jobs-finish_failure w _ _ found)
        go (some pid) = elim (Bool-cases (is_empty pid)) [
          | inl t ↦ (w.reads, rw (t) (jobs-finish_failure w _ _ found))
          | inr t ↦ (n, rw (t) (jobs-bind_provider w pid n found (s refl)))
        ]
    jobs-accept_outcome ProviderJobOutcome.succeeded phase snapshot w n found s =
        elim (Bool-cases (is_falsy (some (result_mapping snapshot.result)))) [
          | inl t ↦ (w.reads, rw (t) (jobs-finish_failure w _ _ found))
          | inr t ↦ (w.reads, rw (t) (jobs-finish port cfg job w job found _ _ _ (held w.reads)))
        ]
    jobs-accept_outcome _ phase snapshot w n found s = (w.reads, jobs-finish_failure w _ _ found)

    pub stored_write-free :
        (write : Write) (t u : ℕ) → (stored_write cfg write t u job).lease_owner ≡ none
    stored_write-free (bind x) t u = refl
    stored_write-free (done status result reason) t u = refl
    stored_write-free postpone t u = refl

    -- After the write the job is free, so an exception handler that runs then changes nothing.
    pub After-found :
        (write : Write) (w : World port) (n : ℕ) (jobs : Records)
        → jobs ≡ After write w n
        → get job.generation_job_id jobs
          ≡ some (stored_write cfg write (cfg.clock n) (cfg.clock (n + 1)) job)
    After-found write w n jobs e =
        ap (get job.generation_job_id) e ∙ get-put_self job.generation_job_id _ w.jobs

    jobs-start_failed-after :
        (write : Write) (w : World port) (n : ℕ) (e : Error) (u : World port)
        → u.jobs ≡ After write w n
        → (start_failed port cfg job e u).1.jobs ≡ After write w n
    jobs-start_failed-after write w n e u p =
        jobs-start_failed_free port cfg job u _ (After-found write w n u.jobs p)
          (stored_write-free write (cfg.clock n) (cfg.clock (n + 1))) e
        ∙ p

    jobs-start_answer :
        (answer : Result ProviderJobSnapshot) (w : World port)
        → get job.generation_job_id w.jobs ≡ some job
        → is_starting job.status ≡ true
        → Makes (start_answer_write answer) w (
            catch
              (lift answer >>= accept_snapshot port cfg job start_phase)
              (start_failed port cfg job))
    unfolding start_answer_write catch ◌>>=◌ accept_snapshot
    jobs-start_answer (ok snapshot) w found s =
        let (n, p) =
          jobs-accept_outcome snapshot.outcome start_phase snapshot
            (record w { reads = w.reads + 1 }) w.reads found (λ _. s) in
        (
          n,
          jobs-catch port cfg (accept_snapshot port cfg job start_phase snapshot)
              (start_failed port cfg job) w _ p
              (jobs-start_failed-after (outcome_write snapshot.outcome start_phase snapshot) w n),
        )
    jobs-start_answer (err (mapping reason)) w found s =
        (w.reads, unfold start_failed in jobs-finish_failure w _ _ found)
    jobs-start_answer (err value_error) w found s =
        (w.reads, unfold start_failed in jobs-finish_failure w _ _ found)
    jobs-start_answer (err _) w found s =
        (w.reads, unfold start_failed in jobs-finish_failure w _ _ found)

    jobs-start_with :
        (provider : Option Provider) (credential : Option String) (w : World port)
        → get job.generation_job_id w.jobs ≡ some job
        → is_starting job.status ≡ true
        → Makes
            (start_write provider job credential)
            w
            (start_with port cfg provider job credential)
    unfolding start_write start_with
    jobs-start_with none credential w found s = (w.reads, jobs-finish_failure w _ _ found)
    jobs-start_with (some provider) none w found s = (w.reads, jobs-finish_failure w _ _ found)
    jobs-start_with (some provider) (some authorization) w found s =
        jobs-start_answer (provider.start job.request_json authorization job.idempotency_key) w
          found s

    -- While its lease holds, `_start` on a stored starting job makes exactly the write that the
    -- provider, the credential and the provider's answer determine, at a reading of the clock. No
    -- other job changes, and neither a failure of the workspace nor an exception handler undoes it.
    pub start_job_lem :
        (w : World port)
        → get job.generation_job_id w.jobs ≡ some job
        → is_starting job.status ≡ true
        → let credential =
            (get_credential w.credentials job.generation_job_id (cfg.clock w.reads)).0 in
          (n : ℕ) × ((start_job port cfg job w).1.jobs
            ≡ After (start_write (provider_of cfg job.kind) job credential) w n)
    unfolding start_job ◌>>=◌ credential_of
    start_job_lem w found s =
        jobs-start_with (provider_of cfg job.kind) _
          (record w {
            credentials =
                (get_credential w.credentials job.generation_job_id (cfg.clock w.reads)).1;
            reads = w.reads + 1;
          })
          found s
