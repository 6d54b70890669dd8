-- ===== src/Jobs/Worker/Effects.antt =====
-- What the worker's methods do to the stored jobs.
use pixelflow.Base.Dict.{get, put}
use pixelflow.Base.Exec.{Exec, catch, on_error, ◌>>=◌}
use pixelflow.Base.Json.{Fields}
use pixelflow.Base.Results.{Result, ok, err, Error, value_error, mapping}
use pixelflow.Base.{
  ℕ, zero, suc, ◌+◌, String, ◌≡◌, refl, true, false, Option, some, none, arith, Bool-cases, inl,
  inr, ◌==◌,
}
use pixelflow.Jobs.Contracts.{GenerationJobRecord, GenerationJobStatus}
use pixelflow.Jobs.Providers.{safe_provider_mapping_reason}
use pixelflow.Jobs.Repository.{Records, completed, lease_owned}
use pixelflow.Jobs.Repository.Cases.{complete_owned, complete_refused, reschedule_refused}
use pixelflow.Jobs.Worker.{
  WorkspacePort, Config, World, project, finish, start_failed, try_reschedule, poll_failed,
}

module _ (port : WorkspacePort) (cfg : Config) where
  -- Writing the workspace never touches the jobs.
  jobs-project :
      (n : ℕ) (job : GenerationJobRecord) (w : World port)
      → (project port cfg n job w).1.jobs ≡ w.jobs
  unfolding project ◌>>=◌ catch
  jobs-project zero job w = refl
  jobs-project (suc n) job w =
      ground (arith, jobs-project n job (record w { reads = w.reads + 1 + 1 }))

  module _ (job : GenerationJobRecord) (w : World port) (item : GenerationJobRecord)
      (found : get job.generation_job_id w.jobs ≡ some item) (status : GenerationJobStatus)
      (result : Option Fields) (reason : Option String) where
    pub jobs-finish :
        lease_owned item cfg.worker_id (cfg.clock w.reads) ≡ true
        → (finish port cfg job status result reason w).1.jobs
          ≡ put job.generation_job_id
              (completed status (cfg.clock w.reads) result reason item)
              w.jobs
    unfolding finish
    jobs-finish o = ground (
      arith,
      complete_owned w.jobs job.generation_job_id cfg.worker_id (cfg.clock w.reads) item found
          status result reason o,
      jobs-project 3 (completed status (cfg.clock w.reads) result reason item) (record w {
        jobs =
            put job.generation_job_id (completed status (cfg.clock w.reads) result reason item)
              w.jobs;
        reads = w.reads + 1;
      }),
    )

    pub jobs-finish_refused :
        lease_owned item cfg.worker_id (cfg.clock w.reads) ≡ false
        → (finish port cfg job status result reason w).1.jobs ≡ w.jobs
    unfolding finish
    jobs-finish_refused o = ground (
      arith,
      complete_refused w.jobs job.generation_job_id cfg.worker_id (cfg.clock w.reads) item found
          status result reason o,
    )

  -- What a failed attempt does afterwards changes nothing once the job is finished.
  module _ (job : GenerationJobRecord) (w : World port) (item : GenerationJobRecord)
      (found : get job.generation_job_id w.jobs ≡ some item) (free : item.lease_owner ≡ none) where
    not_owned : (n : ℕ) → lease_owned item cfg.worker_id (cfg.clock n) ≡ false
    unfolding lease_owned
    not_owned n = ground (arith, free)

    pub jobs-start_failed_free : (e : Error) → (start_failed port cfg job e w).1.jobs ≡ w.jobs
    unfolding start_failed
    jobs-start_failed_free (mapping reason) =
        jobs-finish_refused job w item found _ _ _ (not_owned w.reads)
    jobs-start_failed_free value_error =
        jobs-finish_refused job w item found _ _ _ (not_owned w.reads)
    jobs-start_failed_free _ = jobs-finish_refused job w item found _ _ _ (not_owned w.reads)

    pub jobs-try_reschedule_free : (try_reschedule port cfg job w).1.jobs ≡ w.jobs
    unfolding try_reschedule catch ◌>>=◌
    jobs-try_reschedule_free = ground (
      arith,
      reschedule_refused w.jobs job.generation_job_id cfg.worker_id (cfg.clock w.reads) item found
          (cfg.clock (w.reads + 1) + cfg.poll_interval) (not_owned w.reads),
    )

    pub jobs-poll_failed_free : (e : Error) → (poll_failed port cfg job e w).1.jobs ≡ w.jobs
    unfolding poll_failed
    jobs-poll_failed_free (mapping reason) =
        elim (Bool-cases
          (safe_provider_mapping_reason reason == "provider_status_authorization_unavailable")) [
            | inl t ↦ rw t jobs-try_reschedule_free
            | inr t ↦ rw t (jobs-finish_refused job w item found _ _ _ (not_owned w.reads))
          ]
    jobs-poll_failed_free value_error = jobs-try_reschedule_free
    jobs-poll_failed_free _ = jobs-try_reschedule_free

  on_error-jobs :
      {A : Type 0} (handler : Error → Exec (World port) A) (jobs : Records) (r : Result A)
      (v : World port)
      → v.jobs ≡ jobs
      → ((e : Error) (u : World port) → u.jobs ≡ jobs → (handler e u).1.jobs ≡ jobs)
      → (on_error r handler v).1.jobs ≡ jobs
  on_error-jobs handler jobs (ok a) v p h = p
  on_error-jobs handler jobs (err e) v p h = h e v p

  -- If the handlers change nothing after the body's write, the write is what remains.
  pub jobs-catch :
      {A : Type 0} (m : Exec (World port) A) (handler : Error → Exec (World port) A)
      (w : World port) (jobs : Records)
      → (m w).1.jobs ≡ jobs
      → ((e : Error) (u : World port) → u.jobs ≡ jobs → (handler e u).1.jobs ≡ jobs)
      → (catch m handler w).1.jobs ≡ jobs
  unfolding catch
  jobs-catch m handler w jobs p h = on_error-jobs handler jobs (m w).0 (m w).1 p h
