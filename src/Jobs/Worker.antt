-- ===== src/Jobs/Worker.antt =====
-- `GenerationJobWorker` of backend/pixelflow/generation_jobs/worker.py, over the store of
-- Jobs/Repository. Providers are functions from the arguments of a call to its answer; the workspace
-- side (repository.py of video/workspace and the patch builders of projector.py) is an interface.
-- Logging is left out. `asyncio.gather` runs the handlers of different jobs in one order.
pub mod Effects
pub mod Decisions
pub mod Start
pub mod Poll
pub mod Safety
mod Tests
use Prim.Native.String.{◌++◌ as ◌◇◌, count}
use pixelflow.Base.Exec.{Exec, pure, raise, lift, catch, ◌>>=◌, ◌>>◌}
use pixelflow.Base.Json.{Json, Fields, end, is_falsy, object}
use pixelflow.Base.Results.{Result, ok, err, Error, mapping}
use pixelflow.Base.{
  ℕ, zero, suc, ◌+◌, ◌-◌, String, Bool, true, false, ◌&&◌, ◌||◌, not, Option, none, some, List, [],
  ◌∷◌, ◌==◌, leb, ltb, if◌then◌else◌, is_missing, is_empty, strip, lower, all_chars, nat_beq,
  length,
}
use pixelflow.Jobs.Contracts.{
  GenerationJobRecord, GenerationJobStatus, GenerationJobKind, image, video, succeeded, failed,
  indeterminate,
}
use pixelflow.Jobs.Providers.{
  ProviderJobOutcome, ProviderJobSnapshot, Provider, provider_status, result_mapping,
  safe_provider_mapping_reason,
}
use pixelflow.Jobs.Credentials.{Credentials, get_credential, discard_credential}
use pixelflow.Jobs.Repository.{
  Records, bind_provider_job, reschedule_poll, complete, claim_start_jobs, claim_poll_jobs,
  reopen_missing_image_results,
}

-- What the worker uses of the workspaces: reading one as (conversation, payload, revision), the
-- patch for a finished job (`None` if nothing is to be written), and applying it.
pub record WorkspacePort : Type 1 where
  pub State : Type 0
  pub Patch : Type 0
  pub get_workspace : State → String → String → Result (Option (String × Fields × ℕ))
  pub workspace_patch : GenerationJobRecord → Fields → ℕ → Result (Option Patch)
  pub apply_workspace_patch : State → String → String → Patch → ℕ → ℕ → Result State

-- What the constructor of the worker is given; `clock n` is the n-th reading.
pub record Config : Type 0 where
  pub worker_id : String
  pub poll_interval : ℕ
  pub lease_duration : ℕ
  pub image_provider : Option Provider
  pub video_provider : Option Provider
  pub clock : ℕ → ℕ

-- The `phase` of a log line and of a reason code.
abbrev pub start_phase : String
start_phase = "start"

abbrev pub poll_phase : String
poll_phase = "poll"

-- f"provider_{phase}_{reason_code}"
abbrev pub phase_reason : String → String → String
phase_reason phase reason_code = "provider_" ◇ phase ◇ "_" ◇ reason_code

-- `self._providers.get(job.kind)`
abbrev pub provider_of : Config → GenerationJobKind → Option Provider
provider_of cfg image = cfg.image_provider
provider_of cfg video = cfg.video_provider

-- `reason_code or default`
abbrev pub or_default : String → String → String
or_default reason_code default = if is_empty reason_code then default else reason_code

module _ (port : WorkspacePort) where
  pub record World : Type 0 where
    pub jobs : Records
    pub credentials : Credentials
    pub workspaces : port.State
    pub reads : ℕ

  -- One call of the store. A call that raises writes nothing.
  abbrev stored : {A : Type 0} → World → Result (A × Records) → Result A × World
  stored w (ok (a, records)) = (ok a, record w { jobs = records })
  stored w (err e) = (err e, w)

  abbrev written : World → Result port.State → Result (Unit {0}) × World
  written w (ok workspaces) = (ok tt, record w { workspaces = workspaces })
  written w (err e) = (err e, w)

module _ (port : WorkspacePort) (cfg : Config) where
  abbrev pub Act : Type 0 → Type 0
  Act A = Exec (World port) A

  -- `self._clock()`
  pub now : Act ℕ
  now w = (ok (cfg.clock w.reads), record w { reads = w.reads + 1 })

  pub credential_of : String → Act (Option String)
  unfolding get_credential
  credential_of job w =
      let (found, kept) = get_credential w.credentials job (cfg.clock w.reads) in
      (ok found, record w { credentials = kept; reads = w.reads + 1 })

  pub discard : String → Act (Unit {0})
  unfolding discard_credential
  discard job w = (ok tt, record w { credentials = discard_credential w.credentials job })

  pub get_workspace : GenerationJobRecord → Act (Option (String × Fields × ℕ))
  get_workspace job w = (port.get_workspace w.workspaces job.user_id job.workspace_id, w)

  pub apply_patch : GenerationJobRecord → port.Patch → ℕ → ℕ → Act (Unit {0})
  apply_patch job patch revision at w =
      written port w
        (port.apply_workspace_patch w.workspaces job.user_id job.workspace_id patch revision at)

  -- `_project`, with the attempts that are left. The last failure is only logged.
  pub project : ℕ → GenerationJobRecord → Act (Unit {0})
  unfolding now get_workspace apply_patch
  project zero job = pure tt
  project (suc attempts) job =
      let again = project attempts job in
      get_workspace job >>= λ found. elim found [
        | none ↦ pure tt
        | some (conversation_id, payload, revision) ↦
            if not (conversation_id == job.conversation_id)
            then pure tt
            else now >>= λ built_at. elim (port.workspace_patch job payload built_at) [
              | err e ↦ raise e
              | ok none ↦ pure tt
              | ok (some patch) ↦
                  catch (now >>= λ at. apply_patch job patch revision at) (λ e. again)
            ]
      ]

  -- `_finish`
  pub finish :
      GenerationJobRecord → GenerationJobStatus → Option Fields → Option String → Act (Unit {0})
  unfolding now project discard ◌>>=◌
  finish job status result reason_code = do
    at ← now
    completed ← (λ w.
        stored port w
          (complete w.jobs job.generation_job_id cfg.worker_id status at result reason_code))
    project 3 completed
    discard job.generation_job_id

  pub finish_failure : GenerationJobRecord → GenerationJobStatus → String → Act (Unit {0})
  unfolding finish
  finish_failure job status reason_code = finish job status none (some reason_code)

  pub fail_provider_mapping : GenerationJobRecord → String → String → Act (Unit {0})
  unfolding finish_failure safe_provider_mapping_reason
  fail_provider_mapping job reason_code phase =
      finish_failure job indeterminate
        (phase_reason phase (safe_provider_mapping_reason reason_code))

  pub bind_provider : GenerationJobRecord → String → ℕ → Act (Unit {0})
  bind_provider job provider_job_id at = do
    bound ← (λ w. stored port w (
        bind_provider_job w.jobs job.generation_job_id provider_job_id cfg.worker_id at
          (at + cfg.poll_interval)))
    pure tt

  pub accept_polling : Option String → GenerationJobRecord → String → ℕ → Act (Unit {0})
  unfolding finish_failure bind_provider
  accept_polling none job phase at =
      finish_failure job indeterminate (phase_reason phase "job_id_missing")
  accept_polling (some provider_job_id) job phase at =
      if is_empty provider_job_id
      then finish_failure job indeterminate (phase_reason phase "job_id_missing")
      else bind_provider job provider_job_id at

  pub accept_result : Fields → GenerationJobRecord → Act (Unit {0})
  unfolding finish finish_failure
  accept_result result job =
      if is_falsy (some result)
      then finish_failure job indeterminate "provider_result_missing"
      else finish job succeeded (some result) none

  pub accept_outcome :
      ProviderJobOutcome → GenerationJobRecord → String → ProviderJobSnapshot → ℕ → Act (Unit {0})
  unfolding accept_polling accept_result result_mapping
  accept_outcome ProviderJobOutcome.polling job phase snapshot at =
      accept_polling snapshot.provider_job_id job phase at
  accept_outcome ProviderJobOutcome.succeeded job phase snapshot at =
      accept_result (result_mapping snapshot.result) job
  accept_outcome _ job phase snapshot at =
      finish_failure job failed (or_default snapshot.reason_code "provider_business_failed")

  -- `_accept_snapshot`
  pub accept_snapshot : GenerationJobRecord → String → ProviderJobSnapshot → Act (Unit {0})
  unfolding now accept_outcome
  accept_snapshot job phase snapshot =
      now >>= λ at. accept_outcome snapshot.outcome job phase snapshot at

  -- The two `except` clauses of `_start`.
  pub start_failed : GenerationJobRecord → Error → Act (Unit {0})
  unfolding finish_failure fail_provider_mapping
  start_failed job (mapping reason_code) = fail_provider_mapping job reason_code start_phase
  start_failed job _ = finish_failure job indeterminate "provider_start_indeterminate"

  pub start_with : Option Provider → GenerationJobRecord → Option String → Act (Unit {0})
  unfolding finish_failure accept_snapshot start_failed catch
  start_with none job credential = finish_failure job failed "provider_unavailable"
  start_with (some provider) job none = finish_failure job indeterminate "authorization_unavailable"
  start_with (some provider) job (some authorization) =
      catch
        (lift (provider.start job.request_json authorization job.idempotency_key)
          >>= accept_snapshot job start_phase)
        (start_failed job)

  -- `_start`
  pub start_job : GenerationJobRecord → Act (Unit {0})
  unfolding credential_of start_with
  start_job job = credential_of job.generation_job_id >>= start_with (provider_of cfg job.kind) job

  pub reschedule : GenerationJobRecord → Act (Unit {0})
  unfolding now
  reschedule job = do
    at ← now
    later ← now
    rescheduled ← (λ w.
        stored port w (
          reschedule_poll w.jobs job.generation_job_id cfg.worker_id at
            (later + cfg.poll_interval)))
    pure tt

  -- `_reschedule_poll`, which only logs a failure.
  pub try_reschedule : GenerationJobRecord → Act (Unit {0})
  unfolding reschedule
  try_reschedule job = catch (reschedule job) (λ e. pure tt)

  -- What `_poll` does with an answer of the provider.
  pub accept_status_outcome :
      ProviderJobOutcome → GenerationJobRecord → ProviderJobSnapshot → Act (Unit {0})
  unfolding reschedule accept_snapshot
  accept_status_outcome ProviderJobOutcome.polling job snapshot = reschedule job
  accept_status_outcome _ job snapshot = accept_snapshot job poll_phase snapshot

  pub accept_status : GenerationJobRecord → ProviderJobSnapshot → Act (Unit {0})
  unfolding accept_status_outcome
  accept_status job snapshot = accept_status_outcome snapshot.outcome job snapshot

  -- The two `except` clauses of `_poll`.
  pub poll_failed : GenerationJobRecord → Error → Act (Unit {0})
  unfolding try_reschedule fail_provider_mapping safe_provider_mapping_reason
  poll_failed job (mapping reason_code) =
      if safe_provider_mapping_reason reason_code == "provider_status_authorization_unavailable"
      then try_reschedule job
      else fail_provider_mapping job reason_code poll_phase
  poll_failed job _ = try_reschedule job

  pub poll_with : Provider → GenerationJobRecord → String → Option String → Act (Unit {0})
  unfolding accept_status poll_failed catch
  poll_with provider job provider_job_id credential =
      catch (lift (provider_status provider job provider_job_id credential) >>= accept_status job)
        (poll_failed job)

  pub poll_known : Option Provider → Option String → GenerationJobRecord → Act (Unit {0})
  unfolding credential_of finish_failure poll_with
  poll_known (some provider) (some provider_job_id) job =
      if is_empty provider_job_id
      then finish_failure job indeterminate "provider_job_unavailable"
      else credential_of job.generation_job_id >>= poll_with provider job provider_job_id
  poll_known _ _ job = finish_failure job indeterminate "provider_job_unavailable"

  -- `_poll`; its third guard never holds, since every kind is an image or a video.
  pub poll_job : GenerationJobRecord → Act (Unit {0})
  unfolding poll_known
  poll_job job = poll_known (provider_of cfg job.kind) job.provider_job_id job

  abbrev gather : Act (Unit {0}) → Act (Unit {0}) → Act (Unit {0})
  gather first second w =
      let (r, w') = first w in
      let (r', w'') = second w' in elim r [ ok u ↦ (r', w'') | err e ↦ (err e, w'') ]

  pub each : (GenerationJobRecord → Act (Unit {0})) → List GenerationJobRecord → Act (Unit {0})
  each f [] = pure tt
  each f (job ∷ jobs) = let rest = each f jobs in gather (f job) rest

  pub poll_claims : ℕ → List GenerationJobRecord → Act (List GenerationJobRecord)
  poll_claims at start_jobs =
      if ltb (length start_jobs) 6
      then (λ w.
          stored port w
            (claim_poll_jobs w.jobs cfg.worker_id at cfg.lease_duration (6 - length start_jobs)))
      else pure []

  -- `run_once`
  pub run_once : Act ℕ
  unfolding now each poll_claims start_job poll_job
  run_once = do
    at ← now
    reopened ← (λ w. stored port w (ok (reopen_missing_image_results w.jobs at 6)))
    start_jobs ←
        (λ w. stored port w (claim_start_jobs w.jobs cfg.worker_id at cfg.lease_duration 6))
    poll_jobs ← poll_claims at start_jobs
    gather (each start_job start_jobs) (each poll_job poll_jobs)
    pure (length start_jobs + length poll_jobs)
