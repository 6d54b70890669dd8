-- ===== src/Jobs/Worker/Tests.antt =====
-- The theorems on the worker at concrete jobs, with a workspace that accepts every patch.
use pixelflow.Jobs.Repository.{complete}
use pixelflow.Base.Dict.{put}
use pixelflow.Jobs.Repository.{bind_provider_job}
use pixelflow.Base.Dict.{get}
use pixelflow.Base.Json.{end, field, text, object}
use pixelflow.Base.Results.{ok}
use pixelflow.Base.{ℕ, String, ◌≡◌, refl, ◌+◌, none, some, [], ◌∷◌, map}
use pixelflow.Jobs.Contracts.{
  GenerationJobRecord, validate_status_contract, sample_job, starting, polling,
}
use pixelflow.Jobs.Credentials.{get_credential}
use pixelflow.Jobs.Providers.{ProviderJobOutcome, ProviderJobSnapshot, Provider}
use pixelflow.Jobs.Repository.{lease_owned}
use pixelflow.Jobs.Repository.Validity.{AllValid}
use pixelflow.Jobs.Worker.{WorkspacePort, Config, World, provider_of, start_job, poll_job}
use pixelflow.Jobs.Worker.Decisions.{start_write, poll_write}
use pixelflow.Jobs.Worker.Start.{After, start_job_lem}
use pixelflow.Jobs.Worker.Poll.{poll_job_lem}
use pixelflow.Jobs.Worker.Safety.{start_job-AllValid, poll_job-AllValid}

-- A workspace counts its patches.
abbrev port : WorkspacePort
port = record {
  State = ℕ;
  Patch = Unit {0};
  get_workspace = λ s user workspace. ok (some ("c1", end, s));
  workspace_patch = λ job payload at. ok (some tt);
  apply_workspace_patch = λ s user workspace patch revision at. ok (s + 1);
}

abbrev answer : ProviderJobSnapshot
answer = record {
  provider_job_id = some "p1";
  outcome = ProviderJobOutcome.polling;
  result = object end;
  reason_code = "";
}

abbrev finished : ProviderJobSnapshot
finished = record answer {
  outcome = ProviderJobOutcome.succeeded;
  result = object (field "url" (text "https://cdn/1.png") end);
}

abbrev provider : Provider
provider = record {
  start = λ request authorization key. ok answer;
  status = λ id user conversation authorization. ok finished;
}

abbrev cfg : Config
cfg = record {
  worker_id = "w1";
  poll_interval = 10;
  lease_duration = 60;
  image_provider = some provider;
  video_provider = none;
  clock = λ n. 120;
}

abbrev starting_job : GenerationJobRecord
starting_job = record sample_job {
  status = starting;
  lease_owner = some "w1";
  lease_expires_at = some 160;
}

abbrev polling_job : GenerationJobRecord
polling_job = record starting_job {
  status = polling;
  provider_job_id = some "p1";
  next_poll_at = some 110;
}

abbrev world : GenerationJobRecord → World port
world job = record {
  jobs = ("generation-job-1", job) ∷ [];
  credentials = ("generation-job-1", ("token", 500)) ∷ [];
  workspaces = 0;
  reads = 0;
}

start_job_example :
    let credential = (get_credential (world starting_job).credentials "generation-job-1" 120).0 in
    (n : ℕ) × ((start_job port cfg starting_job (world starting_job)).1.jobs
      ≡ After port cfg starting_job
          (start_write (provider_of cfg starting_job.kind) starting_job credential)
          (world starting_job)
          n)
unfolding lease_owned get
start_job_example = start_job_lem port cfg starting_job (λ n. refl) (world starting_job) refl refl

poll_job_example :
    let credential = (get_credential (world polling_job).credentials "generation-job-1" 120).0 in
    (n : ℕ) × ((poll_job port cfg polling_job (world polling_job)).1.jobs
      ≡ After port cfg polling_job
          (poll_write (provider_of cfg polling_job.kind) (some "p1") polling_job credential)
          (world polling_job)
          n)
unfolding lease_owned get
poll_job_example = poll_job_lem port cfg polling_job (λ n. refl) (world polling_job) refl refl

start_job-AllValid_example : AllValid (start_job port cfg starting_job (world starting_job)).1.jobs
unfolding lease_owned get validate_status_contract
start_job-AllValid_example =
    start_job-AllValid port cfg starting_job (λ n. refl) (world starting_job) refl (refl, tt) refl

poll_job-AllValid_example : AllValid (poll_job port cfg polling_job (world polling_job)).1.jobs
unfolding lease_owned get validate_status_contract
poll_job-AllValid_example =
    poll_job-AllValid port cfg polling_job (λ n. refl) (world polling_job) refl (refl, tt) refl

-- A start that the provider accepts moves the job to polling, without its lease.
accepted_start :
    map
      (λ (r : String × GenerationJobRecord). r.1.status)
      (start_job port cfg starting_job (world starting_job)).1.jobs
    ≡ polling ∷ []
unfolding start_job get bind_provider_job lease_owned put
accepted_start = refl

-- The success is stored and the workspace gets one patch.
projected_success : (poll_job port cfg polling_job (world polling_job)).1.workspaces ≡ 1
unfolding poll_job complete get lease_owned
projected_success = refl
