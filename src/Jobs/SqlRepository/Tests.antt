-- ===== src/Jobs/SqlRepository/Tests.antt =====
-- A job in the database, and the agreement of the two stores on it.
use pixelflow.Jobs.Contracts.{validate_status_contract}
use pixelflow.Base.Dict.{values, get}
use pixelflow.Base.Json.{Fields}
use pixelflow.Base.Results.{Result, ok, err, value_error}
use pixelflow.Jobs.Contracts.{GenerationJobRecord}
use pixelflow.Jobs.SqlRepository.{text_field, optional_field, bind_provider_job}
use pixelflow.Base.{All, strip, Option, none}
use pixelflow.Base.{◌≡◌, refl, some, [], ◌∷◌, eq_iff, String}
use pixelflow.Jobs.Contracts.{sample_job, starting}
use pixelflow.Jobs.Repository.{Records, lease_owned}
use pixelflow.Jobs.SqlRepository.Agreement.{
  IsReadable, Agree, binding, in_database, in_process, row_calls-Agree,
}

-- The worker w1 has started the job.
abbrev records : Records
records =
    (
      "generation-job-1",
      record sample_job { status = starting; lease_owner = some "w1"; lease_expires_at = some 200 },
    )
    ∷ []

abbrev job : String
job = "provider-1"

job_has_name : job ≡ "" → ⊥
job_has_name p = absurd (cc ((eq_iff job "").1 p))

-- Values of JSON are left as they are.
abbrev same_json : Fields → Fields
same_json fields = fields

records-IsReadable : All (IsReadable same_json) (values records)
unfolding validate_status_contract text_field optional_field strip
records-IsReadable = (
  (refl, ((refl, refl, refl, refl, refl, refl, refl, refl, refl, refl), refl, refl, refl, refl)),
  tt,
)

kept_job : optional_field 255 (some job) ≡ ok (some job)
unfolding optional_field strip
kept_job = refl

row_calls-Agree_example :
    Agree
      (in_database same_json (binding "generation-job-1" "provider-1" "w1" 150 160) records)
      (in_process (binding "generation-job-1" "provider-1" "w1" 150 160) records)
row_calls-Agree_example =
    row_calls-Agree same_json (binding "generation-job-1" "provider-1" "w1" 150 160) records
      records-IsReadable (job_has_name, kept_job)

-- Bound with blanks around its name, the provider's job is read without them in the database; a
-- blank name is refused there.
abbrev bound_in_database : String → Result (GenerationJobRecord × Records)
bound_in_database name =
    in_database same_json (binding "generation-job-1" name "w1" 150 160) records

abbrev name_of : Result (GenerationJobRecord × Records) → Option String
name_of (ok (r, s)) = r.provider_job_id
name_of (err e) = none

stripped_name : name_of (bound_in_database " p1 ") ≡ some "p1"
unfolding bind_provider_job strip get lease_owned
stripped_name = refl

blank_name : bound_in_database " " ≡ err value_error
unfolding bind_provider_job strip get lease_owned
blank_name = refl
