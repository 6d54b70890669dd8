-- ===== src/Jobs/Providers.antt =====
-- The provider port that the worker calls (backend/pixelflow/generation_jobs/providers.py), and the
-- pure functions of worker.py that read its answers.
use Prim.Native.String.{count}
use pixelflow.Base.Json.{Json, Fields, end, object}
use pixelflow.Base.Results.{Result}
use pixelflow.Base.{
  ℕ, String, Bool, ◌&&◌, ◌||◌, Option, none, some, leb, if◌then◌else◌, strip, lower, all_chars,
  nat_beq,
}
use pixelflow.Jobs.Contracts.{GenerationJobRecord, image, video}

-- `ProviderJobOutcome` of providers.py
pub data ProviderJobOutcome : Type 0 where
  polling succeeded failed paused_quota timeout expired : ProviderJobOutcome

-- `ProviderJobSnapshot` of providers.py, without its message
pub record ProviderJobSnapshot : Type 0 where
  pub provider_job_id : Option String
  pub outcome : ProviderJobOutcome
  pub result : Json
  pub reason_code : String

-- The port of an image or video provider: `start(request, authorization, idempotency_key)`, and
-- `status(provider_job_id, user_id, conversation_id, authorization)`.
pub record Provider : Type 0 where
  pub start : Fields → String → String → Result ProviderJobSnapshot
  pub status : String → String → String → Option String → Result ProviderJobSnapshot

-- `_result_mapping`
unfoldable pub result_mapping : Json → Fields
result_mapping (object fields) = fields
result_mapping _ = end

abbrev pub is_reason_char : ℕ → Bool
is_reason_char c = (leb b'a' c && leb c b'z') || (leb b'0' c && leb c b'9') || nat_beq c b'_'

-- `_SAFE_PROVIDER_REASON_CODE.fullmatch(s)`
unfoldable pub is_safe_reason : String → Bool
is_safe_reason s = all_chars is_reason_char s && leb 1 (count s) && leb (count s) 96

unfoldable pub safe_provider_mapping_reason : String → String
unfolding is_safe_reason
safe_provider_mapping_reason reason_code =
    let normalized = lower (strip reason_code) in
    if is_safe_reason normalized then normalized else "response_mapping_failed"

-- `status` as `_provider_status` calls it: only an image provider is given the authorization.
abbrev pub provider_status :
    Provider → GenerationJobRecord → String → Option String → Result ProviderJobSnapshot
provider_status provider job provider_job_id credential =
    provider.status provider_job_id job.user_id job.conversation_id (elim job.kind [
      | image ↦ some (elim credential [ none ↦ "" | some text ↦ text ])
      | video ↦ none
    ])
