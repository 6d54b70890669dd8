-- ===== src/Jobs/Repository/Reopening.antt =====
-- `reopen_missing_image_results`: which jobs it reopens, and how many.
use pixelflow.Base.Dict.{values, IsKeyed}
use pixelflow.Base.{ℕ, ◌≡◌, ◌⊎◌, true, false, List, [], take, All, ◌≢◌}
use pixelflow.Jobs.Contracts.{GenerationJobRecord, is_succeeded}
use pixelflow.Jobs.Repository.{Records, id_of, is_missing_mapped_result, latest_of}

-- The job was indeterminate for want of a result, its provider's identifier is known and no job of
-- its asset has succeeded.
abbrev pub IsRecoverable : Records → GenerationJobRecord → Type 0
IsRecoverable s r =
    (is_missing_mapped_result r ≡ true)
    × All
        (λ other.
          (is_succeeded other.status ≡ false)
          ⊎ (other.workspace_id ≢ r.workspace_id)
          ⊎ (other.item_id ≢ r.item_id))
        (values s)

module _ (s : Records) (now limit : ℕ) (keyed : IsKeyed id_of s) where
  chosen : List GenerationJobRecord
  chosen = take limit (latest_of (values s) (values s) [])
