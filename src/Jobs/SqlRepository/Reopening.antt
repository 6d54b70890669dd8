-- ===== src/Jobs/SqlRepository/Reopening.antt =====
-- `reopen_missing_image_results` in the database and in memory.
use pixelflow.Base.Dict.{values, put_all}
use pixelflow.Base.{
  ℕ, ◌≡◌, refl, ◌∙◌, ap, Bool, true, false, some, none, List, [], ◌∷◌, All, Bool-cases, inl, inr,
  leb, filter, take, is_empty, String, eq_iff, Option, is_some, not, is_missing, length, map, zero,
  suc, if◌then◌else◌,
}
use pixelflow.Jobs.Contracts.{GenerationJobRecord}
use pixelflow.Jobs.Repository
use pixelflow.Jobs.Repository.{
  Records, is_missing_mapped_result, has_succeeded, keep_latest, latest_of, id_of, reopened,
}
use pixelflow.Jobs.SqlRepository.{
  is_missing_row, latest_rows, reopen_selected, reopen_missing_image_results,
}

-- The provider's job, where there is one, has a name.
abbrev IsNamed : GenerationJobRecord → Type 0
IsNamed row = row.provider_job_id ≡ some "" → ⊥

has_name : (name : Option String) → (name ≡ some "" → ⊥) → is_some name ≡ not (is_missing name)
has_name none named = refl
has_name (some name) named = elim (Bool-cases (is_empty name)) [
  | inl e ↦ absurd (named (ap some ((eq_iff name "").0 e)))
  | inr e ↦ rw e refl
]

same_rows :
    (row : GenerationJobRecord) → IsNamed row → is_missing_row row ≡ is_missing_mapped_result row
unfolding is_missing_row is_missing_mapped_result
same_rows row named = rw (has_name row.provider_job_id named) refl

if_not {ℓ} : {A : Type ℓ} (b : Bool) (x y : A) → (if b then x else y) ≡ (if not b then y else x)
if_not true x y = refl
if_not false x y = refl

latest_rows-latest_of :
    (all items latest : List GenerationJobRecord)
    → All IsNamed items
    → latest_rows all (filter is_missing_row items) latest ≡ latest_of all items latest
unfolding latest_rows latest_of
latest_rows-latest_of all [] latest named = refl
latest_rows-latest_of all (row ∷ rows) latest named =
    elim (Bool-cases (is_missing_mapped_result row)) [
      | inl e ↦
          rw (same_rows row named.0, e)
            (ap (latest_rows all (filter is_missing_row rows))
                (if_not (has_succeeded all row) latest (keep_latest row latest))
              ∙ latest_rows-latest_of all rows
                  (if not (has_succeeded all row) then keep_latest row latest else latest) named.1)
      | inr e ↦ rw (same_rows row named.0, e) (latest_rows-latest_of all rows latest named.1)
    ]

-- Where no row is selected, the early return is what the rest of the method comes to.
reopen_selected_lem :
    (missing : List GenerationJobRecord) (s : Records) (now limit : ℕ)
    → let chosen = take limit (latest_rows (values s) missing []) in
      reopen_selected missing s now limit
      ≡ (length chosen, put_all id_of (map (reopened now) chosen) s)
unfolding reopen_selected latest_rows put_all
reopen_selected_lem [] s now zero = refl
reopen_selected_lem [] s now (suc limit) = refl
reopen_selected_lem (row ∷ missing) s now limit = refl

-- Where the database returns the selected rows in the order of the dictionary, and no provider's
-- job has an empty name, both stores report the same number of reopened jobs and leave the same
-- records.
reopen_missing_image_results-same :
    (arranged : List GenerationJobRecord → List GenerationJobRecord) (s : Records) (now limit : ℕ)
    → ((rows : List GenerationJobRecord) → arranged rows ≡ rows)
    → All IsNamed (values s)
    → reopen_missing_image_results arranged s now limit
      ≡ Repository.reopen_missing_image_results s now limit
unfolding reopen_missing_image_results Repository.reopen_missing_image_results
reopen_missing_image_results-same arranged s now limit kept named =
    elim (Bool-cases (leb limit 0)) [
      | inl e ↦ rw e refl
      | inr e ↦
          rw
            (
              e,
              kept (filter is_missing_row (values s)),
              reopen_selected_lem (filter is_missing_row (values s)) s now limit,
              latest_rows-latest_of (values s) (values s) [] named,
            )
            refl
    ]
