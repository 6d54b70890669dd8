-- ===== src/Jobs/SqlRepository/Agreement.antt =====
-- The store in the database answers and writes as the one in memory, call by call.
use pixelflow.Base.Dict.{get, put, values, All-get}
use pixelflow.Base.Json.{Fields}
use pixelflow.Base.Results.{Result, ok, err, Error, conflict, lookup_error, guard, ◌>>=◌, ◌>>◌}
use pixelflow.Base.{
  ℕ, String, ◌≡◌, refl, ◌⊎◌, inl, inr, Bool, true, false, ◌&&◌, Option, none, some, ◌==◌,
  Bool-cases, Option-cases, find, find-eq-some, All, All-IsIn, &&-eq-true, leb,
}
use pixelflow.Jobs.Contracts.{
  GenerationJobRecord, GenerationJobStatus, IsValid, is_starting, is_polling,
}
use pixelflow.Jobs.Repository
use pixelflow.Jobs.Repository.{
  Records, lease_owned, same_identity, bound, rescheduled, completed, find_record,
}
use pixelflow.Jobs.Repository.Commands.{IsOutcome}
use pixelflow.Jobs.Repository.Validity.{bound-IsValid, rescheduled-IsValid, completed-IsValid}
use pixelflow.Jobs.Repository.Idempotency.{same_identity_refl}
use pixelflow.Jobs.SqlRepository.{
  text_field, optional_field, optional_json, validate_fields, model_validate, record_from_row,
  create_or_read, change_row, bind_provider_job, reschedule_poll, complete,
}

-- Both raise, or both return the same and leave the same records.
abbrev pub Agree {ℓ} : {A : Type ℓ} → Result A → Result A → Type ℓ
Agree r m = (r ≡ m) ⊎ ((e f : Error) × (r ≡ err e) × (m ≡ err f))

find_record-none :
    (id : String) (s : Records) → get id s ≡ none → find_record s id ≡ err lookup_error
unfolding find_record
find_record-none id s e = rw (e, find_record) refl

find_record-some :
    (id : String) (s : Records) (item : GenerationJobRecord)
    → get id s ≡ some item
    → find_record s id ≡ ok item
unfolding find_record
find_record-some id s item e = rw (e, find_record) refl

-- The fields of what was submitted are as the model keeps them: without blanks around, not empty
-- and not too long.
abbrev IsCleanRequest : (Fields → Fields) → GenerationJobRecord → Type 0
IsCleanRequest validate_json r =
    (text_field 64 r.generation_job_id ≡ ok r.generation_job_id)
    × (text_field 64 r.user_id ≡ ok r.user_id)
    × (text_field 64 r.conversation_id ≡ ok r.conversation_id)
    × (text_field 64 r.workspace_id ≡ ok r.workspace_id)
    × (text_field 128 r.item_id ≡ ok r.item_id)
    × ((leb 1 r.variant_index && leb r.variant_index 3) ≡ true)
    × (text_field 128 r.request_hash ≡ ok r.request_hash)
    × (text_field 255 r.idempotency_key ≡ ok r.idempotency_key)
    × (text_field 128 r.provider_id ≡ ok r.provider_id)
    × (validate_json r.request_json ≡ r.request_json)

-- All fields of the record are as the model keeps them.
abbrev pub IsClean : (Fields → Fields) → GenerationJobRecord → Type 0
IsClean validate_json r =
    IsCleanRequest validate_json r
    × (optional_field 255 r.provider_job_id ≡ ok r.provider_job_id)
    × (optional_json validate_json r.result_json ≡ r.result_json)
    × (optional_field 128 r.failure_reason_code ≡ ok r.failure_reason_code)
    × (optional_field 128 r.lease_owner ≡ ok r.lease_owner)

abbrev pub IsReadable : (Fields → Fields) → GenerationJobRecord → Type 0
IsReadable validate_json r = IsValid r × IsClean validate_json r

no_field : (n : ℕ) → optional_field n none ≡ ok none
unfolding optional_field
no_field n = refl

module _ (validate_json : Fields → Fields) where
  -- A readable record is read as it was written.
  read_back :
      (r : GenerationJobRecord)
      → IsReadable validate_json r
      → record_from_row validate_json (some r) ≡ ok r
  unfolding record_from_row model_validate validate_fields
  read_back r (valid, ((a, b, c, d, e, f, g, h, i, j), k, l, m, n)) =
      rw (a, b, c, d, e, f, g, h, i, j, k, l, m, n) valid

  module _ (id : String) (allowed : GenerationJobRecord → Bool)
      (change : GenerationJobRecord → GenerationJobRecord) (s : Records)
      (readable : All (IsReadable validate_json) (values s))
      (proper : (item : GenerationJobRecord)
        → IsReadable validate_json item
        → allowed item ≡ true
        → IsReadable validate_json (change item)) where
    change_row-missing :
        get id s ≡ none → change_row validate_json id allowed change s ≡ err conflict
    unfolding change_row
    change_row-missing e = rw e refl

    change_row-refused :
        (item : GenerationJobRecord)
        → get id s ≡ some item
        → allowed item ≡ false
        → change_row validate_json id allowed change s ≡ err conflict
    unfolding change_row
    change_row-refused item e t =
        rw (e, read_back item (All-get (IsReadable validate_json) id item s e readable), t) refl

    change_row-done :
        (item : GenerationJobRecord)
        → get id s ≡ some item
        → allowed item ≡ true
        → change_row validate_json id allowed change s ≡ ok (change item, put id (change item) s)
    unfolding change_row
    change_row-done item e t =
        let v = All-get (IsReadable validate_json) id item s e readable in
        rw (e, read_back item v, t, read_back (change item) (proper item v t)) refl

    -- What the store in memory does, of the record that it found.
    abbrev in_memory : Result GenerationJobRecord → Result (GenerationJobRecord × Records)
    in_memory found =
        found >>= λ item. guard (allowed item) conflict >> ok (change item, put id (change item) s)

    change_row-Agree :
        Agree (change_row validate_json id allowed change s) (in_memory (find_record s id))
    change_row-Agree = elim (Option-cases (get id s)) [
      | inl e ↦
          rw (change_row-missing e, find_record-none id s e)
            (inr (conflict, lookup_error, refl, refl))
      | inr (item, e) ↦ elim (Bool-cases (allowed item)) [
        | inr t ↦ rw (change_row-refused item e t, find_record-some id s item e, t) (inl refl)
        | inl t ↦ rw (change_row-done item e t, find_record-some id s item e, t) (inl refl)
      ]
    ]

  create_or_read-Agree :
      (s : Records) (candidate : GenerationJobRecord)
      → All (IsReadable validate_json) (values s)
      → IsReadable validate_json candidate
      → get candidate.generation_job_id s ≡ none
      → Agree (create_or_read validate_json s candidate) (Repository.create_or_read s candidate)
  unfolding create_or_read Repository.create_or_read
  create_or_read-Agree s candidate readable proper fresh =
      let test = λ (row : GenerationJobRecord). row.idempotency_key == candidate.idempotency_key in
      elim (Option-cases (find test (values s))) [
        | inl e ↦
            rw
              (
                e,
                fresh,
                read_back candidate proper,
                same_identity_refl candidate,
                Repository.create_or_read,
              )
              (inl refl)
        | inr (existing, e) ↦
            let m = (find-eq-some test existing (values s) e).0 in
            let v = read_back existing (All-IsIn (IsReadable validate_json) m readable) in
            elim (Bool-cases (same_identity existing candidate)) [
              | inl t ↦ rw (e, v, t, Repository.create_or_read) (inl refl)
              | inr t ↦ rw (e, v, t, Repository.create_or_read) (inl refl)
            ]
      ]

-- A call that changes one row.
pub data RowCall : Type 0 where
  creating : GenerationJobRecord → RowCall
  binding : (id job worker : String) → (now next : ℕ) → RowCall
  rescheduling : (id worker : String) → (now next : ℕ) → RowCall
  completing :
      (id worker : String) → GenerationJobStatus → ℕ → Option Fields → Option String → RowCall

abbrev pub in_database :
    (Fields → Fields) → RowCall → Records → Result (GenerationJobRecord × Records)
in_database validate_json (creating candidate) s = create_or_read validate_json s candidate
in_database validate_json (binding id job worker now next) s =
    bind_provider_job validate_json s id job worker now next
in_database validate_json (rescheduling id worker now next) s =
    reschedule_poll validate_json s id worker now next
in_database validate_json (completing id worker status now result reason) s =
    complete validate_json s id worker status now result reason

abbrev pub in_process : RowCall → Records → Result (GenerationJobRecord × Records)
in_process (creating candidate) s = Repository.create_or_read s candidate
in_process (binding id job worker now next) s =
    Repository.bind_provider_job s id job worker now next
in_process (rescheduling id worker now next) s = Repository.reschedule_poll s id worker now next
in_process (completing id worker status now result reason) s =
    Repository.complete s id worker status now result reason

-- A job to create is valid, its fields are as the model keeps them and its identifier is not in use;
-- a provider's job has a name and a finished job a proper outcome, which the model keeps.
abbrev pub IsProperCall : (Fields → Fields) → RowCall → Records → Type 0
IsProperCall validate_json (creating candidate) s =
    IsReadable validate_json candidate × (get candidate.generation_job_id s ≡ none)
IsProperCall validate_json (binding id job worker now next) s =
    (job ≡ "" → ⊥) × (optional_field 255 (some job) ≡ ok (some job))
IsProperCall validate_json (rescheduling id worker now next) s = Unit
IsProperCall validate_json (completing id worker status now result reason) s =
    IsOutcome status result reason
    × (optional_json validate_json result ≡ result)
    × (optional_field 128 reason ≡ ok reason)

-- On records that are all valid and whose fields are as the model keeps them, the store in the
-- database and the one in memory agree on every proper call that creates, binds, reschedules or
-- completes a job: both raise, or both return the same job and leave the same records. Proper means
-- that a job to create is such a record and its identifier not in use, that a provider's job has a
-- name, and that a finished job is terminal, with a result if it succeeded and with a reason if it
-- did not. Texts are kept that have no blanks around them and are not too long, and values of JSON
-- that `validate_json` leaves as they are.
pub row_calls-Agree :
    (validate_json : Fields → Fields) (c : RowCall) (s : Records)
    → All (IsReadable validate_json) (values s)
    → IsProperCall validate_json c s
    → Agree (in_database validate_json c s) (in_process c s)
unfolding bind_provider_job Repository.bind_provider_job reschedule_poll Repository.reschedule_poll
    complete Repository.complete
row_calls-Agree validate_json (creating candidate) s readable (proper, fresh) =
    create_or_read-Agree validate_json s candidate readable proper fresh
row_calls-Agree validate_json (binding id job worker now next) s readable (named, kept) =
    change_row-Agree validate_json id (λ row. lease_owned row worker now && is_starting row.status)
      (bound job now next) s readable
      (λ item (v, (request, a, b, c, d)) t.
        (bound-IsValid job now next item named, (request, kept, b, c, no_field 128)))
row_calls-Agree validate_json (rescheduling id worker now next) s readable p =
    change_row-Agree validate_json id (λ row. lease_owned row worker now && is_polling row.status)
      (rescheduled now next) s readable
      (λ item (v, (request, a, b, c, d)) t. (
        rescheduled-IsValid now next item v
            (&&-eq-true (lease_owned item worker now) (is_polling item.status) t).1,
        (request, a, b, c, no_field 128),
      ))
row_calls-Agree validate_json (completing id worker status now result reason) s readable
      (outcome, json, kept) =
    change_row-Agree validate_json id (λ row. lease_owned row worker now)
      (completed status now result reason) s readable
      (λ item (v, (request, a, b, c, d)) t. (
        completed-IsValid status now result reason item outcome,
        (request, a, json, kept, no_field 128),
      ))
