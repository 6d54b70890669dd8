-- ===== src/Jobs/Repository/Validity.antt =====
-- Every stored record keeps passing the validator of contracts.py, though the store writes by
-- `model_copy`, which runs no validator.
use pixelflow.Base.Dict.{values, All-put, All-get, All-put_all}
use pixelflow.Base.Json.{Fields}
use pixelflow.Base.{
  ℕ, String, ◌≡◌, true, false, Option, List, [], ◌∷◌, arith, eq_iff, Bool-cases, inl, inr, All,
  All-filter, All-take, All-map, is_blank, is_blank-nil, ltb,
}
use pixelflow.Jobs.Contracts.{
  GenerationJobRecord, GenerationJobStatus, IsValid, validate_status_contract, is_polling,
}
use pixelflow.Jobs.Repository.{
  Records, id_of, start_claimed, poll_claimable, poll_claimed, bound, rescheduled, completed,
  reopened, is_missing_mapped_result, replayable, same_asset, keep_latest, latest_of,
}
use pixelflow.Jobs.Repository.Cases.{
  create_cases, bind_cases, reschedule_cases, complete_cases, claim_start_cases, claim_poll_cases,
  reopen_cases,
}
use pixelflow.Jobs.Repository.Commands.{
  Command, create, claim_start, bind, claim_poll, reschedule, finish, reopen, step, IsOutcome,
  IsProper,
}

abbrev pub AllValid : Records → Type 0
AllValid s = All IsValid (values s)

start_claimed-IsValid :
    (worker : String) (now lease : ℕ)
    → is_blank worker ≡ false
    → (item : GenerationJobRecord) → Unit {0}
    → IsValid (start_claimed worker now lease item)
unfolding validate_status_contract
start_claimed-IsValid worker now lease h item u = ground (arith, eq_iff worker "", is_blank-nil)

poll_claimed-IsValid :
    (worker : String) (now lease : ℕ) (item : GenerationJobRecord)
    → IsValid item × (poll_claimable now item ≡ true)
    → IsValid (poll_claimed worker now lease item)
unfolding validate_status_contract
poll_claimed-IsValid worker now lease item v = ground arith

reopened-IsValid :
    (now : ℕ) (item : GenerationJobRecord)
    → is_missing_mapped_result item ≡ true
    → IsValid (reopened now item)
unfolding validate_status_contract is_missing_mapped_result
reopened-IsValid now item h = ground arith

pub bound-IsValid :
    (job : String) (now next : ℕ) (item : GenerationJobRecord)
    → (job ≡ "" → ⊥)
    → IsValid (bound job now next item)
unfolding validate_status_contract
bound-IsValid job now next item h = ground (arith, eq_iff job "")

pub rescheduled-IsValid :
    (now next : ℕ) (item : GenerationJobRecord)
    → IsValid item
    → is_polling item.status ≡ true
    → IsValid (rescheduled now next item)
unfolding validate_status_contract
rescheduled-IsValid now next item v p = ground arith

pub completed-IsValid :
    (status : GenerationJobStatus) (now : ℕ) (result : Option Fields) (reason : Option String)
    (item : GenerationJobRecord)
    → IsOutcome status result reason
    → IsValid (completed status now result reason item)
unfolding validate_status_contract
completed-IsValid status now result reason item h = ground arith

abbrev pub IsMissing : GenerationJobRecord → Type 0
IsMissing item = is_missing_mapped_result item ≡ true

pub keep_latest-All :
    (P : GenerationJobRecord → Type 0) (item : GenerationJobRecord)
    (latest : List GenerationJobRecord)
    → P item
    → All P latest
    → All P (keep_latest item latest)
unfolding keep_latest
keep_latest-All P item [] p h = (p, tt)
keep_latest-All P item (current ∷ rest) p h = elim (Bool-cases (same_asset current item)) [
  | inl t ↦ elim (Bool-cases (ltb current.created_at item.created_at)) [
    | inl l ↦ rw (t, l) (p, h.1)
    | inr l ↦ rw (t, l) h
  ]
  | inr t ↦ rw t (h.0, keep_latest-All P item rest p h.1)
]

-- What holds of the replayable ones among the records holds of those that are chosen.
pub latest_of-All :
    (P Q : GenerationJobRecord → Type 0) (all items latest : List GenerationJobRecord)
    → ((item : GenerationJobRecord) → Q item → replayable all item ≡ true → P item)
    → All Q items
    → All P latest
    → All P (latest_of all items latest)
unfolding latest_of
latest_of-All P Q all [] latest f q h = h
latest_of-All P Q all (item ∷ items) latest f q h = elim (Bool-cases (replayable all item)) [
  | inl t ↦ rw t (
      latest_of-All P Q all items (keep_latest item latest) f q.1
        (keep_latest-All P item latest (f item q.0 t) h))
  | inr t ↦ rw t (latest_of-All P Q all items latest f q.1 h)
]

replayable-IsMissing :
    (all : List GenerationJobRecord) (item : GenerationJobRecord)
    → replayable all item ≡ true
    → IsMissing item
replayable-IsMissing all item h = ground arith

All-Unit {ℓ} : {A : Type ℓ} (xs : List A) → All (λ _. Unit {0}) xs
All-Unit [] = tt
All-Unit (x ∷ xs) = (tt, All-Unit xs)

-- From records that all pass the validator, every call that respects its conditions leads to
-- records that all pass it, whether the call succeeds or raises.
pub step-AllValid : (s : Records) (c : Command) → IsProper c → AllValid s → AllValid (step s c)
unfolding step
step-AllValid s (create candidate) p v =
    create_cases AllValid s v candidate λ e. All-put IsValid _ candidate s p v
step-AllValid s (claim_start worker now lease limit) p v =
    claim_start_cases AllValid s v worker now lease limit λ c.
      All-put_all id_of IsValid _ s
        (All-map (λ _. Unit {0}) IsValid _ (start_claimed-IsValid worker now lease c.0) _
          (All-Unit _))
        v
step-AllValid s (bind job provider_job worker now next) p v =
    bind_cases AllValid s v job provider_job worker now next
      λ item e o t. All-put IsValid job _ s (bound-IsValid provider_job now next item p) v
step-AllValid s (claim_poll worker now lease limit) p v =
    claim_poll_cases AllValid s v worker now lease limit λ c.
      All-put_all id_of IsValid _ s
        (All-map (λ item. IsValid item × (poll_claimable now item ≡ true)) IsValid _
          (poll_claimed-IsValid worker now lease) _
          (All-take _ limit _ (All-filter IsValid _ (poll_claimable now) (λ a q t. (q, t)) _ v)))
        v
step-AllValid s (reschedule job worker now next) p v =
    reschedule_cases AllValid s v job worker now next λ item e o t.
      All-put IsValid job _ s (rescheduled-IsValid now next item (All-get IsValid job item s e v) t)
        v
step-AllValid s (finish job worker status now result reason) p v =
    complete_cases AllValid s v job worker status now result reason
      λ item e o. All-put IsValid job _ s (completed-IsValid status now result reason item p) v
step-AllValid s (reopen now limit) p v = reopen_cases AllValid s v now limit (
    All-put_all id_of IsValid _ s
      (All-map IsMissing IsValid _ (reopened-IsValid now) _ (
        All-take IsMissing limit _ (
          latest_of-All IsMissing (λ _. Unit {0}) (values s) (values s) []
            (λ item u t. replayable-IsMissing (values s) item t) (All-Unit (values s)) tt)))
      v)
