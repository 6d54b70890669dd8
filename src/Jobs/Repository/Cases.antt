-- ===== src/Jobs/Repository/Cases.antt =====
-- One case rule for each call that changes the records: what a predicate of the records has to
-- hold of. The proofs about the store go by these rules, with the methods shut.
use pixelflow.Base.Dict.{get, put, put_all, values}
use pixelflow.Base.Json.{Fields}
use pixelflow.Base.Results.{ok, err, conflict}
use pixelflow.Base.{
  List, ℕ, ◌≤◌, ◌<◌, String, ◌≡◌, Bool, true, false, ◌&&◌, ◌||◌, none, some, Option, [], map, arith,
  inl, inr, Bool-cases, Option-cases, find, filter, take, is_blank, ◌==◌, leb, ltb, &&-eq-true,
}
use pixelflow.Jobs.Contracts.{GenerationJobRecord, GenerationJobStatus, is_starting, is_polling}
use pixelflow.Jobs.Repository.{
  Records, id_of, lease_owned, same_identity, validate_claim_inputs, create_or_read,
  start_claimable, start_claimed, claim_start_jobs, bound, bind_provider_job, poll_claimable,
  poll_claimed, claim_poll_jobs, rescheduled, reschedule_poll, completed, complete, reopened,
  latest_of, reopen_missing_image_results,
}
use pixelflow.Jobs.Repository.Commands.{after}

module _ {ℓ} (P : Records → Type ℓ) (s : Records) (unchanged : P s) where
  pub create_cases :
      (candidate : GenerationJobRecord)
      → (find (λ item. item.idempotency_key == candidate.idempotency_key) (values s) ≡ none
          → P (put candidate.generation_job_id candidate s))
      → P (after s (create_or_read s candidate))
  unfolding create_or_read
  create_cases candidate new = elim (Option-cases found) [
    | inl e ↦ rw (e, create_or_read, after) (new e)
    | inr (item, e) ↦ elim (Bool-cases (same_identity item candidate)) [
      | inl t ↦ rw (e, create_or_read, t, after) unchanged
      | inr t ↦ rw (e, create_or_read, t, after) unchanged
    ]
  ]
    where
      found : Option GenerationJobRecord
      found = find (λ item. item.idempotency_key == candidate.idempotency_key) (values s)

  pub bind_cases :
      (job provider_job worker : String) (now next : ℕ)
      → ((item : GenerationJobRecord)
          → get job s ≡ some item
          → lease_owned item worker now ≡ true
          → is_starting item.status ≡ true
          → P (put job (bound provider_job now next item) s))
      → P (after s (bind_provider_job s job provider_job worker now next))
  unfolding bind_provider_job
  bind_cases job provider_job worker now next changed = elim (Option-cases (get job s)) [
    | inl e ↦ rw (e, bind_provider_job, after) unchanged
    | inr (item, e) ↦ elim (Bool-cases (lease_owned item worker now && is_starting item.status)) [
      | inl t ↦
          let both = &&-eq-true (lease_owned item worker now) (is_starting item.status) t in
          rw (e, bind_provider_job, t, after) (changed item e both.0 both.1)
      | inr t ↦ rw (e, bind_provider_job, t, after) unchanged
    ]
  ]

  pub reschedule_cases :
      (job worker : String) (now next : ℕ)
      → ((item : GenerationJobRecord)
          → get job s ≡ some item
          → lease_owned item worker now ≡ true
          → is_polling item.status ≡ true
          → P (put job (rescheduled now next item) s))
      → P (after s (reschedule_poll s job worker now next))
  unfolding reschedule_poll
  reschedule_cases job worker now next changed = elim (Option-cases (get job s)) [
    | inl e ↦ rw (e, reschedule_poll, after) unchanged
    | inr (item, e) ↦ elim (Bool-cases (lease_owned item worker now && is_polling item.status)) [
      | inl t ↦
          let both = &&-eq-true (lease_owned item worker now) (is_polling item.status) t in
          rw (e, reschedule_poll, t, after) (changed item e both.0 both.1)
      | inr t ↦ rw (e, reschedule_poll, t, after) unchanged
    ]
  ]

  pub complete_cases :
      (job worker : String) (status : GenerationJobStatus) (now : ℕ) (result : Option Fields)
      (reason : Option String)
      → ((item : GenerationJobRecord)
          → get job s ≡ some item
          → lease_owned item worker now ≡ true
          → P (put job (completed status now result reason item) s))
      → P (after s (complete s job worker status now result reason))
  unfolding complete
  complete_cases job worker status now result reason changed = elim (Option-cases (get job s)) [
    | inl e ↦ rw (e, complete, after) unchanged
    | inr (item, e) ↦ elim (Bool-cases (lease_owned item worker now)) [
      | inl t ↦ rw (e, complete, t, after) (changed item e t)
      | inr t ↦ rw (e, complete, t, after) unchanged
    ]
  ]

  -- What the inputs of a claim satisfy when they are accepted.
  abbrev pub IsClaim : String → ℕ → ℕ → Type 0
  IsClaim worker lease limit = (is_blank worker ≡ false) × (0 < lease) × (0 < limit) × (limit ≤ 6)

  pub claim_start_cases :
      (worker : String) (now lease limit : ℕ)
      → (IsClaim worker lease limit
          → P (
              put_all id_of
                (map
                  (start_claimed worker now lease)
                  (take limit (filter (start_claimable now) (values s))))
                s))
      → P (after s (claim_start_jobs s worker now lease limit))
  unfolding claim_start_jobs validate_claim_inputs
  claim_start_cases worker now lease limit changed = elim (Bool-cases (refused)) [
    | inl t ↦ rw (t, claim_start_jobs, after) unchanged
    | inr t ↦ rw (t, claim_start_jobs, after) (changed (ground arith))
  ]
    where
      refused : Bool
      refused = is_blank worker || leb lease 0 || ltb limit 1 || ltb 6 limit

  pub claim_poll_cases :
      (worker : String) (now lease limit : ℕ)
      → (IsClaim worker lease limit
          → P (
              put_all id_of
                (map
                  (poll_claimed worker now lease)
                  (take limit (filter (poll_claimable now) (values s))))
                s))
      → P (after s (claim_poll_jobs s worker now lease limit))
  unfolding claim_poll_jobs validate_claim_inputs
  claim_poll_cases worker now lease limit changed = elim (Bool-cases (refused)) [
    | inl t ↦ rw (t, claim_poll_jobs, after) unchanged
    | inr t ↦ rw (t, claim_poll_jobs, after) (changed (ground arith))
  ]
    where
      refused : Bool
      refused = is_blank worker || leb lease 0 || ltb limit 1 || ltb 6 limit

  pub reopen_cases :
      (now limit : ℕ)
      → P (put_all id_of (map (reopened now) (take limit (latest_of (values s) (values s) []))) s)
      → P (reopen_missing_image_results s now limit).1
  unfolding reopen_missing_image_results
  reopen_cases now limit changed = elim (Bool-cases (leb limit 0)) [
    | inl t ↦ rw (t, reopen_missing_image_results) unchanged
    | inr t ↦ rw (t, reopen_missing_image_results) changed
  ]

module _ (s s' : Records) (worker : String) (now lease limit : ℕ)
    (claimed : List GenerationJobRecord) where
  pub claim_start_ok :
      claim_start_jobs s worker now lease limit ≡ ok (claimed, s')
      → let given =
          map
            (start_claimed worker now lease)
            (take limit (filter (start_claimable now) (values s))) in
        (given ≡ claimed) × (put_all id_of given s ≡ s')
  unfolding claim_start_jobs validate_claim_inputs
  claim_start_ok e = ground arith

  pub claim_poll_ok :
      claim_poll_jobs s worker now lease limit ≡ ok (claimed, s')
      → let given =
          map
            (poll_claimed worker now lease)
            (take limit (filter (poll_claimable now) (values s))) in
        (given ≡ claimed) × (put_all id_of given s ≡ s')
  unfolding claim_poll_jobs validate_claim_inputs
  claim_poll_ok e = ground arith

-- The results of the calls that a lease allows, and of those that it does not.
module _ (s : Records) (job worker : String) (now : ℕ) (item : GenerationJobRecord)
    (found : get job s ≡ some item) where
  pub complete_owned :
      (status : GenerationJobStatus) (result : Option Fields) (reason : Option String)
      → lease_owned item worker now ≡ true
      → complete s job worker status now result reason
        ≡ ok (
          completed status now result reason item,
          put job (completed status now result reason item) s,
        )
  unfolding complete
  complete_owned status result reason o = ground (arith, found)

  pub complete_refused :
      (status : GenerationJobStatus) (result : Option Fields) (reason : Option String)
      → lease_owned item worker now ≡ false
      → complete s job worker status now result reason ≡ err conflict
  unfolding complete
  complete_refused status result reason o = ground (arith, found)

  pub bind_owned :
      (provider_job : String) (next : ℕ)
      → lease_owned item worker now ≡ true
      → is_starting item.status ≡ true
      → bind_provider_job s job provider_job worker now next
        ≡ ok (bound provider_job now next item, put job (bound provider_job now next item) s)
  unfolding bind_provider_job
  bind_owned provider_job next o t = ground (arith, found)

  pub reschedule_owned :
      (next : ℕ)
      → lease_owned item worker now ≡ true
      → is_polling item.status ≡ true
      → reschedule_poll s job worker now next
        ≡ ok (rescheduled now next item, put job (rescheduled now next item) s)
  unfolding reschedule_poll
  reschedule_owned next o t = ground (arith, found)

  pub reschedule_refused :
      (next : ℕ)
      → lease_owned item worker now ≡ false
      → reschedule_poll s job worker now next ≡ err conflict
  unfolding reschedule_poll
  reschedule_refused next o = ground (arith, found)
