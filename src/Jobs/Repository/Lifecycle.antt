-- ===== src/Jobs/Repository/Lifecycle.antt =====
-- How one record moves: the status diagram, the parts that never change, and the lease that keeps
-- every other worker away.
use pixelflow.Base.Dict.{
  get, put, put_all, values, get-put_self, get-put_ne, IsKeyed, put-IsKeyed, put_all-IsKeyed,
  id_of_get, get-put_all-map, All-get, IsIn-values_of_get,
}
use pixelflow.Base.{
  ℕ, String, ◌≡◌, refl, sym, ap, ◌∙◌, Bool, true, false, ◌&&◌, ◌||◌, subst, map, some, List, [],
  arith, eq_iff, Bool-cases, inl, inr, IsIn, All-IsIn, All-of_IsIn, IsIn-take, IsIn-filter, filter,
  take, find, find-eq-none, none, ◌==◌, ◌≢◌,
}
use pixelflow.Jobs.Contracts.{
  GenerationJobRecord, GenerationJobStatus, queued, starting, polling, indeterminate, IsValid,
  validate_status_contract, is_terminal, is_starting, is_queued, is_indeterminate,
}
use pixelflow.Jobs.Repository.{
  Records, id_of, start_claimable, start_claimed, poll_claimable, poll_claimed, reopened,
  lease_owned, is_missing_mapped_result, replayable, latest_of,
}
use pixelflow.Jobs.Repository.Cases.{
  create_cases, bind_cases, reschedule_cases, complete_cases, claim_start_cases, claim_poll_cases,
  reopen_cases,
}
use pixelflow.Jobs.Repository.Commands.{
  Command, create, claim_start, bind, claim_poll, reschedule, finish, reopen, step, IsProper,
}
use pixelflow.Jobs.Repository.Validity.{AllValid, latest_of-All}

-- The status diagram of a GenerationJob.
infix 40 ◌⟶◌
pub data ◌⟶◌ : GenerationJobStatus → GenerationJobStatus → Type 0 where
  stay : {a : GenerationJobStatus} → a ⟶ a
  start : queued ⟶ starting
  accept : starting ⟶ polling
  end : {a b : GenerationJobStatus} → is_terminal a ≡ false → is_terminal b ≡ true → a ⟶ b
  replay : indeterminate ⟶ polling

-- What was submitted, with everything that the worker writes put to fixed values.
abbrev pub submitted : GenerationJobRecord → GenerationJobRecord
submitted r = record r {
  status = queued;
  provider_job_id = none;
  result_json = none;
  failure_reason_code = none;
  next_poll_at = none;
  lease_owner = none;
  lease_expires_at = none;
  updated_at = 0;
}

abbrev pub Evolves : GenerationJobRecord → GenerationJobRecord → Type 0
Evolves r r' = (submitted r' ≡ submitted r) × (r.status ⟶ r'.status)

-- A submission under the identifier of the job has the job's idempotency key.
abbrev pub IsOwnKey : String → GenerationJobRecord → Command → Type 0
IsOwnKey k r (create candidate) =
    candidate.generation_job_id ≡ k → candidate.idempotency_key ≡ r.idempotency_key
IsOwnKey k r _ = Unit

-- Where each record stands once, under its own identifier, so it does after every call, whether the
-- call succeeds or raises.
pub step-IsKeyed : (s : Records) (c : Command) → IsKeyed id_of s → IsKeyed id_of (step s c)
unfolding step
step-IsKeyed s (create candidate) w =
    create_cases (IsKeyed id_of) s w candidate λ e. put-IsKeyed id_of candidate _ s refl w
step-IsKeyed s (claim_start worker now lease limit) w =
    claim_start_cases (IsKeyed id_of) s w worker now lease limit λ c. put_all-IsKeyed id_of _ s w
step-IsKeyed s (bind job provider_job worker now next) w =
    bind_cases (IsKeyed id_of) s w job provider_job worker now next
      λ item e o t. put-IsKeyed id_of _ job s (id_of_get id_of job item s w e) w
step-IsKeyed s (claim_poll worker now lease limit) w =
    claim_poll_cases (IsKeyed id_of) s w worker now lease limit λ c. put_all-IsKeyed id_of _ s w
step-IsKeyed s (reschedule job worker now next) w =
    reschedule_cases (IsKeyed id_of) s w job worker now next
      λ item e o t. put-IsKeyed id_of _ job s (id_of_get id_of job item s w e) w
step-IsKeyed s (finish job worker status now result reason) w =
    complete_cases (IsKeyed id_of) s w job worker status now result reason
      λ item e o. put-IsKeyed id_of _ job s (id_of_get id_of job item s w e) w
step-IsKeyed s (reopen now limit) w =
    reopen_cases (IsKeyed id_of) s w now limit (put_all-IsKeyed id_of _ s w)

start_edge :
    (a : GenerationJobStatus) (due : Bool)
    → (is_queued a || (is_starting a && due)) ≡ true
    → a ⟶ starting
start_edge queued due h = start
start_edge starting due h = stay
start_edge _ due h = absurd (cc)

bind_edge : (a : GenerationJobStatus) → is_starting a ≡ true → a ⟶ polling
bind_edge starting h = accept
bind_edge _ h = absurd (cc)

replay_edge : (a : GenerationJobStatus) → is_indeterminate a ≡ true → a ⟶ polling
replay_edge indeterminate h = replay
replay_edge _ h = absurd (cc)

pub leased_live :
    (item : GenerationJobRecord) (worker : String) (now : ℕ)
    → IsValid item
    → lease_owned item worker now ≡ true
    → is_terminal item.status ≡ false
unfolding validate_status_contract lease_owned
leased_live item worker now v h = ground arith

-- What stands under the key is the record, or what the record has become.
abbrev pub Moved : String → GenerationJobRecord → Records → Type 0
Moved k r s = (r' : GenerationJobRecord) × (get k s ≡ some r') × Evolves r r'

module _ (s : Records) (k : String) (r : GenerationJobRecord) (found : get k s ≡ some r) where
  Moved-not : Moved k r s
  Moved-not = (r, found, (refl, stay))

  Moved-put :
      (job : String) (item new : GenerationJobRecord)
      → get job s ≡ some item
      → Evolves item new
      → Moved k r (put job new s)
  Moved-put job item new e v = elim (Bool-cases (job == k)) [
    | inl t ↦
        let same = (eq_iff job k).0 t in
        let one : item ≡ r = cc (e, found, ap (λ i. get i s) same) in
        (
          new,
          ap (λ i. get i (put job new s)) (sym same) ∙ get-put_self job new s,
          subst (λ q. Evolves q new) one v,
        )
    | inr t ↦ (r, get-put_ne job k new s (λ q. ground (arith, eq_iff job k)) ∙ found, (refl, stay))
  ]

  Moved-put_all :
      (f : GenerationJobRecord → GenerationJobRecord) (xs : List GenerationJobRecord)
      → ((a : GenerationJobRecord) → id_of (f a) ≡ id_of a)
      → IsKeyed id_of s
      → ((a : GenerationJobRecord) → IsIn a xs → IsIn a (values s))
      → ((a : GenerationJobRecord) → IsIn a xs → Evolves a (f a))
      → Moved k r (put_all id_of (map f xs) s)
  Moved-put_all f xs same w part ev = elim (get-put_all-map id_of f xs s k r same w part found) [
    | inl (m, g) ↦ (f r, g, ev r m)
    | inr (m, g) ↦ (r, g, (refl, stay))
  ]

-- The records that `reopen` chooses are stored ones, and their results are missing.
pub latest_stored :
    (s : Records) (n : ℕ) (a : GenerationJobRecord)
    → IsIn a (take n (latest_of (values s) (values s) []))
    → IsIn a (values s) × (replayable (values s) a ≡ true)
latest_stored s n a m =
    All-IsIn (λ b. IsIn b (values s) × (replayable (values s) b ≡ true)) (IsIn-take a n _ m)
      (latest_of-All _ (λ b. IsIn b (values s)) (values s) (values s) [] (λ b i t. (i, t))
        (All-of_IsIn (λ b. IsIn b (values s)) (values s) (λ b i. i)) tt)

pub candidate_stored :
    (test : GenerationJobRecord → Bool) (s : Records) (n : ℕ) (a : GenerationJobRecord)
    → IsIn a (take n (filter test (values s)))
    → IsIn a (values s) × (test a ≡ true)
candidate_stored test s n a m = IsIn-filter test a (values s) (IsIn-take a n _ m)

replayable-is_indeterminate :
    (s : Records) (a : GenerationJobRecord)
    → replayable (values s) a ≡ true
    → is_indeterminate a.status ≡ true
unfolding is_missing_mapped_result
replayable-is_indeterminate s a h = ground arith

-- A submission that is new, of a key that is not in use, does not come under the job's identifier.
new_elsewhere :
    (s : Records) (candidate : GenerationJobRecord) (k : String) (r : GenerationJobRecord)
    → IsOwnKey k r (create candidate)
    → get k s ≡ some r
    → find (λ item. item.idempotency_key == candidate.idempotency_key) (values s) ≡ none
    → candidate.generation_job_id ≢ k
new_elsewhere s candidate k r own e new = λ q.
    let differs =
      find-eq-none (λ item. item.idempotency_key == candidate.idempotency_key) new
        (IsIn-values_of_get k r s e) in
    ground (arith, differs, own q, eq_iff r.idempotency_key candidate.idempotency_key)

-- From valid records under their identifiers, a call that respects its conditions keeps each stored
-- job, changes nothing of what was submitted, and leaves the status or moves it along the diagram.
-- The conditions are that a job that is created is valid and, where it comes under the identifier of
-- the stored job, has that job's idempotency key; that a provider's job has a name; and that a job is
-- finished with a terminal status, with a result if it succeeded and with a reason if it did not.
pub step-Evolves :
    (s : Records) (c : Command) (k : String) (r : GenerationJobRecord)
    → IsProper c
    → IsOwnKey k r c
    → AllValid s
    → IsKeyed id_of s
    → get k s ≡ some r
    → (r' : GenerationJobRecord) × (get k (step s c) ≡ some r') × Evolves r r'
unfolding step
step-Evolves s (create candidate) k r p own v w e =
    create_cases (Moved k r) s (Moved-not s k r e) candidate λ new.
      (r, get-put_ne _ k candidate s (new_elsewhere s candidate k r own e new) ∙ e, (refl, stay))
step-Evolves s (claim_start worker now lease limit) k r p own v w e =
    claim_start_cases (Moved k r) s (Moved-not s k r e) worker now lease limit λ c.
      Moved-put_all s k r e (start_claimed worker now lease) _ (λ a. refl) w
        (λ a m. (candidate_stored (start_claimable now) s limit a m).0)
        (λ a m.
          (refl, start_edge a.status _ (candidate_stored (start_claimable now) s limit a m).1))
step-Evolves s (bind job provider_job worker now next) k r p own v w e =
    bind_cases (Moved k r) s (Moved-not s k r e) job provider_job worker now next
      λ item i o t. Moved-put s k r e job item _ i (refl, bind_edge item.status t)
step-Evolves s (claim_poll worker now lease limit) k r p own v w e =
    claim_poll_cases (Moved k r) s (Moved-not s k r e) worker now lease limit λ c.
      Moved-put_all s k r e (poll_claimed worker now lease) _ (λ a. refl) w
        (λ a m. (candidate_stored (poll_claimable now) s limit a m).0) (λ a m. (refl, stay))
step-Evolves s (reschedule job worker now next) k r p own v w e =
    reschedule_cases (Moved k r) s (Moved-not s k r e) job worker now next
      λ item i o t. Moved-put s k r e job item _ i (refl, stay)
step-Evolves s (finish job worker status now result reason) k r p own v w e =
    complete_cases (Moved k r) s (Moved-not s k r e) job worker status now result reason λ item i o.
      Moved-put s k r e job item _ i
        (refl, end (leased_live item worker now (All-get IsValid job item s i v) o) p.0)
step-Evolves s (reopen now limit) k r p own v w e =
    reopen_cases (Moved k r) s (Moved-not s k r e) now limit (
      Moved-put_all s k r e (reopened now) _ (λ a. refl) w (λ a m. (latest_stored s limit a m).0)
        (λ a m. (
          refl,
          replay_edge a.status (replayable-is_indeterminate s a (latest_stored s limit a m).1),
        )))
