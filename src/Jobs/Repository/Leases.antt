-- ===== src/Jobs/Repository/Leases.antt =====
-- A lease keeps a job for its worker: what claims hand out, and what other workers' calls leave.
use pixelflow.Base.Dict.{
  get, put, put_all, values, get-put_ne, get-put_all-map, get_of_IsIn, IsKeyed,
}
use pixelflow.Base.Results.{ok}
use pixelflow.Base.{
  ℕ, ◌+◌, ◌≤◌, ◌<◌, String, ◌≡◌, refl, sym, ap, ◌∙◌, ◌≢◌, ◌⊎◌, subst, Bool, true, some, none, List,
  [], ◌∷◌, arith, eq_iff, inl, inr, IsIn, IsIn-map, filter, take, map, length, length-map,
  length-take-le,
}
use pixelflow.Jobs.Contracts.{
  GenerationJobRecord, GenerationJobStatus, starting, polling, is_polling,
}
use pixelflow.Jobs.Repository.{
  Records, id_of, start_claimable, start_claimed, poll_claimable, poll_claimed, reopened,
  claim_start_jobs, claim_poll_jobs, lease_owned, is_missing_mapped_result, replayable,
}
use pixelflow.Jobs.Repository.Cases.{
  claim_start_ok, claim_poll_ok, create_cases, bind_cases, reschedule_cases, complete_cases,
  claim_start_cases, claim_poll_cases, reopen_cases,
}
use pixelflow.Jobs.Repository.Commands.{
  Command, create, claim_start, bind, claim_poll, reschedule, finish, reopen, step,
}
use pixelflow.Jobs.Repository.Lifecycle.{candidate_stored, latest_stored, step-IsKeyed}

-- The record is being worked on by the worker, until the instant.
pub record IsLeased (worker : String) (until : ℕ) (r : GenerationJobRecord) : Type 0 where
  pub owner : r.lease_owner ≡ some worker
  pub expires : r.lease_expires_at ≡ some until
  pub at_work : (r.status ≡ starting) ⊎ (r.status ≡ polling)

-- A call that is not the worker's own: another worker's write, any claim before the lease runs
-- out, a submission under a new identifier, a reopening.
abbrev pub IsForeign : String → ℕ → Records → Command → Type 0
IsForeign worker until s (create candidate) = get candidate.generation_job_id s ≡ none
IsForeign worker until s (claim_start other now lease limit) = now < until
IsForeign worker until s (claim_poll other now lease limit) = now < until
IsForeign worker until s (bind job provider_job other now next) = other ≢ worker
IsForeign worker until s (reschedule job other now next) = other ≢ worker
IsForeign worker until s (finish job other status now result reason) = other ≢ worker
IsForeign worker until s (reopen now limit) = Unit

module _ (worker : String) (until : ℕ) (s : Records) (k : String) (r : GenerationJobRecord)
    (found : get k s ≡ some r) (leased : IsLeased worker until r) where
  not_owned :
      (job other : String) (item : GenerationJobRecord) (now : ℕ)
      → other ≢ worker
      → get job s ≡ some item
      → lease_owned item other now ≡ true
      → job ≢ k
  unfolding lease_owned
  not_owned job other item now ne e o = λ q.
      let one : item ≡ r = cc (e, found, ap (λ i. get i s) q) in
      let held : item.lease_owner ≡ some worker =
        ap (λ (i : GenerationJobRecord). i.lease_owner) one ∙ leased.owner in
      ne (ground (arith, held, eq_iff worker other))

  untouched-put :
      (job other : String) (item new : GenerationJobRecord) (now : ℕ)
      → other ≢ worker
      → get job s ≡ some item
      → lease_owned item other now ≡ true
      → get k (put job new s) ≡ some r
  untouched-put job other item new now ne e o =
      get-put_ne job k new s (not_owned job other item now ne e o) ∙ found

  untouched-put_all :
      (f : GenerationJobRecord → GenerationJobRecord) (xs : List GenerationJobRecord)
      → ((a : GenerationJobRecord) → id_of (f a) ≡ id_of a)
      → IsKeyed id_of s
      → ((a : GenerationJobRecord) → IsIn a xs → IsIn a (values s))
      → (IsIn r xs → ⊥)
      → get k (put_all id_of (map f xs) s) ≡ some r
  untouched-put_all f xs same w part out =
      elim (get-put_all-map id_of f xs s k r same w part found) [
        | inl (m, g) ↦ absurd (out m)
        | inr (m, g) ↦ g
      ]

  not_start_claimable : (now : ℕ) → now < until → start_claimable now r ≡ true → ⊥
  not_start_claimable now h t = ground (arith, leased.owner, leased.expires, leased.at_work)

  not_poll_claimable : (now : ℕ) → now < until → poll_claimable now r ≡ true → ⊥
  not_poll_claimable now h t = ground (arith, leased.owner, leased.expires, leased.at_work)

  not_replayable : replayable (values s) r ≡ true → ⊥
  unfolding is_missing_mapped_result
  not_replayable t = ground (arith, leased.at_work)

  -- A stored job under a lease is left exactly as it is by every call that is not its worker's own
  -- and, if it is a claim, comes before the lease runs out.
  step_foreign :
      (c : Command) → IsKeyed id_of s → IsForeign worker until s c → get k (step s c) ≡ some r
  unfolding step
  step_foreign (create candidate) w h =
      create_cases (λ t. get k t ≡ some r) s found candidate
        λ new. get-put_ne _ k candidate s (λ q. cc (ap (λ i. get i s) q)) ∙ found
  step_foreign (claim_start other now lease limit) w h =
      claim_start_cases (λ t. get k t ≡ some r) s found other now lease limit
        λ c.
          untouched-put_all (start_claimed other now lease) _ (λ a. refl) w
            (λ a m. (candidate_stored (start_claimable now) s limit a m).0)
            (λ m. not_start_claimable now h (candidate_stored (start_claimable now) s limit r m).1)
  step_foreign (bind job provider_job other now next) w h =
      bind_cases (λ t. get k t ≡ some r) s found job provider_job other now next
        λ item e o t. untouched-put job other item _ now h e o
  step_foreign (claim_poll other now lease limit) w h =
      claim_poll_cases (λ t. get k t ≡ some r) s found other now lease limit
        λ c.
          untouched-put_all (poll_claimed other now lease) _ (λ a. refl) w
            (λ a m. (candidate_stored (poll_claimable now) s limit a m).0)
            (λ m. not_poll_claimable now h (candidate_stored (poll_claimable now) s limit r m).1)
  step_foreign (reschedule job other now next) w h =
      reschedule_cases (λ t. get k t ≡ some r) s found job other now next
        λ item e o t. untouched-put job other item _ now h e o
  step_foreign (finish job other status now result reason) w h =
      complete_cases (λ t. get k t ≡ some r) s found job other status now result reason
        λ item e o. untouched-put job other item _ now h e o
  step_foreign (reopen now limit) w h =
      reopen_cases (λ t. get k t ≡ some r) s found now limit
        (untouched-put_all (reopened now) _ (λ a. refl) w (λ a m. (latest_stored s limit a m).0)
          (λ m. not_replayable (latest_stored s limit r m).1))

pub run : Records → List Command → Records
run s [] = s
run s (c ∷ cs) = run (step s c) cs

-- Every call of the schedule is foreign in the state that it meets.
abbrev pub AllForeign : String → ℕ → Records → List Command → Type 0
AllForeign worker until s [] = Unit
AllForeign worker until s (c ∷ cs) =
    IsForeign worker until s c × AllForeign worker until (step s c) cs

-- Until its lease runs out, a stored job is left exactly as it is by any sequence of calls of which
-- none is its worker's own: claims before that instant, other workers' writes, submissions under an
-- identifier that is not in use and reopenings.
pub run_foreign :
    (worker : String) (until : ℕ) (s : Records) (cs : List Command) (k : String)
    (r : GenerationJobRecord)
    → get k s ≡ some r
    → IsLeased worker until r
    → IsKeyed id_of s
    → AllForeign worker until s cs
    → get k (run s cs) ≡ some r
unfolding run
run_foreign worker until s [] k r e l w h = e
run_foreign worker until s (c ∷ cs) k r e l w h =
    run_foreign worker until (step s c) cs k r (step_foreign worker until s k r e l c w h.0) l
      (step-IsKeyed s c w) h.1

-- What a claim hands out: a job that was claimable, now stored as it was handed out, under a lease
-- of the worker that has just begun.
abbrev pub IsHandedOut :
    (GenerationJobRecord → Bool) → String → ℕ → Records → Records → GenerationJobRecord → Type 0
IsHandedOut claimable worker until s s' r =
    (old : GenerationJobRecord) × (get (id_of r) s ≡ some old)
    × (claimable old ≡ true)
    × (get (id_of r) s' ≡ some r)
    × IsLeased worker until r

claimed-IsHandedOut :
    (claimable : GenerationJobRecord → Bool) (f : GenerationJobRecord → GenerationJobRecord)
    (worker : String) (until n : ℕ) (s : Records)
    → ((a : GenerationJobRecord) → id_of (f a) ≡ id_of a)
    → ((a : GenerationJobRecord) → claimable a ≡ true → IsLeased worker until (f a))
    → IsKeyed id_of s
    → let claimed = map f (take n (filter claimable (values s))) in
      (r : GenerationJobRecord)
      → IsIn r claimed
      → IsHandedOut claimable worker until s (put_all id_of claimed s) r
claimed-IsHandedOut claimable f worker until n s same lease w r m =
    let (a, ma, q) = IsIn-map f r _ m in
    let old = candidate_stored claimable s n a ma in
    let at_id = get_of_IsIn id_of a s w old.0 in
    let ids : id_of a ≡ id_of r = sym (same a) ∙ ap id_of (sym q) in
    let before : get (id_of r) s ≡ some a = ap (λ i. get i s) (sym ids) ∙ at_id in
    let after_it : get (id_of r) (put_all id_of (map f (take n (filter claimable (values s)))) s)
        ≡ some r =
      elim (get-put_all-map id_of f _ s (id_of r) a same w
        (λ b mb. (candidate_stored claimable s n b mb).0) before) [
          | inl (m', g) ↦ g ∙ ap some (sym q)
          | inr (m', g) ↦ absurd (m' ma)
        ] in
    (a, before, old.1, after_it, subst (IsLeased worker until) (sym q) (lease a old.1))

poll_claimable-is_polling :
    (now : ℕ) (a : GenerationJobRecord) → poll_claimable now a ≡ true → a.status ≡ polling
poll_claimable-is_polling now a h = polling_of a.status (ground arith)
  where
    polling_of : (b : GenerationJobStatus) → is_polling b ≡ true → b ≡ polling
    polling_of polling p = refl
    polling_of _ p = absurd (cc)

length-given :
    (f : GenerationJobRecord → GenerationJobRecord) (n : ℕ) (xs : List GenerationJobRecord)
    → length (map f (take n xs)) ≤ n
length-given f n xs = omega (arith, length-map f (take n xs), length-take-le n xs)

-- A claim of start jobs that succeeds hands out at most `limit` jobs. Each was claimable, is now
-- stored as it was handed out, and is leased to the worker for the whole duration.
pub claim_start_jobs-IsHandedOut :
    (s s' : Records) (worker : String) (now lease limit : ℕ) (claimed : List GenerationJobRecord)
    → IsKeyed id_of s
    → claim_start_jobs s worker now lease limit ≡ ok (claimed, s')
    → (length claimed ≤ limit)
      × ((r : GenerationJobRecord)
          → IsIn r claimed
          → IsHandedOut (start_claimable now) worker (now + lease) s s' r)
claim_start_jobs-IsHandedOut s s' worker now lease limit claimed w e =
    let (p, q) = claim_start_ok s s' worker now lease limit claimed e in
    rw (← p, ← q)
      (
        length-given (start_claimed worker now lease) limit _,
        claimed-IsHandedOut (start_claimable now) (start_claimed worker now lease) worker
            (now + lease) limit s (λ a. refl)
            (λ a t. record { owner = refl; expires = refl; at_work = inl refl }) w,
      )

-- A claim of poll jobs that succeeds hands out at most `limit` jobs. Each was claimable, is now
-- stored as it was handed out, and is leased to the worker for the whole duration.
pub claim_poll_jobs-IsHandedOut :
    (s s' : Records) (worker : String) (now lease limit : ℕ) (claimed : List GenerationJobRecord)
    → IsKeyed id_of s
    → claim_poll_jobs s worker now lease limit ≡ ok (claimed, s')
    → (length claimed ≤ limit)
      × ((r : GenerationJobRecord)
          → IsIn r claimed
          → IsHandedOut (poll_claimable now) worker (now + lease) s s' r)
claim_poll_jobs-IsHandedOut s s' worker now lease limit claimed w e =
    let (p, q) = claim_poll_ok s s' worker now lease limit claimed e in
    rw (← p, ← q)
      (
        length-given (poll_claimed worker now lease) limit _,
        claimed-IsHandedOut (poll_claimable now) (poll_claimed worker now lease) worker
            (now + lease) limit s (λ a. refl)
            (λ a t. record {
              owner = refl;
              expires = refl;
              at_work = inr (poll_claimable-is_polling now a t);
            })
            w,
      )
