-- ===== src/Sidecar/RunService/Tasks.antt =====
-- The table of tasks of `RunService` (run_service.py): creating, activating and cancelling a run, and
-- the end of its task. A task is an object of its own, the nth that the service has created, with the
-- request that it executes; a task that was cancelled stays in the table until it ends. `validate_request` and `snapshot_skills` of the
-- engine are seen through their replies.
use pixelflow.Base.Dict.{Dict, get, put, pop, get-put_self}
use pixelflow.Base.Results.{Result, ok, err, runtime_error}
use pixelflow.Base.{
  ℕ, ◌+◌, String, ◌≡◌, ap, Bool, true, false, ◌||◌, not, Option, none, some, if◌then◌else◌, is_some,
  subst, Bool-cases, Option-cases, inl, inr, arith,
}
use pixelflow.Sidecar.EventStore.{create_or_get, get_by_request, cancel, find_run}
use pixelflow.Sidecar.Rows.{is_accepted, RunRow, Store, RunRequest, SkillSnapshot}

abbrev pub Pending : Type 0
Pending = RunRequest × SkillSnapshot

-- What `asyncio.create_task` returns.
pub record Task : Type 0 where
  pub number : ℕ
  pub request : Pending

pub record Service : Type 0 where
  pub store : Store
  pub tasks : Dict Task
  pub pending : Dict Pending
  pub created : ℕ

abbrev pub new_task : Pending → Service → Service × Task
new_task request s =
    (record s { created = s.created + 1 }, record { number = s.created; request = request })

module _ (sha256_hex : String → String) where
  abbrev pub remember :
      RunRequest
      → SkillSnapshot
      → Service
      → Result (RunRow × Bool) × Store
      → Result RunRow × Service
  remember request snapshot s (err e, store) = (err e, record s { store = store })
  remember request snapshot s (ok (row, false), store) = (ok row, record s { store = store })
  remember request snapshot s (ok (row, true), store) =
      (ok row, record s { store = store; pending = put row.run_id (request, snapshot) s.pending })

  unfoldable pub create_new :
      RunRequest
      → String
      → String
      → Result SkillSnapshot
      → ℕ
      → ℕ
      → Service
      → Result RunRow × Service
  create_new request engine_id engine_version (err e) accepted_at now s = (err e, s)
  create_new request engine_id engine_version (ok snapshot) accepted_at now s =
      remember request snapshot s
        (create_or_get sha256_hex request engine_id engine_version snapshot accepted_at now s.store)

  unfoldable pub create_or_existing :
      Result (Option RunRow)
      → (Service → Result RunRow × Service)
      → Service
      → Result RunRow × Service
  create_or_existing (err e) create s = (err e, s)
  create_or_existing (ok (some row)) create s = (ok row, s)
  create_or_existing (ok none) create s = create s

  -- `create_run`
  unfoldable pub create_run :
      RunRequest
      → Result (Unit {0})
      → String
      → String
      → Result SkillSnapshot
      → ℕ
      → ℕ
      → Service
      → Result RunRow × Service
  unfolding create_or_existing create_new get_by_request
  create_run request (err e) engine_id engine_version snapshot accepted_at now s = (err e, s)
  create_run request (ok valid) engine_id engine_version snapshot accepted_at now s =
      create_or_existing (get_by_request request s.store)
        (create_new request engine_id engine_version snapshot accepted_at now) s

  unfoldable pub cancelled_answer :
      String → Result (Option RunRow) → Service → Result (Option RunRow) × Service
  cancelled_answer run_id (err e) s = (err e, s)
  cancelled_answer run_id (ok none) s = (ok none, s)
  cancelled_answer run_id (ok (some row)) s =
      (ok (some row), record s { pending = pop run_id s.pending })

  -- `cancel_run`; the cancellation of the task reaches it at its next step.
  unfoldable pub cancel_run : String → ℕ → ℕ → Service → Result (Option RunRow) × Service
  unfolding cancelled_answer cancel
  cancel_run run_id completed_at now s =
      let (r, store) = cancel sha256_hex run_id completed_at now s.store in
      cancelled_answer run_id r (record s { store = store })

unfoldable pub schedule :
    String → RunRow → Option Pending → Service → Result (Option RunRow) × Service
schedule run_id row none s = (err runtime_error, s)
schedule run_id row (some request) s =
    let (s', task) = new_task request s in
    (ok (some row), record s' { tasks = put run_id task s'.tasks })

unfoldable pub activate_found : String → Option RunRow → Service → Result (Option RunRow) × Service
unfolding schedule
activate_found run_id none s = (ok none, s)
activate_found run_id (some row) s =
    if not (is_accepted row.status) || is_some (get run_id s.tasks)
    then (ok (some row), s)
    else schedule run_id row (get run_id s.pending) s

-- `activate_run`
unfoldable pub activate_run : String → Service → Result (Option RunRow) × Service
unfolding activate_found
activate_run run_id s = activate_found run_id (find_run run_id s.store) s

-- The `finally` clause of `_execute`.
unfoldable pub end_task : String → Service → Service
end_task run_id s = record s { tasks = pop run_id s.tasks; pending = pop run_id s.pending }

or_true : (b : Bool) → (b || true) ≡ true
or_true b = ground arith

-- An activation leaves the store as it is.
activate_found-store :
    (run_id : String) (found : Option RunRow) (s t : Service) (answer : Option RunRow)
    → activate_found run_id found s ≡ (ok answer, t)
    → s.store ≡ t.store
unfolding activate_found schedule
activate_found-store run_id none s t answer = λ h. ap (λ p. p.1.store) h
activate_found-store run_id (some row) s t answer =
    elim (Bool-cases (not (is_accepted row.status) || is_some (get run_id s.tasks))) [
      | inl b ↦ rw b λ h. ap (λ p. p.1.store) h
      | inr b ↦ elim (Option-cases (get run_id s.pending)) [
        | inl e ↦ rw (b, e) λ h. absurd (cc)
        | inr (request, e) ↦ rw (b, e) λ h. ap (λ p. p.1.store) h
      ]
    ]

activate_found_twice :
    (run_id : String) (found : Option RunRow) (s t : Service) (answer : Option RunRow)
    → activate_found run_id found s ≡ (ok answer, t)
    → activate_found run_id found t ≡ (ok answer, t)
unfolding activate_found schedule
activate_found_twice run_id none s t answer = λ h.
    let same : s ≡ t = ap (λ p. p.1) h in
    subst (λ u. activate_found run_id none u ≡ (ok answer, t)) same h
activate_found_twice run_id (some row) s t answer =
    elim (Bool-cases (not (is_accepted row.status) || is_some (get run_id s.tasks))) [
      | inl b ↦ rw b λ h.
          let same : s ≡ t = ap (λ p. p.1) h in
          subst (λ u. activate_found run_id (some row) u ≡ (ok answer, t)) same (rw b h)
      | inr b ↦ elim (Option-cases (get run_id s.pending)) [
        | inl e ↦ rw (b, e) λ h. absurd (cc)
        | inr (request, e) ↦
            rw (b, e)
              λ h.
                let (s', task) = new_task request s in
                let same : (record s' { tasks = put run_id task s'.tasks }) ≡ t = ap (λ p. p.1) h in
                subst (λ u. activate_found run_id (some row) u ≡ (ok answer, t)) same
                  (rw (get-put_self run_id task s.tasks, or_true (not (is_accepted row.status))) h)
      ]
    ]

-- If an activation returns, the same activation again returns the same and leaves the store, the
-- table of tasks and the number of tasks ever created as they are: no second task is created for the
-- run, nor put in the place of the first.
pub activate_run_twice :
    (run_id : String) (s t : Service) (answer : Option RunRow)
    → activate_run run_id s ≡ (ok answer, t)
    → activate_run run_id t ≡ (ok answer, t)
unfolding activate_run
activate_run_twice run_id s t answer h =
    let same = activate_found-store run_id (find_run run_id s.store) s t answer h in
    subst (λ u. activate_found run_id (find_run run_id u) t ≡ (ok answer, t)) same
      (activate_found_twice run_id (find_run run_id s.store) s t answer h)
