-- ===== src/Sidecar/RunService/Settling.antt =====
-- How an execution leaves its run: neither accepted nor running, whatever the engine replies.
use pixelflow.Base.Exec.{Exec, pure, continue, ◌>>=◌}
use pixelflow.Base.Json.{Fields}
use pixelflow.Base.Results.{Result, ok, err}
use pixelflow.Base.{
  ℕ, String, ◌≡◌, refl, ap, ◌∙◌, Bool, true, ◌||◌, not, ◌+◌, Option, none, some, List, [], ◌∷◌,
  Bool-cases, Option-cases, inl, inr, ◌==◌, find, arith, any,
}
use pixelflow.Sidecar.EventStore.{
  update_run, append_locked, event_id_of, find_run, transition, transition_found, moved_to,
  max_sequence, of_run,
}
use pixelflow.Sidecar.RunService.{
  append_event, move_to, append_result, suspend_as, Suspension, operation, confirmation,
  authorization, suspended_status, suspended_reason, suspended_payload, finish_with,
}
use pixelflow.Sidecar.Rows.{RunStatus, is_accepted, is_running, TerminationReason, RunRow, Store}

-- The run is not there, or is neither accepted nor running.
abbrev pub is_settled : Option RunRow → Bool
is_settled none = true
is_settled (some row) = not (is_accepted row.status || is_running row.status)

abbrev pub IsSettled : String → Store → Type 0
IsSettled run_id s = is_settled (find_run run_id s) ≡ true

-- The run is not there, or is no longer accepted.
abbrev pub is_begun : Option RunRow → Bool
is_begun none = true
is_begun (some row) = not (is_accepted row.status)

abbrev pub updated : (RunRow → RunRow) → Option RunRow → Option RunRow
updated f none = none
updated f (some row) = some (f row)

-- After an update that keeps the identifiers, the run is the old one updated.
pub find-update_run :
    (run_id : String) (f : RunRow → RunRow) (rows : List RunRow)
    → ((r : RunRow) → (f r).run_id ≡ r.run_id)
    → find (λ r. r.run_id == run_id) (update_run run_id f rows)
      ≡ updated f (find (λ r. r.run_id == run_id) rows)
unfolding update_run
find-update_run run_id f [] k = refl
find-update_run run_id f (r ∷ rs) k = elim (Bool-cases (r.run_id == run_id)) [
  | inl t ↦
      let same : ((f r).run_id == run_id) ≡ true = ap (λ i. i == run_id) (k r) ∙ t in
      rw (t, same) refl
  | inr t ↦ ground (arith, t, find-update_run run_id f rs k)
]

module _ (sha256_hex : String → String) (clock : Store → ℕ) (run_id : String) where
  pub append_locked-runs :
      (i event_type : String) (payload : Fields) (now : ℕ) (s : Store)
      → (append_locked sha256_hex i event_type payload now s).1.runs ≡ s.runs
  unfolding append_locked
  append_locked-runs i event_type payload now s = elim (Bool-cases taken) [
    | inl t ↦ rw t refl
    | inr t ↦ rw t refl
  ]
    where
      taken : Bool
      taken =
          any (λ e. e.event_id == event_id_of sha256_hex i (max_sequence (of_run i s.events) + 1))
            s.events

  -- A predicate on the run that an event does not change.
  module _ (test : Option RunRow → Bool) where
    abbrev pub Holds : Store → Type 0
    Holds s = test (find_run run_id s) ≡ true

    pub append_event-Holds :
        (event_type : String) (payload : Fields) (s : Store)
        → Holds s
        → Holds (append_event sha256_hex clock run_id event_type payload s).1
    unfolding append_event
    append_event-Holds event_type payload s h =
        rw (append_locked-runs run_id event_type payload (clock s) s) h

    pub bind-Holds :
        {A B : Type 0} (m : Exec Store A) (f : A → Exec Store B) (s : Store)
        → Holds (m s).1
        → ((a : A) (t : Store) → Holds t → Holds (f a t).1)
        → Holds ((m >>= f) s).1
    unfolding ◌>>=◌
    bind-Holds {A} {B} m f s g h = go (m s).0 (m s).1 g
      where
        go : (r : Result A) (t : Store) → Holds t → Holds (continue r f t).1
        go (ok a) t g' = h a t g'
        go (err e) t g' = g'

  -- If the action returns, the run is settled.
  abbrev pub IsEnded : {A : Type 0} → Result A → Store → Type 0
  IsEnded (ok a) s = IsSettled run_id s
  IsEnded (err e) s = Unit

  abbrev pub Ends : {A : Type 0} → Exec Store A → Type 0
  Ends m = (s : Store) → IsEnded (m s).0 (m s).1

  pub IsEnded-of_IsSettled :
      {A : Type 0} (r : Result A) (s : Store) → IsSettled run_id s → IsEnded r s
  IsEnded-of_IsSettled (ok a) s h = h
  IsEnded-of_IsSettled (err e) s h = tt

  pub bind-Ends :
      {A B : Type 0} (m : Exec Store A) (f : A → Exec Store B)
      → ((a : A) → Ends (f a))
      → Ends (m >>= f)
  unfolding ◌>>=◌
  bind-Ends {A} {B} m f h s = go (m s).0 (m s).1
    where
      go : (r : Result A) (t : Store) → IsEnded (continue r f t).0 (continue r f t).1
      go (ok a) t = h a t
      go (err e) t = tt

  pub move_to-IsSettled :
      (status : RunStatus) (reason : TerminationReason) (s : Store)
      → not (is_accepted status || is_running status) ≡ true
      → IsSettled run_id (move_to sha256_hex clock run_id status reason s).1
  unfolding move_to transition transition_found
  move_to-IsSettled status reason s h = elim (Option-cases (find_run run_id s)) [
    | inl e ↦ rw e (ap is_settled e)
    | inr (row, e) ↦ rw e (
        ap is_settled (
          find-update_run run_id (moved_to status (some reason) (clock s)) s.runs (λ _. refl)
          ∙ ap (updated (moved_to status (some reason) (clock s))) e)
        ∙ h)
  ]

  pub finish_with-IsSettled :
      (status : RunStatus) (reason : TerminationReason) (event_type : String) (payload : Fields)
      (s : Store)
      → not (is_accepted status || is_running status) ≡ true
      → IsSettled run_id (finish_with sha256_hex clock run_id status reason event_type payload s).1
  unfolding finish_with
  finish_with-IsSettled status reason event_type payload s h =
      bind-Holds is_settled (move_to sha256_hex clock run_id status reason)
        (λ _. append_event sha256_hex clock run_id event_type payload >>= λ _. pure tt) s
        (move_to-IsSettled status reason s h)
        λ _ t g.
          bind-Holds is_settled (append_event sha256_hex clock run_id event_type payload)
            (λ _. pure tt) t (append_event-Holds is_settled event_type payload t g) λ _ _ k. k

  append_result-IsSettled :
      (payload : Result Fields) (s : Store)
      → IsSettled run_id s
      → IsSettled run_id (append_result sha256_hex clock run_id payload s).1
  unfolding append_result
  append_result-IsSettled (err e) s h = h
  append_result-IsSettled (ok payload) s h =
      bind-Holds is_settled (append_event sha256_hex clock run_id "run.suspended" payload)
        (λ _. pure tt) s (append_event-Holds is_settled "run.suspended" payload s h) λ _ _ k. k

  suspended_status-is_settled :
      (kind : Suspension)
      → not (is_accepted (suspended_status kind) || is_running (suspended_status kind)) ≡ true
  suspended_status-is_settled operation = refl
  suspended_status-is_settled confirmation = refl
  suspended_status-is_settled authorization = refl

  pub suspend_as-Ends :
      (kind : Option Suspension) (interrupt_id : Option String)
      → Ends (suspend_as sha256_hex clock run_id kind interrupt_id)
  unfolding suspend_as
  suspend_as-Ends none interrupt_id s = tt
  suspend_as-Ends (some kind) interrupt_id s = IsEnded-of_IsSettled _ _ (
      bind-Holds is_settled
        (move_to sha256_hex clock run_id (suspended_status kind) (suspended_reason kind))
        (λ _.
          append_result sha256_hex clock run_id
            (suspended_payload sha256_hex clock run_id kind interrupt_id))
        s
        (move_to-IsSettled (suspended_status kind) (suspended_reason kind) s
          (suspended_status-is_settled kind))
        λ _ t g. append_result-IsSettled _ t g)
