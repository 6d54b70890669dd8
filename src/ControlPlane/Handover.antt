-- ===== src/ControlPlane/Handover.antt =====
-- The rest of `MemoryCompactionQueueRepository`: a turn is completed or a compaction finished, and
-- the next turn taken up.
use pixelflow.Base.Dict.{get, pop}
use pixelflow.Base.Exec.{Exec, continue}
use pixelflow.Base.Results.{Result, ok, err, value_error, conflict, guard, ◌>>=◌, ◌>>◌}
use pixelflow.Base.Sorting.{sort}
use pixelflow.Base.{
  ℕ, String, Bool, true, false, ◌&&◌, ◌||◌, not, Option, none, some, List, ltb, nat_beq, ◌==◌,
  if◌then◌else◌, is_some, filter, any, text_leb,
}
use pixelflow.ControlPlane.Turns.{
  TurnStatus, accepted, processing, completed, is_processing, is_pending, TurnRecord, TurnEntry,
  require_text, set_status, store, active_entries, has_processing, claim_first, returning, owned_by,
}
use pixelflow.ControlPlane.Compaction.{LeaseState, Queue, super, set_lease, lease_of, entries_of}

-- `current.status in {ACCEPTED, PROCESSING, COMPLETED}`
abbrev pub may_complete : TurnStatus → Bool
may_complete accepted = true
may_complete processing = true
may_complete completed = true
may_complete _ = false

-- The turn to complete: of this user and of this conversation, in a status from which it may.
unfoldable pub completable : String → Option TurnEntry → Result TurnEntry
completable conversation none = err conflict
completable conversation (some current) =
    guard (current.turn.conversation_id == conversation) conflict
    >> guard (may_complete current.turn.status) conflict
    >> ok current

-- By `created_at`, then by `turn_id`.
unfoldable pub created_before : TurnEntry → TurnEntry → Bool
created_before a b =
    ltb a.turn.created_at b.turn.created_at
    || nat_beq a.turn.created_at b.turn.created_at && text_leb a.turn.turn_id b.turn.turn_id

abbrev pub other_processing : String → TurnEntry → Bool
other_processing turn_id e = not (e.turn.turn_id == turn_id) && is_processing e.turn.status

unfoldable pub next_candidates : String → String → Queue → List TurnEntry
unfolding created_before entries_of
next_candidates owner conversation q =
    sort created_before (filter (λ e. is_pending e.turn.status) (entries_of owner conversation q))

abbrev pub complete_entry : TurnEntry → Queue → Queue
complete_entry current q = record q {
  repository = store (record current { turn = set_status completed current.turn }) q.repository;
}

-- What follows once the turn is completed.
unfoldable pub claim_after : String → String → String → Queue → Option TurnRecord × Queue
unfolding next_candidates entries_of
claim_after owner conversation turn_id q =
    if is_some (lease_of conversation q)
      || any (other_processing turn_id) (entries_of owner conversation q)
    then (none, q)
    else super (claim_first (next_candidates owner conversation q)) q

abbrev pub with_completed :
    TurnRecord → Option TurnRecord × Queue → Result (TurnRecord × Option TurnRecord) × Queue
with_completed turn (next, q) = (ok (set_status completed turn, next), q)

unfoldable pub complete_turn_and_claim_next :
    String → String → String → Exec Queue (TurnRecord × Option TurnRecord)
unfolding require_text completable claim_after
complete_turn_and_claim_next user_id conversation_id turn_id =
    continue (require_text user_id 64) (λ owner.
      continue (require_text conversation_id 64) (λ conversation.
        continue (require_text turn_id 64) (λ id q.
          continue (completable conversation (owned_by owner (get id q.repository.turns)))
            (λ current q'.
              with_completed current.turn
                (claim_after owner conversation id (complete_entry current q')))
            q)))

-- `claim_next` and `retry_not_before` exclude each other.
abbrev pub retry_time : ℕ → Bool → Option ℕ → Result (Option ℕ)
retry_time now true none = ok none
retry_time now true (some retry_not_before) = err value_error
retry_time now false none = err value_error
retry_time now false (some retry_not_before) =
    guard (ltb now retry_not_before) value_error >> ok (some retry_not_before)

unfoldable pub finish_parameters : String → ℕ → Bool → Option ℕ → Result (String × Option ℕ)
unfolding require_text
finish_parameters lease_owner now claim_next retry_not_before =
    require_text lease_owner 128 >>= λ worker.
    retry_time now claim_next retry_not_before >>= λ retry. ok (worker, retry)

-- The lease in place is this user's, this worker's, under this token, and not expired.
unfoldable pub holds : String → String → String → ℕ → LeaseState → Bool
holds owner worker token now state =
    state.user == owner
    && state.lease.lease_owner == worker
    && state.lease.lease_token == token
    && ltb now state.lease.lease_expires_at

abbrev pub held : String → String → String → ℕ → Option LeaseState → Result LeaseState
held owner worker token now none = err conflict
held owner worker token now (some state) =
    if holds owner worker token now state then ok state else err conflict

abbrev pub with_expiry : ℕ → LeaseState → LeaseState
with_expiry time state = record state { lease = record state.lease { lease_expires_at = time } }

-- The lease is kept until the retry, or given up and the first pending turn taken up.
unfoldable pub settle_lease :
    String → String → LeaseState → Option ℕ → Queue → Option TurnRecord × Queue
unfolding active_entries
settle_lease owner conversation state (some retry) q =
    (none, set_lease conversation (with_expiry retry state) q)
settle_lease owner conversation state none q =
    let entries = active_entries owner conversation q.repository in
    super (claim_first (filter (λ e. is_pending e.turn.status) entries))
      (record q { compaction_leases = pop conversation q.compaction_leases })

-- The checks of both ways to finish: the lease is held, and nothing runs where a turn is to be
-- taken up.
unfoldable pub check_finish :
    String → String → String → String → ℕ → Bool → Queue → Result LeaseState
unfolding holds active_entries
check_finish owner conversation worker token now claim_next q =
    held owner worker token now (lease_of conversation q) >>= λ state.
    guard (not (claim_next && has_processing (active_entries owner conversation q.repository)))
      conflict
    >> ok state

unfoldable pub finish_compaction :
    String → String → String → String → ℕ → Bool → Option ℕ → Exec Queue (Option TurnRecord)
unfolding require_text finish_parameters check_finish settle_lease
finish_compaction user_id conversation_id lease_owner lease_token now claim_next retry_not_before =
    continue (require_text user_id 64) (λ owner.
      continue (require_text conversation_id 64) (λ conversation.
        continue (finish_parameters lease_owner now claim_next retry_not_before) (λ parameters q.
          let (worker, retry) = parameters in
          continue (check_finish owner conversation worker lease_token now claim_next q)
            (λ state q'. returning (settle_lease owner conversation state retry q')) q)))
