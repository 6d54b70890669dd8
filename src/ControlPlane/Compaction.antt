-- ===== src/ControlPlane/Compaction.antt =====
-- `MemoryCompactionQueueRepository` of
-- backend/pixelflow/agent_control_plane/persistence/compaction_queue.py: while the context of a
-- conversation is compacted under a lease, its new turns wait in a queue. The lock makes each method
-- one step. The token of a new lease, a random one, is an argument.
use pixelflow.Base.Dict.{Dict, get, put, put_all, values}
use pixelflow.Base.Exec.{Exec, continue}
use pixelflow.Base.Results.{Result, ok, value_error, conflict, guard, ◌>>=◌, ◌>>◌}
use pixelflow.Base.{
  ℕ, String, Bool, true, false, ◌||◌, Option, none, some, List, map, ltb, ◌==◌, if◌then◌else◌,
  is_some, filter, any,
}
use pixelflow.ControlPlane.Turns
use pixelflow.ControlPlane.Turns.{
  TurnStatus, accepted, queued, processing, completed, is_processing, is_pending, TurnRecord,
  TurnEntry, TurnStore, require_text, normalize_turn, set_status, store, insert_turn,
  enqueue_normalized, belongs, active_entries, has_processing, claim_first, returning, owned_by,
}

-- `ConversationCompactionLease`
pub record Lease : Type 0 where
  pub conversation_id : String
  pub lease_owner : String
  pub lease_token : String
  pub lease_expires_at : ℕ

-- What `_compaction_leases` holds of a conversation: the user and the lease.
pub record LeaseState : Type 0 where
  pub user : String
  pub lease : Lease

-- The attributes of the class it extends, and its own.
pub record Queue : Type 0 where
  pub repository : TurnStore
  pub compaction_leases : Dict LeaseState

-- A method of the class that it extends.
abbrev pub super {ℓ} : {A : Type ℓ} → (TurnStore → A × TurnStore) → Queue → A × Queue
super method q = let (a, s) = method q.repository in (a, record q { repository = s })

abbrev pub set_lease : String → LeaseState → Queue → Queue
set_lease conversation state q = record q {
  compaction_leases = put conversation state q.compaction_leases;
}

abbrev pub lease_of : String → Queue → Option LeaseState
lease_of conversation q = get conversation q.compaction_leases

unfoldable pub lease_parameters : String → ℕ → ℕ → Result String
unfolding require_text
lease_parameters lease_owner now lease_expires_at = require_text lease_owner 128 >>= λ worker.
    guard (ltb now lease_expires_at) value_error >> ok worker

-- Under a lease of the owner a pending turn is stored as queued; under another's lease, and for a
-- turn that is not pending, there is a conflict.
unfoldable pub stored_under : String → TurnRecord → Option LeaseState → Result TurnRecord
stored_under owner normalized none = ok normalized
stored_under owner normalized (some state) =
    guard (state.user == owner) conflict
    >> guard (is_pending normalized.status) conflict
    >> ok (set_status queued normalized)

unfoldable pub create_turn : String → TurnRecord → Exec Queue TurnRecord
unfolding require_text normalize_turn stored_under insert_turn
create_turn user_id record' = continue (require_text user_id 64) (λ owner.
    continue (normalize_turn record') (λ normalized q.
      continue (stored_under owner normalized (lease_of normalized.conversation_id q))
        (λ stored. super (insert_turn owner stored)) q))

unfoldable pub enqueue_turn : String → TurnRecord → Exec Queue TurnRecord
unfolding require_text normalize_turn stored_under enqueue_normalized
enqueue_turn user_id record' = continue (require_text user_id 64) (λ owner.
    continue (normalize_turn record') (λ normalized q.
      continue (stored_under owner normalized (lease_of normalized.conversation_id q))
        (λ stored. super (enqueue_normalized owner stored)) q))

-- The turns of a conversation, in the order of the dictionary.
unfoldable pub entries_of : String → String → Queue → List TurnEntry
entries_of owner conversation q = filter (belongs owner conversation) (values q.repository.turns)

abbrev pub is_accepted : TurnStatus → Bool
is_accepted accepted = true
is_accepted _ = false

abbrev pub queue_entry : TurnEntry → TurnEntry
queue_entry e = record e { turn = set_status queued e.turn }

-- The loop over the turns of the conversation: what is accepted becomes queued.
unfoldable pub queue_accepted : List TurnEntry → TurnStore → TurnStore
queue_accepted entries s = record s {
  turns =
      put_all (λ e. e.turn.turn_id)
        (map queue_entry (filter (λ e. is_accepted e.turn.status) entries)) s.turns;
}

-- The lease in place keeps this user, or any other, from taking one.
unfoldable pub is_refused : String → ℕ → Option LeaseState → Result Bool
is_refused owner now none = ok false
is_refused owner now (some state) =
    guard (state.user == owner) conflict >> ok (ltb now state.lease.lease_expires_at)

abbrev pub grant : String → String → String → String → ℕ → Queue → Result (Option Lease) × Queue
grant owner conversation worker token lease_expires_at q =
    let lease : Lease = record {
      conversation_id = conversation;
      lease_owner = worker;
      lease_token = token;
      lease_expires_at = lease_expires_at;
    } in
    (
      ok (some lease),
      set_lease conversation (record { user = owner; lease = lease })
          (record q { repository = queue_accepted (entries_of owner conversation q) q.repository }),
    )

unfoldable pub acquire_compaction_lease :
    String → String → String → String → ℕ → ℕ → Exec Queue (Option Lease)
unfolding require_text lease_parameters is_refused entries_of queue_accepted
acquire_compaction_lease token user_id conversation_id lease_owner now lease_expires_at =
    continue (require_text user_id 64) (λ owner.
      continue (require_text conversation_id 64) (λ conversation.
        continue (lease_parameters lease_owner now lease_expires_at) (λ worker q.
          continue (is_refused owner now (lease_of conversation q))
            (λ refused q'.
              if refused || has_processing (entries_of owner conversation q')
              then (ok none, q')
              else grant owner conversation worker token lease_expires_at q')
            q)))

abbrev pub visible_lease : String → Option LeaseState → Option Lease
visible_lease owner none = none
visible_lease owner (some state) = if state.user == owner then some state.lease else none

unfoldable pub get_compaction_lease : String → String → Queue → Result (Option Lease)
unfolding require_text
get_compaction_lease user_id conversation_id q = require_text user_id 64 >>= λ owner.
    require_text conversation_id 64 >>= λ conversation.
    ok (visible_lease owner (lease_of conversation q))

unfoldable pub execution_turn : TurnRecord → Result TurnRecord
unfolding normalize_turn
execution_turn record' = normalize_turn record' >>= λ normalized.
    guard (is_pending normalized.status) value_error >> ok normalized

abbrev pub is_open_to : String → Option LeaseState → Bool
is_open_to owner none = true
is_open_to owner (some state) = state.user == owner

abbrev pub is_executing : TurnEntry → Bool
is_executing e = is_accepted e.turn.status || is_processing e.turn.status

abbrev pub execution_status : Bool → TurnStatus
execution_status true = queued
execution_status false = accepted

unfoldable pub enqueue_turn_for_execution : String → TurnRecord → Exec Queue TurnRecord
unfolding require_text execution_turn entries_of enqueue_normalized
enqueue_turn_for_execution user_id record' = continue (require_text user_id 64) (λ owner.
    continue (execution_turn record') (λ normalized q.
      let state = lease_of normalized.conversation_id q in
      let has_execution_owner = any is_executing (entries_of owner normalized.conversation_id q) in
      continue (guard (is_open_to owner state) conflict)
        (λ done. super (
          enqueue_normalized owner
            (set_status (execution_status (is_some state || has_execution_owner)) normalized)))
        q))

unfoldable pub claim_next_turn : String → String → Exec Queue (Option TurnRecord)
unfolding require_text Turns.claim_next_turn
claim_next_turn user_id conversation_id =
    continue (require_text conversation_id 64) (λ conversation q.
      if is_some (lease_of conversation q)
      then (ok none, q)
      else super (Turns.claim_next_turn user_id conversation) q)
