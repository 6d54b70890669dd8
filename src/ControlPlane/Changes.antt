-- ===== src/ControlPlane/Changes.antt =====
-- What the methods do to the queue, as changes of one turn or one lease, and what each change keeps:
-- one turn at a time runs for a user in a conversation, and none while its context is compacted.
use pixelflow.Base.Dict.{get, pop, IsKeyed}
use pixelflow.Base.{◌+◌, String, ◌≡◌, ◌⊎◌, true, false, Option, none, some, List, [], ◌∷◌}
use pixelflow.ControlPlane.Turns.{
  processing, is_processing, is_pending, TurnEntry, set_status, store,
}
use pixelflow.ControlPlane.Compaction.{
  LeaseState, Queue, set_lease, lease_of, entries_of, queue_accepted, is_executing,
}
use pixelflow.ControlPlane.Handover.{may_complete, complete_entry}

abbrev pub id_of : TurnEntry → String
id_of e = e.turn.turn_id

abbrev pub turn_at : String → Queue → Option TurnEntry
turn_at id q = get id q.repository.turns

-- The user and the conversation of the entry.
abbrev pub IsOf : String → String → TurnEntry → Type 0
IsOf owner conversation e = (e.owner ≡ owner) × (e.turn.conversation_id ≡ conversation)

abbrev pub Runs : TurnEntry → Type 0
Runs e = is_processing e.turn.status ≡ true

-- No turn of the user in the conversation is processing, or is accepted or processing.
abbrev pub IsIdle : String → String → Queue → Type 0
IsIdle owner conversation q =
    (i : String) (e : TurnEntry)
    → turn_at i q ≡ some e
    → IsOf owner conversation e
    → is_processing e.turn.status ≡ false

abbrev pub IsWaiting : String → String → Queue → Type 0
IsWaiting owner conversation q =
    (i : String) (e : TurnEntry)
    → turn_at i q ≡ some e
    → IsOf owner conversation e
    → is_executing e ≡ false

-- Two turns that run for the same user in the same conversation are one.
abbrev pub IsExclusive : Queue → Type 0
IsExclusive q =
    (i j : String) (a b : TurnEntry)
    → turn_at i q ≡ some a
    → turn_at j q ≡ some b
    → Runs a
    → Runs b
    → IsOf a.owner a.turn.conversation_id b
    → i ≡ j

-- While a lease is held, no turn of its user in the conversation is accepted or processing.
abbrev pub IsFenced : Queue → Type 0
IsFenced q =
    (conversation : String) (state : LeaseState)
    → lease_of conversation q ≡ some state
    → IsWaiting state.user conversation q

pub record IsSound (q : Queue) : Type 0 where
  pub keyed : IsKeyed id_of q.repository.turns
  pub exclusive : IsExclusive q
  pub fenced : IsFenced q

pub data Change : Type 0 where
  added : TurnEntry → Change
  completing starting : TurnEntry → Change
  leased : (conversation : String) → LeaseState → Change
  extended : (conversation : String) → LeaseState → Change
  released : (conversation : String) → Change

abbrev pub started_entry : TurnEntry → TurnEntry
started_entry e = record e { turn = set_status processing e.turn }

unfoldable pub apply : Change → Queue → Queue
unfolding queue_accepted entries_of
apply (added e) q = record q {
  repository = record (store e q.repository) {
    next_turn_sequence = q.repository.next_turn_sequence + 1;
  };
}
apply (completing e) q = complete_entry e q
apply (starting e) q = record q { repository = store (started_entry e) q.repository }
apply (leased conversation state) q =
    set_lease conversation state
      (record q { repository = queue_accepted (entries_of state.user conversation q) q.repository })
apply (extended conversation state) q = set_lease conversation state q
apply (released conversation) q = record q {
  compaction_leases = pop conversation q.compaction_leases;
}

-- When a change is made.
abbrev pub IsAllowed : Change → Queue → Type 0
IsAllowed (added e) q =
    (turn_at (id_of e) q ≡ none)
    × (is_processing e.turn.status ≡ false)
    × ((lease_of e.turn.conversation_id q ≡ none) ⊎ (is_executing e ≡ false))
IsAllowed (completing e) q = (turn_at (id_of e) q ≡ some e) × (may_complete e.turn.status ≡ true)
IsAllowed (starting e) q =
    (turn_at (id_of e) q ≡ some e)
    × (is_pending e.turn.status ≡ true)
    × (lease_of e.turn.conversation_id q ≡ none)
    × IsIdle e.owner e.turn.conversation_id q
IsAllowed (leased conversation state) q = IsIdle state.user conversation q
IsAllowed (extended conversation state) q =
    (before : LeaseState) × (lease_of conversation q ≡ some before) × (before.user ≡ state.user)
IsAllowed (released conversation) q = Unit

unfoldable pub apply_all : List Change → Queue → Queue
unfolding apply
apply_all [] q = q
apply_all (c ∷ cs) q = apply_all cs (apply c q)

abbrev pub AreAllowed : List Change → Queue → Type 0
AreAllowed [] q = Unit
AreAllowed (c ∷ cs) q = IsAllowed c q × AreAllowed cs (apply c q)
