-- ===== src/ControlPlane/Events.antt =====
-- The events of `MemoryAgentRuntimeRepository`, of
-- backend/pixelflow/agent_control_plane/persistence/repositories.py, with the state of their
-- delivery. No event is ever removed: so `_events`, `_event_ids`, `_event_sequence_keys`,
-- `_event_cursor_keys` and `_event_delivery` are one dictionary by `event_id`. The lock makes each
-- method one step. The owners of the conversation's workflows, turns and summaries are an
-- argument, which Repository supplies.
use pixelflow.Base.Dict.{Dict, get, put, values}
use pixelflow.Base.Exec.{Exec, continue}
use pixelflow.Base.Json.{Fields}
use pixelflow.Base.Results.{Result, ok, err, value_error, conflict, guard, ◌>>=◌, ◌>>◌}
use pixelflow.Base.Sorting.{sort}
use pixelflow.Base.{
  ℕ, ◌+◌, String, Bool, true, false, ◌&&◌, ◌||◌, not, Option, none, some, List, [], ◌∷◌, map, ltb,
  leb, nat_beq, ◌==◌, if◌then◌else◌, is_some, filter, find, any, take, text_leb,
}
use pixelflow.ControlPlane.Turns.{require_text}

-- `AgentEvent`
pub record AgentEvent : Type 0 where
  pub event_id : String
  pub sequence : ℕ
  pub cursor : String
  pub conversation_id : String
  pub run_id : String
  pub occurred_at : ℕ
  pub type : String
  pub payload : Fields

pub data DeliveryStatus : Type 0 where
  pending delivering published : DeliveryStatus

-- An event under its owner, with its `_MemoryEventDeliveryState`.
pub record EventEntry : Type 0 where
  pub owner : String
  pub event : AgentEvent
  pub status : DeliveryStatus
  pub delivery_attempts : ℕ
  pub lease_owner : Option String
  pub lease_expires_at : Option ℕ
  pub published_at : Option ℕ

abbrev pub Events : Type 0
Events = Dict EventEntry

abbrev pub is_published : DeliveryStatus → Bool
is_published published = true
is_published _ = false

abbrev pub is_delivering : DeliveryStatus → Bool
is_delivering delivering = true
is_delivering _ = false

unfoldable pub normalize_event : AgentEvent → Result AgentEvent
unfolding require_text
normalize_event record' = require_text record'.event_id 64 >>= λ event_id.
    require_text record'.cursor 128 >>= λ cursor.
    require_text record'.conversation_id 64 >>= λ conversation_id.
    require_text record'.run_id 64 >>= λ run_id. ok (record record' {
      event_id = event_id;
      cursor = cursor;
      conversation_id = conversation_id;
      run_id = run_id;
    })

-- The events of a conversation, of any owner.
unfoldable pub of_conversation : String → Events → List EventEntry
of_conversation conversation s = filter (λ e. e.event.conversation_id == conversation) (values s)

unfoldable pub max_sequence : List EventEntry → ℕ
max_sequence [] = 0
max_sequence (e ∷ es) =
    let rest = max_sequence es in if ltb rest e.event.sequence then e.event.sequence else rest

-- 1, or one more than the greatest sequence.
abbrev pub expected_sequence : List EventEntry → ℕ
expected_sequence es = max_sequence es + 1

abbrev pub is_foreign : String → EventEntry → Bool
is_foreign owner e = not (e.owner == owner)

-- The identifier is in use, or the sequence or the cursor in the conversation.
unfoldable pub is_taken : AgentEvent → Events → Bool
unfolding of_conversation
is_taken event s =
    is_some (get event.event_id s)
    || any (λ e. nat_beq e.event.sequence event.sequence) (of_conversation event.conversation_id s)
    || any (λ e. e.event.cursor == event.cursor) (of_conversation event.conversation_id s)

abbrev pub new_entry : String → AgentEvent → EventEntry
new_entry owner event = record {
  owner = owner;
  event = event;
  status = pending;
  delivery_attempts = 0;
  lease_owner = none;
  lease_expires_at = none;
  published_at = none;
}

-- A sequence that was read before another event was appended is replaced by the one expected.
abbrev pub with_sequence : ℕ → AgentEvent → AgentEvent
with_sequence expected event =
    if ltb event.sequence expected then record event { sequence = expected } else event

unfoldable pub append_new : String → AgentEvent → Exec Events AgentEvent
unfolding is_taken
append_new owner event s =
    if is_taken event s
    then (err conflict, s)
    else (ok event, put event.event_id (new_entry owner event) s)

unfoldable pub append_event : List String → String → AgentEvent → Exec Events AgentEvent
unfolding of_conversation max_sequence append_new
append_event other_owners owner normalized s =
    let records = of_conversation normalized.conversation_id s in
    let expected = expected_sequence records in
    if any (λ o. not (o == owner)) other_owners || any (is_foreign owner) records
    then (err conflict, s)
    else if ltb expected normalized.sequence
    then (err conflict, s)
    else append_new owner (with_sequence expected normalized) s

unfoldable pub create_event : (String → List String) → String → AgentEvent → Exec Events AgentEvent
unfolding require_text normalize_event append_event
create_event owners_of user_id record' = continue (require_text user_id 64) (λ owner.
    continue (normalize_event record')
      (λ normalized. append_event (owners_of normalized.conversation_id) owner normalized))

abbrev pub owned_by : String → Option EventEntry → Option EventEntry
owned_by owner none = none
owned_by owner (some entry) = if entry.owner == owner then some entry else none

abbrev pub event_of : Option EventEntry → Option AgentEvent
event_of none = none
event_of (some entry) = some entry.event

unfoldable pub get_event : String → String → Events → Result (Option AgentEvent)
unfolding require_text
get_event user_id event_id s = require_text user_id 64 >>= λ owner.
    require_text event_id 64 >>= λ id. ok (event_of (owned_by owner (get id s)))

abbrev pub belongs : String → String → EventEntry → Bool
belongs owner conversation e = e.owner == owner && e.event.conversation_id == conversation

-- By `sequence`, then by `event_id`.
unfoldable pub comes_before : EventEntry → EventEntry → Bool
comes_before a b =
    ltb a.event.sequence b.event.sequence
    || nat_beq a.event.sequence b.event.sequence && text_leb a.event.event_id b.event.event_id

unfoldable pub ordered_events : String → String → Events → List AgentEvent
unfolding comes_before
ordered_events owner conversation s =
    map (λ e. e.event) (sort comes_before (filter (belongs owner conversation) (values s)))

unfoldable pub list_events : String → String → Events → Result (List AgentEvent)
unfolding require_text ordered_events
list_events user_id conversation_id s = require_text user_id 64 >>= λ owner.
    require_text conversation_id 64 >>= λ conversation. ok (ordered_events owner conversation s)

-- `max(records, key=…)`: of equal ones the first.
abbrev pub greater : EventEntry → Option EventEntry → EventEntry
greater e none = e
greater e (some m) = if comes_before m e then e else m

unfoldable pub latest : List EventEntry → Option EventEntry
unfolding comes_before
latest [] = none
latest (e ∷ es) = some (greater e (latest es))

unfoldable pub get_latest_event : String → String → Events → Result (Option AgentEvent)
unfolding require_text latest
get_latest_event user_id conversation_id s = require_text user_id 64 >>= λ owner.
    require_text conversation_id 64 >>= λ conversation.
    ok (event_of (latest (filter (belongs owner conversation) (values s))))

-- What follows the event of the cursor, or none if there is no such event.
abbrev pub after_anchor : ℕ → List AgentEvent → Option AgentEvent → Option (List AgentEvent)
after_anchor page_size records none = none
after_anchor page_size records (some anchor) =
    some (take page_size (filter (λ e. ltb anchor.sequence e.sequence) records))

unfoldable pub page_after : ℕ → Option String → List AgentEvent → Result (Option (List AgentEvent))
unfolding require_text
page_after page_size none records = ok (some (take page_size records))
page_after page_size (some cursor) records = require_text cursor 128 >>= λ normalized.
    ok (after_anchor page_size records (find (λ e. e.cursor == normalized) records))

unfoldable pub list_events_after_cursor :
    String → String → Option String → ℕ → Events → Result (Option (List AgentEvent))
unfolding require_text ordered_events page_after
list_events_after_cursor user_id conversation_id cursor limit s =
    require_text user_id 64 >>= λ owner. require_text conversation_id 64 >>= λ conversation.
    guard (leb 1 limit && leb limit 1000) value_error
    >> page_after limit cursor (ordered_events owner conversation s)
