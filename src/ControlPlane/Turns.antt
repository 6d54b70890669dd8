-- ===== src/ControlPlane/Turns.antt =====
-- The turns of `MemoryAgentRuntimeRepository`, of
-- backend/pixelflow/agent_control_plane/persistence/repositories.py. A turn's identifier is taken
-- once for all owners, and no turn is ever removed: so `_turns`, `_turn_ids`,
-- `_turn_client_keys` and `_turn_owner_sequences` are one dictionary by `turn_id` with the owner and
-- the sequence in the entry. A time is a number, which no time zone changes; copies of records need
-- no counterpart.
use Prim.Native.String.{count}
use pixelflow.Base.Dict.{Dict, get, put, values}
use pixelflow.Base.Exec.{Exec, continue}
use pixelflow.Base.Results.{Result, ok, err, value_error, conflict, ◌>>=◌}
use pixelflow.Base.Sorting.{sort}
use pixelflow.Base.{
  ℕ, ◌+◌, String, Bool, true, false, ◌&&◌, ◌||◌, Option, none, some, List, [], ◌∷◌, map, ltb, leb,
  ◌==◌, if◌then◌else◌, is_some, is_empty, strip, filter, find, any,
}

pub data TurnStatus : Type 0 where
  accepted queued processing waiting_user completed failed : TurnStatus

abbrev pub is_processing : TurnStatus → Bool
is_processing processing = true
is_processing _ = false

-- `status in {ACCEPTED, QUEUED}`
abbrev pub is_pending : TurnStatus → Bool
is_pending accepted = true
is_pending queued = true
is_pending _ = false

-- `status in {ACCEPTED, QUEUED, PROCESSING}`
abbrev pub is_active : TurnStatus → Bool
is_active status = is_pending status || is_processing status

-- `TurnRecord`, with the text of its `client_input_id`.
pub record TurnRecord : Type 0 where
  pub turn_id : String
  pub conversation_id : String
  pub client_input_id : String
  pub status : TurnStatus
  pub target_workflow_id : Option String
  pub expected_context_version : ℕ
  pub created_at : ℕ

pub record TurnEntry : Type 0 where
  pub owner : String
  pub turn : TurnRecord
  pub owner_sequence : ℕ

pub record TurnStore : Type 0 where
  pub turns : Dict TurnEntry
  pub next_turn_sequence : ℕ

unfoldable pub require_text : String → ℕ → Result String
require_text value max_length =
    let normalized = strip value in
    if is_empty normalized || ltb max_length (count normalized)
    then err value_error
    else ok normalized

unfoldable pub optional_text : Option String → ℕ → Result (Option String)
unfolding require_text
optional_text none max_length = ok none
optional_text (some value) max_length = require_text value max_length >>= λ text. ok (some text)

unfoldable pub normalize_turn : TurnRecord → Result TurnRecord
unfolding require_text optional_text
normalize_turn record' = require_text record'.turn_id 64 >>= λ turn_id.
    require_text record'.conversation_id 64 >>= λ conversation_id.
    optional_text record'.target_workflow_id 64 >>= λ target_workflow_id. ok (record record' {
      turn_id = turn_id;
      conversation_id = conversation_id;
      target_workflow_id = target_workflow_id;
    })

abbrev pub set_status : TurnStatus → TurnRecord → TurnRecord
set_status status turn = record turn { status = status }

-- The entry of `_turn_client_keys` under the conversation and the client's identifier.
abbrev pub find_client_key : String → String → TurnStore → Option TurnEntry
find_client_key conversation client_input_id s =
    find (λ e. e.turn.conversation_id == conversation && e.turn.client_input_id == client_input_id)
      (values s.turns)

abbrev pub is_taken : TurnRecord → TurnStore → Bool
is_taken turn s =
    is_some (get turn.turn_id s.turns)
    || is_some (find_client_key turn.conversation_id turn.client_input_id s)

-- `self._turns[owner_key] = turn`, of a turn that is there or a new one.
abbrev pub store : TurnEntry → TurnStore → TurnStore
store entry s = record s { turns = put entry.turn.turn_id entry s.turns }

abbrev pub new_entry : String → TurnRecord → TurnStore → TurnEntry
new_entry owner turn s = record {
  owner = owner;
  turn = turn;
  owner_sequence = s.next_turn_sequence;
}

-- `create_turn`, of a record that is normalized; normalizing it again changes nothing.
unfoldable pub insert_turn : String → TurnRecord → Exec TurnStore TurnRecord
insert_turn owner normalized s = if is_taken normalized s then (err conflict, s) else (
  ok normalized,
  record (store (new_entry owner normalized s) s) { next_turn_sequence = s.next_turn_sequence + 1 },
)

unfoldable pub create_turn : String → TurnRecord → Exec TurnStore TurnRecord
unfolding insert_turn normalize_turn require_text
create_turn user_id record' =
    continue (require_text user_id 64)
      (λ owner. continue (normalize_turn record') (λ normalized. insert_turn owner normalized))

abbrev pub enqueue_found : String → TurnRecord → Option TurnEntry → Exec TurnStore TurnRecord
enqueue_found owner normalized none s = insert_turn owner normalized s
enqueue_found owner normalized (some existing) s =
    if existing.owner == owner then (ok existing.turn, s) else (err conflict, s)

unfoldable pub enqueue_normalized : String → TurnRecord → Exec TurnStore TurnRecord
unfolding insert_turn
enqueue_normalized owner normalized s =
    enqueue_found owner normalized
      (find_client_key normalized.conversation_id normalized.client_input_id s) s

unfoldable pub enqueue_turn : String → TurnRecord → Exec TurnStore TurnRecord
unfolding enqueue_normalized normalize_turn require_text
enqueue_turn user_id record' =
    continue (require_text user_id 64) (λ owner.
      continue (normalize_turn record') (λ normalized. enqueue_normalized owner normalized))

-- `self._turns.get((owner, turn_id))`
abbrev pub owned_by : String → Option TurnEntry → Option TurnEntry
owned_by owner none = none
owned_by owner (some entry) = if entry.owner == owner then some entry else none

abbrev pub turn_of : Option TurnEntry → Option TurnRecord
turn_of none = none
turn_of (some entry) = some entry.turn

unfoldable pub get_turn : String → String → TurnStore → Result (Option TurnRecord)
unfolding require_text
get_turn user_id turn_id s = require_text user_id 64 >>= λ owner.
    require_text turn_id 64 >>= λ id. ok (turn_of (owned_by owner (get id s.turns)))

abbrev pub belongs : String → String → TurnEntry → Bool
belongs owner conversation e = e.owner == owner && e.turn.conversation_id == conversation

unfoldable pub get_turn_by_client_input_id :
    String → String → String → TurnStore → Result (Option TurnRecord)
unfolding require_text
get_turn_by_client_input_id user_id conversation_id client_input_id s =
    require_text user_id 64 >>= λ owner. require_text conversation_id 64 >>= λ conversation. ok (
      turn_of (
        find (λ e. belongs owner conversation e && e.turn.client_input_id == client_input_id)
          (values s.turns)))

abbrev pub comes_before : TurnEntry → TurnEntry → Bool
comes_before a b = leb a.owner_sequence b.owner_sequence

unfoldable pub list_turns : String → String → TurnStore → Result (List TurnRecord)
unfolding require_text
list_turns user_id conversation_id s = require_text user_id 64 >>= λ owner.
    require_text conversation_id 64 >>= λ conversation.
    ok
      (map (λ e. e.turn) (sort comes_before (filter (belongs owner conversation) (values s.turns))))

-- The active turns of a conversation in the order of their sequences.
unfoldable pub active_entries : String → String → TurnStore → List TurnEntry
active_entries owner conversation s =
    sort comes_before
      (filter (λ e. belongs owner conversation e && is_active e.turn.status) (values s.turns))

abbrev pub has_processing : List TurnEntry → Bool
has_processing entries = any (λ e. is_processing e.turn.status) entries

-- The first of the entries is taken up.
abbrev pub claim_first : List TurnEntry → TurnStore → Option TurnRecord × TurnStore
claim_first [] s = (none, s)
claim_first (entry ∷ entries) s =
    let claimed = set_status processing entry.turn in
    (some claimed, store (record entry { turn = claimed }) s)

unfoldable pub claim_next_of : String → String → TurnStore → Option TurnRecord × TurnStore
unfolding active_entries
claim_next_of owner conversation s =
    let entries = active_entries owner conversation s in
    if has_processing entries then (none, s) else claim_first entries s

abbrev pub returning {ℓ} : {A S : Type ℓ} → A × S → Result A × S
returning (a, s) = (ok a, s)

unfoldable pub claim_next_turn : String → String → Exec TurnStore (Option TurnRecord)
unfolding claim_next_of require_text
claim_next_turn user_id conversation_id = continue (require_text user_id 64) (λ owner.
    continue (require_text conversation_id 64)
      (λ conversation s. returning (claim_next_of owner conversation s)))
