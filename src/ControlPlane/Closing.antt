-- ===== src/ControlPlane/Closing.antt =====
-- `finish_compaction_with_event` of `MemoryCompactionQueueRepository`, in
-- backend/pixelflow/agent_control_plane/persistence/compaction_queue.py: the queue and the events
-- change together. The random identifier of the event, as
-- hexadecimal digits, is an argument.
use Prim.Native.String.{◌++◌ as ◌◇◌}
use pixelflow.Base.Dict.{put}
use pixelflow.Base.Exec.{Exec, continue}
use pixelflow.Base.Json.{Fields}
use pixelflow.Base.Results.{Result, ok, value_error, conflict, guard, ◌>>=◌, ◌>>◌}
use pixelflow.Base.{ℕ, String, Bool, not, Option, List, [], ◌∷◌, any, is_member}
use pixelflow.ControlPlane.Turns.{TurnRecord, require_text}
use pixelflow.ControlPlane.Compaction.{Queue}
use pixelflow.ControlPlane.Handover.{finish_parameters, check_finish, settle_lease}
use pixelflow.ControlPlane.Repository.{Repository}
use pixelflow.ControlPlane.Events.{
  AgentEvent, Events, normalize_event, of_conversation, max_sequence, expected_sequence, is_foreign,
  is_taken, new_entry,
}

abbrev pub terminal_types : List String
terminal_types = "context.compression_completed" ∷ "context.compression_failed" ∷ []

module _ (event_uuid : String) where
  unfoldable pub terminal_event : ℕ → String → String → ℕ → String → Fields → Result AgentEvent
  unfolding require_text normalize_event
  terminal_event sequence conversation run_id occurred_at event_type payload =
      guard (is_member event_type terminal_types) value_error
      >> (require_text run_id 64 >>= λ run. normalize_event (record {
        event_id = "evt_" ◇ event_uuid;
        sequence = sequence;
        cursor = "cursor_" ◇ event_uuid;
        conversation_id = conversation;
        run_id = run;
        occurred_at = occurred_at;
        type = event_type;
        payload = payload;
      }))

  -- The terminal event as the next of its conversation.
  unfoldable pub next_event :
      String → String → String → ℕ → String → Fields → Events → Result AgentEvent
  unfolding terminal_event of_conversation max_sequence is_taken
  next_event owner conversation run_id now event_type payload events =
      let records = of_conversation conversation events in
      guard (not (any (is_foreign owner) records)) conflict
      >> (terminal_event (expected_sequence records) conversation run_id now event_type payload
          >>= λ event. guard (not (is_taken event events)) conflict >> ok event)

  abbrev pub settled :
      String
      → AgentEvent
      → Repository
      → Option TurnRecord × Queue
      → Result (Option TurnRecord × AgentEvent) × Repository
  settled owner event r (claimed, queue) = (
    ok (claimed, event),
    record r { queue = queue; events = put event.event_id (new_entry owner event) r.events },
  )

  unfoldable pub finish_compaction_with_event :
      String
      → String
      → String
      → String
      → ℕ
      → Bool
      → Option ℕ
      → String
      → String
      → Fields
      → Exec Repository (Option TurnRecord × AgentEvent)
  unfolding require_text finish_parameters check_finish settle_lease next_event
  finish_compaction_with_event user_id conversation_id lease_owner lease_token now claim_next
        retry_not_before run_id event_type payload =
      continue (require_text user_id 64) (λ owner.
        continue (require_text conversation_id 64) (λ conversation.
          continue (finish_parameters lease_owner now claim_next retry_not_before) (λ parameters r.
            let (worker, retry) = parameters in
            continue (check_finish owner conversation worker lease_token now claim_next r.queue)
              (λ state r'.
                continue (next_event owner conversation run_id now event_type payload r'.events)
                  (λ event r''.
                    settled owner event r'' (settle_lease owner conversation state retry r''.queue))
                  r')
              r)))
