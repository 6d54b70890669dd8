-- ===== src/ControlPlane/EventTests.antt =====
-- Runs of the store of events, alone and with the queue, and the theorems at concrete states.
use pixelflow.ControlPlane.Repository.{Repository, create_event}
use pixelflow.ControlPlane.Events
use pixelflow.ControlPlane.Delivery.{complete_event_delivery}
use pixelflow.ControlPlane.Delivery.{claim_next_event}
use pixelflow.Base.Sorting.{sort}
use pixelflow.ControlPlane.Compaction.{enqueue_turn_for_execution}
use pixelflow.ControlPlane.Compaction.{acquire_compaction_lease}
use pixelflow.Base.Dict
use pixelflow.Base.Json.{end}
use pixelflow.Base.Results.{ok}
use pixelflow.Base.{ℕ, String, ◌≡◌, refl, true, none, some, List, [], ◌∷◌, strip}
use pixelflow.ControlPlane.Turns.{TurnRecord, accepted}
use pixelflow.ControlPlane.Handover.{finish_compaction}
use pixelflow.ControlPlane.Requests.{executing, acquiring}
use pixelflow.ControlPlane.Events.{AgentEvent, Events, list_events_after_cursor}
use pixelflow.ControlPlane.Closing.{finish_compaction_with_event}
use pixelflow.ControlPlane.Changes.{IsExclusive, IsFenced}
use pixelflow.ControlPlane.Orderly.{IsOrderly}
use pixelflow.ControlPlane.Calls.{
  Call, of_queue, creating_event, claiming_event, delivered, closing, calls, empty_repository,
  calls-IsExclusive, calls-IsFenced, calls-IsOrderly,
}
use pixelflow.ControlPlane.Conversations.{IsAsked, Together, finish_compaction_with_event-Together}
use pixelflow.ControlPlane.Reading.{StartsAt, IsOwnPage, list_events_after_cursor_lem}

abbrev event : String → ℕ → AgentEvent
event id sequence = record {
  event_id = id;
  sequence = sequence;
  cursor = id;
  conversation_id = "c1";
  run_id = "r1";
  occurred_at = 10;
  type = "run.state_changed";
  payload = end;
}

abbrev turn : TurnRecord
turn = record {
  turn_id = "t1";
  conversation_id = "c1";
  client_input_id = "i1";
  status = accepted;
  target_workflow_id = none;
  expected_context_version = 0;
  created_at = 10;
}

-- Two events, the second under a sequence that is out of date; the first is delivered and the
-- second handed out; then a compaction ends with a third.
abbrev history : List Call
history =
    creating_event "u1" (event "e1" 1)
    ∷ creating_event "u1" (event "e2" 1)
    ∷ claiming_event "u1" "c1" "w1" 20 50
    ∷ delivered "u1" "e1" "w1" 30
    ∷ claiming_event "u1" "c1" "w1" 31 60
    ∷ of_queue (executing "u1" turn)
    ∷ of_queue (acquiring "k1" "u1" "c1" "w2" 40 90)
    ∷ closing "0a" "u1" "c1" "w2" "k1" 50 true none "r2" "context.compression_completed" end
    ∷ []

abbrev sequences : Events → List (String × ℕ)
sequences [] = []
sequences ((id, e) ∷ s) = (id, e.event.sequence) ∷ sequences s

history_test :
    sequences (calls history empty_repository).events ≡ ("e1", 1) ∷ ("e2", 2) ∷ ("evt_0a", 3) ∷ []
unfolding calls finish_compaction_with_event strip Dict.get acquire_compaction_lease
    enqueue_turn_for_execution Dict.put sort Dict.put_all claim_next_event complete_event_delivery
    create_event Events.create_event
history_test = refl

calls-IsExclusive_example : IsExclusive (calls history empty_repository).queue
calls-IsExclusive_example =
    calls-IsExclusive history (tt, (tt, (tt, (tt, (tt, (tt, (tt, (tt, tt))))))))

abbrev compacting : List Call
compacting = of_queue (executing "u1" turn) ∷ of_queue (acquiring "k1" "u1" "c1" "w2" 40 90) ∷ []

calls-IsFenced_example : IsFenced (calls compacting empty_repository).queue
calls-IsFenced_example = calls-IsFenced compacting (tt, (tt, tt))

calls-IsOrderly_example : IsOrderly (calls history empty_repository).events
calls-IsOrderly_example = calls-IsOrderly history (tt, (tt, (tt, (tt, (tt, (tt, (tt, (tt, tt))))))))

abbrev before : Repository
before = calls compacting empty_repository

finish_compaction_with_event-Together_example :
    Together before
      (strip "u1")
      (IsAsked "0a" "c1" "r2" 50 "context.compression_completed" end)
      (finish_compaction "u1" "c1" "w2" "k1" 50 true none before.queue)
      (finish_compaction_with_event "0a" "u1" "c1" "w2" "k1" 50 true none "r2"
        "context.compression_completed" end before)
finish_compaction_with_event-Together_example =
    finish_compaction_with_event-Together "0a" "u1" "c1" "w2" "k1" 50 true none "r2"
      "context.compression_completed" end before

abbrev later_events : List AgentEvent
later_events =
    event "e2" 2
    ∷ record (event "evt_0a" 3) {
      cursor = "cursor_0a";
      occurred_at = 50;
      run_id = "r2";
      type = "context.compression_completed";
    }
    ∷ []

later_events_listed :
    list_events_after_cursor "u1" "c1" (some "e1") 10 (calls history empty_repository).events
    ≡ ok (some later_events)
unfolding calls finish_compaction_with_event strip Dict.get acquire_compaction_lease
    enqueue_turn_for_execution Dict.put sort Dict.put_all claim_next_event complete_event_delivery
    create_event Events.create_event list_events_after_cursor
later_events_listed = refl

list_events_after_cursor_lem_example :
    (k : ℕ) × StartsAt
      (strip "u1")
      (strip "c1")
      (calls history empty_repository).events
      (some "e1")
      k
    × IsOwnPage (strip "u1") (strip "c1") (calls history empty_repository).events k 10 later_events
list_events_after_cursor_lem_example =
    list_events_after_cursor_lem "u1" "c1" (some "e1") 10 (calls history empty_repository).events
      later_events (calls-IsOrderly history (tt, (tt, (tt, (tt, (tt, (tt, (tt, (tt, tt)))))))))
      later_events_listed
