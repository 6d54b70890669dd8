-- ===== src/ControlPlane/Calls.antt =====
-- Any calls of the repository, of turns, leases and events, one after the other.
use pixelflow.Base.Dict
use pixelflow.Base.Json.{Fields}
use pixelflow.Base.Results.{Result}
use pixelflow.Base.{ℕ, String, sym, subst, inl, inr, Bool, Option, List, [], ◌∷◌, All}
use pixelflow.ControlPlane.Turns.{TurnRecord}
use pixelflow.ControlPlane.Handover.{finish_compaction}
use pixelflow.ControlPlane.Changes.{IsSound, IsExclusive, IsFenced}
use pixelflow.ControlPlane.Requests.{
  Request, finishing, perform, IsPlain, empty_queue, empty_queue-IsSound, perform-IsSound,
}
use pixelflow.ControlPlane.Events.{AgentEvent, new_entry}
use pixelflow.ControlPlane.Records.{WorkflowRecord, ContextSummary, create_workflow, create_summary}
use pixelflow.ControlPlane.Repository.{Repository, authority_owners, create_event}
use pixelflow.ControlPlane.Delivery.{claim_next_event, complete_event_delivery}
use pixelflow.ControlPlane.Closing.{finish_compaction_with_event}
use pixelflow.ControlPlane.Orderly.{IsOrderly, appended-IsOrderly}
use pixelflow.ControlPlane.Transcript.{
  create_event-IsOrderly, claim_next_event-IsOrderly, complete_event_delivery-IsOrderly,
}
use pixelflow.ControlPlane.Conversations.{Together, finish_compaction_with_event-Together}

pub data Call : Type 0 where
  of_queue : Request → Call
  creating_event : (user_id : String) → AgentEvent → Call
  creating_workflow : (user_id : String) → WorkflowRecord → Call
  creating_summary : (user_id : String) → ContextSummary → Call
  claiming_event :
      (user_id conversation_id lease_owner : String) → (now lease_expires_at : ℕ) → Call
  delivered : (user_id event_id lease_owner : String) → (published_at : ℕ) → Call
  closing :
      (event_uuid user_id conversation_id lease_owner lease_token : String)
      → ℕ
      → Bool
      → Option ℕ
      → (run_id event_type : String) → Fields
      → Call

unfoldable pub call : Call → Repository → Repository
unfolding perform
call (of_queue request) r = record r { queue = perform request r.queue }
call (creating_event user_id event) r = (create_event user_id event r).1
call (creating_workflow user_id workflow) r = record r {
  workflows = (create_workflow user_id workflow r.workflows).1;
}
call (creating_summary user_id summary) r = record r {
  summaries = (create_summary user_id summary r.summaries).1;
}
call (claiming_event user_id conversation_id lease_owner now lease_expires_at) r = record r {
  events = (claim_next_event user_id conversation_id lease_owner now lease_expires_at r.events).1;
}
call (delivered user_id event_id lease_owner published_at) r = record r {
  events = (complete_event_delivery user_id event_id lease_owner published_at r.events).1;
}
call
      (closing event_uuid user_id conversation_id lease_owner lease_token now claim_next retry
        run_id event_type payload)
      r =
    (finish_compaction_with_event event_uuid user_id conversation_id lease_owner lease_token now
      claim_next retry run_id event_type payload r).1

unfoldable pub calls : List Call → Repository → Repository
unfolding call
calls [] r = r
calls (c ∷ cs) r = calls cs (call c r)

abbrev pub empty_repository : Repository
empty_repository = record { workflows = []; queue = empty_queue; summaries = []; events = [] }

abbrev pub IsPlainCall : Call → Type 0
IsPlainCall (of_queue request) = IsPlain request
IsPlainCall _ = Unit

abbrev pub IsWhole : Repository → Type 0
IsWhole r = IsSound r.queue × IsOrderly r.events

-- What a finish with an event leaves is whole: the queue is as `finish_compaction` leaves it, and
-- the event that is appended is the next.
Together-IsWhole :
    (r : Repository) (user_id conversation_id lease_owner lease_token : String) (now : ℕ)
    (claim_next : Bool) (retry : Option ℕ) (owner : String) (Asked : AgentEvent → Type 0)
    (both : Result (Option TurnRecord × AgentEvent) × Repository)
    → IsWhole r
    → Together r owner Asked
        (finish_compaction user_id conversation_id lease_owner lease_token now claim_next retry
          r.queue)
        both
    → IsWhole both.1
unfolding perform
Together-IsWhole r user_id conversation_id lease_owner lease_token now claim_next retry owner Asked
      both whole (inl (e, same)) =
    subst (λ x. IsWhole x.1) (sym same) whole
Together-IsWhole r user_id conversation_id lease_owner lease_token now claim_next retry owner Asked
      both whole (inr (claimed, event, _, new, _, same)) =
    subst (λ x. IsWhole x.1) (sym same)
      (
        perform-IsSound
            (finishing user_id conversation_id lease_owner lease_token now claim_next retry) r.queue
            tt whole.0,
        appended-IsOrderly (new_entry owner event) r.events new whole.1,
      )

call-IsWhole : (c : Call) (r : Repository) → IsPlainCall c → IsWhole r → IsWhole (call c r)
unfolding call create_event
call-IsWhole (of_queue request) r p (sound, orderly) =
    (perform-IsSound request r.queue p sound, orderly)
call-IsWhole (creating_event user_id event) r p (sound, orderly) =
    (sound, create_event-IsOrderly (authority_owners r) user_id event r.events orderly)
call-IsWhole (creating_workflow user_id workflow) r p whole = whole
call-IsWhole (creating_summary user_id summary) r p whole = whole
call-IsWhole (claiming_event user_id conversation_id lease_owner now lease_expires_at) r p
      (sound, orderly) =
    (
      sound,
      claim_next_event-IsOrderly user_id conversation_id lease_owner now lease_expires_at r.events
          orderly,
    )
call-IsWhole (delivered user_id event_id lease_owner published_at) r p (sound, orderly) = (
  sound,
  complete_event_delivery-IsOrderly user_id event_id lease_owner published_at r.events orderly,
)
call-IsWhole
      (closing event_uuid user_id conversation_id lease_owner lease_token now claim_next retry
        run_id event_type payload)
      r p whole =
    Together-IsWhole r user_id conversation_id lease_owner lease_token now claim_next retry _ _ _
      whole
      (finish_compaction_with_event-Together event_uuid user_id conversation_id lease_owner
        lease_token now claim_next retry run_id event_type payload r)

calls-IsWhole :
    (cs : List Call) (r : Repository) → All IsPlainCall cs → IsWhole r → IsWhole (calls cs r)
unfolding calls
calls-IsWhole [] r p whole = whole
calls-IsWhole (c ∷ cs) r p whole = calls-IsWhole cs (call c r) p.1 (call-IsWhole c r p.0 whole)

empty_repository-IsWhole : IsWhole empty_repository
unfolding Dict.get
empty_repository-IsWhole = (
  empty_queue-IsSound,
  record {
    keyed = tt;
    owned = λ i j a b ha hb p. absurd (cc ha);
    distinct = λ i j a b ha hb p n. absurd (cc ha);
    dense = λ i a n h low high. absurd (cc h);
    positive = λ i a h. absurd (cc h);
    in_order = λ i b h p j a ha q n. absurd (cc h);
  },
)

calls-IsWhole_from_empty :
    (cs : List Call) → All IsPlainCall cs → IsWhole (calls cs empty_repository)
calls-IsWhole_from_empty cs p = calls-IsWhole cs empty_repository p empty_repository-IsWhole

-- Starting with an empty repository, after any calls in any order, at most one turn is processing
-- for a user in a conversation, where no caller asks to store a turn that is already processing.
pub calls-IsExclusive :
    (cs : List Call) → All IsPlainCall cs → IsExclusive (calls cs empty_repository).queue
calls-IsExclusive cs p = IsSound.exclusive (calls-IsWhole_from_empty cs p).0

-- Starting with an empty repository, after any calls in any order, while the lease of a
-- conversation's compaction is in place no turn of the lease's user in that conversation is accepted
-- or processing, where no caller asks to store a turn that is already processing.
pub calls-IsFenced :
    (cs : List Call) → All IsPlainCall cs → IsFenced (calls cs empty_repository).queue
calls-IsFenced cs p = IsSound.fenced (calls-IsWhole_from_empty cs p).0

-- Starting with an empty repository, after any calls in any order, the events are orderly: in each
-- conversation they have one owner, their sequences are 1, 2, … without gap or repetition, and an
-- event has been handed out for delivery only once all events of the conversation before it are
-- published. No caller asks to store a turn that is already processing.
pub calls-IsOrderly :
    (cs : List Call) → All IsPlainCall cs → IsOrderly (calls cs empty_repository).events
calls-IsOrderly cs p = (calls-IsWhole_from_empty cs p).1
