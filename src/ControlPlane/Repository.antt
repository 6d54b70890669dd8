-- ===== src/ControlPlane/Repository.antt =====
-- The attributes of `MemoryCompactionQueueRepository` and of the class that it extends together, and
-- the methods that read more than one of them.
use pixelflow.Base.Dict.{values}
use pixelflow.Base.Exec.{Exec}
use pixelflow.Base.{String, List, ◌++◌, map, ◌==◌, filter}
use pixelflow.ControlPlane.Compaction.{Queue}
use pixelflow.ControlPlane.Records.{Workflows, Summaries}
use pixelflow.ControlPlane.Events.{AgentEvent, Events}
use pixelflow.ControlPlane.Events

pub record Repository : Type 0 where
  pub workflows : Workflows
  pub queue : Queue
  pub summaries : Summaries
  pub events : Events

-- The owners of the workflows, turns and summaries of a conversation. Those of its events are read
-- where an event is appended.
unfoldable pub authority_owners : Repository → String → List String
authority_owners r conversation =
    map (λ e. e.owner)
      (filter (λ e. e.content.conversation_id == conversation) (values r.workflows))
    ++ (map (λ e. e.owner)
          (filter (λ e. e.turn.conversation_id == conversation) (values r.queue.repository.turns))
        ++ map (λ e. e.owner)
            (filter (λ e. e.content.conversation_id == conversation) (values r.summaries)))

unfoldable pub create_event : String → AgentEvent → Exec Repository AgentEvent
unfolding authority_owners Events.create_event
create_event user_id record' r =
    let (answer, events) = Events.create_event (authority_owners r) user_id record' r.events in
    (answer, record r { events = events })
