-- ===== src/ControlPlane/Delivery.antt =====
-- The delivery of events: `claim_next_event` and `complete_event_delivery` of
-- `MemoryAgentRuntimeRepository`, in
-- backend/pixelflow/agent_control_plane/persistence/repositories.py.
use pixelflow.Base.Dict.{get, put, values}
use pixelflow.Base.Exec.{Exec, continue}
use pixelflow.Base.Results.{Result, ok, err, value_error, conflict, guard, ◌>>=◌, ◌>>◌}
use pixelflow.Base.Sorting.{sort}
use pixelflow.Base.{
  ℕ, ◌+◌, String, Bool, true, false, ◌&&◌, not, Option, none, some, List, [], ◌∷◌, ltb,
  if◌then◌else◌, same_text, filter,
}
use pixelflow.ControlPlane.Turns.{require_text, returning}
use pixelflow.ControlPlane.Events.{
  AgentEvent, EventEntry, Events, delivering, published, is_published, is_delivering, owned_by,
  belongs, comes_before,
}

-- `EventDeliveryClaim`
pub record EventDeliveryClaim : Type 0 where
  pub event : AgentEvent
  pub delivery_attempts : ℕ
  pub lease_owner : String
  pub lease_expires_at : ℕ

unfoldable pub lease_window : String → ℕ → ℕ → Result String
unfolding require_text
lease_window lease_owner now lease_expires_at = require_text lease_owner 128 >>= λ worker.
    guard (ltb now lease_expires_at) value_error >> ok worker

-- The events of a conversation that are not published, in their order.
unfoldable pub unpublished : String → String → Events → List EventEntry
unfolding comes_before
unpublished owner conversation s =
    sort comes_before
      (filter (λ e. belongs owner conversation e && not (is_published e.status)) (values s))

-- `lease_expires_at is None or lease_expires_at > now`
abbrev pub is_leased : ℕ → Option ℕ → Bool
is_leased now none = true
is_leased now (some time) = ltb now time

abbrev pub claimed_entry : String → ℕ → EventEntry → EventEntry
claimed_entry worker lease_expires_at e = record e {
  status = delivering;
  delivery_attempts = e.delivery_attempts + 1;
  lease_owner = some worker;
  lease_expires_at = some lease_expires_at;
}

abbrev pub claim_of : String → ℕ → EventEntry → EventDeliveryClaim
claim_of worker lease_expires_at e = record {
  event = e.event;
  delivery_attempts = e.delivery_attempts + 1;
  lease_owner = worker;
  lease_expires_at = lease_expires_at;
}

abbrev pub claim_head :
    String → ℕ → ℕ → List EventEntry → Events → Option EventDeliveryClaim × Events
claim_head worker now lease_expires_at [] s = (none, s)
claim_head worker now lease_expires_at (e ∷ es) s =
    if is_delivering e.status && is_leased now e.lease_expires_at then (none, s) else (
      some (claim_of worker lease_expires_at e),
      put e.event.event_id (claimed_entry worker lease_expires_at e) s,
    )

unfoldable pub claim_next_event :
    String → String → String → ℕ → ℕ → Exec Events (Option EventDeliveryClaim)
unfolding require_text lease_window unpublished
claim_next_event user_id conversation_id lease_owner now lease_expires_at =
    continue (require_text user_id 64) (λ owner.
      continue (require_text conversation_id 64) (λ conversation.
        continue (lease_window lease_owner now lease_expires_at) (λ worker s.
          returning (claim_head worker now lease_expires_at (unpublished owner conversation s) s))))

-- The lease of the delivery is this worker's, and not expired.
unfoldable pub holds_delivery : String → ℕ → EventEntry → Bool
holds_delivery worker completed_at e =
    is_delivering e.status
    && same_text e.lease_owner (some worker)
    && is_unexpired e.lease_expires_at
  where
    is_unexpired : Option ℕ → Bool
    is_unexpired none = false
    is_unexpired (some time) = ltb completed_at time

abbrev pub published_entry : ℕ → EventEntry → EventEntry
published_entry completed_at e = record e { status = published; published_at = some completed_at }

abbrev pub complete_found : String → ℕ → Option EventEntry → Exec Events (Option AgentEvent)
complete_found worker completed_at none s = (ok none, s)
complete_found worker completed_at (some e) s =
    if is_published e.status
    then (ok (some e.event), s)
    else if holds_delivery worker completed_at e
    then (ok (some e.event), put e.event.event_id (published_entry completed_at e) s)
    else (err conflict, s)

unfoldable pub complete_event_delivery :
    String → String → String → ℕ → Exec Events (Option AgentEvent)
unfolding require_text holds_delivery
complete_event_delivery user_id event_id lease_owner published_at =
    continue (require_text user_id 64) (λ owner. continue (require_text event_id 64) (λ id.
      continue (require_text lease_owner 128)
        (λ worker s. complete_found worker published_at (owned_by owner (get id s)) s)))
