-- ===== src/ControlPlane/Transcript.antt =====
-- The methods on the events keep them orderly: what a conversation publishes is a transcript.
use pixelflow.Base.Dict.{get, values, get_of_IsIn, IsIn-values_of_get, id_of_get}
use pixelflow.Base.Exec.{Exec, continue}
use pixelflow.Base.Results.{Result, ok, err}
use pixelflow.Base.Sorting.{IsIn-sort, sort-first}
use pixelflow.Base.{
  ℕ, ◌≤◌, String, ◌≡◌, refl, sym, ap, subst, ◌∙◌, inl, inr, true, false, ◌&&◌, ◌||◌, not, Option,
  none, some, List, [], ◌∷◌, arith, ltb, ◌==◌, eq_iff, Bool-cases, Option-cases, filter, any, IsIn,
  here, IsIn-filter, filter-IsIn,
}
use pixelflow.ControlPlane.Events.{
  AgentEvent, EventEntry, Events, is_published, is_delivering, of_conversation, expected_sequence,
  is_foreign, is_taken, new_entry, with_sequence, append_new, append_event, create_event, owned_by,
  belongs, comes_before, normalize_event,
}
use pixelflow.ControlPlane.Delivery.{
  unpublished, is_leased, claimed_entry, claim_head, claim_next_event, holds_delivery,
  published_entry, complete_found, complete_event_delivery, lease_window,
}
use pixelflow.ControlPlane.Orderly.{
  id_of, place_of, number_of, is_pending, IsNext, IsOrderly, appended-IsOrderly,
}
use pixelflow.ControlPlane.Deliveries.{moved-IsOrderly}
use pixelflow.ControlPlane.Turns.{require_text}

continue-IsOrderly :
    {A B : Type 0} (r : Result A) (f : A → Exec Events B) (s : Events)
    → IsOrderly s
    → ((a : A) → IsOrderly (f a s).1)
    → IsOrderly (continue r f s).1
continue-IsOrderly (ok a) f s h k = k a
continue-IsOrderly (err e) f s h k = h

with_sequence-number :
    (expected : ℕ) (event : AgentEvent)
    → event.sequence ≤ expected
    → (with_sequence expected event).sequence ≡ expected
with_sequence-number expected event h = elim (Bool-cases (ltb event.sequence expected)) [
  | inl t ↦ rw t refl
  | inr t ↦ rw t (ground (arith, t, h))
]

with_sequence-place :
    (expected : ℕ) (event : AgentEvent)
    → (with_sequence expected event).conversation_id ≡ event.conversation_id
with_sequence-place expected event = elim (Bool-cases (ltb event.sequence expected)) [
  | inl t ↦ rw t refl
  | inr t ↦ rw t refl
]

append_new-IsOrderly :
    (owner : String) (event : AgentEvent) (s : Events)
    → event.sequence ≡ expected_sequence (of_conversation event.conversation_id s)
    → any (is_foreign owner) (of_conversation event.conversation_id s) ≡ false
    → IsOrderly s
    → IsOrderly (append_new owner event s).1
unfolding append_new is_taken
append_new-IsOrderly owner event s next mine orderly = elim (Bool-cases (is_taken event s)) [
  | inl t ↦ rw t orderly
  | inr t ↦ rw t (
      appended-IsOrderly (new_entry owner event) s
        (record {
          fresh = elim (Option-cases (get event.event_id s)) [
            | inl e ↦ e
            | inr (a, e) ↦ ground (arith, t, e)
          ];
          next = next;
          mine = mine;
          waits = refl;
        })
        orderly)
]

append_event-IsOrderly :
    (others : List String) (owner : String) (event : AgentEvent) (s : Events)
    → IsOrderly s
    → IsOrderly (append_event others owner event s).1
unfolding append_event
append_event-IsOrderly others owner event s orderly =
    let records = of_conversation event.conversation_id s in
    let expected = expected_sequence records in
    let stored = with_sequence expected event in
    let same = with_sequence-place expected event in
    elim (Bool-cases (any (λ o. not (o == owner)) others || any (is_foreign owner) records)) [
      | inl t ↦ rw t orderly
      | inr t ↦ elim (Bool-cases (ltb expected event.sequence)) [
        | inl u ↦ rw (t, u) orderly
        | inr u ↦
            rw (t, u)
              (append_new-IsOrderly owner stored s
                (with_sequence-number expected event (ground (arith, u))
                  ∙ ap (λ c. expected_sequence (of_conversation c s)) (sym same))
                (ap (λ c. any (is_foreign owner) (of_conversation c s)) same ∙ ground (arith, t))
                orderly)
      ]
    ]

pub create_event-IsOrderly :
    (owners_of : String → List String) (user_id : String) (record' : AgentEvent) (s : Events)
    → IsOrderly s
    → IsOrderly (create_event owners_of user_id record' s).1
unfolding create_event
create_event-IsOrderly owners_of user_id record' s orderly =
    continue-IsOrderly (require_text user_id 64) _ s orderly (λ owner.
      continue-IsOrderly (normalize_event record') _ s orderly (λ normalized.
        append_event-IsOrderly (owners_of normalized.conversation_id) owner normalized s orderly))

pub comes_before-low : (a b : EventEntry) → comes_before a b ≡ true → number_of a ≤ number_of b
unfolding comes_before
comes_before-low a b h = ground (arith, h)

pub comes_before-high : (a b : EventEntry) → comes_before a b ≡ false → number_of b ≤ number_of a
unfolding comes_before
comes_before-high a b h = ground (arith, h)

-- The first of the unpublished events of a conversation is the next to be published.
module _ (owner conversation : String) (s : Events) (orderly : IsOrderly s) (e : EventEntry)
    (es : List EventEntry) (first : unpublished owner conversation s ≡ e ∷ es) where
  first-stands :
      (get (id_of e) s ≡ some e)
      × (place_of e ≡ conversation)
      × (e.owner ≡ owner)
      × (is_published e.status ≡ false)
  unfolding unpublished
  first-stands =
      let (v, t) =
        IsIn-filter (λ x. belongs owner conversation x && not (is_published x.status)) e (values s)
          (IsIn-sort comes_before e _ (subst (IsIn e) (sym first) (here refl))) in
      (
        get_of_IsIn id_of e s (IsOrderly.keyed orderly) v,
        ground (arith, eq_iff e.event.conversation_id conversation, t),
        ground (arith, eq_iff e.owner owner, t),
        ground (arith, t),
      )

  first-IsNext : IsNext e s
  unfolding unpublished
  first-IsNext i a h p n =
      let (stands, place, mine, _) = first-stands in
      let same : a.owner ≡ owner = IsOrderly.owned orderly i (id_of e) a e h stands p ∙ mine in
      elim (Bool-cases (is_published a.status)) [
        | inl t ↦ t
        | inr t ↦
            let here_too : IsIn a (
                filter (λ x. belongs owner conversation x && not (is_published x.status))
                  (values s)) =
              filter-IsIn (λ x. belongs owner conversation x && not (is_published x.status))
                (IsIn-values_of_get i a s h)
                (ground (
                  arith,
                  eq_iff a.owner owner,
                  eq_iff a.event.conversation_id conversation,
                  same,
                  p ∙ place,
                  t,
                )) in
            absurd (
              omega (
                arith,
                n,
                sort-first comes_before number_of comes_before-low comes_before-high a e _ es first
                    here_too,
              ))
      ]

claim_head-IsOrderly :
    (owner conversation worker : String) (now lease_expires_at : ℕ) (es : List EventEntry)
    (s : Events)
    → IsOrderly s
    → unpublished owner conversation s ≡ es
    → IsOrderly (claim_head worker now lease_expires_at es s).1
claim_head-IsOrderly owner conversation worker now lease_expires_at [] s orderly first = orderly
claim_head-IsOrderly owner conversation worker now lease_expires_at (e ∷ es) s orderly first =
    elim (Bool-cases (is_delivering e.status && is_leased now e.lease_expires_at)) [
      | inl t ↦ rw t orderly
      | inr t ↦
          let (stands, _, _, un) = first-stands owner conversation s orderly e es first in
          rw t (
            moved-IsOrderly e (claimed_entry worker lease_expires_at e) s
              (record {
                stands = stands;
                same_event = refl;
                same_owner = refl;
                next = first-IsNext owner conversation s orderly e es first;
                stays = λ p. absurd (cc (p, un));
              })
              orderly)
    ]

pub claim_next_event-IsOrderly :
    (user_id conversation_id lease_owner : String) (now lease_expires_at : ℕ) (s : Events)
    → IsOrderly s
    → IsOrderly (claim_next_event user_id conversation_id lease_owner now lease_expires_at s).1
unfolding claim_next_event
claim_next_event-IsOrderly user_id conversation_id lease_owner now lease_expires_at s orderly =
    continue-IsOrderly (require_text user_id 64) _ s orderly (λ owner.
      continue-IsOrderly (require_text conversation_id 64) _ s orderly (λ conversation.
        continue-IsOrderly (lease_window lease_owner now lease_expires_at) _ s orderly (λ worker.
          claim_head-IsOrderly owner conversation worker now lease_expires_at
            (unpublished owner conversation s) s orderly refl)))

holds_delivery-delivering :
    (worker : String) (completed_at : ℕ) (e : EventEntry)
    → holds_delivery worker completed_at e ≡ true
    → is_pending e.status ≡ false
unfolding holds_delivery
holds_delivery-delivering worker completed_at e h = ground (arith, h)

complete_found-IsOrderly :
    (worker : String) (completed_at : ℕ) (id : String) (entry : Option EventEntry) (s : Events)
    → IsOrderly s
    → ((e : EventEntry) → entry ≡ some e → get id s ≡ some e)
    → IsOrderly (complete_found worker completed_at entry s).1
complete_found-IsOrderly worker completed_at id none s orderly h = orderly
complete_found-IsOrderly worker completed_at id (some e) s orderly h =
    elim (Bool-cases (is_published e.status)) [
      | inl t ↦ rw t orderly
      | inr t ↦ elim (Bool-cases (holds_delivery worker completed_at e)) [
        | inr u ↦ rw (t, u) orderly
        | inl u ↦
            let stands = h e refl in
            let same : id_of e ≡ id = id_of_get id_of id e s (IsOrderly.keyed orderly) stands in
            rw (t, u)
              (moved-IsOrderly e (published_entry completed_at e) s
                (record {
                  stands = subst (λ k. get k s ≡ some e) (sym same) stands;
                  same_event = refl;
                  same_owner = refl;
                  next =
                      IsOrderly.in_order orderly id e stands
                        (holds_delivery-delivering worker completed_at e u);
                  stays = λ p. refl;
                })
                orderly)
      ]
    ]

owned_by-some :
    (owner : String) (entry : Option EventEntry) (e : EventEntry)
    → owned_by owner entry ≡ some e
    → entry ≡ some e
owned_by-some owner none e h = h
owned_by-some owner (some x) e h = ground (arith, h)

pub complete_event_delivery-IsOrderly :
    (user_id event_id lease_owner : String) (published_at : ℕ) (s : Events)
    → IsOrderly s
    → IsOrderly (complete_event_delivery user_id event_id lease_owner published_at s).1
unfolding complete_event_delivery
complete_event_delivery-IsOrderly user_id event_id lease_owner published_at s orderly =
    continue-IsOrderly (require_text user_id 64) _ s orderly (λ owner.
      continue-IsOrderly (require_text event_id 64) _ s orderly (λ id.
        continue-IsOrderly (require_text lease_owner 128) _ s orderly (λ worker.
          complete_found-IsOrderly worker published_at id (owned_by owner (get id s)) s orderly
            (λ e h. owned_by-some owner (get id s) e h))))
