-- ===== src/ControlPlane/Conversations.antt =====
-- Queue and events together: a compaction that ends with an event, and any calls of the repository.
use Prim.Native.String.{◌++◌ as ◌◇◌}
use pixelflow.Base.Dict.{get, put}
use pixelflow.Base.Json.{Fields}
use pixelflow.Base.Results.{Result, ok, err, Error}
use pixelflow.Base.{
  ℕ, String, ◌≡◌, refl, sym, ap, subst, ◌∙◌, ◌⊎◌, inl, inr, Bool, Option, arith, Bool-cases,
  Option-cases, any, strip, is_member, true,
}
use pixelflow.ControlPlane.Turns.{TurnRecord, require_text}
use pixelflow.ControlPlane.Compaction.{Queue}
use pixelflow.ControlPlane.Handover.{finish_parameters, check_finish, finish_compaction}
use pixelflow.ControlPlane.Events.{
  AgentEvent, Events, of_conversation, expected_sequence, is_foreign, is_taken, new_entry,
  normalize_event,
}
use pixelflow.ControlPlane.Repository.{Repository}
use pixelflow.ControlPlane.Closing.{
  terminal_types, terminal_event, next_event, finish_compaction_with_event,
}
use pixelflow.ControlPlane.Orderly.{IsNew}
use pixelflow.ControlPlane.Effects.{require_text-twice}
use pixelflow.ControlPlane.Fencing.{require_text-strip}
use pixelflow.ControlPlane.Repeats.{Result-cases}

-- The event is the terminal event that was asked for.
abbrev pub IsAsked : String → String → String → ℕ → String → Fields → AgentEvent → Type 0
IsAsked event_uuid conversation_id run_id now event_type payload event =
    (event.event_id ≡ strip ("evt_" ◇ event_uuid))
    × (event.cursor ≡ strip ("cursor_" ◇ event_uuid))
    × (event.conversation_id ≡ strip conversation_id)
    × (event.run_id ≡ strip run_id)
    × (event.occurred_at ≡ now)
    × (event.type ≡ event_type)
    × (event.payload ≡ payload)
    × (is_member event_type terminal_types ≡ true)

-- What a finish with an event does: it raises and changes nothing, or it does to the queue what
-- `finish_compaction` does, returns the same turn, and appends for the owner an event that is new
-- and the one that was asked for.
abbrev pub Together :
    Repository
    → String
    → (AgentEvent → Type 0)
    → Result (Option TurnRecord) × Queue
    → Result (Option TurnRecord × AgentEvent) × Repository
    → Type 0
Together r owner Asked alone both =
    ((e : Error) × (both ≡ (err e, r)))
    ⊎ ((claimed : Option TurnRecord) × (event : AgentEvent) × Asked event
        × IsNew (new_entry owner event) r.events
        × (alone.0 ≡ ok claimed)
        × (both ≡ (
          ok (claimed, event),
          record r {
            queue = alone.1;
            events = put event.event_id (new_entry owner event) r.events;
          },
        )))

module _ (event_uuid : String) where
  terminal_event-kept :
      (sequence : ℕ) (conversation run_id : String) (now : ℕ) (event_type : String)
      (payload : Fields) (event : AgentEvent)
      → require_text conversation 64 ≡ ok conversation
      → terminal_event event_uuid sequence conversation run_id now event_type payload ≡ ok event
      → (event.sequence ≡ sequence)
        × (event.conversation_id ≡ conversation)
        × IsAsked event_uuid conversation run_id now event_type payload event
  unfolding terminal_event normalize_event
  terminal_event-kept sequence conversation run_id now event_type payload event c h =
      let id_text = require_text ("evt_" ◇ event_uuid) 64 in
      let cursor_text = require_text ("cursor_" ◇ event_uuid) 128 in
      elim (Bool-cases (is_member event_type terminal_types)) [
        | inr t ↦ ground (arith, t, h)
        | inl t ↦ elim (Result-cases (require_text run_id 64)) [
          | inr (x, e) ↦ ground (arith, t, e, h)
          | inl (run, r) ↦ elim (Result-cases id_text) [
            | inr (x, e) ↦ ground (arith, t, r, e, h)
            | inl (id, i) ↦ elim (Result-cases cursor_text) [
              | inr (x, e) ↦ ground (arith, t, r, i, e, h)
              | inl (cursor, k) ↦
                  let again = require_text-twice run_id run 64 r in
                  let made : AgentEvent = record {
                    event_id = id;
                    sequence = sequence;
                    cursor = cursor;
                    conversation_id = conversation;
                    run_id = run;
                    occurred_at = now;
                    type = event_type;
                    payload = payload;
                  } in
                  let same : made ≡ event = ground (arith, t, r, i, k, c, again, h) in
                  (
                    ap (λ e. e.sequence) (sym same),
                    ap (λ e. e.conversation_id) (sym same),
                    (
                      ap (λ e. e.event_id) (sym same) ∙ sym (require_text-strip _ id 64 i),
                      ap (λ e. e.cursor) (sym same) ∙ sym (require_text-strip _ cursor 128 k),
                      ap (λ e. e.conversation_id) (sym same)
                          ∙ sym (require_text-strip conversation conversation 64 c),
                      ap (λ e. e.run_id) (sym same) ∙ sym (require_text-strip run_id run 64 r),
                      ap (λ e. e.occurred_at) (sym same),
                      ap (λ e. e.type) (sym same),
                      ap (λ e. e.payload) (sym same),
                      t,
                    ),
                  )
            ]
          ]
        ]
      ]

  next_event-IsAsked :
      (owner conversation run_id : String) (now : ℕ) (event_type : String) (payload : Fields)
      (events : Events) (event : AgentEvent)
      → require_text conversation 64 ≡ ok conversation
      → next_event event_uuid owner conversation run_id now event_type payload events ≡ ok event
      → IsNew (new_entry owner event) events
        × IsAsked event_uuid conversation run_id now event_type payload event
  unfolding next_event is_taken
  next_event-IsAsked owner conversation run_id now event_type payload events event c h =
      let records = of_conversation conversation events in
      let expected = expected_sequence records in
      elim (Bool-cases (any (is_foreign owner) records)) [
        | inl t ↦ ground (arith, t, h)
        | inr t ↦
            elim (Result-cases
              (terminal_event event_uuid expected conversation run_id now event_type payload)) [
                | inr (x, e) ↦ ground (arith, t, e, h)
                | inl (made, e) ↦ elim (Bool-cases (is_taken made events)) [
                  | inl u ↦ ground (arith, t, e, u, h)
                  | inr u ↦
                      let same : made ≡ event = ground (arith, t, e, u, h) in
                      let (number, place, asked) =
                        terminal_event-kept expected conversation run_id now event_type payload made
                          c e in
                      subst
                        (λ x.
                          IsNew (new_entry owner x) events
                          × IsAsked event_uuid conversation run_id now event_type payload x)
                        same
                        (
                          record {
                            fresh = elim (Option-cases (get made.event_id events)) [
                              | inl n ↦ n
                              | inr (a, n) ↦ ground (arith, u, n)
                            ];
                            next =
                                number
                                ∙ ap (λ k. expected_sequence (of_conversation k events))
                                    (sym place);
                            mine =
                                ap (λ k. any (is_foreign owner) (of_conversation k events)) place
                                ∙ t;
                            waits = refl;
                          },
                          asked,
                        )
                ]
              ]
      ]

  -- A finish with an event either raises and leaves the queue and the events as they are, or does
  -- to the queue exactly what `finish_compaction` does with the same arguments, returns the turn
  -- that it returns, and appends one event. The event is pending, of the user and the conversation
  -- of the call, whose events all have that owner, with the next sequence, and has the run, the
  -- time, the type and the payload of the call; the type is one of the two that end a compaction.
  pub finish_compaction_with_event-Together :
      (user_id conversation_id lease_owner lease_token : String) (now : ℕ) (claim_next : Bool)
      (retry_not_before : Option ℕ) (run_id event_type : String) (payload : Fields) (r : Repository)
      → Together r
          (strip user_id)
          (IsAsked event_uuid conversation_id run_id now event_type payload)
          (finish_compaction user_id conversation_id lease_owner lease_token now claim_next
            retry_not_before r.queue)
          (finish_compaction_with_event event_uuid user_id conversation_id lease_owner lease_token
            now claim_next retry_not_before run_id event_type payload r)
  unfolding finish_compaction finish_compaction_with_event
  finish_compaction_with_event-Together user_id conversation_id lease_owner lease_token now
        claim_next retry_not_before run_id event_type payload r =
      elim (Result-cases (require_text user_id 64)) [
        | inr (x, e) ↦ rw e (inl (x, refl))
        | inl (owner, o) ↦ elim (Result-cases (require_text conversation_id 64)) [
          | inr (x, e) ↦ rw (o, e) (inl (x, refl))
          | inl (conversation, c) ↦
              elim (Result-cases (finish_parameters lease_owner now claim_next retry_not_before)) [
                | inr (x, e) ↦ rw (o, c, e) (inl (x, refl))
                | inl ((worker, retry), p) ↦
                    elim (Result-cases
                      (check_finish owner conversation worker lease_token now claim_next r.queue)) [
                        | inr (x, e) ↦ rw (o, c, p, e) (inl (x, refl))
                        | inl (state, t) ↦
                            elim (Result-cases (
                              next_event event_uuid owner conversation run_id now event_type payload
                                r.events)) [
                                  | inr (x, e) ↦ rw (o, c, p, t, e) (inl (x, refl))
                                  | inl (event, e) ↦
                                      let (new, asked) =
                                        next_event-IsAsked owner conversation run_id now event_type
                                          payload r.events event
                                          (require_text-twice conversation_id conversation 64 c)
                                          e in
                                      let (id, cursor, place, of_run, at, kind, content, terminal) =
                                        asked in
                                      let again =
                                        require_text-strip conversation conversation 64
                                          (require_text-twice conversation_id conversation 64 c) in
                                      let same_user = require_text-strip user_id owner 64 o in
                                      let same_place =
                                        require_text-strip conversation_id conversation 64 c in
                                      rw (o, c, p, t, e, same_user)
                                        (inr (
                                          _,
                                          event,
                                          (
                                            id,
                                            cursor,
                                            place ∙ again ∙ sym same_place,
                                            of_run,
                                            at,
                                            kind,
                                            content,
                                            terminal,
                                          ),
                                          new,
                                          refl,
                                          refl,
                                        ))
                                ]
                      ]
              ]
        ]
      ]
