-- ===== src/ControlPlane/Endings.antt =====
-- The effect of completing a turn, and of finishing a compaction, on a sound queue.
use pixelflow.Base.Dict.{values, IsKeyed, get-pop, get-put_self, get_of_IsIn, id_of_get}
use pixelflow.Base.Results.{ok}
use pixelflow.Base.Sorting.{IsIn-sort}
use pixelflow.Base.{
  ℕ, String, ◌≡◌, refl, sym, ap, subst, ◌∙◌, inl, inr, Bool, true, false, ◌&&◌, ◌||◌, Option, none,
  some, arith, ◌==◌, eq_iff, is_some, Bool-cases, Option-cases, filter, any, IsIn, IsIn-filter,
  any-eq-false,
}
use pixelflow.ControlPlane.Turns.{
  completed, is_processing, is_pending, TurnEntry, require_text, set_status, belongs,
  active_entries, has_processing, owned_by,
}
use pixelflow.ControlPlane.Compaction.{LeaseState, Queue, lease_of, entries_of}
use pixelflow.ControlPlane.Handover.{
  may_complete, completable, created_before, other_processing, next_candidates, complete_entry,
  claim_after, complete_turn_and_claim_next, finish_parameters, holds, with_expiry, settle_lease,
  check_finish, finish_compaction,
}
use pixelflow.ControlPlane.Changes.{
  id_of, turn_at, IsOf, IsIdle, IsSound, completing, extended, released, apply,
}
use pixelflow.ControlPlane.Preservation.{apply-IsSound}
use pixelflow.ControlPlane.Effects.{
  Effect, unchanged, one_change, and_then, continue-Effect, has_processing-IsIdle, belongs-IsOf,
  entries_of-IsIn, active_entries-IsIn, IsCandidate, active_entries-stand, claim_first-Effect,
}

-- The turn that is to be completed stands in the queue, of the user in the conversation.
completable-stands :
    (owner conversation id : String) (q : Queue) (current : TurnEntry)
    → completable conversation (owned_by owner (turn_at id q)) ≡ ok current
    → (turn_at id q ≡ some current)
      × (may_complete current.turn.status ≡ true)
      × IsOf owner conversation current
unfolding completable
completable-stands owner conversation id q current h = elim (Option-cases (turn_at id q)) [
  | inl e ↦ ground (arith, e, h)
  | inr (a, e) ↦ elim (Bool-cases (a.owner == owner)) [
    | inr t ↦ ground (arith, e, t, h)
    | inl t ↦ elim (Bool-cases (a.turn.conversation_id == conversation)) [
      | inr u ↦ ground (arith, e, t, u, h)
      | inl u ↦ elim (Bool-cases (may_complete a.turn.status)) [
        | inr v ↦ ground (arith, e, t, u, v, h)
        | inl v ↦
            let same : a ≡ current = ground (arith, e, t, u, v, h) in
            subst
              (λ c.
                (turn_at id q ≡ some c)
                × (may_complete c.turn.status ≡ true)
                × IsOf owner conversation c)
              same
              (e, v, ((eq_iff a.owner owner).0 t, (eq_iff a.turn.conversation_id conversation).0 u))
      ]
    ]
  ]
]

next_candidates-IsCandidate :
    (owner conversation : String) (q : Queue) (e : TurnEntry)
    → IsKeyed id_of q.repository.turns
    → IsIn e (next_candidates owner conversation q)
    → IsCandidate owner conversation q e
unfolding next_candidates entries_of
next_candidates-IsCandidate owner conversation q e keyed m =
    let (a, pending) =
      IsIn-filter (λ x. is_pending x.turn.status) e _ (IsIn-sort created_before e _ m) in
    let (b, t) = IsIn-filter (belongs owner conversation) e (values q.repository.turns) a in
    (get_of_IsIn id_of e q.repository.turns keyed b, pending, belongs-IsOf owner conversation e t)

-- Where no other turn is processing and the one of the identifier is not, none is.
other_processing-IsIdle :
    (owner conversation id : String) (q : Queue)
    → IsKeyed id_of q.repository.turns
    → any (other_processing id) (entries_of owner conversation q) ≡ false
    → ((e : TurnEntry) → turn_at id q ≡ some e → is_processing e.turn.status ≡ false)
    → IsIdle owner conversation q
other_processing-IsIdle owner conversation id q keyed none_other this i e g o =
    let other : other_processing id e ≡ false =
      any-eq-false (other_processing id) none_other
        (entries_of-IsIn owner conversation q i e g o) in
    elim (Bool-cases (id_of e == id)) [
      | inl t ↦
          let p : i ≡ id =
            sym (id_of_get id_of i e q.repository.turns keyed g) ∙ (eq_iff (id_of e) id).0 t in
          this e (subst (λ k. turn_at k q ≡ some e) p g)
      | inr t ↦ ground (arith, other, t)
    ]

claim_after-Effect :
    (owner conversation id : String) (q : Queue)
    → IsKeyed id_of q.repository.turns
    → ((e : TurnEntry) → turn_at id q ≡ some e → is_processing e.turn.status ≡ false)
    → Effect q (claim_after owner conversation id q).1
unfolding claim_after
claim_after-Effect owner conversation id q keyed this =
    let busy = any (other_processing id) (entries_of owner conversation q) in
    elim (Bool-cases (is_some (lease_of conversation q) || busy)) [
      | inl t ↦ rw t (unchanged q)
      | inr t ↦ rw t (
          claim_first-Effect owner conversation (next_candidates owner conversation q) q
            (λ e m. next_candidates-IsCandidate owner conversation q e keyed m)
            (elim (Option-cases (lease_of conversation q)) [
              | inl e ↦ e
              | inr (a, e) ↦ ground (arith, t, e)
            ])
            (other_processing-IsIdle owner conversation id q keyed (ground (arith, t)) this))
    ]

abbrev completed_entry : TurnEntry → TurnEntry
completed_entry e = record e { turn = set_status completed e.turn }

pub complete_turn_and_claim_next-Effect :
    (user_id conversation_id turn_id : String) (q : Queue)
    → IsSound q
    → Effect q (complete_turn_and_claim_next user_id conversation_id turn_id q).1
unfolding complete_turn_and_claim_next apply
complete_turn_and_claim_next-Effect user_id conversation_id turn_id q sound =
    continue-Effect (require_text user_id 64) _ q (λ owner _.
      continue-Effect (require_text conversation_id 64) _ q (λ conversation _.
        continue-Effect (require_text turn_id 64) _ q (λ id _.
          continue-Effect (completable conversation (owned_by owner (turn_at id q))) _ q
            (λ current h.
              let (stands, may, o) = completable-stands owner conversation id q current h in
              let same : id_of current ≡ id =
                id_of_get id_of id current q.repository.turns (IsSound.keyed sound) stands in
              let here_is : turn_at (id_of current) q ≡ some current =
                subst (λ k. turn_at k q ≡ some current) (sym same) stands in
              let after = complete_entry current q in
              and_then (completing current) q _ (here_is, may)
                (claim_after-Effect owner conversation id after
                  (IsSound.keyed (apply-IsSound (completing current) q (here_is, may) sound))
                  (λ e g.
                    let written : turn_at id after ≡ some (completed_entry current) =
                      subst (λ k. turn_at k after ≡ some (completed_entry current)) same
                        (get-put_self (id_of current) (completed_entry current)
                          q.repository.turns) in
                    let one : e ≡ completed_entry current = cc (written, g) in
                    ap (λ x. is_processing x.turn.status) one))))))

-- What the checks of a finish say when they pass.
pub check_finish-cases :
    (owner conversation worker token : String) (now : ℕ) (claim_next : Bool) (q : Queue)
    (state : LeaseState)
    → check_finish owner conversation worker token now claim_next q ≡ ok state
    → (lease_of conversation q ≡ some state)
      × (holds owner worker token now state ≡ true)
      × (claim_next && has_processing (active_entries owner conversation q.repository) ≡ false)
unfolding check_finish
check_finish-cases owner conversation worker token now claim_next q state h =
    elim (Option-cases (lease_of conversation q)) [
      | inl e ↦ ground (arith, e, h)
      | inr (a, e) ↦ elim (Bool-cases (holds owner worker token now a)) [
        | inr t ↦ ground (arith, e, t, h)
        | inl t ↦
            let busy = has_processing (active_entries owner conversation q.repository) in
            elim (Bool-cases (claim_next && busy)) [
              | inl u ↦ ground (arith, e, t, u, h)
              | inr u ↦
                  let same : a ≡ state = ground (arith, e, t, u, h) in
                  (e ∙ ap some same, ap (holds owner worker token now) (sym same) ∙ t, u)
            ]
      ]
    ]

finish_parameters-retry :
    (lease_owner worker : String) (now : ℕ) (claim_next : Bool) (given retry : Option ℕ)
    → finish_parameters lease_owner now claim_next given ≡ ok (worker, retry)
    → retry ≡ none
    → claim_next ≡ true
unfolding finish_parameters
finish_parameters-retry lease_owner worker now true none retry h e = refl
finish_parameters-retry lease_owner worker now true (some time) retry h e = refl
finish_parameters-retry lease_owner worker now false none retry h e = ground (arith, h, e)
finish_parameters-retry lease_owner worker now false (some time) retry h e = ground (arith, h, e)

settle_lease-Effect :
    (owner conversation : String) (state : LeaseState) (retry : Option ℕ) (q : Queue)
    → IsSound q
    → lease_of conversation q ≡ some state
    → (retry ≡ none → has_processing (active_entries owner conversation q.repository) ≡ false)
    → Effect q (settle_lease owner conversation state retry q).1
unfolding settle_lease apply
settle_lease-Effect owner conversation state (some retry) q sound e idle =
    one_change (extended conversation (with_expiry retry state)) q (state, e, refl)
settle_lease-Effect owner conversation state none q sound e idle =
    let entries = active_entries owner conversation q.repository in
    and_then (released conversation) q _ tt (
      claim_first-Effect owner conversation (filter (λ x. is_pending x.turn.status) entries)
        (apply (released conversation) q)
        (λ x m.
          let (a, pending) = IsIn-filter (λ x. is_pending x.turn.status) x entries m in
          let (b, t, o) = active_entries-stand owner conversation q x (IsSound.keyed sound) a in
          (b, pending, o))
        (ground (
          arith,
          get-pop conversation conversation q.compaction_leases,
          eq_iff conversation conversation,
        ))
        (has_processing-IsIdle owner conversation entries q (idle refl)
          (λ i x g o p. active_entries-IsIn owner conversation q i x g o (ground arith))))

pub finish_compaction-Effect :
    (user_id conversation_id lease_owner lease_token : String) (now : ℕ) (claim_next : Bool)
    (retry_not_before : Option ℕ) (q : Queue)
    → IsSound q
    → Effect q
        (finish_compaction user_id conversation_id lease_owner lease_token now claim_next
          retry_not_before q).1
unfolding finish_compaction
finish_compaction-Effect user_id conversation_id lease_owner lease_token now claim_next
      retry_not_before q sound =
    continue-Effect (require_text user_id 64) _ q (λ owner _.
      continue-Effect (require_text conversation_id 64) _ q (λ conversation _.
        continue-Effect (finish_parameters lease_owner now claim_next retry_not_before) _ q
          (λ parameters p.
            let (worker, retry) = parameters in
            continue-Effect (check_finish owner conversation worker lease_token now claim_next q) _
              q
              (λ state c.
                let (e, h, free) =
                  check_finish-cases owner conversation worker lease_token now claim_next q state
                    c in
                settle_lease-Effect owner conversation state retry q sound e (λ n.
                  let claims : claim_next ≡ true =
                    finish_parameters-retry lease_owner worker now claim_next retry_not_before retry
                      p n in
                  ground (arith, claims, free))))))
