-- ===== src/ControlPlane/Operations.antt =====
-- The effect of each method of `MemoryCompactionQueueRepository` on a sound queue.
use pixelflow.Base.Exec.{Exec, continue}
use pixelflow.Base.Results.{Result, ok, err, conflict, guard}
use pixelflow.Base.{
  ℕ, String, ◌≡◌, refl, ap, subst, ◌∙◌, ◌⊎◌, inl, inr, Bool, true, false, ◌||◌, none, arith,
  is_some, Bool-cases, Option-cases, any, any-eq-false,
}
use pixelflow.ControlPlane.Turns
use pixelflow.ControlPlane.Turns.{
  TurnStatus, accepted, queued, processing, completed, is_processing, is_pending, TurnRecord,
  TurnEntry, TurnStore, require_text, normalize_turn, set_status, store, belongs, is_active,
  active_entries, has_processing, claim_first, claim_next_of, owned_by,
}
use pixelflow.ControlPlane.Compaction.{
  Queue, super, lease_of, entries_of, stored_under, is_executing, create_turn, enqueue_turn,
  acquire_compaction_lease, is_refused, lease_parameters, execution_turn, execution_status,
  is_open_to, enqueue_turn_for_execution, claim_next_turn,
}
use pixelflow.ControlPlane.Changes.{IsSound, leased, apply}
use pixelflow.ControlPlane.Effects.{
  Effect, unchanged, one_change, continue-Effect, normalize_turn-status, require_text-twice,
  insert_turn-Effect, enqueue_normalized-Effect, has_processing-IsIdle, entries_of-IsIn,
  active_entries-IsIn, active_entries-stand, claim_first-Effect,
}

-- A turn to be stored is not processing, and is queued where a lease is held.
IsStorable : TurnRecord → Queue → Type 0
IsStorable turn q =
    (is_processing turn.status ≡ false)
    × ((lease_of turn.conversation_id q ≡ none) ⊎ (turn.status ≡ queued))

stored_under-IsStorable :
    (owner : String) (normalized stored : TurnRecord) (q : Queue)
    → is_processing normalized.status ≡ false
    → stored_under owner normalized (lease_of normalized.conversation_id q) ≡ ok stored
    → IsStorable stored q
unfolding stored_under IsStorable
stored_under-IsStorable owner normalized stored q idle h =
    elim (Option-cases (lease_of normalized.conversation_id q)) [
      | inl e ↦
          let same : normalized ≡ stored = ground (arith, e, h) in
          subst
            (λ t.
              (is_processing t.status ≡ false)
              × ((lease_of t.conversation_id q ≡ none) ⊎ (t.status ≡ queued)))
            same (idle, inl e)
      | inr (state, e) ↦
          let same : set_status queued normalized ≡ stored = ground (arith, e, h) in
          subst
            (λ t.
              (is_processing t.status ≡ false)
              × ((lease_of t.conversation_id q ≡ none) ⊎ (t.status ≡ queued)))
            same (refl, inr refl)
    ]

module _ (user_id : String) (record' : TurnRecord) (q : Queue)
    (idle : is_processing record'.status ≡ false) where
  pub create_turn-Effect : Effect q (create_turn user_id record' q).1
  unfolding create_turn IsStorable
  create_turn-Effect = continue-Effect (require_text user_id 64) _ q (λ owner _.
      continue-Effect (normalize_turn record') _ q (λ normalized n.
        continue-Effect (stored_under owner normalized (lease_of normalized.conversation_id q)) _ q
          (λ stored h.
            let s =
              stored_under-IsStorable owner normalized stored q
                (ap is_processing (normalize_turn-status record' normalized n) ∙ idle) h in
            insert_turn-Effect owner stored q s.0 s.1)))

  pub enqueue_turn-Effect : Effect q (enqueue_turn user_id record' q).1
  unfolding enqueue_turn IsStorable
  enqueue_turn-Effect = continue-Effect (require_text user_id 64) _ q (λ owner _.
      continue-Effect (normalize_turn record') _ q (λ normalized n.
        continue-Effect (stored_under owner normalized (lease_of normalized.conversation_id q)) _ q
          (λ stored h.
            let s =
              stored_under-IsStorable owner normalized stored q
                (ap is_processing (normalize_turn-status record' normalized n) ∙ idle) h in
            enqueue_normalized-Effect owner stored q s.0 s.1)))

execution_status-idle : (b : Bool) → is_processing (execution_status b) ≡ false
execution_status-idle true = refl
execution_status-idle false = refl

pub enqueue_turn_for_execution-Effect :
    (user_id : String) (record' : TurnRecord) (q : Queue)
    → Effect q (enqueue_turn_for_execution user_id record' q).1
unfolding enqueue_turn_for_execution
enqueue_turn_for_execution-Effect user_id record' q =
    continue-Effect (require_text user_id 64) _ q (λ owner _.
      continue-Effect (execution_turn record') _ q (λ normalized n.
        let state = lease_of normalized.conversation_id q in
        let busy = any is_executing (entries_of owner normalized.conversation_id q) in
        continue-Effect (guard (is_open_to owner state) conflict) _ q (λ done _.
          enqueue_normalized-Effect owner
            (set_status (execution_status (is_some state || busy)) normalized) q
            (execution_status-idle (is_some state || busy))
            (elim (Option-cases (lease_of normalized.conversation_id q)) [
              | inl e ↦ inl e
              | inr (a, e) ↦ inr (rw e refl)
            ]))))

super-Effect :
    {A B : Type 0} (r : Result A) (f : A → Exec TurnStore B) (q : Queue)
    → ((a : A) → r ≡ ok a → Effect q (super (f a) q).1)
    → Effect q (super (continue r f) q).1
super-Effect (ok a) f q h = h a refl
super-Effect (err e) f q h = unchanged q

claim_next_of-Effect :
    (owner conversation : String) (q : Queue)
    → IsSound q
    → lease_of conversation q ≡ none
    → Effect q (super (claim_next_of owner conversation) q).1
unfolding claim_next_of
claim_next_of-Effect owner conversation q sound e =
    let entries = active_entries owner conversation q.repository in
    elim (Bool-cases (has_processing entries)) [
      | inl t ↦ rw t (unchanged q)
      | inr t ↦ rw t (
          claim_first-Effect owner conversation entries q
            (λ x m.
              let (a, b, o) = active_entries-stand owner conversation q x (IsSound.keyed sound) m in
              (a, ground (arith, any-eq-false (λ x. is_processing x.turn.status) t m), o))
            e
            (has_processing-IsIdle owner conversation entries q t
              (λ i x g o p. active_entries-IsIn owner conversation q i x g o (ground arith))))
    ]

pub claim_next_turn-Effect :
    (user_id conversation_id : String) (q : Queue)
    → IsSound q
    → Effect q (claim_next_turn user_id conversation_id q).1
unfolding claim_next_turn Turns.claim_next_turn
claim_next_turn-Effect user_id conversation_id q sound =
    continue-Effect (require_text conversation_id 64) _ q (λ conversation first.
      elim (Option-cases (lease_of conversation q)) [
        | inr (a, e) ↦ rw e (unchanged q)
        | inl e ↦ rw e (
            super-Effect (require_text user_id 64) _ q (λ owner _.
              super-Effect (require_text conversation 64) _ q (λ again second.
                let same : again ≡ conversation =
                  cc (require_text-twice conversation_id conversation 64 first) in
                claim_next_of-Effect owner again q sound (ap (λ c. lease_of c q) same ∙ e))))
      ])

pub acquire_compaction_lease-Effect :
    (token user_id conversation_id lease_owner : String) (now lease_expires_at : ℕ) (q : Queue)
    → Effect q
        (acquire_compaction_lease token user_id conversation_id lease_owner now lease_expires_at
          q).1
unfolding acquire_compaction_lease apply
acquire_compaction_lease-Effect token user_id conversation_id lease_owner now lease_expires_at q =
    continue-Effect (require_text user_id 64) _ q (λ owner _.
      continue-Effect (require_text conversation_id 64) _ q (λ conversation _.
        continue-Effect (lease_parameters lease_owner now lease_expires_at) _ q (λ worker _.
          continue-Effect (is_refused owner now (lease_of conversation q)) _ q (λ refused _.
            let busy = has_processing (entries_of owner conversation q) in
            elim (Bool-cases (refused || busy)) [
              | inl t ↦ rw t (unchanged q)
              | inr t ↦ rw t (
                  one_change
                    (leased conversation (record {
                      user = owner;
                      lease = record {
                        conversation_id = conversation;
                        lease_owner = worker;
                        lease_token = token;
                        lease_expires_at = lease_expires_at;
                      };
                    }))
                    q
                    (has_processing-IsIdle owner conversation (entries_of owner conversation q) q
                      (ground (arith, t))
                      (λ i x g o p. entries_of-IsIn owner conversation q i x g o)))
            ]))))
