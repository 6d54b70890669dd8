-- ===== src/ControlPlane/Fencing.antt =====
-- A worker that does not hold the lease of a compaction, or not any more, cannot finish it.
use pixelflow.Base.Dict.{get-put_self}
use pixelflow.Base.Exec.{Exec, continue}
use pixelflow.Base.Results.{Result, ok, err, Error, conflict}
use pixelflow.Base.{
  ℕ, String, ◌≡◌, ◌≢◌, refl, sym, ap, subst, ◌∙◌, inl, inr, Bool, true, false, ◌||◌, Option, none,
  some, arith, ◌≤◌, ◌⊎◌, ◌==◌, eq_iff, Bool-cases, Option-cases, strip,
}
use pixelflow.ControlPlane.Turns.{require_text, has_processing}
use pixelflow.ControlPlane.Compaction.{
  Lease, LeaseState, Queue, lease_of, entries_of, lease_parameters, is_refused,
  acquire_compaction_lease, grant,
}
use pixelflow.ControlPlane.Handover.{finish_parameters, holds, check_finish, finish_compaction}
use pixelflow.ControlPlane.Effects.{continue-Returns}

pub require_text-strip :
    (value text : String) (max_length : ℕ)
    → require_text value max_length ≡ ok text
    → strip value ≡ text
unfolding require_text
require_text-strip value text max_length h = ground arith

-- The call raises, and the queue is as before.
abbrev pub IsRefused {ℓ} : {A : Type ℓ} → Queue → Result A × Queue → Type ℓ
IsRefused q r = (e : Error) × (r ≡ (err e, q))

continue-IsRefused :
    {A B : Type 0} (r : Result A) (f : A → Exec Queue B) (q : Queue)
    → ((a : A) → r ≡ ok a → IsRefused q (f a q))
    → IsRefused q (continue r f q)
continue-IsRefused (ok a) f q h = h a refl
continue-IsRefused (err e) f q h = (e, refl)

finish_parameters-worker :
    (lease_owner worker : String) (now : ℕ) (claim_next : Bool) (given retry : Option ℕ)
    → finish_parameters lease_owner now claim_next given ≡ ok (worker, retry)
    → strip lease_owner ≡ worker
unfolding finish_parameters require_text
finish_parameters-worker lease_owner worker now true none retry h = ground arith
finish_parameters-worker lease_owner worker now true (some time) retry h = ground arith
finish_parameters-worker lease_owner worker now false none retry h = ground arith
finish_parameters-worker lease_owner worker now false (some time) retry h = ground arith

check_finish-lost :
    (owner conversation worker token : String) (now : ℕ) (claim_next : Bool) (q : Queue)
    → ((state : LeaseState)
        → lease_of conversation q ≡ some state
        → holds owner worker token now state ≡ false)
    → check_finish owner conversation worker token now claim_next q ≡ err conflict
unfolding check_finish
check_finish-lost owner conversation worker token now claim_next q lost =
    elim (Option-cases (lease_of conversation q)) [
      | inl e ↦ rw e refl
      | inr (state, e) ↦ rw (e, lost state e) refl
    ]

finish_compaction-not_held :
    (user_id conversation_id lease_owner lease_token : String) (now : ℕ) (claim_next : Bool)
    (retry_not_before : Option ℕ) (q : Queue)
    → ((state : LeaseState)
        → lease_of (strip conversation_id) q ≡ some state
        → holds (strip user_id) (strip lease_owner) lease_token now state ≡ false)
    → IsRefused q (
        finish_compaction user_id conversation_id lease_owner lease_token now claim_next
          retry_not_before q)
unfolding finish_compaction
finish_compaction-not_held user_id conversation_id lease_owner lease_token now claim_next
      retry_not_before q lost =
    continue-IsRefused (require_text user_id 64) _ q (λ owner o.
      continue-IsRefused (require_text conversation_id 64) _ q (λ conversation c.
        continue-IsRefused (finish_parameters lease_owner now claim_next retry_not_before) _ q
          (λ parameters p.
            let (worker, retry) = parameters in
            let same_user = require_text-strip user_id owner 64 o in
            let same_place = require_text-strip conversation_id conversation 64 c in
            let same_worker =
              finish_parameters-worker lease_owner worker now claim_next retry_not_before retry p in
            let refused =
              check_finish-lost owner conversation worker lease_token now claim_next q (λ state e.
                cc (lost state (ap (λ k. lease_of k q) same_place ∙ e), same_user, same_worker)) in
            rw refused (conflict, refl))))

-- The lease is another user's, another worker's, under another token, or has expired.
abbrev pub IsLost : String → String → String → ℕ → LeaseState → Type 0
IsLost owner worker token now state =
    (state.user ≢ owner)
    ⊎ (state.lease.lease_owner ≢ worker)
    ⊎ (state.lease.lease_token ≢ token)
    ⊎ (state.lease.lease_expires_at ≤ now)

differ : (a b : String) → a ≢ b → (a == b) ≡ false
differ a b ne = elim (Bool-cases (a == b)) [ inl t ↦ absurd (ne ((eq_iff a b).0 t)) | inr t ↦ t ]

IsLost-holds :
    (owner worker token : String) (now : ℕ) (state : LeaseState)
    → IsLost owner worker token now state
    → holds owner worker token now state ≡ false
unfolding holds
IsLost-holds owner worker token now state (inl n) = ground (arith, differ state.user owner n)
IsLost-holds owner worker token now state (inr (inl n)) =
    ground (arith, differ state.lease.lease_owner worker n)
IsLost-holds owner worker token now state (inr (inr (inl n))) =
    ground (arith, differ state.lease.lease_token token n)
IsLost-holds owner worker token now state (inr (inr (inr l))) = ground (arith, l)

-- Where the lease in place, if there is one, is another user's, another worker's, under another
-- token, or has expired, a finish of the compaction raises and leaves the queue as it is, whatever
-- else is asked.
pub finish_compaction-lost :
    (user_id conversation_id lease_owner lease_token : String) (now : ℕ) (claim_next : Bool)
    (retry_not_before : Option ℕ) (q : Queue)
    → ((state : LeaseState)
        → lease_of (strip conversation_id) q ≡ some state
        → IsLost (strip user_id) (strip lease_owner) lease_token now state)
    → IsRefused q (
        finish_compaction user_id conversation_id lease_owner lease_token now claim_next
          retry_not_before q)
finish_compaction-lost user_id conversation_id lease_owner lease_token now claim_next
      retry_not_before q lost =
    finish_compaction-not_held user_id conversation_id lease_owner lease_token now claim_next
      retry_not_before q
      (λ state e.
        IsLost-holds (strip user_id) (strip lease_owner) lease_token now state (lost state e))

-- If a lease is returned, one with this token stands under the conversation.
abbrev Stands : String → String → Option Lease → Queue → Type 0
Stands conversation token none q = Unit
Stands conversation token (some lease) q =
    (state : LeaseState) × (lease_of conversation q ≡ some state)
    × (state.lease.lease_token ≡ token)

ok-inj : {A : Type 0} {a b : A} → ok a ≡ ok b → a ≡ b
ok-inj e = cc e

granted_lease :
    (token user_id conversation_id lease_owner : String) (now lease_expires_at : ℕ) (q : Queue)
    (granted : Option Lease)
    → let r =
        acquire_compaction_lease token user_id conversation_id lease_owner now lease_expires_at q in
      r.0 ≡ ok granted → Stands (strip conversation_id) token granted r.1
unfolding acquire_compaction_lease
granted_lease token user_id conversation_id lease_owner now lease_expires_at q =
    let stands : Option Lease → Queue → Type 0 = Stands (strip conversation_id) token in
    continue-Returns stands (require_text user_id 64) _ q (λ owner _.
      continue-Returns stands (require_text conversation_id 64) _ q (λ conversation c.
        continue-Returns stands (lease_parameters lease_owner now lease_expires_at) _ q (λ worker _.
          continue-Returns stands (is_refused owner now (lease_of conversation q)) _ q (λ refused _.
            elim (Bool-cases (refused || has_processing (entries_of owner conversation q))) [
              | inl t ↦ rw t (λ granted n. subst (λ g. stands g q) (ok-inj n) tt)
              | inr t ↦
                  rw (t, require_text-strip conversation_id conversation 64 c)
                    (λ granted n.
                      subst
                        (λ g.
                          Stands conversation token g
                            (grant owner conversation worker token lease_expires_at q).1)
                        (ok-inj n) (_, get-put_self conversation _ q.compaction_leases, refl))
            ]))))

-- Once a lease is acquired, a worker that asks to finish with another token than the new lease's is
-- refused, and the queue stays as it is, whoever and whenever it is.
pub acquire_compaction_lease-fences :
    (token user_id conversation_id lease_owner : String) (now lease_expires_at : ℕ) (q : Queue)
    (lease : Lease) (stale_user stale_owner stale_token : String) (later : ℕ) (claim_next : Bool)
    (retry_not_before : Option ℕ)
    → let r =
        acquire_compaction_lease token user_id conversation_id lease_owner now lease_expires_at q in
      r.0 ≡ ok (some lease)
      → token ≢ stale_token
      → IsRefused r.1 (
          finish_compaction stale_user conversation_id stale_owner stale_token later claim_next
            retry_not_before r.1)
acquire_compaction_lease-fences token user_id conversation_id lease_owner now lease_expires_at q
      lease stale_user stale_owner stale_token later claim_next retry_not_before h ne =
    let r =
      acquire_compaction_lease token user_id conversation_id lease_owner now lease_expires_at q in
    let (state, e, same) =
      granted_lease token user_id conversation_id lease_owner now lease_expires_at q (some lease)
        h in
    finish_compaction-lost stale_user conversation_id stale_owner stale_token later claim_next
      retry_not_before r.1 (λ other o. inr (inr (inl (λ p. ne (sym same ∙ cc (e, o) ∙ p)))))
