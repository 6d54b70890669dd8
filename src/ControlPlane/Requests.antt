-- ===== src/ControlPlane/Requests.antt =====
-- Any requests to the queue, one after the other: what they keep of it.
use pixelflow.Base.Dict
use pixelflow.Base.{ℕ, String, ◌≡◌, subst, sym, Bool, false, Option, List, [], ◌∷◌, All}
use pixelflow.ControlPlane.Turns.{is_processing, TurnRecord}
use pixelflow.ControlPlane.Compaction.{
  Queue, create_turn, enqueue_turn, acquire_compaction_lease, enqueue_turn_for_execution,
  claim_next_turn,
}
use pixelflow.ControlPlane.Handover.{complete_turn_and_claim_next, finish_compaction}
use pixelflow.ControlPlane.Changes.{IsSound}
use pixelflow.ControlPlane.Preservation.{apply_all-IsSound}
use pixelflow.ControlPlane.Effects.{Effect}
use pixelflow.ControlPlane.Operations.{
  create_turn-Effect, enqueue_turn-Effect, enqueue_turn_for_execution-Effect,
  claim_next_turn-Effect, acquire_compaction_lease-Effect,
}
use pixelflow.ControlPlane.Endings.{complete_turn_and_claim_next-Effect, finish_compaction-Effect}

-- A call of a method that may change the queue.
pub data Request : Type 0 where
  creating enqueueing executing : (user_id : String) → TurnRecord → Request
  claiming : (user_id conversation_id : String) → Request
  acquiring :
      (token user_id conversation_id lease_owner : String) → (now lease_expires_at : ℕ) → Request
  finishing_turn : (user_id conversation_id turn_id : String) → Request
  finishing :
      (user_id conversation_id lease_owner lease_token : String) → ℕ → Bool → Option ℕ → Request

unfoldable pub perform : Request → Queue → Queue
perform (creating user_id turn) q = (create_turn user_id turn q).1
perform (enqueueing user_id turn) q = (enqueue_turn user_id turn q).1
perform (executing user_id turn) q = (enqueue_turn_for_execution user_id turn q).1
perform (claiming user_id conversation_id) q = (claim_next_turn user_id conversation_id q).1
perform (acquiring token user_id conversation_id lease_owner now lease_expires_at) q =
    (acquire_compaction_lease token user_id conversation_id lease_owner now lease_expires_at q).1
perform (finishing_turn user_id conversation_id turn_id) q =
    (complete_turn_and_claim_next user_id conversation_id turn_id q).1
perform (finishing user_id conversation_id lease_owner lease_token now claim_next retry) q =
    (finish_compaction user_id conversation_id lease_owner lease_token now claim_next retry q).1

unfoldable pub performed : List Request → Queue → Queue
unfolding perform
performed [] q = q
performed (r ∷ rs) q = performed rs (perform r q)

-- A turn that a caller stores as it is, is not one that is already processing.
abbrev pub IsPlain : Request → Type 0
IsPlain (creating user_id turn) = is_processing turn.status ≡ false
IsPlain (enqueueing user_id turn) = is_processing turn.status ≡ false
IsPlain _ = Unit

abbrev pub empty_queue : Queue
empty_queue = record {
  repository = record { turns = []; next_turn_sequence = 1 };
  compaction_leases = [];
}

pub empty_queue-IsSound : IsSound empty_queue
unfolding Dict.get
empty_queue-IsSound = record {
  keyed = tt;
  exclusive = λ i j a b ha hb ra rb o. absurd (cc ha);
  fenced = λ c state h. absurd (cc h);
}

pub perform-Effect : (r : Request) (q : Queue) → IsPlain r → IsSound q → Effect q (perform r q)
unfolding perform
perform-Effect (creating user_id turn) q p sound = create_turn-Effect user_id turn q p
perform-Effect (enqueueing user_id turn) q p sound = enqueue_turn-Effect user_id turn q p
perform-Effect (executing user_id turn) q p sound = enqueue_turn_for_execution-Effect user_id turn q
perform-Effect (claiming user_id conversation_id) q p sound =
    claim_next_turn-Effect user_id conversation_id q sound
perform-Effect (acquiring token user_id conversation_id lease_owner now lease_expires_at) q p
      sound =
    acquire_compaction_lease-Effect token user_id conversation_id lease_owner now lease_expires_at q
perform-Effect (finishing_turn user_id conversation_id turn_id) q p sound =
    complete_turn_and_claim_next-Effect user_id conversation_id turn_id q sound
perform-Effect (finishing user_id conversation_id lease_owner lease_token now claim_next retry) q p
      sound =
    finish_compaction-Effect user_id conversation_id lease_owner lease_token now claim_next retry q
      sound

pub perform-IsSound : (r : Request) (q : Queue) → IsPlain r → IsSound q → IsSound (perform r q)
perform-IsSound r q p sound =
    let (cs, allowed, e) = perform-Effect r q p sound in
    subst IsSound (sym e) (apply_all-IsSound cs q allowed sound)

pub performed-IsSound :
    (rs : List Request) (q : Queue) → All IsPlain rs → IsSound q → IsSound (performed rs q)
unfolding performed
performed-IsSound [] q p sound = sound
performed-IsSound (r ∷ rs) q p sound =
    performed-IsSound rs (perform r q) p.1 (perform-IsSound r q p.0 sound)
