-- ===== src/ControlPlane/Tests.antt =====
-- Runs of the queue of turns, and its theorems at concrete queues.
use pixelflow.Base.Sorting.{sort}
use pixelflow.ControlPlane.Compaction.{claim_next_turn}
use pixelflow.ControlPlane.Handover.{complete_turn_and_claim_next}
use pixelflow.Base.Dict
use pixelflow.Base.Dict.{get, put}
use pixelflow.Base.Results.{ok}
use pixelflow.Base.{
  ℕ, String, ◌≡◌, refl, true, none, some, List, [], ◌∷◌, strip, subst, ◌≢◌, eq_iff,
}
use pixelflow.ControlPlane.Turns.{
  TurnStatus, accepted, queued, processing, completed, TurnRecord, TurnEntry, set_status,
  claim_next_of, get_turn,
}
use pixelflow.ControlPlane.Compaction.{
  Lease, LeaseState, Queue, acquire_compaction_lease, create_turn, enqueue_turn_for_execution,
}
use pixelflow.ControlPlane.Handover.{finish_compaction}
use pixelflow.ControlPlane.Requests.{
  Request, executing, claiming, acquiring, finishing_turn, finishing, perform, performed,
  empty_queue, performed-IsSound, empty_queue-IsSound,
}
use pixelflow.ControlPlane.Progress.{IsContinued, perform-IsContinued}
use pixelflow.ControlPlane.Fencing.{
  IsRefused, IsLost, finish_compaction-lost, acquire_compaction_lease-fences,
}
use pixelflow.Base.{inl, inr}
use pixelflow.ControlPlane.Ordering.{ClaimsInOrder, claim_next_of-ClaimsInOrder}
use pixelflow.ControlPlane.Repeats.{enqueue_turn_for_execution-twice, create_turn-get_turn}

abbrev turn : String → ℕ → TurnRecord
turn id created_at = record {
  turn_id = id;
  conversation_id = "c1";
  client_input_id = id;
  status = accepted;
  target_workflow_id = none;
  expected_context_version = 0;
  created_at = created_at;
}

-- Two turns are accepted, the first is taken up and completed while a compaction is asked for; then
-- the compaction runs, a turn comes in, and the compaction is finished.
abbrev requests : List Request
requests =
    executing "u1" (turn "t1" 10)
    ∷ executing "u1" (turn "t2" 11)
    ∷ claiming "u1" "c1"
    ∷ acquiring "k1" "u1" "c1" "w1" 20 50
    ∷ finishing_turn "u1" "c1" "t1"
    ∷ finishing_turn "u1" "c1" "t2"
    ∷ acquiring "k2" "u1" "c1" "w1" 21 50
    ∷ executing "u1" (turn "t3" 22)
    ∷ finishing "u1" "c1" "w1" "k2" 30 true none
    ∷ []

-- The status of each turn at the end, and what is leased.
abbrev statuses : Queue → List (String × TurnStatus)
statuses q = statuses_of q.repository.turns
  where
    statuses_of : List (String × TurnEntry) → List (String × TurnStatus)
    statuses_of [] = []
    statuses_of ((id, e) ∷ d) = (id, e.turn.status) ∷ statuses_of d

performed_test :
    statuses (performed requests empty_queue)
    ≡ ("t1", completed) ∷ ("t2", completed) ∷ ("t3", processing) ∷ []
unfolding performed finish_compaction strip get enqueue_turn_for_execution acquire_compaction_lease
    complete_turn_and_claim_next claim_next_turn sort put Dict.put_all
performed_test = refl

abbrev entry : String → TurnStatus → ℕ → TurnEntry
entry id status n = record {
  owner = "u1";
  turn = set_status status (turn id n);
  owner_sequence = n;
}

abbrev lease : Lease
lease = record {
  conversation_id = "c1";
  lease_owner = "w1";
  lease_token = "k1";
  lease_expires_at = 50;
}

-- Two turns wait while the worker w1 compacts under the token k1.
abbrev compacting : Queue
compacting = record {
  repository = record {
    turns = ("t1", entry "t1" queued 1) ∷ ("t2", entry "t2" queued 2) ∷ [];
    next_turn_sequence = 3;
  };
  compaction_leases = ("c1", record { user = "u1"; lease = lease }) ∷ [];
}

abbrev first_requests : List Request
first_requests = executing "u1" (turn "t1" 10) ∷ executing "u1" (turn "t2" 11) ∷ []

first_is_accepted :
    get "t1" (performed first_requests empty_queue).repository.turns
    ≡ some (record { owner = "u1"; turn = turn "t1" 10; owner_sequence = 1 })
unfolding performed get enqueue_turn_for_execution strip put
first_is_accepted = refl

perform-IsContinued_example :
    IsContinued "t1"
      (record { owner = "u1"; turn = turn "t1" 10; owner_sequence = 1 })
      (perform (claiming "u1" "c1") (performed first_requests empty_queue))
perform-IsContinued_example =
    perform-IsContinued (claiming "u1" "c1") (performed first_requests empty_queue) "t1"
      (record { owner = "u1"; turn = turn "t1" 10; owner_sequence = 1 }) tt
      (performed-IsSound first_requests empty_queue (tt, (tt, tt)) empty_queue-IsSound)
      first_is_accepted

abbrev new_lease : Lease
new_lease = record lease { lease_owner = "w2"; lease_token = "k2"; lease_expires_at = 90 }

taken_over : (acquire_compaction_lease "k2" "u1" "c1" "w2" 60 90 compacting).0 ≡ ok (some new_lease)
unfolding acquire_compaction_lease strip get
taken_over = refl

abbrev token : String
token = "k1"

tokens_differ : "k2" ≢ token
tokens_differ p = absurd (cc ((eq_iff "k2" token).1 p))

abbrev late_token : String
late_token = "k0"

late_token_differs : "k1" ≢ late_token
late_token_differs p = absurd (cc ((eq_iff "k1" late_token).1 p))

-- The lease is held under another token.
other_token-IsLost :
    (state : LeaseState)
    → get (strip "c1") compacting.compaction_leases ≡ some state
    → IsLost (strip "u1") (strip "w1") "k0" 30 state
unfolding get strip
other_token-IsLost state h =
    let same : record { user = "u1"; lease = lease } ≡ state = cc h in
    subst (IsLost "u1" "w1" "k0" 30) same (inr (inr (inl late_token_differs)))

finish_compaction-lost_example :
    IsRefused compacting (finish_compaction "u1" "c1" "w1" "k0" 30 true none compacting)
finish_compaction-lost_example =
    finish_compaction-lost "u1" "c1" "w1" "k0" 30 true none compacting other_token-IsLost

-- The lease of w1 has expired and w2 takes it over; w1 is late.
acquire_compaction_lease-fences_example :
    IsRefused (acquire_compaction_lease "k2" "u1" "c1" "w2" 60 90 compacting).1 (
      finish_compaction "u1" "c1" "w1" "k1" 61 true none
        (acquire_compaction_lease "k2" "u1" "c1" "w2" 60 90 compacting).1)
acquire_compaction_lease-fences_example =
    acquire_compaction_lease-fences "k2" "u1" "c1" "w2" 60 90 compacting new_lease "u1" "w1" "k1" 61
      true none taken_over tokens_differ

claim_next_of-ClaimsInOrder_example :
    ClaimsInOrder "u1" "c1" compacting (claim_next_of "u1" "c1" compacting.repository)
unfolding get
claim_next_of-ClaimsInOrder_example =
    claim_next_of-ClaimsInOrder "u1" "c1" compacting (refl, refl, (refl, refl, tt))

enqueue_turn_for_execution-twice_example :
    enqueue_turn_for_execution "u1"
      (turn "t3" 12)
      (enqueue_turn_for_execution "u1" (turn "t3" 12) empty_queue).1
    ≡ (ok (turn "t3" 12), (enqueue_turn_for_execution "u1" (turn "t3" 12) empty_queue).1)
unfolding enqueue_turn_for_execution strip get
enqueue_turn_for_execution-twice_example =
    enqueue_turn_for_execution-twice "u1" (turn "t3" 12) (turn "t3" 12) empty_queue tt refl

create_turn-get_turn_example :
    get_turn "u1" "t3" (create_turn "u1" (turn "t3" 12) empty_queue).1.repository
    ≡ ok (some (turn "t3" 12))
unfolding create_turn strip get
create_turn-get_turn_example =
    create_turn-get_turn "u1" (turn "t3" 12) (turn "t3" 12) empty_queue tt refl
