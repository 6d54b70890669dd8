-- ===== src/Memory/Outbox/Tests.antt =====
-- Runs of the queue of memory writes, and its theorems at concrete rows.
use pixelflow.Base.Dict.{put}
use Prim.Native.Nat.{max, min}
use pixelflow.Base.Dict.{get}
use pixelflow.Base.Results.{ok}
use pixelflow.Base.{◌≡◌, refl, ◌≤◌, ◌*◌, true, false, some, List, [], ◌∷◌}
use pixelflow.Memory.Outbox.{
  Rows, WriteRow, MemoryWrite, new_row, claimed_write, leased_row, WorkerConfig, create_worker,
  Adapter, deliver, retry_delay_seconds,
}
use pixelflow.Memory.Outbox.Submissions.{submissions, enqueueing}
use pixelflow.Memory.Outbox.Schedules.{
  Turn, calling, reading, writing, schedule, submissions_at_most_one,
}
use pixelflow.Base.Dict.{pop}
use pixelflow.Memory.Outbox.{first_of, is_due}
use pixelflow.Memory.Outbox.Leases.{deliver-foreign, retry_delay_seconds_bounds}

abbrev row : WriteRow
row = new_row "u1" "likes blue" "preference" "k1" 100

abbrev rows : Rows
rows = ("k1", row) ∷ []

abbrev worker : WorkerConfig
worker = record {
  worker_id = "w1";
  lease_seconds = 30;
  retry_initial_seconds = 2;
  retry_max_seconds = 120;
  max_event_poll_attempts = 6;
}

abbrev adapter : Adapter
adapter = record { get_event_reply = λ _. ok false; add_reply = λ _. ok (some "event-1") }

abbrev claimed : MemoryWrite
claimed = claimed_write (leased_row "w1" 30 100 row)

-- Two workers claim the write, the second after the lease of the first ran out.
abbrev two_claims : List Turn
two_claims =
    calling (enqueueing "u1" "likes blue" "preference" "k1" 100)
    ∷ reading "w1" 100
    ∷ writing "w1" 30
    ∷ reading "w2" 200
    ∷ writing "w2" 30
    ∷ []

submissions_at_most_one_example : submissions "k1" (schedule true two_claims [] []) ≤ 1
submissions_at_most_one_example =
    submissions_at_most_one true two_claims "k1" [] tt (refl, (refl, tt))

-- After the second claim the lease is another worker's.
deliver-foreign_example :
    (deliver worker adapter 210 claimed (("k1", leased_row "w2" 30 200 row) ∷ [])).1
    ≡ ("k1", leased_row "w2" 30 200 row) ∷ []
unfolding get
deliver-foreign_example =
    deliver-foreign worker adapter 210 claimed (("k1", leased_row "w2" 30 200 row) ∷ []) refl

retry_delay_seconds_bounds_example :
    let cfg = create_worker "w1" 30 2 120 6 in
    (2 ≤ retry_delay_seconds cfg 3)
    × (retry_delay_seconds cfg 3 ≤ max 2 120)
    × (retry_delay_seconds cfg 5 ≡ min (max 2 120) (2 * retry_delay_seconds cfg 4))
retry_delay_seconds_bounds_example = retry_delay_seconds_bounds "w1" 30 2 120 6 3

third_delay : retry_delay_seconds worker 3 ≡ 8
unfolding retry_delay_seconds
third_delay = refl

second_claim_is_no_submission : submissions "k1" (schedule true two_claims [] []) ≡ 1
unfolding schedule get put pop first_of is_due
second_claim_is_no_submission = refl

-- Both workers read before either writes: then both are to submit the write.
abbrev overlapping_claims : List Turn
overlapping_claims =
    calling (enqueueing "u1" "likes blue" "preference" "k1" 100)
    ∷ reading "w1" 100
    ∷ reading "w2" 100
    ∷ writing "w1" 30
    ∷ writing "w2" 30
    ∷ []

submitted_twice : submissions "k1" (schedule true overlapping_claims [] []) ≡ 2
unfolding schedule get put pop first_of is_due
submitted_twice = refl
