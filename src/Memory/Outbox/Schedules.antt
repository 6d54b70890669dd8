-- ===== src/Memory/Outbox/Schedules.antt =====
-- Schedules of workers on the queue of memory writes, in which a claim is its two halves, the SELECT
-- and the commit: without a replay by its owner, a write is handed out for submission at most once
-- where no call comes between the halves of a claim.
use pixelflow.Base.Dict.{Dict, get, put, pop, get-put_self, IsKeyed}
use pixelflow.Base.{
  ℕ, ◌≤◌, String, ◌≡◌, refl, subst, Bool, Option, none, some, List, [], ◌∷◌, ◌++◌, arith,
}
use pixelflow.Memory.Outbox.{WriteRow, Rows, MemoryWrite, select_due, claim_found, claim}
use pixelflow.Memory.Outbox.Submissions.{
  Command, claiming, handed, step, submissions, allowance, step-allowance, step-Keyed,
  submissions-append, allowance_of_bound,
}

-- A call that runs alone, or a half of a claim.
pub data Turn : Type 0 where
  calling : Command → Turn
  reading : (worker_id : String) → (now : ℕ) → Turn
  writing : (worker_id : String) → (lease_seconds : ℕ) → Turn

-- What each worker has read and not yet written, with the time of its claim.
abbrev pub Reads : Type 0
Reads = Dict (Option WriteRow × ℕ)

abbrev written :
    String → ℕ → Option (Option WriteRow × ℕ) → Rows → Reads → List MemoryWrite × Rows × Reads
written worker_id lease_seconds none rows reads = ([], rows, reads)
written worker_id lease_seconds (some (row, now)) rows reads =
    let (out, rows') = handed (claim_found worker_id lease_seconds now row rows) in
    (out, rows', pop worker_id reads)

unfoldable pub take_turn : Bool → Turn → Rows → Reads → List MemoryWrite × Rows × Reads
unfolding step
take_turn nulls_first (calling c) rows reads =
    let (out, rows') = step nulls_first c rows in (out, rows', reads)
take_turn nulls_first (reading worker_id now) rows reads =
    ([], rows, put worker_id (select_due nulls_first now rows, now) reads)
take_turn nulls_first (writing worker_id lease_seconds) rows reads =
    written worker_id lease_seconds (get worker_id reads) rows reads

-- Every write that the schedule hands out, in order.
unfoldable pub schedule : Bool → List Turn → Rows → Reads → List MemoryWrite
unfolding take_turn
schedule nulls_first [] rows reads = []
schedule nulls_first (t ∷ ts) rows reads =
    let (out, rows', reads') = take_turn nulls_first t rows reads in
    out ++ schedule nulls_first ts rows' reads'

-- Each claim is written right after it has read.
abbrev pub IsSerial : List Turn → Type 0
IsSerial [] = Unit
IsSerial (calling c ∷ ts) = IsSerial ts
IsSerial (reading worker_id now ∷ writing writer lease_seconds ∷ ts) =
    (worker_id ≡ writer) × IsSerial ts
IsSerial _ = ⊥

-- A claim whose halves are not parted is the claim as a whole.
claim_whole :
    (nulls_first : Bool) (worker_id : String) (lease_seconds now : ℕ) (rows : Rows) (reads : Reads)
    → let reads' = put worker_id (select_due nulls_first now rows, now) reads in
      take_turn nulls_first (writing worker_id lease_seconds) rows reads' ≡ (
        (step nulls_first (claiming worker_id lease_seconds now) rows).0,
        (step nulls_first (claiming worker_id lease_seconds now) rows).1,
        pop worker_id reads',
      )
unfolding take_turn step claim
claim_whole nulls_first worker_id lease_seconds now rows reads =
    rw (get-put_self worker_id (select_due nulls_first now rows, now) reads) refl

-- What a call hands out and the rest of the schedule after it are within the allowance.
after_call :
    (nulls_first : Bool) (c : Command) (key : String) (rows : Rows) (rest : Rows → List MemoryWrite)
    → IsKeyed (λ r. r.write_key) rows
    → submissions key (rest (step nulls_first c rows).1) ≤ allowance key (step nulls_first c rows).1
    → submissions key ((step nulls_first c rows).0 ++ rest (step nulls_first c rows).1)
      ≤ allowance key rows
after_call nulls_first c key rows rest h later = omega (
  arith,
  submissions-append key (step nulls_first c rows).0 (rest (step nulls_first c rows).1),
  step-allowance nulls_first c key rows h,
  later,
)

schedule-allowance :
    (nulls_first : Bool) (ts : List Turn) (key : String) (rows : Rows) (reads : Reads)
    → IsKeyed (λ r. r.write_key) rows
    → IsSerial ts
    → submissions key (schedule nulls_first ts rows reads) ≤ allowance key rows
unfolding schedule take_turn
schedule-allowance nulls_first [] key rows reads h serial = omega arith
schedule-allowance nulls_first (calling c ∷ ts) key rows reads h serial =
    after_call nulls_first c key rows (λ rows'. schedule nulls_first ts rows' reads) h
      (schedule-allowance nulls_first ts key (step nulls_first c rows).1 reads
        (step-Keyed nulls_first c rows h) serial)
schedule-allowance nulls_first (reading worker_id now ∷ []) key rows reads h serial = absurd serial
schedule-allowance nulls_first (reading worker_id now ∷ calling c ∷ ts) key rows reads h serial =
    absurd serial
schedule-allowance nulls_first (reading worker_id now ∷ reading other at ∷ ts) key rows reads h
      serial =
    absurd serial
schedule-allowance nulls_first (reading worker_id now ∷ writing writer lease_seconds ∷ ts) key rows
      reads h (same, serial) =
    let reads' = put worker_id (select_due nulls_first now rows, now) reads in
    let c = claiming worker_id lease_seconds now in
    let whole : submissions key (
          (step nulls_first c rows).0
          ++ schedule nulls_first ts (step nulls_first c rows).1 (pop worker_id reads'))
        ≤ allowance key rows =
      after_call nulls_first c key rows
        (λ rows'. schedule nulls_first ts rows' (pop worker_id reads')) h
        (schedule-allowance nulls_first ts key (step nulls_first c rows).1 (pop worker_id reads')
          (step-Keyed nulls_first c rows h) serial) in
    subst
      (λ writer.
        submissions key (schedule nulls_first (writing writer lease_seconds ∷ ts) rows reads')
        ≤ allowance key rows)
      same (rw (claim_whole nulls_first worker_id lease_seconds now rows reads) whole)
schedule-allowance nulls_first (writing worker_id lease_seconds ∷ ts) key rows reads h serial =
    absurd serial

-- Where each row of the queue stands under its key, then in any schedule of workers that enqueue,
-- claim, save, retry, review and complete, with leases that run out, in which no other turn comes
-- between the read and the write of a claim and the owner replays nothing: of all the writes that
-- are claimed, at most one of each key may be submitted.
pub submissions_at_most_one :
    (nulls_first : Bool) (ts : List Turn) (key : String) (rows : Rows)
    → IsKeyed (λ r. r.write_key) rows
    → IsSerial ts
    → submissions key (schedule nulls_first ts rows []) ≤ 1
submissions_at_most_one nulls_first ts key rows h serial = omega (
  arith,
  schedule-allowance nulls_first ts key rows [] h serial,
  allowance_of_bound (get key rows),
)
