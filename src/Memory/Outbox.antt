-- ===== src/Memory/Outbox.antt =====
-- `SQLWriteOutbox` and `MemoryWriteWorker` of backend/pixelflow/long_term_memory/outbox.py. The
-- table is a dictionary by its primary key; each method is one step, as it is where it runs alone.
-- `claim` reads a row and then writes it, and nothing in between keeps another claim from reading
-- the same row: its two halves are `select_due` and `claim_found`. A time is a number of seconds, a
-- delay a whole one. `claim` orders by a nullable column: where the database puts NULL is the
-- parameter `nulls_first`. The adapter of the memory service is seen through its replies; `deliver`
-- answers the calls that it makes.
pub mod Submissions
pub mod Schedules
pub mod Leases
mod Tests
use Prim.Native.Nat.{max, min}
use Prim.Native.String.{slice}
use pixelflow.Base.Dict.{Dict, get, put, values}
use pixelflow.Base.Exec.{Exec, pure, raise, lift, ◌>>=◌}
use pixelflow.Base.Results.{Result, ok, err, Error, value_error}
use pixelflow.Base.{
  ℕ, zero, suc, ◌+◌, ◌-◌, ◌*◌, ◌^◌, String, Bool, true, false, ◌&&◌, ◌||◌, not, Option, none, some,
  List, [], ◌∷◌, ltb, leb, ◌==◌, if◌then◌else◌, filter, is_missing, is_empty, same_text,
}

pub data WriteStatus : Type 0 where
  pending processing manual_review completed : WriteStatus

abbrev pub is_pending : WriteStatus → Bool
is_pending pending = true
is_pending _ = false

abbrev pub is_processing : WriteStatus → Bool
is_processing processing = true
is_processing _ = false

abbrev pub is_in_review : WriteStatus → Bool
is_in_review manual_review = true
is_in_review _ = false

-- `PixelFlowLongTermMemoryWriteRow`
pub record WriteRow : Type 0 where
  pub write_key : String
  pub user_id : String
  pub category : String
  pub content : String
  pub event_id : Option String
  pub status : WriteStatus
  pub delivery_attempts : ℕ
  pub lease_owner : Option String
  pub lease_expires_at : Option ℕ
  pub retry_not_before : Option ℕ
  pub last_failure_code : Option String
  pub created_at : ℕ

abbrev pub Rows : Type 0
Rows = Dict WriteRow

-- `MemoryWrite`
pub record MemoryWrite : Type 0 where
  pub write_key : String
  pub user_id : String
  pub category : String
  pub content : String
  pub event_id : Option String
  pub delivery_attempts : ℕ

abbrev pub claimed_write : WriteRow → MemoryWrite
claimed_write row = record {
  write_key = row.write_key;
  user_id = row.user_id;
  category = row.category;
  content = row.content;
  event_id = row.event_id;
  delivery_attempts = row.delivery_attempts;
}

abbrev pub new_row : String → String → String → String → ℕ → WriteRow
new_row user_id content category write_key now = record {
  write_key = write_key;
  user_id = user_id;
  category = category;
  content = content;
  event_id = none;
  status = pending;
  delivery_attempts = 0;
  lease_owner = none;
  lease_expires_at = none;
  retry_not_before = none;
  last_failure_code = none;
  created_at = now;
}

abbrev pub enqueue_found :
    String → String → String → String → ℕ → Option WriteRow → Exec Rows (Unit {0})
enqueue_found user_id content category write_key now none rows =
    (ok tt, put write_key (new_row user_id content category write_key now) rows)
enqueue_found user_id content category write_key now (some existing) rows =
    if existing.user_id == user_id && existing.category == category && existing.content == content
    then (ok tt, rows)
    else (err value_error, rows)

unfoldable pub enqueue : String → String → String → String → ℕ → Exec Rows (Unit {0})
enqueue user_id content category write_key now rows =
    enqueue_found user_id content category write_key now (get write_key rows) rows

-- `column IS NULL OR column <= now`, and `column <= now`, which is not true of NULL.
abbrev pub is_past_or_null : ℕ → Option ℕ → Bool
is_past_or_null now none = true
is_past_or_null now (some t) = leb t now

abbrev pub is_past : ℕ → Option ℕ → Bool
is_past now none = false
is_past now (some t) = leb t now

unfoldable pub is_due : ℕ → WriteRow → Bool
is_due now row =
    is_pending row.status && is_past_or_null now row.retry_not_before
    || is_processing row.status && is_past now row.lease_expires_at

-- `a` comes before `b` by `retry_not_before`, then `created_at`.
unfoldable pub is_before : Bool → WriteRow → WriteRow → Bool
is_before nulls_first a b = elim a.retry_not_before [
  | none ↦ elim b.retry_not_before [ none ↦ ltb a.created_at b.created_at | some t ↦ nulls_first ]
  | some u ↦ elim b.retry_not_before [
    | none ↦ not nulls_first
    | some t ↦ ltb u t || leb u t && ltb a.created_at b.created_at
  ]
]

-- `ORDER BY … LIMIT 1`
abbrev pub choose : Bool → WriteRow → Option WriteRow → Option WriteRow
choose nulls_first row none = some row
choose nulls_first row (some other) =
    if is_before nulls_first other row then some other else some row

unfoldable pub first_of : Bool → List WriteRow → Option WriteRow
unfolding is_before
first_of nulls_first [] = none
first_of nulls_first (row ∷ rows) = choose nulls_first row (first_of nulls_first rows)

abbrev pub leased_row : String → ℕ → ℕ → WriteRow → WriteRow
leased_row worker_id lease_seconds now row = record row {
  status = processing;
  lease_owner = some worker_id;
  lease_expires_at = some (now + lease_seconds);
  delivery_attempts = row.delivery_attempts + 1;
  retry_not_before = none;
}

-- The row that the SELECT of `claim` answers.
abbrev pub select_due : Bool → ℕ → Rows → Option WriteRow
select_due nulls_first now rows = first_of nulls_first (filter (is_due now) (values rows))

-- The commit of the row that was read: what else the row holds is as it was read.
abbrev pub claim_found : String → ℕ → ℕ → Option WriteRow → Rows → Option MemoryWrite × Rows
claim_found worker_id lease_seconds now none rows = (none, rows)
claim_found worker_id lease_seconds now (some row) rows =
    let leased = leased_row worker_id lease_seconds now row in
    (some (claimed_write leased), put row.write_key leased rows)

-- A claim that no other call comes into.
unfoldable pub claim : Bool → String → ℕ → ℕ → Rows → Option MemoryWrite × Rows
unfolding first_of is_due
claim nulls_first worker_id lease_seconds now rows =
    claim_found worker_id lease_seconds now (select_due nulls_first now rows) rows

-- The methods of a worker on its row: `row is None or row.lease_owner != worker_id` does nothing.
abbrev pub write_owned_found :
    String → String → (WriteRow → WriteRow) → Option WriteRow → Rows → Bool × Rows
write_owned_found worker_id write_key f none rows = (false, rows)
write_owned_found worker_id write_key f (some row) rows =
    if same_text row.lease_owner (some worker_id)
    then (true, put write_key (f row) rows)
    else (false, rows)

unfoldable pub write_owned : String → String → (WriteRow → WriteRow) → Rows → Bool × Rows
write_owned worker_id write_key f rows =
    write_owned_found worker_id write_key f (get write_key rows) rows

abbrev pub with_event_id : String → ℕ → ℕ → WriteRow → WriteRow
with_event_id event_id lease_seconds now row = record row {
  event_id = some event_id;
  last_failure_code = none;
  lease_expires_at = some (now + lease_seconds);
}

abbrev pub released : WriteStatus → Option ℕ → Option String → WriteRow → WriteRow
released status retry_not_before failure_code row = record row {
  status = status;
  lease_owner = none;
  lease_expires_at = none;
  retry_not_before = retry_not_before;
  last_failure_code = failure_code;
}

unfoldable pub save_event_id : String → String → String → ℕ → ℕ → Rows → Bool × Rows
unfolding write_owned
save_event_id write_key worker_id event_id lease_seconds now =
    write_owned worker_id write_key (with_event_id event_id lease_seconds now)

unfoldable pub retry : String → String → ℕ → String → ℕ → Rows → Rows
unfolding write_owned
retry write_key worker_id retry_after_seconds failure_code now rows =
    (write_owned worker_id write_key
      (released pending (some (now + retry_after_seconds)) (some (slice failure_code 0 64))) rows).1

unfoldable pub move_to_manual_review : String → String → String → Rows → Rows
unfolding write_owned
move_to_manual_review write_key worker_id failure_code rows =
    (write_owned worker_id write_key (released manual_review none (some (slice failure_code 0 64)))
      rows).1

unfoldable pub complete : String → String → Option String → Rows → Rows
unfolding write_owned
complete write_key worker_id event_id rows =
    (write_owned worker_id write_key
      (λ row. released completed none none (record row { event_id = event_id })) rows).1

abbrev pub requeued_attempts : Option String → ℕ
requeued_attempts none = 0
requeued_attempts (some e) = 1

abbrev pub requeued_row : WriteRow → WriteRow
requeued_row row =
    released pending none none (record row { delivery_attempts = requeued_attempts row.event_id })

abbrev pub requeue_found : String → String → Option WriteRow → Rows → Bool × Rows
requeue_found user_id write_key none rows = (false, rows)
requeue_found user_id write_key (some row) rows =
    if row.user_id == user_id && is_in_review row.status
    then (true, put write_key (requeued_row row) rows)
    else (false, rows)

unfoldable pub requeue_manual_review : String → String → Rows → Bool × Rows
requeue_manual_review user_id write_key rows =
    requeue_found user_id write_key (get write_key rows) rows

-- The arguments of `MemoryWriteWorker`, as its constructor keeps them.
pub record WorkerConfig : Type 0 where
  pub worker_id : String
  pub lease_seconds : ℕ
  pub retry_initial_seconds : ℕ
  pub retry_max_seconds : ℕ
  pub max_event_poll_attempts : ℕ

unfoldable pub create_worker : String → ℕ → ℕ → ℕ → ℕ → WorkerConfig
create_worker worker_id lease_seconds retry_initial_seconds retry_max_seconds
      max_event_poll_attempts =
    record {
      worker_id = worker_id;
      lease_seconds = lease_seconds;
      retry_initial_seconds = retry_initial_seconds;
      retry_max_seconds = max retry_initial_seconds retry_max_seconds;
      max_event_poll_attempts = max 1 max_event_poll_attempts;
    }

unfoldable pub retry_delay_seconds : WorkerConfig → ℕ → ℕ
retry_delay_seconds cfg delivery_attempts =
    min cfg.retry_max_seconds (cfg.retry_initial_seconds * 2 ^ (delivery_attempts - 1))

-- A call of the adapter.
pub data Call : Type 0 where
  get_event add : (write_key : String) → Call

-- `LongTermMemoryPort`: `get_event` answers whether the event is stable.
pub record Adapter : Type 0 where
  pub get_event_reply : MemoryWrite → Result Bool
  pub add_reply : MemoryWrite → Result (Option String)

abbrev pub may_submit : MemoryWrite → Bool
may_submit claimed = is_missing claimed.event_id && leb claimed.delivery_attempts 1

module _ (cfg : WorkerConfig) (adapter : Adapter) (now : ℕ) (claimed : MemoryWrite) where
  unfoldable pub review : String → Rows → Rows
  unfolding move_to_manual_review
  review = move_to_manual_review claimed.write_key cfg.worker_id

  unfoldable pub retry_or_manual_review : String → Rows → Rows
  unfolding review retry retry_delay_seconds
  retry_or_manual_review failure_code rows =
      if leb cfg.max_event_poll_attempts claimed.delivery_attempts
      then review "mem0_event_poll_attempts_exhausted" rows
      else retry claimed.write_key cfg.worker_id (retry_delay_seconds cfg claimed.delivery_attempts)
          failure_code now rows

  unfoldable pub event_replied : Result Bool → Rows → Rows
  unfolding complete retry_or_manual_review review
  event_replied (ok true) rows = complete claimed.write_key cfg.worker_id claimed.event_id rows
  event_replied (ok false) rows = retry_or_manual_review "mem0_event_pending" rows
  event_replied (err e) rows = review "mem0_add_submit_boundary_unknown" rows

  abbrev pub retry_if : Bool × Rows → Rows
  retry_if (true, rows) =
      retry claimed.write_key cfg.worker_id (retry_delay_seconds cfg claimed.delivery_attempts)
        "mem0_event_pending" now rows
  retry_if (false, rows) = rows

  abbrev pub submitted : String → Rows → Rows
  submitted event_id rows =
      if is_empty event_id
      then review "mem0_add_event_id_missing" rows
      else retry_if
          (save_event_id claimed.write_key cfg.worker_id event_id cfg.lease_seconds now rows)

  unfoldable pub add_replied : Result (Option String) → Rows → Rows
  unfolding review save_event_id retry retry_delay_seconds
  add_replied (ok none) rows = review "mem0_add_event_id_missing" rows
  add_replied (ok (some event_id)) rows = submitted event_id rows
  add_replied (err e) rows = review "mem0_add_submit_boundary_unknown" rows

  -- `run_once` after the claim: the calls of the adapter and the rows.
  unfoldable pub deliver : Rows → List Call × Rows
  unfolding event_replied review add_replied
  deliver rows =
      if not (is_missing claimed.event_id)
      then (get_event claimed.write_key ∷ [], event_replied (adapter.get_event_reply claimed) rows)
      else if ltb 1 claimed.delivery_attempts
      then ([], review "mem0_add_submit_boundary_unknown" rows)
      else (add claimed.write_key ∷ [], add_replied (adapter.add_reply claimed) rows)

module _ (nulls_first : Bool) (cfg : WorkerConfig) (adapter : Adapter) where
  abbrev pub deliver_claimed : ℕ → Option MemoryWrite × Rows → Bool × List Call × Rows
  deliver_claimed now (none, rows) = (false, [], rows)
  deliver_claimed now (some claimed, rows) =
      let (calls, rows') = deliver cfg adapter now claimed rows in (true, calls, rows')

  -- `run_once`, with what it answers.
  unfoldable pub run_once : ℕ → Rows → Bool × List Call × Rows
  unfolding claim deliver
  run_once now rows =
      deliver_claimed now (claim nulls_first cfg.worker_id cfg.lease_seconds now rows)
