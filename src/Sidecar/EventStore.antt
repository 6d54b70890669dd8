-- ===== src/Sidecar/EventStore.antt =====
-- `SqliteRunEventStore` of services/pixelflow-agent-harness/src/pixelflow_harness_sidecar/
-- event_store.py. The lock makes a method one step. An exception leaves the statements before it
-- executed, since nothing rolls the connection back. SHA-256 is the parameter `sha256_hex`; the
-- readings of the clock are arguments.
pub mod Sequences
pub mod Replay
pub mod Operations
pub mod Recovery
use Prim.Native.Nat.{◌/◌, ◌%◌, max}
use Prim.Native.String.{◌++◌ as ◌◇◌, slice, char_at}
use pixelflow.Base.Exec.{Exec, pure, raise, lift, ◌>>=◌, ◌>>◌}
use pixelflow.Base.Json.{Json, Fields, end, field, text}
use pixelflow.Base.Results.{Result, ok, err, lookup_error, conflict, integrity, runtime_error}
use pixelflow.Base.Sorting.{sort}
use pixelflow.Base.{
  ℕ, zero, suc, ◌+◌, String, Bool, true, false, ◌&&◌, ◌||◌, not, Option, none, some, List, [], ◌∷◌,
  ◌++◌, map, ltb, leb, nat_beq, ◌==◌, if◌then◌else◌, is_some, filter, find, any, length,
}
use pixelflow.Sidecar.Rows.{
  RunStatus, accepted, running, failed, cancelled, TerminationReason, by_cancellation, engine_error,
  is_accepted, is_running, is_terminal, status_text, RunRow, EventRow, SkillRow, Store, RunRequest,
  SkillSnapshot,
}

-- `str(n)`; the fuel `n + 1` is more than the digits of `n`.
decimal_go : ℕ → ℕ → String
decimal_go zero n = ""
decimal_go (suc fuel) n =
    let rest = decimal_go fuel (n / 10) in
    let digit = slice "0123456789" (n % 10) (n % 10 + 1) in if ltb n 10 then digit else rest ◇ digit

unfoldable pub decimal : ℕ → String
unfolding decimal_go
decimal n = decimal_go (n + 1) n

-- {"key": value}
abbrev pub single : String → String → Fields
single key value = field key (text value) end

-- `WHERE run_id = ?`
abbrev pub find_run : String → Store → Option RunRow
find_run run_id s = find (λ r. r.run_id == run_id) s.runs

abbrev pub find_key : String → Store → Option RunRow
find_key key s = find (λ r. r.run_request_key == key) s.runs

abbrev pub of_run : String → List EventRow → List EventRow
of_run run_id = filter (λ e. e.event_run == run_id)

abbrev pub sequences : List EventRow → List ℕ
sequences = map (λ e. e.sequence)

-- `COALESCE(MAX(sequence), 0)`
unfoldable pub max_sequence : List EventRow → ℕ
max_sequence [] = 0
max_sequence (e ∷ es) = max e.sequence (max_sequence es)

-- `UPDATE harness_runs SET … WHERE run_id = ?`
unfoldable pub update_run : String → (RunRow → RunRow) → List RunRow → List RunRow
update_run run_id f [] = []
update_run run_id f (r ∷ rs) = (if r.run_id == run_id then f r else r) ∷ update_run run_id f rs

-- `ORDER BY sequence ASC`
unfoldable pub insert_event : EventRow → List EventRow → List EventRow
insert_event e [] = e ∷ []
insert_event e (x ∷ xs) = if leb e.sequence x.sequence then e ∷ x ∷ xs else x ∷ insert_event e xs

unfoldable pub order_by_sequence : List EventRow → List EventRow
unfolding insert_event
order_by_sequence [] = []
order_by_sequence (e ∷ es) = insert_event e (order_by_sequence es)

unfoldable pub get_by_request_found : RunRequest → Option RunRow → Result (Option RunRow)
get_by_request_found request none = ok none
get_by_request_found request (some row) =
    if row.request_digest == request.request_digest then ok (some row) else err conflict

unfoldable pub get_by_request : RunRequest → Store → Result (Option RunRow)
unfolding get_by_request_found
get_by_request request s = get_by_request_found request (find_key request.run_request_key s)

abbrev pub moved_to : RunStatus → Option TerminationReason → ℕ → RunRow → RunRow
moved_to status reason now row = record row {
  status = status;
  termination_reason = reason;
  completed_at = if is_accepted status || is_running status then row.completed_at else some now;
}

unfoldable pub transition_found :
    String → RunStatus → Option TerminationReason → ℕ → Option RunRow → Exec Store RunRow
transition_found run_id status reason now none s = (err lookup_error, s)
transition_found run_id status reason now (some row) s = (
  ok (moved_to status reason now row),
  record s { runs = update_run run_id (moved_to status reason now) s.runs },
)

-- `transition` looks at no earlier status.
unfoldable pub transition : String → RunStatus → Option TerminationReason → ℕ → Exec Store RunRow
unfolding transition_found
transition run_id status reason now s =
    transition_found run_id status reason now (find_run run_id s) s

abbrev pub cancelled_run : ℕ → RunRow → RunRow
cancelled_run now row = record row {
  status = cancelled;
  termination_reason = some by_cancellation;
  completed_at = some now;
}

abbrev pub started_run : RunRow → RunRow
started_run row = record row { status = running }

abbrev pub failed_run : ℕ → RunRow → RunRow
failed_run now row = record row {
  status = failed;
  termination_reason = some engine_error;
  completed_at = some now;
}

-- The runs that have not ended, in the order of their acceptance, and their identifiers. The database
-- leaves the order of runs of one time open: here it is that of the table.
unfoldable pub unfinished_runs : Store → List RunRow
unfinished_runs s =
    sort (λ a b. leb a.accepted_at b.accepted_at) (filter (λ r. not (is_terminal r.status)) s.runs)

abbrev pub unfinished_run_ids : Store → List String
unfinished_run_ids s = map (λ r. r.run_id) (unfinished_runs s)

module _ (sha256_hex : String → String) where
  unfoldable pub run_id_of : String → String
  run_id_of key = "hrun_" ◇ slice (sha256_hex key) 0 32

  unfoldable pub event_id_of : String → ℕ → String
  event_id_of run_id sequence = "hevt_" ◇ slice (sha256_hex (run_id ◇ ":" ◇ decimal sequence)) 0 32

  -- `_append_locked`: the UNIQUE column `event_id` is checked; the primary key, with a sequence
  -- above all of the run, cannot clash.
  unfoldable pub append_locked : String → String → Fields → ℕ → Exec Store EventRow
  append_locked run_id event_type payload now s =
      let sequence = max_sequence (of_run run_id s.events) + 1 in
      let event_id = event_id_of run_id sequence in
      let event : EventRow = record {
        event_run = run_id;
        sequence = sequence;
        event_id = event_id;
        event_type = event_type;
        occurred_at = now;
        payload = payload;
      } in
      if any (λ e. e.event_id == event_id) s.events
      then (err integrity, s)
      else (ok event, record s { events = s.events ++ event ∷ [] })

  -- `executemany` over the skills, whose primary key is the run and the name.
  unfoldable pub insert_skills : String → List SkillRow → Exec Store (Unit {0})
  insert_skills run_id [] = pure tt
  insert_skills run_id (entry ∷ entries) =
      let rest = insert_skills run_id entries in
      λ s.
        if any (λ k. k.skill_run == run_id && k.name == entry.name) s.skills
        then (err integrity, s)
        else rest (record s { skills = s.skills ++ record entry { skill_run = run_id } ∷ [] })

  abbrev pub accepted_run : RunRequest → String → String → SkillSnapshot → ℕ → RunRow
  accepted_run request engine_id engine_version snapshot accepted_at = record {
    run_id = run_id_of request.run_request_key;
    run_request_key = request.run_request_key;
    request_digest = request.request_digest;
    status = accepted;
    termination_reason = none;
    engine_id = engine_id;
    engine_version = engine_version;
    skill_catalog_digest = snapshot.catalog_digest;
    accepted_at = accepted_at;
    completed_at = none;
  }

  unfoldable pub insert_run : RunRow → Exec Store (Unit {0})
  insert_run row s =
      if is_some (find_run row.run_id s)
      then (err integrity, s)
      else (ok tt, record s { runs = s.runs ++ row ∷ [] })

  unfoldable pub create_run_row :
      RunRequest → String → String → SkillSnapshot → ℕ → ℕ → Exec Store (RunRow × Bool)
  unfolding insert_run insert_skills append_locked ◌>>=◌
  create_run_row request engine_id engine_version snapshot accepted_at now = do
    let row = accepted_run request engine_id engine_version snapshot accepted_at
    insert_run row
    insert_skills row.run_id snapshot.entries
    append_locked row.run_id "run.accepted" (single "status" "accepted") now
    pure (row, true)

  unfoldable pub create_or_read_found :
      RunRequest → Exec Store (RunRow × Bool) → Option RunRow → Exec Store (RunRow × Bool)
  create_or_read_found request create none s = create s
  create_or_read_found request create (some existing) s =
      if existing.request_digest == request.request_digest
      then (ok (existing, false), s)
      else (err conflict, s)

  unfoldable pub create_or_get :
      RunRequest → String → String → SkillSnapshot → ℕ → ℕ → Exec Store (RunRow × Bool)
  unfolding create_run_row create_or_read_found
  create_or_get request engine_id engine_version snapshot accepted_at now s =
      create_or_read_found request
        (create_run_row request engine_id engine_version snapshot accepted_at now)
        (find_key request.run_request_key s) s

  -- UPDATE, append and read back, which `start_if_accepted` and `cancel` share.
  unfoldable pub update_and_append :
      String → (RunRow → RunRow) → RunRow → String → Fields → ℕ → Exec Store (Option RunRow)
  unfolding append_locked ◌>>=◌
  update_and_append run_id f row event_type payload now s =
      (append_locked run_id event_type payload now >>= λ e. pure (some (f row)))
        (record s { runs = update_run run_id f s.runs })

  unfoldable pub start_found : String → ℕ → Option RunRow → Exec Store (Option RunRow)
  unfolding update_and_append
  start_found run_id now none s = (ok none, s)
  start_found run_id now (some row) s =
      if not (is_accepted row.status)
      then (ok (some row), s)
      else update_and_append run_id started_run row "run.started" (single "status" "running") now s

  unfoldable pub start_if_accepted : String → ℕ → Exec Store (Option RunRow)
  unfolding start_found
  start_if_accepted run_id now s = start_found run_id now (find_run run_id s) s

  unfoldable pub cancel_found : String → ℕ → ℕ → Option RunRow → Exec Store (Option RunRow)
  unfolding update_and_append
  cancel_found run_id completed_at now none s = (ok none, s)
  cancel_found run_id completed_at now (some row) s =
      if is_terminal row.status
      then (ok (some row), s)
      else update_and_append run_id (cancelled_run completed_at) row "run.cancelled"
          (single "status" "cancelled") now s

  unfoldable pub cancel : String → ℕ → ℕ → Exec Store (Option RunRow)
  unfolding cancel_found
  cancel run_id completed_at now s = cancel_found run_id completed_at now (find_run run_id s) s

  -- The loop of `fail_unfinished_runs_after_restart`.
  unfoldable pub fail_runs : List String → ℕ → ℕ → Exec Store (Unit {0})
  unfolding append_locked ◌>>=◌
  fail_runs [] completed_at now = pure tt
  fail_runs (run_id ∷ run_ids) completed_at now =
      let rest = fail_runs run_ids completed_at now in
      λ s.
        (append_locked run_id "run.failed" (single "code" "harness_run_recovery_required") now
            >>= λ e. rest)
          (record s { runs = update_run run_id (failed_run completed_at) s.runs })

  unfoldable pub fail_unfinished_runs_after_restart : ℕ → ℕ → Exec Store (List String)
  unfolding fail_runs ◌>>=◌
  fail_unfinished_runs_after_restart completed_at now s =
      (fail_runs (unfinished_run_ids s) completed_at now >>= λ u. pure (unfinished_run_ids s)) s

-- `events_after` and `has_cursor`
unfoldable pub events_after : String → ℕ → Store → List EventRow
unfolding order_by_sequence
events_after run_id after_sequence s =
    order_by_sequence
      (filter (λ e. e.event_run == run_id && ltb after_sequence e.sequence) s.events)

unfoldable pub has_cursor : String → ℕ → Store → Bool
unfolding max_sequence
has_cursor run_id after_sequence s = leb after_sequence (max_sequence (of_run run_id s.events))
