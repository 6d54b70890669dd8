-- ===== src/Sidecar/Tests.antt =====
-- Runs of the event store and of an execution, and their theorems at concrete stores. The hash of
-- the examples is the text itself behind a separator, which keeps the identifiers apart.
use pixelflow.Base.Dict.{put}
use pixelflow.Base.Dict.{get}
use pixelflow.Sidecar.EventStore.{update_run}
use pixelflow.Sidecar.EventStore.{max_sequence}
use pixelflow.Sidecar.EventStore.{decimal}
use pixelflow.Sidecar.EventStore.{event_id_of}
use pixelflow.Sidecar.EventStore.{run_id_of}
use pixelflow.Base.Json.{end}
use pixelflow.Base.Results.{ok}
use pixelflow.Base.{
  some, ℕ, String, ◌≡◌, refl, true, false, none, List, [], ◌∷◌, filter, length, ltb,
}
use pixelflow.Sidecar.Rows.{cancelled, RunRow, Store, empty_store, RunRequest, SkillSnapshot}
use pixelflow.Sidecar.EventStore.{create_or_get, events_after, of_run, sequences, accepted_run}
use pixelflow.Sidecar.EventStore.Sequences.{upto, IsSequenced}
use pixelflow.Sidecar.EventStore.Replay.{sequences-events_after}
use pixelflow.Sidecar.EventStore.Operations.{
  Operation, creating, starting, appending, apply_all, apply_all-IsSequenced, create_or_get_twice,
}
use pixelflow.Sidecar.RunService.{raised, cancel_requested, engine_replied, execute}
use pixelflow.Sidecar.RunService.Tasks.{Service, activate_run, cancel_run, activate_run_twice}
use pixelflow.Sidecar.RunService.Settling.{IsSettled}
use pixelflow.Sidecar.RunService.Outcome.{execute-IsSettled, engine_replied-terminal}

abbrev hex : String → String
hex s = s

abbrev clock : Store → ℕ
clock s = 100

abbrev request : RunRequest
request = record { run_request_key = "k1"; request_digest = "d1" }

abbrev snapshot : SkillSnapshot
snapshot = record { catalog_digest = "sha256:0"; entries = [] }

abbrev operations : List Operation
operations =
    creating request "deepseek" "1" snapshot 100 100
    ∷ starting "hrun_k1" 101
    ∷ appending "hrun_k1" "public_summary.delta" end 102
    ∷ []

abbrev begun_store : Store
begun_store = apply_all hex operations empty_store

abbrev run : RunRow
run = accepted_run hex request "deepseek" "1" snapshot 100

abbrev cancelled_store : Store
cancelled_store = record { runs = record run { status = cancelled } ∷ []; events = []; skills = [] }

abbrev accepted_store : Store
accepted_store = record { runs = run ∷ []; events = []; skills = [] }

empty-IsSequenced : IsSequenced []
unfolding upto
empty-IsSequenced run_id = refl

apply_all-IsSequenced_example : IsSequenced begun_store.events
apply_all-IsSequenced_example = apply_all-IsSequenced hex operations empty_store empty-IsSequenced

sequences-events_after_example :
    sequences (events_after "hrun_k1" 1 begun_store)
    ≡ filter (ltb 1) (upto (length (of_run "hrun_k1" begun_store.events)))
sequences-events_after_example =
    sequences-events_after "hrun_k1" 1 begun_store apply_all-IsSequenced_example

create_or_get_twice_example :
    let t = (create_or_get hex request "deepseek" "1" snapshot 100 100 empty_store).1 in
    create_or_get hex request "deepseek" "2" snapshot 200 200 t ≡ (ok (run, false), t)
unfolding create_or_get
create_or_get_twice_example =
    create_or_get_twice hex request "deepseek" "1" snapshot 100 100 empty_store run true refl
      "deepseek" "2" snapshot 200 200

execute-IsSettled_example :
    IsSettled "hrun_k1"
      (execute hex clock "hrun_k1"
        (cancel_requested ∷ [])
        (raised "TimeoutError" none)
        accepted_store).1
execute-IsSettled_example =
    execute-IsSettled hex clock "hrun_k1" (cancel_requested ∷ []) (raised "TimeoutError" none)
      accepted_store

engine_replied-terminal_example :
    (engine_replied hex clock "hrun_k1" (raised "TimeoutError" none) cancelled_store).1
    ≡ cancelled_store
unfolding run_id_of
engine_replied-terminal_example =
    engine_replied-terminal hex clock "hrun_k1" (raised "TimeoutError" none) cancelled_store
      (record run { status = cancelled }) refl refl

numbered_from_one : sequences (events_after "hrun_k1" 1 begun_store) ≡ 2 ∷ 3 ∷ []
unfolding apply_all events_after run_id_of event_id_of decimal max_sequence
numbered_from_one = refl

-- A service that has accepted one run and not started it.
abbrev service : Service
service = record {
  store = accepted_store;
  tasks = [];
  pending = ("hrun_k1", (request, snapshot)) ∷ [];
  created = 0;
}

abbrev activated : Service
activated = record service {
  tasks = ("hrun_k1", record { number = 0; request = (request, snapshot) }) ∷ [];
  created = 1;
}

activate_run_twice_example : activate_run "hrun_k1" activated ≡ (ok (some run), activated)
unfolding activate_run run_id_of get put
activate_run_twice_example = activate_run_twice "hrun_k1" service activated (some run) refl

-- A run that was cancelled before its activation is not started.
cancelled_before_activation :
    (activate_run "hrun_k1" (cancel_run hex "hrun_k1" 110 110 service).1).1.tasks ≡ []
unfolding activate_run cancel_run run_id_of update_run
cancelled_before_activation = refl
