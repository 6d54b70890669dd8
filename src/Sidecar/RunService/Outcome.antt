-- ===== src/Sidecar/RunService/Outcome.antt =====
-- What a whole execution does to its run, and that a finished run is out of its reach.
use pixelflow.Base.Exec.{pure, continue, ◌>>=◌}
use pixelflow.Base.Json.{Fields}
use pixelflow.Base.Results.{Result, ok, err}
use pixelflow.Base.{
  ℕ, String, ◌≡◌, refl, ap, ◌∙◌, Bool, true, false, not, Option, none, some, List, Bool-cases,
  Option-cases, inl, inr, arith,
}
use pixelflow.Sidecar.EventStore.{
  find_run, cancel, cancel_found, start_if_accepted, start_found, started_run, update_run,
  append_locked, single,
}
use pixelflow.Sidecar.RunService.{
  Reply, returned, raised, task_cancelled, Meanwhile, append_event, cancel_now, fail, fail_found,
  fail_store, engine_replied, meanwhile, announce, begin, begun, execute, runs_now, type_name_of,
}
use pixelflow.Sidecar.RunService.Settling.{is_settled, IsSettled, is_begun, append_event-Holds}
use pixelflow.Sidecar.RunService.Execution.{
  update_and_append-Holds, fail-IsSettled, meanwhile-is_begun, engine_replied-IsSettled,
}
use pixelflow.Sidecar.Rows.{
  is_accepted, is_running, is_terminal, RunStatus, RunRow, EventRow, Store,
}

is_terminal-eq :
    (status : RunStatus)
    → is_terminal status ≡ true
    → (is_accepted status ≡ false) × (is_running status ≡ false)
is_terminal-eq status h = (ground arith, ground arith)

module _ (sha256_hex : String → String) (clock : Store → ℕ) (run_id : String) where
  -- Where `begin` may leave the run: begun if it is to go on, settled if not.
  abbrev IsReady : Result Bool → Store → Type 0
  IsReady (ok true) s = is_begun (find_run run_id s) ≡ true
  IsReady (ok false) s = IsSettled run_id s
  IsReady (err e) s = Unit

  abbrev IsAgreed : Option RunRow → Store → Type 0
  IsAgreed started s =
      (is_begun (find_run run_id s) ≡ true) × (runs_now started ≡ false → IsSettled run_id s)

  announce-IsReady :
      (started : Option RunRow) (s : Store)
      → IsAgreed started s
      → IsReady
          (announce sha256_hex clock run_id started s).0
          (announce sha256_hex clock run_id started s).1
  unfolding announce ◌>>=◌
  announce-IsReady started s h = elim (Bool-cases (runs_now started)) [
    | inl t ↦ rw t (
        go (append_event sha256_hex clock run_id event_type payload s).0
          (append_event sha256_hex clock run_id event_type payload s).1
          (append_event-Holds sha256_hex clock run_id is_begun event_type payload s h.0))
    | inr t ↦ rw t (h.1 t)
  ]
    where
      event_type : String
      event_type = "public_summary.delta"

      payload : Fields
      payload = single "delta" "正在分析你的请求并核对工作区。"

      go :
          (r : Result EventRow) (t : Store)
          → is_begun (find_run run_id t) ≡ true
          → IsReady (continue r (λ _. pure true) t).0 (continue r (λ _. pure true) t).1
      go (ok e) t g = g
      go (err e) t g = tt

  -- What `start_if_accepted` answers.
  IsStarted : Result (Option RunRow) → Store → Type 0
  IsStarted (ok started) s = IsAgreed started s
  IsStarted (err e) s = Unit

  start_if_accepted-IsStarted :
      (now : ℕ) (s : Store)
      → IsStarted
          (start_if_accepted sha256_hex run_id now s).0
          (start_if_accepted sha256_hex run_id now s).1
  unfolding start_if_accepted start_found IsStarted
  start_if_accepted-IsStarted now s = elim (Option-cases (find_run run_id s)) [
    | inl e ↦ rw e (ap is_begun e, λ _. ap is_settled e)
    | inr (row, e) ↦ elim (Bool-cases (is_accepted row.status)) [
      | inr t ↦ rw (e, t) (ap is_begun e ∙ ap not t, λ u. ap is_settled e ∙ ground (arith, t, u))
      | inl t ↦
          rw (e, t)
            (go row
              (append_locked sha256_hex run_id "run.started" (single "status" "running") now
                (moved s)).0
              (append_locked sha256_hex run_id "run.started" (single "status" "running") now
                (moved s)).1
              (update_and_append-Holds sha256_hex clock run_id is_begun started_run row
                "run.started" (single "status" "running") now s (λ _. refl) e refl))
    ]
  ]
    where
      moved : Store → Store
      moved t = record t { runs = update_run run_id started_run t.runs }

      go :
          (row : RunRow) (r : Result EventRow) (t : Store)
          → is_begun (find_run run_id (continue r (λ _. pure (some (started_run row))) t).1) ≡ true
          → IsStarted
              (continue r (λ _. pure (some (started_run row))) t).0
              (continue r (λ _. pure (some (started_run row))) t).1
      go row (ok e) t g = (g, λ u. absurd (cc))
      go row (err e) t g = tt

  begin-IsReady :
      (s : Store) → IsReady (begin sha256_hex clock run_id s).0 (begin sha256_hex clock run_id s).1
  unfolding begin ◌>>=◌ IsStarted
  begin-IsReady s =
      go (start_if_accepted sha256_hex run_id (clock s) s).0
        (start_if_accepted sha256_hex run_id (clock s) s).1
        (start_if_accepted-IsStarted (clock s) s)
    where
      go :
          (r : Result (Option RunRow)) (t : Store)
          → IsStarted r t
          → IsReady
              (continue r (announce sha256_hex clock run_id) t).0
              (continue r (announce sha256_hex clock run_id) t).1
      go (ok started) t h = announce-IsReady started t h
      go (err e) t h = tt

  -- However the engine's call ends, whatever the callbacks and the cancellations of other tasks do
  -- meanwhile, and also where the store refuses an event, an execution leaves its run neither
  -- accepted nor running: the run is finished, suspended or not there.
  pub execute-IsSettled :
      (others : List Meanwhile) (reply : Reply) (s : Store)
      → IsSettled run_id (execute sha256_hex clock run_id others reply s).1
  unfolding execute begun fail_store
  execute-IsSettled others reply s =
      go (begin sha256_hex clock run_id s).0 (begin sha256_hex clock run_id s).1 (begin-IsReady s)
    where
      go :
          (r : Result Bool) (t : Store)
          → IsReady r t
          → IsSettled run_id (begun sha256_hex clock run_id others reply r t).1
      go (ok true) t h =
          engine_replied-IsSettled sha256_hex clock run_id reply
            (meanwhile sha256_hex clock run_id others t)
            (meanwhile-is_begun sha256_hex clock run_id others t h)
      go (ok false) t h = h
      go (err e) t h = fail-IsSettled sha256_hex clock run_id (type_name_of e) none t

  -- Once a run is completed, failed or cancelled, an engine's late reply, its late failure and a
  -- late cancellation of the task leave the whole store as it is.
  pub engine_replied-terminal :
      (reply : Reply) (s : Store) (row : RunRow)
      → find_run run_id s ≡ some row
      → is_terminal row.status ≡ true
      → (engine_replied sha256_hex clock run_id reply s).1 ≡ s
  unfolding engine_replied cancel_now cancel cancel_found fail fail_found ◌>>=◌
  engine_replied-terminal (returned result) s row e t = rw (e, (is_terminal-eq row.status t).1) refl
  engine_replied-terminal (raised type_name diagnostic) s row e t = rw (e, t) refl
  engine_replied-terminal task_cancelled s row e t = rw (e, t) refl

  -- An execution of a run that is completed, failed or cancelled before it starts does nothing.
  execute-terminal :
      (others : List Meanwhile) (reply : Reply) (s : Store) (row : RunRow)
      → find_run run_id s ≡ some row
      → is_terminal row.status ≡ true
      → execute sha256_hex clock run_id others reply s ≡ (ok tt, s)
  unfolding execute begun begin start_if_accepted start_found announce ◌>>=◌
  execute-terminal others reply s row e t =
      rw (e, (is_terminal-eq row.status t).0, (is_terminal-eq row.status t).1) refl
