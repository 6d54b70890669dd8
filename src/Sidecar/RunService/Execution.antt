-- ===== src/Sidecar/RunService/Execution.antt =====
-- Every way through `_execute` settles the run.
use pixelflow.Base.Exec.{Exec, pure, catch, on_error, ◌>>=◌}
use pixelflow.Base.Json.{Fields}
use pixelflow.Base.Results.{Result, ok, err, Error}
use pixelflow.Base.{
  same_text, ℕ, String, ◌≡◌, refl, sym, ap, ◌∙◌, Bool, true, false, ◌||◌, not, Option, none, some,
  List, [], ◌∷◌, Bool-cases, Option-cases, inl, inr, ◌==◌, find, arith, if◌then◌else◌,
}
use pixelflow.Sidecar.EventStore.{
  append_locked, find_run, cancel, cancel_found, cancelled_run, update_and_append, update_run,
  single,
}
use pixelflow.Sidecar.RunService.{
  Diagnostic, ExecutionResult, Reply, returned, raised, task_cancelled, Meanwhile, public_event,
  cancel_requested, append_event, cancel_now, append_all, finish_with, append_summary, complete_run,
  project_tools, project_result, fail_found, fail, fail_store, engine_replied, meanwhile,
  suspension_of, finish_failure, failure_payload, recovery_required, type_name_of,
}
use pixelflow.Sidecar.RunService.Settling.{
  is_settled, IsSettled, is_begun, updated, find-update_run, append_locked-runs, append_event-Holds,
  bind-Holds, IsEnded, Ends, IsEnded-of_IsSettled, bind-Ends, finish_with-IsSettled,
  suspend_as-Ends,
}
use pixelflow.Sidecar.Rows.{
  RunStatus, completed, failed, max_output_tokens, engine_error, by_completion, is_accepted,
  is_running, is_terminal, RunRow, EventRow, Store,
}

is_terminal-is_settled :
    (status : RunStatus)
    → is_terminal status ≡ true
    → not (is_accepted status || is_running status) ≡ true
is_terminal-is_settled status h = ground arith

is_terminal-is_begun :
    (status : RunStatus) → is_terminal status ≡ true → not (is_accepted status) ≡ true
is_terminal-is_begun status h = ground arith

is_begun-is_settled :
    (status : RunStatus)
    → not (is_accepted status) ≡ true
    → is_running status ≡ false
    → not (is_accepted status || is_running status) ≡ true
is_begun-is_settled status h k = ground arith

module _ (sha256_hex : String → String) (clock : Store → ℕ) (run_id : String) where
  complete_run-Ends :
      (result : ExecutionResult)
      → Ends sha256_hex clock run_id (complete_run sha256_hex clock run_id result)
  unfolding complete_run
  complete_run-Ends result =
      bind-Ends sha256_hex clock run_id summaries (λ _. summary >>= λ _. deltas >>= λ _. response)
        λ _.
          bind-Ends sha256_hex clock run_id summary (λ _. deltas >>= λ _. response)
            λ _.
              bind-Ends sha256_hex clock run_id deltas (λ _. response)
                λ _.
                  bind-Ends sha256_hex clock run_id answered (λ _. finished)
                    λ _ s.
                      IsEnded-of_IsSettled sha256_hex clock run_id (finished s).0 (finished s).1 (
                        finish_with-IsSettled sha256_hex clock run_id completed by_completion
                          "run.completed" (single "status" "completed") s refl)
    where
      summaries : Exec Store (Unit {0})
      summaries =
          append_all sha256_hex clock run_id "public_summary.delta" "delta"
            (if result.notification_events_emitted then [] else result.public_summaries)

      summary : Exec Store (Unit {0})
      summary = append_summary sha256_hex clock run_id result

      deltas : Exec Store (Unit {0})
      deltas =
          append_all sha256_hex clock run_id "response.delta" "delta"
            (if result.notification_events_emitted then [] else result.response_deltas)

      answered : Exec Store EventRow
      answered =
          append_event sha256_hex clock run_id "response.completed"
            (single "response" result.final_response)

      finished : Exec Store (Unit {0})
      finished =
          finish_with sha256_hex clock run_id completed by_completion "run.completed"
            (single "status" "completed")

      response : Exec Store (Unit {0})
      response = answered >>= λ _. finished

  project_tools-Ends :
      (result : ExecutionResult)
      → Ends sha256_hex clock run_id (project_tools sha256_hex clock run_id result)
  unfolding project_tools
  project_tools-Ends result =
      elim (Bool-cases (same_text result.finish_reason (some "completed"))) [
        | inl t ↦ rw t (
            bind-Ends sha256_hex clock run_id tools
              (λ _. complete_run sha256_hex clock run_id result) λ _. complete_run-Ends result)
        | inr t ↦ rw t (
            bind-Ends sha256_hex clock run_id tools (λ _. finished)
              λ _ s. IsEnded-of_IsSettled sha256_hex clock run_id (finished s).0 (finished s).1 (
                finish_with-IsSettled sha256_hex clock run_id failed
                  (finish_failure result.finish_reason).0 "run.failed"
                  (single "code" (finish_failure result.finish_reason).1) s refl))
      ]
    where
      tools : Exec Store (Unit {0})
      tools =
          append_all sha256_hex clock run_id "tool.completed" "tool_name"
            (if result.tool_results_seen then result.tool_names else [])

      finished : Exec Store (Unit {0})
      finished =
          finish_with sha256_hex clock run_id failed (finish_failure result.finish_reason).0
            "run.failed" (single "code" (finish_failure result.finish_reason).1)

  project_result-Ends :
      (result : ExecutionResult)
      → Ends sha256_hex clock run_id (project_result sha256_hex clock run_id result)
  unfolding project_result
  project_result-Ends result = elim (Option-cases result.suspension_kind) [
    | inl e ↦ rw e (project_tools-Ends result)
    | inr (kind, e) ↦ rw e (
        suspend_as-Ends sha256_hex clock run_id (suspension_of kind) result.suspension_interrupt_id)
  ]

  pub fail-IsSettled :
      (type_name : String) (diagnostic : Option Diagnostic) (s : Store)
      → IsSettled run_id (fail sha256_hex clock run_id type_name diagnostic s).1
  unfolding fail fail_found
  fail-IsSettled type_name diagnostic s = elim (Option-cases (find_run run_id s)) [
    | inl e ↦ rw e (ap is_settled e)
    | inr (row, e) ↦ elim (Bool-cases (is_terminal row.status)) [
      | inl t ↦ rw (e, t) (ap is_settled e ∙ is_terminal-is_settled row.status t)
      | inr t ↦ elim (Bool-cases (recovery_required diagnostic)) [
        | inl u ↦
            rw (e, t, u)
              (finish_with-IsSettled sha256_hex clock run_id failed max_output_tokens "run.failed"
                (single "code" "harness_run_recovery_required") s refl)
        | inr u ↦
            rw (e, t, u)
              (finish_with-IsSettled sha256_hex clock run_id failed engine_error "run.failed"
                (failure_payload type_name diagnostic) s refl)
      ]
    ]
  ]

  -- A predicate that holds after the update holds after the event too.
  pub update_and_append-Holds :
      (test : Option RunRow → Bool) (f : RunRow → RunRow) (row : RunRow) (event_type : String)
      (payload : Fields) (now : ℕ) (s : Store)
      → ((r : RunRow) → (f r).run_id ≡ r.run_id)
      → find_run run_id s ≡ some row
      → test (some (f row)) ≡ true
      → test
          (find_run run_id (update_and_append sha256_hex run_id f row event_type payload now s).1)
        ≡ true
  unfolding update_and_append
  update_and_append-Holds test f row event_type payload now s k e h =
      bind-Holds sha256_hex clock run_id test
        (append_locked sha256_hex run_id event_type payload now) (λ _. pure (some (f row))) t
        (ap (λ rows. test (find (λ r. r.run_id == run_id) rows))
            (append_locked-runs sha256_hex clock run_id run_id event_type payload now t)
          ∙ ap test (find-update_run run_id f s.runs k ∙ ap (updated f) e)
          ∙ h)
        λ _ _ g. g
    where
      t : Store
      t = record s { runs = update_run run_id f s.runs }

  -- `cancel` keeps what holds of the run now and of a cancelled one.
  pub cancel_now-Holds :
      (test : Option RunRow → Bool) (s : Store)
      → ((row : RunRow) → test (some (cancelled_run (clock s) row)) ≡ true)
      → ((row : RunRow) → is_terminal row.status ≡ true → test (some row) ≡ true)
      → test none ≡ true
      → test (find_run run_id (cancel_now sha256_hex clock run_id s).1) ≡ true
  unfolding cancel_now cancel cancel_found
  cancel_now-Holds test s h u v = elim (Option-cases (find_run run_id s)) [
    | inl e ↦ rw e (ap test e ∙ v)
    | inr (row, e) ↦ elim (Bool-cases (is_terminal row.status)) [
      | inl t ↦ rw (e, t) (ap test e ∙ u row t)
      | inr t ↦
          rw (e, t)
            (update_and_append-Holds test (cancelled_run (clock s)) row "run.cancelled"
              (single "status" "cancelled") (clock s) s (λ _. refl) e (h row))
    ]
  ]

  pub meanwhile-is_begun :
      (others : List Meanwhile) (s : Store)
      → is_begun (find_run run_id s) ≡ true
      → is_begun (find_run run_id (meanwhile sha256_hex clock run_id others s)) ≡ true
  unfolding meanwhile
  meanwhile-is_begun [] s h = h
  meanwhile-is_begun (public_event event_type payload ∷ ms) s h =
      meanwhile-is_begun ms _
        (append_event-Holds sha256_hex clock run_id is_begun event_type payload s h)
  meanwhile-is_begun (cancel_requested ∷ ms) s h =
      meanwhile-is_begun ms _
        (cancel_now-Holds is_begun s (λ _. refl) (λ row t. is_terminal-is_begun row.status t) refl)

  catch-IsSettled :
      (m : Exec Store (Unit {0})) (handler : Error → Exec Store (Unit {0}))
      → Ends sha256_hex clock run_id m
      → ((e : Error) (s : Store) → IsSettled run_id (handler e s).1)
      → (s : Store) → IsSettled run_id (catch m handler s).1
  unfolding catch
  catch-IsSettled m handler h k s = go (m s).0 (m s).1 (h s)
    where
      go :
          (r : Result (Unit {0})) (t : Store)
          → IsEnded sha256_hex clock run_id r t
          → IsSettled run_id (on_error r handler t).1
      go (ok a) t g = g
      go (err e) t g = k e t

  pub engine_replied-IsSettled :
      (reply : Reply) (s : Store)
      → is_begun (find_run run_id s) ≡ true
      → IsSettled run_id (engine_replied sha256_hex clock run_id reply s).1
  unfolding engine_replied fail_store
  engine_replied-IsSettled (raised type_name diagnostic) s h = fail-IsSettled type_name diagnostic s
  engine_replied-IsSettled task_cancelled s h =
      bind-Holds sha256_hex clock run_id is_settled (cancel_now sha256_hex clock run_id)
        (λ _. pure tt) s
        (cancel_now-Holds is_settled s (λ _. refl) (λ row t. is_terminal-is_settled row.status t)
          refl)
        λ _ _ g. g
  engine_replied-IsSettled (returned result) s h = elim (Option-cases (find_run run_id s)) [
    | inl e ↦ rw e (ap is_settled e)
    | inr (row, e) ↦ elim (Bool-cases (is_running row.status)) [
      | inl t ↦
          rw (e, t)
            (catch-IsSettled (project_result sha256_hex clock run_id result)
              (λ x. fail sha256_hex clock run_id (type_name_of x) none) (project_result-Ends result)
              (λ x u. fail-IsSettled (type_name_of x) none u) s)
      | inr t ↦
          rw (e, t) (ap is_settled e ∙ is_begun-is_settled row.status (ap is_begun (sym e) ∙ h) t)
    ]
  ]
