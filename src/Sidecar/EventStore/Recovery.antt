-- ===== src/Sidecar/EventStore/Recovery.antt =====
-- What `fail_unfinished_runs_after_restart` makes of the runs.
use pixelflow.Base.{ℕ, String, ◌≡◌, ◌⊎◌, true, List, [], ◌∷◌, All, IsIn, ◌≤◌, leb, Bool}
use pixelflow.Sidecar.EventStore.{update_run, failed_run}
use pixelflow.Sidecar.Rows.{is_terminal, RunRow}

-- The updates of the loop, one after the other.
unfoldable fail_all : ℕ → List String → List RunRow → List RunRow
unfolding update_run
fail_all now [] rows = rows
fail_all now (i ∷ is) rows = fail_all now is (update_run i (failed_run now) rows)

-- The run has ended, or is still to be failed.
abbrev pub IsCovered : List String → RunRow → Type 0
IsCovered is r = (is_terminal r.status ≡ true) ⊎ IsIn r.run_id is

-- Rows in the order of their acceptance.
abbrev pub InOrder : List RunRow → Type 0
InOrder [] = Unit
InOrder (r ∷ rows) = All (λ x. r.accepted_at ≤ x.accepted_at) rows × InOrder rows

abbrev earlier : RunRow → RunRow → Bool
earlier a b = leb a.accepted_at b.accepted_at
