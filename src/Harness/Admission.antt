-- ===== src/Harness/Admission.antt =====
-- `SQLHarnessAdmissionRepository` and `HarnessAdmissionService` of
-- backend/pixelflow/agent_harness/admission.py. The state is the row of the global scope, or its
-- absence; a transaction is one step. The reading back after an UPDATE, a second transaction, is
-- taken to see the row just written, and the one after a conflict in `initialize` the other's row.
pub mod Races
mod Tests
use pixelflow.Base.Exec.{Exec, pure, raise, catch, on_error, ◌>>=◌}
use pixelflow.Base.Results.{Result, ok, err, Error, value_error, conflict, closed, guard, ◌>>◌}
use pixelflow.Base.{
  ℕ, ◌+◌, String, Bool, true, false, ◌&&◌, ◌||◌, not, Option, none, some, List, [], ◌∷◌, nat_beq,
  leb, ltb, ◌==◌, if◌then◌else◌, is_blank, is_member,
}

-- `HarnessAdmissionState`, and the row that it shows.
pub record AdmissionState : Type 0 where
  pub state : String
  pub reason_code : String
  pub revision : ℕ
  pub updated_by : String

abbrev pub is_open : AdmissionState → Bool
is_open s = s.state == "open"

abbrev pub allowed_reason_codes : List String
allowed_reason_codes =
    "startup_default" ∷ "preflight_verified_open" ∷ "manual_close" ∷ "sidecar_unavailable"
    ∷ "health_check_failed" ∷ []

abbrev pub target_state : Bool → String
target_state true = "open"
target_state false = "closed"

unfoldable pub initialize : Bool → String → Exec (Option AdmissionState) AdmissionState
initialize initial_open updated_by none =
    let initial : AdmissionState = record {
      state = target_state initial_open;
      reason_code = "startup_default";
      revision = 1;
      updated_by = updated_by;
    } in
    (ok initial, some initial)
initialize initial_open updated_by (some row) = (ok row, some row)

abbrev pub updated_state : Bool → String → ℕ → String → AdmissionState
updated_state open_for_new_runs reason_code expected_revision updated_by = record {
  state = target_state open_for_new_runs;
  reason_code = reason_code;
  revision = expected_revision + 1;
  updated_by = updated_by;
}

-- `UPDATE … WHERE scope_key = 'global' AND revision = expected_revision`
unfoldable pub compare_and_set : AdmissionState → ℕ → Exec (Option AdmissionState) AdmissionState
compare_and_set new expected_revision none = (err conflict, none)
compare_and_set new expected_revision (some row) =
    if nat_beq row.revision expected_revision then (ok new, some new) else (err conflict, some row)

abbrev pub is_valid_update : String → ℕ → String → Bool
is_valid_update reason_code expected_revision updated_by =
    is_member reason_code allowed_reason_codes
    && leb 1 expected_revision
    && not (is_blank updated_by)

unfoldable pub update_state :
    Bool → String → ℕ → String → Exec (Option AdmissionState) AdmissionState
unfolding compare_and_set
update_state open_for_new_runs reason_code expected_revision updated_by s =
    if is_valid_update reason_code expected_revision updated_by
    then compare_and_set (updated_state open_for_new_runs reason_code expected_revision updated_by)
        expected_revision s
    else (err value_error, s)

unfoldable pub require_open : Option AdmissionState → Result AdmissionState
require_open none = err closed
require_open (some current) = if is_open current then ok current else err closed

-- `open_after_preflight`, of what `get` answered before: another gateway may have updated the row
-- since.
unfoldable pub open_after_reading :
    String → Option AdmissionState → Exec (Option AdmissionState) AdmissionState
unfolding update_state
open_after_reading updated_by none s = (err conflict, s)
open_after_reading updated_by (some current) s =
    if is_open current
    then (ok current, s)
    else update_state true "preflight_verified_open" current.revision updated_by s

unfoldable pub open_after_preflight : String → Exec (Option AdmissionState) AdmissionState
unfolding open_after_reading
open_after_preflight updated_by s = open_after_reading updated_by s s

unfoldable pub open_after_verified_release :
    Result (Unit {0}) → String → Exec (Option AdmissionState) AdmissionState
unfolding open_after_preflight
open_after_verified_release (ok verified) updated_by s = open_after_preflight updated_by s
open_after_verified_release (err e) updated_by s = (err e, s)

abbrev pub swallow_conflict : Result AdmissionState → Result (Unit {0})
swallow_conflict (ok current) = ok tt
swallow_conflict (err conflict) = ok tt
swallow_conflict (err e) = err e

unfoldable pub close_after_health_failure : ℕ → String → Exec (Option AdmissionState) (Unit {0})
unfolding update_state
close_after_health_failure expected_revision updated_by s =
    let (r, s') = update_state false "health_check_failed" expected_revision updated_by s in
    (swallow_conflict r, s')
