-- ===== src/Harness/Admission/Tests.antt =====
-- Runs of the admission state, and its theorems at concrete states.
use pixelflow.Base.Results.{ok}
use pixelflow.Base.{String, ◌≡◌, refl, ◌≤◌, true, some, [], ◌∷◌, arith, is_blank}
use pixelflow.Harness.Admission.{AdmissionState, require_open, open_after_preflight}
use pixelflow.Harness.Admission.Races.{
  Update, accepted, expecting, one_winner, open_after_preflight_lem,
}

abbrev closed_state : AdmissionState
closed_state = record {
  state = "closed";
  reason_code = "startup_default";
  revision = 1;
  updated_by = "gateway-1";
}

abbrev reopening : String → Update
reopening gateway = record {
  open_for_new_runs = true;
  reason_code = "preflight_verified_open";
  expected_revision = 1;
  updated_by = gateway;
}

one_winner_example :
    expecting 1 (accepted (reopening "gateway-1" ∷ reopening "gateway-2" ∷ []) (some closed_state))
    ≤ 1
one_winner_example =
    one_winner (reopening "gateway-1" ∷ reopening "gateway-2" ∷ []) (some closed_state) 1

open_after_preflight_example :
    let (r, after) = open_after_preflight "gateway-1" (some closed_state) in
    (s : AdmissionState) × (r ≡ ok s) × (after ≡ some s) × (require_open after ≡ ok s)
unfolding is_blank
open_after_preflight_example = open_after_preflight_lem "gateway-1" closed_state (omega arith) refl

one_of_two_gateways :
    accepted (reopening "gateway-1" ∷ reopening "gateway-2" ∷ []) (some closed_state)
    ≡ reopening "gateway-1" ∷ []
unfolding accepted is_blank
one_of_two_gateways = refl
