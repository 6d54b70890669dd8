-- ===== src/Harness/Admission/Races.antt =====
-- What the revision guarantees to gateways that update the admission state at the same time.
use pixelflow.Base.Exec.{Exec}
use pixelflow.Base.Results.{Result, ok, err}
use pixelflow.Base.{
  ℕ, suc, ◌≤◌, ◌<◌, String, ◌≡◌, refl, Bool, true, false, Option, none, some, List, [], ◌∷◌, arith,
  Bool-cases, inl, inr, nat_beq, leb, ◌⊎◌, if◌then◌else◌, is_blank, filter, length,
}
use pixelflow.Harness.Admission.{
  AdmissionState, is_open, compare_and_set, is_valid_update, update_state, require_open,
  open_after_reading, open_after_preflight, close_after_health_failure,
}

-- An update as a gateway asks for it.
pub record Update : Type 0 where
  pub open_for_new_runs : Bool
  pub reason_code : String
  pub expected_revision : ℕ
  pub updated_by : String

abbrev perform : Update → Exec (Option AdmissionState) AdmissionState
perform u = update_state u.open_for_new_runs u.reason_code u.expected_revision u.updated_by

abbrev returns : Result AdmissionState → Bool
returns (ok s) = true
returns (err e) = false

-- The updates of a sequence that return, in order.
unfoldable pub accepted : List Update → Option AdmissionState → List Update
unfolding update_state
accepted [] s = []
accepted (u ∷ us) s =
    let rest = accepted us (perform u s).1 in if returns (perform u s).0 then u ∷ rest else rest

abbrev revision_of : Option AdmissionState → ℕ
revision_of none = 0
revision_of (some s) = s.revision

perform-cases :
    (u : Update) (s : Option AdmissionState)
    → ((returns (perform u s).0 ≡ true)
        × (revision_of s ≡ u.expected_revision)
        × (revision_of (perform u s).1 ≡ suc u.expected_revision))
      ⊎ ((returns (perform u s).0 ≡ false) × ((perform u s).1 ≡ s))
unfolding update_state compare_and_set
perform-cases u none =
    elim (Bool-cases (is_valid_update u.reason_code u.expected_revision u.updated_by)) [
      | inl t ↦ rw t (inr (refl, refl))
      | inr t ↦ rw t (inr (refl, refl))
    ]
perform-cases u (some row) =
    elim (Bool-cases (is_valid_update u.reason_code u.expected_revision u.updated_by)) [
      | inr t ↦ rw t (inr (refl, refl))
      | inl t ↦ elim (Bool-cases (nat_beq row.revision u.expected_revision)) [
        | inl v ↦ rw (t, v) (inl (refl, ground arith, omega arith))
        | inr v ↦ rw (t, v) (inr (refl, refl))
      ]
    ]

-- How many updates of the list expect the revision.
abbrev pub expecting : ℕ → List Update → ℕ
expecting n us = length (filter (λ u. nat_beq u.expected_revision n) us)

accepted-later :
    (us : List Update) (s : Option AdmissionState) (n : ℕ)
    → n < revision_of s
    → expecting n (accepted us s) ≡ 0
unfolding accepted
accepted-later [] s n h = refl
accepted-later (u ∷ us) s n h = elim (perform-cases u s) [
  | inr (r, same) ↦ rw (r, same) (accepted-later us s n h)
  | inl (r, before, after) ↦
      let rest = accepted-later us (perform u s).1 n (omega (arith, before, after, h)) in
      let other : nat_beq u.expected_revision n ≡ false = ground (arith, before, h) in
      rw (r, other) rest
]

-- Of all the updates of any gateways in any order, at most one that expects a given revision
-- returns: gateways that have read the same revision cannot both succeed.
pub one_winner :
    (us : List Update) (s : Option AdmissionState) (n : ℕ) → expecting n (accepted us s) ≤ 1
unfolding accepted
one_winner [] s n = omega arith
one_winner (u ∷ us) s n = elim (perform-cases u s) [
  | inr (r, same) ↦ rw (r, same) (one_winner us s n)
  | inl (r, before, after) ↦ elim (Bool-cases (nat_beq u.expected_revision n)) [
    | inl t ↦
        let e : u.expected_revision ≡ n = ground (arith, t) in
        rw (r, t) (omega (arith, accepted-later us (perform u s).1 n (omega (arith, after, e))))
    | inr t ↦ rw (r, t) (one_winner us (perform u s).1 n)
  ]
]

-- A health failure with an outdated revision changes nothing and raises nothing, where its name is
-- not blank: a gateway cannot close what another one has reopened since.
close_after_health_failure-stale :
    (expected_revision : ℕ) (updated_by : String) (current : AdmissionState)
    → 1 ≤ expected_revision
    → is_blank updated_by ≡ false
    → (current.revision ≡ expected_revision → ⊥)
    → close_after_health_failure expected_revision updated_by (some current) ≡ (ok tt, some current)
unfolding close_after_health_failure update_state compare_and_set
close_after_health_failure-stale expected_revision updated_by current h k l =
    let a : leb 1 expected_revision ≡ true = ground arith in
    let b : nat_beq current.revision expected_revision ≡ false = ground (arith, l) in
    rw (a, k, b) refl

-- Where there is a state, with a revision of at least 1, and the name is not blank: the opening
-- after the preflight returns an open state, which is then the current one, and new runs are
-- admitted.
pub open_after_preflight_lem :
    (updated_by : String) (current : AdmissionState)
    → 1 ≤ current.revision
    → is_blank updated_by ≡ false
    → let (r, after) = open_after_preflight updated_by (some current) in
      (s : AdmissionState) × (r ≡ ok s) × (after ≡ some s) × (require_open after ≡ ok s)
unfolding open_after_preflight open_after_reading update_state compare_and_set require_open
open_after_preflight_lem updated_by current h k = elim (Bool-cases (is_open current)) [
  | inl t ↦ rw t (current, refl, refl, rw t refl)
  | inr t ↦
      let a : leb 1 current.revision ≡ true = ground arith in
      let b : nat_beq current.revision current.revision ≡ true = ground arith in
      rw (t, a, k, b) (_, refl, refl, refl)
]
