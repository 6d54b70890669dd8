-- ===== src/Sidecar/EventStore/Sequences.antt =====
-- The events of a run are numbered 1, 2, 3, …, in the order in which they were appended, and a
-- reader that resumes at a cursor gets exactly the numbers after it.
use Prim.Native.Nat.{max}
use mathlib.Core.List.{append-nil}
use pixelflow.Base.Exec.{Exec, pure, ◌>>=◌, continue}
use pixelflow.Base.Json.{Fields}
use pixelflow.Base.Results.{Result, ok, err}
use pixelflow.Base.{
  ℕ, zero, suc, ◌+◌, String, ◌≡◌, refl, ap, ◌∙◌, Bool, true, ◌&&◌, List, [], ◌∷◌, ◌++◌, map, arith,
  Bool-cases, inl, inr, ◌==◌, eq_iff, filter, length, length-append, any, Option, none, some,
  is_some,
}
use pixelflow.Sidecar.Rows.{
  RunStatus, TerminationReason, EventRow, SkillRow, Store, RunRequest, SkillSnapshot, RunRow,
  is_accepted, is_terminal,
}
use pixelflow.Sidecar.EventStore.{
  of_run, sequences, max_sequence, append_locked, insert_skills, insert_run, create_run_row,
  create_or_get, create_or_read_found, update_and_append, update_run, failed_run, accepted_run,
  single, unfinished_run_ids, start_found, cancel_found, transition, transition_found,
  start_if_accepted, cancel, fail_runs, fail_unfinished_runs_after_restart, event_id_of, find_key,
  find_run,
}

-- 1, 2, …, n
unfoldable pub upto : ℕ → List ℕ
upto zero = []
upto (suc n) = upto n ++ suc n ∷ []

max_of : List ℕ → ℕ
max_of [] = 0
max_of (x ∷ xs) = max x (max_of xs)

max_of-snoc : (xs : List ℕ) (n : ℕ) → max_of (xs ++ n ∷ []) ≡ max (max_of xs) n
unfolding max_of
max_of-snoc [] n = omega arith
max_of-snoc (x ∷ xs) n = omega (arith, max_of-snoc xs n)

max_of-upto : (n : ℕ) → max_of (upto n) ≡ n
unfolding upto max_of
max_of-upto zero = refl
max_of-upto (suc n) = omega (arith, max_of-snoc (upto n) (suc n), max_of-upto n)

max_sequence-eq-max_of : (es : List EventRow) → max_sequence es ≡ max_of (sequences es)
unfolding max_sequence max_of
max_sequence-eq-max_of [] = refl
max_sequence-eq-max_of (e ∷ es) = omega (arith, max_sequence-eq-max_of es)

filter-append {ℓ} :
    {A : Type ℓ} (test : A → Bool) (xs ys : List A)
    → filter test (xs ++ ys) ≡ filter test xs ++ filter test ys
filter-append test [] ys = refl
filter-append test (x ∷ xs) ys = elim (Bool-cases (test x)) [
  | inl t ↦ rw (t, filter-append test xs ys)
  | inr t ↦ rw (t, filter-append test xs ys)
]

map-snoc {ℓ κ} :
    {A : Type ℓ} {B : Type κ} (f : A → B) (xs : List A) (x : A)
    → map f (xs ++ x ∷ []) ≡ map f xs ++ f x ∷ []
map-snoc f [] x = refl
map-snoc f (y ∷ xs) x = ap (◌∷◌ (f y)) (map-snoc f xs x)

-- Each run's events carry the numbers from 1 on, in the order of the table.
abbrev pub IsSequenced : List EventRow → Type 0
IsSequenced es = (run_id : String) → sequences (of_run run_id es) ≡ upto (length (of_run run_id es))

pub max_sequence-eq-length :
    (run_id : String) (es : List EventRow)
    → IsSequenced es
    → max_sequence (of_run run_id es) ≡ length (of_run run_id es)
max_sequence-eq-length run_id es h =
    max_sequence-eq-max_of (of_run run_id es) ∙ ap max_of (h run_id) ∙ max_of-upto _

-- Tables that come from one another by appending events under their next number.
pub data Grows (es : List EventRow) : List EventRow → Type 0 where
  done : Grows es es
  grow :
      {fs : List EventRow} (e : EventRow)
      → Grows es fs
      → e.sequence ≡ max_sequence (of_run e.event_run fs) + 1
      → Grows es (fs ++ e ∷ [])

snoc-IsSequenced :
    (es : List EventRow) (e : EventRow)
    → IsSequenced es
    → e.sequence ≡ max_sequence (of_run e.event_run es) + 1
    → IsSequenced (es ++ e ∷ [])
unfolding upto
snoc-IsSequenced es e h q r = elim (Bool-cases (e.event_run == r)) [
  | inl t ↦
      let same = (eq_iff e.event_run r).0 t in
      let n = length (of_run r es) in
      let top : max_sequence (of_run r es) ≡ n = max_sequence-eq-length r es h in
      let next : e.sequence ≡ suc n =
        omega (arith, q, ap (λ i. max_sequence (of_run i es)) same, top) in
      let longer : suc n ≡ length (of_run r es ++ e ∷ []) =
        omega (arith, length-append {0} (of_run r es) (e ∷ [])) in
      let grown : of_run r (es ++ e ∷ []) ≡ of_run r es ++ e ∷ [] =
        filter-append (λ x. x.event_run == r) es (e ∷ []) ∙ rw t in
      rw grown (
        map-snoc (λ x. x.sequence) (of_run r es) e
        ∙ ap (λ xs. xs ++ e.sequence ∷ []) (h r)
        ∙ ap (λ m. upto n ++ m ∷ []) next
        ∙ ap upto longer)
  | inr t ↦
      let same : of_run r (es ++ e ∷ []) ≡ of_run r es =
        filter-append (λ x. x.event_run == r) es (e ∷ []) ∙ rw t (append-nil (of_run r es)) in
      rw same (h r)
]

pub Grows-IsSequenced : {es fs : List EventRow} → Grows es fs → IsSequenced es → IsSequenced fs
Grows-IsSequenced done h = h
Grows-IsSequenced (grow {fs = fs} e g q) h = snoc-IsSequenced fs e (Grows-IsSequenced g h) q

-- Every operation lets the events grow, whether it returns or raises.
module _ (sha256_hex : String → String) (es : List EventRow) where
  pub Grows-append_locked :
      (run_id event_type : String) (payload : Fields) (now : ℕ) (s : Store)
      → Grows es s.events
      → Grows es (append_locked sha256_hex run_id event_type payload now s).1.events
  unfolding append_locked
  Grows-append_locked run_id event_type payload now s g = elim (Bool-cases taken) [
    | inl t ↦ rw t g
    | inr t ↦ rw t (grow _ g refl)
  ]
    where
      taken : Bool
      taken =
          any
            (λ e.
              e.event_id
              == event_id_of sha256_hex run_id (max_sequence (of_run run_id s.events) + 1))
            s.events

  -- After a bind whose continuation lets the events grow, they have grown.
  pub Grows-bind :
      {A B : Type 0} (m : Exec Store A) (f : A → Exec Store B) (s : Store)
      → Grows es (m s).1.events
      → ((a : A) (t : Store) → Grows es t.events → Grows es (f a t).1.events)
      → Grows es ((m >>= f) s).1.events
  unfolding ◌>>=◌
  Grows-bind {A} {B} m f s g h = go (m s).0 (m s).1 g
    where
      go : (r : Result A) (t : Store) → Grows es t.events → Grows es (continue r f t).1.events
      go (ok a) t g' = h a t g'
      go (err e) t g' = g'

  pub Grows-insert_run :
      (row : RunRow) (s : Store)
      → Grows es s.events
      → Grows es (insert_run sha256_hex row s).1.events
  unfolding insert_run
  Grows-insert_run row s g = elim (Bool-cases (is_some (find_run row.run_id s))) [
    | inl t ↦ rw t g
    | inr t ↦ rw t g
  ]

  pub Grows-insert_skills :
      (run_id : String) (skills : List SkillRow) (s : Store)
      → Grows es s.events
      → Grows es (insert_skills sha256_hex run_id skills s).1.events
  unfolding insert_skills
  Grows-insert_skills run_id [] s g = g
  Grows-insert_skills run_id (k ∷ ks) s g =
      elim (Bool-cases (any (λ x. x.skill_run == run_id && x.name == k.name) s.skills)) [
        | inl t ↦ rw t g
        | inr t ↦ rw t (Grows-insert_skills run_id ks _ g)
      ]

  pub Grows-create_run_row :
      (request : RunRequest) (engine_id engine_version : String) (snapshot : SkillSnapshot)
      (accepted_at now : ℕ) (s : Store)
      → Grows es s.events
      → Grows es
          (create_run_row sha256_hex request engine_id engine_version snapshot accepted_at now
            s).1.events
  unfolding create_run_row
  Grows-create_run_row request engine_id engine_version snapshot accepted_at now s g =
      Grows-bind (insert_run sha256_hex row) (λ _. skills >>= λ _. appended) s
        (Grows-insert_run _ s g)
        λ _ t g₁.
          Grows-bind skills (λ _. appended) t (Grows-insert_skills _ snapshot.entries t g₁)
            λ _ u g₂.
              Grows-bind event (λ _. pure (row, true)) u (Grows-append_locked _ _ _ now u g₂)
                λ _ _ g₃. g₃
    where
      row : RunRow
      row = accepted_run sha256_hex request engine_id engine_version snapshot accepted_at

      skills : Exec Store (Unit {0})
      skills = insert_skills sha256_hex row.run_id snapshot.entries

      event : Exec Store EventRow
      event = append_locked sha256_hex row.run_id "run.accepted" (single "status" "accepted") now

      appended : Exec Store (RunRow × Bool)
      appended = event >>= λ _. pure (row, true)

  Grows-create_or_read_found :
      (request : RunRequest) (create : Exec Store (RunRow × Bool)) (found : Option RunRow)
      (s : Store)
      → Grows es s.events
      → Grows es (create s).1.events
      → Grows es (create_or_read_found sha256_hex request create found s).1.events
  unfolding create_or_read_found
  Grows-create_or_read_found request create none s g h = h
  Grows-create_or_read_found request create (some existing) s g h =
      elim (Bool-cases (existing.request_digest == request.request_digest)) [
        | inl t ↦ rw t g
        | inr t ↦ rw t g
      ]

  pub Grows-create_or_get :
      (request : RunRequest) (engine_id engine_version : String) (snapshot : SkillSnapshot)
      (accepted_at now : ℕ) (s : Store)
      → Grows es s.events
      → Grows es
          (create_or_get sha256_hex request engine_id engine_version snapshot accepted_at now
            s).1.events
  unfolding create_or_get
  Grows-create_or_get request engine_id engine_version snapshot accepted_at now s g =
      Grows-create_or_read_found request
        (create_run_row sha256_hex request engine_id engine_version snapshot accepted_at now)
        (find_key request.run_request_key s) s g
        (Grows-create_run_row request engine_id engine_version snapshot accepted_at now s g)

  pub Grows-update_and_append :
      (run_id : String) (f : RunRow → RunRow) (row : RunRow) (event_type : String)
      (payload : Fields) (now : ℕ) (s : Store)
      → Grows es s.events
      → Grows es (update_and_append sha256_hex run_id f row event_type payload now s).1.events
  unfolding update_and_append
  Grows-update_and_append run_id f row event_type payload now s g =
      Grows-bind (append_locked sha256_hex run_id event_type payload now) (λ _. pure (some (f row)))
        (record s { runs = update_run run_id f s.runs })
        (Grows-append_locked run_id event_type payload now _ g) λ _ _ g₁. g₁

  pub Grows-start_if_accepted :
      (run_id : String) (now : ℕ) (s : Store)
      → Grows es s.events
      → Grows es (start_if_accepted sha256_hex run_id now s).1.events
  unfolding start_if_accepted start_found
  Grows-start_if_accepted run_id now s g = go (find_run run_id s)
    where
      go : (found : Option RunRow) → Grows es (start_found sha256_hex run_id now found s).1.events
      go none = g
      go (some row) = elim (Bool-cases (is_accepted row.status)) [
        | inl t ↦ rw t (Grows-update_and_append run_id _ row _ _ now s g)
        | inr t ↦ rw t g
      ]

  pub Grows-cancel :
      (run_id : String) (completed_at now : ℕ) (s : Store)
      → Grows es s.events
      → Grows es (cancel sha256_hex run_id completed_at now s).1.events
  unfolding cancel cancel_found
  Grows-cancel run_id completed_at now s g = go (find_run run_id s)
    where
      go :
          (found : Option RunRow)
          → Grows es (cancel_found sha256_hex run_id completed_at now found s).1.events
      go none = g
      go (some row) = elim (Bool-cases (is_terminal row.status)) [
        | inl t ↦ rw t g
        | inr t ↦ rw t (Grows-update_and_append run_id _ row _ _ now s g)
      ]

  pub Grows-fail_runs :
      (run_ids : List String) (completed_at now : ℕ) (s : Store)
      → Grows es s.events
      → Grows es (fail_runs sha256_hex run_ids completed_at now s).1.events
  unfolding fail_runs
  Grows-fail_runs [] completed_at now s g = g
  Grows-fail_runs (r ∷ rs) completed_at now s g =
      Grows-bind
        (append_locked sha256_hex r "run.failed" (single "code" "harness_run_recovery_required")
          now)
        (λ _. fail_runs sha256_hex rs completed_at now)
        (record s { runs = update_run r (failed_run completed_at) s.runs })
        (Grows-append_locked r _ _ now _ g) λ _ t g₁. Grows-fail_runs rs completed_at now t g₁

  pub Grows-fail_unfinished_runs_after_restart :
      (completed_at now : ℕ) (s : Store)
      → Grows es s.events
      → Grows es (fail_unfinished_runs_after_restart sha256_hex completed_at now s).1.events
  unfolding fail_unfinished_runs_after_restart
  Grows-fail_unfinished_runs_after_restart completed_at now s g =
      Grows-bind (fail_runs sha256_hex (unfinished_run_ids s) completed_at now)
        (λ _. pure (unfinished_run_ids s)) s (Grows-fail_runs _ completed_at now s g) λ _ _ g₁. g₁

pub Grows-transition :
    (es : List EventRow) (run_id : String) (status : RunStatus) (reason : Option TerminationReason)
    (now : ℕ) (s : Store)
    → Grows es s.events
    → Grows es (transition run_id status reason now s).1.events
unfolding transition transition_found
Grows-transition es run_id status reason now s g = go (find_run run_id s)
  where
    go :
        (found : Option RunRow)
        → Grows es (transition_found run_id status reason now found s).1.events
    go none = g
    go (some row) = g
