-- ===== src/Sidecar/EventStore/Operations.antt =====
-- Sequences of calls of the store's methods, and what repeated calls answer.
use pixelflow.Base.Exec.{Exec, pure, continue, ◌>>=◌}
use pixelflow.Base.Json.{Fields}
use pixelflow.Base.Results.{Result, ok, err}
use pixelflow.Base.{
  ℕ, String, ◌≡◌, refl, sym, ap, ◌∙◌, Bool, true, false, Option, none, some, List, [], ◌∷◌, ◌++◌,
  Bool-cases, Option-cases, inl, inr, ◌==◌, eq_refl, arith, find, subst, any, is_some, ◌&&◌, ◌+◌,
}
use pixelflow.Sidecar.EventStore.{
  find_run, find_key, append_locked, create_or_get, create_or_read_found, create_run_row,
  start_if_accepted, cancel, transition, fail_unfinished_runs_after_restart, insert_run,
  insert_skills, accepted_run, event_id_of, max_sequence, of_run, single,
}
use pixelflow.Sidecar.EventStore.Sequences.{
  IsSequenced, Grows, done, Grows-IsSequenced, Grows-append_locked, Grows-create_or_get,
  Grows-start_if_accepted, Grows-cancel, Grows-transition, Grows-fail_unfinished_runs_after_restart,
}
use pixelflow.Sidecar.Rows.{
  RunStatus, TerminationReason, RunRow, EventRow, SkillRow, Store, RunRequest, SkillSnapshot,
}

-- A call of a method that writes, with its readings of the clock.
pub data Operation : Type 0 where
  creating :
      RunRequest
      → (engine_id engine_version : String) → SkillSnapshot
      → (accepted_at now : ℕ) → Operation
  starting : (run_id : String) (now : ℕ) → Operation
  cancelling : (run_id : String) (completed_at now : ℕ) → Operation
  moving : (run_id : String) → RunStatus → Option TerminationReason → (now : ℕ) → Operation
  appending : (run_id event_type : String) → Fields → (now : ℕ) → Operation
  restarting : (completed_at now : ℕ) → Operation

module _ (sha256_hex : String → String) where
  -- The store after the call, which may have raised.
  unfoldable pub apply : Operation → Store → Store
  unfolding create_or_get start_if_accepted cancel transition append_locked
      fail_unfinished_runs_after_restart
  apply (creating request engine_id engine_version snapshot accepted_at now) s =
      (create_or_get sha256_hex request engine_id engine_version snapshot accepted_at now s).1
  apply (starting run_id now) s = (start_if_accepted sha256_hex run_id now s).1
  apply (cancelling run_id completed_at now) s = (cancel sha256_hex run_id completed_at now s).1
  apply (moving run_id status reason now) s = (transition run_id status reason now s).1
  apply (appending run_id event_type payload now) s =
      (append_locked sha256_hex run_id event_type payload now s).1
  apply (restarting completed_at now) s =
      (fail_unfinished_runs_after_restart sha256_hex completed_at now s).1

  unfoldable pub apply_all : List Operation → Store → Store
  unfolding apply
  apply_all [] s = s
  apply_all (o ∷ os) s = apply_all os (apply o s)

  apply-Grows :
      (es : List EventRow) (o : Operation) (s : Store)
      → Grows es s.events
      → Grows es (apply o s).events
  unfolding apply
  apply-Grows es (creating request engine_id engine_version snapshot accepted_at now) s g =
      Grows-create_or_get sha256_hex es request engine_id engine_version snapshot accepted_at now s
        g
  apply-Grows es (starting run_id now) s g = Grows-start_if_accepted sha256_hex es run_id now s g
  apply-Grows es (cancelling run_id completed_at now) s g =
      Grows-cancel sha256_hex es run_id completed_at now s g
  apply-Grows es (moving run_id status reason now) s g =
      Grows-transition es run_id status reason now s g
  apply-Grows es (appending run_id event_type payload now) s g =
      Grows-append_locked sha256_hex es run_id event_type payload now s g
  apply-Grows es (restarting completed_at now) s g =
      Grows-fail_unfinished_runs_after_restart sha256_hex es completed_at now s g

  -- Whatever methods are called on a store whose events are numbered, and whether they return or
  -- raise: the events of each run stay numbered 1, 2, 3, … in the order of the table.
  pub apply_all-IsSequenced :
      (os : List Operation) (s : Store) → IsSequenced s.events → IsSequenced (apply_all os s).events
  unfolding apply_all
  apply_all-IsSequenced [] s h = h
  apply_all-IsSequenced (o ∷ os) s h =
      apply_all-IsSequenced os (apply o s) (Grows-IsSequenced (apply-Grows s.events o s done) h)

  find_snoc :
      (key : String) (row : RunRow) (rows : List RunRow)
      → find (λ r. r.run_request_key == key) rows ≡ none
      → (row.run_request_key == key) ≡ true
      → find (λ r. r.run_request_key == key) (rows ++ row ∷ []) ≡ some row
  find_snoc key row [] h k = rw k refl
  find_snoc key row (x ∷ rows) h k = elim (Bool-cases (x.run_request_key == key)) [
    | inl t ↦ ground (arith, h, t)
    | inr t ↦ rw t (find_snoc key row rows (ground (arith, h, t)) k)
  ]

  -- What holds of the value and the store if the action returns.
  abbrev pub IsAfter : {A : Type 0} → (A → Store → Type 0) → Result A → Store → Type 0
  IsAfter Q (ok a) s = Q a s
  IsAfter Q (err e) s = Unit

  pub bind-IsAfter :
      {A B : Type 0} (P : A → Store → Type 0) (Q : B → Store → Type 0) (m : Exec Store A)
      (f : A → Exec Store B) (s : Store)
      → IsAfter P (m s).0 (m s).1
      → ((a : A) (t : Store) → P a t → IsAfter Q (f a t).0 (f a t).1)
      → IsAfter Q ((m >>= f) s).0 ((m >>= f) s).1
  unfolding ◌>>=◌
  bind-IsAfter {A} {B} P Q m f s h k = go (m s).0 (m s).1 h
    where
      go :
          (r : Result A) (t : Store)
          → IsAfter P r t
          → IsAfter Q (continue r f t).0 (continue r f t).1
      go (ok a) t g = k a t g
      go (err e) t g = tt

  pub returned :
      {A : Type 0} (Q : A → Store → Type 0) (r : Result A) (s : Store) (a : A)
      → IsAfter Q r s
      → r ≡ ok a
      → Q a s
  returned Q (ok b) s a h e = subst (λ x. Q x s) (ground arith) h
  returned Q (err x) s a h e = absurd (cc)

  insert_skills-IsAfter :
      (runs : List RunRow) (run_id : String) (skills : List SkillRow) (s : Store)
      → s.runs ≡ runs
      → IsAfter
          (λ _ t. t.runs ≡ runs)
          (insert_skills sha256_hex run_id skills s).0
          (insert_skills sha256_hex run_id skills s).1
  unfolding insert_skills
  insert_skills-IsAfter runs run_id [] s h = h
  insert_skills-IsAfter runs run_id (k ∷ ks) s h =
      elim (Bool-cases (any (λ x. x.skill_run == run_id && x.name == k.name) s.skills)) [
        | inl t ↦ rw t tt
        | inr t ↦ rw t (insert_skills-IsAfter runs run_id ks _ h)
      ]

  pub append_locked-IsAfter :
      (runs : List RunRow) (run_id event_type : String) (payload : Fields) (now : ℕ) (s : Store)
      → s.runs ≡ runs
      → IsAfter
          (λ _ t. t.runs ≡ runs)
          (append_locked sha256_hex run_id event_type payload now s).0
          (append_locked sha256_hex run_id event_type payload now s).1
  unfolding append_locked
  append_locked-IsAfter runs run_id event_type payload now s h = elim (Bool-cases taken) [
    | inl t ↦ rw t tt
    | inr t ↦ rw t h
  ]
    where
      taken : Bool
      taken =
          any
            (λ e.
              e.event_id
              == event_id_of sha256_hex run_id (max_sequence (of_run run_id s.events) + 1))
            s.events

  insert_run-IsAfter :
      (row : RunRow) (s : Store)
      → IsAfter
          (λ _ t. t.runs ≡ s.runs ++ row ∷ [])
          (insert_run sha256_hex row s).0
          (insert_run sha256_hex row s).1
  unfolding insert_run
  insert_run-IsAfter row s = elim (Bool-cases (is_some (find_run row.run_id s))) [
    | inl t ↦ rw t tt
    | inr t ↦ rw t refl
  ]

  -- A created run is the last of the table.
  create_run_row-IsAfter :
      (request : RunRequest) (engine_id engine_version : String) (snapshot : SkillSnapshot)
      (accepted_at now : ℕ) (s : Store)
      → let row = accepted_run sha256_hex request engine_id engine_version snapshot accepted_at in
        let created =
          create_run_row sha256_hex request engine_id engine_version snapshot accepted_at now s in
        IsAfter (λ a t. (a.0 ≡ row) × (t.runs ≡ s.runs ++ row ∷ [])) created.0 created.1
  unfolding create_run_row
  create_run_row-IsAfter request engine_id engine_version snapshot accepted_at now s =
      bind-IsAfter HasRow Q (insert_run sha256_hex row) (λ _. skills >>= λ _. appended) s
        (insert_run-IsAfter row s)
        λ _ t g.
          bind-IsAfter HasRow Q skills (λ _. appended) t
            (insert_skills-IsAfter _ row.run_id snapshot.entries t g)
            λ _ u k.
              bind-IsAfter HasRow' Q event (λ _. pure (row, true)) u
                (append_locked-IsAfter _ _ _ _ now u k) λ _ v l. (refl, l)
    where
      row : RunRow
      row = accepted_run sha256_hex request engine_id engine_version snapshot accepted_at

      HasRow : Unit {0} → Store → Type 0
      HasRow _ t = t.runs ≡ s.runs ++ row ∷ []

      HasRow' : EventRow → Store → Type 0
      HasRow' _ t = t.runs ≡ s.runs ++ row ∷ []

      Q : RunRow × Bool → Store → Type 0
      Q a t = (a.0 ≡ row) × (t.runs ≡ s.runs ++ row ∷ [])

      skills : Exec Store (Unit {0})
      skills = insert_skills sha256_hex row.run_id snapshot.entries

      event : Exec Store EventRow
      event = append_locked sha256_hex row.run_id "run.accepted" (single "status" "accepted") now

      appended : Exec Store (RunRow × Bool)
      appended = event >>= λ _. pure (row, true)

  create_or_get-found :
      (request : RunRequest) (engine_id engine_version : String) (snapshot : SkillSnapshot)
      (accepted_at now : ℕ) (s : Store) (row : RunRow) (created : Bool)
      → (create_or_get sha256_hex request engine_id engine_version snapshot accepted_at now s).0
        ≡ ok (row, created)
      → let t =
          (create_or_get sha256_hex request engine_id engine_version snapshot accepted_at now
            s).1 in
        (find_key request.run_request_key t ≡ some row)
        × ((row.request_digest == request.request_digest) ≡ true)
  unfolding create_or_get create_or_read_found
  create_or_get-found request engine_id engine_version snapshot accepted_at now s row created =
      elim (Option-cases (find_key request.run_request_key s)) [
        | inr (existing, e) ↦
            elim (Bool-cases (existing.request_digest == request.request_digest)) [
              | inl t ↦
                  rw (e, t)
                    λ h.
                      let p : existing ≡ row = ground (arith, h) in
                      (
                        e ∙ ap some p,
                        ap (λ x. x.request_digest == request.request_digest) (sym p) ∙ t,
                      )
              | inr t ↦ rw (e, t) λ h. absurd (cc)
            ]
        | inl e ↦ rw e λ h. inserted (creation s).1 e (
            returned (λ a t. (a.0 ≡ new_row) × (t.runs ≡ s.runs ++ new_row ∷ [])) (creation s).0
              (creation s).1 (row, created)
              (create_run_row-IsAfter request engine_id engine_version snapshot accepted_at now s)
              h)
      ]
    where
      new_row : RunRow
      new_row = accepted_run sha256_hex request engine_id engine_version snapshot accepted_at

      creation : Exec Store (RunRow × Bool)
      creation = create_run_row sha256_hex request engine_id engine_version snapshot accepted_at now

      inserted :
          (t : Store)
          → find_key request.run_request_key s ≡ none
          → (row ≡ new_row) × (t.runs ≡ s.runs ++ new_row ∷ [])
          → (find_key request.run_request_key t ≡ some row)
            × ((row.request_digest == request.request_digest) ≡ true)
      inserted t e (p, q) = (
        ap (find (λ r. r.run_request_key == request.run_request_key)) q
            ∙ find_snoc request.run_request_key new_row s.runs e (eq_refl request.run_request_key)
            ∙ ap some (sym p),
        ap (λ x. x.request_digest == request.request_digest) p ∙ eq_refl request.request_digest,
      )

  found_again :
      (request : RunRequest) (row : RunRow) (engine_id engine_version : String)
      (snapshot : SkillSnapshot) (accepted_at now : ℕ) (t : Store)
      → (find_key request.run_request_key t ≡ some row)
        × ((row.request_digest == request.request_digest) ≡ true)
      → create_or_get sha256_hex request engine_id engine_version snapshot accepted_at now t
        ≡ (ok (row, false), t)
  unfolding create_or_get create_or_read_found
  found_again request row engine_id engine_version snapshot accepted_at now t (p, q) =
      rw (p, q) refl

  -- If a call of `create_or_get` returns a run, the same request again, with any engine, snapshot
  -- and clock, returns that run as found and changes nothing.
  pub create_or_get_twice :
      (request : RunRequest) (engine_id engine_version : String) (snapshot : SkillSnapshot)
      (accepted_at now : ℕ) (s : Store) (row : RunRow) (created : Bool)
      → (create_or_get sha256_hex request engine_id engine_version snapshot accepted_at now s).0
        ≡ ok (row, created)
      → (engine_id' engine_version' : String) (snapshot' : SkillSnapshot) (accepted_at' now' : ℕ)
      → let t =
          (create_or_get sha256_hex request engine_id engine_version snapshot accepted_at now
            s).1 in
        create_or_get sha256_hex request engine_id' engine_version' snapshot' accepted_at' now' t
        ≡ (ok (row, false), t)
  create_or_get_twice request engine_id engine_version snapshot accepted_at now s row created h
        engine_id' engine_version' snapshot' accepted_at' now' =
      found_again request row engine_id' engine_version' snapshot' accepted_at' now'
        (create_or_get sha256_hex request engine_id engine_version snapshot accepted_at now s).1
        (create_or_get-found request engine_id engine_version snapshot accepted_at now s row created
          h)
