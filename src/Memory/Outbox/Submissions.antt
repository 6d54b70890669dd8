-- ===== src/Memory/Outbox/Submissions.antt =====
-- What each call on the queue of memory writes, alone, leaves of a key's allowance: how often a write
-- of the key may still be handed out for submission.
use Prim.Native.String.{slice}
use pixelflow.Base.Dict.{get, values, get-put, IsKeyed, put-IsKeyed, id_of_get, get_of_IsIn}
use pixelflow.Base.{
  ℕ, ◌+◌, ◌≤◌, String, ◌≡◌, refl, sym, ap, ◌∙◌, Bool, true, ◌&&◌, Option, none, some, List, [], ◌∷◌,
  ◌++◌, arith, Bool-cases, Option-cases, inl, inr, ◌==◌, eq_iff, filter, length, nat_beq, IsIn,
  here, there, IsIn-filter, &&-eq-true, if◌then◌else◌, same_text,
}
use pixelflow.Memory.Outbox.{
  WriteRow, Rows, MemoryWrite, claimed_write, new_row, enqueue, is_due, first_of, is_before,
  leased_row, claim, write_owned, released, with_event_id, save_event_id, retry,
  move_to_manual_review, complete, pending, manual_review, completed, may_submit,
}

-- A call on the queue by some worker, which runs alone.
pub data Command : Type 0 where
  enqueueing : (user_id content category write_key : String) (now : ℕ) → Command
  claiming : (worker_id : String) (lease_seconds now : ℕ) → Command
  saving : (write_key worker_id event_id : String) (lease_seconds now : ℕ) → Command
  retrying : (write_key worker_id : String) (delay : ℕ) (failure_code : String) (now : ℕ) → Command
  reviewing : (write_key worker_id failure_code : String) → Command
  completing : (write_key worker_id : String) → Option String → Command

-- What a command hands out, in a list of at most one write, and the rows after it.
abbrev pub handed : Option MemoryWrite × Rows → List MemoryWrite × Rows
handed (none, rows) = ([], rows)
handed (some claimed, rows) = (claimed ∷ [], rows)

unfoldable pub step : Bool → Command → Rows → List MemoryWrite × Rows
unfolding enqueue claim save_event_id retry move_to_manual_review complete
step nulls_first (enqueueing user_id content category write_key now) rows =
    ([], (enqueue user_id content category write_key now rows).1)
step nulls_first (claiming worker_id lease_seconds now) rows =
    handed (claim nulls_first worker_id lease_seconds now rows)
step nulls_first (saving write_key worker_id event_id lease_seconds now) rows =
    ([], (save_event_id write_key worker_id event_id lease_seconds now rows).1)
step nulls_first (retrying write_key worker_id delay failure_code now) rows =
    ([], retry write_key worker_id delay failure_code now rows)
step nulls_first (reviewing write_key worker_id failure_code) rows =
    ([], move_to_manual_review write_key worker_id failure_code rows)
step nulls_first (completing write_key worker_id event_id) rows =
    ([], complete write_key worker_id event_id rows)

-- The claims of the key that the worker may answer with a submission.
abbrev pub submissions : String → List MemoryWrite → ℕ
submissions key cs = length (filter (λ c. c.write_key == key && may_submit c) cs)

-- How many more submissions of the key the rows allow.
abbrev pub allowance_of : Option WriteRow → ℕ
allowance_of none = 1
allowance_of (some row) = if nat_beq row.delivery_attempts 0 then 1 else 0

abbrev pub allowance : String → Rows → ℕ
allowance key rows = allowance_of (get key rows)

abbrev pub Keyed : Rows → Type 0
Keyed rows = IsKeyed (λ r. r.write_key) rows

first_of-IsIn :
    (nulls_first : Bool) (rows : List WriteRow) (row : WriteRow)
    → first_of nulls_first rows ≡ some row
    → IsIn row rows
unfolding first_of
first_of-IsIn nulls_first [] row e = absurd (cc)
first_of-IsIn nulls_first (r ∷ rs) row e = elim (Option-cases (first_of nulls_first rs)) [
  | inl q ↦ here (ground (arith, e, q))
  | inr (other, q) ↦ elim (Bool-cases (is_before nulls_first other r)) [
    | inl t ↦ there (first_of-IsIn nulls_first rs row (ground (arith, e, q, t)))
    | inr t ↦ here (ground (arith, e, q, t))
  ]
]

-- The row that is claimed stands under its key.
first_due-get :
    (nulls_first : Bool) (now : ℕ) (rows : Rows) (row : WriteRow)
    → Keyed rows
    → first_of nulls_first (filter (is_due now) (values rows)) ≡ some row
    → get row.write_key rows ≡ some row
first_due-get nulls_first now rows row h e =
    get_of_IsIn (λ r. r.write_key) row rows h
      (IsIn-filter (is_due now) row (values rows) (first_of-IsIn nulls_first _ row e)).0

-- A write that keeps the key and the attempts of a row keeps the allowance and the keys.
module _ (worker_id write_key : String) (f : WriteRow → WriteRow) where
  abbrev KeepsAttempts : Type 0
  KeepsAttempts =
      (r : WriteRow)
      → ((f r).write_key ≡ r.write_key) × ((f r).delivery_attempts ≡ r.delivery_attempts)

  write_owned-allowance :
      (key : String) (rows : Rows)
      → KeepsAttempts
      → allowance key (write_owned worker_id write_key f rows).1 ≡ allowance key rows
  unfolding write_owned
  write_owned-allowance key rows k = elim (Option-cases (get write_key rows)) [
    | inl e ↦ rw e refl
    | inr (row, e) ↦ elim (Bool-cases (same_text row.lease_owner (some worker_id))) [
      | inr t ↦ rw (e, t) refl
      | inl t ↦ elim (Bool-cases (write_key == key)) [
        | inl u ↦
            rw (e, t, get-put write_key key (f row) rows, u)
              (ground (arith, (k row).1, eq_iff write_key key, e, u))
        | inr u ↦ rw (e, t, get-put write_key key (f row) rows, u) refl
      ]
    ]
  ]

  write_owned-Keyed :
      (rows : Rows) → KeepsAttempts → Keyed rows → Keyed (write_owned worker_id write_key f rows).1
  unfolding write_owned
  write_owned-Keyed rows k h = elim (Option-cases (get write_key rows)) [
    | inl e ↦ rw e h
    | inr (row, e) ↦ elim (Bool-cases (same_text row.lease_owner (some worker_id))) [
      | inr t ↦ rw (e, t) h
      | inl t ↦
          rw (e, t)
            (put-IsKeyed (λ r. r.write_key) (f row) write_key rows
              ((k row).0 ∙ id_of_get (λ r. r.write_key) write_key row rows h e) h)
    ]
  ]

get_same : (rows : Rows) (i j : String) → (i == j) ≡ true → get i rows ≡ get j rows
get_same rows i j u = ap (λ k. get k rows) ((eq_iff i j).0 u)

le_of_eq : {m n : ℕ} → m ≡ n → 0 + m ≤ n
le_of_eq e = omega (arith, e)

enqueue-allowance :
    (user_id content category write_key : String) (now : ℕ) (key : String) (rows : Rows)
    → allowance key (enqueue user_id content category write_key now rows).1 ≡ allowance key rows
unfolding enqueue
enqueue-allowance user_id content category write_key now key rows =
    elim (Option-cases (get write_key rows)) [
      | inl e ↦ elim (Bool-cases (write_key == key)) [
        | inl u ↦
            rw (e, get-put write_key key (new_row user_id content category write_key now) rows, u)
              (ap allowance_of (sym (sym (get_same rows write_key key u) ∙ e)))
        | inr u ↦
            rw (e, get-put write_key key (new_row user_id content category write_key now) rows, u)
              refl
      ]
      | inr (row, e) ↦
          elim (Bool-cases
            (row.user_id == user_id && row.category == category && row.content == content)) [
              | inl t ↦ rw (e, t) refl
              | inr t ↦ rw (e, t) refl
            ]
    ]

-- A claim of a row of the key that may be submitted is the row's first.
leased-allowance :
    (row : WriteRow) (worker_id : String) (lease_seconds now : ℕ) (test : Bool)
    → length (
          filter
            (λ c. test && may_submit c)
            (claimed_write (leased_row worker_id lease_seconds now row) ∷ []))
        + allowance_of (some (leased_row worker_id lease_seconds now row))
      ≤ allowance_of (some row)
leased-allowance row worker_id lease_seconds now test =
    elim (Bool-cases
      (test && may_submit (claimed_write (leased_row worker_id lease_seconds now row)))) [
        | inl t ↦ rw t (ground (arith, &&-eq-true test _ t))
        | inr t ↦ rw t (ground arith)
      ]

claim-allowance :
    (nulls_first : Bool) (worker_id : String) (lease_seconds now : ℕ) (key : String) (rows : Rows)
    → Keyed rows
    → submissions key (handed (claim nulls_first worker_id lease_seconds now rows)).0
        + allowance key (handed (claim nulls_first worker_id lease_seconds now rows)).1
      ≤ allowance key rows
unfolding claim
claim-allowance nulls_first worker_id lease_seconds now key rows h =
    elim (Option-cases (first_of nulls_first (filter (is_due now) (values rows)))) [
      | inl e ↦ rw e (omega arith)
      | inr (row, e) ↦
          let found = first_due-get nulls_first now rows row h e in
          elim (Bool-cases (row.write_key == key)) [
            | inl u ↦
                rw
                  (
                    e,
                    get-put row.write_key key (leased_row worker_id lease_seconds now row) rows,
                    u,
                    sym (get_same rows row.write_key key u),
                    found,
                  )
                  (leased-allowance row worker_id lease_seconds now true)
            | inr u ↦
                rw
                  (
                    e,
                    get-put row.write_key key (leased_row worker_id lease_seconds now row) rows,
                    u,
                  )
                  (omega arith)
          ]
    ]

-- What one command hands out and the allowance that it leaves are no more than the allowance
-- before it.
pub step-allowance :
    (nulls_first : Bool) (c : Command) (key : String) (rows : Rows)
    → Keyed rows
    → submissions key (step nulls_first c rows).0 + allowance key (step nulls_first c rows).1
      ≤ allowance key rows
unfolding step save_event_id retry move_to_manual_review complete
step-allowance nulls_first (enqueueing user_id content category write_key now) key rows h =
    omega (arith, enqueue-allowance user_id content category write_key now key rows)
step-allowance nulls_first (claiming worker_id lease_seconds now) key rows h =
    claim-allowance nulls_first worker_id lease_seconds now key rows h
step-allowance nulls_first (saving write_key worker_id event_id lease_seconds now) key rows h =
    le_of_eq (
      write_owned-allowance worker_id write_key (with_event_id event_id lease_seconds now) key rows
        λ _. (refl, refl))
step-allowance nulls_first (retrying write_key worker_id delay failure_code now) key rows h =
    le_of_eq (
      write_owned-allowance worker_id write_key
        (released pending (some (now + delay)) (some (slice failure_code 0 64))) key rows
        λ _. (refl, refl))
step-allowance nulls_first (reviewing write_key worker_id failure_code) key rows h = le_of_eq (
    write_owned-allowance worker_id write_key
      (released manual_review none (some (slice failure_code 0 64))) key rows λ _. (refl, refl))
step-allowance nulls_first (completing write_key worker_id event_id) key rows h = le_of_eq (
    write_owned-allowance worker_id write_key
      (λ row. released completed none none (record row { event_id = event_id })) key rows
      λ _. (refl, refl))

pub step-Keyed :
    (nulls_first : Bool) (c : Command) (rows : Rows)
    → Keyed rows
    → Keyed (step nulls_first c rows).1
unfolding step enqueue claim save_event_id retry move_to_manual_review complete
step-Keyed nulls_first (enqueueing user_id content category write_key now) rows h =
    elim (Option-cases (get write_key rows)) [
      | inl e ↦ rw e (put-IsKeyed (λ r. r.write_key) _ write_key rows refl h)
      | inr (row, e) ↦
          elim (Bool-cases
            (row.user_id == user_id && row.category == category && row.content == content)) [
              | inl t ↦ rw (e, t) h
              | inr t ↦ rw (e, t) h
            ]
    ]
step-Keyed nulls_first (claiming worker_id lease_seconds now) rows h =
    elim (Option-cases (first_of nulls_first (filter (is_due now) (values rows)))) [
      | inl e ↦ rw e h
      | inr (row, e) ↦ rw e (put-IsKeyed (λ r. r.write_key) _ row.write_key rows refl h)
    ]
step-Keyed nulls_first (saving write_key worker_id event_id lease_seconds now) rows h =
    write_owned-Keyed worker_id write_key (with_event_id event_id lease_seconds now) rows
      (λ _. (refl, refl)) h
step-Keyed nulls_first (retrying write_key worker_id delay failure_code now) rows h =
    write_owned-Keyed worker_id write_key
      (released pending (some (now + delay)) (some (slice failure_code 0 64))) rows
      (λ _. (refl, refl)) h
step-Keyed nulls_first (reviewing write_key worker_id failure_code) rows h =
    write_owned-Keyed worker_id write_key
      (released manual_review none (some (slice failure_code 0 64))) rows (λ _. (refl, refl)) h
step-Keyed nulls_first (completing write_key worker_id event_id) rows h =
    write_owned-Keyed worker_id write_key
      (λ row. released completed none none (record row { event_id = event_id })) rows
      (λ _. (refl, refl)) h

pub submissions-append :
    (key : String) (xs ys : List MemoryWrite)
    → submissions key (xs ++ ys) ≡ submissions key xs + submissions key ys
submissions-append key [] ys = omega arith
submissions-append key (x ∷ xs) ys = elim (Bool-cases (x.write_key == key && may_submit x)) [
  | inl t ↦ rw t (omega (arith, submissions-append key xs ys))
  | inr t ↦ rw t (submissions-append key xs ys)
]

pub allowance_of_bound : (o : Option WriteRow) → allowance_of o ≤ 1
allowance_of_bound none = omega arith
allowance_of_bound (some row) = ground arith
