-- ===== src/Sidecar/EventStore/Replay.antt =====
-- What `events_after` and `has_cursor` answer on a table whose runs are numbered.
use pixelflow.Base.{
  ℕ, zero, suc, ◌≤◌, String, ◌≡◌, refl, ap, ◌∙◌, Bool, ◌&&◌, List, [], ◌∷◌, ◌++◌, arith, Bool-cases,
  inl, inr, ◌==◌, filter, length, All, ltb, leb, All-filter, All-weaken,
}
use pixelflow.Sidecar.Rows.{EventRow, Store}
use pixelflow.Sidecar.EventStore.{
  of_run, sequences, insert_event, order_by_sequence, events_after, has_cursor,
}
use pixelflow.Sidecar.EventStore.Sequences.{upto, IsSequenced, max_sequence-eq-length}

IsAscending : List ℕ → Type 0
IsAscending [] = Unit
IsAscending (x ∷ xs) = All (λ y. x ≤ y) xs × IsAscending xs

insert_event-least :
    (e : EventRow) (es : List EventRow)
    → All (λ y. e.sequence ≤ y) (sequences es)
    → insert_event e es ≡ e ∷ es
unfolding insert_event
insert_event-least e [] h = refl
insert_event-least e (x ∷ xs) h = ground (arith, h.0)

order_by_sequence-IsAscending :
    (es : List EventRow) → IsAscending (sequences es) → order_by_sequence es ≡ es
unfolding order_by_sequence IsAscending
order_by_sequence-IsAscending [] h = refl
order_by_sequence-IsAscending (e ∷ es) h =
    ap (insert_event e) (order_by_sequence-IsAscending es h.1) ∙ insert_event-least e es h.0

IsAscending-filter : (test : ℕ → Bool) (xs : List ℕ) → IsAscending xs → IsAscending (filter test xs)
unfolding IsAscending
IsAscending-filter test [] h = tt
IsAscending-filter test (x ∷ xs) h = elim (Bool-cases (test x)) [
  | inl t ↦ rw t (All-filter _ _ test (λ _ p _. p) xs h.0, IsAscending-filter test xs h.1)
  | inr t ↦ rw t (IsAscending-filter test xs h.1)
]

All-snoc :
    {A : Type 0} (P : A → Type 0) (xs : List A) (x : A) → All P xs → P x → All P (xs ++ x ∷ [])
All-snoc P [] x h p = (p, tt)
All-snoc P (y ∷ xs) x h p = (h.0, All-snoc P xs x h.1 p)

IsAscending-snoc :
    (xs : List ℕ) (n : ℕ) → IsAscending xs → All (λ x. x ≤ n) xs → IsAscending (xs ++ n ∷ [])
unfolding IsAscending
IsAscending-snoc [] n h b = (tt, tt)
IsAscending-snoc (x ∷ xs) n h b = (All-snoc _ xs n h.0 b.0, IsAscending-snoc xs n h.1 b.1)

All-upto : (n : ℕ) → All (λ x. x ≤ n) (upto n)
unfolding upto
All-upto zero = tt
All-upto (suc n) =
    All-snoc _ (upto n) (suc n) (All-weaken _ _ (λ x h. omega (arith, h)) (upto n) (All-upto n))
      (omega arith)

IsAscending-upto : (n : ℕ) → IsAscending (upto n)
unfolding upto IsAscending
IsAscending-upto zero = tt
IsAscending-upto (suc n) =
    IsAscending-snoc (upto n) (suc n) (IsAscending-upto n)
      (All-weaken _ _ (λ x h. omega (arith, h)) (upto n) (All-upto n))

sequences-filter :
    (test : ℕ → Bool) (es : List EventRow)
    → sequences (filter (λ e. test e.sequence) es) ≡ filter test (sequences es)
sequences-filter test [] = refl
sequences-filter test (e ∷ es) = elim (Bool-cases (test e.sequence)) [
  | inl t ↦ rw (t, sequences-filter test es)
  | inr t ↦ rw (t, sequences-filter test es)
]

filter-&& :
    {A : Type 0} (p q : A → Bool) (xs : List A)
    → filter (λ x. p x && q x) xs ≡ filter q (filter p xs)
filter-&& p q [] = refl
filter-&& p q (x ∷ xs) = elim (Bool-cases (p x)) [
  | inr t ↦ rw (t, filter-&& p q xs)
  | inl t ↦ elim (Bool-cases (q x)) [
    | inl u ↦ rw (t, u, filter-&& p q xs)
    | inr u ↦ rw (t, u, filter-&& p q xs)
  ]
]

-- Where the events of every run are numbered from 1 on, `events_after` answers, for the run and
-- in ascending order, the events whose numbers are those of 1, …, n after the cursor, where n is
-- the number of the run's events: none is missing, repeated or out of order.
pub sequences-events_after :
    (run_id : String) (cursor : ℕ) (s : Store)
    → IsSequenced s.events
    → sequences (events_after run_id cursor s)
      ≡ filter (ltb cursor) (upto (length (of_run run_id s.events)))
unfolding events_after
sequences-events_after run_id cursor s h =
    ap sequences (order_by_sequence-IsAscending _ ascending) ∙ numbers
  where
    numbers :
        sequences (filter (λ e. e.event_run == run_id && ltb cursor e.sequence) s.events)
        ≡ filter (ltb cursor) (upto (length (of_run run_id s.events)))
    numbers =
        ap sequences (filter-&& (λ e. e.event_run == run_id) (λ e. ltb cursor e.sequence) s.events)
        ∙ sequences-filter (ltb cursor) (of_run run_id s.events)
        ∙ ap (filter (ltb cursor)) (h run_id)

    ascending :
        IsAscending
          (sequences (filter (λ e. e.event_run == run_id && ltb cursor e.sequence) s.events))
    ascending =
        rw numbers
          (IsAscending-filter (ltb cursor) _ (IsAscending-upto (length (of_run run_id s.events))))

-- Where the events of every run are numbered from 1 on, `has_cursor` accepts a cursor exactly when
-- it does not exceed the number of the run's events.
has_cursor_lem :
    (run_id : String) (cursor : ℕ) (s : Store)
    → IsSequenced s.events
    → has_cursor run_id cursor s ≡ leb cursor (length (of_run run_id s.events))
unfolding has_cursor
has_cursor_lem run_id cursor s h = ap (leb cursor) (max_sequence-eq-length run_id s.events h)
