-- ===== src/ControlPlane/Effects.antt =====
-- Each method of the queue does what allowed changes do.
use pixelflow.Base.Dict.{IsKeyed, IsIn-values_of_get, get_of_IsIn}
use pixelflow.Base.Exec.{Exec, continue}
use pixelflow.Base.Results.{Result, ok, err}
use pixelflow.Base.Sorting.{IsIn-sort, sort-IsIn}
use pixelflow.Base.{
  ℕ, String, ◌≡◌, refl, sym, ap, subst, ◌∙◌, ◌⊎◌, inl, inr, true, false, ◌&&◌, none, some, List, [],
  ◌∷◌, arith, ◌==◌, eq_iff, Bool-cases, Option-cases, strip, strip-strip, IsIn, here, IsIn-filter,
  filter-IsIn, any-eq-false,
}
use pixelflow.ControlPlane.Turns.{
  queued, is_processing, is_pending, TurnRecord, TurnEntry, require_text, normalize_turn,
  insert_turn, new_entry, is_taken, find_client_key, enqueue_normalized, belongs, is_active,
  active_entries, comes_before, has_processing, claim_first,
}
use pixelflow.ControlPlane.Compaction.{Queue, super, lease_of, entries_of}
use pixelflow.ControlPlane.Changes.{
  id_of, turn_at, IsOf, IsIdle, Change, added, starting, apply, IsAllowed, apply_all, AreAllowed,
}

-- The second queue is what allowed changes make of the first.
abbrev pub Effect : Queue → Queue → Type 0
Effect q q' = (cs : List Change) × AreAllowed cs q × (q' ≡ apply_all cs q)

pub unchanged : (q : Queue) → Effect q q
unfolding apply_all
unchanged q = ([], tt, refl)

pub one_change : (c : Change) (q : Queue) → IsAllowed c q → Effect q (apply c q)
unfolding apply_all
one_change c q h = (c ∷ [], (h, tt), refl)

pub and_then : (c : Change) (q q' : Queue) → IsAllowed c q → Effect (apply c q) q' → Effect q q'
unfolding apply_all
and_then c q q' h (cs, a, e) = (c ∷ cs, (h, a), e)

pub continue-Effect :
    {A B : Type 0} (r : Result A) (f : A → Exec Queue B) (q : Queue)
    → ((a : A) → r ≡ ok a → Effect q (f a q).1)
    → Effect q (continue r f q).1
continue-Effect (ok a) f q h = h a refl
continue-Effect (err e) f q h = unchanged q

-- What holds of all that a call returns, once the step before it returns.
pub continue-Returns :
    {A B : Type 0} (P : B → Queue → Type 0) (r : Result A) (f : A → Exec Queue B) (q : Queue)
    → ((a : A) → r ≡ ok a → (b : B) → (f a q).0 ≡ ok b → P b (f a q).1)
    → (b : B) → (continue r f q).0 ≡ ok b
    → P b (continue r f q).1
continue-Returns P (ok a) f q h = h a refl
continue-Returns P (err e) f q h = λ b n. absurd (cc n)

-- A text that was taken once is taken again as it is.
pub require_text-twice :
    (value text : String) (max_length : ℕ)
    → require_text value max_length ≡ ok text
    → require_text text max_length ≡ ok text
unfolding require_text
require_text-twice value text max_length h =
    let e : strip value ≡ text = ground arith in
    let same : strip text ≡ text = ap strip (sym e) ∙ strip-strip value ∙ e in
    rw same (ground (arith, h, e))

pub normalize_turn-status : (r n : TurnRecord) → normalize_turn r ≡ ok n → n.status ≡ r.status
unfolding normalize_turn
normalize_turn-status r n h = ground arith

module _ (owner : String) (turn : TurnRecord) (q : Queue) (idle : is_processing turn.status ≡ false)
    (free : (lease_of turn.conversation_id q ≡ none) ⊎ (turn.status ≡ queued)) where
  pub insert_turn-Effect : Effect q (super (insert_turn owner turn) q).1
  unfolding insert_turn apply
  insert_turn-Effect = elim (Bool-cases (is_taken turn q.repository)) [
    | inl t ↦ rw t (unchanged q)
    | inr t ↦ rw t (
        one_change (added (new_entry owner turn q.repository)) q (
          elim (Option-cases (turn_at turn.turn_id q)) [
            | inl e ↦ e
            | inr (a, e) ↦ ground (arith, t, e)
          ],
          idle,
          elim free [ inl e ↦ inl e | inr e ↦ inr (rw e refl) ],
        ))
  ]

  pub enqueue_normalized-Effect : Effect q (super (enqueue_normalized owner turn) q).1
  unfolding enqueue_normalized
  enqueue_normalized-Effect =
      elim (Option-cases (find_client_key turn.conversation_id turn.client_input_id q.repository)) [
        | inl e ↦ rw e insert_turn-Effect
        | inr (a, e) ↦ elim (Bool-cases (a.owner == owner)) [
          | inl t ↦ rw (e, t) (unchanged q)
          | inr t ↦ rw (e, t) (unchanged q)
        ]
      ]

-- None of the entries is processing, so none of the user in the conversation is.
pub has_processing-IsIdle :
    (owner conversation : String) (entries : List TurnEntry) (q : Queue)
    → has_processing entries ≡ false
    → ((i : String) (e : TurnEntry)
        → turn_at i q ≡ some e
        → IsOf owner conversation e
        → is_processing e.turn.status ≡ true
        → IsIn e entries)
    → IsIdle owner conversation q
has_processing-IsIdle owner conversation entries q h m i e g o =
    elim (Bool-cases (is_processing e.turn.status)) [
      | inr t ↦ t
      | inl t ↦ any-eq-false (λ x. is_processing x.turn.status) h (m i e g o t)
    ]

pub IsOf-belongs :
    (owner conversation : String) (e : TurnEntry)
    → IsOf owner conversation e
    → belongs owner conversation e ≡ true
IsOf-belongs owner conversation e o =
    ground (arith, eq_iff e.owner owner, eq_iff e.turn.conversation_id conversation, o.0, o.1)

pub belongs-IsOf :
    (owner conversation : String) (e : TurnEntry)
    → belongs owner conversation e ≡ true
    → IsOf owner conversation e
belongs-IsOf owner conversation e h = (
  ground (arith, eq_iff e.owner owner),
  ground (arith, eq_iff e.turn.conversation_id conversation),
)

pub entries_of-IsIn :
    (owner conversation : String) (q : Queue) (i : String) (e : TurnEntry)
    → turn_at i q ≡ some e
    → IsOf owner conversation e
    → IsIn e (entries_of owner conversation q)
unfolding entries_of
entries_of-IsIn owner conversation q i e g o =
    filter-IsIn (belongs owner conversation) (IsIn-values_of_get i e q.repository.turns g)
      (IsOf-belongs owner conversation e o)

pub active_entries-IsIn :
    (owner conversation : String) (q : Queue) (i : String) (e : TurnEntry)
    → turn_at i q ≡ some e
    → IsOf owner conversation e
    → is_active e.turn.status ≡ true
    → IsIn e (active_entries owner conversation q.repository)
unfolding active_entries
active_entries-IsIn owner conversation q i e g o t = sort-IsIn comes_before e _ (
    filter-IsIn (λ e. belongs owner conversation e && is_active e.turn.status)
      (IsIn-values_of_get i e q.repository.turns g) (rw (IsOf-belongs owner conversation e o) t))

-- A pending turn that stands in the queue, of the user in the conversation.
abbrev pub IsCandidate : String → String → Queue → TurnEntry → Type 0
IsCandidate owner conversation q e =
    (turn_at (id_of e) q ≡ some e) × (is_pending e.turn.status ≡ true) × IsOf owner conversation e

pub active_entries-stand :
    (owner conversation : String) (q : Queue) (e : TurnEntry)
    → IsKeyed id_of q.repository.turns
    → IsIn e (active_entries owner conversation q.repository)
    → (turn_at (id_of e) q ≡ some e) × (is_active e.turn.status ≡ true) × IsOf owner conversation e
unfolding active_entries
active_entries-stand owner conversation q e keyed m =
    let (a, t) =
      IsIn-filter (λ e. belongs owner conversation e && is_active e.turn.status) e _
        (IsIn-sort comes_before e _ m) in
    (
      get_of_IsIn id_of e q.repository.turns keyed a,
      ground arith,
      belongs-IsOf owner conversation e (ground arith),
    )

-- The first of the candidates is taken up where nothing else runs and no lease is held.
pub claim_first-Effect :
    (owner conversation : String) (entries : List TurnEntry) (q : Queue)
    → ((e : TurnEntry) → IsIn e entries → IsCandidate owner conversation q e)
    → lease_of conversation q ≡ none
    → IsIdle owner conversation q
    → Effect q (super (claim_first entries) q).1
unfolding apply
claim_first-Effect owner conversation [] q h l idle = unchanged q
claim_first-Effect owner conversation (e ∷ es) q h l idle =
    let (stands, pending, o) = h e (here refl) in
    one_change (starting e) q (
      stands,
      pending,
      subst (λ c. lease_of c q ≡ none) (sym o.1) l,
      subst (λ u. IsIdle u e.turn.conversation_id q) (sym o.0)
          (subst (λ c. IsIdle owner c q) (sym o.1) idle),
    )
