-- ===== src/ControlPlane/Ordering.antt =====
-- The turns of a conversation are taken up in the order in which they were stored.
use pixelflow.Base.Dict.{IsKeyed, values}
use pixelflow.Base.Sorting.{IsSorted, sort-IsSorted}
use pixelflow.Base.{
  ◌≤◌, String, ◌≡◌, refl, sym, ap, subst, ◌⊎◌, inl, inr, Bool, true, false, ◌&&◌, Option, none,
  some, List, [], ◌∷◌, arith, Bool-cases, filter, any, IsIn, here, IsIn-cons, not-IsIn-nil,
  All-IsIn,
}
use pixelflow.ControlPlane.Turns.{
  TurnStatus, processing, is_processing, is_pending, TurnRecord, TurnEntry, TurnStore, set_status,
  store, belongs, is_active, active_entries, comes_before, has_processing, claim_first,
  claim_next_of,
}
use pixelflow.ControlPlane.Compaction.{Queue}
use pixelflow.ControlPlane.Changes.{id_of, turn_at, IsOf, IsIdle, started_entry}
use pixelflow.ControlPlane.Effects.{
  has_processing-IsIdle, active_entries-IsIn, active_entries-stand,
}

comes_before-total : (a b : TurnEntry) → comes_before a b ≡ false → comes_before b a ≡ true
comes_before-total a b h = ground arith

comes_before-trans :
    (a b c : TurnEntry)
    → comes_before a b ≡ true
    → comes_before b c ≡ true
    → comes_before a c ≡ true
comes_before-trans a b c h k = ground arith

-- A turn that stands in the queue, of the user in the conversation, in a status that passes.
abbrev pub StandsAs : (TurnStatus → Bool) → String → String → Queue → TurnEntry → Type 0
StandsAs test owner conversation q e =
    (turn_at (id_of e) q ≡ some e) × (test e.turn.status ≡ true) × IsOf owner conversation e

-- What a claim does: it takes up a pending turn that comes before all other pending turns where no
-- turn is processing, or nothing where one is processing or none is pending.
abbrev pub ClaimsInOrder : String → String → Queue → Option TurnRecord × TurnStore → Type 0
ClaimsInOrder owner conversation q r =
    ((e : TurnEntry) × StandsAs is_pending owner conversation q e
      × ((i : String) (other : TurnEntry)
          → turn_at i q ≡ some other
          → IsOf owner conversation other
          → is_pending other.turn.status ≡ true
          → e.owner_sequence ≤ other.owner_sequence)
      × IsIdle owner conversation q
      × (r ≡ (some (set_status processing e.turn), store (started_entry e) q.repository)))
    ⊎ ((r ≡ (none, q.repository))
        × (((e : TurnEntry) × StandsAs is_processing owner conversation q e)
            ⊎ ((i : String) (e : TurnEntry)
                → turn_at i q ≡ some e
                → IsOf owner conversation e
                → is_pending e.turn.status ≡ false)))

any-eq-true :
    {A : Type 0} (test : A → Bool) (xs : List A)
    → any test xs ≡ true
    → (a : A) × IsIn a xs × (test a ≡ true)
any-eq-true test [] h = absurd (cc h)
any-eq-true test (x ∷ xs) h = elim (Bool-cases (test x)) [
  | inl t ↦ (x, here refl, t)
  | inr t ↦ let (a, m, u) = any-eq-true test xs (ground (arith, t, h)) in (a, IsIn.there m, u)
]

module _ (owner conversation : String) (q : Queue) (keyed : IsKeyed id_of q.repository.turns) where
  entries : List TurnEntry
  entries = active_entries owner conversation q.repository

  entries-IsSorted : IsSorted comes_before comes_before-total comes_before-trans entries
  unfolding entries active_entries
  entries-IsSorted = sort-IsSorted comes_before comes_before-total comes_before-trans (
      filter (λ e. belongs owner conversation e && is_active e.turn.status)
        (values q.repository.turns))

  -- A pending turn stands among the active ones.
  pending-IsIn :
      (i : String) (e : TurnEntry)
      → turn_at i q ≡ some e
      → IsOf owner conversation e
      → is_pending e.turn.status ≡ true
      → IsIn e entries
  unfolding entries
  pending-IsIn i e g o p = active_entries-IsIn owner conversation q i e g o (ground arith)

  claim_first-ClaimsInOrder :
      (es : List TurnEntry)
      → entries ≡ es
      → has_processing es ≡ false
      → ClaimsInOrder owner conversation q (claim_first es q.repository)
  unfolding entries
  claim_first-ClaimsInOrder [] same h = inr (
    refl,
    inr (λ i e g o. elim (Bool-cases (is_pending e.turn.status)) [
      | inr t ↦ t
      | inl t ↦ absurd (not-IsIn-nil same (pending-IsIn i e g o t))
    ]),
  )
  claim_first-ClaimsInOrder (e ∷ es) same h =
      let (stands, active, o) =
        active_entries-stand owner conversation q e keyed (subst (IsIn e) (sym same) (here refl)) in
      let idle : is_processing e.turn.status ≡ false = ground (arith, h) in
      inl (
        e,
        (stands, ground (arith, idle, active), o),
        λ i other g p t. elim (IsIn-cons same (pending-IsIn i other g p t)) [
          | inl u ↦ omega (arith, ap (λ x. x.owner_sequence) u)
          | inr m ↦
              let first =
                subst (IsSorted comes_before comes_before-total comes_before-trans) same
                  entries-IsSorted in
              ground (arith, All-IsIn (λ y. comes_before e y ≡ true) m first.0)
        ],
        has_processing-IsIdle owner conversation (e ∷ es) q h (λ i x g p t.
            subst (IsIn x) same
              (active_entries-IsIn owner conversation q i x g p (ground (arith, t)))),
        refl,
      )

  -- In a store where each turn stands under its own identifier, a claim takes up the pending turn
  -- of the user in the conversation with the least sequence, where none of them is processing, and
  -- changes nothing else; or, where one is processing or none is pending, it takes none and changes
  -- nothing.
  pub claim_next_of-ClaimsInOrder :
      ClaimsInOrder owner conversation q (claim_next_of owner conversation q.repository)
  unfolding claim_next_of entries
  claim_next_of-ClaimsInOrder = elim (Bool-cases (has_processing entries)) [
    | inr t ↦ rw t (claim_first-ClaimsInOrder entries refl t)
    | inl t ↦
        let (e, m, p) = any-eq-true (λ x. is_processing x.turn.status) entries t in
        let (stands, _, o) = active_entries-stand owner conversation q e keyed m in
        rw t (inr (refl, inl (e, (stands, p, o))))
  ]
