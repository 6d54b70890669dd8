-- ===== src/ControlPlane/Orderly.antt =====
-- What the store of events keeps: in each conversation one owner, the sequences 1, 2, … without gap
-- or repetition, and deliveries in that order.
use pixelflow.Base.Dict.{
  get, put, values, IsKeyed, put-IsKeyed, get-put, get_of_IsIn, IsIn-values_of_get,
}
use pixelflow.Base.{
  ℕ, ◌+◌, ◌≤◌, ◌<◌, String, ◌≡◌, refl, sym, ap, ◌∙◌, ◌⊎◌, inl, inr, Bool, true, false, none, some,
  List, [], ◌∷◌, arith, ltb, ◌==◌, eq_iff, Bool-cases, any, IsIn, here, there, IsIn-cons,
  IsIn-filter, filter-IsIn, not-IsIn-nil, any-eq-false,
}
use pixelflow.ControlPlane.Events.{
  EventEntry, Events, DeliveryStatus, pending, is_published, of_conversation, max_sequence,
  is_foreign,
}
use pixelflow.ControlPlane.Preservation.{get-put_cases}

abbrev pub id_of : EventEntry → String
id_of e = e.event.event_id

abbrev pub place_of : EventEntry → String
place_of e = e.event.conversation_id

abbrev pub number_of : EventEntry → ℕ
number_of e = e.event.sequence

abbrev pub is_pending : DeliveryStatus → Bool
is_pending pending = true
is_pending _ = false

-- Every event of the conversation with a lower sequence is published.
abbrev pub IsNext : EventEntry → Events → Type 0
IsNext e s =
    (i : String) (a : EventEntry)
    → get i s ≡ some a
    → place_of a ≡ place_of e
    → number_of a < number_of e
    → is_published a.status ≡ true

pub record IsOrderly (s : Events) : Type 0 where
  pub keyed : IsKeyed id_of s
  -- A conversation has one owner.
  pub owned :
      (i j : String) (a b : EventEntry)
      → get i s ≡ some a
      → get j s ≡ some b
      → place_of a ≡ place_of b
      → a.owner ≡ b.owner
  -- No sequence is taken twice.
  pub distinct :
      (i j : String) (a b : EventEntry)
      → get i s ≡ some a
      → get j s ≡ some b
      → place_of a ≡ place_of b
      → number_of a ≡ number_of b
      → i ≡ j
  -- Below a sequence, from 1 on, each one is taken.
  pub dense :
      (i : String) (a : EventEntry) (n : ℕ)
      → get i s ≡ some a
      → 1 ≤ n
      → n ≤ number_of a
      → (j : String) × (b : EventEntry) × (get j s ≡ some b)
        × (place_of b ≡ place_of a)
        × (number_of b ≡ n)
  pub positive : (i : String) (a : EventEntry) → get i s ≡ some a → 1 ≤ number_of a
  -- An event is handed out once those before it are published.
  pub in_order :
      (i : String) (b : EventEntry) → get i s ≡ some b → is_pending b.status ≡ false → IsNext b s

max_sequence-le :
    (e : EventEntry) (es : List EventEntry) → IsIn e es → number_of e ≤ max_sequence es
unfolding max_sequence
max_sequence-le e [] m = absurd (not-IsIn-nil refl m)
max_sequence-le e (x ∷ xs) m = elim (IsIn-cons refl m) [
  | inl p ↦ ground (arith, ap number_of p)
  | inr n ↦ ground (arith, max_sequence-le e xs n)
]

max_sequence-taken :
    (es : List EventEntry)
    → (max_sequence es ≡ 0) ⊎ ((e : EventEntry) × IsIn e es × (number_of e ≡ max_sequence es))
unfolding max_sequence
max_sequence-taken [] = inl refl
max_sequence-taken (x ∷ xs) = elim (Bool-cases (ltb (max_sequence xs) (number_of x))) [
  | inl t ↦ rw t (inr (x, here refl, refl))
  | inr t ↦
      rw t (elim (max_sequence-taken xs) [ inl z ↦ inl z | inr (e, m, p) ↦ inr (e, there m, p) ])
]

pub of_conversation-IsIn :
    (i : String) (a : EventEntry) (conversation : String) (s : Events)
    → get i s ≡ some a
    → place_of a ≡ conversation
    → IsIn a (of_conversation conversation s)
unfolding of_conversation
of_conversation-IsIn i a conversation s h p =
    filter-IsIn (λ e. e.event.conversation_id == conversation) (IsIn-values_of_get i a s h)
      ((eq_iff (place_of a) conversation).1 p)

-- An event that is new: with the next sequence, and the owner of all events of its conversation.
pub record IsNew (e : EventEntry) (s : Events) : Type 0 where
  pub fresh : get (id_of e) s ≡ none
  pub next : number_of e ≡ max_sequence (of_conversation (place_of e) s) + 1
  pub mine : any (is_foreign e.owner) (of_conversation (place_of e) s) ≡ false
  pub waits : e.status ≡ pending

module _ (e : EventEntry) (s : Events) (new : IsNew e s) (orderly : IsOrderly s) where
  below :
      (i : String) (a : EventEntry)
      → get i s ≡ some a
      → place_of a ≡ place_of e
      → number_of a < number_of e
  below i a h p = omega (
    arith,
    IsNew.next new,
    max_sequence-le a (of_conversation (place_of e) s)
        (of_conversation-IsIn i a (place_of e) s h p),
  )

  same_owner :
      (i : String) (a : EventEntry) → get i s ≡ some a → place_of a ≡ place_of e → a.owner ≡ e.owner
  same_owner i a h p =
      let f : is_foreign e.owner a ≡ false =
        any-eq-false (is_foreign e.owner) (IsNew.mine new)
          (of_conversation-IsIn i a (place_of e) s h p) in
      ground (arith, eq_iff a.owner e.owner, f)

  -- Each sequence up to that of the new event is taken, by it or before it.
  number_at :
      (n : ℕ)
      → 1 ≤ n
      → n < number_of e
      → (j : String) × (b : EventEntry) × (get j s ≡ some b)
        × (place_of b ≡ place_of e)
        × (number_of b ≡ n)
  unfolding of_conversation
  number_at n h k = elim (max_sequence-taken (of_conversation (place_of e) s)) [
    | inl z ↦ absurd (omega (arith, IsNew.next new))
    | inr (m, isin, p) ↦
        let (v, t) = IsIn-filter (λ x. x.event.conversation_id == place_of e) m (values s) isin in
        let g = get_of_IsIn id_of m s (IsOrderly.keyed orderly) v in
        let q : place_of m ≡ place_of e = (eq_iff (place_of m) (place_of e)).0 t in
        let (j, b, hb, pb, nb) =
          IsOrderly.dense orderly (id_of m) m n g h (omega (arith, IsNew.next new)) in
        (j, b, hb, pb ∙ q, nb)
  ]

  abbrev after : Events
  after = put (id_of e) e s

  survives : (j : String) (b : EventEntry) → get j s ≡ some b → get j after ≡ some b
  survives j b h = elim (Bool-cases (id_of e == j)) [
    | inl t ↦
        let p : id_of e ≡ j = (eq_iff (id_of e) j).0 t in
        absurd (cc (h, IsNew.fresh new, ap (λ k. get k s) p))
    | inr t ↦ ground (arith, get-put (id_of e) j e s, t, h)
  ]

  cases :
      (i : String) (a : EventEntry)
      → get i after ≡ some a
      → ((id_of e ≡ i) × (a ≡ e)) ⊎ (get i s ≡ some a)
  cases i a h = get-put_cases (id_of e) i e a s h

  appended-distinct :
      (i j : String) (a b : EventEntry)
      → get i after ≡ some a
      → get j after ≡ some b
      → place_of a ≡ place_of b
      → number_of a ≡ number_of b
      → i ≡ j
  appended-distinct i j a b ha hb p n = elim (cases i a ha) [
    | inl (k, u) ↦ elim (cases j b hb) [
      | inl (l, v) ↦ sym k ∙ l
      | inr g ↦ absurd (omega (arith, below j b g (sym p ∙ ap place_of u), n, ap number_of u))
    ]
    | inr f ↦ elim (cases j b hb) [
      | inl (l, v) ↦ absurd (omega (arith, below i a f (p ∙ ap place_of v), n, ap number_of v))
      | inr g ↦ IsOrderly.distinct orderly i j a b f g p n
    ]
  ]

  appended-owned :
      (i j : String) (a b : EventEntry)
      → get i after ≡ some a
      → get j after ≡ some b
      → place_of a ≡ place_of b
      → a.owner ≡ b.owner
  appended-owned i j a b ha hb p = elim (cases i a ha) [
    | inl (k, u) ↦ elim (cases j b hb) [
      | inl (l, v) ↦ ap (λ x. x.owner) (u ∙ sym v)
      | inr g ↦ ap (λ x. x.owner) u ∙ sym (same_owner j b g (sym p ∙ ap place_of u))
    ]
    | inr f ↦ elim (cases j b hb) [
      | inl (l, v) ↦ same_owner i a f (p ∙ ap place_of v) ∙ ap (λ x. x.owner) (sym v)
      | inr g ↦ IsOrderly.owned orderly i j a b f g p
    ]
  ]

  appended-dense :
      (i : String) (a : EventEntry) (n : ℕ)
      → get i after ≡ some a
      → 1 ≤ n
      → n ≤ number_of a
      → (j : String) × (b : EventEntry) × (get j after ≡ some b)
        × (place_of b ≡ place_of a)
        × (number_of b ≡ n)
  appended-dense i a n h low high = elim (cases i a h) [
    | inr g ↦
        let (j, b, hb, pb, nb) = IsOrderly.dense orderly i a n g low high in
        (j, b, survives j b hb, pb, nb)
    | inl (k, u) ↦ elim (Bool-cases (ltb n (number_of a))) [
      | inl t ↦
          let (j, b, hb, pb, nb) = number_at n low (ground (arith, t, ap number_of u)) in
          (j, b, survives j b hb, pb ∙ ap place_of (sym u), nb)
      | inr t ↦ (i, a, h, refl, ground (arith, t, high))
    ]
  ]

  appended-in_order :
      (i : String) (b : EventEntry)
      → get i after ≡ some b
      → is_pending b.status ≡ false
      → IsNext b after
  appended-in_order i b h p j a ha q n = elim (cases i b h) [
    | inl (k, u) ↦
        absurd (cc (sym p ∙ ap (λ x. is_pending x.status) u ∙ ap is_pending (IsNew.waits new)))
    | inr g ↦ elim (cases j a ha) [
      | inr f ↦ IsOrderly.in_order orderly i b g p j a f q n
      | inl (l, v) ↦ absurd (omega (arith, below i b g (sym q ∙ ap place_of v), n, ap number_of v))
    ]
  ]

  appended-positive : (i : String) (a : EventEntry) → get i after ≡ some a → 1 ≤ number_of a
  appended-positive i a h = elim (cases i a h) [
    | inl (k, u) ↦ omega (arith, IsNew.next new, ap number_of u)
    | inr g ↦ IsOrderly.positive orderly i a g
  ]

  pub appended-IsOrderly : IsOrderly after
  appended-IsOrderly = record {
    keyed = put-IsKeyed id_of e (id_of e) s refl (IsOrderly.keyed orderly);
    owned = appended-owned;
    distinct = appended-distinct;
    dense = appended-dense;
    positive = appended-positive;
    in_order = appended-in_order;
  }
