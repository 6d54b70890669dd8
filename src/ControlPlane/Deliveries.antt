-- ===== src/ControlPlane/Deliveries.antt =====
-- The claims and completions of deliveries keep the store of events orderly, and so do new events.
use pixelflow.Base.Dict.{get, put, put-IsKeyed, get-put_self, get-put}
use pixelflow.Base.{
  ℕ, ◌≤◌, String, ◌≡◌, refl, sym, ap, subst, ◌∙◌, inl, inr, true, false, some, arith, ◌==◌, eq_iff,
  Bool-cases,
}
use pixelflow.ControlPlane.Events.{EventEntry, Events, is_published}
use pixelflow.ControlPlane.Orderly.{id_of, place_of, number_of, is_pending, IsNext, IsOrderly}
use pixelflow.ControlPlane.Preservation.{get-put_cases}

-- The delivery of an event moves on, and the event stays: those before it are published, and what
-- is published stays so.
pub record IsMoved (e e' : EventEntry) (s : Events) : Type 0 where
  pub stands : get (id_of e) s ≡ some e
  pub same_event : e'.event ≡ e.event
  pub same_owner : e'.owner ≡ e.owner
  pub next : IsNext e s
  pub stays : is_published e.status ≡ true → is_published e'.status ≡ true

module _ (e e' : EventEntry) (s : Events) (moved : IsMoved e e' s) (orderly : IsOrderly s) where
  abbrev after : Events
  after = put (id_of e) e' s

  -- What an entry was before.
  record IsFrom (i : String) (a : EventEntry) : Type 0 where
    was : EventEntry
    there_was : get i s ≡ some was
    event_kept : a.event ≡ was.event
    owner_kept : a.owner ≡ was.owner
    next_kept : is_pending a.status ≡ false → IsNext was s
    stays_published : is_published was.status ≡ true → is_published a.status ≡ true

  origin : (i : String) (a : EventEntry) → get i after ≡ some a → IsFrom i a
  origin i a h = elim (get-put_cases (id_of e) i e' a s h) [
    | inl (k, u) ↦ record {
      was = e;
      there_was = subst (λ j. get j s ≡ some e) k (IsMoved.stands moved);
      event_kept = ap (λ x. x.event) u ∙ IsMoved.same_event moved;
      owner_kept = ap (λ x. x.owner) u ∙ IsMoved.same_owner moved;
      next_kept = λ p. IsMoved.next moved;
      stays_published = λ p. ap (λ x. is_published x.status) u ∙ IsMoved.stays moved p;
    }
    | inr g ↦ record {
      was = a;
      there_was = g;
      event_kept = refl;
      owner_kept = refl;
      next_kept = IsOrderly.in_order orderly i a g;
      stays_published = λ p. p;
    }
  ]

  survives :
      (j : String) (b : EventEntry)
      → get j s ≡ some b
      → (c : EventEntry) × (get j after ≡ some c) × (c.event ≡ b.event)
  survives j b h = elim (Bool-cases (id_of e == j)) [
    | inr t ↦ (b, ground (arith, get-put (id_of e) j e' s, t, h), refl)
    | inl t ↦
        let p : id_of e ≡ j = (eq_iff (id_of e) j).0 t in
        let one : e ≡ b = cc (IsMoved.stands moved, h, ap (λ k. get k s) p) in
        (
          e',
          subst (λ k. get k after ≡ some e') p (get-put_self (id_of e) e' s),
          IsMoved.same_event moved ∙ ap (λ x. x.event) one,
        )
  ]

  place : (i : String) (a : EventEntry) (f : IsFrom i a) → place_of a ≡ place_of (IsFrom.was f)
  place i a f = ap (λ x. x.conversation_id) (IsFrom.event_kept f)

  number : (i : String) (a : EventEntry) (f : IsFrom i a) → number_of a ≡ number_of (IsFrom.was f)
  number i a f = ap (λ x. x.sequence) (IsFrom.event_kept f)

  moved-dense :
      (i : String) (a : EventEntry) (n : ℕ)
      → get i after ≡ some a
      → 1 ≤ n
      → n ≤ number_of a
      → (j : String) × (b : EventEntry) × (get j after ≡ some b)
        × (place_of b ≡ place_of a)
        × (number_of b ≡ n)
  moved-dense i a n h low high =
      let f = origin i a h in
      let (j, b, hb, pb, nb) =
        IsOrderly.dense orderly i (IsFrom.was f) n (IsFrom.there_was f) low
          (omega (arith, number i a f)) in
      let (c, hc, same) = survives j b hb in
      (
        j,
        c,
        hc,
        ap (λ x. x.conversation_id) same ∙ pb ∙ sym (place i a f),
        ap (λ x. x.sequence) same ∙ nb,
      )

  moved-in_order :
      (i : String) (b : EventEntry)
      → get i after ≡ some b
      → is_pending b.status ≡ false
      → IsNext b after
  moved-in_order i b h p j a ha q n =
      let f = origin i b h in
      let g = origin j a ha in
      IsFrom.stays_published g (
        IsFrom.next_kept f p j (IsFrom.was g) (IsFrom.there_was g)
          (sym (place j a g) ∙ q ∙ place i b f) (omega (arith, number i b f, number j a g)))

  pub moved-IsOrderly : IsOrderly after
  moved-IsOrderly = record {
    keyed =
        put-IsKeyed id_of e' (id_of e) s (ap (λ x. x.event_id) (IsMoved.same_event moved))
          (IsOrderly.keyed orderly);
    owned = λ i j a b ha hb p.
        let f = origin i a ha in
        let g = origin j b hb in
        IsFrom.owner_kept f
        ∙ IsOrderly.owned orderly i j (IsFrom.was f) (IsFrom.was g) (IsFrom.there_was f)
            (IsFrom.there_was g) (sym (place i a f) ∙ p ∙ place j b g)
        ∙ sym (IsFrom.owner_kept g);
    distinct = λ i j a b ha hb p n.
        let f = origin i a ha in
        let g = origin j b hb in
        IsOrderly.distinct orderly i j (IsFrom.was f) (IsFrom.was g) (IsFrom.there_was f)
          (IsFrom.there_was g) (sym (place i a f) ∙ p ∙ place j b g)
          (sym (number i a f) ∙ n ∙ number j b g);
    dense = moved-dense;
    positive = λ i a h.
        let f = origin i a h in
        omega
          (arith, number i a f, IsOrderly.positive orderly i (IsFrom.was f) (IsFrom.there_was f));
    in_order = moved-in_order;
  }
