-- ===== src/ControlPlane/Preservation.antt =====
-- Each allowed change keeps the queue sound.
use pixelflow.Base.Dict.{
  Dict, get, put, values, IsKeyed, put-IsKeyed, get-put, get-pop, put_all-IsKeyed, get-put_all-map,
  get-put_all, get_of_IsIn, IsIn-values_of_get,
}
use pixelflow.Base.{
  String, ◌≡◌, refl, sym, ap, subst, ◌∙◌, ◌⊎◌, inl, inr, true, false, none, some, List, [], ◌∷◌,
  map, arith, ◌==◌, eq_iff, Bool-cases, Option-cases, filter, IsIn, IsIn-filter, filter-IsIn,
  IsIn-map,
}
use pixelflow.ControlPlane.Turns.{
  TurnStatus, completed, is_processing, is_pending, TurnEntry, set_status, store, belongs,
}
use pixelflow.ControlPlane.Compaction.{
  LeaseState, Queue, set_lease, lease_of, entries_of, is_accepted, queue_entry, queue_accepted,
  is_executing,
}
use pixelflow.ControlPlane.Changes.{
  id_of, turn_at, IsOf, Runs, IsIdle, IsWaiting, IsExclusive, IsFenced, IsSound, Change, added,
  completing, starting, leased, extended, released, started_entry, apply, IsAllowed, apply_all,
  AreAllowed,
}

-- What stands in a dictionary after a write is what was written, or stood there before.
pub get-put_cases {ℓ} :
    {V : Type ℓ} (k i : String) (v a : V) (d : Dict V)
    → get i (put k v d) ≡ some a
    → ((k ≡ i) × (a ≡ v)) ⊎ (get i d ≡ some a)
get-put_cases k i v a d h = elim (Bool-cases (k == i)) [
  | inl t ↦ inl ((eq_iff k i).0 t, ground (arith, get-put k i v d, t))
  | inr t ↦ inr (ground (arith, get-put k i v d, t))
]

-- The entry is written into the queue, which keeps its leases.
abbrev with_entry : TurnEntry → Queue → Queue
with_entry e q = record q { repository = store e q.repository }

module _ (e : TurnEntry) (q : Queue) (sound : IsSound q) where
  entry-IsExclusive :
      (Runs e → IsIdle e.owner e.turn.conversation_id q) → IsExclusive (with_entry e q)
  entry-IsExclusive idle i j a b ha hb ra rb o =
      elim (get-put_cases (id_of e) i e a q.repository.turns ha) [
        | inl (p, u) ↦ elim (get-put_cases (id_of e) j e b q.repository.turns hb) [
          | inl (r, v) ↦ sym p ∙ r
          | inr old ↦ absurd (
              cc (
                rb,
                idle (subst Runs u ra) j b old
                    (o.0 ∙ ap (λ x. x.owner) u, o.1 ∙ ap (λ x. x.turn.conversation_id) u),
              ))
        ]
        | inr old ↦ elim (get-put_cases (id_of e) j e b q.repository.turns hb) [
          | inl (r, v) ↦ absurd (
              cc (
                ra,
                idle (subst Runs v rb) i a old
                    (sym o.0 ∙ ap (λ x. x.owner) v, sym o.1 ∙ ap (λ x. x.turn.conversation_id) v),
              ))
          | inr old' ↦ IsSound.exclusive sound i j a b old old' ra rb o
        ]
      ]

  entry-IsFenced :
      ((lease_of e.turn.conversation_id q ≡ none) ⊎ (is_executing e ≡ false))
      → IsFenced (with_entry e q)
  entry-IsFenced free c state hl i a ha o =
      elim (get-put_cases (id_of e) i e a q.repository.turns ha) [
        | inr old ↦ IsSound.fenced sound c state hl i a old o
        | inl (p, u) ↦ elim free [
          | inr w ↦ ap is_executing u ∙ w
          | inl none_there ↦ absurd (
              cc (
                none_there,
                hl,
                ap (λ x. lease_of x q) (sym o.1 ∙ ap (λ x. x.turn.conversation_id) u),
              ))
        ]
      ]

  with_entry-IsSound :
      (Runs e → IsIdle e.owner e.turn.conversation_id q)
      → ((lease_of e.turn.conversation_id q ≡ none) ⊎ (is_executing e ≡ false))
      → IsSound (with_entry e q)
  with_entry-IsSound idle free = record {
    keyed = put-IsKeyed id_of e (id_of e) q.repository.turns refl (IsSound.keyed sound);
    exclusive = entry-IsExclusive idle;
    fenced = entry-IsFenced free;
  }

pending-not_processing : (s : TurnStatus) → is_pending s ≡ true → is_processing s ≡ false
pending-not_processing s h = ground arith

-- What stands under an identifier after a lease is taken: the turn before, or that turn queued; it
-- is queued where it was an accepted one of the user in the conversation.
module _ (conversation : String) (state : LeaseState) (q : Queue)
    (keyed : IsKeyed id_of q.repository.turns) where
  waiting : List TurnEntry
  waiting =
      filter (λ e. is_accepted e.turn.status)
        (filter (belongs state.user conversation) (values q.repository.turns))

  waiting-IsIn : (a : TurnEntry) → IsIn a waiting → IsIn a (values q.repository.turns)
  unfolding waiting
  waiting-IsIn a m =
      (IsIn-filter _ a (values q.repository.turns)
        (IsIn-filter (λ e. is_accepted e.turn.status) a
          (filter (belongs state.user conversation) (values q.repository.turns)) m).0).0

  IsIn-waiting :
      (i : String) (a : TurnEntry)
      → turn_at i q ≡ some a
      → IsOf state.user conversation a
      → is_accepted a.turn.status ≡ true
      → IsIn a waiting
  unfolding waiting
  IsIn-waiting i a h o t =
      filter-IsIn (λ e. is_accepted e.turn.status)
        (filter-IsIn (belongs state.user conversation) (IsIn-values_of_get i a q.repository.turns h)
          (ground (
            arith,
            eq_iff a.owner state.user,
            eq_iff a.turn.conversation_id conversation,
            o.0,
            o.1,
          )))
        t

  pub leased-cases :
      (i : String) (b : TurnEntry)
      → turn_at i (apply (leased conversation state) q) ≡ some b
      → (a : TurnEntry) × (turn_at i q ≡ some a)
        × ((b ≡ queue_entry a)
            ⊎ ((b ≡ a) × (IsOf state.user conversation a → is_accepted a.turn.status ≡ false)))
  unfolding apply queue_accepted entries_of waiting
  leased-cases i b h = elim (Option-cases (turn_at i q)) [
    | inl e ↦ elim (get-put_all id_of i (map queue_entry waiting) q.repository.turns) [
      | inr (ne, g) ↦ absurd (cc (g, e, h))
      | inl (x, m, p, g) ↦
          let (a, ma, u) = IsIn-map queue_entry x waiting m in
          absurd (
            cc (get_of_IsIn id_of a q.repository.turns keyed (waiting-IsIn a ma), ap id_of u, p, e))
    ]
    | inr (a, e) ↦
        elim (get-put_all-map id_of queue_entry waiting q.repository.turns i a (λ x. refl) keyed
          waiting-IsIn e) [
            | inl (m, g) ↦ (a, e, inl (cc (g, h)))
            | inr (n, g) ↦ (
              a,
              e,
              inr (
                cc (g, h),
                λ o. elim (Bool-cases (is_accepted a.turn.status)) [
                  | inl t ↦ absurd (n (IsIn-waiting i a e o t))
                  | inr t ↦ t
                ],
              ),
            )
          ]
  ]

  pub leased-at :
      (i : String) (a : TurnEntry)
      → turn_at i q ≡ some a
      → ((is_accepted a.turn.status ≡ true)
          × (turn_at i (apply (leased conversation state) q) ≡ some (queue_entry a)))
        ⊎ (turn_at i (apply (leased conversation state) q) ≡ some a)
  unfolding apply queue_accepted entries_of waiting
  leased-at i a e =
      elim (get-put_all-map id_of queue_entry waiting q.repository.turns i a (λ x. refl) keyed
        waiting-IsIn e) [
          | inl (m, g) ↦ inl (
            (IsIn-filter (λ e. is_accepted e.turn.status) a
                (filter (belongs state.user conversation) (values q.repository.turns)) m).1,
            g,
          )
          | inr (n, g) ↦ inr g
        ]

  leased-IsExclusive : IsExclusive q → IsExclusive (apply (leased conversation state) q)
  leased-IsExclusive exclusive i j a b ha hb ra rb o =
      let (a', ea, ca) = leased-cases i a ha in
      let (b', eb, cb) = leased-cases j b hb in
      elim ca [
        | inl u ↦ absurd (cc (sym ra ∙ ap (λ x. is_processing x.turn.status) u))
        | inr (u, _) ↦ elim cb [
          | inl v ↦ absurd (cc (sym rb ∙ ap (λ x. is_processing x.turn.status) v))
          | inr (v, _) ↦ exclusive i j a b (ea ∙ ap some (sym u)) (eb ∙ ap some (sym v)) ra rb o
        ]
      ]

  -- After the lease is taken the turns of the conversation wait, where none was processing.
  leased-IsWaiting :
      IsIdle state.user conversation q
      → IsWaiting state.user conversation (apply (leased conversation state) q)
  leased-IsWaiting idle i b h o =
      let (a, e, cases) = leased-cases i b h in
      elim cases [
        | inl u ↦ ap is_executing u
        | inr (u, w) ↦
            let oa : IsOf state.user conversation a = subst (IsOf state.user conversation) u o in
            let p : is_processing a.turn.status ≡ false = idle i a e oa in
            ap is_executing u ∙ ground (arith, w oa, p)
      ]

  leased-keeps_IsWaiting :
      (owner c : String)
      → IsWaiting owner c q
      → IsWaiting owner c (apply (leased conversation state) q)
  leased-keeps_IsWaiting owner c w i b h o =
      let (a, e, cases) = leased-cases i b h in
      elim cases [ inl u ↦ ap is_executing u | inr (u, _) ↦ w i b (e ∙ ap some (sym u)) o ]

-- The lease that stands under a conversation after a write.
set_lease-IsFenced :
    (conversation : String) (state : LeaseState) (q : Queue)
    → IsWaiting state.user conversation q
    → IsFenced q
    → IsFenced (set_lease conversation state q)
set_lease-IsFenced conversation state q w fenced c other h =
    elim (get-put_cases conversation c state other q.compaction_leases h) [
      | inl (p, u) ↦
          subst (λ s. IsWaiting s c q) (ap (λ s. s.user) (sym u))
            (subst (λ k. IsWaiting state.user k q) p w)
      | inr old ↦ fenced c other old
    ]

-- A change that is allowed keeps the queue sound.
pub apply-IsSound : (c : Change) (q : Queue) → IsAllowed c q → IsSound q → IsSound (apply c q)
unfolding apply queue_accepted entries_of
apply-IsSound (added e) q h sound =
    let s = with_entry-IsSound e q sound (λ r. absurd (cc (r, h.1))) h.2 in
    record { keyed = IsSound.keyed s; exclusive = IsSound.exclusive s; fenced = IsSound.fenced s }
apply-IsSound (completing e) q h sound =
    with_entry-IsSound (record e { turn = set_status completed e.turn }) q sound
      (λ r. absurd (cc r)) (inr refl)
apply-IsSound (starting e) q h sound =
    with_entry-IsSound (started_entry e) q sound (λ r. h.3) (inl h.2)
apply-IsSound (leased conversation state) q h sound = record {
  keyed = put_all-IsKeyed id_of _ q.repository.turns (IsSound.keyed sound);
  exclusive =
      leased-IsExclusive conversation state q (IsSound.keyed sound) (IsSound.exclusive sound);
  fenced =
      set_lease-IsFenced conversation state
        (record q {
          repository = queue_accepted (entries_of state.user conversation q) q.repository;
        })
        (leased-IsWaiting conversation state q (IsSound.keyed sound) h)
        (λ c s hs.
          leased-keeps_IsWaiting conversation state q (IsSound.keyed sound) s.user c
            (IsSound.fenced sound c s hs));
}
apply-IsSound (extended conversation state) q (before, e, u) sound = record {
  keyed = IsSound.keyed sound;
  exclusive = IsSound.exclusive sound;
  fenced =
      set_lease-IsFenced conversation state q
        (subst (λ o. IsWaiting o conversation q) u (IsSound.fenced sound conversation before e))
        (IsSound.fenced sound);
}
apply-IsSound (released conversation) q h sound = record {
  keyed = IsSound.keyed sound;
  exclusive = IsSound.exclusive sound;
  fenced = λ c s hs.
      IsSound.fenced sound c s (ground (arith, get-pop conversation c q.compaction_leases));
}

pub apply_all-IsSound :
    (cs : List Change) (q : Queue) → AreAllowed cs q → IsSound q → IsSound (apply_all cs q)
unfolding apply_all
apply_all-IsSound [] q h sound = sound
apply_all-IsSound (c ∷ cs) q h sound =
    apply_all-IsSound cs (apply c q) h.1 (apply-IsSound c q h.0 sound)
