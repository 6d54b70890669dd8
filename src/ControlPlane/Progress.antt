-- ===== src/ControlPlane/Progress.antt =====
-- How a stored turn changes: it stays, under its owner and in its place, and its status only moves
-- forward.
use pixelflow.Base.Dict.{get, put, get-put, get-put_ne}
use pixelflow.Base.{
  ℕ, ◌<◌, String, ◌≡◌, refl, sym, ap, subst, ◌∙◌, ◌⊎◌, inl, inr, true, some, List, [], ◌∷◌, arith,
  ◌==◌, eq_iff, Bool-cases,
}
use pixelflow.ControlPlane.Turns.{
  TurnStatus, accepted, queued, processing, waiting_user, completed, failed, is_pending, TurnEntry,
  set_status,
}
use pixelflow.ControlPlane.Compaction.{Queue, is_accepted}
use pixelflow.ControlPlane.Handover.{may_complete}
use pixelflow.ControlPlane.Changes.{
  id_of, turn_at, IsSound, Change, added, completing, starting, leased, extended, released, apply,
  IsAllowed, apply_all, AreAllowed,
}
use pixelflow.ControlPlane.Preservation.{leased-at, apply-IsSound}
use pixelflow.ControlPlane.Requests.{Request, perform, IsPlain, perform-Effect}

-- accepted, queued, processing, completed: the order in which a turn passes through them.
abbrev stage : TurnStatus → ℕ
stage accepted = 0
stage queued = 1
stage processing = 2
stage completed = 3
stage waiting_user = 4
stage failed = 4

-- The status stays, or moves to a later of the four.
abbrev pub Advances : TurnStatus → TurnStatus → Type 0
Advances s t = (s ≡ t) ⊎ ((stage s < stage t) × (stage t < 4))

Advances-trans : (r s t : TurnStatus) → Advances r s → Advances s t → Advances r t
Advances-trans r s t (inl e) h = subst (λ x. Advances x t) (sym e) h
Advances-trans r s t (inr h) (inl e) = inr (subst (λ x. (stage r < stage x) × (stage x < 4)) e h)
Advances-trans r s t (inr (h, k)) (inr (l, m)) = inr (omega arith, m)

-- The entry with another status, and nothing else changed.
abbrev with_status : TurnStatus → TurnEntry → TurnEntry
with_status status e = record e { turn = set_status status e.turn }

-- What stands under the identifier has the turn of before, in a status to which it advanced.
abbrev pub IsContinued : String → TurnEntry → Queue → Type 0
IsContinued id before q =
    (status : TurnStatus) × (turn_at id q ≡ some (with_status status before))
    × Advances before.turn.status status

kept : (id : String) (e : TurnEntry) (q : Queue) → turn_at id q ≡ some e → IsContinued id e q
kept id e q h = (e.turn.status, h, inl refl)

-- A write over an entry with its own turn in a later status.
stored-IsContinued :
    (id : String) (e old : TurnEntry) (status : TurnStatus) (q : Queue)
    → turn_at (id_of old) q ≡ some old
    → Advances old.turn.status status
    → turn_at id q ≡ some e
    → (s : TurnStatus) × (get id (put (id_of old) (with_status status old) q.repository.turns)
        ≡ some (with_status s e))
      × Advances e.turn.status s
stored-IsContinued id e old status q stands move h = elim (Bool-cases (id_of old == id)) [
  | inr t ↦ (
    e.turn.status,
    ground (arith, get-put (id_of old) id (with_status status old) q.repository.turns, t, h),
    inl refl,
  )
  | inl t ↦
      let p : id_of old ≡ id = (eq_iff (id_of old) id).0 t in
      let one : old ≡ e = cc (stands, h, ap (λ k. turn_at k q) p) in
      (
        status,
        ground (arith, get-put (id_of old) id (with_status status old) q.repository.turns, t)
            ∙ ap (λ x. some (with_status status x)) one,
        subst (λ x. Advances x.turn.status status) one move,
      )
]

may_complete-Advances : (s : TurnStatus) → may_complete s ≡ true → Advances s completed
may_complete-Advances accepted h = inr (omega arith, omega arith)
may_complete-Advances processing h = inr (omega arith, omega arith)
may_complete-Advances completed h = inl refl
may_complete-Advances queued h = absurd (cc h)
may_complete-Advances waiting_user h = absurd (cc h)
may_complete-Advances failed h = absurd (cc h)

is_pending-Advances : (s : TurnStatus) → is_pending s ≡ true → Advances s processing
is_pending-Advances accepted h = inr (omega arith, omega arith)
is_pending-Advances queued h = inr (omega arith, omega arith)
is_pending-Advances processing h = absurd (cc h)
is_pending-Advances completed h = absurd (cc h)
is_pending-Advances waiting_user h = absurd (cc h)
is_pending-Advances failed h = absurd (cc h)

accepted-Advances : (s : TurnStatus) → is_accepted s ≡ true → Advances s queued
accepted-Advances accepted h = inr (omega arith, omega arith)
accepted-Advances queued h = inl refl
accepted-Advances processing h = absurd (cc h)
accepted-Advances completed h = absurd (cc h)
accepted-Advances waiting_user h = absurd (cc h)
accepted-Advances failed h = absurd (cc h)

apply-IsContinued :
    (c : Change) (q : Queue) (id : String) (e : TurnEntry)
    → IsAllowed c q
    → IsSound q
    → turn_at id q ≡ some e
    → IsContinued id e (apply c q)
unfolding apply
apply-IsContinued (added x) q id e (fresh, _, _) sound h = kept id e (apply (added x) q) (
    get-put_ne (id_of x) id x q.repository.turns
      (λ p. absurd (cc (fresh, h, ap (λ k. turn_at k q) p)))
    ∙ h)
apply-IsContinued (completing x) q id e (stands, may) sound h =
    stored-IsContinued id e x completed q stands (may_complete-Advances x.turn.status may) h
apply-IsContinued (starting x) q id e (stands, pending, _, _) sound h =
    stored-IsContinued id e x processing q stands (is_pending-Advances x.turn.status pending) h
apply-IsContinued (leased conversation state) q id e _ sound h =
    elim (leased-at conversation state q (IsSound.keyed sound) id e h) [
      | inl (t, g) ↦ (queued, g, accepted-Advances e.turn.status t)
      | inr g ↦ kept id e (apply (leased conversation state) q) g
    ]
apply-IsContinued (extended conversation state) q id e _ sound h =
    kept id e (apply (extended conversation state) q) h
apply-IsContinued (released conversation) q id e _ sound h =
    kept id e (apply (released conversation) q) h

apply_all-IsContinued :
    (cs : List Change) (q : Queue) (id : String) (e : TurnEntry)
    → AreAllowed cs q
    → IsSound q
    → turn_at id q ≡ some e
    → IsContinued id e (apply_all cs q)
unfolding apply_all
apply_all-IsContinued [] q id e _ sound h = kept id e q h
apply_all-IsContinued (c ∷ cs) q id e (a, later) sound h =
    let (s, g, m) = apply-IsContinued c q id e a sound h in
    let (t, g', m') =
      apply_all-IsContinued cs (apply c q) id (with_status s e) later (apply-IsSound c q a sound)
        g in
    (t, g', Advances-trans e.turn.status s t m m')

-- A stored turn stays in a sound queue through any request, with its owner, its place and all its
-- fields but the status, which stays or moves forward from accepted to queued, processing and
-- completed, where no caller asks to store a turn that is already processing.
pub perform-IsContinued :
    (r : Request) (q : Queue) (id : String) (e : TurnEntry)
    → IsPlain r
    → IsSound q
    → turn_at id q ≡ some e
    → IsContinued id e (perform r q)
perform-IsContinued r q id e p sound h =
    let (cs, allowed, same) = perform-Effect r q p sound in
    subst (IsContinued id e) (sym same) (apply_all-IsContinued cs q id e allowed sound h)
