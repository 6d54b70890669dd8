-- ===== src/ControlPlane/Repeats.antt =====
-- A turn that was stored is read back, and storing it once more changes nothing.
use pixelflow.Base.Dict.{
  get, put, values, IsKeyed, get-put_self, put-IsKeyed, get_of_IsIn, IsIn-values_of_get,
}
use pixelflow.Base.Results.{Result, ok, err, Error, conflict, guard}
use pixelflow.Base.{
  String, ◌≡◌, refl, sym, ap, subst, ◌∙◌, ◌⊎◌, inl, inr, Bool, true, false, ◌&&◌, ◌||◌, Option,
  none, some, arith, ◌==◌, eq_iff, Bool-cases, Option-cases, is_some, find, any, find-eq-some,
  find-eq-none,
}
use pixelflow.ControlPlane.Turns.{
  TurnRecord, TurnEntry, TurnStore, require_text, normalize_turn, set_status, insert_turn, is_taken,
  new_entry, find_client_key, enqueue_normalized, get_turn,
}
use pixelflow.ControlPlane.Compaction.{
  Queue, lease_of, entries_of, is_executing, is_open_to, execution_turn, execution_status,
  enqueue_turn_for_execution, create_turn, stored_under, LeaseState,
}
use pixelflow.ControlPlane.Changes.{id_of}
use pixelflow.ControlPlane.Preservation.{get-put_cases}
use pixelflow.ControlPlane.Effects.{continue-Returns}

-- The entry under the client's identifier, of a user, with this turn.
abbrev Holds : String → TurnRecord → TurnStore → Type 0
Holds owner turn s =
    (e : TurnEntry) × (e.owner ≡ owner)
    × (e.turn ≡ turn)
    × (find_client_key turn.conversation_id turn.client_input_id s ≡ some e)
    × (get turn.turn_id s.turns ≡ some e)

abbrev is_client_key : String → String → TurnEntry → Bool
is_client_key conversation client_input_id e =
    e.turn.conversation_id == conversation && e.turn.client_input_id == client_input_id

-- In a store that had no turn of the client's identifier, the one that is written is found.
find_client_key-written :
    (e : TurnEntry) (s : TurnStore)
    → IsKeyed id_of s.turns
    → find_client_key e.turn.conversation_id e.turn.client_input_id s ≡ none
    → find
        (is_client_key e.turn.conversation_id e.turn.client_input_id)
        (values (put (id_of e) e s.turns))
      ≡ some e
find_client_key-written e s keyed fresh =
    let test = is_client_key e.turn.conversation_id e.turn.client_input_id in
    let after = put (id_of e) e s.turns in
    elim (Option-cases (find test (values after))) [
      | inl n ↦
          let written = IsIn-values_of_get (id_of e) e after (get-put_self (id_of e) e s.turns) in
          let no : test e ≡ false = find-eq-none test n written in
          ground (
            arith,
            no,
            eq_iff e.turn.conversation_id e.turn.conversation_id,
            eq_iff e.turn.client_input_id e.turn.client_input_id,
          )
      | inr (a, g) ↦
          let (m, t) = find-eq-some test a (values after) g in
          elim (get-put_cases (id_of e) (id_of a) e a s.turns
            (get_of_IsIn id_of a after (put-IsKeyed id_of e (id_of e) s.turns refl keyed) m)) [
              | inl (p, u) ↦ g ∙ ap some u
              | inr old ↦
                  let no : test a ≡ false =
                    find-eq-none test fresh (IsIn-values_of_get (id_of a) a s.turns old) in
                  absurd (cc (t, no))
            ]
    ]

insert_turn-Holds :
    (owner : String) (turn r : TurnRecord) (s : TurnStore)
    → IsKeyed id_of s.turns
    → (insert_turn owner turn s).0 ≡ ok r
    → (turn ≡ r) × Holds owner turn (insert_turn owner turn s).1
unfolding insert_turn
insert_turn-Holds owner turn r s keyed h = elim (Bool-cases (is_taken turn s)) [
  | inl t ↦ ground (arith, t, h)
  | inr t ↦
      let e = new_entry owner turn s in
      let fresh : find_client_key turn.conversation_id turn.client_input_id s ≡ none =
        elim (Option-cases (find_client_key turn.conversation_id turn.client_input_id s)) [
          | inl n ↦ n
          | inr (a, n) ↦ ground (arith, t, n)
        ] in
      rw t (
        ground (arith, t, h),
        (
          e,
          refl,
          refl,
          find_client_key-written e s keyed fresh,
          get-put_self turn.turn_id e s.turns,
        ),
      )
]

-- The client's identifier of one turn is the other's, in the same conversation.
abbrev SameKey : TurnRecord → TurnRecord → Type 0
SameKey a b = (a.conversation_id ≡ b.conversation_id) × (a.client_input_id ≡ b.client_input_id)

enqueue_normalized-Holds :
    (owner : String) (turn r : TurnRecord) (s : TurnStore)
    → IsKeyed id_of s.turns
    → (enqueue_normalized owner turn s).0 ≡ ok r
    → SameKey turn r × Holds owner r (enqueue_normalized owner turn s).1
unfolding enqueue_normalized
enqueue_normalized-Holds owner turn r s keyed h =
    elim (Option-cases (find_client_key turn.conversation_id turn.client_input_id s)) [
      | inl n ↦
          let (same, held) = insert_turn-Holds owner turn r s keyed (ground (arith, n, h)) in
          rw n (
            (ap (λ x. x.conversation_id) same, ap (λ x. x.client_input_id) same),
            subst (λ x. Holds owner x (insert_turn owner turn s).1) same held,
          )
      | inr (e, n) ↦ elim (Bool-cases (e.owner == owner)) [
        | inr t ↦ ground (arith, n, t, h)
        | inl t ↦
            let same : e.turn ≡ r = ground (arith, n, t, h) in
            let (m, u) =
              find-eq-some (is_client_key turn.conversation_id turn.client_input_id) e
                (values s.turns) n in
            let a : turn.conversation_id ≡ e.turn.conversation_id =
              ground (arith, eq_iff e.turn.conversation_id turn.conversation_id, u) in
            let b : turn.client_input_id ≡ e.turn.client_input_id =
              ground (arith, eq_iff e.turn.client_input_id turn.client_input_id, u) in
            let found : find_client_key e.turn.conversation_id e.turn.client_input_id s ≡ some e =
              cc (n, a, b) in
            rw (n, t)
              (subst (λ x. SameKey turn x × Holds owner x s) same
                (
                  (a, b),
                  (e, (eq_iff e.owner owner).0 t, refl, found, get_of_IsIn id_of e s.turns keyed m),
                ))
      ]
    ]

enqueue_normalized-again :
    (owner : String) (turn r : TurnRecord) (s : TurnStore)
    → SameKey turn r
    → Holds owner r s
    → enqueue_normalized owner turn s ≡ (ok r, s)
unfolding enqueue_normalized
enqueue_normalized-again owner turn r s (a, b) (e, o, same, found, _) =
    let n : find_client_key turn.conversation_id turn.client_input_id s ≡ some e =
      cc (a, b, found) in
    let t : (e.owner == owner) ≡ true = (eq_iff e.owner owner).1 o in
    rw (n, t) (ap (λ x. (ok x, s)) same)

execute_again :
    (user_id owner : String) (record' normalized r : TurnRecord) (q : Queue)
    → require_text user_id 64 ≡ ok owner
    → execution_turn record' ≡ ok normalized
    → guard (is_open_to owner (lease_of normalized.conversation_id q)) conflict ≡ ok tt
    → SameKey normalized r
    → Holds owner r q.repository
    → enqueue_turn_for_execution user_id record' q ≡ (ok r, q)
unfolding enqueue_turn_for_execution
execute_again user_id owner record' normalized r q o n g key held =
    let state = lease_of normalized.conversation_id q in
    let busy = any is_executing (entries_of owner normalized.conversation_id q) in
    let turn = set_status (execution_status (is_some state || busy)) normalized in
    rw (o, n, g)
      (ap (λ p. (p.0, record q { repository = p.1 }))
        (enqueue_normalized-again owner turn r q.repository key held))

-- A turn that was enqueued for execution once is not enqueued again: where each turn stands under
-- its own identifier and the first call returns a turn, a second call with the same arguments
-- returns the same turn and leaves the queue as it is.
pub enqueue_turn_for_execution-twice :
    (user_id : String) (record' t : TurnRecord) (q : Queue)
    → IsKeyed id_of q.repository.turns
    → let r = enqueue_turn_for_execution user_id record' q in
      r.0 ≡ ok t → enqueue_turn_for_execution user_id record' r.1 ≡ (ok t, r.1)
unfolding enqueue_turn_for_execution
enqueue_turn_for_execution-twice user_id record' t q keyed =
    let again : TurnRecord → Queue → Type 0 =
      λ t q'. enqueue_turn_for_execution user_id record' q' ≡ (ok t, q') in
    continue-Returns again (require_text user_id 64) _ q
      (λ owner o. continue-Returns again (execution_turn record') _ q (λ normalized n.
        let state = lease_of normalized.conversation_id q in
        let busy = any is_executing (entries_of owner normalized.conversation_id q) in
        continue-Returns again (guard (is_open_to owner state) conflict) _ q (λ done open_to.
          let turn = set_status (execution_status (is_some state || busy)) normalized in
          λ r h.
            let (key, held) = enqueue_normalized-Holds owner turn r q.repository keyed h in
            execute_again user_id owner record' normalized r _ o n open_to key held)))
      t

pub Result-cases :
    {A : Type 0} (r : Result A) → ((a : A) × (r ≡ ok a)) ⊎ ((e : Error) × (r ≡ err e))
Result-cases (ok a) = inl (a, refl)
Result-cases (err e) = inr (e, refl)

get_turn-found :
    (user_id owner turn_id id : String) (t : TurnRecord) (s : TurnStore) (e : TurnEntry)
    → require_text user_id 64 ≡ ok owner
    → require_text turn_id 64 ≡ ok id
    → get id s.turns ≡ some e
    → e.owner ≡ owner
    → e.turn ≡ t
    → get_turn user_id turn_id s ≡ ok (some t)
unfolding get_turn
get_turn-found user_id owner turn_id id t s e o i g mine same =
    rw (o, i, g, (eq_iff e.owner owner).1 mine) (ap (λ x. ok (some x)) same)

normalize_turn-id :
    (r n : TurnRecord) → normalize_turn r ≡ ok n → require_text r.turn_id 64 ≡ ok n.turn_id
unfolding normalize_turn
normalize_turn-id r n h = elim (Result-cases (require_text r.turn_id 64)) [
  | inl (id, e) ↦ e ∙ ground (arith, e, h)
  | inr (x, e) ↦ ground (arith, e, h)
]

stored_under-id :
    (owner : String) (normalized stored : TurnRecord) (state : Option LeaseState)
    → stored_under owner normalized state ≡ ok stored
    → stored.turn_id ≡ normalized.turn_id
unfolding stored_under
stored_under-id owner normalized stored none h = ground (arith, h)
stored_under-id owner normalized stored (some state) h = ground (arith, h)

-- Where each turn stands under its own identifier and `create_turn` returns a turn, reading the
-- identifier that was given for it, for the same user, returns that turn.
pub create_turn-get_turn :
    (user_id : String) (record' t : TurnRecord) (q : Queue)
    → IsKeyed id_of q.repository.turns
    → let r = create_turn user_id record' q in
      r.0 ≡ ok t → get_turn user_id record'.turn_id r.1.repository ≡ ok (some t)
unfolding create_turn
create_turn-get_turn user_id record' t q keyed =
    let reads : TurnRecord → Queue → Type 0 =
      λ t q'. get_turn user_id record'.turn_id q'.repository ≡ ok (some t) in
    continue-Returns reads (require_text user_id 64) _ q
      (λ owner o. continue-Returns reads (normalize_turn record') _ q (λ normalized n.
        continue-Returns reads
          (stored_under owner normalized (lease_of normalized.conversation_id q)) _ q
          (λ stored s r h.
            let (same, (e, mine, its, _, found)) =
              insert_turn-Holds owner stored r q.repository keyed h in
            let id : require_text record'.turn_id 64 ≡ ok stored.turn_id =
              normalize_turn-id record' normalized n
              ∙ ap ok (sym (stored_under-id owner normalized stored _ s)) in
            get_turn-found user_id owner record'.turn_id stored.turn_id r _ e o id found mine
              (its ∙ same))))
      t
