-- ===== src/ControlPlane/Reading.antt =====
-- What `list_events_after_cursor` answers on an orderly store.
use pixelflow.Base.Dict.{get, values, get_of_IsIn}
use pixelflow.Base.Results.{ok}
use pixelflow.Base.Sorting.{IsIn-sort}
use pixelflow.Base.{
  ℕ, String, ◌≡◌, refl, sym, ap, subst, ◌∙◌, inl, inr, ◌&&◌, Option, none, some, List, arith, leb,
  ◌==◌, eq_iff, Bool-cases, Option-cases, find, strip, IsIn, IsIn-filter, IsIn-map, find-eq-some,
  All, All-of_IsIn, IsIn-take, take, filter, ltb,
}
use pixelflow.ControlPlane.Turns.{require_text}
use pixelflow.ControlPlane.Events.{
  AgentEvent, EventEntry, Events, belongs, comes_before, ordered_events, after_anchor, page_after,
  list_events_after_cursor,
}
use pixelflow.ControlPlane.Orderly.{id_of, place_of, number_of, IsOrderly}
use pixelflow.ControlPlane.Pages.{
  IsPage, sequence_of, page, page-IsPage, page_from_start, belongs-cases,
}
use pixelflow.ControlPlane.Fencing.{require_text-strip}
use pixelflow.ControlPlane.Repeats.{Result-cases}

-- The event of a stored entry of the user in the conversation.
abbrev pub IsListed : String → String → Events → AgentEvent → Type 0
IsListed owner conversation s x =
    (e : EventEntry) × (get (id_of e) s ≡ some e)
    × (e.owner ≡ owner)
    × (place_of e ≡ conversation)
    × (e.event ≡ x)

-- The sequence after which the page starts: that of an event of the user's conversation with the
-- cursor, or 0 where there is no cursor.
abbrev pub StartsAt : String → String → Events → Option String → ℕ → Type 0
StartsAt owner conversation s none k = k ≡ 0
StartsAt owner conversation s (some cursor) k =
    (e : EventEntry) × (get (id_of e) s ≡ some e)
    × (e.owner ≡ owner)
    × (place_of e ≡ conversation)
    × (e.event.cursor ≡ strip cursor)
    × (number_of e ≡ k)

ok-some-inj : {A : Type 0} {a b : A} → ok (some a) ≡ ok (some b) → a ≡ b
ok-some-inj e = cc e

-- A page, of events of the user in the conversation.
abbrev pub IsOwnPage : String → String → Events → ℕ → ℕ → List AgentEvent → Type 0
IsOwnPage owner conversation s k limit es =
    IsPage owner conversation s k limit es × All (IsListed owner conversation s) es

module _ (owner conversation : String) (s : Events) (orderly : IsOrderly s) where
  ordered-IsListed :
      (x : AgentEvent)
      → IsIn x (ordered_events owner conversation s)
      → IsListed owner conversation s x
  unfolding ordered_events
  ordered-IsListed x m =
      let (e, me, q) = IsIn-map (λ e. e.event) x _ m in
      let (v, t) =
        IsIn-filter (belongs owner conversation) e (values s) (IsIn-sort comes_before e _ me) in
      let (p, r) = belongs-cases owner conversation e t in
      (e, get_of_IsIn id_of e s (IsOrderly.keyed orderly) v, p, r, sym q)

  page-IsOwnPage :
      (k limit : ℕ)
      → IsOwnPage owner conversation s k limit (page owner conversation s orderly k limit)
  unfolding page
  page-IsOwnPage k limit =
      let listed = ordered_events owner conversation s in
      (
        page-IsPage owner conversation s orderly k limit,
        All-of_IsIn (IsListed owner conversation s)
            (take limit (filter (λ e. ltb k e.sequence) listed))
            (λ x m.
              ordered-IsListed x
                (IsIn-filter (λ e. ltb k e.sequence) x listed
                  (IsIn-take x limit (filter (λ e. ltb k e.sequence) listed) m)).0),
      )

  -- A page that is returned starts where the cursor says.
  page_after-IsPage :
      (limit : ℕ) (cursor : Option String) (es : List AgentEvent)
      → page_after limit cursor (ordered_events owner conversation s) ≡ ok (some es)
      → (k : ℕ) × StartsAt owner conversation s cursor k × IsOwnPage owner conversation s k limit es
  unfolding page_after page
  page_after-IsPage limit none es h = (
    0,
    refl,
    subst (IsOwnPage owner conversation s 0 limit)
        (page_from_start owner conversation s orderly limit ∙ ok-some-inj h)
        (page-IsOwnPage 0 limit),
  )
  page_after-IsPage limit (some cursor) es h = elim (Result-cases (require_text cursor 128)) [
    | inr (x, e) ↦ ground (arith, e, h)
    | inl (text, c) ↦
        let records = ordered_events owner conversation s in
        elim (Option-cases (find (λ e. e.cursor == text) records)) [
          | inl n ↦ ground (arith, c, n, h)
          | inr (anchor, n) ↦
              let (m, t) = find-eq-some (λ e. e.cursor == text) anchor records n in
              let (e, stands, mine, here_too, q) = ordered-IsListed anchor m in
              let found : after_anchor limit records (some anchor) ≡ some es =
                ground (arith, c, n, h) in
              (
                sequence_of anchor,
                (
                  e,
                  stands,
                  mine,
                  here_too,
                  ap (λ x. x.cursor) q
                      ∙ (eq_iff anchor.cursor text).0 t
                      ∙ sym (require_text-strip cursor text 128 c),
                  ap sequence_of q,
                ),
                subst (IsOwnPage owner conversation s (sequence_of anchor) limit) (cc found)
                    (page-IsOwnPage (sequence_of anchor) limit),
              )
        ]
  ]

-- Where the store is orderly and a page is returned, it holds at most `limit` events, each that of a
-- stored entry of the user in the conversation, with the sequences that follow that of the cursor's
-- event (or 0, without a cursor) in order and without gap; a page that is not full leaves out none
-- of the user's later events in the conversation.
pub list_events_after_cursor_lem :
    (user_id conversation_id : String) (cursor : Option String) (limit : ℕ) (s : Events)
    (es : List AgentEvent)
    → IsOrderly s
    → list_events_after_cursor user_id conversation_id cursor limit s ≡ ok (some es)
    → (k : ℕ) × StartsAt (strip user_id) (strip conversation_id) s cursor k
      × IsOwnPage (strip user_id) (strip conversation_id) s k limit es
unfolding list_events_after_cursor
list_events_after_cursor_lem user_id conversation_id cursor limit s es orderly h =
    elim (Result-cases (require_text user_id 64)) [
      | inr (x, e) ↦ ground (arith, e, h)
      | inl (owner, o) ↦ elim (Result-cases (require_text conversation_id 64)) [
        | inr (x, e) ↦ ground (arith, o, e, h)
        | inl (conversation, c) ↦ elim (Bool-cases (leb 1 limit && leb limit 1000)) [
          | inr t ↦ ground (arith, o, c, t, h)
          | inl t ↦
              rw
                (
                  require_text-strip user_id owner 64 o,
                  require_text-strip conversation_id conversation 64 c,
                )
                (page_after-IsPage owner conversation s orderly limit cursor es
                  (ground (arith, o, c, t, h)))
        ]
      ]
    ]
