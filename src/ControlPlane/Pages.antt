-- ===== src/ControlPlane/Pages.antt =====
-- The events of a conversation are read in the order of their sequences, page by page.
use pixelflow.Base.Dict.{get, values, IsKeyed, get_of_IsIn, IsIn-values_of_get}
use pixelflow.Base.Sorting.{sort, IsIn-sort, sort-IsIn, IsApart, IsStrict, sort-IsStrict}
use pixelflow.Base.Ranges.{
  numbers_after, IsStrictList, strict-eq-numbers_after, take-numbers_after, map-take, take-short,
  map-filter, IsStrictList-filter, numbers_after-le,
}
use pixelflow.Base.{
  ℕ, ◌+◌, ◌≤◌, ◌<◌, String, ◌≡◌, refl, sym, ap, subst, ◌∙◌, inl, inr, true, some, List, [], ◌∷◌,
  map, arith, ltb, ltb→lt, lt→ltb, eq_iff, Bool-cases, filter, take, length, length-map,
  length-take-le, filter-All, IsIn, IsIn-filter, filter-IsIn, IsIn-map, map-IsIn, All-of_IsIn,
  All-map,
}
use pixelflow.ControlPlane.Events.{
  AgentEvent, EventEntry, Events, belongs, comes_before, ordered_events,
}
use pixelflow.ControlPlane.Orderly.{id_of, place_of, number_of, IsOrderly}
use pixelflow.ControlPlane.Transcript.{comes_before-low, comes_before-high}

abbrev pub sequence_of : AgentEvent → ℕ
sequence_of e = e.sequence

-- What a page holds: at most `limit` events, those with the sequences after k, in order and without
-- gap; a page that is not full holds all of them.
abbrev pub IsPage : String → String → Events → ℕ → ℕ → List AgentEvent → Type 0
IsPage owner conversation s k limit es =
    (length es ≤ limit)
    × (map sequence_of es ≡ numbers_after k (length es))
    × (length es < limit
        → (i : String) (e : EventEntry) → get i s ≡ some e
        → e.owner ≡ owner
        → place_of e ≡ conversation
        → number_of e ≤ k + length es)

-- The entry of the user in the conversation, by what it holds.
belongs-of :
    (owner conversation : String) (e : EventEntry)
    → e.owner ≡ owner
    → place_of e ≡ conversation
    → belongs owner conversation e ≡ true
belongs-of owner conversation e p q =
    ground (arith, eq_iff e.owner owner, eq_iff e.event.conversation_id conversation, p, q)

pub belongs-cases :
    (owner conversation : String) (e : EventEntry)
    → belongs owner conversation e ≡ true
    → (e.owner ≡ owner) × (place_of e ≡ conversation)
belongs-cases owner conversation e t = (
  ground (arith, eq_iff e.owner owner),
  ground (arith, eq_iff e.event.conversation_id conversation),
)

module _ (owner conversation : String) (s : Events) (orderly : IsOrderly s) where
  mine : List EventEntry
  mine = filter (belongs owner conversation) (values s)

  mine-stands :
      (e : EventEntry)
      → IsIn e mine
      → (get (id_of e) s ≡ some e) × (belongs owner conversation e ≡ true)
  unfolding mine
  mine-stands e m =
      let (v, t) = IsIn-filter (belongs owner conversation) e (values s) m in
      (get_of_IsIn id_of e s (IsOrderly.keyed orderly) v, t)

  -- Entries of a dictionary with the same identifier stand at one place.
  apart :
      (d : Events)
      → IsKeyed id_of d
      → ((e : EventEntry) → IsIn e (values d) → IsIn e (values s))
      → IsApart comes_before number_of comes_before-low comes_before-high
          (filter (belongs owner conversation) (values d))
  apart [] keyed part = tt
  apart ((k, v) ∷ d) keyed part =
      let rest = apart d keyed.2 (λ e m. part e (IsIn.there m)) in
      elim (Bool-cases (belongs owner conversation v)) [
        | inr t ↦ rw t rest
        | inl t ↦ rw t (
          All-of_IsIn (λ y. number_of v ≡ number_of y → ⊥) _
              (λ y m n.
                let (w, u) = IsIn-filter (belongs owner conversation) y (values d) m in
                let at_v =
                  get_of_IsIn id_of v s (IsOrderly.keyed orderly) (part v (IsIn.here refl)) in
                let at_y =
                  get_of_IsIn id_of y s (IsOrderly.keyed orderly) (part y (IsIn.there w)) in
                let p = (belongs-cases owner conversation v t).1 in
                let q = (belongs-cases owner conversation y u).1 in
                let same : id_of v ≡ id_of y =
                  IsOrderly.distinct orderly (id_of v) (id_of y) v y at_v at_y (p ∙ sym q) n in
                absurd (
                  cc (
                    get_of_IsIn id_of y d keyed.2 w,
                    keyed.1,
                    ap (λ i. get i d) (sym keyed.0 ∙ same),
                  ))),
          rest,
        )
      ]

  strict_numbers :
      (es : List EventEntry)
      → IsStrict comes_before number_of comes_before-low comes_before-high es
      → IsStrictList (map sequence_of (map (λ e. e.event) es))
  strict_numbers [] h = tt
  strict_numbers (e ∷ es) h = (
    All-map (λ y. number_of e < sequence_of y) (λ n. number_of e < n) sequence_of (λ y p. p)
        (map (λ x. x.event) es)
        (All-map (λ y. number_of e < number_of y) (λ y. number_of e < sequence_of y) (λ x. x.event)
          (λ y p. p) es h.0),
    strict_numbers es h.1,
  )

  -- The sequences of the conversation's events, as they are listed.
  numbers : List ℕ
  unfolding ordered_events
  numbers = map sequence_of (ordered_events owner conversation s)

  numbers-IsStrictList : IsStrictList numbers
  unfolding numbers mine ordered_events
  numbers-IsStrictList = strict_numbers (sort comes_before mine) (
      sort-IsStrict comes_before number_of comes_before-low comes_before-high mine
        (apart s (IsOrderly.keyed orderly) (λ e m. m)))

  numbers-IsIn :
      (n : ℕ)
      → IsIn n numbers
      → (e : EventEntry) × (get (id_of e) s ≡ some e)
        × (belongs owner conversation e ≡ true)
        × (n ≡ number_of e)
  unfolding numbers mine ordered_events
  numbers-IsIn n m =
      let (x, mx, p) = IsIn-map sequence_of n (map (λ e. e.event) (sort comes_before mine)) m in
      let (e, me, q) = IsIn-map (λ e. e.event) x (sort comes_before mine) mx in
      let (stands, t) = mine-stands e (IsIn-sort comes_before e mine me) in
      (e, stands, t, p ∙ ap sequence_of q)

  IsIn-numbers :
      (i : String) (e : EventEntry)
      → get i s ≡ some e
      → belongs owner conversation e ≡ true
      → IsIn (number_of e) numbers
  unfolding numbers mine ordered_events
  IsIn-numbers i e h t = map-IsIn sequence_of (
      map-IsIn (λ e. e.event)
        (sort-IsIn comes_before e mine
          (filter-IsIn (belongs owner conversation) (IsIn-values_of_get i e s h) t)))

  numbers-dense : (n x : ℕ) → IsIn x numbers → 1 ≤ n → n ≤ x → IsIn n numbers
  numbers-dense n x m low high =
      let (e, stands, t, p) = numbers-IsIn x m in
      let (mine_e, place_e) = belongs-cases owner conversation e t in
      let (j, b, hb, pb, nb) =
        IsOrderly.dense orderly (id_of e) e n stands low (omega (arith, high, p)) in
      let owner_b : b.owner ≡ owner =
        IsOrderly.owned orderly j (id_of e) b e hb stands pb ∙ mine_e in
      let belongs_b : belongs owner conversation b ≡ true = ground (
        arith,
        eq_iff b.owner owner,
        eq_iff b.event.conversation_id conversation,
        owner_b,
        pb ∙ place_e,
      ) in
      subst (λ k. IsIn k numbers) nb (IsIn-numbers j b hb belongs_b)

  -- The numbers above k, in order and without gap.
  later : (k : ℕ) → filter (ltb k) numbers ≡ numbers_after k (length (filter (ltb k) numbers))
  later k =
      strict-eq-numbers_after k (filter (ltb k) numbers)
        (IsStrictList-filter (ltb k) numbers numbers-IsStrictList)
        (All-of_IsIn (λ x. k < x) (filter (ltb k) numbers)
          (λ x m. ltb→lt k x (IsIn-filter (ltb k) x numbers m).1))
        (λ n x m low high.
          filter-IsIn (ltb k)
            (numbers-dense n x (IsIn-filter (ltb k) x numbers m).0 (omega (arith, low)) high)
            (lt→ltb k n low))

  -- The events after k, one page of them.
  unfoldable pub page : ℕ → ℕ → List AgentEvent
  unfolding ordered_events
  page k limit = take limit (filter (λ e. ltb k e.sequence) (ordered_events owner conversation s))

  page-numbers :
      (k limit : ℕ) → map sequence_of (page k limit) ≡ take limit (filter (ltb k) numbers)
  unfolding page numbers
  page-numbers k limit =
      map-take sequence_of limit
        (filter (λ e. ltb k e.sequence) (ordered_events owner conversation s))
      ∙ ap (take limit) (map-filter sequence_of (ltb k) (ordered_events owner conversation s))

  page-length : (k limit : ℕ) → length (page k limit) ≡ length (take limit (filter (ltb k) numbers))
  page-length k limit =
      sym (length-map sequence_of (page k limit)) ∙ ap length (page-numbers k limit)

  page-IsRange :
      (k limit : ℕ) → map sequence_of (page k limit) ≡ numbers_after k (length (page k limit))
  page-IsRange k limit =
      page-numbers k limit
      ∙ ap (take limit) (later k)
      ∙ take-numbers_after limit k (length (filter (ltb k) numbers))
      ∙ ap (λ xs. numbers_after k (length (take limit xs))) (sym (later k))
      ∙ ap (numbers_after k) (sym (page-length k limit))

  -- All sequences are positive, so the events after 0 are all.
  pub page_from_start :
      (limit : ℕ) → page 0 limit ≡ take limit (ordered_events owner conversation s)
  unfolding page mine ordered_events
  page_from_start limit = ap (take limit) (
      filter-All (λ e. ltb 0 e.sequence) (map (λ e. e.event) (sort comes_before mine))
        (All-map (λ e. 1 ≤ number_of e) (λ e. ltb 0 e.sequence ≡ true) (λ e. e.event)
          (λ e p. lt→ltb 0 (number_of e) p) (sort comes_before mine)
          (All-of_IsIn (λ e. 1 ≤ number_of e) (sort comes_before mine)
            (λ e m.
              IsOrderly.positive orderly (id_of e) e
                (mine-stands e (IsIn-sort comes_before e mine m)).0))))

  page-IsComplete :
      (k limit : ℕ)
      → length (page k limit) < limit
      → (i : String) (e : EventEntry) → get i s ≡ some e
      → belongs owner conversation e ≡ true
      → number_of e ≤ k + length (page k limit)
  page-IsComplete k limit short i e h t = elim (Bool-cases (ltb k (number_of e))) [
    | inr u ↦ ground (arith, u)
    | inl u ↦
        let all : take limit (filter (ltb k) numbers) ≡ filter (ltb k) numbers =
          take-short limit (filter (ltb k) numbers) (omega (arith, short, page-length k limit)) in
        let m = filter-IsIn (ltb k) (IsIn-numbers i e h t) u in
        omega (
          arith,
          numbers_after-le k (length (filter (ltb k) numbers)) (number_of e)
              (subst (IsIn (number_of e)) (later k) m),
          page-length k limit,
          ap length all,
        )
  ]

  pub page-IsPage : (k limit : ℕ) → IsPage owner conversation s k limit (page k limit)
  unfolding page
  page-IsPage k limit = (
    length-take-le limit (filter (λ e. ltb k e.sequence) (ordered_events owner conversation s)),
    page-IsRange k limit,
    λ short i e h p q. page-IsComplete k limit short i e h (belongs-of owner conversation e p q),
  )
