-- ===== src/Jobs/Repository/Idempotency.antt =====
-- Submitting a job again: `create_or_read` is idempotent, and refuses a key that another request
-- holds.
use pixelflow.Base.Dict.{
  get, put, put_all, values, get-put_self, get-put_ne, IsKeyed, get_of_IsIn, get-put_all,
  IsIn-values_of_get,
}
use pixelflow.Base.Results.{ok, err, conflict}
use pixelflow.Base.{
  String, ◌≡◌, refl, sym, ap, ◌∙◌, Bool, true, false, some, none, List, [], ◌∷◌, arith, eq_iff,
  eq_refl, Bool-cases, Option-cases, inl, inr, find, find-eq-none, IsIn, IsIn-map, map, ◌==◌,
  if◌then◌else◌,
}
use pixelflow.Jobs.Contracts.{GenerationJobRecord, GenerationJobKind, image, video, same_kind}
use pixelflow.Jobs.Repository.{
  Records, id_of, same_identity, create_or_read, start_claimable, start_claimed, poll_claimable,
  poll_claimed, reopened,
}
use pixelflow.Jobs.Repository.Cases.{
  create_cases, bind_cases, reschedule_cases, complete_cases, claim_start_cases, claim_poll_cases,
  reopen_cases,
}
use pixelflow.Jobs.Repository.Commands.{
  Command, create, claim_start, bind, claim_poll, reschedule, finish, reopen, step,
}
use pixelflow.Jobs.Repository.Lifecycle.{candidate_stored, latest_stored}

abbrev has_key : String → GenerationJobRecord → Bool
has_key key item = item.idempotency_key == key

find-values-put :
    (test : GenerationJobRecord → Bool) (k : String) (v : GenerationJobRecord) (s : Records)
    → test v ≡ true
    → find test (values s) ≡ none
    → find test (values (put k v s)) ≡ some v
unfolding put
find-values-put test k v [] t e = rw t
find-values-put test k v ((j, w) ∷ s) t e = elim (Bool-cases (j == k)) [
  | inl q ↦ rw (q, t)
  | inr q ↦ elim (Bool-cases (test w)) [
    | inl u ↦ absurd (ground (arith, u))
    | inr u ↦ rw (q, u) (find-values-put test k v s t (ground (arith, u)))
  ]
]

same_kind_refl : (k : GenerationJobKind) → same_kind k k ≡ true
same_kind_refl image = refl
same_kind_refl video = refl

pub same_identity_refl : (r : GenerationJobRecord) → same_identity r r ≡ true
unfolding same_identity
same_identity_refl r = ground (
  arith,
  eq_refl r.user_id,
  eq_refl r.conversation_id,
  eq_refl r.workspace_id,
  same_kind_refl r.kind,
  eq_refl r.item_id,
  eq_refl r.request_hash,
  eq_refl r.provider_id,
)

module _ (s : Records) (c : GenerationJobRecord) where
  create_found :
      (item : GenerationJobRecord)
      → find (has_key c.idempotency_key) (values s) ≡ some item
      → create_or_read s c ≡ (if same_identity item c then ok (item, s) else err conflict)
  unfolding create_or_read
  create_found item e = rw (e, create_or_read)

  create_new :
      find (has_key c.idempotency_key) (values s) ≡ none
      → create_or_read s c ≡ ok (c, put c.generation_job_id c s)
  unfolding create_or_read
  create_new e = rw (e, create_or_read)

create_again :
    (s : Records) (c : GenerationJobRecord)
    → find (has_key c.idempotency_key) (values s) ≡ some c
    → create_or_read s c ≡ ok (c, s)
create_again s c e = create_found s c c e ∙ rw (same_identity_refl c)

-- A submission that succeeds can be repeated: it returns the same record and stores nothing.
pub create_or_read_twice :
    (s s' : Records) (c r : GenerationJobRecord)
    → create_or_read s c ≡ ok (r, s')
    → create_or_read s' c ≡ ok (r, s')
create_or_read_twice s s' c r e =
    elim (Option-cases (find (has_key c.idempotency_key) (values s))) [
      | inl p ↦
          let got : (c ≡ r) × (put c.generation_job_id c s ≡ s') =
            ground (arith, create_new s c p) in
          rw (← got.0, ← got.1)
            (create_again _ c (
              find-values-put (has_key c.idempotency_key) c.generation_job_id c s
                (eq_refl c.idempotency_key) p))
      | inr (item, p) ↦ elim (Bool-cases (same_identity item c)) [
        | inl t ↦
            let got : (item ≡ r) × (s ≡ s') = ground (arith, create_found s c item p, t) in
            rw (← got.1) (e ∙ ap (λ t. ok (r, t)) (sym got.1))
        | inr t ↦ absurd (ground (arith, create_found s c item p, t))
      ]
    ]

-- No two stored jobs hold one idempotency key.
abbrev pub HasUniqueKeys : Records → Type 0
HasUniqueKeys s =
    (k j : String) (r q : GenerationJobRecord)
    → get k s ≡ some r
    → get j s ≡ some q
    → r.idempotency_key ≡ q.idempotency_key
    → k ≡ j

-- Whatever stands in `s'` stood in `s` under its identifier, with its key.
abbrev IsFrom : Records → Records → Type 0
IsFrom s s' =
    (k : String) (r' : GenerationJobRecord)
    → get k s' ≡ some r'
    → (r : GenerationJobRecord) × (get k s ≡ some r) × (r'.idempotency_key ≡ r.idempotency_key)

HasUniqueKeys-IsFrom : (s s' : Records) → IsFrom s s' → HasUniqueKeys s → HasUniqueKeys s'
HasUniqueKeys-IsFrom s s' from u k j r q e f p =
    let (r₀, e₀, p₀) = from k r e in
    let (q₀, f₀, q₁) = from j q f in u k j r₀ q₀ e₀ f₀ (sym p₀ ∙ p ∙ q₁)

module _ (s : Records) where
  same-IsFrom : IsFrom s s
  same-IsFrom k r e = (r, e, refl)

  put-IsFrom :
      (job : String) (item new : GenerationJobRecord)
      → get job s ≡ some item
      → new.idempotency_key ≡ item.idempotency_key
      → IsFrom s (put job new s)
  put-IsFrom job item new e p k r f = elim (Bool-cases (job == k)) [
    | inl t ↦
        let same = (eq_iff job k).0 t in
        let one : new ≡ r = cc (get-put_self job new s, ap (λ i. get i (put job new s)) same, f) in
        (
          item,
          ap (λ i. get i s) (sym same) ∙ e,
          ap (λ (i : GenerationJobRecord). i.idempotency_key) (sym one) ∙ p,
        )
    | inr t ↦ (r, sym (get-put_ne job k new s (λ q. ground (arith, eq_iff job k))) ∙ f, refl)
  ]

  put_all-IsFrom :
      (f : GenerationJobRecord → GenerationJobRecord) (xs : List GenerationJobRecord)
      → ((a : GenerationJobRecord) → id_of (f a) ≡ id_of a)
      → ((a : GenerationJobRecord) → (f a).idempotency_key ≡ a.idempotency_key)
      → IsKeyed id_of s
      → ((a : GenerationJobRecord) → IsIn a xs → IsIn a (values s))
      → IsFrom s (put_all id_of (map f xs) s)
  put_all-IsFrom f xs same key w part k r e = elim (get-put_all id_of k (map f xs) s) [
    | inl (x, m, p, g) ↦
        let (a, ma, q) = IsIn-map f x xs m in
        let here_is : id_of a ≡ k = sym (same a) ∙ ap id_of (sym q) ∙ p in
        let one : f a ≡ r = cc (q, g, e) in
        (
          a,
          ap (λ i. get i s) (sym here_is) ∙ get_of_IsIn id_of a s w (part a ma),
          ap (λ (i : GenerationJobRecord). i.idempotency_key) (sym one) ∙ key a,
        )
    | inr (ne, g) ↦ (r, sym g ∙ e, refl)
  ]

  put_new-HasUniqueKeys :
      (c : GenerationJobRecord)
      → find (has_key c.idempotency_key) (values s) ≡ none
      → HasUniqueKeys s
      → HasUniqueKeys (put c.generation_job_id c s)
  put_new-HasUniqueKeys c none_has u k j r q e f p = elim (Bool-cases (c.generation_job_id == k)) [
    | inl a ↦ elim (Bool-cases (c.generation_job_id == j)) [
      | inl b ↦ sym ((eq_iff c.generation_job_id k).0 a) ∙ (eq_iff c.generation_job_id j).0 b
      | inr b ↦ absurd (taken j q (stored j q b f) (sym p ∙ new k r a e))
    ]
    | inr a ↦ elim (Bool-cases (c.generation_job_id == j)) [
      | inl b ↦ absurd (taken k r (stored k r a e) (p ∙ new j q b f))
      | inr b ↦ u k j r q (stored k r a e) (stored j q b f) p
    ]
  ]
    where
      stored :
          (i : String) (t : GenerationJobRecord)
          → (c.generation_job_id == i) ≡ false
          → get i (put c.generation_job_id c s) ≡ some t
          → get i s ≡ some t
      stored i t ne g =
          sym (
            get-put_ne c.generation_job_id i c s
              (λ q'. ground (arith, eq_iff c.generation_job_id i)))
          ∙ g

      new :
          (i : String) (t : GenerationJobRecord)
          → (c.generation_job_id == i) ≡ true
          → get i (put c.generation_job_id c s) ≡ some t
          → t.idempotency_key ≡ c.idempotency_key
      new i t same g =
          let one : c ≡ t = cc (
            get-put_self c.generation_job_id c s,
            ap (λ i'. get i' (put c.generation_job_id c s)) ((eq_iff c.generation_job_id i).0 same),
            g,
          ) in
          ap (λ (i' : GenerationJobRecord). i'.idempotency_key) (sym one)

      taken :
          (i : String) (t : GenerationJobRecord)
          → get i s ≡ some t
          → t.idempotency_key ≡ c.idempotency_key
          → ⊥
      taken i t g same = ground (
        arith,
        find-eq-none (has_key c.idempotency_key) none_has (IsIn-values_of_get i t s g),
        eq_iff t.idempotency_key c.idempotency_key,
      )

-- Where the records stand under their identifiers and no two share an idempotency key, no two share
-- one after any call.
pub step-HasUniqueKeys :
    (s : Records) (c : Command) → IsKeyed id_of s → HasUniqueKeys s → HasUniqueKeys (step s c)
unfolding step
step-HasUniqueKeys s (create candidate) w u =
    create_cases HasUniqueKeys s u candidate λ e. put_new-HasUniqueKeys s candidate e u
step-HasUniqueKeys s (claim_start worker now lease limit) w u =
    HasUniqueKeys-IsFrom s _
      (claim_start_cases (IsFrom s) s (same-IsFrom s) worker now lease limit λ c.
        put_all-IsFrom s (start_claimed worker now lease) _ (λ a. refl) (λ a. refl) w
          (λ a m. (candidate_stored (start_claimable now) s limit a m).0))
      u
step-HasUniqueKeys s (bind job provider_job worker now next) w u =
    HasUniqueKeys-IsFrom s _
      (bind_cases (IsFrom s) s (same-IsFrom s) job provider_job worker now next
        λ item e o t. put-IsFrom s job item _ e refl)
      u
step-HasUniqueKeys s (claim_poll worker now lease limit) w u =
    HasUniqueKeys-IsFrom s _
      (claim_poll_cases (IsFrom s) s (same-IsFrom s) worker now lease limit λ c.
        put_all-IsFrom s (poll_claimed worker now lease) _ (λ a. refl) (λ a. refl) w
          (λ a m. (candidate_stored (poll_claimable now) s limit a m).0))
      u
step-HasUniqueKeys s (reschedule job worker now next) w u =
    HasUniqueKeys-IsFrom s _
      (reschedule_cases (IsFrom s) s (same-IsFrom s) job worker now next
        λ item e o t. put-IsFrom s job item _ e refl)
      u
step-HasUniqueKeys s (finish job worker status now result reason) w u =
    HasUniqueKeys-IsFrom s _
      (complete_cases (IsFrom s) s (same-IsFrom s) job worker status now result reason
        λ item e o. put-IsFrom s job item _ e refl)
      u
step-HasUniqueKeys s (reopen now limit) w u =
    HasUniqueKeys-IsFrom s _
      (reopen_cases (IsFrom s) s (same-IsFrom s) now limit (
        put_all-IsFrom s (reopened now) _ (λ a. refl) (λ a. refl) w
          (λ a m. (latest_stored s limit a m).0)))
      u
