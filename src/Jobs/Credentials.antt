-- ===== src/Jobs/Credentials.antt =====
-- `TransientGenerationJobCredentialStore` of backend/pixelflow/generation_jobs/credentials.py, with
-- the credential object of backend/pixelflow/agent_tools/video/credentials.py as its text. The
-- worker borrows the text at once, so no credential is used after it was discarded.
use text.Mathlib.Text.{starts_with}
use pixelflow.Base.Dict.{Dict, get, put, pop, get-put_self}
use pixelflow.Base.Results.{Result, ok, value_error, ◌>>◌, guard}
use pixelflow.Base.{
  ℕ, ◌+◌, String, not, Option, none, some, [], ◌∷◌, leb, if◌then◌else◌, is_blank, strip, ◌≡◌, refl,
  ◌<◌, true, false, Bool-cases, inl, inr, arith, ◌==◌, ◌∙◌, ap,
}

-- The text of `Authorization`, and when it expires.
abbrev pub Credentials : Type 0
Credentials = Dict (String × ℕ)

-- `_discard_expired_locked`
unfoldable pub discard_expired : ℕ → Credentials → Credentials
discard_expired now [] = []
discard_expired now ((job, (text, expires_at)) ∷ rest) =
    let kept = discard_expired now rest in
    if leb expires_at now then kept else (job, (text, expires_at)) ∷ kept

-- `put`; `set_at` and `now` are the two readings of the clock.
unfoldable pub put_credential : ℕ → Credentials → String → String → ℕ → ℕ → Result Credentials
unfolding discard_expired
put_credential ttl values generation_job_id authorization set_at now =
    guard (starts_with generation_job_id "generation-job-") value_error
    >> guard (not (is_blank authorization)) value_error
    >> ok (
        discard_expired now (
          put generation_job_id (strip authorization, set_at + ttl) (pop generation_job_id values)))

abbrev text_of : Option (String × ℕ) → Option String
text_of none = none
text_of (some (text, expires_at)) = some text

-- `get`
unfoldable pub get_credential : Credentials → String → ℕ → Option String × Credentials
unfolding discard_expired
get_credential values generation_job_id now =
    let kept = discard_expired now values in (text_of (get generation_job_id kept), kept)

-- `discard`
unfoldable pub discard_credential : Credentials → String → Credentials
discard_credential values generation_job_id = pop generation_job_id values

-- `aclose`: the lock is free once the last call has ended, and all that it guards is cleared.
unfoldable pub close_credentials : Credentials → Credentials
close_credentials values = []

abbrev expiry_of : Option (String × ℕ) → ℕ
expiry_of none = 0
expiry_of (some (text, expires_at)) = expires_at

discard_expired-kept :
    (now : ℕ) (values : Credentials) (job text : String) (expires_at : ℕ)
    → now < expires_at
    → get job values ≡ some (text, expires_at)
    → get job (discard_expired now values) ≡ some (text, expires_at)
unfolding get discard_expired
discard_expired-kept now [] job text expires_at l e = e
discard_expired-kept now ((j, (t, x)) ∷ values) job text expires_at l e =
    elim (Bool-cases (j == job)) [
      | inl p ↦
          let head : some (t, x) ≡ get job ((j, (t, x)) ∷ values) = rw p refl in
          let k : leb x now ≡ false = ground (arith, l, ap expiry_of (head ∙ e)) in
          rw (k, p) (head ∙ e)
      | inr p ↦
          let tail : get job values ≡ get job ((j, (t, x)) ∷ values) = rw p refl in
          let rest = discard_expired-kept now values job text expires_at l (tail ∙ e) in
          elim (Bool-cases (leb x now)) [ inl k ↦ rw k rest | inr k ↦ rw (k, p) rest ]
    ]

-- A credential that is put in under a job's identifier, and is not blank, is read without the blanks
-- around it until it expires.
get_credential-put_credential :
    (ttl : ℕ) (values : Credentials) (job authorization : String) (set_at now later : ℕ)
    → starts_with job "generation-job-" ≡ true
    → is_blank authorization ≡ false
    → now < set_at + ttl
    → later < set_at + ttl
    → (after : Credentials) × (put_credential ttl values job authorization set_at now ≡ ok after)
      × ((get_credential after job later).0 ≡ some (strip authorization))
unfolding put_credential get_credential
get_credential-put_credential ttl values job authorization set_at now later named given fresh
      in_time =
    let item : String × ℕ = (strip authorization, set_at + ttl) in
    let stored = put job item (pop job values) in
    let kept =
      discard_expired-kept now stored job (strip authorization) (set_at + ttl) fresh
        (get-put_self job item (pop job values)) in
    let found =
      discard_expired-kept later (discard_expired now stored) job (strip authorization)
        (set_at + ttl) in_time kept in
    (discard_expired now stored, rw (named, given) refl, ap text_of found)
