-- ===== src/Memory/Outbox/Leases.antt =====
-- A worker whose lease has passed to another changes nothing, and the delay between two polls is
-- bounded.
use native.Mathlib.Nat.{mul_left_comm, pow-suc, pow-succ'}
use Prim.Native.Nat.{max, min}
use pixelflow.Base.Dict.{get}
use pixelflow.Base.Results.{Result, ok, err}
use pixelflow.Base.{
  ℕ, zero, suc, ◌-◌, ◌*◌, ◌^◌, ◌≤◌, String, ◌≡◌, refl, sym, ap, ◌∙◌, Bool, true, false, Option,
  none, some, arith, Bool-cases, Option-cases, inl, inr, ltb, leb, is_missing, is_empty, same_text,
}
use pixelflow.Memory.Outbox.{
  WriteRow, Rows, MemoryWrite, write_owned, with_event_id, save_event_id, retry,
  move_to_manual_review, complete, WorkerConfig, create_worker, Adapter, retry_delay_seconds,
  review, retry_or_manual_review, event_replied, add_replied, deliver,
}

-- The row of the key is there and leased to the worker.
abbrev pub holds_lease : String → Option WriteRow → Bool
holds_lease worker_id none = false
holds_lease worker_id (some row) = same_text row.lease_owner (some worker_id)

write_owned-foreign :
    (worker_id write_key : String) (f : WriteRow → WriteRow) (rows : Rows)
    → holds_lease worker_id (get write_key rows) ≡ false
    → write_owned worker_id write_key f rows ≡ (false, rows)
unfolding write_owned
write_owned-foreign worker_id write_key f rows h = elim (Option-cases (get write_key rows)) [
  | inl e ↦ rw e refl
  | inr (row, e) ↦
      let t : same_text row.lease_owner (some worker_id) ≡ false =
        ap (holds_lease worker_id) (sym e) ∙ h in
      rw (e, t) refl
]

module _ (cfg : WorkerConfig) (adapter : Adapter) (now : ℕ) (claimed : MemoryWrite) (rows : Rows)
    (lost : holds_lease cfg.worker_id (get claimed.write_key rows) ≡ false) where
  foreign :
      (f : WriteRow → WriteRow) → (write_owned cfg.worker_id claimed.write_key f rows).1 ≡ rows
  foreign f = ap (λ p. p.1) (write_owned-foreign cfg.worker_id claimed.write_key f rows lost)

  event_replied-foreign :
      (reply : Result Bool) → event_replied cfg adapter now claimed reply rows ≡ rows
  unfolding event_replied complete retry_or_manual_review review retry move_to_manual_review
  event_replied-foreign (ok true) = foreign _
  event_replied-foreign (err e) = foreign _
  event_replied-foreign (ok false) =
      elim (Bool-cases (leb cfg.max_event_poll_attempts claimed.delivery_attempts)) [
        | inl t ↦ rw t (foreign _)
        | inr t ↦ rw t (foreign _)
      ]

  add_replied-foreign :
      (reply : Result (Option String)) → add_replied cfg adapter now claimed reply rows ≡ rows
  unfolding add_replied review save_event_id retry move_to_manual_review
  add_replied-foreign (ok none) = foreign _
  add_replied-foreign (err e) = foreign _
  add_replied-foreign (ok (some event_id)) = elim (Bool-cases (is_empty event_id)) [
    | inl t ↦ rw t (foreign _)
    | inr t ↦
        rw
          (
            t,
            write_owned-foreign cfg.worker_id claimed.write_key
                (with_event_id event_id cfg.lease_seconds now) rows lost,
          )
          refl
  ]

  -- A worker that delivers a write whose row is gone, or is not leased to it any more, leaves the
  -- queue as it is, whatever the memory service replies.
  pub deliver-foreign : (deliver cfg adapter now claimed rows).1 ≡ rows
  unfolding deliver review move_to_manual_review
  deliver-foreign = elim (Bool-cases (is_missing claimed.event_id)) [
    | inr t ↦ rw t (event_replied-foreign (adapter.get_event_reply claimed))
    | inl t ↦ elim (Bool-cases (ltb 1 claimed.delivery_attempts)) [
      | inl u ↦ rw (t, u) (foreign _)
      | inr u ↦ rw (t, u) (add_replied-foreign (adapter.add_reply claimed))
    ]
  ]

power_positive : (n : ℕ) → 1 ≤ 2 ^ n
power_positive zero = omega arith
power_positive (suc n) = omega (arith, power_positive n, pow-suc 2 n)

delay_doubles : (i n : ℕ) → i * 2 ^ suc n ≡ 2 * (i * 2 ^ n)
delay_doubles i n = ap (λ p. i * p) (pow-succ' 2 n) ∙ mul_left_comm i 2 (2 ^ n)

delay_grows : (i n : ℕ) → i ≤ i * 2 ^ n
delay_grows i zero = omega arith
delay_grows i (suc n) = omega (arith, delay_grows i n, delay_doubles i n)

-- The delay before the next poll of an event is at least the initial and at most the maximal delay
-- of the worker, where a maximum below the initial delay is raised to it, after any number of
-- deliveries; up to the maximum, each delivery after the first doubles it.
pub retry_delay_seconds_bounds :
    (worker_id : String) (lease_seconds initial maximum attempts deliveries : ℕ)
    → let cfg = create_worker worker_id lease_seconds initial maximum attempts in
      (initial ≤ retry_delay_seconds cfg deliveries)
      × (retry_delay_seconds cfg deliveries ≤ max initial maximum)
      × (retry_delay_seconds cfg (suc (suc deliveries))
          ≡ min (max initial maximum) (2 * retry_delay_seconds cfg (suc deliveries)))
unfolding retry_delay_seconds create_worker
retry_delay_seconds_bounds worker_id lease_seconds initial maximum attempts deliveries = (
  omega (arith, delay_grows initial (deliveries - 1)),
  omega arith,
  rw (first, second) (omega (arith, delay_doubles initial deliveries)),
)
  where
    first : suc (suc deliveries) - 1 ≡ suc deliveries
    first = omega arith

    second : suc deliveries - 1 ≡ deliveries
    second = omega arith
