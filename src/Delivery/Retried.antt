-- ===== src/Delivery/Retried.antt =====
-- How a failed delivery is tried again.
use Prim.Native.Nat.{◌*◌, ◌^◌, ◌-◌, min}
use aisle_signals.Common.{
  ◌≡◌, refl, ◌+◌, ℕ, zero, suc, ◌≤◌, ◌<◌, Bool, true, false, Option, none, some, String, leb, arith,
  tests, le→leb, leb→le, &&-eq-true, if◌then◌else◌,
}
use aisle_signals.Observation.Model.{Instant}
use aisle_signals.Outbox.Model.{ok, stamp, Item, ItemState, Db, Vault, Claim}
use aisle_signals.Outbox.Returns.{value-Returns}
use aisle_signals.Outbox.Leases.{retry, settle_capacity, retried_item, find_lease}
use aisle_signals.Outbox.Rows.{find_item, set_item}
use aisle_signals.Outbox.Leases.Receipts.{lease_item, changed_item}
use aisle_signals.Delivery.Settled.{is_retrying}
use aisle_signals.Delivery.Authority.{DeliveryPolicy, between, valid_policy, Context, Provider}
use aisle_signals.Delivery.Settlement.{
  retrying, DeliveryResult, maximum, delay_of, settle_failure, is_cut_short, is_permanent,
  is_transient,
}

power_positive : (k : ℕ) → 1 ≤ 2 ^ k
power_positive zero = omega arith
power_positive (suc k) = omega (arith, power_positive k)

times_positive : (a n : ℕ) → 1 ≤ n → a ≤ a * n
times_positive a zero h = omega (arith, h)
times_positive a (suc n) h = omega arith

-- The time after which the answer asks to retry, as it is checked when it arrives.
abbrev pub is_asked : Option ℕ → Bool
is_asked none = true
is_asked (some n) = between 5 3600 n

policy_bounds :
    (p : DeliveryPolicy)
    → valid_policy p ≡ true
    → (1 ≤ p.retry_base_seconds) × ((1 ≤ p.max_retry_seconds) × (p.max_retry_seconds ≤ 3600))
unfolding valid_policy
policy_bounds p v = (grind tests, (grind tests, grind tests))

delay_within :
    (policy : DeliveryPolicy) (attempts : ℕ) (after : Option ℕ)
    → valid_policy policy ≡ true
    → is_asked after ≡ true
    → (1 ≤ delay_of policy attempts after) × (delay_of policy attempts after ≤ 3600)
unfolding delay_of
delay_within policy attempts none v h =
    let (base, (low, high)) = policy_bounds policy v in
    let power = power_positive (min (attempts - 1) 12) in
    let step = times_positive policy.retry_base_seconds (2 ^ min (attempts - 1) 12) power in
    (omega (arith, base, low, step), omega (arith, high))
delay_within policy attempts (some n) v h =
    let (base, (low, high)) = policy_bounds policy v in
    let asked = &&-eq-true (leb 5 n) (leb n 3600) h in
    let few = leb→le n 3600 asked.1 in
    let many = leb→le 5 n asked.0 in (omega (arith, many), omega (arith, high, few))

retry_runs :
    (vault : Vault) (ctx : Context) (c : Claim) (delay at : ℕ) (now : Instant) (db d : Db)
    (i : Item)
    → (1 ≤ delay) × (delay ≤ 3600)
    → stamp now ≡ ok at
    → find_lease vault ctx.scope ctx.binding c at db ≡ ok (i, d)
    → (d' : Db) × ((retry vault ctx.scope ctx.binding c delay now db ≡ ok d')
        × (find_item vault ctx.binding c.id d' ≡ ok (retried_item (at + delay * 1000) i)))
unfolding retry
retry_runs vault ctx c delay at now db d i (low, high) s f =
    let there =
      value-Returns _ (find_lease vault ctx.scope ctx.binding c at db) (i, d)
        (lease_item vault ctx.scope ctx.binding c at db) f in
    (
      record d {
        items = set_item c.id (retried_item (at + delay * 1000)) d.items;
        capacity = settle_capacity ctx.scope c.token d.capacity;
      },
      (
        rw (retry, s, f, le→leb 1 delay low, le→leb delay 3600 high) refl,
        changed_item vault ctx.binding c.id (retried_item (at + delay * 1000)) d i
            (settle_capacity ctx.scope c.token d.capacity) (λ j. refl) there,
      ),
    )

-- The row waits to be claimed again after the delay that the result names.
pub record IsPutBack (at : ℕ) (r : DeliveryResult) (j : Item) : Type 0 where
  pub is_pending : j.state ≡ ItemState.pending
  pub is_unleased : j.lease_token ≡ none
  pub waits : j.next_ms ≡ at + r.retry_seconds * 1000
  pub at_least_a_second : 1 ≤ r.retry_seconds
  pub at_most_an_hour : r.retry_seconds ≤ 3600

-- A failure that may pass is retried: while the lease of the claim stands and its row has attempts
-- left, the failure is settled as to be retried, and the row of the claim is left pending and without
-- a lease until the delay of the result is over, which is one second to an hour, under every valid
-- policy and whatever delay the answer asked for.
pub failure_retried :
    (vault : Vault) (provider : Provider) (policy : DeliveryPolicy) (ctx : Context) (c : Claim)
    (row : Item) (code : String) (after : Option ℕ) (at : ℕ) (now : Instant) (db d : Db)
    → valid_policy policy ≡ true
    → is_asked after ≡ true
    → (is_cut_short code ≡ false) × (is_permanent code ≡ false)
    → row.attempts < maximum policy c.operation
    → stamp now ≡ ok at
    → find_lease vault ctx.scope ctx.binding c at db ≡ ok (row, d)
    → (d' : Db) × ((r : DeliveryResult) × ((j : Item) × ((settle_failure vault provider policy ctx c
                row code after now db
              ≡ ok (r, d'))
            × ((is_retrying r.status ≡ true)
                × ((find_item vault ctx.binding c.id d' ≡ ok j) × IsPutBack at r j)))))
unfolding settle_failure
failure_retried vault provider policy ctx c row code after at now db d v h (whole, passing) few s
      f =
    let (low, high) = delay_within policy row.attempts after v h in
    let delay = delay_of policy row.attempts after in
    let (d', (run, found)) = retry_runs vault ctx c delay at now db d row (low, high) s f in
    let left : leb (maximum policy c.operation) row.attempts ≡ false = ground arith in
    (
      d',
      (
        record {
          status = retrying;
          error_code = some (if is_transient code then code else "NETWORK_UNAVAILABLE");
          retry_seconds = delay;
          halts = false;
        },
        (
          retried_item (at + delay * 1000) row,
          (
            rw (settle_failure, whole, passing, left, run) refl,
            (
              refl,
              (
                found,
                record {
                  is_pending = refl;
                  is_unleased = refl;
                  waits = refl;
                  at_least_a_second = low;
                  at_most_an_hour = high;
                },
              ),
            ),
          ),
        ),
      ),
    )
