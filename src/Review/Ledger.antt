-- ===== src/Review/Ledger.antt =====
-- `load_global_usage` and `reserve_global_usage`: what external reviews may cost in all.
use Prim.Native.Nat.{◌*◌}
use aisle_signals.Common.{
  ◌≡◌, ℕ, zero, suc, ◌+◌, ◌≤◌, false, ◌&&◌, Option, none, some, String, leb, ltb, str_eq,
  if◌then◌else◌, arith, Bool-cases, Option-cases, inl, inr,
}
use aisle_signals.Common.Int.{ℤ, pos}

pub record Usage : Type 0 where
  pub reserved_usd_cents : ℕ
  pub request_count : ℕ

-- The row of the ledger: absent, not the JSON of a ledger, or its fields.
pub data Stored : Type 0 where
  absent unreadable : Stored
  stored : String → String → ℤ → ℤ → Stored

abbrev pub hard_cap : ℕ
hard_cap = 500

abbrev pub reservation : ℕ
reservation = 100

abbrev pub checked : String → String → ℤ → ℤ → Option Usage
checked period currency (pos reserved) (pos requests) =
    if str_eq period "pilot-lifetime"
      && str_eq currency "USD"
      && leb reserved hard_cap
      && leb requests 5
    then some (record { reserved_usd_cents = reserved; request_count = requests })
    else none
checked period currency _ _ = none

-- `load_global_usage`; `none` is the `RuntimeError`.
unfoldable pub load_global_usage : Stored → Option Usage
load_global_usage absent = some (record { reserved_usd_cents = 0; request_count = 0 })
load_global_usage unreadable = none
load_global_usage (stored period currency reserved requests) =
    checked period currency reserved requests

abbrev pub spend : Usage → Option (Usage × Stored)
spend u =
    if ltb hard_cap (u.reserved_usd_cents + reservation)
    then none
    else some (
      record {
        reserved_usd_cents = u.reserved_usd_cents + reservation;
        request_count = u.request_count + 1;
      },
      stored "pilot-lifetime" "USD" (pos (u.reserved_usd_cents + reservation))
          (pos (u.request_count + 1)),
    )

abbrev pub spend_loaded : Option Usage → Option (Usage × Stored)
spend_loaded none = none
spend_loaded (some u) = spend u

-- `reserve_global_usage`, with the row that it writes; `none` is an error, and nothing is written.
unfoldable pub reserve_global_usage : Stored → Option (Usage × Stored)
unfolding load_global_usage
reserve_global_usage s = spend_loaded (load_global_usage s)

-- As many reservations as the ledger grants, of a number that are asked for.
unfoldable pub granted : ℕ → Stored → ℕ
granted zero s = 0
granted (suc n) s = elim (reserve_global_usage s) [ none ↦ 0 | some (u, t) ↦ suc (granted n t) ]

-- The row that a reservation writes.
abbrev row : ℕ → ℕ → Stored
row reserved requests = stored "pilot-lifetime" "USD" (pos reserved) (pos requests)

within_cap : (reserved : ℕ) → ltb 500 (reserved + 100) ≡ false → reserved + 100 ≤ 500
within_cap reserved h = ground arith

granted-row :
    (n reserved requests : ℕ)
    → reserved ≤ hard_cap
    → granted n (row reserved requests) * reservation + reserved ≤ hard_cap
unfolding granted reserve_global_usage load_global_usage
granted-row zero reserved requests h = omega (arith, h)
granted-row (suc n) reserved requests h = elim (Bool-cases (leb reserved 500 && leb requests 5)) [
  | inr bad ↦ rw (granted, bad) (omega (arith, h))
  | inl good ↦
      rw (granted, good)
        (elim (Bool-cases (ltb 500 (reserved + 100))) [
          | inl over ↦ rw (granted, over) (omega (arith, h))
          | inr within ↦
              let small = within_cap reserved within in
              let rest = granted-row n (reserved + 100) (requests + 1) small in
              rw (granted, within) (omega (arith, rest))
        ])
]

-- However many reviews are asked for, and whatever row the ledger starts from, those that are
-- granted cost no more than the hard ceiling.
pub granted_within_cap : (n : ℕ) (s : Stored) → granted n s * reservation ≤ hard_cap
unfolding granted reserve_global_usage
granted_within_cap zero s = omega arith
granted_within_cap (suc n) s = elim (Option-cases (load_global_usage s)) [
  | inl e ↦ rw (granted, e) (omega arith)
  | inr (u, e) ↦
      rw (granted, e)
        (elim (Bool-cases (ltb 500 (u.reserved_usd_cents + 100))) [
          | inl over ↦ rw (granted, over) (omega arith)
          | inr within ↦
              let rest =
                granted-row n (u.reserved_usd_cents + 100) (u.request_count + 1)
                  (within_cap u.reserved_usd_cents within) in
              rw (granted, within) (omega (arith, rest))
        ])
]
