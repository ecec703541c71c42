-- ===== src/Outbox/Upkeep/Expiry.antt =====
-- What `expire` leaves of the rows.
use aisle_signals.Common.{
  ◌≡◌, ◌≢◌, ◌⊎◌, refl, ℕ, ◌<◌, true, String, str_eq, eq_iff, All, All-map, Bool-cases, inl, inr,
  arith,
}
use aisle_signals.Observation.Model.{Instant}
use aisle_signals.Outbox.Model.{
  ok, stamp, Scope, BindingRef, Vault, Db, Item, ItemState, pending, leased, received, withdrawn,
  expired, cancelled, blocked, Operation, observation, withdrawal, is_dropped, is_withdrawal,
}
use aisle_signals.Outbox.Rows.{find_binding, expire_items}
use aisle_signals.Outbox.Rows.Overdue.{InTime, expire_items-InTime}
use aisle_signals.Outbox.Returns.{Returns, Result-cases, value-Returns}
use aisle_signals.Outbox.Upkeep.{expire}

-- Why a row is not an observation of the binding that may go out after its deadline.
pub data IsSettledAt (ref : BindingRef) (now : ℕ) (i : Item) : Type 0 where
  of_another : i.binding_id ≢ ref.id → IsSettledAt ref now i
  is_obligation : i.operation ≡ withdrawal → IsSettledAt ref now i
  is_expired : i.state ≡ expired → IsSettledAt ref now i
  is_cancelled : i.state ≡ cancelled → IsSettledAt ref now i
  in_time : now < i.timing.deadline_ms → IsSettledAt ref now i

dropped-cases : (s : ItemState) → is_dropped s ≡ true → (s ≡ expired) ⊎ (s ≡ cancelled)
dropped-cases expired h = inl refl
dropped-cases cancelled h = inr refl
dropped-cases pending h = absurd (cc h)
dropped-cases leased h = absurd (cc h)
dropped-cases received h = absurd (cc h)
dropped-cases withdrawn h = absurd (cc h)
dropped-cases blocked h = absurd (cc h)

withdrawal-of : (o : Operation) → is_withdrawal o ≡ true → o ≡ withdrawal
withdrawal-of withdrawal h = refl
withdrawal-of observation h = absurd (cc h)

InTime-IsSettledAt :
    (ref : BindingRef) (now : ℕ) (i : Item) → InTime ref now i → IsSettledAt ref now i
InTime-IsSettledAt ref now i h = elim (Bool-cases (str_eq i.binding_id ref.id)) [
  | inr other ↦ of_another (λ e. absurd (cc (other, (eq_iff i.binding_id ref.id).1 e)))
  | inl own ↦ elim (Bool-cases (is_withdrawal i.operation)) [
    | inl w ↦ is_obligation (withdrawal-of i.operation w)
    | inr o ↦ elim (Bool-cases (is_dropped i.state)) [
      | inl gone ↦ elim (dropped-cases i.state gone) [
        | inl e ↦ is_expired e
        | inr e ↦ is_cancelled e
      ]
      | inr there ↦ in_time (ground (arith, h, own, o, there))
    ]
  ]
]

abbrev NothingOverdue : BindingRef → ℕ → Db → Type 0
NothingOverdue ref now db = All (InTime ref now) db.items

expire-NothingOverdue :
    (vault : Vault) (nonce : String → String) (scope : Scope) (ref : BindingRef) (at : ℕ)
    (now : Instant) (db : Db)
    → stamp now ≡ ok at
    → Returns (NothingOverdue ref at) (expire vault nonce scope ref now db)
unfolding expire
expire-NothingOverdue vault nonce scope ref at now db s =
    rw s (elim (Result-cases (find_binding vault scope ref at db)) [
      | inr (c, f) ↦ rw f tt
      | inl ((b, d), f) ↦
          rw f (elim (Result-cases (expire_items vault nonce scope ref at d.items)) [
            | inr (c, e) ↦ rw e tt
            | inl (is, e) ↦ rw e (expire_items-InTime vault nonce scope ref at d.items is e)
          ])
    ])

-- After an expiry no observation of the binding may go out at or after its deadline: every row of the
-- outbox belongs to another binding, is an obligation to withdraw, expired or cancelled, or has its
-- deadline still ahead.
pub expire_complete :
    (vault : Vault) (nonce : String → String) (scope : Scope) (ref : BindingRef) (at : ℕ)
    (now : Instant) (db db' : Db)
    → stamp now ≡ ok at
    → expire vault nonce scope ref now db ≡ ok db'
    → All (IsSettledAt ref at) db'.items
expire_complete vault nonce scope ref at now db db' s h =
    All-map (InTime-IsSettledAt ref at) db'.items (
      value-Returns (NothingOverdue ref at) _ db'
        (expire-NothingOverdue vault nonce scope ref at now db s) h)
