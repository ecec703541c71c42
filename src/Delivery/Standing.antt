-- ===== src/Delivery/Standing.antt =====
-- What a taken answer says of its claim and of the row it is for.
use Prim.Native.Nat.{◌*◌}
use aisle_signals.Common.{
  ◌≡◌, refl, ℕ, ◌<◌, Bool, true, false, ◌&&◌, ◌⊎◌, ap, eq_iff, str_eq, Option, none, some, String,
  Bool-cases, inl, inr, arith,
}
use aisle_signals.Observation.Model.{Instant}
use aisle_signals.Outbox.Model.{
  ok, Operation, Item, ItemState, leased, Scope, BindingRef, Target, scope_eq, is_leased,
  operation_eq, holds_number, Db, Vault, Claim,
}
use aisle_signals.Outbox.Leases.{same_ref}
use aisle_signals.Common.Int.{pos, ◌<ℤ◌, leb_ℤ, ltb_ℤ→lt}
use aisle_signals.Common.Tables.{has_row, first-selected}
use aisle_signals.Outbox.Leases.Receipts.{holds-some}
use aisle_signals.Delivery.Settled.{is_taken, is_retrying, HasPassed, taken-HasPassed}
use aisle_signals.Delivery.Authority.{
  DeliveryPolicy, Context, Provider, same, target_eq, row_of, blocking_reason, reason_of,
  source_reason, is_binding_of, SourceState, available, deleted, expired, ineligible,
}
use aisle_signals.Delivery.Settlement.{Response, DeliveryResult, maximum, settle}

-- The claim stands: the connection is the one it was made under, the row of the claim is leased to it
-- in this generation, for this operation and before the end of the lease, and the source of an
-- observation is there and in time. A retry has attempts left.
pub record IsStanding (provider : Provider) (policy : DeliveryPolicy) (ctx : Context) (c : Claim)
    (now : Instant) (db : Db) (r : DeliveryResult) (row : Item) : Type 0 where
  pub is_connected : provider.delivery_context db ≡ some ctx
  pub is_row : row_of db ctx c.id ≡ some row
  pub is_named : row.id ≡ c.id
  pub is_own : row.binding_id ≡ ctx.binding.id
  pub is_leased : row.state ≡ leased
  pub has_token : row.lease_token ≡ some c.token
  pub has_generation : row.claim_generation ≡ some ctx.binding.generation
  pub has_operation : row.operation ≡ c.operation
  pub is_running : now <ℤ pos (c.lease_until * 1000)
  pub may_send :
      (c.operation ≡ Operation.withdrawal)
      ⊎ ((now <ℤ provider.instant_of row.timing.deadline_iso)
          × (provider.source_state db ctx row.entity_kind row.entity_id ≡ available))
  pub has_attempts : (is_retrying r.status ≡ false) ⊎ (row.attempts < maximum policy c.operation)

same-scope : (a b : Scope) → scope_eq a b ≡ true → b ≡ a
same-scope a b h =
    let i = (eq_iff a.installation_id b.installation_id).0 (ground (arith, h)) in
    let o = (eq_iff a.organisation_id b.organisation_id).0 (ground (arith, h)) in
    let s = (eq_iff a.site_id b.site_id).0 (ground (arith, h)) in cc (i, o, s)

same-target : (a b : Target) → target_eq a b ≡ true → b ≡ a
same-target a b h =
    let o = (eq_iff a.origin b.origin).0 (ground (arith, h)) in
    let g = (eq_iff a.organisation_id b.organisation_id).0 (ground (arith, h)) in
    let p = (eq_iff a.pharmacy_id b.pharmacy_id).0 (ground (arith, h)) in
    let d = (eq_iff a.device_id b.device_id).0 (ground (arith, h)) in
    let k = (eq_iff a.credential_handle b.credential_handle).0 (ground (arith, h)) in
    cc (o, g, p, d, k)

same-binding : (a b : BindingRef) → same_ref a b ≡ true → b ≡ a
same-binding a b h =
    let i = (eq_iff a.id b.id).0 (ground (arith, h)) in
    let g : a.generation ≡ b.generation = ground (arith, h) in cc (i, g)

same-context : (a : Context) (o : Option Context) → same a o ≡ true → o ≡ some a
same-context a none h = absurd (cc h)
same-context a (some b) h =
    let s = same-scope a.scope b.scope (ground (arith, h)) in
    let r = same-binding a.binding b.binding (ground (arith, h)) in
    let t = same-target a.target b.target (ground (arith, h)) in
    let k = (eq_iff a.credential b.credential).0 (ground (arith, h)) in cc (s, r, t, k)

leased-of : (s : ItemState) → is_leased s ≡ true → s ≡ leased
leased-of leased h = refl
leased-of ItemState.pending h = absurd (cc h)
leased-of ItemState.received h = absurd (cc h)
leased-of ItemState.withdrawn h = absurd (cc h)
leased-of ItemState.expired h = absurd (cc h)
leased-of ItemState.cancelled h = absurd (cc h)
leased-of ItemState.blocked h = absurd (cc h)

same-operation : (a b : Operation) → operation_eq a b ≡ true → a ≡ b
same-operation Operation.observation Operation.observation h = refl
same-operation Operation.withdrawal Operation.withdrawal h = refl
same-operation Operation.observation Operation.withdrawal h = absurd (cc h)
same-operation Operation.withdrawal Operation.observation h = absurd (cc h)

holds_number-some : (o : Option ℕ) (n : ℕ) → holds_number o n ≡ true → o ≡ some n
holds_number-some none n h = absurd (cc h)
holds_number-some (some m) n h = ap some (ground (arith, h))

available-of : (s : SourceState) → reason_of s ≡ none → s ≡ available
available-of available h = refl
available-of deleted h = absurd (cc h)
available-of expired h = absurd (cc h)
available-of ineligible h = absurd (cc h)

sendable :
    (provider : Provider) (db : Db) (ctx : Context) (c : Claim) (row : Item) (now : Instant)
    (o : Operation)
    → c.operation ≡ o
    → blocking_reason provider db ctx c row now ≡ none
    → (c.operation ≡ Operation.withdrawal)
      ⊎ ((now <ℤ provider.instant_of row.timing.deadline_iso)
          × (provider.source_state db ctx row.entity_kind row.entity_id ≡ available))
unfolding source_reason
sendable provider db ctx c row now Operation.withdrawal e h = inl e
sendable provider db ctx c row now Operation.observation e h =
    elim (Bool-cases (leb_ℤ (provider.instant_of row.timing.deadline_iso) now)) [
      | inl late ↦ absurd (ground (arith, e, h, late))
      | inr early ↦ inr (
        ground (arith, early),
        available-of (provider.source_state db ctx row.entity_kind row.entity_id)
            (ground (arith, e, h, early)),
      )
    ]

row_of-named :
    (db : Db) (ctx : Context) (id : String) (row : Item)
    → row_of db ctx id ≡ some row
    → (row.id ≡ id) × (row.binding_id ≡ ctx.binding.id)
unfolding row_of
row_of-named db ctx id row h = elim (Bool-cases (has_row (is_binding_of ctx) db.bindings)) [
  | inr gone ↦ absurd (ground (arith, h, gone))
  | inl there ↦
      let hit =
        first-selected (λ i. str_eq i.id id && str_eq i.binding_id ctx.binding.id) db.items row
          (ground (arith, h, there)) in
      (
        (eq_iff row.id id).0 (ground (arith, hit)),
        (eq_iff row.binding_id ctx.binding.id).0 (ground (arith, hit)),
      )
]

standing :
    (provider : Provider) (policy : DeliveryPolicy) (ctx : Context) (c : Claim) (now : Instant)
    (db : Db) (r : DeliveryResult) (row : Item)
    → HasPassed provider policy ctx c now db r row
    → IsStanding provider policy ctx c now db r row
standing provider policy ctx c now db r row h =
    let held = h.is_leased in
    let (named, own) = row_of-named db ctx c.id row h.is_row in
    record {
      is_connected = same-context ctx (provider.delivery_context db) h.is_connected;
      is_row = h.is_row;
      is_named = named;
      is_own = own;
      is_leased = leased-of row.state (ground (arith, held));
      has_token = holds-some row.lease_token c.token (ground (arith, held));
      has_generation =
          holds_number-some row.claim_generation ctx.binding.generation (ground (arith, held));
      has_operation = same-operation row.operation c.operation (ground (arith, held));
      is_running = ltb_ℤ→lt now (pos (c.lease_until * 1000)) (ground (arith, held));
      may_send = sendable provider db ctx c row now c.operation refl h.may_send;
      has_attempts = elim (Bool-cases (is_retrying r.status)) [
        | inl again ↦ inr (h.has_attempts again)
        | inr over ↦ inl over
      ];
    }

-- An answer counts only while its claim stands: whatever came back, when it is settled as delivered,
-- as withdrawn or as to be retried, the connection is the one of the claim, the row of the claim is
-- still leased to it in this generation and for this operation before the end of the lease, an
-- observation's source is there and before its deadline, and a retry has attempts left.
pub taken-IsStanding :
    (vault : Vault) (provider : Provider) (policy : DeliveryPolicy) (stopping : Bool)
    (ctx : Context) (c : Claim) (response : Response) (now : Instant) (db db' : Db)
    (r : DeliveryResult)
    → settle vault provider policy stopping ctx c response now db ≡ ok (r, db')
    → is_taken r.status ≡ true
    → (row : Item) × IsStanding provider policy ctx c now db r row
taken-IsStanding vault provider policy stopping ctx c response now db db' r h t =
    let (row, passed) =
      taken-HasPassed vault provider policy stopping ctx c response now db db' r h t in
    (row, standing provider policy ctx c now db r row passed)
