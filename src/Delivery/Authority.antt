-- ===== src/Delivery/Authority.antt =====
-- services/api/cloud_delivery.py: the policy of the delivery and the authority of a claim.
use Prim.Native.Nat.{◌*◌}
use aisle_signals.Common.{
  ℕ, ◌+◌, Bool, true, false, ◌&&◌, ◌||◌, not, Option, none, some, String, leb, str_eq,
  if◌then◌else◌,
}
use aisle_signals.Common.Int.{pos, ltb_ℤ, leb_ℤ}
use aisle_signals.Common.Tables.{first, has_row}
use aisle_signals.Observation.Model.{Instant}
use aisle_signals.Outbox.Model.{
  clock_rollback, Result, ok, ◌>>=◌, ◌>>◌, require, stamp, Scope, BindingRef, Target, Binding, Item,
  Db, Vault, Claim, is_leased, is_withdrawal, operation_eq, scope_eq, holds, holds_number,
}
use aisle_signals.Outbox.Leases.{same_ref}
use aisle_signals.Outbox.Upkeep.{withdraw}

-- `DeliveryPolicy`; its times in seconds that may be fractions are in milliseconds.
pub record DeliveryPolicy : Type 0 where
  pub interval_ms : ℕ
  pub request_ms : ℕ
  pub lease_seconds : ℕ
  pub recheck_ms : ℕ
  pub retry_base_seconds : ℕ
  pub max_retry_seconds : ℕ
  pub observation_attempts : ℕ
  pub total_attempts : ℕ
  pub reconciliation_rows : ℕ

abbrev pub between : ℕ → ℕ → ℕ → Bool
between lower upper n = leb lower n && leb n upper

-- `DeliveryPolicy.__post_init__`
unfoldable pub valid_policy : DeliveryPolicy → Bool
valid_policy p =
    between 50 60000 p.interval_ms
    && between 100 30000 p.request_ms
    && between 50 1000 p.recheck_ms
    && between 1 60 p.lease_seconds
    && between 1 3600 p.retry_base_seconds
    && between 1 3600 p.max_retry_seconds
    && between 1 100 p.observation_attempts
    && between 1 200 p.total_attempts
    && between 1 200 p.reconciliation_rows
    && leb (p.request_ms + 4000) (p.lease_seconds * 1000)
    && leb p.retry_base_seconds p.max_retry_seconds
    && leb (p.observation_attempts + 1) p.total_attempts

-- What the provider says of the connection at a moment.
pub record Context : Type 0 where
  pub scope : Scope
  pub binding : BindingRef
  pub target : Target
  pub credential : String

pub data SourceState : Type 0 where
  available deleted expired ineligible : SourceState

-- The trusted dependencies of a delivery: the provider of the connection, the state of a source,
-- the random values of the outbox, and the reading of an ISO time.
pub record Provider : Type 0 where
  pub delivery_context : Db → Option Context
  pub access_revoked : Context → Instant → Db → Db
  pub pause_error : Context → String → Instant → Db → Db
  pub source_state : Db → Context → String → String → SourceState
  pub nonce : String → String
  pub instant_of : String → Instant

abbrev pub target_eq : Target → Target → Bool
target_eq a b =
    str_eq a.origin b.origin
    && str_eq a.organisation_id b.organisation_id
    && str_eq a.pharmacy_id b.pharmacy_id
    && str_eq a.device_id b.device_id
    && str_eq a.credential_handle b.credential_handle

-- `_same`
abbrev pub same : Context → Option Context → Bool
same before none = false
same before (some after) =
    scope_eq before.scope after.scope
    && same_ref before.binding after.binding
    && target_eq before.target after.target
    && str_eq before.credential after.credential

abbrev pub is_binding_of : Context → Binding → Bool
is_binding_of ctx b = str_eq b.id ctx.binding.id && scope_eq b.scope ctx.scope

-- `_row`
unfoldable pub row_of : Db → Context → String → Option Item
row_of db ctx id =
    if has_row (is_binding_of ctx) db.bindings
    then first (λ i. str_eq i.id id && str_eq i.binding_id ctx.binding.id) db.items
    else none

abbrev pub reason_of : SourceState → Option String
reason_of available = none
reason_of deleted = some "LOCAL_DELETED"
reason_of expired = some "LOCAL_EXPIRED"
reason_of ineligible = some "LOCAL_EXPORT_REMOVED"

-- `_source_reason`
unfoldable pub source_reason : Provider → Db → Context → Item → Instant → Option String
source_reason provider db ctx row now =
    if leb_ℤ (provider.instant_of row.timing.deadline_iso) now
    then some "LOCAL_EXPIRED"
    else reason_of (provider.source_state db ctx row.entity_kind row.entity_id)

-- The row is still leased to the claim.
abbrev pub is_claimed : Context → Claim → Instant → Item → Bool
is_claimed ctx c now row =
    is_leased row.state
    && holds row.lease_token c.token
    && holds_number row.claim_generation ctx.binding.generation
    && operation_eq row.operation c.operation
    && ltb_ℤ now (pos (c.lease_until * 1000))

-- The reason for which the source of an observation may not be sent.
abbrev pub blocking_reason : Provider → Db → Context → Claim → Item → Instant → Option String
blocking_reason provider db ctx c row now =
    if is_withdrawal c.operation then none else source_reason provider db ctx row now

-- The clock of the binding is ahead of the time.
abbrev pub is_rolled_back : Db → Context → ℕ → Bool
is_rolled_back db ctx at = has_row (λ b. is_binding_of ctx b && leb (at + 1) b.clock_ms) db.bindings

-- `_authorize`, unless the delivery is stopping; an error rolls its transaction back.
unfoldable pub authorize :
    Vault → Provider → Bool → Context → Claim → Instant → Db → Result (Bool × Db)
authorize vault provider stopping ctx c now db =
    if stopping || not (same ctx (provider.delivery_context db))
    then ok (false, db)
    else elim (row_of db ctx c.id) [
      | none ↦ ok (false, db)
      | some row ↦ do
        at ← stamp now
        require (not (is_rolled_back db ctx at)) clock_rollback
        if not (is_claimed ctx c now row)
            then ok (false, db)
            else elim (blocking_reason provider db ctx c row now) [
              | none ↦ ok (true, db)
              | some reason ↦
                  withdraw vault provider.nonce ctx.scope ctx.binding c.id reason now db >>= λ d.
                  ok (false, d)
            ]
    ]
