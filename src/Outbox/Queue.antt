-- ===== src/Outbox/Queue.antt =====
-- `enqueue` and its quotas.
use Prim.Native.Nat.{max}
use aisle_signals.Common.{
  ℕ, ◌+◌, Bool, true, false, ◌&&◌, ◌||◌, not, none, some, List, [], ◌∷◌, ◌++◌, String, leb, ltb,
  str_eq, ◌==◌, if◌then◌else◌, length,
}
use aisle_signals.Observation.Model.{Instant, MappedObservation}
use aisle_signals.Observation.Map.{valid_payload, source_event_id}
use aisle_signals.Outbox.Model.{
  binding_not_active, invalid_observation, malformed_source, invalid_payload, source_id_mismatch,
  invalid_deadline, admission_time_mismatch, observation_conflict, stale_admission,
  observation_expired, queue_limit, daily_limit, integrity_error, Result, ok, ◌>>=◌, ◌>>◌, require,
  day_ms, withdrawal_reserve, stamp, Scope, BindingRef, observation, pending, leased, blocked,
  observed, Timing, Binding, Item, Db, Vault, is_active, is_dropped, is_withdrawn, is_withdrawal,
  is_some,
}
use aisle_signals.Outbox.Rows.{first, find_binding, encrypt, or_fail}
use aisle_signals.Outbox.Bindings.{count_where}

-- `operation='OBSERVATION' AND state IN ('PENDING','LEASED','BLOCKED')`
abbrev pub waits : Item → Bool
waits i =
    not (is_withdrawal i.operation)
    && elim i.state [ pending ↦ true | leased ↦ true | blocked ↦ true | _ ↦ false ]

-- The bytes that an item reserves.
abbrev pub reserved : Item → ℕ
reserved i =
    if (is_dropped i.state && not i.ever_attempted)
      || (is_withdrawn i.state && is_some i.receipt_id)
    then 0
    else max (elim i.payload [ none ↦ 0 | some bytes ↦ length bytes ]) withdrawal_reserve

abbrev pub total_where {ℓ} : {A : Type ℓ} → (A → Bool) → (A → ℕ) → List A → ℕ
total_where p f [] = 0
total_where p f (x ∷ xs) = (if p x then f x else 0) + total_where p f xs

-- The items of an installation, by the bindings that they refer to.
abbrev pub of_installation : Scope → List Binding → Item → Bool
of_installation scope bindings i = is_some (
    first (λ b. str_eq b.id i.binding_id && str_eq b.scope.installation_id scope.installation_id)
      bindings)

-- One round of the loop of `_quota`.
unfoldable pub within_quota : (Item → Bool) → ℕ → ℕ → ℕ → ℕ → List Item → Bool
within_quota p pending_limit record_limit byte_limit size items =
    ltb (count_where p items) record_limit
    && ltb (count_where (λ i. p i && waits i) items) pending_limit
    && leb (total_where p reserved items + max size withdrawal_reserve) byte_limit

-- `_quota`
unfoldable pub quota : Vault → Scope → BindingRef → ℕ → ℕ → Db → Result (Unit {0})
quota vault scope ref now size db = do
  require
      (within_quota (λ i. str_eq i.binding_id ref.id) vault.limits.pending_per_binding
        vault.limits.records_per_binding vault.limits.bytes_per_binding size db.items)
      queue_limit
  require
      (within_quota (of_installation scope db.bindings) vault.limits.pending_per_installation
        vault.limits.records_per_installation vault.limits.bytes_per_installation size db.items)
      queue_limit
  require
      (ltb
        (count_where (λ (i : Item). str_eq i.binding_id ref.id && ltb now (i.created_ms + day_ms))
          db.items)
        vault.limits.daily_per_binding)
      daily_limit

abbrev pub is_entity : BindingRef → MappedObservation → Item → Bool
is_entity ref o i =
    str_eq i.binding_id ref.id
    && str_eq i.entity_kind o.entity_kind
    && str_eq i.entity_id o.entity_id

-- The row of a new observation.
abbrev pub new_item : Vault → BindingRef → String → MappedObservation → Timing → ℕ → List ℕ → Item
new_item vault ref id o timing now bytes = record {
  id = id;
  binding_id = ref.id;
  entity_kind = o.entity_kind;
  entity_id = o.entity_id;
  source_event_id = o.payload.source_event_id;
  observation_hash = vault.observation_digest o.payload timing.deadline_iso;
  timing = timing;
  created_ms = now;
  operation = observation;
  state = pending;
  payload = some bytes;
  payload_hash = vault.digest (observed o.payload);
  attempts = 0;
  ever_attempted = false;
  next_ms = now;
  lease_token = none;
  lease_until_ms = none;
  claim_generation = none;
  receipt_id = none;
  observation_receipt_id = none;
  receipt_ms = none;
  settled_token = none;
  terminal_ms = none;
  withdrawal_reason = none;
  error_code = none;
}

-- The times of an observation, checked.
unfoldable pub timing_of : Vault → MappedObservation → ℕ → Result Timing
timing_of vault o now = do
  admitted ← stamp o.admitted_at
  deadline ← stamp o.deadline
  require (ltb admitted deadline && leb deadline (admitted + day_ms) && leb admitted now)
      invalid_deadline
  require (str_eq o.payload.occurred_at (vault.formats.iso o.admitted_at)) admission_time_mismatch
  ok (record {
    admitted_ms = admitted;
    deadline_ms = deadline;
    admitted_iso = vault.formats.iso o.admitted_at;
    deadline_iso = vault.formats.iso o.deadline;
  })

-- An observation of an entity that is there already.
unfoldable pub known_item : Vault → MappedObservation → Timing → Item → Result String
known_item vault o timing i = do
  require
      (str_eq i.observation_hash (vault.observation_digest o.payload timing.deadline_iso)
        && i.timing.admitted_ms == timing.admitted_ms)
      observation_conflict
  ok i.id

-- An observation of a new entity, under a new identifier and nonce.
unfoldable pub insert_item :
    Vault
    → Scope
    → BindingRef
    → Binding
    → String
    → String
    → MappedObservation
    → Timing
    → ℕ
    → Db
    → Result (String × Db)
insert_item vault scope ref b id nonce o timing now db = do
  require (leb b.activated_ms timing.admitted_ms) stale_admission
  require (ltb now timing.deadline_ms) observation_expired
  bytes ←
      encrypt vault nonce
        (record {
          scope = scope;
          binding_id = ref.id;
          item_id = id;
          operation = observation;
          timing = timing;
        })
        (observed o.payload)
  quota vault scope ref now (length bytes) db
  require
      (not (
        is_some (
          first
            (λ (i : Item).
              str_eq i.id id
              || (str_eq i.binding_id ref.id && str_eq i.source_event_id o.payload.source_event_id))
            db.items)))
      integrity_error
  ok (id, record db { items = db.items ++ new_item vault ref id o timing now bytes ∷ [] })

-- The payload carries the identifier that the outbox derives itself. The `ValueError` that the
-- derivation raises on a malformed part is no `OutboxError`; it is the result `malformed_source`.
unfoldable pub check_source : Vault → Scope → BindingRef → MappedObservation → Result (Unit {0})
check_source vault scope ref o = do
  require (str_eq o.entity_kind "interaction" || str_eq o.entity_kind "live_event")
      invalid_observation
  expected ←
      or_fail
        (source_event_id vault.formats scope.installation_id ref.id scope.organisation_id
          scope.site_id o.entity_kind o.entity_id)
        malformed_source
  require (valid_payload vault.formats o.payload && leb (vault.raw_size (observed o.payload)) 2048)
      invalid_payload
  require (str_eq o.payload.source_event_id expected) source_id_mismatch

-- `enqueue`
unfoldable pub enqueue :
    Vault
    → Scope
    → BindingRef
    → String
    → String
    → MappedObservation
    → Instant
    → Db
    → Result (String × Db)
enqueue vault scope ref id nonce o now db = do
  at ← stamp now
  found ← find_binding vault scope ref at db
  require (is_active found.0.state) binding_not_active
  check_source vault scope ref o
  timing ← timing_of vault o at
  elim (first (is_entity ref o) found.1.items) [
    | some i ↦ (do known ← known_item vault o timing i; ok (known, found.1))
    | none ↦ insert_item vault scope ref found.0 id nonce o timing at found.1
  ]
