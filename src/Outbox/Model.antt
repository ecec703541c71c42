-- ===== src/Outbox/Model.antt =====
-- The tables and values of services/api/cloud_outbox.py, and what the module takes from elsewhere.
use Prim.Native.Nat.{◌/◌, ◌*◌}
use aisle_signals.Common.{
  ℕ, Bool, true, false, ◌&&◌, Option, none, some, List, String, leb, ltb, str_eq, ◌==◌,
  if◌then◌else◌,
}
use aisle_signals.Common.Int.{pos, negsuc}
use aisle_signals.Observation.Model.{Instant, Payload, Formats}

-- The codes of `OutboxError` here and in cloud_media_outbox.py, and the integrity errors of the database.
pub data Code : Type 0 where
  invalid_identifier invalid_clock invalid_binding binding_exists binding_limit : Code
  binding_conflict not_found stale_generation key_unavailable clock_rollback : Code
  binding_disconnected generation_exhausted binding_not_active invalid_observation : Code
  invalid_payload source_id_mismatch invalid_deadline admission_time_mismatch : Code
  observation_conflict stale_admission observation_expired payload_limit queue_limit : Code
  daily_limit withdrawal_reserve_invalid invalid_reason invalid_lease stale_lease : Code
  ciphertext_invalid invalid_backoff receipt_conflict invalid_error_code invalid_limit : Code
  integrity_error observation_not_found media_reference_invalid media_conflict : Code
  invalid_receipt malformed_source : Code

pub data Result {ℓ} (A : Type ℓ) : Type ℓ where
  ok : A → Result A
  err : Code → Result A

infixl 5 ◌>>=◌ ◌>>◌
abbrev pub ◌>>=◌ {ℓ κ} : {A : Type ℓ} {B : Type κ} → Result A → (A → Result B) → Result B
ok a >>= f = f a
err c >>= f = err c

abbrev pub ◌>>◌ {ℓ} : {B : Type ℓ} → Result (Unit {0}) → Result B → Result B
m >> k = m >>= λ _. k

-- `if not condition: raise`
abbrev pub require : Bool → Code → Result (Unit {0})
require true c = ok tt
require false c = err c

abbrev pub day_ms : ℕ
day_ms = 86400000

abbrev pub withdrawal_reserve : ℕ
withdrawal_reserve = 256

abbrev pub max_generation : ℕ
max_generation = 2147483647

abbrev pub latest_stamp : ℕ
latest_stamp = 253402300799000

-- `_stamp`: whole milliseconds of an instant, which is in microseconds. The division is exact, where
-- the source multiplies a float and may come out a millisecond lower.
unfoldable pub stamp : Instant → Result ℕ
stamp (negsuc n) = err invalid_clock
stamp (pos n) = if leb n (latest_stamp * 1000) then ok (n / 1000) else err invalid_clock

pub record Scope : Type 0 where
  pub installation_id : String
  pub organisation_id : String
  pub site_id : String

pub record BindingRef : Type 0 where
  pub id : String
  pub generation : ℕ

pub record Target : Type 0 where
  pub origin : String
  pub organisation_id : String
  pub pharmacy_id : String
  pub device_id : String
  pub credential_handle : String

pub data BindingState : Type 0 where
  active paused disconnected restored : BindingState

pub data Operation : Type 0 where
  observation withdrawal : Operation

pub data ItemState : Type 0 where
  pending leased received withdrawn expired cancelled blocked : ItemState

-- What a payload holds: an observation, or a withdrawal's source event and reason.
pub data Content : Type 0 where
  observed : Payload → Content
  withdrawing : String → String → Content

-- A row of `cloud_sync_bindings`.
pub record Binding : Type 0 where
  pub id : String
  pub scope : Scope
  pub generation : ℕ
  pub target : Target
  pub key_hash : String
  pub state : BindingState
  pub created_ms : ℕ
  pub activated_ms : ℕ
  pub clock_ms : ℕ

-- `_timing`
pub record Timing : Type 0 where
  pub admitted_ms : ℕ
  pub deadline_ms : ℕ
  pub admitted_iso : String
  pub deadline_iso : String

-- A row of `cloud_sync_items`.
pub record Item : Type 0 where
  pub id : String
  pub binding_id : String
  pub entity_kind : String
  pub entity_id : String
  pub source_event_id : String
  pub observation_hash : String
  pub timing : Timing
  pub created_ms : ℕ
  pub operation : Operation
  pub state : ItemState
  pub payload : Option (List ℕ)
  pub payload_hash : String
  pub attempts : ℕ
  pub ever_attempted : Bool
  pub next_ms : ℕ
  pub lease_token : Option String
  pub lease_until_ms : Option ℕ
  pub claim_generation : Option ℕ
  pub receipt_id : Option String
  pub observation_receipt_id : Option String
  pub receipt_ms : Option ℕ
  pub settled_token : Option String
  pub terminal_ms : Option ℕ
  pub withdrawal_reason : Option String
  pub error_code : Option String

-- A row of `cloud_sync_capacity`.
pub record Capacity : Type 0 where
  pub installation_id : String
  pub token : String
  pub until_ms : ℕ

-- The tables, in the order of insertion.
pub record Db : Type 0 where
  pub bindings : List Binding
  pub items : List Item
  pub capacity : List Capacity

pub record Limits : Type 0 where
  pub pending_per_binding : ℕ
  pub pending_per_installation : ℕ
  pub records_per_binding : ℕ
  pub records_per_installation : ℕ
  pub bytes_per_binding : ℕ
  pub bytes_per_installation : ℕ
  pub daily_per_binding : ℕ
  pub bindings_per_installation : ℕ

-- The associated data of a ciphertext (`_aad`).
pub record Aad : Type 0 where
  pub scope : Scope
  pub binding_id : String
  pub item_id : String
  pub operation : Operation
  pub timing : Timing

-- What the outbox takes from other code: authenticated encryption of the JSON of a payload under
-- the key, with the magic prefix and a nonce in front; its digest and size; the digest of an
-- observation with its deadline; and the formats of cloud_observation.py.
pub record Vault : Type 0 where
  pub key_hash : String
  pub limits : Limits
  pub formats : Formats
  pub seal : String → Aad → Content → List ℕ
  pub unseal : Aad → List ℕ → Option Content
  pub digest : Content → String
  pub observation_digest : Payload → String → String
  pub raw_size : Content → ℕ

-- `Claim`, with the times of the row as it keeps them
pub record Claim : Type 0 where
  pub id : String
  pub binding : BindingRef
  pub token : String
  pub operation : Operation
  pub source_event_id : String
  pub payload : Content
  pub lease_until : ℕ
  pub timing : Timing

abbrev pub is_pending : ItemState → Bool
is_pending pending = true
is_pending _ = false

abbrev pub is_leased : ItemState → Bool
is_leased leased = true
is_leased _ = false

-- `EXPIRED` or `CANCELLED`
abbrev pub is_dropped : ItemState → Bool
is_dropped expired = true
is_dropped cancelled = true
is_dropped _ = false

abbrev pub is_withdrawn : ItemState → Bool
is_withdrawn withdrawn = true
is_withdrawn _ = false

-- `RECEIVED` or `WITHDRAWN`
abbrev pub is_settled : ItemState → Bool
is_settled received = true
is_settled withdrawn = true
is_settled _ = false

abbrev pub is_withdrawal : Operation → Bool
is_withdrawal withdrawal = true
is_withdrawal observation = false

abbrev pub operation_eq : Operation → Operation → Bool
operation_eq observation observation = true
operation_eq withdrawal withdrawal = true
operation_eq _ _ = false

-- `ACTIVE` or `PAUSED`
abbrev pub is_connected : BindingState → Bool
is_connected active = true
is_connected paused = true
is_connected _ = false

abbrev pub is_active : BindingState → Bool
is_active active = true
is_active _ = false

abbrev pub scope_eq : Scope → Scope → Bool
scope_eq a b =
    str_eq a.installation_id b.installation_id
    && str_eq a.organisation_id b.organisation_id
    && str_eq a.site_id b.site_id

abbrev pub is_some {ℓ} : {A : Type ℓ} → Option A → Bool
is_some none = false
is_some (some a) = true

-- `column = value` on a column that may be NULL
abbrev pub holds : Option String → String → Bool
holds none s = false
holds (some t) s = str_eq t s

abbrev pub holds_number : Option ℕ → ℕ → Bool
holds_number none n = false
holds_number (some m) n = m == n

-- `column > value` on a column that may be NULL
abbrev pub later_than : Option ℕ → ℕ → Bool
later_than none n = false
later_than (some m) n = ltb n m
