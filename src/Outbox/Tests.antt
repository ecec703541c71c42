-- ===== src/Outbox/Tests.antt =====
-- A binding with one observation to send.
use aisle_signals.Common.{
  ◌≡◌, ◌≢◌, ◌<◌, refl, true, false, Option, none, some, [], ◌∷◌, String, All, arith,
}
use aisle_signals.Common.Int.{pos}
use aisle_signals.Observation.Model.{Formats, Payload}
use aisle_signals.Observation.Map.{valid_payload, is_source_label}
use aisle_signals.Outbox.Model.{
  stale_lease, Result, ok, err, stamp, Scope, BindingRef, Binding, Item, Db, Limits, Vault, Claim,
  observed, active, pending, observation, withdrawal, stale_generation,
}
use aisle_signals.Outbox.Rows.{
  is_binding, first, update_where, find_binding, check_binding, expire_items, withdraw_where,
  withdraw_item, decode, decode_bytes, fits_row, release,
}
use aisle_signals.Outbox.Bindings.{set_paused}
use aisle_signals.Outbox.Bindings.Fences.{set_paused_fences}
use aisle_signals.Outbox.Leases.Receipts.{acknowledged_once}
use aisle_signals.Outbox.Model.{receipt_conflict}
use aisle_signals.Outbox.Rows.{set_clock, find_item, delete_where}
use aisle_signals.Outbox.Leases.{
  retry, reject, acknowledge, settle, settle_capacity, find_lease, claim, claim_due, take_lease,
  foremost, reserve, find_lease,
}
use aisle_signals.Outbox.Leases.Claims.{IsTimely, claim-IsTimely}
use aisle_signals.Outbox.Leases.Exclusive.{claim_exclusive}
use aisle_signals.Outbox.Upkeep.{expire, mark_restored}
use aisle_signals.Outbox.Upkeep.Expiry.{IsSettledAt, expire_complete}
use aisle_signals.Outbox.Upkeep.Restore.{IsRestored, mark_restored-IsRestored, restored_silent}

abbrev pub plain : Formats
plain = record {
  is_uuid = λ _. true;
  is_uuid5 = λ _. true;
  uuid5 = λ _. "event";
  iso = λ _. "2026-09-15T00:00:00Z";
  is_canonical_time = λ _. true;
}

abbrev pub sent : Payload
sent = record {
  source_event_id = "event";
  event_code = "POSSIBLE_CONCEALMENT";
  source_label = "Camera source · local observation";
  occurred_at = "2026-09-15T00:00:00Z";
  historical = true;
}

abbrev pub limits : Limits
limits = record {
  pending_per_binding = 9;
  pending_per_installation = 9;
  records_per_binding = 9;
  records_per_installation = 9;
  bytes_per_binding = 9000;
  bytes_per_installation = 9000;
  daily_per_binding = 9;
  bindings_per_installation = 9;
}

abbrev pub vault : Vault
vault = record {
  key_hash = "key";
  limits = limits;
  formats = plain;
  seal = λ _ _ _. [];
  unseal = λ _ _. some (observed sent);
  digest = λ _. "digest";
  observation_digest = λ _ _. "digest";
  raw_size = λ _. 100;
}

abbrev pub nonce : String → String
nonce _ = "nonce"

abbrev pub scope : Scope
scope = record { installation_id = "i"; organisation_id = "o"; site_id = "s" }

abbrev pub ref : BindingRef
ref = record { id = "b"; generation = 2 }

abbrev pub binding : Binding
binding = record {
  id = "b";
  scope = scope;
  generation = 2;
  target = record {
    origin = "https://cloud";
    organisation_id = "o";
    pharmacy_id = "p";
    device_id = "d";
    credential_handle = "c";
  };
  key_hash = "key";
  state = active;
  created_ms = 0;
  activated_ms = 0;
  clock_ms = 0;
}

abbrev pub item : Item
item = record {
  id = "x";
  binding_id = "b";
  entity_kind = "interaction";
  entity_id = "x";
  source_event_id = "event";
  observation_hash = "digest";
  timing = record {
    admitted_ms = 0;
    deadline_ms = 9000;
    admitted_iso = "2026-09-15T00:00:00Z";
    deadline_iso = "2026-09-15T00:00:09Z";
  };
  created_ms = 0;
  operation = observation;
  state = pending;
  payload = some [];
  payload_hash = "digest";
  attempts = 0;
  ever_attempted = false;
  next_ms = 0;
  lease_token = none;
  lease_until_ms = none;
  claim_generation = none;
  receipt_id = none;
  observation_receipt_id = none;
  receipt_ms = none;
  settled_token = none;
  terminal_ms = none;
  withdrawal_reason = none;
  error_code = none;
}

abbrev pub db : Db
db = record { bindings = binding ∷ []; items = item ∷ []; capacity = [] }

abbrev pub value_or {ℓ} : {A : Type ℓ} → A → Result A → A
value_or a (ok b) = b
value_or a (err c) = a

abbrev pub claimed : Option Claim × Db
claimed = value_or (none, db) (claim vault nonce scope ref "t" 15 (pos 5000000) db)

abbrev claim_or : Claim → Option Claim → Claim
claim_or c none = c
claim_or c (some d) = d

abbrev pub given : Claim
given =
    claim_or
      (record {
        id = "";
        binding = ref;
        token = "";
        operation = withdrawal;
        source_event_id = "";
        payload = observed sent;
        lease_until = 0;
        timing = item.timing;
      })
      claimed.0

pub claim_runs : claim vault nonce scope ref "t" 15 (pos 5000000) db ≡ ok (some given, claimed.1)
unfolding claim claim_due take_lease foremost reserve find_binding check_binding first update_where
    expire_items withdraw_where withdraw_item decode decode_bytes fits_row valid_payload
    is_source_label stamp
claim_runs = refl

abbrev found : Binding × Db
found = value_or (binding, db) (find_binding vault scope ref 5000 db)

binding_found : find_binding vault scope ref 5000 db ≡ ok found
unfolding find_binding check_binding first update_where
binding_found = refl

pub at_five : stamp (pos 5000000) ≡ ok 5000
unfolding stamp
at_five = refl

pub at_six : stamp (pos 6000000) ≡ ok 6000
unfolding stamp
at_six = refl

claim-IsTimely_example : IsTimely 5000 found.0 given
claim-IsTimely_example =
    claim-IsTimely vault nonce scope ref "t" 15 5000 (pos 5000000) db found.1 claimed.1 found.0
      given at_five binding_found claim_runs

abbrev again : Option Claim × Db
again = value_or claimed (claim vault nonce scope ref "u" 20 (pos 6000000) claimed.1)

claim_runs_again : claim vault nonce scope ref "u" 20 (pos 6000000) claimed.1 ≡ ok again
unfolding claim claim_due take_lease foremost reserve find_binding check_binding first update_where
    expire_items withdraw_where withdraw_item decode decode_bytes fits_row valid_payload
    is_source_label stamp
claim_runs_again = refl

pub lease_runs : 6000 < given.lease_until
unfolding claim claim_due take_lease foremost reserve find_binding check_binding first update_where
    expire_items withdraw_where withdraw_item decode decode_bytes fits_row valid_payload
    is_source_label stamp
lease_runs = omega arith

claim_exclusive_example : again.0 ≡ none
claim_exclusive_example =
    claim_exclusive vault nonce nonce scope scope ref ref "t" "u" 15 20 6000 (pos 5000000)
      (pos 6000000) db claimed.1 given again refl claim_runs at_six lease_runs claim_runs_again

abbrev stopped : Binding × Db
stopped = value_or (binding, db) (set_paused vault scope ref true (pos 5000000) claimed.1)

pause_runs : set_paused vault scope ref true (pos 5000000) claimed.1 ≡ ok stopped
unfolding claim claim_due take_lease foremost reserve find_binding check_binding first update_where
    expire_items withdraw_where withdraw_item decode decode_bytes fits_row valid_payload
    is_source_label stamp set_paused release
pause_runs = refl

-- The binding as the claim has left it.
abbrev sending : Binding
sending = record binding { clock_ms = 5000 }

sending_found : first (is_binding scope ref) claimed.1.bindings ≡ some sending
unfolding claim claim_due take_lease foremost reserve find_binding check_binding first update_where
    expire_items withdraw_where withdraw_item decode decode_bytes fits_row valid_payload
    is_source_label stamp
sending_found = refl

state_moved : stopped.0.state ≢ sending.state
unfolding claim claim_due take_lease foremost reserve find_binding check_binding first update_where
    expire_items withdraw_where withdraw_item decode decode_bytes fits_row valid_payload
    is_source_label stamp set_paused release
state_moved h = absurd (cc h)

set_paused_fences_example :
    (claim vault nonce scope ref "t" 15 (pos 6000000) stopped.1 ≡ err stale_generation)
    × (find_lease vault scope ref given 6000 stopped.1 ≡ err stale_generation)
set_paused_fences_example =
    set_paused_fences vault nonce scope ref true (pos 5000000) (pos 6000000) "t" given 15 6000
      claimed.1 stopped.1 sending stopped.0 sending_found pause_runs state_moved at_six

abbrev rolled : Db
rolled = value_or db (mark_restored (pos 6000000) claimed.1)

restore_runs : mark_restored (pos 6000000) claimed.1 ≡ ok rolled
unfolding claim claim_due take_lease foremost reserve find_binding check_binding first update_where
    expire_items withdraw_where withdraw_item decode decode_bytes fits_row valid_payload
    is_source_label stamp mark_restored
restore_runs = refl

mark_restored-IsRestored_example : IsRestored claimed.1 rolled
mark_restored-IsRestored_example =
    mark_restored-IsRestored (pos 6000000) claimed.1 rolled restore_runs

abbrev third : BindingRef
third = record { id = "b"; generation = 3 }

abbrev asked : Option Claim × Db
asked = value_or claimed (claim vault nonce scope third "t" 15 (pos 6000000) rolled)

asked_runs : claim vault nonce scope third "t" 15 (pos 6000000) rolled ≡ ok asked
unfolding claim claim_due take_lease foremost reserve find_binding check_binding first update_where
    expire_items withdraw_where withdraw_item decode decode_bytes fits_row valid_payload
    is_source_label stamp mark_restored
asked_runs = refl

restored_silent_example : asked.0 ≡ none
restored_silent_example =
    restored_silent vault nonce scope third "t" 15 (pos 6000000) (pos 6000000) claimed.1 rolled
      asked restore_runs asked_runs

abbrev swept : Db
swept = value_or db (expire vault nonce scope ref (pos 9500000) claimed.1)

at_end : stamp (pos 9500000) ≡ ok 9500
unfolding stamp
at_end = refl

expiry_runs : expire vault nonce scope ref (pos 9500000) claimed.1 ≡ ok swept
unfolding claim claim_due take_lease foremost reserve find_binding check_binding first update_where
    expire_items withdraw_where withdraw_item decode decode_bytes fits_row valid_payload
    is_source_label stamp expire
expiry_runs = refl

expire_complete_example : All (IsSettledAt ref 9500) swept.items
expire_complete_example =
    expire_complete vault nonce scope ref 9500 (pos 9500000) claimed.1 swept at_end expiry_runs

abbrev acknowledged : Db
acknowledged = value_or db (acknowledge vault scope ref given "r" (pos 6000000) claimed.1)

acknowledge_runs : acknowledge vault scope ref given "r" (pos 6000000) claimed.1 ≡ ok acknowledged
unfolding acknowledge settle settle_capacity find_lease find_item delete_where claim claim_due
    take_lease foremost reserve find_binding check_binding first update_where expire_items
    withdraw_where withdraw_item decode decode_bytes fits_row valid_payload is_source_label stamp
acknowledge_runs = refl

at_seven : stamp (pos 7000000) ≡ ok 7000
unfolding stamp
at_seven = refl

acknowledged_once_example :
    (acknowledge vault scope ref given "r" (pos 7000000) acknowledged
      ≡ ok (set_clock ref 7000 acknowledged))
    × ((acknowledge vault scope ref given "q" (pos 7000000) acknowledged ≡ err receipt_conflict)
        × ((retry vault scope ref given 5 (pos 7000000) acknowledged ≡ err stale_lease)
            × (reject vault nonce scope ref given "REMOTE_REJECTED" (pos 7000000) acknowledged
                ≡ err stale_lease)))
acknowledged_once_example =
    acknowledged_once vault scope ref given "r" "q" 6000 7000 (pos 6000000) (pos 7000000) claimed.1
      acknowledged nonce 5 "REMOTE_REJECTED" at_six at_seven (omega arith) acknowledge_runs refl
      refl refl
