-- ===== src/Delivery/Tests.antt =====
-- The settlement of a claim of the outbox, one second after it was given out.
use aisle_signals.Common.{◌≡◌, refl, ◌<◌, true, false, none, some, arith}
use aisle_signals.Common.Int.{pos}
use aisle_signals.Common.Tables.{first, has_row, update_where, delete_where}
use aisle_signals.Outbox.Model.{observation, Result, ok, err, stamp, Item, Db}
use aisle_signals.Outbox.Rows.{
  find_binding, check_binding, find_item, expire_items, withdraw_where, withdraw_item, decode,
  decode_bytes, fits_row,
}
use aisle_signals.Observation.Map.{valid_payload, is_source_label}
use aisle_signals.Outbox.Leases.{
  claim, claim_due, take_lease, foremost, reserve, retry, find_lease, settle_capacity,
}
use aisle_signals.Outbox.Tests.{vault, nonce, scope, ref, db, item, claimed, given, at_six}
use aisle_signals.Delivery.Authority.{
  DeliveryPolicy, valid_policy, Context, Provider, available, row_of, source_reason,
}
use aisle_signals.Delivery.Settlement.{
  failure, DeliveryResult, settle, settle_row, settle_failure, delay_of, plain, fenced, maximum,
}
use aisle_signals.Delivery.Settled.{is_taken, is_retrying}
use aisle_signals.Delivery.Standing.{IsStanding, taken-IsStanding}
use aisle_signals.Delivery.Retried.{IsPutBack, failure_retried}

abbrev policy : DeliveryPolicy
policy = record {
  interval_ms = 2000;
  request_ms = 8000;
  lease_seconds = 20;
  recheck_ms = 250;
  retry_base_seconds = 5;
  max_retry_seconds = 300;
  observation_attempts = 8;
  total_attempts = 16;
  reconciliation_rows = 50;
}

abbrev context : Context
context = record {
  scope = scope;
  binding = ref;
  target = record {
    origin = "origin";
    organisation_id = "o";
    pharmacy_id = "p";
    device_id = "d";
    credential_handle = "h";
  };
  credential = "secret";
}

abbrev provider : Provider
provider = record {
  delivery_context = λ d. some context;
  access_revoked = λ c n d. d;
  pause_error = λ c e n d. d;
  source_state = λ d c k i. available;
  nonce = nonce;
  instant_of = λ t. pos 9000000;
}

abbrev result_or : DeliveryResult × Db → Result (DeliveryResult × Db) → DeliveryResult × Db
result_or r (ok s) = s
result_or r (err e) = r

abbrev failed : DeliveryResult × Db
failed =
    result_or (plain fenced none, db)
      (settle vault provider policy false context given (failure "NETWORK_UNAVAILABLE" none)
        (pos 6000000) claimed.1)

failed_run :
    settle vault provider policy false context given
      (failure "NETWORK_UNAVAILABLE" none)
      (pos 6000000)
      claimed.1
    ≡ ok failed
unfolding settle settle_row settle_failure row_of source_reason delay_of retry find_lease find_item
    find_binding check_binding first has_row update_where delete_where settle_capacity stamp claim
    claim_due take_lease foremost reserve expire_items withdraw_where withdraw_item decode
    decode_bytes fits_row valid_payload is_source_label
failed_run = refl

failed_taken : is_taken failed.0.status ≡ true
unfolding settle settle_row settle_failure row_of source_reason delay_of retry find_lease find_item
    find_binding check_binding first has_row update_where delete_where settle_capacity stamp claim
    claim_due take_lease foremost reserve expire_items withdraw_where withdraw_item decode
    decode_bytes fits_row valid_payload is_source_label
failed_taken = refl

taken-IsStanding_example :
    (row : Item) × IsStanding provider policy context given (pos 6000000) claimed.1 failed.0 row
taken-IsStanding_example =
    taken-IsStanding vault provider policy false context given (failure "NETWORK_UNAVAILABLE" none)
      (pos 6000000) claimed.1 failed.1 failed.0 failed_run failed_taken

abbrev lease_or : Item × Db → Result (Item × Db) → Item × Db
lease_or r (ok s) = s
lease_or r (err e) = r

abbrev lease : Item × Db
lease = lease_or (item, db) (find_lease vault scope ref given 6000 claimed.1)

lease_found : find_lease vault scope ref given 6000 claimed.1 ≡ ok lease
unfolding find_lease find_item find_binding check_binding first update_where delete_where claim
    claim_due take_lease foremost reserve expire_items withdraw_where withdraw_item decode
    decode_bytes fits_row valid_payload is_source_label stamp
lease_found = refl

policy_valid : valid_policy policy ≡ true
unfolding valid_policy
policy_valid = refl

is_observation : given.operation ≡ observation
unfolding claim claim_due take_lease foremost reserve find_binding check_binding first update_where
    expire_items withdraw_where withdraw_item decode decode_bytes fits_row valid_payload
    is_source_label stamp
is_observation = refl

once_attempted : lease.0.attempts ≡ 1
unfolding find_lease find_item find_binding check_binding first update_where delete_where claim
    claim_due take_lease foremost reserve expire_items withdraw_where withdraw_item decode
    decode_bytes fits_row valid_payload is_source_label stamp
once_attempted = refl

few_attempts : lease.0.attempts < maximum policy given.operation
few_attempts = rw (is_observation, once_attempted) (omega arith)

failure_retried_example :
    (d : Db) × ((r : DeliveryResult) × ((j : Item) × ((settle_failure vault provider policy context
              given lease.0 "NETWORK_UNAVAILABLE"
              (some 60)
              (pos 6000000)
              claimed.1
            ≡ ok (r, d))
          × ((is_retrying r.status ≡ true)
              × ((find_item vault context.binding given.id d ≡ ok j) × IsPutBack 6000 r j)))))
failure_retried_example =
    failure_retried vault provider policy context given lease.0 "NETWORK_UNAVAILABLE" (some 60) 6000
      (pos 6000000) claimed.1 lease.1 policy_valid refl (refl, refl) few_attempts at_six lease_found
