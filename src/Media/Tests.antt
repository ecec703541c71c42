-- ===== src/Media/Tests.antt =====
-- A frame whose observation was received, and one that waits for a request in flight.
use aisle_signals.Common.{◌≡◌, refl, false, Option, none, some, [], ◌∷◌}
use aisle_signals.Common.Int.{pos}
use aisle_signals.Outbox.Model.{ok, ItemState}
use aisle_signals.Outbox.Rows.{first, update_where}
use aisle_signals.Outbox.Leases.{reserve}
use aisle_signals.Outbox.Tests.{
  vault, nonce, scope, ref, item, db, claimed, given, claim_runs, at_six, lease_runs, value_or,
}
use aisle_signals.Media.Model.{MediaItem, MediaDb, MediaClaim, MediaOperation, pending_manifest}
use aisle_signals.Media.Queue.{sync_parent, follow_parent}
use aisle_signals.Media.Leases.{claim, claim_due, earliest, take_lease, requeue_lapsed}
use aisle_signals.Media.Leases.Order.{IsOrdered, claim-IsOrdered, claim_waits}
use aisle_signals.Outbox.Model.{stamp}

abbrev frame : MediaItem
frame = record {
  id = "m";
  observation_item_id = "x";
  binding_id = "b";
  source_event_id = "event";
  entity_kind = "interaction";
  entity_id = "x";
  frame_index = pos 3;
  frame_sha256 = "digest";
  frame_bytes = pos 1000;
  deadline_ms = 9000;
  created_ms = 0;
  state = pending_manifest;
  attempts = 0;
  ever_attempted = false;
  next_ms = 0;
  lease_token = none;
  lease_until_ms = none;
  claim_generation = none;
  evidence_id = none;
  settled_token = none;
  terminal_ms = none;
  error_code = none;
}

abbrev received : MediaDb
received = record {
  outbox = record db { items = record item { state = ItemState.received } ∷ [] };
  media = frame ∷ [];
}

abbrev sent_frame : Option MediaClaim × MediaDb
sent_frame = value_or (none, received) (claim scope ref "m" 20 (pos 6000000) received)

abbrev claim_or : Option MediaClaim → MediaClaim
claim_or (some c) = c
claim_or none = record {
  id = "";
  binding = ref;
  token = "";
  operation = MediaOperation.manifest;
  source_event_id = "";
  entity_kind = "";
  entity_id = "";
  frame_index = pos 0;
  sha256 = "";
  byte_count = pos 0;
  evidence_id = none;
  lease_until = 0;
}

frame_runs :
    claim scope ref "m" 20 (pos 6000000) received ≡ ok (some (claim_or sent_frame.0), sent_frame.1)
unfolding claim claim_due earliest take_lease reserve first update_where requeue_lapsed sync_parent
    follow_parent stamp
frame_runs = refl

claim-IsOrdered_example : IsOrdered ref 6000 received (claim_or sent_frame.0)
claim-IsOrdered_example =
    claim-IsOrdered scope ref "m" 20 6000 (pos 6000000) received sent_frame.1
      (claim_or sent_frame.0) at_six frame_runs

abbrev held : Option MediaClaim × MediaDb
held =
    value_or (none, received)
      (claim scope ref "m" 20 (pos 6000000) (record { outbox = claimed.1; media = frame ∷ [] }))

held_runs :
    claim scope ref "m" 20 (pos 6000000) (record { outbox = claimed.1; media = frame ∷ [] })
    ≡ ok held
unfolding claim claim_due earliest take_lease reserve first update_where requeue_lapsed sync_parent
    follow_parent stamp aisle_signals.Outbox.Leases.claim aisle_signals.Outbox.Rows.find_binding
    aisle_signals.Outbox.Rows.check_binding aisle_signals.Outbox.Rows.expire_items
    aisle_signals.Outbox.Leases.claim_due aisle_signals.Outbox.Leases.take_lease
    aisle_signals.Outbox.Rows.decode aisle_signals.Outbox.Rows.fits_row
    aisle_signals.Observation.Map.valid_payload
held_runs = refl

claim_waits_example : held.0 ≡ none
claim_waits_example =
    claim_waits vault nonce scope scope ref ref "t" "m" 15 20 6000 (pos 5000000) (pos 6000000) db
      claimed.1 (frame ∷ []) given held refl claim_runs at_six lease_runs held_runs
