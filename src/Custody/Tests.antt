-- ===== src/Custody/Tests.antt =====
-- Runs of the custody engine on concrete observations.
use aisle_signals.Common.{
  ℕ, ◌≡◌, refl, true, false, Option, none, some, List, [], ◌∷◌, ◌++◌, String, Any, ◌↔◌, arith,
}
use aisle_signals.Common.Int.{ℤ, pos, ◌+ℤ◌, ◌<ℤ◌, ◌≤ℤ◌}
use aisle_signals.Custody.Model.{
  Fact, person_confirmed, shelf_departure, hand_custody, concealment_transition, exit_crossed,
  custody_continuous_to_exit, checkout_path_observed, no_matched_checkout_event, CustodyObservation,
  CustodyAssessment, Record, fresh_record, valid, abstain, on_shelf, unaccounted,
}
use aisle_signals.Custody.Steps.{accept}
use aisle_signals.Custody.Steps.Moves.{MoveOrStay, accept_moves}
use aisle_signals.Custody.Covers.{covers}
use aisle_signals.Custody.Covers.Exact.{Within, covers_exact}
use aisle_signals.Custody.Assess.{
  assessment, decide, first_decision, chain_complete, required_seen, ordered_chain,
  coverage_complete, pos_finalized, coverage_gap,
}
use aisle_signals.Custody.Engine.{ProductCustodyEngine, create, key_of, find, observe, observe_many}
use aisle_signals.Custody.Engine.Runs.{IsGiven, observe_many_alarm}
use aisle_signals.Custody.Engine.Alarm.{AlarmEvidence}
use aisle_signals.Custody.Engine.Bounds.{IsBounded, observe-IsBounded}
use aisle_signals.Custody.Engine.Sticky.{Abstains, degraded-Abstains, compromised-Abstains}
use aisle_signals.Custody.Engine.Replay.{observe_again}
use aisle_signals.Custody.Window.{Window, RestsOn, sampled_window_interpretation, window_rests}

abbrev seen : String → Fact → ℕ → CustodyObservation
seen id f at = record {
  event_id = id;
  visit_id = "visit";
  episode_id = "episode";
  product_token = "product";
  camera_id = "camera";
  at_ms = pos at;
  fact = f;
  visibility = "clear";
  direct = true;
  association = "not_applicable";
  product_linked = false;
  source_kind = "tracker";
  coverage_start_ms = none;
  coverage_end_ms = none;
  source_health = "unknown";
  finalized_watermark_ms = none;
  evidence_ref = "";
}

abbrev spanning : String → Fact → ℕ → CustodyObservation
spanning id f at = record (seen id f at) {
  coverage_start_ms = some (pos 200);
  coverage_end_ms = some (pos 500);
}

abbrev reconciled : CustodyObservation
reconciled = record (seen "8" no_matched_checkout_event 5600) {
  product_linked = true;
  source_kind = "pos_reconciliation";
  source_health = "healthy";
  finalized_watermark_ms = some (pos 500);
}

abbrev chain : List CustodyObservation
chain =
    seen "1" person_confirmed 100
    ∷ seen "2" shelf_departure 200
    ∷ seen "3" hand_custody 300
    ∷ seen "4" concealment_transition 400
    ∷ seen "5" exit_crossed 500
    ∷ spanning "6" custody_continuous_to_exit 501
    ∷ spanning "7" checkout_path_observed 502
    ∷ []

abbrev small : ProductCustodyEngine
small = record {
  max_records = pos 2;
  max_episode_ms = pos 60000;
  pos_grace_ms = pos 5000;
  records = [];
  capacity_degraded = false;
}

abbrev full_chain : List CustodyObservation
full_chain = chain ++ reconciled ∷ []

create-small : create (pos 2) (pos 60000) (pos 5000) ≡ some small
unfolding create
create-small = refl

abbrev no_assessment : CustodyAssessment
no_assessment = record {
  visit_id = "";
  episode_id = "";
  product_token = "";
  state = unaccounted;
  decision = abstain;
  alarm_eligible = false;
  system_degraded = false;
  reasons = [];
  timeline = [];
}

abbrev or_none : Option CustodyAssessment → CustodyAssessment
or_none none = no_assessment
or_none (some a) = a

abbrev ran : ProductCustodyEngine × Option CustodyAssessment
ran = observe_many small full_chain

full_chain_runs : observe_many small full_chain ≡ (ran.0, some (or_none ran.1))
unfolding observe_many observe valid assessment accept decide first_decision chain_complete
    required_seen ordered_chain coverage_complete pos_finalized coverage_gap covers ◌+ℤ◌
full_chain_runs = refl

full_chain_alarms : (or_none ran.1).alarm_eligible ≡ true
unfolding observe_many observe valid assessment accept decide first_decision chain_complete
    required_seen ordered_chain coverage_complete pos_finalized coverage_gap covers ◌+ℤ◌
full_chain_alarms = refl

observe_many_alarm_example :
    AlarmEvidence (IsGiven full_chain) ("visit", "episode", "product") (pos 5000)
unfolding observe_many observe valid assessment accept decide first_decision chain_complete
    required_seen ordered_chain coverage_complete pos_finalized coverage_gap covers ◌+ℤ◌
observe_many_alarm_example =
    observe_many_alarm (pos 2) (pos 60000) (pos 5000) small full_chain ran.0 (or_none ran.1)
      create-small full_chain_runs full_chain_alarms

covers_exact_example :
    (covers ((pos 5, pos 9) ∷ (pos 0, pos 5) ∷ []) (pos 0) (pos 9) ≡ true)
    ↔ ((t : ℤ) → pos 0 ≤ℤ t → t <ℤ pos 9 → Any (Within t) ((pos 5, pos 9) ∷ (pos 0, pos 5) ∷ []))
covers_exact_example =
    covers_exact ((pos 5, pos 9) ∷ (pos 0, pos 5) ∷ []) (pos 0) (pos 9) (omega arith)

-- Adjacent milliseconds leave no gap, and a missing one does.
covers_runs :
    (covers ((pos 5, pos 9) ∷ (pos 0, pos 5) ∷ []) (pos 0) (pos 9) ≡ true)
    × (covers ((pos 6, pos 9) ∷ (pos 0, pos 5) ∷ []) (pos 0) (pos 9) ≡ false)
unfolding covers
covers_runs = (refl, refl)

abbrev departure : CustodyObservation
departure = seen "2" shelf_departure 200

departure_taken : (accept (pos 60000) (pos 5000) departure fresh_record).0.compromised ≡ false
unfolding accept
departure_taken = refl

accept_moves_example :
    MoveOrStay on_shelf shelf_departure
      (accept (pos 60000) (pos 5000) departure fresh_record).0.state
accept_moves_example = accept_moves (pos 60000) (pos 5000) departure fresh_record departure_taken

abbrev or_small :
    Option (ProductCustodyEngine × CustodyAssessment) → ProductCustodyEngine × CustodyAssessment
or_small none = (small, no_assessment)
or_small (some x) = x

abbrev after : ProductCustodyEngine → CustodyObservation → ProductCustodyEngine × CustodyAssessment
after e o = or_small (observe e o)

small-IsBounded : IsBounded small
small-IsBounded = record { positive = omega arith; few = omega arith; tidy = tt }

after_departure :
    observe small departure ≡ some ((after small departure).0, (after small departure).1)
unfolding observe valid
after_departure = refl

observe-IsBounded_example : IsBounded (after small departure).0
observe-IsBounded_example =
    observe-IsBounded small departure (after small departure).0 (after small departure).1
      small-IsBounded after_departure

observe_again_example :
    observe (after small departure).0 departure
    ≡ some ((after small departure).0, (after small departure).1)
observe_again_example =
    observe_again small departure (after small departure).0 (after small departure).1
      small-IsBounded after_departure

abbrev worn : ProductCustodyEngine
worn = record small { capacity_degraded = true }

after-worn : observe worn departure ≡ some ((after worn departure).0, (after worn departure).1)
unfolding observe valid
after-worn = refl

degraded-Abstains_example :
    ((after worn departure).0.capacity_degraded ≡ true) × Abstains (after worn departure).1
degraded-Abstains_example =
    degraded-Abstains worn departure (after worn departure).0 (after worn departure).1 refl
      after-worn

abbrev spoiled : Record
spoiled = record fresh_record { compromised = true }

abbrev spoiled_engine : ProductCustodyEngine
spoiled_engine = record small { records = (key_of departure, spoiled) ∷ [] }

spoiled_found : find (key_of departure) spoiled_engine.records ≡ some spoiled
unfolding find
spoiled_found = refl

after_spoiled :
    observe spoiled_engine departure
    ≡ some ((after spoiled_engine departure).0, (after spoiled_engine departure).1)
unfolding observe valid
after_spoiled = refl

compromised-Abstains_example :
    ((r' : Record) × (find (key_of departure) (after spoiled_engine departure).0.records ≡ some r')
      × (r'.compromised ≡ true))
    × Abstains (after spoiled_engine departure).1
compromised-Abstains_example =
    compromised-Abstains spoiled_engine departure (after spoiled_engine departure).0
      (after spoiled_engine departure).1 spoiled spoiled_found refl after_spoiled

abbrev concealment_window : Window
concealment_window = record {
  action = "POSSIBLE_CONCEALMENT";
  visibility = "clear";
  person_visible = true;
  product_visible = true;
  sequence_observed = true;
  evidence_frame_indices = 0 ∷ 2 ∷ [];
}

window_rests_example : RestsOn concealment_window (sampled_window_interpretation concealment_window)
window_rests_example = window_rests concealment_window
