-- ===== src/Custody/Model.antt =====
-- The data of services/api/custody_engine.py: facts, states, decisions, observations, records.
use aisle_signals.Common.{
  ℕ, suc, Bool, true, false, ◌&&◌, ◌||◌, Option, none, some, List, [], ◌∷◌, String, leb, str_eq,
  ◌==◌, not,
}
use aisle_signals.Common.Int.{ℤ, pos, negsuc, leb_ℤ}

pub data Fact : Type 0 where
  person_confirmed shelf_departure hand_custody return_to_shelf place_in_basket : Fact
  concealment_transition checkout_completed exit_crossed camera_handoff : Fact
  custody_continuous_to_exit checkout_path_observed no_matched_checkout_event : Fact
  visibility_lost camera_gap : Fact

pub data CustodyState : Type 0 where
  on_shelf in_hand in_basket concealed_observed purchased returned unaccounted : CustodyState

pub data Decision : Type 0 where
  observing normal_resolved review_required high_attention abstain : Decision

-- The members of the enumerations, numbered in the order of the source.
abbrev pub fact_number : Fact → ℕ
fact_number person_confirmed = 0
fact_number shelf_departure = 1
fact_number hand_custody = 2
fact_number return_to_shelf = 3
fact_number place_in_basket = 4
fact_number concealment_transition = 5
fact_number checkout_completed = 6
fact_number exit_crossed = 7
fact_number camera_handoff = 8
fact_number custody_continuous_to_exit = 9
fact_number checkout_path_observed = 10
fact_number no_matched_checkout_event = 11
fact_number visibility_lost = 12
fact_number camera_gap = 13

abbrev pub fact_eq : Fact → Fact → Bool
fact_eq f g = fact_number f == fact_number g

abbrev pub state_number : CustodyState → ℕ
state_number on_shelf = 0
state_number in_hand = 1
state_number in_basket = 2
state_number concealed_observed = 3
state_number purchased = 4
state_number returned = 5
state_number unaccounted = 6

abbrev pub state_eq : CustodyState → CustodyState → Bool
state_eq s t = state_number s == state_number t

pub record CustodyObservation : Type 0 where
  pub event_id : String
  pub visit_id : String
  pub episode_id : String
  pub product_token : String
  pub camera_id : String
  pub at_ms : ℤ
  pub fact : Fact
  pub visibility : String
  pub direct : Bool
  pub association : String
  pub product_linked : Bool
  pub source_kind : String
  pub coverage_start_ms : Option ℤ
  pub coverage_end_ms : Option ℤ
  pub source_health : String
  pub finalized_watermark_ms : Option ℤ
  pub evidence_ref : String

-- `len`: the number of characters of a text.
abbrev pub characters : String → ℕ
characters String.[] = 0
characters (String.◌∷◌ c s) = suc (characters s)

abbrev pub is_empty : String → Bool
is_empty s = str_eq s ""

abbrev pub none_or_nonnegative : Option ℤ → Bool
none_or_nonnegative none = true
none_or_nonnegative (some v) = leb_ℤ (pos 0) v

abbrev pub fits : String → Bool
fits s = leb (characters s) 160

abbrev pub one_of : String → List String → Bool
one_of s [] = false
one_of s (w ∷ ws) = str_eq s w || one_of s ws

-- The identifiers of an observation are there.
abbrev identified : CustodyObservation → Bool
identified o =
    not (is_empty o.event_id)
    && not (is_empty o.visit_id)
    && not (is_empty o.episode_id)
    && not (is_empty o.product_token)
    && not (is_empty o.camera_id)

-- Its textual fields are words of their vocabularies.
abbrev worded : CustodyObservation → Bool
worded o =
    one_of o.visibility ("clear" ∷ "partial" ∷ "poor" ∷ [])
    && one_of o.association ("not_applicable" ∷ "confirmed" ∷ "ambiguous" ∷ [])
    && one_of o.source_kind ("vision" ∷ "tracker" ∷ "pos_reconciliation" ∷ [])
    && one_of o.source_health ("unknown" ∷ "healthy" ∷ "degraded" ∷ [])

-- Its texts have at most 160 characters.
abbrev bounded : CustodyObservation → Bool
bounded o =
    fits o.event_id
    && fits o.visit_id
    && fits o.episode_id
    && fits o.product_token
    && fits o.camera_id
    && fits o.evidence_ref
    && fits o.source_kind

-- `valid`: what is left of it once the fields have their types, which are its `isinstance` tests.
-- It has no effects, so the order of its conjuncts is free.
unfoldable pub valid : CustodyObservation → Bool
valid o =
    identified o
    && leb_ℤ (pos 0) o.at_ms
    && worded o
    && none_or_nonnegative o.coverage_start_ms
    && none_or_nonnegative o.coverage_end_ms
    && none_or_nonnegative o.finalized_watermark_ms
    && bounded o

pub record TimelineEntry : Type 0 where
  pub event_id : String
  pub at_ms : ℤ
  pub fact : Fact
  pub camera_id : String
  pub evidence_ref : String
  pub explanation : String

-- The sentences that `_reason` and `_assessment` write, one constructor for each.
pub data Reason : Type 0 where
  explained : Fact → Reason
  conflicting_duplicate time_backwards episode_too_long camera_changed : Reason
  handoff_same_camera handoff_not_confirmed handoff_not_tracker : Reason
  not_directly_visible coverage_invalid timeline_exceeded : Reason
  departure_not_fresh hand_without_departure return_without_hand : Reason
  basket_without_hand concealment_unprepared checkout_not_linked : Reason
  checkout_without_custody continuity_not_tracker path_not_tracker : Reason
  missing_checkout_not_final exit_not_tracker : Reason
  capacity_exceeded coverage_incomplete chain_incomplete : Reason
  resolved review_warranted all_stages_agree : Reason

pub record CustodyAssessment : Type 0 where
  pub visit_id : String
  pub episode_id : String
  pub product_token : String
  pub state : CustodyState
  pub decision : Decision
  pub alarm_eligible : Bool
  pub system_degraded : Bool
  pub reasons : List Reason
  pub timeline : List TimelineEntry

-- `_Record`. The dictionaries keyed by facts and by source kinds are functions; `event_ids` is a
-- list of its entries in the order of insertion, and each entry holds the whole observation.
pub record Record : Type 0 where
  pub state : CustodyState
  pub last_at_ms : ℤ
  pub started_at_ms : ℤ
  pub last_camera : String
  pub facts : Fact → Bool
  pub fact_times : Fact → Option ℤ
  pub event_ids : List (String × CustodyObservation)
  pub timeline : List TimelineEntry
  pub compromised : Bool
  pub reasons : List Reason
  pub coverage : Fact → List (ℤ × ℤ)
  pub finalized_watermark_ms : ℤ
  pub source_health : String → Option String

abbrev pub fresh_record : Record
fresh_record = record {
  state = on_shelf;
  last_at_ms = negsuc 0;
  started_at_ms = negsuc 0;
  last_camera = "";
  facts = λ _. false;
  fact_times = λ _. none;
  event_ids = [];
  timeline = [];
  compromised = false;
  reasons = [];
  coverage = λ _. [];
  finalized_watermark_ms = negsuc 0;
  source_health = λ _. none;
}

-- `_EXPLANATIONS`.
unfoldable pub explanation : Fact → String
explanation person_confirmed = "A person detector confirmed the anonymous visit track."
explanation shelf_departure = "A product-sized shelf change was directly observed."
explanation hand_custody = "The product was directly observed in the tracked person's hand."
explanation return_to_shelf = "The product was directly observed returning to a shelf."
explanation place_in_basket = "The product was directly observed entering a basket or trolley."
explanation concealment_transition =
    "The product was directly observed entering clothing or a personal bag."
explanation checkout_completed = "A completed checkout transition was observed."
explanation exit_crossed = "The anonymous visit track crossed the calibrated exit."
explanation camera_handoff =
    "A local tracker confirmed the anonymous visit handoff between cameras."
explanation custody_continuous_to_exit =
    "The local tracker reported continuous custody coverage to the exit."
explanation checkout_path_observed =
    "The calibrated route through the checkout opportunity remained observed."
explanation no_matched_checkout_event =
    "The product-linked reconciliation source reported no matching checkout event."
explanation visibility_lost = "The relevant product transition became visually unaccounted for."
explanation camera_gap = "Camera continuity was interrupted."
