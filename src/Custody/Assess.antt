-- ===== src/Custody/Assess.antt =====
-- `ProductCustodyEngine._assessment`: the decision that a record supports.
use aisle_signals.Common.{
  Bool, true, false, ◌&&◌, ◌||◌, not, Option, none, some, List, [], ◌∷◌, ◌++◌, String, str_eq,
  if◌then◌else◌,
}
use aisle_signals.Common.Int.{ℤ, pos, ltb_ℤ, leb_ℤ, max_ℤ, ◌+ℤ◌}
use aisle_signals.Custody.Model.{
  person_confirmed, shelf_departure, hand_custody, return_to_shelf, concealment_transition,
  checkout_completed, exit_crossed, custody_continuous_to_exit, checkout_path_observed,
  no_matched_checkout_event, in_hand, in_basket, concealed_observed, purchased, returned,
  unaccounted, Decision, observing, normal_resolved, review_required, high_attention, abstain,
  state_eq, CustodyObservation, CustodyAssessment, Reason, Record,
}
use aisle_signals.Custody.Steps.{has_reason, time_of}
use aisle_signals.Custody.Covers.{covers}

-- The first chain of tests: the decision before coverage and the full chain are looked at.
unfoldable pub first_decision : Bool → Record → Decision
first_decision degraded r =
    if degraded
    then abstain
    else if r.compromised
    then abstain
    else if state_eq r.state returned || state_eq r.state purchased
    then normal_resolved
    else if state_eq r.state in_basket
    then observing
    else if state_eq r.state concealed_observed
    then review_required
    else if r.facts exit_crossed && (state_eq r.state in_hand || state_eq r.state unaccounted)
    then review_required
    else observing

-- The stages of the core chain were seen in their order.
unfoldable pub ordered_chain : Record → Bool
ordered_chain r =
    ltb_ℤ (time_of r person_confirmed) (time_of r shelf_departure)
    && ltb_ℤ (time_of r shelf_departure) (time_of r hand_custody)
    && ltb_ℤ (time_of r hand_custody) (time_of r concealment_transition)
    && ltb_ℤ (time_of r concealment_transition) (time_of r exit_crossed)

-- `required_facts.issubset(facts)`
unfoldable pub required_seen : Record → Bool
required_seen r =
    r.facts person_confirmed
    && r.facts shelf_departure
    && r.facts hand_custody
    && r.facts concealment_transition
    && r.facts exit_crossed
    && r.facts custody_continuous_to_exit
    && r.facts checkout_path_observed
    && r.facts no_matched_checkout_event

unfoldable pub coverage_complete : Record → Bool
coverage_complete r =
    leb_ℤ (pos 0) (time_of r shelf_departure)
    && leb_ℤ (time_of r shelf_departure) (time_of r exit_crossed)
    && covers (r.coverage custody_continuous_to_exit) (time_of r shelf_departure)
        (time_of r exit_crossed)
    && covers (r.coverage checkout_path_observed) (time_of r shelf_departure)
        (time_of r exit_crossed)

-- `record.source_health.get("pos_reconciliation") == "healthy"`
abbrev pub is_healthy : Option String → Bool
is_healthy none = false
is_healthy (some health) = str_eq health "healthy"

unfoldable pub pos_finalized : ℤ → Record → Bool
pos_finalized grace r =
    is_healthy (r.source_health "pos_reconciliation")
    && leb_ℤ (time_of r exit_crossed) r.finalized_watermark_ms
    && leb_ℤ (pos 0) (time_of r exit_crossed)
    && leb_ℤ (time_of r exit_crossed +ℤ grace) (time_of r no_matched_checkout_event)

-- A tracker declared coverage up to an exit, and it has a gap.
unfoldable pub coverage_gap : Record → Bool
coverage_gap r =
    r.facts exit_crossed
    && (r.facts custody_continuous_to_exit || r.facts checkout_path_observed)
    && not (coverage_complete r)

abbrev resolved_at : Record → ℤ
resolved_at r = max_ℤ (time_of r checkout_completed) (time_of r return_to_shelf)

-- The test that raises a decision to `HIGH_ATTENTION`.
unfoldable pub chain_complete : Bool → ℤ → Record → Bool
chain_complete degraded grace r =
    not r.compromised
    && not degraded
    && required_seen r
    && ordered_chain r
    && coverage_complete r
    && pos_finalized grace r
    && ltb_ℤ (resolved_at r) (time_of r shelf_departure)

unfoldable pub decide : Bool → ℤ → Record → Decision
decide degraded grace r =
    if chain_complete degraded grace r
    then high_attention
    else if coverage_gap r
    then abstain
    else first_decision degraded r

-- `tuple(dict.fromkeys(reasons))` keeps the first of equal reasons; `seen` are those before.
unfoldable pub distinct : List Reason → List Reason → List Reason
distinct seen [] = []
distinct seen (x ∷ xs) =
    let rest = distinct seen xs in
    let rest' = distinct (x ∷ seen) xs in if has_reason x seen then rest else x ∷ rest'

abbrev closing_reasons : Decision → List Reason
closing_reasons observing = Reason.chain_incomplete ∷ []
closing_reasons normal_resolved = Reason.resolved ∷ []
closing_reasons review_required = Reason.review_warranted ∷ []
closing_reasons high_attention = Reason.all_stages_agree ∷ []
closing_reasons abstain = []

unfoldable pub reasons_for : Bool → ℤ → Record → List Reason
unfolding has_reason distinct
reasons_for degraded grace r = distinct [] (
    r.reasons
    ++ (if degraded then Reason.capacity_exceeded ∷ [] else [])
    ++ (if coverage_gap r then Reason.coverage_incomplete ∷ [] else [])
    ++ closing_reasons (decide degraded grace r))

abbrev pub is_high_attention : Decision → Bool
is_high_attention high_attention = true
is_high_attention _ = false

unfoldable pub assessment : Bool → ℤ → CustodyObservation → Record → CustodyAssessment
unfolding reasons_for
assessment degraded grace o r = record {
  visit_id = o.visit_id;
  episode_id = o.episode_id;
  product_token = o.product_token;
  state = r.state;
  decision = decide degraded grace r;
  alarm_eligible = is_high_attention (decide degraded grace r) && not degraded;
  system_degraded = degraded;
  reasons = reasons_for degraded grace r;
  timeline = r.timeline;
}
