-- ===== src/Vision/Tests.antt =====
-- A concealment that was clearly seen, and one that was not.
use aisle_signals.Common.{◌≡◌, ◌≢◌, ◌↔◌, refl, true, some, [], ◌∷◌}
use aisle_signals.Common.Int.{pos}
use aisle_signals.Observation.Map.{mapped, map_observation}
use aisle_signals.Observation.Tests.{plain, scope, binding, admission, item, outcome, result_of}
use aisle_signals.Vision.{
  possible_concealment, clear, ModelObservation, strong_rule_match, public_observation, publish,
  has_repeats, has_outside, has_disorder,
}
use aisle_signals.Vision.Routing.{kept_result, attention-Routed, answer_stays_local}

abbrev answer : ModelObservation
answer = record {
  action = possible_concealment;
  visibility = clear;
  person_visible = true;
  product_visible = true;
  sequence_observed = true;
  evidence_frame_indices = pos 1 ∷ pos 3 ∷ [];
}

answer_accepted : public_observation answer 4 ≡ some (publish answer)
unfolding public_observation has_repeats has_outside has_disorder
answer_accepted = refl

attention-Routed_example : ((publish answer).review_attention_eligible ≡ true) ↔ (
    ((publish answer).observation.action ≡ possible_concealment)
    × ((publish answer).evidence_strength ≡ strong_rule_match))
attention-Routed_example = attention-Routed answer 4 (publish answer) answer_accepted

answer_stays_local_example :
    map_observation plain "pilot" scope
      (some binding)
      (some admission)
      "interaction"
      (record item { result = some (kept_result (publish answer)) })
      (pos 300)
    ≢ mapped (result_of outcome)
answer_stays_local_example =
    answer_stays_local answer 4 (publish answer) plain "pilot" scope (some binding) (some admission)
      (record item { result = some (kept_result (publish answer)) }) (pos 300) (result_of outcome)
      answer_accepted refl
