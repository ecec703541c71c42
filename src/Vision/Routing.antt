-- ===== src/Vision/Routing.antt =====
-- When an answer of the model asks for attention, and that it never leaves the laptop.
use mathlib.Core.Path.{subst}
use aisle_signals.Common.{
  ◌≡◌, ◌≢◌, ◌↔◌, ℕ, Bool, true, false, Option, none, some, String, arith, if◌then◌else◌, ◌||◌, ap,
}
use aisle_signals.Observation.Model.{
  ObservationScope, BindingSnapshot, AdmissionSnapshot, MappedObservation, InteractionResult,
  SourceItem, Formats, Instant,
}
use aisle_signals.Observation.Map.{mapped, map_observation}
use aisle_signals.Observation.Map.Sound.{mapped_interaction_eligible}
use aisle_signals.Vision.{
  has_repeats, has_outside, has_disorder, possible_concealment, ModelObservation, PublicObservation,
  strong_rule_match, public_observation, publish, published_action, strength, support, attention,
  action_text,
}

-- The routing of an answer to the staff for review.
abbrev Routed : PublicObservation → Type 0
Routed p = (p.observation.action ≡ possible_concealment) × (p.evidence_strength ≡ strong_rule_match)

publish-attention : (o : ModelObservation) → attention o ≡ true → Routed (publish o)
unfolding published_action strength support
publish-attention o h = ground arith

publish-Routed : (o : ModelObservation) → Routed (publish o) → attention o ≡ true
unfolding published_action strength support
publish-Routed o h = ground arith

accepted :
    (refused : Bool) (x y : PublicObservation) → (if refused then none else some x) ≡ some y → x ≡ y
accepted true x y h = absurd (cc h)
accepted false x y h = cc h

public_observation-publish :
    (o : ModelObservation) (count : ℕ) (p : PublicObservation)
    → public_observation o count ≡ some p
    → publish o ≡ p
unfolding public_observation
public_observation-publish o count p h =
    accepted
      (has_repeats o.evidence_frame_indices
        || has_outside count o.evidence_frame_indices
        || has_disorder o.evidence_frame_indices)
      (publish o) p h

-- An answer that is accepted asks for the attention of the staff exactly when the action that is
-- published is still a possible concealment and every rule of visibility and sequence is met.
pub attention-Routed :
    (o : ModelObservation) (count : ℕ) (p : PublicObservation)
    → public_observation o count ≡ some p
    → (p.review_attention_eligible ≡ true) ↔ Routed p
attention-Routed o count p h =
    subst (λ q. (q.review_attention_eligible ≡ true) ↔ Routed q)
      (public_observation-publish o count p h) (publish-attention o, publish-Routed o)

-- What the store keeps of an answer, as the mapping for the cloud reads it.
abbrev pub kept_result : PublicObservation → InteractionResult
kept_result p = record {
  action = some (action_text p.observation.action);
  alarm_eligible = some p.alarm_eligible;
}

-- An interaction whose result is an answer of the model is never mapped for the cloud, whatever
-- else the item, the binding and the admission say.
pub answer_stays_local :
    (o : ModelObservation) (count : ℕ) (p : PublicObservation) (formats : Formats) (mode : String)
    (scope : ObservationScope) (binding : Option BindingSnapshot)
    (admission : Option AdmissionSnapshot) (item : SourceItem) (now : Instant)
    (m : MappedObservation)
    → public_observation o count ≡ some p
    → item.result ≡ some (kept_result p)
    → map_observation formats mode scope binding admission "interaction" item now ≢ mapped m
answer_stays_local o count p formats mode scope binding admission item now m h e mapping =
    let eligible =
      mapped_interaction_eligible formats mode scope binding admission item now m mapping in
    let (r, kept, alarm) = eligible.1 in
    let silent =
      ap (λ (q : PublicObservation). q.alarm_eligible) (public_observation-publish o count p h) in
    ground (arith, kept, alarm, silent, e)
