-- ===== src/Vision.antt =====
-- services/api/interaction_vision.py: the frames that a model sees, and what is made of its answer.
pub mod Frames
pub mod Routing
mod Tests
use aisle_signals.Common.{
  ℕ, Bool, true, false, ◌&&◌, ◌||◌, not, Option, none, some, List, [], ◌∷◌, String, leb, ◌==◌,
  length, map, if◌then◌else◌, ◌+◌,
}
use aisle_signals.Common.Int.{ℤ, pos, negsuc, pos_part, ltb_ℤ, leb_ℤ, eqb_ℤ}
use aisle_signals.Custody.Window.{Window, Interpretation, sampled_window_interpretation}

pub data Action : Type 0 where
  take_product return_product place_in_basket possible_concealment : Action
  normal_shopping unclear : Action

pub data Visibility : Type 0 where
  clear partial poor : Visibility

abbrev pub action_text : Action → String
action_text take_product = "TAKE_PRODUCT"
action_text return_product = "RETURN_PRODUCT"
action_text place_in_basket = "PLACE_IN_BASKET"
action_text possible_concealment = "POSSIBLE_CONCEALMENT"
action_text normal_shopping = "NORMAL_SHOPPING"
action_text unclear = "UNCLEAR"

abbrev pub visibility_text : Visibility → String
visibility_text clear = "clear"
visibility_text partial = "partial"
visibility_text poor = "poor"

abbrev pub is_clear : Visibility → Bool
is_clear clear = true
is_clear _ = false

abbrev pub is_poor : Visibility → Bool
is_poor poor = true
is_poor _ = false

abbrev pub is_concealment : Action → Bool
is_concealment possible_concealment = true
is_concealment _ = false

-- The actions that move a product.
abbrev pub is_transition : Action → Bool
is_transition normal_shopping = false
is_transition unclear = false
is_transition _ = true

-- `ModelObservation`
pub record ModelObservation : Type 0 where
  pub action : Action
  pub visibility : Visibility
  pub person_visible : Bool
  pub product_visible : Bool
  pub sequence_observed : Bool
  pub evidence_frame_indices : List ℤ

pub data Strength : Type 0 where
  strong_rule_match partial_rule_match insufficient_rule_match : Strength

-- What `public_observation` returns, without the texts for display.
pub record PublicObservation : Type 0 where
  pub observation : ModelObservation
  pub alarm_eligible : Bool
  pub review_attention_eligible : Bool
  pub evidence_strength : Strength
  pub interpretation : Interpretation

abbrev pub member : ℤ → List ℤ → Bool
member i [] = false
member i (j ∷ js) = eqb_ℤ i j || member i js

-- `len(set(indices)) != len(indices)`
unfoldable pub has_repeats : List ℤ → Bool
has_repeats [] = false
has_repeats (i ∷ is) = member i is || has_repeats is

-- `any(i < 0 or i >= count for i in indices)`
unfoldable pub has_outside : ℕ → List ℤ → Bool
has_outside count [] = false
has_outside count (i ∷ is) = ltb_ℤ i (pos 0) || leb_ℤ (pos count) i || has_outside count is

-- `any(right <= left for left, right in zip(indices, indices[1:]))`
unfoldable pub has_disorder : List ℤ → Bool
has_disorder [] = false
has_disorder (i ∷ []) = false
has_disorder (i ∷ j ∷ is) = leb_ℤ j i || has_disorder (j ∷ is)

abbrev pub enough : ModelObservation → Bool
enough o = leb 2 (length o.evidence_frame_indices)

abbrev pub attention : ModelObservation → Bool
attention o =
    is_concealment o.action
    && is_clear o.visibility
    && o.person_visible
    && o.product_visible
    && o.sequence_observed
    && enough o

-- A transition without its evidence is unclear.
abbrev pub supported_action : ModelObservation → Action
supported_action o =
    if is_transition o.action
      && not (is_clear o.visibility && o.product_visible && o.sequence_observed && enough o)
    then unclear
    else o.action

-- The action that is published.
unfoldable pub published_action : ModelObservation → Action
published_action o =
    if is_poor o.visibility || not o.person_visible then unclear else supported_action o

abbrev pub point : Bool → ℕ
point true = 1
point false = 0

-- `supported`
unfoldable pub support : ModelObservation → ℕ
support o =
    point (is_clear o.visibility)
    + point o.person_visible
    + point o.product_visible
    + point o.sequence_observed
    + point (enough o)

unfoldable pub strength : ModelObservation → Strength
unfolding support
strength o =
    if support o == 5
    then strong_rule_match
    else if leb 3 (support o)
    then partial_rule_match
    else insufficient_rule_match

-- The window that is interpreted; its indices are not negative.
abbrev pub window_of : ModelObservation → Window
window_of o = record {
  action = action_text o.action;
  visibility = visibility_text o.visibility;
  person_visible = o.person_visible;
  product_visible = o.product_visible;
  sequence_observed = o.sequence_observed;
  evidence_frame_indices = map pos_part o.evidence_frame_indices;
}

abbrev pub publish : ModelObservation → PublicObservation
publish o =
    let seen = record o { action = published_action o } in
    record {
      observation = seen;
      alarm_eligible = false;
      review_attention_eligible = attention o;
      evidence_strength = strength o;
      interpretation = sampled_window_interpretation (window_of seen);
    }

-- `public_observation`; `none` is the `VisionError`.
unfoldable pub public_observation : ModelObservation → ℕ → Option PublicObservation
unfolding has_repeats has_outside has_disorder published_action strength
public_observation o count =
    if has_repeats o.evidence_frame_indices
      || has_outside count o.evidence_frame_indices
      || has_disorder o.evidence_frame_indices
    then none
    else some (publish o)
