-- ===== src/Custody/Window.antt =====
-- `sampled_window_interpretation`: what one sampled window of frames can establish.
use aisle_signals.Common.{
  ℕ, ◌≤◌, ◌≡◌, ◌⊎◌, Bool, true, false, ◌&&◌, ◌||◌, List, [], ◌∷◌, String, arith, leb, str_eq,
  length, if◌then◌else◌,
}
use aisle_signals.Custody.Model.{
  CustodyState, on_shelf, in_hand, in_basket, concealed_observed, returned, unaccounted, Decision,
  observing, normal_resolved, review_required, high_attention, abstain,
}

pub record Window : Type 0 where
  pub action : String
  pub visibility : String
  pub person_visible : Bool
  pub product_visible : Bool
  pub sequence_observed : Bool
  pub evidence_frame_indices : List ℕ

pub record WindowEntry : Type 0 where
  pub frame_indices : List ℕ
  pub assertion : String
  pub source : String

-- The reasons and limitations are texts for display; the model keeps what code depends on.
pub record Interpretation : Type 0 where
  pub schema_version : String
  pub decision : Decision
  pub state : CustodyState
  pub complete_custody_alarm_eligible : Bool
  pub timeline : List WindowEntry

abbrev pub supported : Window → Bool
supported w =
    str_eq w.visibility "clear"
    && w.person_visible
    && w.product_visible
    && w.sequence_observed
    && leb 2 (length w.evidence_frame_indices)

-- The chain of tests that chooses the decision and the state.
unfoldable pub verdict : Window → Decision × CustodyState
verdict w =
    if str_eq w.action "NORMAL_SHOPPING" && str_eq w.visibility "clear" && w.person_visible
    then (observing, on_shelf)
    else if str_eq w.action "RETURN_PRODUCT" && supported w
    then (normal_resolved, returned)
    else if str_eq w.action "PLACE_IN_BASKET" && supported w
    then (observing, in_basket)
    else if (str_eq w.action "TAKE_PRODUCT" || str_eq w.action "POSSIBLE_CONCEALMENT")
        && supported w
    then (review_required, if str_eq w.action "TAKE_PRODUCT" then in_hand else concealed_observed)
    else (abstain, unaccounted)

unfoldable pub sampled_window_interpretation : Window → Interpretation
unfolding verdict
sampled_window_interpretation w = record {
  schema_version = "sampled-window-v1";
  decision = (verdict w).0;
  state = (verdict w).1;
  complete_custody_alarm_eligible = false;
  timeline =
      if supported w
      then record {
        frame_indices = w.evidence_frame_indices;
        assertion = w.action;
        source = "single_local_vlm_response";
      }
        ∷ []
      else [];
}

-- What a decision on a window rests on.
pub record RestsOn (w : Window) (i : Interpretation) : Type 0 where
  pub silent : i.complete_custody_alarm_eligible ≡ false
  pub no_alarm : i.decision ≡ high_attention → ⊥
  pub review :
      i.decision ≡ review_required
      → (2 ≤ length w.evidence_frame_indices)
        × (w.sequence_observed ≡ true)
        × (str_eq w.visibility "clear" ≡ true)
        × ((str_eq w.action "TAKE_PRODUCT" ≡ true)
            ⊎ (str_eq w.action "POSSIBLE_CONCEALMENT" ≡ true))
  pub seen :
      (i.state ≡ unaccounted)
      ⊎ (i.state ≡ on_shelf)
      ⊎ (2 ≤ length w.evidence_frame_indices)
        × (w.person_visible ≡ true)
        × (w.product_visible ≡ true)

-- No window may raise the alarm; a review rests on a supported taking or concealment, and any
-- state of the product but the shelf and the unknown on at least two frames that show both the
-- person and the product.
pub window_rests : (w : Window) → RestsOn w (sampled_window_interpretation w)
unfolding sampled_window_interpretation
window_rests w = ground arith
