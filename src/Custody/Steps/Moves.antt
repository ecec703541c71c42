-- ===== src/Custody/Steps/Moves.antt =====
-- The life of a product in an uncompromised record.
use aisle_signals.Common.{◌≡◌, ◌∙◌, refl, ◌⊎◌, inr, Bool, true, false, arith}
use mathlib.Core.Path.{subst}
use aisle_signals.Common.Int.{ℤ}
use aisle_signals.Custody.Model.{
  Fact, shelf_departure, hand_custody, return_to_shelf, place_in_basket, concealment_transition,
  checkout_completed, exit_crossed, CustodyState, on_shelf, in_hand, in_basket, concealed_observed,
  purchased, returned, unaccounted, CustodyObservation, Record,
}
use aisle_signals.Custody.Steps.{note, timeline_step, drop_oldest, move_step, check_step, accept}

-- The moves that a product may make, each with the fact that reports it.
pub data Move : CustodyState → Fact → CustodyState → Type 0 where
  depart : Move on_shelf shelf_departure unaccounted
  pick_up : Move unaccounted hand_custody in_hand
  put_back : Move in_hand return_to_shelf returned
  place : Move in_hand place_in_basket in_basket
  conceal : Move in_hand concealment_transition concealed_observed
  pay_held : Move in_hand checkout_completed purchased
  pay_basket : Move in_basket checkout_completed purchased
  pay_concealed : Move concealed_observed checkout_completed purchased

timeline_step_state : (o : CustodyObservation) (r : Record) → (timeline_step o r).0.state ≡ r.state
unfolding timeline_step drop_oldest
timeline_step_state o r = ground arith

note_state :
    (longest : ℤ) (o : CustodyObservation) (r : Record) → (note longest o r).state ≡ r.state
unfolding note
note_state longest o r = refl

check_step_state :
    (grace : ℤ) (f : Fact) (o : CustodyObservation) (r : Record)
    → (check_step grace f o r).state ≡ r.state
unfolding check_step
check_step_state grace exit_crossed o r = refl
check_step_state grace _ o r = refl

check_step_keeps :
    (grace : ℤ) (f : Fact) (o : CustodyObservation) (r : Record)
    → (check_step grace f o r).compromised ≡ false
    → r.compromised ≡ false
unfolding check_step
check_step_keeps grace exit_crossed o r h = ground arith
check_step_keeps grace _ o r h = ground arith

ruleset moves = (depart, pick_up, put_back, place, conceal, pay_held, pay_basket, pay_concealed)

abbrev pub is_moving : Fact → Bool
is_moving shelf_departure = true
is_moving hand_custody = true
is_moving return_to_shelf = true
is_moving place_in_basket = true
is_moving concealment_transition = true
is_moving checkout_completed = true
is_moving _ = false

-- A moving fact makes its move, and any other leaves the state.
abbrev pub MoveOrStay : CustodyState → Fact → CustodyState → Type 0
MoveOrStay s f t = Move s f t ⊎ ((is_moving f ≡ false) × (t ≡ s))

move_step_move :
    (f : Fact) (o : CustodyObservation) (r : Record)
    → (move_step f o r).compromised ≡ false
    → MoveOrStay r.state f (move_step f o r).state
unfolding move_step
move_step_move shelf_departure o r h = grind (arith, moves)
move_step_move hand_custody o r h = grind (arith, moves)
move_step_move return_to_shelf o r h = grind (arith, moves)
move_step_move place_in_basket o r h = grind (arith, moves)
move_step_move concealment_transition o r h = grind (arith, moves)
move_step_move checkout_completed o r h = grind (arith, moves)
move_step_move _ o r h = inr (refl, refl)

-- A record that stays uncompromised has made the move of the observed fact, along the life of a
-- product: off the shelf, into the hand, and from there back, into the basket, concealed or paid
-- for. A fact that moves nothing left the state as it was.
pub accept_moves :
    (longest grace : ℤ) (o : CustodyObservation) (r : Record)
    → (accept longest grace o r).0.compromised ≡ false
    → MoveOrStay r.state o.fact (accept longest grace o r).0.state
unfolding accept
accept_moves longest grace o r h =
    let noted = note longest o r in
    let timed = (timeline_step o noted).0 in
    let moved = move_step o.fact o timed in
    rw (check_step_state grace o.fact o moved) (
      subst (λ s. MoveOrStay s o.fact moved.state)
        (timeline_step_state o noted ∙ note_state longest o r)
        (move_step_move o.fact o timed (check_step_keeps grace o.fact o moved h)))
