-- ===== src/Custody/Steps.antt =====
-- The record updates of `ProductCustodyEngine.observe` and `_transition`, one function for each
-- group of statements, in the order in which `observe` makes them.
pub mod Taken
pub mod Log
pub mod Moves
use aisle_signals.Common.{
  ℕ, ◌+◌, Bool, true, false, ◌&&◌, ◌||◌, not, Option, none, some, List, [], ◌∷◌, ◌++◌, String, ltb,
  str_eq, ◌==◌, if◌then◌else◌, length,
}
use aisle_signals.Common.Int.{ℤ, pos, negsuc, ltb_ℤ, leb_ℤ, ◌+ℤ◌}
use aisle_signals.Custody.Model.{
  Fact, person_confirmed, shelf_departure, hand_custody, return_to_shelf, place_in_basket,
  concealment_transition, checkout_completed, exit_crossed, camera_handoff,
  custody_continuous_to_exit, checkout_path_observed, no_matched_checkout_event, visibility_lost,
  camera_gap, CustodyState, on_shelf, in_hand, in_basket, concealed_observed, purchased, returned,
  unaccounted, fact_number, fact_eq, state_eq, is_empty, CustodyObservation, TimelineEntry, Reason,
  Record, explanation,
}

abbrev pub reason_number : Reason → ℕ
reason_number (Reason.explained f) = 100 + fact_number f
reason_number Reason.conflicting_duplicate = 0
reason_number Reason.time_backwards = 1
reason_number Reason.episode_too_long = 2
reason_number Reason.camera_changed = 3
reason_number Reason.handoff_same_camera = 4
reason_number Reason.handoff_not_confirmed = 5
reason_number Reason.handoff_not_tracker = 6
reason_number Reason.not_directly_visible = 7
reason_number Reason.coverage_invalid = 8
reason_number Reason.timeline_exceeded = 9
reason_number Reason.departure_not_fresh = 10
reason_number Reason.hand_without_departure = 11
reason_number Reason.return_without_hand = 12
reason_number Reason.basket_without_hand = 13
reason_number Reason.concealment_unprepared = 14
reason_number Reason.checkout_not_linked = 15
reason_number Reason.checkout_without_custody = 16
reason_number Reason.continuity_not_tracker = 17
reason_number Reason.path_not_tracker = 18
reason_number Reason.missing_checkout_not_final = 19
reason_number Reason.exit_not_tracker = 20
reason_number Reason.capacity_exceeded = 21
reason_number Reason.coverage_incomplete = 22
reason_number Reason.chain_incomplete = 23
reason_number Reason.resolved = 24
reason_number Reason.review_warranted = 25
reason_number Reason.all_stages_agree = 26

-- `reason in reasons`
unfoldable pub has_reason : Reason → List Reason → Bool
has_reason x [] = false
has_reason x (y ∷ ys) = reason_number x == reason_number y || has_reason x ys

-- `_reason`
unfoldable pub add_reason : Reason → List Reason → List Reason
unfolding has_reason
add_reason x xs = if has_reason x xs then xs else xs ++ x ∷ []

-- `record.compromised = True` and `self._reason(record, …)`, under a condition
unfoldable pub compromise_if : Bool → Reason → Record → Record
compromise_if b x r = record r {
  compromised = b || r.compromised;
  reasons = if b then add_reason x r.reasons else r.reasons;
}

-- The clock of the episode: `last_at_ms`, `started_at_ms` and, once it has started, the maximum
-- duration.
unfoldable pub clock_step : ℤ → CustodyObservation → Record → Record
unfolding compromise_if
clock_step longest o r =
    let started = not (ltb_ℤ r.started_at_ms (pos 0)) in
    compromise_if (started && ltb_ℤ (r.started_at_ms +ℤ longest) o.at_ms) Reason.episode_too_long
      (record r {
        last_at_ms = o.at_ms;
        started_at_ms = if started then r.started_at_ms else o.at_ms;
      })

-- `record.event_ids[event_id] = signature`, at a key that is not there
unfoldable pub remember_step : CustodyObservation → Record → Record
remember_step o r = record r { event_ids = r.event_ids ++ (o.event_id, o) ∷ [] }

abbrev pub is_handoff : CustodyObservation → Bool
is_handoff o = fact_eq o.fact camera_handoff

unfoldable pub handoff_step : CustodyObservation → Record → Record
unfolding compromise_if
handoff_step o r =
    let moved =
      compromise_if (is_handoff o && (is_empty r.last_camera || str_eq o.camera_id r.last_camera))
        Reason.handoff_same_camera r in
    let confirmed =
      compromise_if (is_handoff o && not (str_eq o.association "confirmed"))
        Reason.handoff_not_confirmed moved in
    compromise_if (is_handoff o && not (str_eq o.source_kind "tracker")) Reason.handoff_not_tracker
      confirmed

-- The camera of the episode may change only by a confirmed handoff of the tracker.
unfoldable pub camera_step : CustodyObservation → Record → Record
unfolding handoff_step
camera_step o r =
    let changed =
      compromise_if
        (not (is_empty r.last_camera)
          && not (str_eq o.camera_id r.last_camera)
          && not (is_handoff o))
        Reason.camera_changed r in
    let s = handoff_step o changed in record s { last_camera = o.camera_id }

unfoldable pub visibility_step : CustodyObservation → Record → Record
unfolding compromise_if
visibility_step o r =
    let seen =
      compromise_if (not o.direct || not (str_eq o.visibility "clear")) Reason.not_directly_visible
        r in
    compromise_if (fact_eq o.fact visibility_lost || fact_eq o.fact camera_gap)
      (Reason.explained o.fact) seen

-- `facts.add`, `fact_times[fact] = at_ms` and `source_health[kind] = health`
unfoldable pub fact_step : CustodyObservation → Record → Record
fact_step o r = record r {
  facts = λ f. fact_eq o.fact f || r.facts f;
  fact_times = λ f. if fact_eq o.fact f then some o.at_ms else r.fact_times f;
  source_health =
      λ kind. if str_eq o.source_kind kind then some o.source_health else r.source_health kind;
}

abbrev pub is_coverage : Fact → Bool
is_coverage f = fact_eq f custody_continuous_to_exit || fact_eq f checkout_path_observed

-- The interval that an observation declares, if both ends are there and in order.
abbrev pub declared : Option ℤ → Option ℤ → Option (ℤ × ℤ)
declared (some start) (some end) = if ltb_ℤ end start then none else some (start, end)
declared _ _ = none

abbrev pub interval_of : CustodyObservation → Option (ℤ × ℤ)
interval_of o = declared o.coverage_start_ms o.coverage_end_ms

abbrev pub push_interval : Option (ℤ × ℤ) → List (ℤ × ℤ) → List (ℤ × ℤ)
push_interval none l = l
push_interval (some i) l = l ++ i ∷ []

abbrev pub is_none : Option (ℤ × ℤ) → Bool
is_none none = true
is_none (some i) = false

unfoldable pub coverage_step : CustodyObservation → Record → Record
unfolding compromise_if
coverage_step o r =
    record (compromise_if (is_coverage o.fact && is_none (interval_of o)) Reason.coverage_invalid
      r) {
        coverage = λ f.
            if is_coverage o.fact && fact_eq o.fact f
            then push_interval (interval_of o) (r.coverage f)
            else r.coverage f;
      }

-- `finalized_watermark_ms or -1`: a watermark of 0 is falsy
abbrev pub watermark_or_minus_one : Option ℤ → ℤ
watermark_or_minus_one none = negsuc 0
watermark_or_minus_one (some v) = if leb_ℤ v (pos 0) && leb_ℤ (pos 0) v then negsuc 0 else v

unfoldable pub watermark_step : CustodyObservation → Record → Record
watermark_step o r = record r {
  finalized_watermark_ms =
      if fact_eq o.fact no_matched_checkout_event
      then watermark_or_minus_one o.finalized_watermark_ms
      else r.finalized_watermark_ms;
}

abbrev pub max_events : ℕ
max_events = 128

abbrev pub entry_of : CustodyObservation → TimelineEntry
entry_of o = record {
  event_id = o.event_id;
  at_ms = o.at_ms;
  fact = o.fact;
  camera_id = o.camera_id;
  evidence_ref = o.evidence_ref;
  explanation = explanation o.fact;
}

-- `event_ids.pop(event_id, None)`
unfoldable pub forget :
    String → List (String × CustodyObservation) → List (String × CustodyObservation)
forget k [] = []
forget k ((j, o) ∷ l) = if str_eq j k then l else (j, o) ∷ forget k l

-- `timeline.pop(0)` and what follows it
unfoldable pub drop_oldest : List TimelineEntry → Record → Record
unfolding forget
drop_oldest [] r = r
drop_oldest (e ∷ rest) r = record r {
  timeline = rest;
  event_ids = forget e.event_id r.event_ids;
  reasons = add_reason Reason.timeline_exceeded r.reasons;
}

-- The timeline grows by one entry, and loses its oldest past the bound; says if it did.
unfoldable pub timeline_step : CustodyObservation → Record → Record × Bool
timeline_step o r =
    let grown = record r { timeline = r.timeline ++ entry_of o ∷ [] } in
    if ltb max_events (length grown.timeline)
    then (drop_oldest grown.timeline grown, true)
    else (grown, false)

abbrev pub custody_active : CustodyState → Bool
custody_active s = state_eq s in_hand || state_eq s in_basket || state_eq s concealed_observed

abbrev pub time_of : Record → Fact → ℤ
time_of r f = elim (r.fact_times f) [ none ↦ negsuc 0 | some t ↦ t ]

-- What refuses a report that no checkout matched.
unfoldable pub not_final : ℤ → CustodyObservation → ℤ → Bool
not_final grace o exit_at =
    not (str_eq o.source_kind "pos_reconciliation")
    || not o.product_linked
    || not (str_eq o.source_health "healthy")
    || ltb_ℤ exit_at (pos 0)
    || ltb_ℤ o.at_ms (exit_at +ℤ grace)
    || elim o.finalized_watermark_ms [ none ↦ true | some w ↦ ltb_ℤ w exit_at ]

-- The facts by which the product changes its state, each with its tests.
unfoldable pub move_step : Fact → CustodyObservation → Record → Record
unfolding compromise_if
move_step shelf_departure o r =
    record (compromise_if (not (state_eq r.state on_shelf)) Reason.departure_not_fresh r) {
      state = unaccounted;
    }
move_step hand_custody o r =
    record (compromise_if (not (state_eq r.state unaccounted)) Reason.hand_without_departure r) {
      state = in_hand;
    }
move_step return_to_shelf o r =
    record (compromise_if (not (state_eq r.state in_hand)) Reason.return_without_hand r) {
      state = returned;
    }
move_step place_in_basket o r =
    record (compromise_if (not (state_eq r.state in_hand)) Reason.basket_without_hand r) {
      state = in_basket;
    }
move_step concealment_transition o r =
    record (compromise_if (not (state_eq r.state in_hand) || not (r.facts person_confirmed))
      Reason.concealment_unprepared r) { state = concealed_observed }
move_step checkout_completed o r =
    let linked =
      compromise_if (not o.product_linked || not (str_eq o.source_kind "pos_reconciliation"))
        Reason.checkout_not_linked r in
    record (compromise_if (not (custody_active r.state)) Reason.checkout_without_custody linked) {
      state = purchased;
    }
move_step _ o r = r

-- The facts that move nothing, each with its tests.
unfoldable pub check_step : ℤ → Fact → CustodyObservation → Record → Record
unfolding compromise_if not_final
check_step grace custody_continuous_to_exit o r =
    compromise_if
      (not (str_eq o.source_kind "tracker")
        || not (state_eq r.state in_hand || state_eq r.state concealed_observed))
      Reason.continuity_not_tracker r
check_step grace checkout_path_observed o r =
    compromise_if (not (str_eq o.source_kind "tracker")) Reason.path_not_tracker r
check_step grace no_matched_checkout_event o r =
    compromise_if (not_final grace o (time_of r exit_crossed)) Reason.missing_checkout_not_final r
check_step grace exit_crossed o r =
    compromise_if (not (str_eq o.source_kind "tracker")) Reason.exit_not_tracker r
check_step grace _ o r = r

-- `_transition`: at most one of the two does anything.
unfoldable pub transition : ℤ → CustodyObservation → Record → Record
unfolding move_step check_step
transition grace o r = check_step grace o.fact o (move_step o.fact o r)

-- What `observe` does to a record between the test of the clock and `_transition`, but for the
-- timeline.
unfoldable pub note : ℤ → CustodyObservation → Record → Record
unfolding clock_step remember_step camera_step visibility_step fact_step coverage_step
    watermark_step
note longest o r = watermark_step o (
    coverage_step o
      (fact_step o (visibility_step o (camera_step o (remember_step o (clock_step longest o r))))))

-- A new observation at a later time: the updated record, and whether the timeline overflowed.
unfoldable pub accept : ℤ → ℤ → CustodyObservation → Record → Record × Bool
unfolding note timeline_step drop_oldest transition
accept longest grace o r =
    let (timed, dropped) = timeline_step o (note longest o r) in (transition grace o timed, dropped)
