-- ===== src/Custody/Engine/Alarm.antt =====
-- An alarm rests on a complete, ordered and gapless chain of trusted observations.
use aisle_signals.Common.{
  ◌≡◌, inl, inr, refl, ap, ◌∙◌, Bool, true, false, ◌||◌, Option, none, some, List, [], ◌∷◌, arith,
  Any, All,
}
use mathlib.Core.Path.{subst}
use aisle_signals.Common.Int.{ℤ, ◌≤ℤ◌, ◌<ℤ◌, ◌+ℤ◌, leb_ℤ, ltb_ℤ, ltb_ℤ→lt, leb_ℤ→le}
use aisle_signals.Custody.Model.{
  Fact, person_confirmed, shelf_departure, hand_custody, concealment_transition, exit_crossed,
  custody_continuous_to_exit, checkout_path_observed, no_matched_checkout_event, CustodyObservation,
  CustodyAssessment, Record, fresh_record,
}
use aisle_signals.Custody.Steps.{time_of, interval_of}
use aisle_signals.Custody.Covers.{covers}
use aisle_signals.Custody.Covers.Exact.{Within, covers_sound}
use aisle_signals.Custody.Assess.{
  first_decision, ordered_chain, required_seen, coverage_complete, pos_finalized, chain_complete,
  decide, assessment, is_high_attention,
}
use aisle_signals.Custody.Engine.{
  Key, key_of, ProductCustodyEngine, find, make_room, updated, observe_record, admit, observe,
}
use aisle_signals.Custody.Engine.History.{
  IsWitness, IsJustified, AllJustified, observe_record-IsJustified, find-IsJustified,
  make_room-AllJustified, fresh_record-IsJustified, observe-admit,
}

-- The chain of observations among those of `P` that justifies an alarm for `k`: a person, a shelf
-- departure, the hand, a concealment and an exit in strict order of time; an observed custody and
-- an observed checkout path at each millisecond from the departure to the exit; and a
-- reconciliation without a checkout, no earlier than the grace period after the exit.
pub record AlarmEvidence (P : CustodyObservation → Type 0) (k : Key) (grace : ℤ) : Type 0 where
  pub person : CustodyObservation
  pub departure : CustodyObservation
  pub hand : CustodyObservation
  pub concealment : CustodyObservation
  pub exit : CustodyObservation
  pub reconciliation : CustodyObservation
  pub person_seen : IsWitness P k person_confirmed person
  pub departure_seen : IsWitness P k shelf_departure departure
  pub hand_seen : IsWitness P k hand_custody hand
  pub concealment_seen : IsWitness P k concealment_transition concealment
  pub exit_seen : IsWitness P k exit_crossed exit
  pub reconciliation_seen : IsWitness P k no_matched_checkout_event reconciliation
  pub person_first : person.at_ms <ℤ departure.at_ms
  pub then_hand : departure.at_ms <ℤ hand.at_ms
  pub then_concealment : hand.at_ms <ℤ concealment.at_ms
  pub then_exit : concealment.at_ms <ℤ exit.at_ms
  pub custody_observed :
      (t : ℤ)
      → departure.at_ms ≤ℤ t
      → t <ℤ exit.at_ms
      → (o : CustodyObservation) × IsWitness P k custody_continuous_to_exit o
        × ((i : ℤ × ℤ) × (interval_of o ≡ some i) × Within t i)
  pub path_observed :
      (t : ℤ)
      → departure.at_ms ≤ℤ t
      → t <ℤ exit.at_ms
      → (o : CustodyObservation) × IsWitness P k checkout_path_observed o
        × ((i : ℤ × ℤ) × (interval_of o ≡ some i) × Within t i)
  pub after_grace : exit.at_ms +ℤ grace ≤ℤ reconciliation.at_ms

Any-All : {A : Type 0} (P Q : A → Type 0) (l : List A) → Any P l → All Q l → (x : A) × P x × Q x
Any-All P Q (x ∷ l) (inl p) q = (x, p, q.0)
Any-All P Q (x ∷ l) (inr p) q = Any-All P Q l p q.1
Any-All P Q [] p q = elim p [ ]

first_decision_not_high :
    (degraded : Bool) (r : Record) → is_high_attention (first_decision degraded r) ≡ false
unfolding first_decision
first_decision_not_high degraded r = ground arith

eligible-chain_complete :
    (degraded : Bool) (grace : ℤ) (o : CustodyObservation) (r : Record)
    → (assessment degraded grace o r).alarm_eligible ≡ true
    → chain_complete degraded grace r ≡ true
unfolding assessment decide
eligible-chain_complete degraded grace o r h = ground (arith, first_decision_not_high degraded r)

-- What `chain_complete` says of a record.
record ChainFacts (grace : ℤ) (r : Record) : Type 0 where
  clean : r.compromised ≡ false
  person : r.facts person_confirmed ≡ true
  departure : r.facts shelf_departure ≡ true
  hand : r.facts hand_custody ≡ true
  concealment : r.facts concealment_transition ≡ true
  exit : r.facts exit_crossed ≡ true
  reconciliation : r.facts no_matched_checkout_event ≡ true
  person_first : ltb_ℤ (time_of r person_confirmed) (time_of r shelf_departure) ≡ true
  then_hand : ltb_ℤ (time_of r shelf_departure) (time_of r hand_custody) ≡ true
  then_concealment : ltb_ℤ (time_of r hand_custody) (time_of r concealment_transition) ≡ true
  then_exit : ltb_ℤ (time_of r concealment_transition) (time_of r exit_crossed) ≡ true
  carried :
      covers
        (r.coverage custody_continuous_to_exit)
        (time_of r shelf_departure)
        (time_of r exit_crossed)
      ≡ true
  path :
      covers
        (r.coverage checkout_path_observed)
        (time_of r shelf_departure)
        (time_of r exit_crossed)
      ≡ true
  after_grace : leb_ℤ (time_of r exit_crossed +ℤ grace) (time_of r no_matched_checkout_event) ≡ true

required_seen_parts :
    (r : Record)
    → required_seen r ≡ true
    → (r.facts person_confirmed ≡ true)
      × (r.facts shelf_departure ≡ true)
      × (r.facts hand_custody ≡ true)
      × (r.facts concealment_transition ≡ true)
      × (r.facts exit_crossed ≡ true)
      × (r.facts no_matched_checkout_event ≡ true)
unfolding required_seen
required_seen_parts r h = ground arith

ordered_chain_parts :
    (r : Record)
    → ordered_chain r ≡ true
    → (ltb_ℤ (time_of r person_confirmed) (time_of r shelf_departure) ≡ true)
      × (ltb_ℤ (time_of r shelf_departure) (time_of r hand_custody) ≡ true)
      × (ltb_ℤ (time_of r hand_custody) (time_of r concealment_transition) ≡ true)
      × (ltb_ℤ (time_of r concealment_transition) (time_of r exit_crossed) ≡ true)
unfolding ordered_chain
ordered_chain_parts r h = ground arith

coverage_complete_parts :
    (r : Record)
    → coverage_complete r ≡ true
    → (covers
          (r.coverage custody_continuous_to_exit)
          (time_of r shelf_departure)
          (time_of r exit_crossed)
        ≡ true)
      × (covers
            (r.coverage checkout_path_observed)
            (time_of r shelf_departure)
            (time_of r exit_crossed)
          ≡ true)
unfolding coverage_complete
coverage_complete_parts r h = ground arith

pos_finalized_grace :
    (grace : ℤ) (r : Record)
    → pos_finalized grace r ≡ true
    → leb_ℤ (time_of r exit_crossed +ℤ grace) (time_of r no_matched_checkout_event) ≡ true
unfolding pos_finalized
pos_finalized_grace grace r h = ground arith

chain_complete-ChainFacts :
    (degraded : Bool) (grace : ℤ) (r : Record)
    → chain_complete degraded grace r ≡ true
    → ChainFacts grace r
unfolding chain_complete
chain_complete-ChainFacts degraded grace r h =
    let parts : (r.compromised ≡ false)
        × (required_seen r ≡ true)
        × (ordered_chain r ≡ true)
        × (coverage_complete r ≡ true)
        × (pos_finalized grace r ≡ true) =
      ground arith in
    let seen = required_seen_parts r parts.1 in
    let order = ordered_chain_parts r parts.2 in
    let spans = coverage_complete_parts r parts.3 in
    record {
      clean = parts.0;
      person = seen.0;
      departure = seen.1;
      hand = seen.2;
      concealment = seen.3;
      exit = seen.4;
      reconciliation = seen.5;
      person_first = order.0;
      then_hand = order.1;
      then_concealment = order.2;
      then_exit = order.3;
      carried = spans.0;
      path = spans.1;
      after_grace = pos_finalized_grace grace r parts.4;
    }

module _ (P : CustodyObservation → Type 0) (k : Key) (r : Record) (j : IsJustified P k r) where
  stage :
      r.compromised ≡ false
      → (f : Fact) → r.facts f ≡ true
      → (o : CustodyObservation) × IsWitness P k f o × (o.at_ms ≡ time_of r f)
  stage clean f h =
      let (t, e) = j.seen f h in let (o, w, at) = j.times clean f t e in (o, w, rw (e, time_of) at)

  span :
      r.compromised ≡ false
      → (f : Fact) (start end : ℤ) → covers (r.coverage f) start end ≡ true
      → (t : ℤ) → start ≤ℤ t
      → t <ℤ end
      → (o : CustodyObservation) × IsWitness P k f o
        × ((i : ℤ × ℤ) × (interval_of o ≡ some i) × Within t i)
  span clean f start end h t from to =
      let (i, within, (o, w, e)) =
        Any-All (Within t)
          (λ i. (o : CustodyObservation) × IsWitness P k f o × (interval_of o ≡ some i))
          (r.coverage f) (covers_sound (r.coverage f) start end t h from to) (j.spans clean f) in
      (o, w, (i, e, within))

  facts-AlarmEvidence : (grace : ℤ) → ChainFacts grace r → AlarmEvidence P k grace
  facts-AlarmEvidence grace c =
      let (o₁, w₁, t₁) = stage c.clean person_confirmed c.person in
      let (o₂, w₂, t₂) = stage c.clean shelf_departure c.departure in
      let (o₃, w₃, t₃) = stage c.clean hand_custody c.hand in
      let (o₄, w₄, t₄) = stage c.clean concealment_transition c.concealment in
      let (o₅, w₅, t₅) = stage c.clean exit_crossed c.exit in
      let (o₆, w₆, t₆) = stage c.clean no_matched_checkout_event c.reconciliation in
      record {
        person = o₁;
        departure = o₂;
        hand = o₃;
        concealment = o₄;
        exit = o₅;
        reconciliation = o₆;
        person_seen = w₁;
        departure_seen = w₂;
        hand_seen = w₃;
        concealment_seen = w₄;
        exit_seen = w₅;
        reconciliation_seen = w₆;
        person_first =
            rw (t₁, t₂)
              (ltb_ℤ→lt (time_of r person_confirmed) (time_of r shelf_departure) c.person_first);
        then_hand =
            rw (t₂, t₃) (ltb_ℤ→lt (time_of r shelf_departure) (time_of r hand_custody) c.then_hand);
        then_concealment =
            rw (t₃, t₄)
              (ltb_ℤ→lt (time_of r hand_custody) (time_of r concealment_transition)
                c.then_concealment);
        then_exit =
            rw (t₄, t₅)
              (ltb_ℤ→lt (time_of r concealment_transition) (time_of r exit_crossed) c.then_exit);
        custody_observed =
            rw (t₂, t₅)
              (span c.clean custody_continuous_to_exit (time_of r shelf_departure)
                (time_of r exit_crossed) c.carried);
        path_observed =
            rw (t₂, t₅)
              (span c.clean checkout_path_observed (time_of r shelf_departure)
                (time_of r exit_crossed) c.path);
        after_grace =
            rw (t₅, t₆)
              (leb_ℤ→le (time_of r exit_crossed +ℤ grace) (time_of r no_matched_checkout_event)
                c.after_grace);
      }

pub make_room_grace : (e : ProductCustodyEngine) → (make_room e).pos_grace_ms ≡ e.pos_grace_ms
unfolding make_room
make_room_grace e = ground arith

-- The key that an assessment names.
abbrev pub key_of_assessment : CustodyAssessment → Key
key_of_assessment a = (a.visit_id, a.episode_id, a.product_token)

module _ (P : CustodyObservation → Type 0) where
  record_alarm :
      (e : ProductCustodyEngine) (o : CustodyObservation) (r : Record)
      → P o
      → AllJustified P e.records
      → IsJustified P (key_of o) r
      → (observe_record e o r).1.alarm_eligible ≡ true
      → AlarmEvidence P (key_of_assessment (observe_record e o r).1) e.pos_grace_ms
  unfolding observe_record assessment
  record_alarm e o r p all j h =
      let degraded = e.capacity_degraded || (updated e o r).1 in
      let s = (updated e o r).0 in
      facts-AlarmEvidence P (key_of o) s (observe_record-IsJustified P e o r p all j) e.pos_grace_ms
        (chain_complete-ChainFacts degraded e.pos_grace_ms s
          (eligible-chain_complete degraded e.pos_grace_ms o s h))

  admit_alarm :
      (e : ProductCustodyEngine) (o : CustodyObservation) (found : Option Record)
      → P o
      → AllJustified P e.records
      → find (key_of o) e.records ≡ found
      → (admit e o found).1.alarm_eligible ≡ true
      → AlarmEvidence P (key_of_assessment (admit e o found).1) e.pos_grace_ms
  admit_alarm e o (some r) p all h a =
      record_alarm e o r p all (find-IsJustified P (key_of o) e.records r all h) a
  admit_alarm e o none p all h a =
      subst (AlarmEvidence P (key_of_assessment (admit e o none).1)) (make_room_grace e) (
        record_alarm (make_room e) o fresh_record p (make_room-AllJustified P e all)
          (fresh_record-IsJustified P (key_of o)) a)

  -- In an engine whose records are justified by `P`, an assessment that may raise the alarm comes
  -- with its evidence among `P`.
  pub observe_alarm :
      (e : ProductCustodyEngine) (o : CustodyObservation) (e' : ProductCustodyEngine)
      (a : CustodyAssessment)
      → P o
      → AllJustified P e.records
      → observe e o ≡ some (e', a)
      → a.alarm_eligible ≡ true
      → AlarmEvidence P (key_of_assessment a) e.pos_grace_ms
  observe_alarm e o e' a p all h eligible =
      let same = observe-admit e o e' a h in
      rw (← ap (λ (x : ProductCustodyEngine × CustodyAssessment). x.1) same) (
        admit_alarm e o (find (key_of o) e.records) p all refl (
          ap (λ (x : ProductCustodyEngine × CustodyAssessment). x.1.alarm_eligible) same
          ∙ eligible))
