-- ===== src/Custody/Steps/Taken.antt =====
-- What a record knows after it has taken an observation in.
use aisle_signals.Common.{
  ◌≡◌, ◌∙◌, ◌⊎◌, inl, inr, refl, sym, Bool, true, false, ◌&&◌, ◌||◌, some, String, str_eq, arith,
  if◌then◌else◌,
}
use aisle_signals.Common.Int.{ℤ}
use aisle_signals.Custody.Model.{
  Fact, exit_crossed, custody_continuous_to_exit, checkout_path_observed, checkout_completed,
  no_matched_checkout_event, fact_eq, CustodyObservation, Record,
}
use aisle_signals.Custody.Steps.{
  note, timeline_step, drop_oldest, move_step, check_step, accept, is_coverage, interval_of,
  push_interval,
}

-- The source that a fact must come from.
abbrev pub required_source : Fact → String → Bool
required_source exit_crossed kind = str_eq kind "tracker"
required_source custody_continuous_to_exit kind = str_eq kind "tracker"
required_source checkout_path_observed kind = str_eq kind "tracker"
required_source checkout_completed kind = str_eq kind "pos_reconciliation"
required_source no_matched_checkout_event kind = str_eq kind "pos_reconciliation"
required_source _ kind = true

-- A direct, clear observation by the source that its fact requires.
pub record IsTrusted (o : CustodyObservation) : Type 0 where
  pub direct : o.direct ≡ true
  pub clear : str_eq o.visibility "clear" ≡ true
  pub source : required_source o.fact o.source_kind ≡ true

-- The parts of a record that the timeline and `_transition` leave alone.
record SameEvidence (r s : Record) : Type 0 where
  times : s.fact_times ≡ r.fact_times
  seen : s.facts ≡ r.facts
  clock : s.last_at_ms ≡ r.last_at_ms
  spans : s.coverage ≡ r.coverage

timeline_step-SameEvidence :
    (o : CustodyObservation) (r : Record) → SameEvidence r (timeline_step o r).0
unfolding timeline_step drop_oldest
timeline_step-SameEvidence o r = ground arith

timeline_step-compromised :
    (o : CustodyObservation) (r : Record) → (timeline_step o r).0.compromised ≡ r.compromised
unfolding timeline_step drop_oldest
timeline_step-compromised o r = ground arith

move_step-SameEvidence :
    (f : Fact) (o : CustodyObservation) (r : Record) → SameEvidence r (move_step f o r)
unfolding move_step
move_step-SameEvidence exit_crossed o r = record {
  times = refl;
  seen = refl;
  clock = refl;
  spans = refl;
}
move_step-SameEvidence _ o r = record { times = refl; seen = refl; clock = refl; spans = refl }

check_step-SameEvidence :
    (grace : ℤ) (f : Fact) (o : CustodyObservation) (r : Record)
    → SameEvidence r (check_step grace f o r)
unfolding check_step
check_step-SameEvidence grace exit_crossed o r = record {
  times = refl;
  seen = refl;
  clock = refl;
  spans = refl;
}
check_step-SameEvidence grace _ o r = record {
  times = refl;
  seen = refl;
  clock = refl;
  spans = refl;
}

SameEvidence-trans : {r s t : Record} → SameEvidence r s → SameEvidence s t → SameEvidence r t
SameEvidence-trans a b = record {
  times = b.times ∙ a.times;
  seen = b.seen ∙ a.seen;
  clock = b.clock ∙ a.clock;
  spans = b.spans ∙ a.spans;
}

-- A reason to distrust an observation stays.
move_step-compromised :
    (f : Fact) (o : CustodyObservation) (r : Record)
    → (move_step f o r).compromised ≡ false
    → (r.compromised ≡ false)
      × ((f ≡ checkout_completed → str_eq o.source_kind "pos_reconciliation" ≡ true))
unfolding move_step
move_step-compromised exit_crossed o r h = ground arith
move_step-compromised _ o r h = ground arith

check_step-compromised :
    (grace : ℤ) (f : Fact) (o : CustodyObservation) (r : Record)
    → (check_step grace f o r).compromised ≡ false
    → (r.compromised ≡ false)
      × ((f ≡ checkout_completed) ⊎ (required_source f o.source_kind ≡ true))
unfolding check_step
check_step-compromised grace exit_crossed o r h = ground arith
check_step-compromised grace _ o r h = ground arith

-- What `accept` makes of a record.
pub record IsTaken (o : CustodyObservation) (r s : Record) : Type 0 where
  pub times : s.fact_times ≡ (λ f. if fact_eq o.fact f then some o.at_ms else r.fact_times f)
  pub seen : s.facts ≡ (λ f. fact_eq o.fact f || r.facts f)
  pub clock : s.last_at_ms ≡ o.at_ms
  pub spans : s.coverage ≡ (λ f.
      if is_coverage o.fact && fact_eq o.fact f
      then push_interval (interval_of o) (r.coverage f)
      else r.coverage f)
  pub trusted : s.compromised ≡ false → (r.compromised ≡ false) × IsTrusted o

note-trusted :
    (longest : ℤ) (o : CustodyObservation) (r : Record)
    → (note longest o r).compromised ≡ false
    → (r.compromised ≡ false) × (o.direct ≡ true) × (str_eq o.visibility "clear" ≡ true)
unfolding note
note-trusted longest o r h = ground arith

accept-SameEvidence :
    (longest grace : ℤ) (o : CustodyObservation) (r : Record)
    → SameEvidence (note longest o r) (accept longest grace o r).0
unfolding accept
accept-SameEvidence longest grace o r =
    let noted = note longest o r in
    let timed = (timeline_step o noted).0 in
    SameEvidence-trans (timeline_step-SameEvidence o noted) (
      SameEvidence-trans (move_step-SameEvidence o.fact o timed)
        (check_step-SameEvidence grace o.fact o (move_step o.fact o timed)))

accept-IsTrusted :
    (longest grace : ℤ) (o : CustodyObservation) (r : Record)
    → (accept longest grace o r).0.compromised ≡ false
    → (r.compromised ≡ false) × IsTrusted o
unfolding accept
accept-IsTrusted longest grace o r h =
    let noted = note longest o r in
    let timed = (timeline_step o noted).0 in
    let checked = check_step-compromised grace o.fact o (move_step o.fact o timed) h in
    let moved = move_step-compromised o.fact o timed checked.0 in
    let sound = note-trusted longest o r (sym (timeline_step-compromised o noted) ∙ moved.0) in
    (
      sound.0,
      record {
        direct = sound.1;
        clear = sound.2;
        source = elim checked.1 [ inl e ↦ rw e (moved.1 e) | inr s ↦ s ];
      },
    )

-- Taking an observation in sets the time of its fact, and leaves a record uncompromised only if
-- it was uncompromised before and the observation is trusted.
pub accept-IsTaken :
    (longest grace : ℤ) (o : CustodyObservation) (r : Record)
    → IsTaken o r (accept longest grace o r).0
unfolding note
accept-IsTaken longest grace o r =
    let same = accept-SameEvidence longest grace o r in
    record {
      times = same.times;
      seen = same.seen;
      clock = same.clock;
      spans = same.spans;
      trusted = accept-IsTrusted longest grace o r;
    }
