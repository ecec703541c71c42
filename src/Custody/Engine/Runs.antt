-- ===== src/Custody/Engine/Runs.antt =====
-- `observe_many` over any observations, from an engine that is justified.
use aisle_signals.Common.{
  ◌≡◌, inl, inr, refl, sym, ap, ◌∙◌, true, Option, none, some, List, [], ◌∷◌, arith, Any, All,
  Option-cases, All-map,
}
use mathlib.Core.Path.{subst}
use aisle_signals.Common.Int.{ℤ}
use aisle_signals.Custody.Model.{CustodyObservation, CustodyAssessment, Record}
use aisle_signals.Custody.Engine.{
  key_of, ProductCustodyEngine, create, find, observe_record, admit, observe, observe_from,
  observe_many,
}
use aisle_signals.Custody.Engine.History.{AllJustified, observe-AllJustified, observe-admit}
use aisle_signals.Custody.Engine.Alarm.{
  AlarmEvidence, key_of_assessment, observe_alarm, make_room_grace,
}

admit_grace :
    (e : ProductCustodyEngine) (o : CustodyObservation) (found : Option Record)
    → (admit e o found).0.pos_grace_ms ≡ e.pos_grace_ms
unfolding observe_record
admit_grace e o (some r) = refl
admit_grace e o none = make_room_grace e

-- The observation is one of the list.
abbrev pub IsGiven : List CustodyObservation → CustodyObservation → Type 0
IsGiven os o = Any (λ x. x ≡ o) os

all-IsGiven : (os : List CustodyObservation) → All (IsGiven os) os
all-IsGiven [] = tt
all-IsGiven (o ∷ os) = (inl refl, All-map (λ x h. inr h) os (all-IsGiven os))

module _ (P : CustodyObservation → Type 0) where
  observe_from_alarm :
      (e : ProductCustodyEngine) (result : Option CustodyAssessment) (os : List CustodyObservation)
      (e' : ProductCustodyEngine) (a : CustodyAssessment)
      → All P os
      → AllJustified P e.records
      → ((b : CustodyAssessment)
          → result ≡ some b
          → b.alarm_eligible ≡ true
          → AlarmEvidence P (key_of_assessment b) e.pos_grace_ms)
      → observe_from e result os ≡ (e', some a)
      → a.alarm_eligible ≡ true
      → AlarmEvidence P (key_of_assessment a) e.pos_grace_ms
  unfolding observe_from
  observe_from_alarm e result [] e' a ps all good h eligible = good a (cc h) eligible
  observe_from_alarm e result (o ∷ os) e' a ps all good h eligible =
      elim (Option-cases (observe e o)) [
        | inl refused ↦
            let out : (e, none) ≡ (e', some a) = rw (refused, observe_from) at h in absurd (cc out)
        | inr ((e₁, a₁), taken) ↦
            let out : observe_from e₁ (some a₁) os ≡ (e', some a) = rw (taken, observe_from) at h in
            let same : e₁.pos_grace_ms ≡ e.pos_grace_ms =
              sym (
                ap (λ (x : ProductCustodyEngine × CustodyAssessment). x.0.pos_grace_ms)
                  (observe-admit e o e₁ a₁ taken))
              ∙ admit_grace e o (find (key_of o) e.records) in
            subst (AlarmEvidence P (key_of_assessment a)) same (
              observe_from_alarm e₁ (some a₁) os e' a ps.1
                (observe-AllJustified P e o e₁ a₁ ps.0 all taken)
                (λ b eq el.
                  subst (AlarmEvidence P (key_of_assessment b)) (sym same)
                    (observe_alarm P e o e₁ b ps.0 all (taken ∙ cc eq) el))
                out eligible)
      ]

created :
    (max_records max_episode_ms pos_grace_ms : ℤ) (e : ProductCustodyEngine)
    → create max_records max_episode_ms pos_grace_ms ≡ some e
    → (e.records ≡ []) × (e.pos_grace_ms ≡ pos_grace_ms)
unfolding create
created max_records max_episode_ms pos_grace_ms e h = ground arith

-- Whatever observations a new engine is given, an assessment that may raise the alarm rests on a
-- complete chain among them: one episode and product, all stages direct, clear and from their
-- sources, in strict order of time, every millisecond from the shelf departure to the exit inside
-- tracker coverage of the custody and of the checkout path, and a reconciliation without a
-- checkout after the grace period.
pub observe_many_alarm :
    (max_records max_episode_ms pos_grace_ms : ℤ) (e : ProductCustodyEngine)
    (os : List CustodyObservation) (e' : ProductCustodyEngine) (a : CustodyAssessment)
    → create max_records max_episode_ms pos_grace_ms ≡ some e
    → observe_many e os ≡ (e', some a)
    → a.alarm_eligible ≡ true
    → AlarmEvidence (IsGiven os) (key_of_assessment a) pos_grace_ms
unfolding observe_many
observe_many_alarm max_records max_episode_ms pos_grace_ms e os e' a made h eligible =
    let new = created max_records max_episode_ms pos_grace_ms e made in
    subst (AlarmEvidence (IsGiven os) (key_of_assessment a)) new.1 (
      observe_from_alarm (IsGiven os) e none os e' a (all-IsGiven os)
        (subst (AllJustified (IsGiven os)) (sym new.0) tt) (λ b n el. absurd (cc n)) h eligible)
