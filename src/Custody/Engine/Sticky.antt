-- ===== src/Custody/Engine/Sticky.antt =====
-- Degradation and compromise last, and both abstain.
use aisle_signals.Common.{
  ◌≡◌, ◌∙◌, sym, ap, refl, ◌⊎◌, inl, inr, Bool, true, false, Option, none, some, arith, Bool-cases,
  List, [], ◌∷◌,
}
use aisle_signals.Common.Int.{ℤ, leb_ℤ}
use aisle_signals.Custody.Model.{
  abstain, CustodyObservation, CustodyAssessment, Record, fresh_record,
}
use aisle_signals.Custody.Steps.{compromise_if}
use aisle_signals.Custody.Steps.Taken.{accept-IsTaken}
use aisle_signals.Custody.Assess.{first_decision, chain_complete, decide, assessment}
use aisle_signals.Custody.Engine.{
  Key, key_of, key_eq, ProductCustodyEngine, find, store, make_room, update, updated, recall,
  observe_record, admit, observe,
}
use aisle_signals.Custody.Engine.History.{observe-admit}
use aisle_signals.Custody.Engine.Bounds.{key_eq_refl}

-- An assessment that abstains: no decision, and no alarm.
pub record Abstains (a : CustodyAssessment) : Type 0 where
  pub undecided : a.decision ≡ abstain
  pub silent : a.alarm_eligible ≡ false

assessment-Abstains :
    (degraded : Bool) (grace : ℤ) (o : CustodyObservation) (r : Record)
    → (degraded ≡ true) ⊎ (r.compromised ≡ true)
    → Abstains (assessment degraded grace o r)
unfolding assessment decide first_decision chain_complete
assessment-Abstains degraded grace o r h = ground arith

make_room_degraded :
    (e : ProductCustodyEngine) → e.capacity_degraded ≡ true → (make_room e).capacity_degraded ≡ true
unfolding make_room
make_room_degraded e h = ground arith

admit_degraded :
    (e : ProductCustodyEngine) (o : CustodyObservation) (found : Option Record)
    → e.capacity_degraded ≡ true
    → ((admit e o found).0.capacity_degraded ≡ true) × Abstains (admit e o found).1
unfolding observe_record
admit_degraded e o (some r) h =
    (rw h, assessment-Abstains _ e.pos_grace_ms o (updated e o r).0 (inl (rw h)))
admit_degraded e o none h =
    let h' = make_room_degraded e h in
    let m = make_room e in
    (rw h', assessment-Abstains _ m.pos_grace_ms o (updated m o fresh_record).0 (inl (rw h')))

-- Once its capacity was exceeded the engine abstains on every observation, and stays degraded.
pub degraded-Abstains :
    (e : ProductCustodyEngine) (o : CustodyObservation) (e' : ProductCustodyEngine)
    (a : CustodyAssessment)
    → e.capacity_degraded ≡ true
    → observe e o ≡ some (e', a)
    → (e'.capacity_degraded ≡ true) × Abstains a
degraded-Abstains e o e' a d h =
    rw
      (
        ← ap (λ (x : ProductCustodyEngine × CustodyAssessment). x.0) (observe-admit e o e' a h),
        ← ap (λ (x : ProductCustodyEngine × CustodyAssessment). x.1) (observe-admit e o e' a h),
      )
      (admit_degraded e o (find (key_of o) e.records) d)

not_false : (b : Bool) → (b ≡ false → ⊥) → b ≡ true
not_false true h = refl
not_false false h = absurd (h refl)

update_compromised :
    (longest grace : ℤ) (o : CustodyObservation) (known : Option CustodyObservation) (r : Record)
    → r.compromised ≡ true
    → (update longest grace o known r).0.compromised ≡ true
unfolding update compromise_if
update_compromised longest grace o (some known) r h = ground arith
update_compromised longest grace o none r h = elim (Bool-cases (leb_ℤ o.at_ms r.last_at_ms)) [
  | inl late ↦ rw late
  | inr new ↦
      rw new (not_false _ (λ clean. cc (((accept-IsTaken longest grace o r).trusted clean).0)))
]

pub find-store : (k : Key) (r : Record) (l : List (Key × Record)) → find k (store k r l) ≡ some r
unfolding find store
find-store k r [] = rw (key_eq_refl k)
find-store k r ((j, s) ∷ l) = elim (Bool-cases (key_eq j k)) [
  | inl same ↦ rw same (rw same)
  | inr other ↦ rw other (rw other (find-store k r l))
]

-- A compromised record stays compromised, and the engine abstains on every further observation of
-- its episode.
pub compromised-Abstains :
    (e : ProductCustodyEngine) (o : CustodyObservation) (e' : ProductCustodyEngine)
    (a : CustodyAssessment) (r : Record)
    → find (key_of o) e.records ≡ some r
    → r.compromised ≡ true
    → observe e o ≡ some (e', a)
    → ((r' : Record) × (find (key_of o) e'.records ≡ some r') × (r'.compromised ≡ true))
      × Abstains a
unfolding observe_record
compromised-Abstains e o e' a r found c h =
    let same : observe_record e o r ≡ (e', a) =
      ap (admit e o) (sym found) ∙ observe-admit e o e' a h in
    let s = (updated e o r).0 in
    let c' =
      update_compromised e.max_episode_ms e.pos_grace_ms o (recall o.event_id r.event_ids) r c in
    rw
      (
        ← ap (λ (x : ProductCustodyEngine × CustodyAssessment). x.0) same,
        ← ap (λ (x : ProductCustodyEngine × CustodyAssessment). x.1) same,
      )
      (
        (s, find-store (key_of o) s e.records, c'),
        assessment-Abstains _ e.pos_grace_ms o s (inr c'),
      )
