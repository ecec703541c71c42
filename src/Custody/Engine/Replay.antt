-- ===== src/Custody/Engine/Replay.antt =====
-- Observing the same observation again changes nothing.
use aisle_signals.Common.{
  ◌≡◌, ◌∙◌, sym, ap, refl, inl, inr, Bool, true, false, not, ◌||◌, Option, none, some, arith,
  Bool-cases, List, [], ◌∷◌, ◌++◌, String, eq_iff, str_eq,
}
use aisle_signals.Common.Int.{ℤ, leb_ℤ, eqb_ℤ_refl}
use aisle_signals.Custody.Model.{
  Fact, fact_eq, CustodyObservation, CustodyAssessment, Reason, Record, fresh_record, valid,
}
use aisle_signals.Custody.Steps.{has_reason, add_reason, compromise_if, accept, forget}
use aisle_signals.Custody.Steps.Log.{IsTidy, keys, accept_events, fresh_record-IsTidy}
use aisle_signals.Custody.Engine.{
  Key, key_of, key_eq, ProductCustodyEngine, find, store, make_room, update, updated, recall,
  same_signature, option_eq, bool_eq, observe_record, admit, observe,
}
use aisle_signals.Custody.Engine.History.{observe-admit}
use aisle_signals.Custody.Engine.Bounds.{key_eq_refl, IsBounded, find-IsTidy}
use aisle_signals.Custody.Engine.Sticky.{find-store}

has_reason-append : (x : Reason) (xs : List Reason) → has_reason x (xs ++ x ∷ []) ≡ true
unfolding has_reason
has_reason-append x [] = ground arith
has_reason-append x (y ∷ ys) = ground (arith, has_reason-append x ys)

add_reason_twice :
    (x : Reason) (xs : List Reason) → add_reason x (add_reason x xs) ≡ add_reason x xs
unfolding add_reason
add_reason_twice x xs = elim (Bool-cases (has_reason x xs)) [
  | inl old ↦ rw old (rw old)
  | inr new ↦ rw new (rw has_reason-append)
]

compromise_twice :
    (b : Bool) (x : Reason) (r : Record)
    → compromise_if b x (compromise_if b x r) ≡ compromise_if b x r
unfolding compromise_if
compromise_twice true x r =
    ap (λ l. record r { compromised = true; reasons = l }) (add_reason_twice x r.reasons)
compromise_twice false x r = refl

compromise_never : (x : Reason) (r : Record) → compromise_if false x r ≡ r
unfolding compromise_if
compromise_never x r = refl

option_eq_refl : (a : Option ℤ) → option_eq a a ≡ true
unfolding option_eq
option_eq_refl none = refl
option_eq_refl (some a) = eqb_ℤ_refl a

recall-append :
    (k : String) (o : CustodyObservation) (l : List (String × CustodyObservation))
    → recall k l ≡ none
    → recall k (l ++ (k, o) ∷ []) ≡ some o
unfolding recall
recall-append k o [] h = ground (arith, eq_iff k k)
recall-append k o ((j, x) ∷ l) h = ground (arith, recall-append k o l)

-- The event that the timeline drops is the first that is remembered, so not the new one.
recall-forget :
    (k j : String) (o : CustodyObservation) (l : List (String × CustodyObservation))
    (rest : List String)
    → recall k l ≡ none
    → keys l ≡ j ∷ rest
    → recall k (forget j (l ++ (k, o) ∷ [])) ≡ some o
unfolding recall forget
recall-forget k j o [] rest h e = absurd (cc e)
recall-forget k j o ((i, x) ∷ l) rest h e =
    ground (arith, eq_iff i j, eq_iff i k, recall-append k o l)

recall-accept :
    (longest grace : ℤ) (o : CustodyObservation) (r : Record)
    → IsTidy r
    → recall o.event_id r.event_ids ≡ none
    → recall o.event_id (accept longest grace o r).0.event_ids ≡ some o
recall-accept longest grace o r t h = elim (accept_events longest grace o r t) [
  | inl e ↦ rw e (recall-append o.event_id o r.event_ids h)
  | inr (j, rest, head, e) ↦ rw e (recall-forget o.event_id j o r.event_ids rest h head)
]

bool_eq_refl : (b : Bool) → bool_eq b b ≡ true
bool_eq_refl b = ground arith

str_eq_refl : (s : String) → str_eq s s ≡ true
str_eq_refl s = (eq_iff s s).1 refl

fact_eq_refl : (f : Fact) → fact_eq f f ≡ true
fact_eq_refl f = ground arith

ruleset refls = (str_eq_refl, fact_eq_refl, option_eq_refl, bool_eq_refl, eqb_ℤ_refl)

same_signature_refl : (o : CustodyObservation) → same_signature o o ≡ true
unfolding same_signature
same_signature_refl o = simp refls

module _ (longest grace : ℤ) (o : CustodyObservation) where
  abbrev IsSettled : Record → Type 0
  IsSettled s = update longest grace o (recall o.event_id s.event_ids) s ≡ (s, false)

  known-IsSettled :
      (x : CustodyObservation) (r : Record)
      → recall o.event_id r.event_ids ≡ some x
      → IsSettled (compromise_if (not (same_signature x o)) Reason.conflicting_duplicate r)
  unfolding update compromise_if
  known-IsSettled x r known =
      let b = not (same_signature x o) in
      ap (λ k. update longest grace o k (compromise_if b Reason.conflicting_duplicate r)) known
      ∙ ap (λ z. (z, false)) (compromise_twice b Reason.conflicting_duplicate r)

  late_update :
      (s : Record)
      → leb_ℤ o.at_ms s.last_at_ms ≡ true
      → update longest grace o none s ≡ (compromise_if true Reason.time_backwards s, false)
  unfolding update
  late_update s late = rw late

  late-IsSettled :
      (r : Record)
      → recall o.event_id r.event_ids ≡ none
      → leb_ℤ o.at_ms r.last_at_ms ≡ true
      → IsSettled (compromise_if true Reason.time_backwards r)
  unfolding compromise_if
  late-IsSettled r new late =
      let s = compromise_if true Reason.time_backwards r in
      ap (λ k. update longest grace o k s) new
      ∙ (late_update s late ∙ ap (λ z. (z, false)) (compromise_twice true Reason.time_backwards r))

  same_update : (s : Record) → update longest grace o (some o) s ≡ (s, false)
  unfolding update
  same_update s =
      rw (same_signature_refl o)
        (ap (λ z. (z, false)) (compromise_never Reason.conflicting_duplicate s))

  new-IsSettled :
      (r : Record)
      → IsTidy r
      → recall o.event_id r.event_ids ≡ none
      → IsSettled (accept longest grace o r).0
  new-IsSettled r t new =
      let s = (accept longest grace o r).0 in
      ap (λ k. update longest grace o k s) (recall-accept longest grace o r t new) ∙ same_update s

  update-IsSettled :
      (known : Option CustodyObservation) (r : Record)
      → IsTidy r
      → recall o.event_id r.event_ids ≡ known
      → IsSettled (update longest grace o known r).0
  unfolding update
  update-IsSettled (some x) r t h = known-IsSettled x r h
  update-IsSettled none r t h = elim (Bool-cases (leb_ℤ o.at_ms r.last_at_ms)) [
    | inl late ↦ rw late (late-IsSettled r h late)
    | inr new ↦ rw new (new-IsSettled r t h)
  ]

store_twice :
    (k : Key) (r : Record) (l : List (Key × Record)) → store k r (store k r l) ≡ store k r l
unfolding store
store_twice k r [] = rw (key_eq_refl k)
store_twice k r ((j, s) ∷ l) = elim (Bool-cases (key_eq j k)) [
  | inl same ↦ rw same (rw same)
  | inr other ↦ rw other (rw other (ap (λ t. (j, s) ∷ t) (store_twice k r l)))
]

||_false : (b : Bool) → (b || false) ≡ b
||_false true = refl
||_false false = refl

observe_record_again :
    (e : ProductCustodyEngine) (o : CustodyObservation) (r : Record)
    → IsTidy r
    → observe_record (observe_record e o r).0 o (updated e o r).0 ≡ observe_record e o r
unfolding observe_record
observe_record_again e o r t =
    rw (update-IsSettled e.max_episode_ms e.pos_grace_ms o (recall o.event_id r.event_ids) r t refl)
      (rw (store_twice (key_of o) (updated e o r).0 e.records)
        (rw (||_false (e.capacity_degraded || (updated e o r).1)) refl))

observe-valid :
    (e : ProductCustodyEngine) (o : CustodyObservation) (e' : ProductCustodyEngine)
    (a : CustodyAssessment)
    → observe e o ≡ some (e', a)
    → valid o ≡ true
unfolding observe
observe-valid e o e' a h = elim (Bool-cases (valid o)) [
  | inl good ↦ good
  | inr bad ↦ let out : none ≡ some (e', a) = rw bad at h in absurd (cc out)
]

observe_found :
    (e : ProductCustodyEngine) (o : CustodyObservation) (r : Record)
    → valid o ≡ true
    → find (key_of o) e.records ≡ some r
    → observe e o ≡ some (observe_record e o r)
unfolding observe
observe_found e o r good found = rw good (ap (λ x. some (admit e o x)) found)

admit_again :
    (e : ProductCustodyEngine) (o : CustodyObservation) (found : Option Record)
    → IsBounded e
    → valid o ≡ true
    → find (key_of o) e.records ≡ found
    → observe (admit e o found).0 o ≡ some (admit e o found)
admit_again e o (some r) b good h =
    observe_found (observe_record e o r).0 o (updated e o r).0 good
      (unfold observe_record in find-store (key_of o) (updated e o r).0 e.records)
    ∙ ap some (observe_record_again e o r (find-IsTidy (key_of o) e.records r b.tidy h))
admit_again e o none b good h =
    let m = make_room e in
    let s = (updated m o fresh_record).0 in
    observe_found (observe_record m o fresh_record).0 o s good
      (unfold observe_record in find-store (key_of o) s m.records)
    ∙ ap some (observe_record_again m o fresh_record fresh_record-IsTidy)

-- Whatever became of an observation in an engine within its bounds (taken in, a duplicate, a
-- conflict, or late), observing it again changes nothing and gives the same assessment.
pub observe_again :
    (e : ProductCustodyEngine) (o : CustodyObservation) (e' : ProductCustodyEngine)
    (a : CustodyAssessment)
    → IsBounded e
    → observe e o ≡ some (e', a)
    → observe e' o ≡ some (e', a)
observe_again e o e' a b h =
    let same = observe-admit e o e' a h in
    ap (λ (x : ProductCustodyEngine × CustodyAssessment). observe x.0 o) (sym same)
    ∙ admit_again e o (find (key_of o) e.records) b (observe-valid e o e' a h) refl
    ∙ ap some same
