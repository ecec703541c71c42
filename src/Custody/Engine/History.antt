-- ===== src/Custody/Engine/History.antt =====
-- Every record of an engine is justified by observations that the engine was given.
use aisle_signals.Common.{
  ◌≡◌, inl, inr, refl, sym, ap, ◌∙◌, Bool, true, false, ◌&&◌, Option, none, some, List, [], ◌∷◌,
  arith, All, All-append, Bool-cases, length, if◌then◌else◌, eq_iff,
}
use aisle_signals.Common.Int.{ℤ, pos, leb_ℤ}
use aisle_signals.Custody.Model.{
  Fact, fact_eq, CustodyObservation, CustodyAssessment, Reason, Record, fresh_record, valid,
}
use aisle_signals.Custody.Steps.{compromise_if, accept, is_coverage, interval_of, push_interval}
use aisle_signals.Custody.Steps.Taken.{IsTrusted, IsTaken, accept-IsTaken}
use aisle_signals.Custody.Engine.{
  Key, key_of, key_eq, ProductCustodyEngine, find, store, oldest, evict, evict_oldest, make_room,
  update, recall, updated, observe_record, admit, observe,
}

-- An observation among those of `P`, of this episode and fact, that can be trusted.
pub record IsWitness (P : CustodyObservation → Type 0) (k : Key) (f : Fact) (o : CustodyObservation)
    : Type 0 where
  pub given : P o
  pub key : key_of o ≡ k
  pub fact : o.fact ≡ f
  pub trusted : IsTrusted o

-- What an uncompromised record knows comes from witnesses.
pub record IsJustified (P : CustodyObservation → Type 0) (k : Key) (r : Record) : Type 0 where
  pub seen : (f : Fact) → r.facts f ≡ true → (t : ℤ) × (r.fact_times f ≡ some t)
  pub times :
      r.compromised ≡ false
      → (f : Fact) (t : ℤ) → r.fact_times f ≡ some t
      → (o : CustodyObservation) × IsWitness P k f o × (o.at_ms ≡ t)
  pub spans :
      r.compromised ≡ false
      → (f : Fact)
      → All
          (λ i. (o : CustodyObservation) × IsWitness P k f o × (interval_of o ≡ some i))
          (r.coverage f)

fact_eq→eq : (f g : Fact) → fact_eq f g ≡ true → f ≡ g
fact_eq→eq f g h = ground arith

pub key_eq→eq : (a b : Key) → key_eq a b ≡ true → a ≡ b
key_eq→eq a b h = ground (arith, eq_iff a.0 b.0, eq_iff a.1 b.1, eq_iff a.2 b.2)

push-All :
    {Q : ℤ × ℤ → Type 0} (i? : Option (ℤ × ℤ)) (l : List (ℤ × ℤ))
    → ((i : ℤ × ℤ) → i? ≡ some i → Q i)
    → All Q l
    → All Q (push_interval i? l)
push-All none l new old = old
push-All {Q} (some i) l new old = All-append Q l (i ∷ []) old (new i refl, tt)

-- An observation that is answered was valid, and `admit` gave the answer.
pub observe-admit :
    (e : ProductCustodyEngine) (o : CustodyObservation) (e' : ProductCustodyEngine)
    (a : CustodyAssessment)
    → observe e o ≡ some (e', a)
    → admit e o (find (key_of o) e.records) ≡ (e', a)
unfolding observe
observe-admit e o e' a h = elim (Bool-cases (valid o)) [
  | inl good ↦
      let out : some (admit e o (find (key_of o) e.records)) ≡ some (e', a) = rw good at h in cc out
  | inr bad ↦ let out : none ≡ some (e', a) = rw bad at h in absurd (cc out)
]

module _ (P : CustodyObservation → Type 0) where
  pub fresh_record-IsJustified : (k : Key) → IsJustified P k fresh_record
  fresh_record-IsJustified k = record {
    seen = λ f h. absurd (cc);
    times = λ c f t h. absurd (cc);
    spans = λ c f. tt;
  }

  compromise_if-IsJustified :
      (k : Key) (b : Bool) (r : Record) (reason : Reason)
      → IsJustified P k r
      → IsJustified P k (compromise_if b reason r)
  unfolding compromise_if
  compromise_if-IsJustified k b r reason j = record {
    seen = j.seen;
    times = λ c. j.times (ground arith);
    spans = λ c. j.spans (ground arith);
  }

  taken-IsJustified :
      (k : Key) (o : CustodyObservation) (r s : Record)
      → P o
      → key_of o ≡ k
      → IsTaken o r s
      → IsJustified P k r
      → IsJustified P k s
  taken-IsJustified k o r s p e t j = record {
    seen = λ f h. elim (Bool-cases (fact_eq o.fact f)) [
      | inl same ↦ (o.at_ms, time_same f same)
      | inr other ↦
          let old = j.seen f (sym (seen_other f other) ∙ h) in (old.0, time_other f other ∙ old.1)
    ];
    times = λ c f u h. elim (Bool-cases (fact_eq o.fact f)) [
      | inl same ↦ (o, here c f same, cc (time_same f same))
      | inr other ↦ j.times (t.trusted c).0 f u (sym (time_other f other) ∙ h)
    ];
    spans = λ c f. elim (Bool-cases (is_coverage o.fact && fact_eq o.fact f)) [
      | inl both ↦ rw (spans_at f) (
          rw both (
            push-All (interval_of o) (r.coverage f) (λ i e. (o, here c f (ground arith), e))
              (j.spans (t.trusted c).0 f)))
      | inr other ↦ rw (spans_at f) (rw other (j.spans (t.trusted c).0 f))
    ];
  }
    where
      time_same : (f : Fact) → fact_eq o.fact f ≡ true → s.fact_times f ≡ some o.at_ms
      time_same f same = ap (λ m. m f) t.times ∙ rw same refl

      time_other : (f : Fact) → fact_eq o.fact f ≡ false → s.fact_times f ≡ r.fact_times f
      time_other f other = ap (λ m. m f) t.times ∙ rw other refl

      seen_other : (f : Fact) → fact_eq o.fact f ≡ false → s.facts f ≡ r.facts f
      seen_other f other = ap (λ m. m f) t.seen ∙ rw other refl

      spans_at :
          (f : Fact)
          → s.coverage f ≡ (
              if is_coverage o.fact && fact_eq o.fact f
              then push_interval (interval_of o) (r.coverage f)
              else r.coverage f)
      spans_at f = ap (λ m. m f) t.spans

      here : s.compromised ≡ false → (f : Fact) → fact_eq o.fact f ≡ true → IsWitness P k f o
      here c f same = record {
        given = p;
        key = e;
        fact = fact_eq→eq o.fact f same;
        trusted = (t.trusted c).1;
      }

  update-IsJustified :
      (longest grace : ℤ) (o : CustodyObservation) (known : Option CustodyObservation) (r : Record)
      (k : Key)
      → P o
      → key_of o ≡ k
      → IsJustified P k r
      → IsJustified P k (update longest grace o known r).0
  unfolding update
  update-IsJustified longest grace o (some known) r k p e j = compromise_if-IsJustified k _ r _ j
  update-IsJustified longest grace o none r k p e j =
      elim (Bool-cases (leb_ℤ o.at_ms r.last_at_ms)) [
        | inl late ↦ rw late (compromise_if-IsJustified k true r _ j)
        | inr new ↦ rw new (
            taken-IsJustified k o r (accept longest grace o r).0 p e
              (accept-IsTaken longest grace o r) j)
      ]

  abbrev pub AllJustified : List (Key × Record) → Type 0
  AllJustified l = All (λ e. IsJustified P e.0 e.1) l

  pub find-IsJustified :
      (k : Key) (l : List (Key × Record)) (r : Record)
      → AllJustified l
      → find k l ≡ some r
      → IsJustified P k r
  unfolding find
  find-IsJustified k [] r all h = absurd (cc)
  find-IsJustified k ((j, s) ∷ l) r all h = elim (Bool-cases (key_eq j k)) [
    | inl same ↦
        let found : some s ≡ some r = rw same at h in
        let e : s ≡ r = cc found in rw (← e, ← key_eq→eq j k same) all.0
    | inr other ↦ find-IsJustified k l r all.1 (rw other at h)
  ]

  store-AllJustified :
      (k : Key) (r : Record) (l : List (Key × Record))
      → IsJustified P k r
      → AllJustified l
      → AllJustified (store k r l)
  unfolding store
  store-AllJustified k r [] j all = (j, tt)
  store-AllJustified k r ((i, s) ∷ l) j all = elim (Bool-cases (key_eq i k)) [
    | inl same ↦ rw same (rw (key_eq→eq i k same) j, all.1)
    | inr other ↦ rw other (all.0, store-AllJustified k r l j all.1)
  ]

  evict-AllJustified :
      (k : Key) (l : List (Key × Record)) → AllJustified l → AllJustified (evict k l)
  unfolding evict
  evict-AllJustified k [] all = tt
  evict-AllJustified k ((i, s) ∷ l) all = elim (Bool-cases (key_eq i k)) [
    | inl same ↦ rw same all.1
    | inr other ↦ rw other (all.0, evict-AllJustified k l all.1)
  ]

  evict_oldest-AllJustified :
      (l : List (Key × Record)) → AllJustified l → AllJustified (evict_oldest l)
  unfolding evict_oldest
  evict_oldest-AllJustified [] all = tt
  evict_oldest-AllJustified ((k, r) ∷ l) all =
      evict-AllJustified (oldest k r.last_at_ms l) ((k, r) ∷ l) all

  pub make_room-AllJustified :
      (e : ProductCustodyEngine) → AllJustified e.records → AllJustified (make_room e).records
  unfolding make_room
  make_room-AllJustified e all = elim (Bool-cases (leb_ℤ e.max_records (pos (length e.records)))) [
    | inl full ↦ rw full (evict_oldest-AllJustified e.records all)
    | inr room ↦ rw room all
  ]

  pub observe_record-IsJustified :
      (e : ProductCustodyEngine) (o : CustodyObservation) (r : Record)
      → P o
      → AllJustified e.records
      → IsJustified P (key_of o) r
      → IsJustified P
          (key_of o)
          (update e.max_episode_ms e.pos_grace_ms o (recall o.event_id r.event_ids) r).0
  observe_record-IsJustified e o r p all j =
      update-IsJustified e.max_episode_ms e.pos_grace_ms o (recall o.event_id r.event_ids) r
        (key_of o) p refl j

  observe_record-AllJustified :
      (e : ProductCustodyEngine) (o : CustodyObservation) (r : Record)
      → P o
      → AllJustified e.records
      → IsJustified P (key_of o) r
      → AllJustified (observe_record e o r).0.records
  unfolding observe_record
  observe_record-AllJustified e o r p all j =
      store-AllJustified (key_of o) (updated e o r).0 e.records
        (observe_record-IsJustified e o r p all j) all

  -- The record that an observation lands on is justified, in an engine that is.
  pub admit-AllJustified :
      (e : ProductCustodyEngine) (o : CustodyObservation) (found : Option Record)
      → P o
      → AllJustified e.records
      → find (key_of o) e.records ≡ found
      → AllJustified (admit e o found).0.records
  admit-AllJustified e o (some r) p all h =
      observe_record-AllJustified e o r p all (find-IsJustified (key_of o) e.records r all h)
  admit-AllJustified e o none p all h =
      observe_record-AllJustified (make_room e) o fresh_record p (make_room-AllJustified e all)
        (fresh_record-IsJustified (key_of o))

  -- An accepted observation keeps every record justified by what the engine was given.
  pub observe-AllJustified :
      (e : ProductCustodyEngine) (o : CustodyObservation) (e' : ProductCustodyEngine)
      (a : CustodyAssessment)
      → P o
      → AllJustified e.records
      → observe e o ≡ some (e', a)
      → AllJustified e'.records
  observe-AllJustified e o e' a p all h =
      rw (← ap (λ (x : ProductCustodyEngine × CustodyAssessment). x.0) (observe-admit e o e' a h))
        (admit-AllJustified e o (find (key_of o) e.records) p all refl)
