-- ===== src/Custody/Steps/Log.antt =====
-- The bounded evidence of a record: its timeline and the events that it remembers.
use aisle_signals.Common.{
  ◌+◌, ◌≤◌, ◌≡◌, refl, sym, ap, ◌∙◌, Bool, List, [], ◌∷◌, ◌++◌, String, map, ◌⊎◌, arith, ltb,
  length, length-append, Bool-cases, inl, inr, eq_iff,
}
use mathlib.Core.List.{map-append}
use aisle_signals.Common.Int.{ℤ}
use aisle_signals.Custody.Model.{
  Fact, exit_crossed, CustodyObservation, TimelineEntry, Reason, Record, fresh_record,
}
use aisle_signals.Custody.Steps.{
  compromise_if, note, timeline_step, drop_oldest, forget, move_step, check_step, accept, entry_of,
  max_events,
}

abbrev pub keys : List (String × CustodyObservation) → List String
keys l = map (λ e. e.0) l

abbrev pub ids : List TimelineEntry → List String
ids l = map (λ e. e.event_id) l

-- The remembered events are those of the timeline, in its order, and within the bound.
pub record IsTidy (r : Record) : Type 0 where
  pub matched : keys r.event_ids ≡ ids r.timeline
  pub fits : length r.timeline ≤ max_events

record SameLog (r s : Record) : Type 0 where
  events : s.event_ids ≡ r.event_ids
  entries : s.timeline ≡ r.timeline

SameLog-IsTidy : {r s : Record} → SameLog r s → IsTidy r → IsTidy s
SameLog-IsTidy {r} {s} a t = record {
  matched = ap keys a.events ∙ t.matched ∙ ap ids (sym a.entries);
  fits = rw a.entries t.fits;
}

move_step-SameLog : (f : Fact) (o : CustodyObservation) (r : Record) → SameLog r (move_step f o r)
unfolding move_step
move_step-SameLog exit_crossed o r = record { events = refl; entries = refl }
move_step-SameLog _ o r = record { events = refl; entries = refl }

check_step-SameLog :
    (grace : ℤ) (f : Fact) (o : CustodyObservation) (r : Record)
    → SameLog r (check_step grace f o r)
unfolding check_step
check_step-SameLog grace exit_crossed o r = record { events = refl; entries = refl }
check_step-SameLog grace _ o r = record { events = refl; entries = refl }

forget_head :
    (k : String) (l : List (String × CustodyObservation)) (rest : List String)
    → keys l ≡ k ∷ rest
    → keys (forget k l) ≡ rest
unfolding forget
forget_head k [] rest h = absurd (cc h)
forget_head k ((j, o) ∷ l) rest h = ground (arith, eq_iff j k)

drop_oldest-IsTidy :
    (l : List TimelineEntry) (r : Record)
    → r.timeline ≡ l
    → keys r.event_ids ≡ ids r.timeline
    → length r.timeline ≤ max_events + 1
    → IsTidy (drop_oldest l r)
unfolding drop_oldest
drop_oldest-IsTidy [] r e m h = record { matched = m; fits = rw e (omega arith) }
drop_oldest-IsTidy (x ∷ l) r e m h = record {
  matched = forget_head x.event_id r.event_ids (ids l) (m ∙ ap ids e);
  fits = let h' : length (x ∷ l) ≤ max_events + 1 = rw e at h in omega arith;
}

timeline_step-IsTidy :
    (o : CustodyObservation) (n : Record)
    → keys n.event_ids ≡ ids n.timeline ++ o.event_id ∷ []
    → length n.timeline ≤ max_events
    → IsTidy (timeline_step o n).0
unfolding timeline_step
timeline_step-IsTidy o n m h = elim (Bool-cases (ltb max_events (length grown.timeline))) [
  | inl over ↦ rw over (drop_oldest-IsTidy grown.timeline grown refl matched short)
  | inr within ↦ rw within (record { matched = matched; fits = ground (arith, short) })
]
  where
    grown : Record
    grown = record n { timeline = n.timeline ++ entry_of o ∷ [] }

    matched : keys grown.event_ids ≡ ids grown.timeline
    matched = m ∙ sym (map-append (λ (e : TimelineEntry). e.event_id) n.timeline (entry_of o ∷ []))

    short : length grown.timeline ≤ max_events + 1
    short = omega (arith, length-append n.timeline (entry_of o ∷ []))

note-IsTidy :
    (longest : ℤ) (o : CustodyObservation) (r : Record)
    → IsTidy r
    → IsTidy (timeline_step o (note longest o r)).0
unfolding note
note-IsTidy longest o r t =
    timeline_step-IsTidy o (note longest o r)
      (map-append (λ (e : String × CustodyObservation). e.0) r.event_ids ((o.event_id, o) ∷ [])
        ∙ ap (λ l. l ++ o.event_id ∷ []) t.matched)
      t.fits

-- Taking an observation in keeps the log of the record tidy.
pub accept-IsTidy :
    (longest grace : ℤ) (o : CustodyObservation) (r : Record)
    → IsTidy r
    → IsTidy (accept longest grace o r).0
unfolding accept
accept-IsTidy longest grace o r t =
    let timed = (timeline_step o (note longest o r)).0 in
    SameLog-IsTidy (check_step-SameLog grace o.fact o (move_step o.fact o timed))
      (SameLog-IsTidy (move_step-SameLog o.fact o timed) (note-IsTidy longest o r t))

pub compromise_if-IsTidy :
    (b : Bool) (reason : Reason) (r : Record) → IsTidy r → IsTidy (compromise_if b reason r)
unfolding compromise_if
compromise_if-IsTidy b reason r t = record { matched = t.matched; fits = t.fits }

pub fresh_record-IsTidy : IsTidy fresh_record
fresh_record-IsTidy = record { matched = refl; fits = omega arith }

timeline_events :
    (longest : ℤ) (o : CustodyObservation) (r : Record)
    → IsTidy r
    → ((timeline_step o (note longest o r)).0.event_ids ≡ r.event_ids ++ (o.event_id, o) ∷ [])
      ⊎ ((j : String) × (rest : List String) × (keys r.event_ids ≡ j ∷ rest)
          × ((timeline_step o (note longest o r)).0.event_ids
              ≡ forget j (r.event_ids ++ (o.event_id, o) ∷ [])))
unfolding note timeline_step drop_oldest
timeline_events longest o r t =
    elim (Bool-cases (ltb max_events (length (r.timeline ++ entry_of o ∷ [])))) [
      | inl over ↦
          rw over
            (dropped r.timeline refl (ground (arith, length-append r.timeline (entry_of o ∷ []))))
      | inr within ↦ rw within (inl refl)
    ]
  where
    dropped :
        (l : List TimelineEntry)
        → r.timeline ≡ l
        → 1 ≤ length l
        → ((drop_oldest
              (l ++ entry_of o ∷ [])
              (record (note longest o r) { timeline = r.timeline ++ entry_of o ∷ [] })).event_ids
            ≡ r.event_ids ++ (o.event_id, o) ∷ [])
          ⊎ ((j : String) × (rest : List String) × (keys r.event_ids ≡ j ∷ rest)
              × ((drop_oldest (l ++ entry_of o ∷ []) (record (note longest o r) {
                timeline = r.timeline ++ entry_of o ∷ [];
              })).event_ids
                  ≡ forget j (r.event_ids ++ (o.event_id, o) ∷ [])))
    dropped [] e h = elim h [ ]
    dropped (x ∷ l) e h = inr (x.event_id, ids l, t.matched ∙ ap ids e, refl)

-- The events that a record remembers after it has taken an observation in: the new one comes
-- last, and the first is forgotten past the bound.
pub accept_events :
    (longest grace : ℤ) (o : CustodyObservation) (r : Record)
    → IsTidy r
    → ((accept longest grace o r).0.event_ids ≡ r.event_ids ++ (o.event_id, o) ∷ [])
      ⊎ ((j : String) × (rest : List String) × (keys r.event_ids ≡ j ∷ rest)
          × ((accept longest grace o r).0.event_ids
              ≡ forget j (r.event_ids ++ (o.event_id, o) ∷ [])))
unfolding accept
accept_events longest grace o r t =
    let timed = (timeline_step o (note longest o r)).0 in
    let same =
      (check_step-SameLog grace o.fact o (move_step o.fact o timed)).events
      ∙ (move_step-SameLog o.fact o timed).events in
    rw same (timeline_events longest o r t)
