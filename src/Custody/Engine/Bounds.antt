-- ===== src/Custody/Engine/Bounds.antt =====
-- The engine is bounded: its records, and the timeline and remembered events of each.
use aisle_signals.Common.{
  suc, ◌+◌, ◌≤◌, ◌≡◌, refl, ap, ◌⊎◌, Bool, true, false, Option, none, some, List, [], ◌∷◌, arith,
  length, All, Any, if◌then◌else◌, Bool-cases, inl, inr, eq_iff,
}
use aisle_signals.Common.Int.{ℤ, pos, ◌≤ℤ◌, leb_ℤ, ltb_ℤ, leb_ℤ→gt, leb_ℤ→le}
use aisle_signals.Custody.Model.{CustodyObservation, CustodyAssessment, Record, fresh_record}
use aisle_signals.Custody.Steps.Log.{
  IsTidy, accept-IsTidy, compromise_if-IsTidy, fresh_record-IsTidy,
}
use aisle_signals.Custody.Engine.{
  Key, key_of, key_eq, ProductCustodyEngine, find, store, oldest, evict, evict_oldest, make_room,
  update, updated, recall, observe_record, admit, observe,
}
use aisle_signals.Custody.Engine.History.{observe-admit}

-- At most `max_records` records, each with a tidy log.
pub record IsBounded (e : ProductCustodyEngine) : Type 0 where
  pub positive : pos 1 ≤ℤ e.max_records
  pub few : pos (length e.records) ≤ℤ e.max_records
  pub tidy : All (λ p. IsTidy p.1) e.records

pub key_eq_refl : (k : Key) → key_eq k k ≡ true
key_eq_refl k = ground (arith, eq_iff k.0 k.0, eq_iff k.1 k.1, eq_iff k.2 k.2)

length-store_found :
    (k : Key) (r s : Record) (l : List (Key × Record))
    → find k l ≡ some s
    → length (store k r l) ≡ length l
unfolding find store
length-store_found k r s [] h = absurd (cc h)
length-store_found k r s ((j, t) ∷ l) h = ground (arith, length-store_found k r s l)

length-store-le :
    (k : Key) (r : Record) (l : List (Key × Record)) → length (store k r l) ≤ length l + 1
unfolding store
length-store-le k r [] = omega arith
length-store-le k r ((j, t) ∷ l) = ground (arith, length-store-le k r l)

abbrev IsKey : Key → List (Key × Record) → Type 0
IsKey k l = Any (λ p. key_eq p.0 k ≡ true) l

chosen :
    (b : Bool) (k best x : Key) → x ≡ (if b then k else best) → (x ≡ best) ⊎ (key_eq k x ≡ true)
chosen true k best x e = inr (rw e (key_eq_refl k))
chosen false k best x e = inl e

-- The key that `oldest` returns is its start or a key of the list.
oldest_found :
    (best : Key) (at : ℤ) (l : List (Key × Record))
    → (oldest best at l ≡ best) ⊎ IsKey (oldest best at l) l
unfolding oldest
oldest_found best at [] = inl refl
oldest_found best at ((k, r) ∷ l) =
    let better = ltb_ℤ r.last_at_ms at in
    let next = oldest (if better then k else best) (if better then r.last_at_ms else at) l in
    elim (oldest_found (if better then k else best) (if better then r.last_at_ms else at) l) [
      | inl e ↦ elim (chosen better k best next e) [
        | inl same ↦ inl same
        | inr here ↦ inr (inl here)
      ]
      | inr there ↦ inr (inr there)
    ]

length-evict : (k : Key) (l : List (Key × Record)) → IsKey k l → suc (length (evict k l)) ≡ length l
unfolding evict
length-evict k [] h = elim h [ ]
length-evict k ((j, r) ∷ l) (inl h) = rw h
length-evict k ((j, r) ∷ l) (inr h) = ground (arith, length-evict k l h)

length-evict_oldest :
    (l : List (Key × Record)) → 1 ≤ length l → suc (length (evict_oldest l)) ≡ length l
unfolding evict_oldest
length-evict_oldest [] h = elim h [ ]
length-evict_oldest ((k, r) ∷ l) h =
    length-evict (oldest k r.last_at_ms l) ((k, r) ∷ l) (elim (oldest_found k r.last_at_ms l) [
      | inl e ↦ inl (rw e (key_eq_refl k))
      | inr there ↦ inr there
    ])

store-IsTidy :
    (k : Key) (r : Record) (l : List (Key × Record))
    → IsTidy r
    → All (λ p. IsTidy p.1) l
    → All (λ p. IsTidy p.1) (store k r l)
unfolding store
store-IsTidy k r [] t all = (t, tt)
store-IsTidy k r ((j, s) ∷ l) t all = elim (Bool-cases (key_eq j k)) [
  | inl same ↦ rw same (t, all.1)
  | inr other ↦ rw other (all.0, store-IsTidy k r l t all.1)
]

evict-IsTidy :
    (k : Key) (l : List (Key × Record))
    → All (λ p. IsTidy p.1) l
    → All (λ p. IsTidy p.1) (evict k l)
unfolding evict
evict-IsTidy k [] all = tt
evict-IsTidy k ((j, s) ∷ l) all = elim (Bool-cases (key_eq j k)) [
  | inl same ↦ rw same all.1
  | inr other ↦ rw other (all.0, evict-IsTidy k l all.1)
]

evict_oldest-IsTidy :
    (l : List (Key × Record)) → All (λ p. IsTidy p.1) l → All (λ p. IsTidy p.1) (evict_oldest l)
unfolding evict_oldest
evict_oldest-IsTidy [] all = tt
evict_oldest-IsTidy ((k, r) ∷ l) all = evict-IsTidy (oldest k r.last_at_ms l) ((k, r) ∷ l) all

pub find-IsTidy :
    (k : Key) (l : List (Key × Record)) (r : Record)
    → All (λ p. IsTidy p.1) l
    → find k l ≡ some r
    → IsTidy r
unfolding find
find-IsTidy k [] r all h = absurd (cc h)
find-IsTidy k ((j, s) ∷ l) r all h = elim (Bool-cases (key_eq j k)) [
  | inl same ↦ let e : s ≡ r = cc (rw same at h) in rw (← e) all.0
  | inr other ↦ find-IsTidy k l r all.1 (rw other at h)
]

update-IsTidy :
    (longest grace : ℤ) (o : CustodyObservation) (known : Option CustodyObservation) (r : Record)
    → IsTidy r
    → IsTidy (update longest grace o known r).0
unfolding update
update-IsTidy longest grace o (some known) r t = compromise_if-IsTidy _ _ r t
update-IsTidy longest grace o none r t = elim (Bool-cases (leb_ℤ o.at_ms r.last_at_ms)) [
  | inl late ↦ rw late (compromise_if-IsTidy true _ r t)
  | inr new ↦ rw new (accept-IsTidy longest grace o r t)
]

pub make_room_room :
    (e : ProductCustodyEngine)
    → IsBounded e
    → (pos (length (make_room e).records + 1) ≤ℤ e.max_records)
      × ((make_room e).max_records ≡ e.max_records)
      × All (λ p. IsTidy p.1) (make_room e).records
unfolding make_room
make_room_room e b = elim (Bool-cases (leb_ℤ e.max_records (pos (length e.records)))) [
  | inl full ↦ rw full (
    omega (
      arith,
      b.few,
      leb_ℤ→le e.max_records (pos (length e.records)) full,
      b.positive,
      length-evict_oldest e.records,
    ),
    refl,
    evict_oldest-IsTidy e.records b.tidy,
  )
  | inr room ↦
      rw room (omega (arith, leb_ℤ→gt e.max_records (pos (length e.records)) room), refl, b.tidy)
]

admit-IsBounded :
    (e : ProductCustodyEngine) (o : CustodyObservation) (found : Option Record)
    → IsBounded e
    → find (key_of o) e.records ≡ found
    → IsBounded (admit e o found).0
unfolding observe_record
admit-IsBounded e o (some r) b h = record {
  positive = b.positive;
  few = rw (length-store_found (key_of o) (updated e o r).0 r e.records h) b.few;
  tidy =
      store-IsTidy (key_of o) (updated e o r).0 e.records
        (update-IsTidy e.max_episode_ms e.pos_grace_ms o (recall o.event_id r.event_ids) r
          (find-IsTidy (key_of o) e.records r b.tidy h))
        b.tidy;
}
admit-IsBounded e o none b h =
    let (room, same, tidy) = make_room_room e b in
    let m = make_room e in
    let s = updated m o fresh_record in
    record {
      positive = rw same b.positive;
      few = rw same (omega (arith, room, length-store-le (key_of o) s.0 m.records));
      tidy =
          store-IsTidy (key_of o) s.0 m.records
            (update-IsTidy m.max_episode_ms m.pos_grace_ms o none fresh_record fresh_record-IsTidy)
            tidy;
    }

-- Every accepted observation keeps the engine within its bounds: the number of records, the
-- timeline of each record, and the events that it remembers, which stay those of its timeline.
pub observe-IsBounded :
    (e : ProductCustodyEngine) (o : CustodyObservation) (e' : ProductCustodyEngine)
    (a : CustodyAssessment)
    → IsBounded e
    → observe e o ≡ some (e', a)
    → IsBounded e'
observe-IsBounded e o e' a b h =
    rw (← ap (λ (x : ProductCustodyEngine × CustodyAssessment). x.0) (observe-admit e o e' a h))
      (admit-IsBounded e o (find (key_of o) e.records) b refl)
