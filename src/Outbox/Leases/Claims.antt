-- ===== src/Outbox/Leases/Claims.antt =====
-- What `claim` gives out, and that an installation has one request in flight.
use mathlib.Core.Path.{subst}
use aisle_signals.Common.{
  ◌≡◌, ap, Bool, true, false, ◌&&◌, ℕ, ◌≤◌, ◌<◌, ◌+◌, Option, none, some, List, [], ◌∷◌, String,
  arith, tests, Bool-cases, Option-cases, inl, inr, All, All-map, if◌then◌else◌, leb,
}
use aisle_signals.Observation.Model.{Instant}
use aisle_signals.Outbox.Model.{
  ok, stamp, Scope, BindingRef, Item, Vault, Db, Binding, Claim, observation, is_active,
  is_withdrawal, is_some, is_connected,
}
use aisle_signals.Outbox.Rows.{first, find_binding, decode, expire_items}
use aisle_signals.Outbox.Rows.Overdue.{InTime, expire_items-InTime, update_where-InTime}
use aisle_signals.Outbox.Returns.{Returns, Result-cases, value-Returns}
use aisle_signals.Outbox.Leases.{
  foremost, comes_before, claim_due, claim, take_lease, is_due, is_lapsed, is_held,
}

abbrev Holds : (Item → Type 0) → Option Item → Type 0
Holds Q none = Unit
Holds Q (some i) = Q i

contender-Holds :
    (Q : Item → Type 0) (best : Option Item) (i : Item)
    → Q i
    → Holds Q best
    → Holds Q (elim best [ none ↦ some i | some b ↦ if comes_before i b then some i else some b ])
contender-Holds Q none i h hb = h
contender-Holds Q (some b) i h hb = elim (Bool-cases (comes_before i b)) [
  | inl sooner ↦ rw sooner h
  | inr later ↦ rw later hb
]

-- What is selected is a row that the test accepts, and has what all the rows have.
foremost-Holds :
    (Q : Item → Type 0) (p : Item → Bool) (is : List Item) (best : Option Item)
    → All (λ i. p i ≡ true → Q i) is
    → Holds Q best
    → Holds Q (foremost p best is)
unfolding foremost
foremost-Holds Q p [] best h hb = hb
foremost-Holds Q p (j ∷ js) best h hb = foremost-Holds Q p js _ h.1 (elim (Bool-cases (p j)) [
  | inr skip ↦ rw skip hb
  | inl chosen ↦ rw chosen (contender-Holds Q best j (h.0 chosen) hb)
])

-- A claim that was given out: an observation goes out of an active binding only, before its
-- deadline, and its lease ends no later than that or a minute from now.
pub record IsTimely (now : ℕ) (b : Binding) (c : Claim) : Type 0 where
  pub within_minute : c.lease_until ≤ now + 60000
  pub is_sending : c.operation ≡ observation → is_active b.state ≡ true
  pub before_deadline : c.operation ≡ observation → now < c.lease_until
  pub leased_in_time : c.operation ≡ observation → c.lease_until ≤ c.timing.deadline_ms

abbrev GivesTimely : ℕ → Binding → Option Claim × Db → Type 0
GivesTimely now b (none, db) = Unit
GivesTimely now b (some c, db) = IsTimely now b c

due-before :
    (ref : BindingRef) (now : ℕ) (sending : Bool) (i : Item)
    → InTime ref now i
    → is_due ref now sending i ≡ true
    → is_withdrawal i.operation ≡ false
    → (sending ≡ true) × (now < i.timing.deadline_ms)
due-before ref now sending i t d w = (ground arith, grind tests)

take_lease_timely :
    (vault : Vault) (scope : Scope) (ref : BindingRef) (b : Binding) (token : String)
    (seconds now : ℕ) (i : Item) (db : Db)
    → 1 ≤ seconds
    → seconds ≤ 60
    → InTime ref now i
    → is_due ref now (is_active b.state) i ≡ true
    → Returns (GivesTimely now b) (take_lease vault scope ref token seconds now i db)
unfolding take_lease
take_lease_timely vault scope ref b token seconds now i db h1 h2 t d =
    elim (Result-cases (decode vault scope ref i)) [
      | inr (c, e) ↦ rw e tt
      | inl (content, e) ↦ rw e (record {
        within_minute = ground arith;
        is_sending = λ o. (due-before ref now (is_active b.state) i t d (ap is_withdrawal o)).0;
        before_deadline = λ o.
            let w = ap is_withdrawal o in
            let late = (due-before ref now (is_active b.state) i t d w).1 in
            rw w (omega (arith, late, h1));
        leased_in_time = λ o. let w = ap is_withdrawal o in rw w (omega arith);
      })
    ]

Sendable : BindingRef → ℕ → Bool → Item → Type 0
Sendable ref now sending i = InTime ref now i × (is_due ref now sending i ≡ true)

claim_due_timely :
    (vault : Vault) (scope : Scope) (ref : BindingRef) (b : Binding) (token : String)
    (seconds now : ℕ) (db : Db)
    → 1 ≤ seconds
    → seconds ≤ 60
    → All (InTime ref now) db.items
    → Returns (GivesTimely now b) (claim_due vault scope ref b token seconds now db)
unfolding claim_due Sendable
claim_due_timely vault scope ref b token seconds now db h1 h2 t =
    elim (Bool-cases (is_some (first (is_held scope now) db.capacity))) [
      | inl busy ↦ rw busy tt
      | inr free ↦
          rw free
            (elim (Option-cases (foremost (is_due ref now (is_active b.state)) none db.items)) [
              | inl idle ↦ rw idle tt
              | inr (i, e) ↦
                  let s = subst (Holds (Sendable ref now (is_active b.state))) e (
                    foremost-Holds (Sendable ref now (is_active b.state)) _ db.items none
                      (All-map (λ j hj d. (hj, d)) db.items t) tt) in
                  rw e (take_lease_timely vault scope ref b token seconds now i db h1 h2 s.0 s.1)
            ])
    ]

-- A claim is given out in time: it is leased for a minute at most, and when it is an observation,
-- its binding is active, its deadline has not passed and its lease ends by the deadline.
pub claim-IsTimely :
    (vault : Vault) (nonce : String → String) (scope : Scope) (ref : BindingRef) (token : String)
    (seconds at : ℕ) (now : Instant) (db d db' : Db) (b : Binding) (c : Claim)
    → stamp now ≡ ok at
    → find_binding vault scope ref at db ≡ ok (b, d)
    → claim vault nonce scope ref token seconds now db ≡ ok (some c, db')
    → IsTimely at b c
unfolding claim
claim-IsTimely vault nonce scope ref token seconds at now db d db' b c s f h =
    value-Returns (GivesTimely at b) _ (some c, db')
      (rw s (
        rw f (elim (Bool-cases (leb 1 seconds && leb seconds 60)) [
          | inr wrong ↦ rw wrong tt
          | inl bounds ↦ rw bounds (elim (Bool-cases (is_connected b.state)) [
            | inr gone ↦ rw gone tt
            | inl there ↦
                rw there (elim (Result-cases (expire_items vault nonce scope ref at d.items)) [
                  | inr (e, failed) ↦ rw failed tt
                  | inl (is, done) ↦ rw done (
                      claim_due_timely vault scope ref b token seconds at _ (ground arith)
                        (ground arith)
                        (update_where-InTime ref at (is_lapsed ref at) is (λ i l. ground arith)
                          (expire_items-InTime vault nonce scope ref at d.items is done)))
                ])
          ])
        ])))
      h
