-- ===== src/Outbox/Leases/Exclusive.antt =====
-- One request of an installation is in flight at a time, and none after a restore.
use aisle_signals.Common.{
  ◌≡◌, refl, true, ◌&&◌, ℕ, ◌<◌, Option, none, some, List, [], ◌∷◌, String, arith, Bool-cases,
  Option-cases, inl, inr, leb, str_eq, eq_iff,
}
use aisle_signals.Observation.Model.{Instant}
use aisle_signals.Outbox.Model.{
  ok, stamp, Scope, BindingRef, Vault, Db, Binding, Claim, Capacity, is_active, is_some,
  is_connected,
}
use aisle_signals.Outbox.Rows.{first, find_binding, check_binding, is_binding, decode, expire_items}
use aisle_signals.Outbox.Returns.{Returns, Result-cases, value-Returns}
use aisle_signals.Outbox.Leases.{
  foremost, claim_due, claim, take_lease, lease_end, is_due, is_held, reserve,
}

abbrev pub Busy : Scope → ℕ → List Capacity → Type 0
Busy scope now cs = is_some (first (is_held scope now) cs) ≡ true

reserve-Busy :
    (scope : Scope) (now : ℕ) (c : Capacity) (cs : List Capacity)
    → is_held scope now c ≡ true
    → Busy scope now (reserve c cs)
unfolding first reserve
reserve-Busy scope now c [] h = rw h refl
reserve-Busy scope now c (d ∷ ds) h =
    elim (Bool-cases (str_eq d.installation_id c.installation_id)) [
      | inl same ↦ rw same (rw h refl)
      | inr other ↦ rw other (elim (Bool-cases (is_held scope now d)) [
        | inl held ↦ rw held refl
        | inr free ↦ rw free (reserve-Busy scope now c ds h)
      ])
    ]

held_until :
    (scope scope' : Scope) (token : String) (later until : ℕ)
    → scope.installation_id ≡ scope'.installation_id
    → later < until
    → is_held scope' later
        (record { installation_id = scope.installation_id; token = token; until_ms = until })
      ≡ true
held_until scope scope' token later until same before =
    ground (arith, eq_iff scope.installation_id scope'.installation_id)

-- Until the lease of the claim that was given out ends, the installation is busy.
abbrev pub Occupies : Scope → ℕ → Option Claim × Db → Type 0
Occupies scope now (none, db) = Unit
Occupies scope now (some c, db) = now < c.lease_until → Busy scope now db.capacity

claim_due-Occupies :
    (vault : Vault) (scope scope' : Scope) (ref : BindingRef) (b : Binding) (token : String)
    (seconds at later : ℕ) (db : Db)
    → scope.installation_id ≡ scope'.installation_id
    → Returns (Occupies scope' later) (claim_due vault scope ref b token seconds at db)
unfolding claim_due take_lease
claim_due-Occupies vault scope scope' ref b token seconds at later db same =
    elim (Bool-cases (is_some (first (is_held scope at) db.capacity))) [
      | inl busy ↦ rw busy tt
      | inr free ↦
          rw free
            (elim (Option-cases (foremost (is_due ref at (is_active b.state)) none db.items)) [
              | inl idle ↦ rw idle tt
              | inr (i, e) ↦ rw e (elim (Result-cases (decode vault scope ref i)) [
                | inr (c, f) ↦ rw f tt
                | inl (content, f) ↦ rw f (λ before.
                    reserve-Busy scope' later _ db.capacity
                      (held_until scope scope' token later (lease_end at seconds i) same before))
              ])
            ])
    ]

-- `_binding` changes neither the items nor the reservations.
pub find_binding-keeps :
    (vault : Vault) (scope : Scope) (ref : BindingRef) (now : ℕ) (db : Db)
    → Returns
        (λ (r : Binding × Db). (r.1.capacity ≡ db.capacity) × (r.1.items ≡ db.items))
        (find_binding vault scope ref now db)
unfolding find_binding
find_binding-keeps vault scope ref now db =
    elim (Option-cases (first (is_binding scope ref) db.bindings)) [
      | inl missing ↦ rw missing tt
      | inr (b, e) ↦ rw e (elim (Result-cases (check_binding vault ref now b)) [
        | inl (u, f) ↦ rw f (refl, refl)
        | inr (c, f) ↦ rw f tt
      ])
    ]

Idle : Option Claim × Db → Type 0
Idle r = r.0 ≡ none

claim-Idle :
    (vault : Vault) (nonce : String → String) (scope : Scope) (ref : BindingRef) (token : String)
    (seconds at : ℕ) (now : Instant) (db : Db)
    → stamp now ≡ ok at
    → Busy scope at db.capacity
    → Returns Idle (claim vault nonce scope ref token seconds now db)
unfolding claim claim_due Idle
claim-Idle vault nonce scope ref token seconds at now db s busy =
    rw s (elim (Result-cases (find_binding vault scope ref at db)) [
      | inr (c, f) ↦ rw f tt
      | inl ((b, d), f) ↦
          let keep =
            value-Returns
              (λ (r : Binding × Db). (r.1.capacity ≡ db.capacity) × (r.1.items ≡ db.items)) _ (b, d)
              (find_binding-keeps vault scope ref at db) f in
          rw f (elim (Bool-cases (leb 1 seconds && leb seconds 60)) [
            | inr wrong ↦ rw wrong tt
            | inl bounds ↦ rw bounds (elim (Bool-cases (is_connected b.state)) [
              | inr gone ↦ rw gone refl
              | inl there ↦
                  rw there (elim (Result-cases (expire_items vault nonce scope ref at d.items)) [
                    | inr (e, failed) ↦ rw failed tt
                    | inl (is, done) ↦ rw done (rw keep.0 (rw busy refl))
                  ])
            ])
          ])
    ])

pub claim-Occupies :
    (vault : Vault) (nonce : String → String) (scope scope' : Scope) (ref : BindingRef)
    (token : String) (seconds later : ℕ) (now : Instant) (db : Db)
    → scope.installation_id ≡ scope'.installation_id
    → Returns (Occupies scope' later) (claim vault nonce scope ref token seconds now db)
unfolding claim
claim-Occupies vault nonce scope scope' ref token seconds later now db same =
    elim (Result-cases (stamp now)) [
      | inr (c, s) ↦ rw s tt
      | inl (at, s) ↦ rw s (elim (Result-cases (find_binding vault scope ref at db)) [
        | inr (c, f) ↦ rw f tt
        | inl ((b, d), f) ↦ rw f (elim (Bool-cases (leb 1 seconds && leb seconds 60)) [
          | inr wrong ↦ rw wrong tt
          | inl bounds ↦ rw bounds (elim (Bool-cases (is_connected b.state)) [
            | inr gone ↦ rw gone tt
            | inl there ↦
                rw there (elim (Result-cases (expire_items vault nonce scope ref at d.items)) [
                  | inr (e, failed) ↦ rw failed tt
                  | inl (is, done) ↦
                      rw done
                        (claim_due-Occupies vault scope scope' ref b token seconds at later _ same)
                ])
          ])
        ])
      ])
    ]

-- While the lease of a claim runs, no binding of the same installation gets another.
pub claim_exclusive :
    (vault : Vault) (nonce nonce' : String → String) (scope scope' : Scope) (ref ref' : BindingRef)
    (token token' : String) (seconds seconds' at : ℕ) (now later : Instant) (db db' : Db)
    (c : Claim) (r : Option Claim × Db)
    → scope.installation_id ≡ scope'.installation_id
    → claim vault nonce scope ref token seconds now db ≡ ok (some c, db')
    → stamp later ≡ ok at
    → at < c.lease_until
    → claim vault nonce' scope' ref' token' seconds' later db' ≡ ok r
    → r.0 ≡ none
unfolding Idle
claim_exclusive vault nonce nonce' scope scope' ref ref' token token' seconds seconds' at now later
      db db' c r same given s running h =
    value-Returns Idle _ r
      (claim-Idle vault nonce' scope' ref' token' seconds' at later db' s (
        value-Returns (Occupies scope' at) _ (some c, db')
          (claim-Occupies vault nonce scope scope' ref token seconds at now db same) given running))
      h
