-- ===== src/Media/Leases/Order.antt =====
-- When `claim` gives out a frame: after its observation, in time, and never beside another request.
use mathlib.Core.Path.{subst}
use aisle_signals.Common.{
  ◌≡◌, refl, sym, ◌∙◌, All, All-map, eq_iff, str_eq, not, Any, Any-map, Bool, true, false, ◌&&◌,
  ◌||◌, ℕ, ◌≤◌, ◌<◌, ◌+◌, Option, none, some, List, [], ◌∷◌, String, arith, tests, Bool-cases,
  Option-cases, inl, inr, if◌then◌else◌, leb, ltb, ◌==◌,
}
use aisle_signals.Observation.Model.{Instant}
use aisle_signals.Outbox.Model.{
  ok, stamp, Scope, BindingRef, Item, Vault, Db, Binding, Claim, is_active, is_some, ItemState,
  Operation, observation, withdrawal, is_withdrawal,
}
use aisle_signals.Outbox.Rows.{first, is_binding, update_where}
use aisle_signals.Outbox.Returns.{Returns, value-Returns}
use aisle_signals.Outbox.Leases.{is_held, before, claim as claim_observation}
use aisle_signals.Outbox.Leases.Exclusive.{Busy, Occupies, claim-Occupies}
use aisle_signals.Media.Model.{MediaItem, MediaDb, MediaClaim, is_withdrawn, is_kept}
use aisle_signals.Media.Queue.{
  parent_of, sync_parent, follow, follow_parent, parent_withdrawn, parent_stopped,
}
use aisle_signals.Media.Leases.{
  claim, claim_due, earliest, is_due, is_delivered, take_lease, usable, requeue_lapsed, is_lapsed,
}

abbrev Holds : (MediaItem → Type 0) → Option MediaItem → Type 0
Holds Q none = Unit
Holds Q (some m) = Q m

contender-Holds :
    (Q : MediaItem → Type 0) (best : Option MediaItem) (m : MediaItem)
    → Q m
    → Holds Q best
    → Holds Q (elim best [
      | none ↦ some m
      | some b ↦
          if ltb m.created_ms b.created_ms || (m.created_ms == b.created_ms && before m.id b.id)
          then some m
          else some b
    ])
contender-Holds Q none m h hb = h
contender-Holds Q (some b) m h hb =
    elim (Bool-cases
      (ltb m.created_ms b.created_ms || (m.created_ms == b.created_ms && before m.id b.id))) [
        | inl sooner ↦ rw sooner h
        | inr later ↦ rw later hb
      ]

earliest-Holds :
    (Q : MediaItem → Type 0) (p : MediaItem → Bool) (ms : List MediaItem) (best : Option MediaItem)
    → All (λ m. p m ≡ true → Q m) ms
    → Holds Q best
    → Holds Q (earliest p ms best)
unfolding earliest
earliest-Holds Q p [] best h hb = hb
earliest-Holds Q p (m ∷ ms) best h hb = earliest-Holds Q p ms _ h.1 (elim (Bool-cases (p m)) [
  | inr skip ↦ rw skip hb
  | inl chosen ↦ rw chosen (contender-Holds Q best m (h.0 chosen) hb)
])

-- A row of the table is given out by the claim: a row of the binding whose observation the cloud has
-- received, under a lease that ends by the deadline of the row.
pub record IsGiven (ref : BindingRef) (now : ℕ) (items : List Item) (c : MediaClaim)
    (row : MediaItem) : Type 0 where
  pub is_row : c.id ≡ row.id
  pub own : row.binding_id ≡ ref.id
  pub parent : Item
  pub is_parent : parent_of items row ≡ some parent
  pub is_received : parent.state ≡ ItemState.received
  pub is_observation : parent.operation ≡ observation
  pub running : now < c.lease_until
  pub in_time : c.lease_until ≤ row.deadline_ms
  pub within_minute : c.lease_until ≤ now + 60000

-- Some row of the table is given out.
abbrev pub IsOrdered : BindingRef → ℕ → MediaDb → MediaClaim → Type 0
IsOrdered ref now db c = Any (IsGiven ref now db.outbox.items c) db.media

abbrev GivesOrdered : BindingRef → ℕ → MediaDb → Option MediaClaim × MediaDb → Type 0
GivesOrdered ref now db (none, d) = Unit
GivesOrdered ref now db (some c, d) = IsOrdered ref now db c

due-facts :
    (ref : BindingRef) (now : ℕ) (items : List Item) (m : MediaItem)
    → is_due ref now items m ≡ true
    → (is_delivered (parent_of items m) ≡ true) × ((now < m.deadline_ms) × (m.binding_id ≡ ref.id))
due-facts ref now items m h =
    (ground arith, (grind tests, (eq_iff m.binding_id ref.id).0 (ground arith)))

received-of :
    (s : ItemState)
    → elim s [ ItemState.received ↦ true | _ ↦ false ] ≡ true
    → s ≡ ItemState.received
received-of ItemState.received h = refl
received-of ItemState.pending h = absurd (cc h)
received-of ItemState.leased h = absurd (cc h)
received-of ItemState.withdrawn h = absurd (cc h)
received-of ItemState.expired h = absurd (cc h)
received-of ItemState.cancelled h = absurd (cc h)
received-of ItemState.blocked h = absurd (cc h)

observation-of : (o : Operation) → is_withdrawal o ≡ false → o ≡ observation
observation-of observation h = refl
observation-of withdrawal h = absurd (cc h)

delivered-parent :
    (o : Option Item)
    → is_delivered o ≡ true
    → (p : Item) × ((o ≡ some p) × ((p.state ≡ ItemState.received) × (p.operation ≡ observation)))
delivered-parent none h = absurd (cc h)
delivered-parent (some p) h = (
  p,
  (refl, (received-of p.state (ground (arith, h)), observation-of p.operation (ground (arith, h)))),
)

-- What the upkeep of a row leaves as it is.
abbrev Alike : MediaItem → MediaItem → Type 0
Alike m o =
    (m.id ≡ o.id)
    × ((m.observation_item_id ≡ o.observation_item_id)
        × ((m.binding_id ≡ o.binding_id) × (m.deadline_ms ≡ o.deadline_ms)))

same-Alike : (m : MediaItem) → Alike m m
same-Alike m = (refl, (refl, (refl, refl)))

follow-Alike : (now : ℕ) (p : Option Item) (m : MediaItem) → Alike (follow now p m) m
unfolding follow_parent
follow-Alike now none m = same-Alike m
follow-Alike now (some p) m =
    elim (Bool-cases (not (is_withdrawn m.state) && parent_withdrawn p.state)) [
      | inl gone ↦ rw gone (same-Alike m)
      | inr there ↦ rw there (elim (Bool-cases (not (is_kept m.state) && parent_stopped p)) [
        | inl stopped ↦ rw stopped (same-Alike m)
        | inr kept ↦ rw kept (same-Alike m)
      ])
    ]

-- The row comes from a row of the table.
abbrev Stored : List MediaItem → MediaItem → Type 0
Stored media m = Any (Alike m) media

sync-Stored :
    (id : String) (now : ℕ) (items : List Item) (media : List MediaItem)
    → All (Stored media) (sync_parent id now items media)
unfolding sync_parent
sync-Stored id now items [] = tt
sync-Stored id now items (m ∷ media) = (
  inl (elim (Bool-cases (str_eq m.binding_id id)) [
    | inl own ↦ rw own (follow-Alike now (parent_of items m) m)
    | inr other ↦ rw other (same-Alike m)
  ]),
  All-map (λ n h. inr h) (sync_parent id now items media) (sync-Stored id now items media),
)

requeue-Stored :
    (ref : BindingRef) (now : ℕ) (media ms : List MediaItem)
    → All (Stored media) ms
    → All (Stored media) (requeue_lapsed ref now ms)
unfolding requeue_lapsed update_where
requeue-Stored ref now media [] h = tt
requeue-Stored ref now media (m ∷ ms) h = (
  elim (Bool-cases (is_lapsed ref now m)) [ inl lapsed ↦ rw lapsed h.0 | inr kept ↦ rw kept h.0 ],
  requeue-Stored ref now media ms h.1,
)

claim_due-GivesOrdered :
    (scope : Scope) (ref : BindingRef) (b : Binding) (token : String) (seconds now : ℕ)
    (db : MediaDb) (media : List MediaItem)
    → 1 ≤ seconds
    → seconds ≤ 60
    → All (Stored media) db.media
    → GivesOrdered ref now
        (record db { media = media })
        (claim_due scope ref b token seconds now db)
unfolding claim_due take_lease
claim_due-GivesOrdered scope ref b token seconds now db media h1 h2 all =
    let items = db.outbox.items in
    elim (Bool-cases (is_some (first (is_held scope now) db.outbox.capacity))) [
      | inl busy ↦ rw busy tt
      | inr free ↦
          rw free (elim (Option-cases (earliest (is_due ref now db.outbox.items) db.media none)) [
            | inl idle ↦ rw idle tt
            | inr (m, e) ↦
                let Due = λ (m : MediaItem). (is_due ref now items m ≡ true) × Stored media m in
                let (due, stored) = subst (Holds Due) e (
                  earliest-Holds Due _ db.media none (All-map (λ m h d. (d, h)) db.media all) tt) in
                let (sent, (late, own)) = due-facts ref now items m due in
                let (p, (found, (arrived, kind))) = delivered-parent (parent_of items m) sent in
                rw e (elim (Bool-cases (is_active b.state)) [
                  | inr off ↦ rw off tt
                  | inl on ↦ rw on (
                      Any-map
                        (λ o (id, (parent, (binding, deadline))). record {
                          is_row = id;
                          own = sym binding ∙ own;
                          parent = p;
                          is_parent = rw (sym parent) found;
                          is_received = arrived;
                          is_observation = kind;
                          running = omega (arith, late, h1);
                          in_time = omega (arith, deadline);
                          within_minute = omega (arith, h2);
                        })
                        media stored)
                ])
          ])
    ]

claim-GivesOrdered :
    (scope : Scope) (ref : BindingRef) (token : String) (seconds at : ℕ) (now : Instant)
    (db : MediaDb)
    → stamp now ≡ ok at
    → Returns (GivesOrdered ref at db) (claim scope ref token seconds now db)
unfolding claim
claim-GivesOrdered scope ref token seconds at now db s =
    rw s (elim (Bool-cases (leb 1 seconds && leb seconds 60)) [
      | inr wrong ↦ rw wrong tt
      | inl bounds ↦
          rw bounds
            (elim (Option-cases (usable ref (first (is_binding scope ref) db.outbox.bindings))) [
              | inl unusable ↦ rw unusable tt
              | inr (b, e) ↦ rw e (
                  claim_due-GivesOrdered scope ref b token seconds at
                    (record db {
                      media =
                          requeue_lapsed ref at (sync_parent ref.id at db.outbox.items db.media);
                    })
                    db.media (ground arith) (ground arith)
                    (requeue-Stored ref at db.media _
                      (sync-Stored ref.id at db.outbox.items db.media)))
            ])
    ])

-- A claim gives out a row of the table and of the binding, only when the cloud has received the
-- observation of that row, before its deadline, for a minute at most and no longer than the deadline.
pub claim-IsOrdered :
    (scope : Scope) (ref : BindingRef) (token : String) (seconds at : ℕ) (now : Instant)
    (db db' : MediaDb) (c : MediaClaim)
    → stamp now ≡ ok at
    → claim scope ref token seconds now db ≡ ok (some c, db')
    → IsOrdered ref at db c
claim-IsOrdered scope ref token seconds at now db db' c s h =
    value-Returns (GivesOrdered ref at db) _ (some c, db')
      (claim-GivesOrdered scope ref token seconds at now db s) h

Idle : Option MediaClaim × MediaDb → Type 0
Idle r = r.0 ≡ none

claim-Idle :
    (scope : Scope) (ref : BindingRef) (token : String) (seconds at : ℕ) (now : Instant)
    (db : MediaDb)
    → stamp now ≡ ok at
    → Busy scope at db.outbox.capacity
    → Returns Idle (claim scope ref token seconds now db)
unfolding claim claim_due Idle
claim-Idle scope ref token seconds at now db s busy =
    rw s (elim (Bool-cases (leb 1 seconds && leb seconds 60)) [
      | inr wrong ↦ rw wrong tt
      | inl bounds ↦
          rw bounds
            (elim (Option-cases (usable ref (first (is_binding scope ref) db.outbox.bindings))) [
              | inl unusable ↦ rw unusable refl
              | inr (b, e) ↦ rw e (rw busy refl)
            ])
    ])

-- While the lease of an observation's claim runs, no frame of the installation is given out.
pub claim_waits :
    (vault : Vault) (nonce : String → String) (scope scope' : Scope) (ref ref' : BindingRef)
    (token token' : String) (seconds seconds' at : ℕ) (now later : Instant) (db db' : Db)
    (media : List MediaItem) (c : Claim) (r : Option MediaClaim × MediaDb)
    → scope.installation_id ≡ scope'.installation_id
    → claim_observation vault nonce scope ref token seconds now db ≡ ok (some c, db')
    → stamp later ≡ ok at
    → at < c.lease_until
    → claim scope' ref' token' seconds' later (record { outbox = db'; media = media }) ≡ ok r
    → r.0 ≡ none
unfolding Idle
claim_waits vault nonce scope scope' ref ref' token token' seconds seconds' at now later db db'
      media c r same given s running h =
    value-Returns Idle _ r
      (claim-Idle scope' ref' token' seconds' at later _ s (
        value-Returns (Occupies scope' at) _ (some c, db')
          (claim-Occupies vault nonce scope scope' ref token seconds at now db same) given running))
      h
