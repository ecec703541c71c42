-- ===== src/Outbox/Leases/Receipts.antt =====
-- An acknowledgement is taken once.
use mathlib.Core.Path.{subst}
use aisle_signals.Common.{
  ◌≡◌, refl, sym, ap, ◌∙◌, ℕ, ◌≤◌, Bool, true, false, ◌&&◌, Option, none, some, List, [], ◌∷◌,
  String, str_eq, ◌==◌, eq_iff, Bool-cases, Option-cases, inl, inr, arith, if◌then◌else◌, le→leb,
}
use aisle_signals.Observation.Model.{Instant}
use aisle_signals.Outbox.Model.{
  receipt_conflict, stale_lease, ok, err, ◌>>◌, require, stamp, Scope, BindingRef, Binding, Item,
  Db, Vault, Claim, Capacity, is_settled, holds, observation, withdrawal, is_connected, Operation,
}
use aisle_signals.Outbox.Rows.{
  first, update_where, is_binding, is_item, check_binding, set_clock, find_binding, find_item,
  set_item,
}
use aisle_signals.Outbox.Returns.{Returns, Result-cases, value-Returns}
use aisle_signals.Outbox.Leases.{
  acknowledge, retry, reject, settle, acknowledged_item, settled_state, same_ref, settle_capacity,
  holds_lease, find_lease,
}

-- The row that a change of its key's rows leaves under the same test.
first_changed :
    {A : Type 0} (p q : A → Bool) (f : A → A) (xs : List A) (x : A)
    → ((y : A) → p y ≡ true → q y ≡ true)
    → ((y : A) → p (f y) ≡ p y)
    → first p xs ≡ some x
    → first p (update_where q f xs) ≡ some (f x)
unfolding first update_where
first_changed p q f [] x k s e = absurd (cc e)
first_changed p q f (y ∷ ys) x k s e = elim (Bool-cases (p y)) [
  | inl t ↦
      let same : y ≡ x = ground (arith, e, t) in rw (k y t, s y, t) (ap (λ z. some (f z)) same)
  | inr n ↦ elim (Bool-cases (q y)) [
    | inl u ↦ rw (u, s y, n) (first_changed p q f ys x k s (ground (arith, e, n)))
    | inr v ↦ rw (v, n) (first_changed p q f ys x k s (ground (arith, e, n)))
  ]
]

abbrev clocked : BindingRef → ℕ → List Binding → List Binding
clocked ref at bs = update_where (λ b. str_eq b.id ref.id) (λ b. record b { clock_ms = at }) bs

-- The binding that is found, and the checks that it passed.
record IsBound (vault : Vault) (scope : Scope) (ref : BindingRef) (at : ℕ) (bs : List Binding)
    : Type 0 where
  row : Binding
  is_found : first (is_binding scope ref) bs ≡ some row
  is_checked : check_binding vault ref at row ≡ ok tt

IsBound-of :
    (vault : Vault) (scope : Scope) (ref : BindingRef) (at : ℕ) (db d : Db) (b : Binding)
    → find_binding vault scope ref at db ≡ ok (b, d)
    → IsBound vault scope ref at db.bindings × (d ≡ set_clock ref at db)
unfolding find_binding
IsBound-of vault scope ref at db d b h =
    elim (Option-cases (first (is_binding scope ref) db.bindings)) [
      | inl n ↦ absurd (ground (arith, n, h))
      | inr (row, f) ↦ elim (Result-cases (check_binding vault ref at row)) [
        | inr (c, e) ↦ absurd (ground (arith, f, e, h))
        | inl (u, e) ↦ (record { row = row; is_found = f; is_checked = e }, ground (arith, f, e, h))
      ]
    ]

find_bound :
    (vault : Vault) (scope : Scope) (ref : BindingRef) (at : ℕ) (db : Db)
    → (h : IsBound vault scope ref at db.bindings)
    → find_binding vault scope ref at db ≡ ok (h.row, set_clock ref at db)
unfolding find_binding
find_bound vault scope ref at db h = rw (find_binding, h.is_found, h.is_checked) refl

clock_checked :
    (vault : Vault) (ref : BindingRef) (at at' : ℕ) (b : Binding)
    → at ≤ at'
    → check_binding vault ref at b ≡ ok tt
    → check_binding vault ref at' (record b { clock_ms = at }) ≡ ok tt
unfolding check_binding
clock_checked vault ref at at' b l h = elim (Bool-cases (b.generation == ref.generation)) [
  | inr stale ↦ absurd (ground (arith, stale, h))
  | inl current ↦ elim (Bool-cases (str_eq b.key_hash vault.key_hash)) [
    | inr locked ↦ absurd (ground (arith, current, locked, h))
    | inl opened ↦ rw (current, opened, le→leb at at' l) refl
  ]
]

-- A binding that was found is found again later.
IsBound-later :
    (vault : Vault) (scope : Scope) (ref : BindingRef) (at at' : ℕ) (bs : List Binding)
    → at ≤ at'
    → IsBound vault scope ref at bs
    → IsBound vault scope ref at' (clocked ref at bs)
IsBound-later vault scope ref at at' bs l h = record {
  row = record h.row { clock_ms = at };
  is_found =
      first_changed (is_binding scope ref) (λ b. str_eq b.id ref.id)
        (λ b. record b { clock_ms = at }) bs h.row (λ b t. ground (arith, t)) (λ b. refl)
        h.is_found;
  is_checked = clock_checked vault ref at at' h.row l h.is_checked;
}

-- The claim is acknowledged with the receipt.
record IsReceived (vault : Vault) (ref : BindingRef) (c : Claim) (receipt : String) (db : Db)
    : Type 0 where
  row : Item
  is_found : find_item vault ref c.id db ≡ ok row
  is_settled_by : (is_settled row.state && holds row.settled_token c.token) ≡ true
  is_receipt : row.receipt_id ≡ some receipt

pub holds-some : (o : Option String) (v : String) → holds o v ≡ true → o ≡ some v
holds-some none v h = absurd (cc h)
holds-some (some a) v h = ap some ((eq_iff a v).0 h)

-- A row is found as it was changed.
pub changed_item :
    (vault : Vault) (ref : BindingRef) (id : String) (f : Item → Item) (db : Db) (i : Item)
    (capacity : List Capacity)
    → ((j : Item) → is_item ref id (f j) ≡ is_item ref id j)
    → find_item vault ref id db ≡ ok i
    → find_item vault ref id (record db { items = set_item id f db.items; capacity = capacity })
      ≡ ok (f i)
unfolding find_item
changed_item vault ref id f db i capacity k h = elim (Bool-cases (vault.formats.is_uuid id)) [
  | inr bad ↦ absurd (ground (arith, bad, h))
  | inl good ↦ elim (Option-cases (first (is_item ref id) db.items)) [
    | inl n ↦ absurd (ground (arith, good, n, h))
    | inr (j, found) ↦
        let same : j ≡ i = ground (arith, good, found, h) in
        let after =
          first_changed (is_item ref id) (λ j. str_eq j.id id) f db.items j
            (λ j t. ground (arith, t)) k found in
        rw (good, after) (ap (λ j. ok (f j)) same)
  ]
]

-- A claim that is acknowledged is acknowledged again with its receipt only.
ack_received :
    (vault : Vault) (scope : Scope) (ref : BindingRef) (c : Claim) (receipt other : String) (at : ℕ)
    (now : Instant) (db : Db)
    → stamp now ≡ ok at
    → vault.formats.is_uuid other ≡ true
    → same_ref c.binding ref ≡ true
    → IsBound vault scope ref at db.bindings
    → (h : IsReceived vault ref c receipt db)
    → acknowledge vault scope ref c other now db
      ≡ (require (str_eq receipt other) receipt_conflict >> ok (set_clock ref at db))
unfolding acknowledge find_item update_where
ack_received vault scope ref c receipt other at now db s u r b h =
    rw (acknowledge, s, u, find_bound vault scope ref at db b, r)
      (rw (h.is_found, h.is_settled_by, h.is_receipt) refl)

-- What an acknowledgement leaves behind.
abbrev Acknowledged : Vault → Scope → BindingRef → Claim → String → ℕ → Db → Type 0
Acknowledged vault scope ref c receipt at' db =
    (same_ref c.binding ref ≡ true)
    × (IsBound vault scope ref at' db.bindings × IsReceived vault ref c receipt db)

pub lease_item :
    (vault : Vault) (scope : Scope) (ref : BindingRef) (c : Claim) (at : ℕ) (db : Db)
    → Returns
        (λ (r : Item × Db). find_item vault ref c.id r.1 ≡ ok r.0)
        (find_lease vault scope ref c at db)
unfolding find_lease
lease_item vault scope ref c at db = elim (Result-cases (find_binding vault scope ref at db)) [
  | inr (e, lost) ↦ rw (find_lease, lost) tt
  | inl (found, there) ↦
      rw (find_lease, there)
        (elim (Bool-cases (same_ref c.binding ref && is_connected found.0.state)) [
          | inr gone ↦ rw gone tt
          | inl held ↦ rw held (elim (Result-cases (find_item vault ref c.id found.1)) [
            | inr (e, missing) ↦ rw missing tt
            | inl (i, present) ↦ rw present (elim (Bool-cases (holds_lease ref c at i)) [
              | inr over ↦ rw over tt
              | inl on ↦ rw on present
            ])
          ])
        ])
]

lease_facts :
    (vault : Vault) (scope : Scope) (ref : BindingRef) (c : Claim) (at : ℕ) (db : Db)
    → IsBound vault scope ref at db.bindings
    → Returns
        (λ (r : Item × Db). (r.1 ≡ set_clock ref at db) × (find_item vault ref c.id r.1 ≡ ok r.0))
        (find_lease vault scope ref c at db)
unfolding find_lease
lease_facts vault scope ref c at db b =
    rw (find_lease, find_bound vault scope ref at db b)
      (elim (Bool-cases (same_ref c.binding ref && is_connected b.row.state)) [
        | inr lost ↦ rw lost tt
        | inl held ↦ rw held (elim (Result-cases (find_item vault ref c.id (set_clock ref at db))) [
          | inr (e, missing) ↦ rw missing tt
          | inl (i, there) ↦ rw there (elim (Bool-cases (holds_lease ref c at i)) [
            | inr over ↦ rw over tt
            | inl on ↦ rw on (refl, there)
          ])
        ])
      ])

always_settled : (o : Operation) → is_settled (settled_state o) ≡ true
always_settled observation = refl
always_settled withdrawal = refl

settled_by :
    (c : Claim) (receipt : String) (at : ℕ) (i : Item)
    → (is_settled (acknowledged_item c receipt at i).state
        && holds (acknowledged_item c receipt at i).settled_token c.token)
      ≡ true
settled_by c receipt at i = rw (always_settled i.operation, (eq_iff c.token c.token).1 refl) refl

settle-Acknowledged :
    (vault : Vault) (scope : Scope) (ref : BindingRef) (c : Claim) (receipt : String) (at at' : ℕ)
    (db : Db)
    → at ≤ at'
    → same_ref c.binding ref ≡ true
    → IsBound vault scope ref at db.bindings
    → Returns (Acknowledged vault scope ref c receipt at') (settle vault scope ref c receipt at db)
unfolding settle find_item
settle-Acknowledged vault scope ref c receipt at at' db l r b =
    elim (Result-cases (find_lease vault scope ref c at db)) [
      | inr (e, refused) ↦ rw (settle, refused) tt
      | inl (lease, granted) ↦
          let facts =
            value-Returns _ (find_lease vault scope ref c at db) lease
              (lease_facts vault scope ref c at db b) granted in
          rw (settle, granted)
            (
              r,
              (
                subst (λ d. IsBound vault scope ref at' d.bindings) (sym facts.0)
                    (IsBound-later vault scope ref at at' db.bindings l b),
                record {
                  row = acknowledged_item c receipt at lease.0;
                  is_found =
                      changed_item vault ref c.id (acknowledged_item c receipt at) lease.1 lease.0
                        (settle_capacity scope c.token lease.1.capacity) (λ j. refl) facts.1;
                  is_settled_by = settled_by c receipt at lease.0;
                  is_receipt = refl;
                },
              ),
            )
    ]

rest-Acknowledged :
    (vault : Vault) (scope : Scope) (ref : BindingRef) (c : Claim) (receipt : String) (at at' : ℕ)
    (db : Db) (i : Item)
    → at ≤ at'
    → same_ref c.binding ref ≡ true
    → IsBound vault scope ref at db.bindings
    → IsBound vault scope ref at' db.bindings
    → find_item vault ref c.id db ≡ ok i
    → Returns (Acknowledged vault scope ref c receipt at') (
        if is_settled i.state && holds i.settled_token c.token
        then require (holds i.receipt_id receipt) receipt_conflict >> ok db
        else settle vault scope ref c receipt at db)
rest-Acknowledged vault scope ref c receipt at at' db i l r b b' f =
    elim (Bool-cases (is_settled i.state && holds i.settled_token c.token)) [
      | inr open' ↦ rw open' (settle-Acknowledged vault scope ref c receipt at at' db l r b)
      | inl settled ↦ rw settled (elim (Bool-cases (holds i.receipt_id receipt)) [
        | inr another ↦ rw another tt
        | inl own ↦ rw own (
          r,
          (
            b',
            record {
              row = i;
              is_found = f;
              is_settled_by = settled;
              is_receipt = holds-some i.receipt_id receipt own;
            },
          ),
        )
      ])
    ]

acknowledge-Acknowledged :
    (vault : Vault) (scope : Scope) (ref : BindingRef) (c : Claim) (receipt : String) (at at' : ℕ)
    (now : Instant) (db : Db)
    → stamp now ≡ ok at
    → at ≤ at'
    → Returns
        (Acknowledged vault scope ref c receipt at')
        (acknowledge vault scope ref c receipt now db)
unfolding acknowledge
acknowledge-Acknowledged vault scope ref c receipt at at' now db s l =
    elim (Bool-cases (vault.formats.is_uuid receipt)) [
      | inr bad ↦ rw (acknowledge, s, bad) tt
      | inl good ↦ elim (Result-cases (find_binding vault scope ref at db)) [
        | inr (e, lost) ↦ rw (acknowledge, s, good, lost) tt
        | inl (found, there) ↦ elim (Bool-cases (same_ref c.binding ref)) [
          | inr other ↦ rw (acknowledge, s, good, there, other) tt
          | inl same ↦
              let (b, moved) = IsBound-of vault scope ref at db found.1 found.0 there in
              let again =
                subst (λ d. IsBound vault scope ref at d.bindings) (sym moved)
                  (IsBound-later vault scope ref at at db.bindings (omega arith) b) in
              let after =
                subst (λ d. IsBound vault scope ref at' d.bindings) (sym moved)
                  (IsBound-later vault scope ref at at' db.bindings l b) in
              elim (Result-cases (find_item vault ref c.id found.1)) [
                | inr (e, missing) ↦ rw (acknowledge, s, good, there, same, missing) tt
                | inl (i, present) ↦
                    rw (acknowledge, s, good, there, same, present)
                      (rest-Acknowledged vault scope ref c receipt at at' found.1 i l same again
                        after present)
              ]
        ]
      ]
    ]

settled_unleased :
    (ref : BindingRef) (c : Claim) (at : ℕ) (i : Item)
    → (is_settled i.state && holds i.settled_token c.token) ≡ true
    → holds_lease ref c at i ≡ false
settled_unleased ref c at i h = ground (arith, h)

-- The lease of an acknowledged claim is over.
received_stale :
    (vault : Vault) (scope : Scope) (ref : BindingRef) (c : Claim) (receipt : String) (at : ℕ)
    (db : Db)
    → IsBound vault scope ref at db.bindings
    → IsReceived vault ref c receipt db
    → find_lease vault scope ref c at db ≡ err stale_lease
unfolding find_lease find_item
received_stale vault scope ref c receipt at db b h =
    rw (find_lease, find_bound vault scope ref at db b)
      (elim (Bool-cases (same_ref c.binding ref && is_connected b.row.state)) [
        | inr lost ↦ rw lost refl
        | inl held ↦
            rw held (rw h.is_found (rw (settled_unleased ref c at h.row h.is_settled_by) refl))
      ])

-- On the tables that an acknowledgement leaves, at its time or later, the same receipt is accepted
-- again and changes nothing but the clock of the binding, another well-formed receipt is refused as a
-- conflict, and the claim can no longer be retried or rejected.
pub acknowledged_once :
    (vault : Vault) (scope : Scope) (ref : BindingRef) (c : Claim) (receipt other : String)
    (at at' : ℕ) (now now' : Instant) (db db' : Db) (nonce : String → String) (delay : ℕ)
    (code : String)
    → stamp now ≡ ok at
    → stamp now' ≡ ok at'
    → at ≤ at'
    → acknowledge vault scope ref c receipt now db ≡ ok db'
    → vault.formats.is_uuid receipt ≡ true
    → vault.formats.is_uuid other ≡ true
    → str_eq receipt other ≡ false
    → (acknowledge vault scope ref c receipt now' db' ≡ ok (set_clock ref at' db'))
      × ((acknowledge vault scope ref c other now' db' ≡ err receipt_conflict)
          × ((retry vault scope ref c delay now' db' ≡ err stale_lease)
              × (reject vault nonce scope ref c code now' db' ≡ err stale_lease)))
unfolding retry reject
acknowledged_once vault scope ref c receipt other at at' now now' db db' nonce delay code s s' l h u
      v d =
    let (r, (b, a)) =
      value-Returns (Acknowledged vault scope ref c receipt at')
        (acknowledge vault scope ref c receipt now db) db'
        (acknowledge-Acknowledged vault scope ref c receipt at at' now db s l) h in
    let twice = ack_received vault scope ref c receipt receipt at' now' db' s' u r b a in
    let clash = ack_received vault scope ref c receipt other at' now' db' s' v r b a in
    let gone = received_stale vault scope ref c receipt at' db' b a in
    (
      twice ∙ rw ((eq_iff receipt receipt).1 refl) refl,
      (clash ∙ rw d refl, (rw (retry, s', gone) refl, rw (reject, s', gone) refl)),
    )
