-- ===== src/Outbox/Upkeep/Restore.antt =====
-- What `mark_restored` leaves of a backup.
use mathlib.Core.Path.{subst}
use aisle_signals.Common.{
  ◌≡◌, ◌≢◌, refl, Bool, true, false, not, ◌&&◌, ℕ, ◌<◌, Option, none, some, List, [], ◌∷◌, String,
  arith, Bool-cases, Option-cases, inl, inr, All, leb, map,
}
use aisle_signals.Observation.Model.{Instant}
use aisle_signals.Outbox.Model.{
  ok, stamp, Scope, BindingRef, Item, ItemState, pending, leased, received, withdrawn, expired,
  cancelled, blocked, withdrawal, is_withdrawn, Vault, Db, Binding, Claim, is_leased, is_some,
  is_connected, max_generation,
}
use aisle_signals.Outbox.Rows.{first, find_binding, check_binding, is_binding, update_where}
use aisle_signals.Outbox.Returns.{Returns, Result-cases, value-Returns}
use aisle_signals.Outbox.Leases.{claim}
use aisle_signals.Outbox.Upkeep.{
  mark_restored, is_restored, restored_binding, is_uncertain, fenced_item, erased_item,
}

-- Why a delivery of the item may have reached the cloud.
pub data MayHaveArrived (i : Item) : Type 0 where
  attempted : i.ever_attempted ≡ true → MayHaveArrived i
  counted : 0 < i.attempts → MayHaveArrived i
  receipted : i.receipt_id ≢ none → MayHaveArrived i
  observed : i.observation_receipt_id ≢ none → MayHaveArrived i
  in_flight : i.state ≡ leased → MayHaveArrived i
  accepted : i.state ≡ received → MayHaveArrived i

-- What a restore may have been told of the item: its withdrawal is acknowledged, nothing of it can
-- have reached the cloud, or it is left as a blocked obligation to withdraw it.
pub data IsAnswered (i j : Item) : Type 0 where
  acknowledged : i.state ≡ withdrawn → i.receipt_id ≢ none → IsAnswered i j
  unsent : ¬ MayHaveArrived i → IsAnswered i j
  obliged : j.operation ≡ withdrawal → j.state ≡ blocked → IsAnswered i j

-- An item of a backup and what the restore leaves of it: the same item of the same binding without
-- payload and lease, that still answers for what may have been delivered.
pub record IsFenced (i j : Item) : Type 0 where
  pub same : j.id ≡ i.id
  pub same_binding : j.binding_id ≡ i.binding_id
  pub answered : IsAnswered i j
  pub unreadable : j.payload ≡ none
  pub unleased : j.lease_token ≡ none
  pub idle : is_leased j.state ≡ false

-- The items of the backup and of the restored tables belong together one by one.
abbrev pub AllFenced : List Item → List Item → Type 0
AllFenced [] [] = Unit
AllFenced (i ∷ is) (j ∷ js) = IsFenced i j × AllFenced is js
AllFenced _ _ = ⊥

some-known : {A : Type 0} → (o : Option A) → is_some o ≡ false → o ≡ none
some-known none h = refl
some-known (some a) h = absurd (cc h)

known-some : {A : Type 0} → (o : Option A) → is_some o ≡ true → o ≢ none
known-some none h e = absurd (cc h)
known-some (some a) h e = absurd (cc e)

withdrawn-of : (s : ItemState) → is_withdrawn s ≡ true → s ≡ withdrawn
withdrawn-of withdrawn h = refl
withdrawn-of pending h = absurd (cc h)
withdrawn-of leased h = absurd (cc h)
withdrawn-of received h = absurd (cc h)
withdrawn-of expired h = absurd (cc h)
withdrawn-of cancelled h = absurd (cc h)
withdrawn-of blocked h = absurd (cc h)

certain_unsent :
    (i : Item)
    → is_uncertain i ≡ false
    → (is_withdrawn i.state && is_some i.receipt_id) ≡ false
    → MayHaveArrived i
    → ⊥
certain_unsent i h n (attempted e) = absurd (ground (arith, h, n, e))
certain_unsent i h n (counted e) = absurd (ground (arith, h, n, e))
certain_unsent i h n (receipted e) = e (some-known i.receipt_id (ground (arith, h, n)))
certain_unsent i h n (observed e) = e (some-known i.observation_receipt_id (ground (arith, h, n)))
certain_unsent i h n (in_flight e) = absurd (ground (arith, h, n, e))
certain_unsent i h n (accepted e) = absurd (ground (arith, h, n, e))

fenced_answered : (now : ℕ) (i : Item) → IsAnswered i (erased_item (fenced_item now i))
fenced_answered now i = elim (Bool-cases (is_uncertain i)) [
  | inl uncertain ↦ obliged (rw uncertain refl) (rw uncertain refl)
  | inr certain ↦ elim (Bool-cases (is_withdrawn i.state && is_some i.receipt_id)) [
    | inl over ↦
        acknowledged (withdrawn-of i.state (ground (arith, over)))
          (known-some i.receipt_id (ground (arith, over)))
    | inr open' ↦ unsent (certain_unsent i certain open')
  ]
]

fenced_id :
    (now : ℕ) (i : Item)
    → ((fenced_item now i).id ≡ i.id) × ((fenced_item now i).binding_id ≡ i.binding_id)
fenced_id now i = (ground arith, ground arith)

fenced_idle : (now : ℕ) (i : Item) → is_leased (fenced_item now i).state ≡ false
fenced_idle now i = ground arith

items-IsFenced :
    (now : ℕ) (is : List Item) → AllFenced is (map (λ i. erased_item (fenced_item now i)) is)
items-IsFenced now [] = tt
items-IsFenced now (i ∷ is) = (
  record {
    same = (fenced_id now i).0;
    same_binding = (fenced_id now i).1;
    answered = fenced_answered now i;
    unreadable = refl;
    unleased = refl;
    idle = fenced_idle now i;
  },
  items-IsFenced now is,
)

abbrev pub Restored : Binding → Type 0
Restored b = is_restored b.state ≡ true

bindings-Restored :
    (now : ℕ) (bs : List Binding)
    → All Restored
        (update_where (λ (b : Binding). not (is_restored b.state)) (restored_binding now) bs)
unfolding update_where
bindings-Restored now [] = tt
bindings-Restored now (b ∷ bs) = (ground arith, bindings-Restored now bs)

abbrev IfRestored : Option Binding → Type 0
IfRestored none = Unit
IfRestored (some b) = is_restored b.state ≡ true

first-IfRestored :
    (p : Binding → Bool) (bs : List Binding) → All Restored bs → IfRestored (first p bs)
unfolding first
first-IfRestored p [] h = tt
first-IfRestored p (x ∷ xs) h = elim (Bool-cases (p x)) [
  | inl found ↦ rw found h.0
  | inr other ↦ rw other (first-IfRestored p xs h.1)
]

find_binding_restored :
    (vault : Vault) (scope : Scope) (ref : BindingRef) (now : ℕ) (db : Db)
    → All Restored db.bindings
    → Returns
        (λ (r : Binding × Db). is_restored r.0.state ≡ true)
        (find_binding vault scope ref now db)
unfolding find_binding
find_binding_restored vault scope ref now db h =
    elim (Option-cases (first (is_binding scope ref) db.bindings)) [
      | inl missing ↦ rw missing tt
      | inr (b, e) ↦ rw e (elim (Result-cases (check_binding vault ref now b)) [
        | inl (u, f) ↦
            rw f (subst IfRestored e (first-IfRestored (is_binding scope ref) db.bindings h))
        | inr (c, f) ↦ rw f tt
      ])
    ]

-- The tables of a backup and what the restore leaves of them.
pub record IsRestored (db db' : Db) : Type 0 where
  pub fenced : AllFenced db.items db'.items
  pub stopped : All Restored db'.bindings
  pub unreserved : db'.capacity ≡ []

mark_restored-Returns : (now : Instant) (db : Db) → Returns (IsRestored db) (mark_restored now db)
unfolding mark_restored
mark_restored-Returns now db = elim (Result-cases (stamp now)) [
  | inr (c, e) ↦ rw e tt
  | inl (at, e) ↦
      rw e
        (elim (Bool-cases (
          is_some (
            first (λ (b : Binding). not (is_restored b.state) && leb max_generation b.generation)
              db.bindings))) [
                | inl exhausted ↦ rw exhausted tt
                | inr usable ↦ rw usable (record {
                  fenced = items-IsFenced at db.items;
                  stopped = bindings-Restored at db.bindings;
                  unreserved = refl;
                })
              ])
]

-- A restore keeps every item of the backup, without payload and lease: unless its withdrawal was
-- acknowledged, an item that may have reached the cloud is a blocked obligation to withdraw it. Every
-- binding is restored and nothing is reserved.
pub mark_restored-IsRestored :
    (now : Instant) (db db' : Db) → mark_restored now db ≡ ok db' → IsRestored db db'
mark_restored-IsRestored now db db' h =
    value-Returns (IsRestored db) _ db' (mark_restored-Returns now db) h

Silent : Option Claim × Db → Type 0
Silent r = r.0 ≡ none

restored_unconnected : (b : Binding) → is_restored b.state ≡ true → is_connected b.state ≡ false
restored_unconnected b h = ground arith

claim-Silent :
    (vault : Vault) (nonce : String → String) (scope : Scope) (ref : BindingRef) (token : String)
    (seconds : ℕ) (now : Instant) (db : Db)
    → All Restored db.bindings
    → Returns Silent (claim vault nonce scope ref token seconds now db)
unfolding claim Silent
claim-Silent vault nonce scope ref token seconds now db h = elim (Result-cases (stamp now)) [
  | inr (c, s) ↦ rw s tt
  | inl (at, s) ↦ rw s (elim (Result-cases (find_binding vault scope ref at db)) [
    | inr (c, f) ↦ rw f tt
    | inl ((b, d), f) ↦
        let gone =
          value-Returns (λ (r : Binding × Db). is_restored r.0.state ≡ true) _ (b, d)
            (find_binding_restored vault scope ref at db h) f in
        let off = restored_unconnected b gone in
        rw f (elim (Bool-cases (leb 1 seconds && leb seconds 60)) [
          | inr wrong ↦ rw wrong tt
          | inl bounds ↦ rw bounds (rw off refl)
        ])
  ])
]

-- No claim is given out of the tables of a restored backup.
pub restored_silent :
    (vault : Vault) (nonce : String → String) (scope : Scope) (ref : BindingRef) (token : String)
    (seconds : ℕ) (now later : Instant) (db db' : Db) (r : Option Claim × Db)
    → mark_restored now db ≡ ok db'
    → claim vault nonce scope ref token seconds later db' ≡ ok r
    → r.0 ≡ none
unfolding Silent
restored_silent vault nonce scope ref token seconds now later db db' r m h =
    value-Returns Silent _ r
      (claim-Silent vault nonce scope ref token seconds later db'
        (mark_restored-IsRestored now db db' m).stopped)
      h
