-- ===== src/Accounts/Managed.antt =====
-- A branch that has an enabled manager keeps one.
pub mod Kept
use aisle_signals.Common.{
  ◌≡◌, refl, ap, sym, Bool, true, false, ◌&&◌, ◌||◌, not, Option, none, some, List, [], ◌∷◌, ◌++◌,
  String, str_eq, eq_iff, if◌then◌else◌, Bool-cases, inl, inr, arith,
}
use aisle_signals.Common.Tables.{
  has_row, update_where, delete_where, Implies, has_row-weaken, has_row-split, has_row-delete_where,
  has_row-update_where, has_row-append_left,
}
use aisle_signals.Accounts.Model.{Answer, done, Db, Membership, Security}
use aisle_signals.Accounts.Store.{is_enabled}
use aisle_signals.Accounts.Managers.{
  manages, concerns, has_other, orphans, preserve_manager, upsert_membership, is_member,
}

-- The branch has an enabled manager.
abbrev pub Managed : String → Db → Type 0
Managed site_id db = has_row (manages db site_id) db.memberships ≡ true

abbrev spared : Db → String → Option String → String → Membership → Bool
spared db user_id site s m = manages db s m && not (str_eq m.user_id user_id && concerns site m)

other-spared :
    (db : Db) (user_id : String) (site : Option String) (s : String)
    → has_other db user_id s ≡ true
    → has_row (spared db user_id site s) db.memberships ≡ true
other-spared db user_id site s h = has_row-weaken db.memberships (λ m e. ground arith) h

pub only-orphans :
    (db : Db) (user_id : String) (site : Option String) (s : String)
    → has_other db user_id s ≡ false
    → (m : Membership) → (manages db s m && (str_eq m.user_id user_id && concerns site m)) ≡ true
    → orphans db user_id site m ≡ true
only-orphans db user_id site s h m e =
    let same = (eq_iff m.site_id s).0 (ground arith) in rw same (ground arith)

-- The checked change spares an enabled manager of the branch.
pub Managed-spared :
    (db : Db) (user_id : String) (site : Option String) (s : String)
    → has_row (orphans db user_id site) db.memberships ≡ false
    → Managed s db
    → has_row (spared db user_id site s) db.memberships ≡ true
Managed-spared db user_id site s kept h = elim (Bool-cases (has_other db user_id s)) [
  | inl other ↦ other-spared db user_id site s other
  | inr alone ↦
      elim (has_row-split (manages db s) (λ m. str_eq m.user_id user_id && concerns site m)
        db.memberships h) [
          | inl own ↦
              absurd (
                cc (kept, has_row-weaken db.memberships (only-orphans db user_id site s alone) own))
          | inr rest ↦ rest
        ]
]

-- Rows that are deleted for one branch.
pub revoked-Managed :
    (db : Db) (user_id site_id s : String)
    → has_row (orphans db user_id (some site_id)) db.memberships ≡ false
    → Managed s db
    → has_row (manages db s) (delete_where (is_member user_id site_id) db.memberships) ≡ true
revoked-Managed db user_id site_id s kept h =
    has_row-delete_where (manages db s) (is_member user_id site_id) db.memberships (
      has_row-weaken db.memberships (λ m e. ground arith)
        (Managed-spared db user_id (some site_id) s kept h))

upserted-appended :
    (db : Db) (s : String) (m : Membership)
    → has_row
        (λ k.
          manages db s k && not (is_member m.user_id m.site_id k && not (str_eq m.role "MANAGER")))
        db.memberships
      ≡ true
    → has_row (manages db s) (upsert_membership m db.memberships) ≡ true
unfolding upsert_membership
upserted-appended db s m h =
    elim (Bool-cases (has_row (is_member m.user_id m.site_id) db.memberships)) [
      | inr new ↦ rw new (
          has_row-append_left (manages db s) db.memberships _
            (has_row-weaken db.memberships (λ k e. ground arith) h))
      | inl old ↦ rw old (
          has_row-update_where _ (manages db s) (is_member m.user_id m.site_id)
            (λ k. record k { role = m.role }) db.memberships (λ k e. ground arith) h)
    ]

-- The row that is inserted or changed for one branch.
pub granted-Managed :
    (db : Db) (m : Membership) (s : String)
    → preserve_manager db m.user_id (some m.site_id) (some m.role) ≡ done tt
    → Managed s db
    → has_row (manages db s) (upsert_membership m db.memberships) ≡ true
unfolding preserve_manager
granted-Managed db m s kept h =
    upserted-appended db s m (elim (Bool-cases (str_eq m.role "MANAGER")) [
      | inl up ↦ has_row-weaken db.memberships (λ k e. ground arith) h
      | inr down ↦
          has_row-weaken db.memberships (λ k e. ground arith)
            (Managed-spared db m.user_id (some m.site_id) s (ground arith) h)
    ])

-- The accounts of others stay enabled.
others-enabled :
    (db : Db) (f : Security → Security) (user_id other : String)
    → str_eq other user_id ≡ false
    → is_enabled db other ≡ true
    → is_enabled
        (record db { securities = update_where (λ a. str_eq a.user_id user_id) f db.securities })
        other
      ≡ true
unfolding is_enabled
others-enabled db f user_id other n h =
    has_row-update_where _ _ (λ a. str_eq a.user_id user_id) f db.securities
      (λ a e. ground (arith, eq_iff a.user_id user_id, eq_iff a.user_id other, n, e)) h

-- The other manager of every branch of a disabled account.
pub disabled-Managed :
    (db : Db) (user_id s : String) (f : Security → Security)
    → has_row (orphans db user_id none) db.memberships ≡ false
    → Managed s db
    → Managed s
        (record db { securities = update_where (λ a. str_eq a.user_id user_id) f db.securities })
disabled-Managed db user_id s f kept h =
    has_row-weaken db.memberships
      (λ m e.
        let other = others-enabled db f user_id m.user_id (ground arith) (ground arith) in
        ground arith)
      (Managed-spared db user_id none s kept h)

-- Accounts that were enabled stay so.
pub raised-Managed :
    (db : Db) (s : String) (hit : Security → Bool) (f : Security → Security)
    → ((a : Security) → a.enabled ≡ true → (f a).enabled ≡ true)
    → ((a : Security) → (f a).user_id ≡ a.user_id)
    → Managed s db
    → Managed s (record db { securities = update_where hit f db.securities })
unfolding is_enabled
raised-Managed db s hit f up same h =
    has_row-weaken db.memberships
      (λ m e.
        let still =
          has_row-update_where (λ a. str_eq a.user_id m.user_id && a.enabled)
            (λ a. str_eq a.user_id m.user_id && a.enabled) hit f db.securities
            (λ a t. elim (Bool-cases (hit a)) [
              | inr off ↦ rw off t
              | inl on ↦ rw (on, same a, up a (ground arith)) (ground arith)
            ])
            (ground arith) in
        ground arith)
      h
