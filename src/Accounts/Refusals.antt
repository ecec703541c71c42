-- ===== src/Accounts/Refusals.antt =====
-- The last manager of a branch cannot be taken away.
use aisle_signals.Common.{
  ◌≡◌, ◌≢◌, ◌⊎◌, inl, inr, refl, Bool, true, false, ◌&&◌, not, Option, none, some, List, [], ◌∷◌,
  String, str_eq, eq_iff, All, arith,
}
use aisle_signals.Common.Tables.{has_row, has_row-weaken}
use aisle_signals.Accounts.Model.{
  done, refused, last_manager, Db, Host, Membership, User, Scope, ◌>>=◌,
}
use aisle_signals.Accounts.Store.{is_pilot, is_enabled}
use aisle_signals.Accounts.Checks.{site_scope}
use aisle_signals.Accounts.Managers.{concerns, stays_manager, manages, has_other, preserve_manager}
use aisle_signals.Accounts.Managed.{only-orphans}
use aisle_signals.Accounts.Local.{find_user, grant_user, revoke_site_access, disable_user}

-- The membership is of another branch, of another role or of a disabled account, or it is the
-- account's own.
abbrev pub IsNoRival : String → String → Db → Membership → Type 0
IsNoRival user_id site_id db m =
    (m.site_id ≢ site_id)
    ⊎ ((m.role ≢ "MANAGER") ⊎ ((is_enabled db m.user_id ≡ false) ⊎ (m.user_id ≡ user_id)))

-- The account is enabled and a manager of the branch, and no other enabled account is one.
pub record IsLastManager (user_id site_id : String) (db : Db) : Type 0 where
  pub is_manager :
      has_row
        (λ m. str_eq m.user_id user_id && str_eq m.site_id site_id && str_eq m.role "MANAGER")
        db.memberships
      ≡ true
  pub is_active : is_enabled db user_id ≡ true
  pub is_alone : All (IsNoRival user_id site_id db) db.memberships

no_rival :
    (db : Db) (user_id site_id : String) (m : Membership)
    → IsNoRival user_id site_id db m
    → (manages db site_id m && not (str_eq m.user_id user_id)) ≡ false
no_rival db user_id site_id m (inl h) = ground (arith, h, eq_iff m.site_id site_id)
no_rival db user_id site_id m (inr (inl h)) = ground (arith, h, eq_iff m.role "MANAGER")
no_rival db user_id site_id m (inr (inr (inl h))) = ground (arith, h)
no_rival db user_id site_id m (inr (inr (inr h))) = ground (arith, (eq_iff m.user_id user_id).1 h)

no_row :
    {A : Type 0} (P : A → Type 0) (p : A → Bool) (xs : List A)
    → ((x : A) → P x → p x ≡ false)
    → All P xs
    → has_row p xs ≡ false
unfolding has_row
no_row P p [] k h = refl
no_row P p (x ∷ xs) k h = rw (k x h.0) (no_row P p xs k h.1)

alone :
    (db : Db) (user_id site_id : String)
    → IsLastManager user_id site_id db
    → has_other db user_id site_id ≡ false
alone db user_id site_id h =
    no_row (IsNoRival user_id site_id db) _ db.memberships (no_rival db user_id site_id) h.is_alone

managing :
    (db : Db) (user_id site_id : String) (m : Membership)
    → is_enabled db user_id ≡ true
    → (str_eq m.user_id user_id && str_eq m.site_id site_id && str_eq m.role "MANAGER") ≡ true
    → (manages db site_id m && str_eq m.user_id user_id) ≡ true
managing db user_id site_id m a h =
    let own : is_enabled db m.user_id ≡ true =
      rw ((eq_iff m.user_id user_id).0 (ground (arith, h))) a in
    ground (arith, h, own)

refuses :
    (db : Db) (user_id site_id : String) (site role : Option String)
    → IsLastManager user_id site_id db
    → ((m : Membership) → str_eq m.site_id site_id ≡ true → concerns site m ≡ true)
    → stays_manager role ≡ false
    → preserve_manager db user_id site role ≡ refused last_manager
unfolding preserve_manager
refuses db user_id site_id site role h k down =
    let lost =
      has_row-weaken db.memberships
        (λ m e.
          let e' = managing db user_id site_id m h.is_active e in
          only-orphans db user_id site site_id (alone db user_id site_id h) m
            (let c = k m (ground (arith, e')) in ground (arith, e', c)))
        h.is_manager in
    rw (down, lost) refl

-- In the pilot mode the last enabled manager of a branch, an account of the branch's organisation, is
-- not disabled by the local operator, is not taken off the branch, and is not made a reviewer of it:
-- each command is refused for that reason.
pub last_manager_refused :
    (host : Host) (email site_id : String) (db : Db) (user : User) (scope : Scope)
    → is_pilot db ≡ true
    → find_user host email db ≡ done user
    → site_scope db site_id ≡ done scope
    → str_eq user.organisation_id scope.organisation_id ≡ true
    → IsLastManager user.id site_id db
    → (disable_user host email db ≡ refused last_manager)
      × ((revoke_site_access host email site_id db ≡ refused last_manager)
          × (grant_user host email site_id "REVIEWER" db ≡ refused last_manager))
unfolding disable_user revoke_site_access grant_user ◌>>=◌
last_manager_refused host email site_id db user scope p f c o h =
    let all = refuses db user.id site_id none none h (λ m e. refl) refl in
    let one = refuses db user.id site_id (some site_id) none h (λ m e. ground arith) refl in
    let less =
      refuses db user.id site_id (some site_id) (some "REVIEWER") h (λ m e. ground arith) refl in
    (rw (p, f, all) refl, (rw (p, f, c, o, one) refl, rw (p, f, c, o, less) refl))
