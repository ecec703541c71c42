-- ===== src/Accounts/Managers.antt =====
-- services/api/pilot_identity.py: the managers of a branch, memberships and the revocation of sessions.
use aisle_signals.Common.{
  Bool, true, false, ◌&&◌, ◌||◌, not, Option, none, some, List, [], ◌∷◌, ◌++◌, String, str_eq,
  if◌then◌else◌,
}
use aisle_signals.Common.Tables.{has_row, update_where, delete_where}
use aisle_signals.Accounts.Model.{Answer, done, require, last_manager, Membership, Db}
use aisle_signals.Accounts.Store.{is_enabled}

abbrev pub is_member : String → String → Membership → Bool
is_member user_id site_id m = str_eq m.user_id user_id && str_eq m.site_id site_id

-- An enabled account manages the branch by the membership.
abbrev pub manages : Db → String → Membership → Bool
manages db site_id m =
    str_eq m.site_id site_id && str_eq m.role "MANAGER" && is_enabled db m.user_id

-- `if site_id and membership["site_id"] != site_id: continue`
abbrev pub concerns : Option String → Membership → Bool
concerns none m = true
concerns (some site_id) m = str_eq site_id "" || str_eq m.site_id site_id

-- Another enabled account manages the branch.
abbrev pub has_other : Db → String → String → Bool
has_other db user_id site_id =
    has_row (λ m. manages db site_id m && not (str_eq m.user_id user_id)) db.memberships

-- The memberships of the account that leave a branch without an enabled manager.
abbrev pub orphans : Db → String → Option String → Membership → Bool
orphans db user_id site_id m =
    manages db m.site_id m
    && str_eq m.user_id user_id
    && concerns site_id m
    && not (has_other db user_id m.site_id)

abbrev pub stays_manager : Option String → Bool
stays_manager none = false
stays_manager (some role) = str_eq role "MANAGER"

-- `_preserve_manager`
unfoldable pub preserve_manager : Db → String → Option String → Option String → Answer (Unit {0})
preserve_manager db user_id site_id new_role =
    if stays_manager new_role
    then done tt
    else require (not (has_row (orphans db user_id site_id) db.memberships)) last_manager

-- `DELETE FROM sessions WHERE user_id=?`, and of their scopes, by the foreign key.
unfoldable pub revoke_sessions : String → Db → Db
revoke_sessions user_id db = record db {
  sessions = delete_where (λ s. str_eq s.user_id user_id) db.sessions;
  session_scopes =
      delete_where
        (λ c.
          has_row (λ s. str_eq s.user_id user_id && str_eq s.token_hash c.token_hash) db.sessions)
        db.session_scopes;
}

-- The row is inserted, or its role is set.
unfoldable pub upsert_membership : Membership → List Membership → List Membership
upsert_membership m ms =
    if has_row (is_member m.user_id m.site_id) ms
    then update_where (is_member m.user_id m.site_id) (λ k. record k { role = m.role }) ms
    else ms ++ m ∷ []
