-- ===== src/Accounts/Admin/Changes.antt =====
-- services/api/pilot_admin.py: the changes of an account.
use aisle_signals.Common.{
  ℕ, Bool, true, false, not, Option, none, some, List, String, str_eq, if◌then◌else◌, length, ◌==◌,
}
use aisle_signals.Common.Tables.{delete_where}
use aisle_signals.Accounts.Model.{
  Answer, done, ◌>>=◌, ◌>>◌, require, account_changed, authority_required, site_not_available,
  branch_required, Membership, Db, Host,
}
use aisle_signals.Accounts.Store.{Branch}
use aisle_signals.Accounts.Checks.{validate_password}
use aisle_signals.Accounts.Managers.{
  preserve_manager, revoke_sessions, upsert_membership, is_member,
}
use aisle_signals.Accounts.Login.{Handled}
use aisle_signals.Accounts.Local.{set_enabled, store_password}
use aisle_signals.Accounts.Requests.{Context}
use aisle_signals.Accounts.Admin.{
  confirmed, has_site, grants_of, target, can_manage_account, version_of, audit_account,
}

-- The membership that a request sets, or that it takes away.
abbrev pub set_access : String → String → String → Option String → List Membership → List Membership
set_access user_id organisation_id site_id none ms = delete_where (is_member user_id site_id) ms
set_access user_id organisation_id site_id (some role) ms =
    upsert_membership
      (record {
        user_id = user_id;
        organisation_id = organisation_id;
        site_id = site_id;
        role = role;
      })
      ms

-- It is the only membership of the account, and is to go.
abbrev pub last_grant : Option String → List Membership → Bool
last_grant none ms = length ms == 1
last_grant (some role) ms = false

unfoldable pub change_access_of :
    Host → Context → String → String → Option String → String → List Branch → Db → Answer Db
change_access_of host ctx user_id site_id role expected sites db = do
  user ← target ctx user_id sites db
  require (str_eq (version_of host db user) expected) account_changed
  require (has_site sites site_id) site_not_available
  require (not (last_grant role (grants_of db user.id))) branch_required
  preserve_manager db user.id (some site_id) role
  done (
      audit_account host ctx user "ACCOUNT_ACCESS_UPDATED"
        "A branch manager changed this branch's account access; all target account sessions revoked."
        (some site_id)
        (revoke_sessions user.id (record db {
          memberships = set_access user.id ctx.user.organisation_id site_id role db.memberships;
        })))

-- `change_access`
unfoldable pub change_access :
    Host → ℕ → Context → String → String → Option String → String → String → Db → Handled (Unit {0})
change_access host stamp ctx user_id site_id role expected secret db =
    confirmed host stamp ctx secret db (change_access_of host ctx user_id site_id role expected)

abbrev pub guard_disable : Db → String → Bool → Answer (Unit {0})
guard_disable db user_id true = done tt
guard_disable db user_id false = preserve_manager db user_id none none

unfoldable pub change_enabled_of :
    Host → Context → String → Bool → String → List Branch → Db → Answer Db
change_enabled_of host ctx user_id enabled expected sites db = do
  user ← target ctx user_id sites db
  require (can_manage_account db sites user.id) authority_required
  require (str_eq (version_of host db user) expected) account_changed
  guard_disable db user.id enabled
  done (
      audit_account host ctx user (if enabled then "ACCOUNT_ENABLED" else "ACCOUNT_DISABLED")
        "Authorised manager changed account access state; all target account sessions revoked." none
        (revoke_sessions user.id
          (record db { securities = set_enabled user.id enabled db.securities })))

-- `change_enabled`
unfoldable pub change_enabled :
    Host → ℕ → Context → String → Bool → String → String → Db → Handled (Unit {0})
change_enabled host stamp ctx user_id enabled expected secret db =
    confirmed host stamp ctx secret db (change_enabled_of host ctx user_id enabled expected)

unfoldable pub reset_password_of :
    Host → Context → String → String → String → List Branch → Db → Answer Db
reset_password_of host ctx user_id typed expected sites db = do
  user ← target ctx user_id sites db
  require (can_manage_account db sites user.id) authority_required
  require (str_eq (version_of host db user) expected) account_changed
  password ← validate_password host typed
  done (
      audit_account host ctx user "PASSWORD_RESET"
        "Authorised manager reset the local passphrase; sessions revoked and enabled state unchanged."
        none (revoke_sessions user.id (store_password host user.id password db)))

-- `reset_password`
unfoldable pub reset_password :
    Host → ℕ → Context → String → String → String → String → Db → Handled (Unit {0})
reset_password host stamp ctx user_id typed expected secret db =
    confirmed host stamp ctx secret db (reset_password_of host ctx user_id typed expected)
