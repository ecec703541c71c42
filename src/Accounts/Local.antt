-- ===== src/Accounts/Local.antt =====
-- services/api/pilot_identity.py: the administration of accounts by the local operator.
use aisle_signals.Common.{
  Bool, true, false, ◌&&◌, ◌||◌, not, none, some, List, [], ◌∷◌, String, str_eq,
}
use aisle_signals.Common.Tables.{first, has_row, update_where, delete_where}
use aisle_signals.Accounts.Model.{
  Answer, done, ◌>>=◌, ◌>>◌, require, or_refuse, not_pilot, bad_role, unknown_organisation,
  unknown_account, other_organisation, already_initialised, no_access, User, Security, site_body,
  audit_body, Body, Db, Host,
}
use aisle_signals.Accounts.Store.{draw, audit, is_pilot, allowed_sites, user_scope}
use aisle_signals.Accounts.Checks.{
  password_iterations, text, email_address, validate_password, is_role, site_scope,
}
use aisle_signals.Accounts.Creation.{create_site, create_user, local_actor}
use aisle_signals.Accounts.Managers.{
  preserve_manager, revoke_sessions, upsert_membership, is_member,
}

-- `initialise`
unfoldable pub initialise :
    Host → String → String → String → String → String → Db → Answer (User × Db)
initialise host organisation_name branch_name email name password db = do
  require (is_pilot db) not_pilot
  organisation ← text host organisation_name
  branch ← text host branch_name
  require
      (not
        (has_row (λ (u : User). true) db.users || has_row (λ e. str_eq e.kind "site") db.entities))
      already_initialised
  let created = create_site host (host.uuid db.drawn) organisation branch none (draw db) in
      create_user host email name password (created.0 ∷ []) "MANAGER" none created.1

-- `add_user`
unfoldable pub add_user :
    Host → String → String → String → List String → String → Db → Answer (User × Db)
add_user host email name password site_ids role db = do
  require (is_pilot db) not_pilot
  create_user host email name password site_ids role none db

-- `find_user`
unfoldable pub find_user : Host → String → Db → Answer User
find_user host email db = do
  address ← email_address host email
  or_refuse (first (λ u. str_eq u.email address) db.users) unknown_account

-- The name of the group that an organisation's branches carry.
abbrev pub organisation_of : Body → String
organisation_of (site_body s) = s.organisation_name
organisation_of (audit_body a) = ""

-- `add_site`
unfoldable pub add_site : Host → String → String → Db → Answer (String × Db)
add_site host organisation_id branch_name db = do
  require (is_pilot db) not_pilot
  branch ← text host branch_name
  e ←
      or_refuse
        (first (λ e. str_eq e.organisation_id organisation_id && str_eq e.kind "site") db.entities)
        unknown_organisation
  done (create_site host organisation_id (organisation_of e.body) branch none db)

-- `grant_user`
unfoldable pub grant_user : Host → String → String → String → Db → Answer Db
grant_user host email site_id role db = do
  require (is_pilot db) not_pilot
  require (is_role role) bad_role
  user ← find_user host email db
  scope ← site_scope db site_id
  require (str_eq user.organisation_id scope.organisation_id) other_organisation
  preserve_manager db user.id (some site_id) (some role)
  done (
      audit host (local_actor scope) "ACCOUNT_MEMBERSHIP_CHANGED" "user" user.id
        "Branch access updated by local operator; all existing sessions revoked."
        (revoke_sessions user.id (record db {
          memberships =
              upsert_membership
                (record {
                  user_id = user.id;
                  organisation_id = scope.organisation_id;
                  site_id = site_id;
                  role = role;
                })
                db.memberships;
        })))

-- `revoke_site_access`
unfoldable pub revoke_site_access : Host → String → String → Db → Answer Db
revoke_site_access host email site_id db = do
  require (is_pilot db) not_pilot
  user ← find_user host email db
  scope ← site_scope db site_id
  require (str_eq user.organisation_id scope.organisation_id) other_organisation
  preserve_manager db user.id (some site_id) none
  done (
      audit host (local_actor scope) "ACCOUNT_MEMBERSHIP_REVOKED" "user" user.id
        "Branch access removed; all account sessions revoked."
        (revoke_sessions user.id
          (record db { memberships = delete_where (is_member user.id site_id) db.memberships })))

abbrev pub set_enabled : String → Bool → List Security → List Security
set_enabled user_id enabled securities =
    update_where (λ a. str_eq a.user_id user_id) (λ a. record a { enabled = enabled }) securities

-- `disable_user`
unfoldable pub disable_user : Host → String → Db → Answer Db
disable_user host email db = do
  require (is_pilot db) not_pilot
  user ← find_user host email db
  preserve_manager db user.id none none
  done (
      audit host (local_actor (user_scope user)) "ACCOUNT_DISABLED" "user" user.id
        "Named account disabled; all sessions revoked immediately."
        (revoke_sessions user.id
          (record db { securities = set_enabled user.id false db.securities })))

-- The new salt and hash of an account, and its number of iterations.
abbrev pub store_password : Host → String → String → Db → Db
store_password host user_id password db = record db {
  users =
      update_where (λ u. str_eq u.id user_id)
        (λ u. record u {
          salt = host.secret db.drawn;
          password_hash = host.password_hash password (host.secret db.drawn) password_iterations;
        })
        db.users;
  securities =
      update_where (λ a. str_eq a.user_id user_id)
        (λ a. record a { password_iterations = password_iterations }) db.securities;
  drawn = (draw db).drawn;
}

-- `set_password`
unfoldable pub set_password : Host → String → String → Db → Answer Db
set_password host email secret db = do
  require (is_pilot db) not_pilot
  password ← validate_password host secret
  user ← find_user host email db
  done (
      audit host (local_actor (user_scope user)) "PASSWORD_RESET" "user" user.id
        "Local password reset; sessions revoked. Account enabled state remains unchanged."
        (revoke_sessions user.id (store_password host user.id password db)))

abbrev pub is_empty {ℓ} : {A : Type ℓ} → List A → Bool
is_empty [] = true
is_empty (x ∷ xs) = false

-- `enable_user`
unfoldable pub enable_user : Host → String → Db → Answer Db
enable_user host email db = do
  require (is_pilot db) not_pilot
  user ← find_user host email db
  require (not (is_empty (allowed_sites host db user))) no_access
  done (
      audit host (local_actor (user_scope user)) "ACCOUNT_ENABLED" "user" user.id
        "Local operator explicitly enabled this account after reviewing current branch access; prior sessions revoked."
        (revoke_sessions user.id
          (record db { securities = set_enabled user.id true db.securities })))

-- The commands of the local operator.
pub data Command : Type 0 where
  found : String → String → String → String → String → Command
  branch : String → String → Command
  add : String → String → String → List String → String → Command
  grant : String → String → String → Command
  revoke : String → String → Command
  disable enable : String → Command
  set_secret : String → String → Command

abbrev pub kept {ℓ} : {A : Type ℓ} → Answer (A × Db) → Answer Db
kept m = m >>= λ r. done r.1

unfoldable pub run_command : Host → Command → Db → Answer Db
run_command host (found o b e n p) db = kept (initialise host o b e n p db)
run_command host (branch o b) db = kept (add_site host o b db)
run_command host (add e n p ss r) db = kept (add_user host e n p ss r db)
run_command host (grant e s r) db = grant_user host e s r db
run_command host (revoke e s) db = revoke_site_access host e s db
run_command host (disable e) db = disable_user host e db
run_command host (enable e) db = enable_user host e db
run_command host (set_secret e p) db = set_password host e p db
