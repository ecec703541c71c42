-- ===== src/Accounts/Admin.antt =====
-- services/api/pilot_admin.py: who may administer which account, and the confirmation by passphrase.
pub mod Changes
pub mod Additions
pub mod Kept
use Prim.Native.String.{◌++◌ as text_append}
use aisle_signals.Common.{
  ℕ, suc, ◌+◌, ◌*◌, Bool, true, false, ◌&&◌, ◌||◌, not, Option, none, some, List, [], ◌∷◌, ◌++◌,
  String, str_eq, leb, ltb, if◌then◌else◌, length, map, ◌==◌,
}
use aisle_signals.Common.Tables.{first, select, has_row, update_where, delete_where}
use aisle_signals.Accounts.Model.{
  Refusal, Answer, done, refused, ◌>>=◌, ◌>>◌, require, or_refuse, before, not_pilot, forbidden,
  rate_limited, reauthentication_required, account_not_available, account_changed,
  authority_required, branch_conflict, site_not_available, not_found, branch_required,
  account_exists, setup_unavailable, setup_rate_limited, setup_token_invalid, Scope, User, Security,
  Membership, Site, Setup, Attempt, site_body, audit_body, Body, Db, Host,
}
use aisle_signals.Accounts.Store.{
  Actor, Branch, draw, audit, is_pilot, user_scope, allowed_sites, get, is_some,
}
use aisle_signals.Accounts.Checks.{password_iterations, text, email_address, validate_password}
use aisle_signals.Accounts.Creation.{create_site, create_user}
use aisle_signals.Accounts.Managers.{
  preserve_manager, revoke_sessions, upsert_membership, is_member,
}
use aisle_signals.Accounts.Login.{
  Handled, fails, seconds, forget_attempts, attempts_for, record_attempt,
}
use aisle_signals.Accounts.Local.{set_enabled, store_password, organisation_of, is_empty}
use aisle_signals.Accounts.Requests.{Context}

-- `manager`: the branches that the signed-in user manages.
unfoldable pub managed_sites : Host → Context → Db → Answer (List Branch)
managed_sites host ctx db = do
  require (is_pilot db) not_pilot
  require (str_eq ctx.user.role "MANAGER") forbidden
  done (select (λ s. str_eq s.role "MANAGER") (allowed_sites host db ctx.user))

abbrev pub reauth_name : Host → Context → String
reauth_name host ctx = text_append "__admin_reauth__:" ctx.user.id

abbrev pub enabled_security : Db → String → Option Security
enabled_security db user_id = first (λ a. str_eq a.user_id user_id && a.enabled) db.securities

abbrev pub confirms : Host → Context → String → Option Security → Bool
confirms host ctx supplied none = false
confirms host ctx supplied (some a) =
    str_eq (host.password_hash supplied ctx.user.salt a.password_iterations) ctx.user.password_hash

-- `reauthenticate`: a wrong passphrase is recorded although the request fails.
unfoldable pub reauthenticate : Host → ℕ → Context → String → Db → Handled (Unit {0})
reauthenticate host stamp ctx supplied db =
    let cleared = forget_attempts stamp db in
    if leb 5 (attempts_for (reauth_name host ctx) cleared.login_attempts)
    then fails rate_limited db
    else if confirms host ctx supplied (enabled_security cleared ctx.user.id)
    then (done tt, cleared)
    else fails reauthentication_required
        (record_attempt "admin-reauth" (reauth_name host ctx) stamp cleared)

-- The end of a request: its writes, or none of them.
abbrev pub concluded : Db → Answer Db → Handled (Unit {0})
concluded db (done d) = (done tt, d)
concluded db (refused r) = (refused r, db)

-- The rest of a request, after the confirmation.
abbrev pub continued : Db → Handled (Unit {0}) → (Db → Answer Db) → Handled (Unit {0})
continued db (done u, d) change = concluded db (change d)
continued db (refused r, d) change = (refused r, d)

abbrev pub for_manager :
    Db → Answer (List Branch) → (List Branch → Handled (Unit {0})) → Handled (Unit {0})
for_manager db (refused r) handle = fails r db
for_manager db (done sites) handle = handle sites

-- A request whose sender is a manager and has given the passphrase again.
unfoldable pub confirmed :
    Host → ℕ → Context → String → Db → (List Branch → Db → Answer Db) → Handled (Unit {0})
confirmed host stamp ctx supplied db change =
    for_manager db (managed_sites host ctx db)
      (λ sites. continued db (reauthenticate host stamp ctx supplied db) (change sites))

abbrev pub has_site : List Branch → String → Bool
has_site sites id = has_row (λ s. str_eq s.id id) sites

-- `memberships`, without the order that only the version reads
abbrev pub grants_of : Db → String → List Membership
grants_of db user_id = select (λ m. str_eq m.user_id user_id) db.memberships

abbrev pub outside : List Branch → List Membership → Bool
outside sites ms = has_row (λ m. not (has_site sites m.site_id)) ms

-- `target`
unfoldable pub target : Context → String → List Branch → Db → Answer User
target ctx user_id sites db = do
  user ←
      or_refuse
        (first (λ u. str_eq u.id user_id && str_eq u.organisation_id ctx.user.organisation_id)
          db.users)
        account_not_available
  require
      (has_row (λ a. str_eq a.user_id user.id) db.securities
        && has_row (λ m. has_site sites m.site_id) (grants_of db user.id))
      account_not_available
  done user

-- `can_manage_account`
abbrev pub can_manage_account : Db → List Branch → String → Bool
can_manage_account db sites user_id =
    not (is_empty (grants_of db user_id)) && not (outside sites (grants_of db user_id))

unfoldable pub insert_grant : Membership → List Membership → List Membership
insert_grant m [] = m ∷ []
insert_grant m (k ∷ ks) =
    let rest = insert_grant m ks in if before k.site_id m.site_id then k ∷ rest else m ∷ k ∷ ks

-- `ORDER BY site_id`
unfoldable pub in_order : List Membership → List Membership
in_order [] = []
in_order (m ∷ ms) = insert_grant m (in_order ms)

-- The change marker of an account.
unfoldable pub version_of : Host → Db → User → String
version_of host db user =
    host.version (has_row (λ a. str_eq a.user_id user.id && a.enabled) db.securities)
      (map (λ (m : Membership). (m.site_id, m.role)) (in_order (grants_of db user.id))) user.salt

-- `audit` of this module
abbrev pub audit_account : Host → Context → User → String → String → Option String → Db → Db
audit_account host ctx user action detail site_id db =
    audit host
      (record {
        name = ctx.user.name;
        scope = record {
          organisation_id = ctx.user.organisation_id;
          site_id = elim site_id [ none ↦ ctx.user.site_id | some s ↦ s ];
        };
      })
      action "user" user.id detail db
