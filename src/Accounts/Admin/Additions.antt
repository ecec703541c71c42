-- ===== src/Accounts/Admin/Additions.antt =====
-- services/api/pilot_admin.py: new branches and accounts, and the claim of a fresh workspace.
use aisle_signals.Common.{
  ℕ, suc, ◌+◌, Bool, true, false, ◌&&◌, ◌||◌, not, Option, none, some, List, [], ◌∷◌, ◌++◌, String,
  str_eq, leb, ltb, if◌then◌else◌, map,
}
use aisle_signals.Common.Tables.{has_row, update_where}
use aisle_signals.Accounts.Model.{
  Answer, done, ◌>>=◌, ◌>>◌, require, or_refuse, not_pilot, branch_conflict, site_not_available,
  not_found, account_exists, setup_unavailable, setup_rate_limited, setup_token_invalid, User,
  Membership, Setup, site_body, audit_body, Body, Db, Host,
}
use aisle_signals.Accounts.Store.{Branch, draw, audit, is_pilot, user_scope, get}
use aisle_signals.Accounts.Checks.{text, email_address, validate_password}
use aisle_signals.Accounts.Creation.{create_site, create_user}
use aisle_signals.Accounts.Managers.{is_member}
use aisle_signals.Accounts.Login.{
  Handled, fails, seconds, forget_attempts, attempts_for, record_attempt,
}
use aisle_signals.Accounts.Local.{organisation_of}
use aisle_signals.Accounts.Requests.{Context}
use aisle_signals.Accounts.Admin.{concluded, confirmed, has_site, audit_account}

abbrev pub same_name : Host → String → Body → Bool
same_name host name (site_body s) = str_eq (host.casefold s.name) (host.casefold name)
same_name host name (audit_body a) = false

unfoldable pub create_site_of : Host → Context → String → List Branch → Db → Answer Db
create_site_of host ctx typed sites db = do
  name ← text host typed
  require
      (not (
        has_row
          (λ e.
            str_eq e.kind "site"
            && str_eq e.organisation_id ctx.user.organisation_id
            && same_name host name e.body)
          db.entities))
      branch_conflict
  own ← or_refuse (get (user_scope ctx.user) "site" ctx.user.site_id db) not_found
  let created =
        create_site host ctx.user.organisation_id (organisation_of own.body) name
          (some (record { name = ctx.user.name; scope = user_scope ctx.user })) db in
      done (
        audit_account host ctx ctx.user "MANAGER_BRANCH_GRANTED"
          "Creator assigned manager access to the new branch; existing active branch remains selected."
          (some created.0)
          (record created.1 {
            memberships =
                (created.1).memberships
                ++ record {
                  user_id = ctx.user.id;
                  organisation_id = ctx.user.organisation_id;
                  site_id = created.0;
                  role = "MANAGER";
                }
                  ∷ [];
          }))

-- `create_site`
unfoldable pub add_branch : Host → ℕ → Context → String → String → Db → Handled (Unit {0})
add_branch host stamp ctx typed secret db =
    confirmed host stamp ctx secret db (create_site_of host ctx typed)

-- `UPDATE memberships SET role=? WHERE user_id=? AND site_id=?`, for each branch
unfoldable pub set_roles : String → List (String × String) → List Membership → List Membership
set_roles user_id [] ms = ms
set_roles user_id ((site_id, role) ∷ rest) ms =
    set_roles user_id rest
      (update_where (is_member user_id site_id) (λ m. record m { role = role }) ms)

abbrev pub site_ids_of : List (String × String) → List String
site_ids_of branches = map (λ b. b.0) branches

abbrev pub first_role : List (String × String) → String
first_role [] = ""
first_role ((site_id, role) ∷ rest) = role

unfoldable pub create_user_of :
    Host
    → Context
    → String
    → String
    → String
    → List (String × String)
    → List Branch
    → Db
    → Answer Db
create_user_of host ctx name typed password branches sites db = do
  require (not (has_row (λ (b : String × String). not (has_site sites b.0)) branches))
      site_not_available
  email ← email_address host typed
  require (not (has_row (λ u. str_eq u.email email) db.users)) account_exists
  created ←
      create_user host email name password (site_ids_of branches) (first_role branches)
        (some (record { name = ctx.user.name; scope = user_scope ctx.user })) db
  done (record created.1 { memberships = set_roles created.0.id branches (created.1).memberships })

-- `create_user`
unfoldable pub add_account :
    Host
    → ℕ
    → Context
    → String
    → String
    → String
    → List (String × String)
    → String
    → Db
    → Handled (Unit {0})
add_account host stamp ctx name typed password branches secret db =
    confirmed host stamp ctx secret db (create_user_of host ctx name typed password branches)

-- `setup_available`
abbrev pub setup_available : Db → Bool
setup_available db =
    not (has_row (λ (u : User). true) db.users || has_row (λ e. str_eq e.kind "site") db.entities)

-- The setup code is current and is the one that was given.
abbrev pub is_setup_code : Host → ℕ → String → Option Setup → Bool
is_setup_code host stamp token none = false
is_setup_code host stamp token (some s) =
    ltb stamp s.expires_at && str_eq (host.digest token) s.token_hash

-- `issue_setup_token`, without the file: the token, and the database that keeps its hash.
unfoldable pub issue_setup_token : Host → ℕ → Db → Answer (String × Db)
issue_setup_token host stamp db = do
  require (is_pilot db) not_pilot
  require (setup_available db) setup_unavailable
  done (
    host.secret db.drawn,
    record db {
      setup = some (record {
        token_hash = host.digest (host.secret db.drawn);
        expires_at = stamp + seconds 900;
      });
      drawn = suc db.drawn;
    },
  )

pub record FirstOwner : Type 0 where
  pub organisation_name : String
  pub branch_name : String
  pub name : String
  pub email : String
  pub password : String
  pub setup_token : String

-- What a claim with the right code writes.
unfoldable pub found_workspace : Host → FirstOwner → Db → Answer Db
found_workspace host body db = do
  organisation ← text host body.organisation_name
  branch ← text host body.branch_name
  email ← email_address host body.email
  name ← text host body.name
  password ← validate_password host body.password
  let site = create_site host (host.uuid db.drawn) organisation branch none (draw db) in
      do
        created ← create_user host email name password (site.0 ∷ []) "MANAGER" none site.1
        done
            (record (audit host (record { name = created.0.name; scope = user_scope created.0 })
              "FIRST_OWNER_CREATED" "user" created.0.id
              "One-time local setup code consumed; named manager created. No credential material retained in audit records."
              created.1) { setup = none })

-- `claim_setup`
unfoldable pub claim_setup : Host → ℕ → FirstOwner → Db → Handled (Unit {0})
claim_setup host stamp body db =
    let cleared = forget_attempts stamp db in
    if not (is_pilot db)
    then fails not_pilot db
    else if not (setup_available db)
    then fails setup_unavailable db
    else if leb 5 (attempts_for "__first_owner_setup__" cleared.login_attempts)
    then fails setup_rate_limited db
    else if is_setup_code host stamp body.setup_token cleared.setup
    then concluded db (found_workspace host body cleared)
    else fails setup_token_invalid
        (record_attempt "first-owner" "__first_owner_setup__" stamp cleared)
