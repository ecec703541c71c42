-- ===== src/Accounts/Creation.antt =====
-- services/api/pilot_identity.py: new branches and accounts.
use aisle_signals.Common.{
  Bool, true, false, ◌&&◌, not, Option, none, some, List, [], ◌∷◌, ◌++◌, String, str_eq,
}
use aisle_signals.Common.Tables.{has_row, delete_where}
use aisle_signals.Accounts.Model.{
  Answer, done, ◌>>=◌, ◌>>◌, require, bad_role, no_branch, mixed_organisations, account_exists,
  Scope, User, Site, site_body, Db, Host,
}
use aisle_signals.Accounts.Store.{Actor, draw, put, audit}
use aisle_signals.Accounts.Checks.{
  password_iterations, text, email_address, validate_password, is_role, site_scope,
}

-- `local_actor`
abbrev pub local_actor : Scope → Actor
local_actor scope = record { name = "Local setup operator"; scope = scope }

-- `{**actor, **scope} if actor else local_actor(scope)`
abbrev pub acting : Option Actor → Scope → Actor
acting none scope = local_actor scope
acting (some actor) scope = record actor { scope = scope }

abbrev pub new_site : String → String → String → Site
new_site id organisation_name branch_name = record {
  id = id;
  name = branch_name;
  organisation_name = organisation_name;
  timezone = "Europe/Dublin";
  monthly_price_cents = 6000;
  shift_active = false;
}

-- `_new_site`: the identifier of the branch, and the database.
unfoldable pub create_site : Host → String → String → String → Option Actor → Db → String × Db
create_site host organisation_id organisation_name branch_name actor db =
    let id = host.uuid db.drawn in
    let scope : Scope = record { organisation_id = organisation_id; site_id = id } in
    (
      id,
      audit host (acting actor scope) "BRANCH_PROVISIONED" "site" id
          "Local branch created without demo footage, users or observations. Camera qualification remains required."
          (put host scope "site" id (site_body (new_site id organisation_name branch_name))
            (draw db)),
    )

-- `list(dict.fromkeys(site_ids))`
unfoldable pub without_repeats : List String → List String
without_repeats [] = []
without_repeats (s ∷ ss) = s ∷ delete_where (str_eq s) (without_repeats ss)

-- `[site_scope(conn, site_id) for site_id in site_ids]`
unfoldable pub site_scopes : Db → List String → Answer (List Scope)
site_scopes db [] = done []
site_scopes db (s ∷ ss) = do scope ← site_scope db s; rest ← site_scopes db ss; done (scope ∷ rest)

abbrev pub same_organisation : Scope → List Scope → Bool
same_organisation s [] = true
same_organisation s (t ∷ ts) = str_eq t.organisation_id s.organisation_id && same_organisation s ts

-- The memberships of a new account, each with its entry in the audit log.
unfoldable pub assign : Host → Option Actor → String → String → List Scope → Db → Db
assign host actor user_id role [] db = db
assign host actor user_id role (scope ∷ scopes) db = assign host actor user_id role scopes (
    audit host (acting actor scope) "ACCOUNT_PROVISIONED" "user" user_id
      "Named local account assigned to this branch. No password is stored in audit records."
      (record db {
        memberships =
            db.memberships
            ++ record {
              user_id = user_id;
              organisation_id = scope.organisation_id;
              site_id = scope.site_id;
              role = role;
            }
              ∷ [];
      }))

-- The row of a new account in its first branch.
abbrev pub new_user : Host → String → String → String → String → Scope → Db → User
new_user host email name password role home db = record {
  id = host.uuid db.drawn;
  email = email;
  name = name;
  role = role;
  organisation_id = home.organisation_id;
  site_id = home.site_id;
  salt = host.secret db.drawn;
  password_hash = host.password_hash password (host.secret db.drawn) password_iterations;
}

abbrev pub insert_user : User → Db → Db
insert_user user db = record db {
  users = db.users ++ user ∷ [];
  securities =
      db.securities
      ++ record { user_id = user.id; enabled = true; password_iterations = password_iterations }
        ∷ [];
}

-- The branches of a new account: there is one at least, and they are of one organisation.
abbrev pub home_scope : List Scope → Answer Scope
home_scope [] = Answer.refused no_branch
home_scope (s ∷ ss) = require (same_organisation s ss) mixed_organisations >> done s

-- `_new_user`
unfoldable pub create_user :
    Host → String → String → String → List String → String → Option Actor → Db → Answer (User × Db)
create_user host address full_name secret site_ids role actor db = do
  email ← email_address host address
  name ← text host full_name
  password ← validate_password host secret
  require (is_role role) bad_role
  scopes ← site_scopes db (without_repeats site_ids)
  home ← home_scope scopes
  require (not (has_row (λ u. str_eq u.email email) db.users)) account_exists
  let user = new_user host email name password role home db in
      done (user, assign host actor user.id role scopes (insert_user user (draw db)))
