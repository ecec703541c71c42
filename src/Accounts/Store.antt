-- ===== src/Accounts/Store.antt =====
-- services/api/store.py: `put`, `get`, `audit`, `allowed_sites` and `resolve_session_user`.
use aisle_signals.Common.{
  suc, Bool, true, false, ◌&&◌, ◌||◌, Option, none, some, List, [], ◌∷◌, ◌++◌, String, str_eq,
  if◌then◌else◌,
}
use aisle_signals.Common.Tables.{first, select, has_row, update_where}
use aisle_signals.Accounts.Model.{
  before, Scope, User, Security, Membership, Session, SessionScope, Body, Entity, Db, Host,
  site_body, audit_body,
}

abbrev pub draw : Db → Db
draw db = record db { drawn = suc db.drawn }

abbrev pub is_entity : String → Entity → Bool
is_entity id e = str_eq e.id id

abbrev pub same_place : Scope → String → Entity → Bool
same_place scope kind e =
    str_eq e.organisation_id scope.organisation_id
    && str_eq e.site_id scope.site_id
    && str_eq e.kind kind

-- `Store.put`: the row of another scope or kind under the same identifier is left as it is.
unfoldable pub put : Host → Scope → String → String → Body → Db → Db
put host scope kind id body db = record db {
  entities =
      if has_row (is_entity id) db.entities
      then update_where (λ e. is_entity id e && same_place scope kind e)
          (λ e. record e { body = body }) db.entities
      else db.entities
        ++ record {
          id = id;
          kind = kind;
          organisation_id = scope.organisation_id;
          site_id = scope.site_id;
          body = body;
          created_at = host.now;
        }
          ∷ [];
}

-- `Store.get`
unfoldable pub get : Scope → String → String → Db → Option Entity
get scope kind id db = first (λ e. is_entity id e && same_place scope kind e) db.entities

-- The name and the scope that an entry of the audit log is written under.
pub record Actor : Type 0 where
  pub name : String
  pub scope : Scope

-- `Store.audit`
unfoldable pub audit : Host → Actor → String → String → String → String → Db → Db
audit host actor action resource_type resource_id detail db =
    put host actor.scope "audit" (host.uuid db.drawn)
      (audit_body (record {
        id = host.uuid db.drawn;
        at = host.now;
        actor = actor.name;
        action = action;
        resource_type = resource_type;
        resource_id = resource_id;
        detail = detail;
      }))
      (draw db)

abbrev pub user_scope : User → Scope
user_scope u = record { organisation_id = u.organisation_id; site_id = u.site_id }

abbrev pub member_scope : Membership → Scope
member_scope m = record { organisation_id = m.organisation_id; site_id = m.site_id }

abbrev pub is_some {ℓ} : {A : Type ℓ} → Option A → Bool
is_some none = false
is_some (some a) = true

abbrev pub is_pilot : Db → Bool
is_pilot db = str_eq db.mode "pilot"

-- The account has a row in `account_security`, which is enabled.
unfoldable pub is_enabled : Db → String → Bool
is_enabled db id = has_row (λ a. str_eq a.user_id id && a.enabled) db.securities

abbrev pub held_by : User → List Membership → List Membership
held_by user ms =
    select (λ m. str_eq m.user_id user.id && str_eq m.organisation_id user.organisation_id) ms

-- The demonstration has no memberships: an account has its home branch.
abbrev pub own_membership : User → Membership
own_membership user = record {
  user_id = user.id;
  organisation_id = user.organisation_id;
  site_id = user.site_id;
  role = user.role;
}

-- A branch that an account may work in.
pub record Branch : Type 0 where
  pub id : String
  pub name : String
  pub organisation_id : String
  pub organisation_name : String
  pub role : String

abbrev pub branch_of : Membership → Body → Branch
branch_of m (site_body s) = record {
  id = s.id;
  name = s.name;
  organisation_id = m.organisation_id;
  organisation_name = s.organisation_name;
  role = m.role;
}
branch_of m (audit_body a) = record {
  id = a.id;
  name = "";
  organisation_id = m.organisation_id;
  organisation_name = "";
  role = m.role;
}

-- `(item["name"].casefold(), item["id"])`, in the order of tuples
abbrev pub sorts_before : Host → Branch → Branch → Bool
sorts_before host a b =
    let x = host.casefold a.name in
    let y = host.casefold b.name in before x y || (str_eq x y && before a.id b.id)

unfoldable pub insert_branch : Host → Branch → List Branch → List Branch
insert_branch host a [] = a ∷ []
insert_branch host a (b ∷ bs) =
    let rest = insert_branch host a bs in if sorts_before host b a then b ∷ rest else a ∷ b ∷ bs

-- The branches of the memberships whose row exists, sorted.
unfoldable pub branches_of : Host → Db → List Membership → List Branch
branches_of host db [] = []
branches_of host db (m ∷ ms) =
    let rest = branches_of host db ms in
    elim (get (member_scope m) "site" m.site_id db) [
      | none ↦ rest
      | some e ↦ insert_branch host (branch_of m e.body) rest
    ]

-- `Store.allowed_sites`: the memberships of the home organisation whose branch exists.
unfoldable pub allowed_sites : Host → Db → User → List Branch
allowed_sites host db user =
    branches_of host db
      (if str_eq db.mode "synthetic" then own_membership user ∷ [] else held_by user db.memberships)

-- The membership that the scope of a session names.
abbrev pub scoped : User → SessionScope → List Membership → Option Membership
scoped user s ms =
    first
      (λ m.
        str_eq m.user_id user.id
        && str_eq m.site_id s.site_id
        && str_eq m.organisation_id s.organisation_id)
      ms

abbrev pub resolved : User → Membership → User
resolved user m = record user {
  organisation_id = m.organisation_id;
  site_id = m.site_id;
  role = m.role;
}

-- What the pilot mode makes of the membership that was found.
abbrev pub in_scope : Db → User → Option Membership → Option User
in_scope db user none = none
in_scope db user (some m) =
    if str_eq m.organisation_id user.organisation_id
      && is_some (get (member_scope m) "site" m.site_id db)
    then some (resolved user m)
    else none

abbrev pub security_enabled : Option Security → Bool
security_enabled none = false
security_enabled (some a) = a.enabled

-- The authority of a session in the pilot mode.
unfoldable pub resolve_pilot : Db → Session → User → Option User
resolve_pilot db session user =
    if security_enabled (first (λ a. str_eq a.user_id user.id) db.securities)
    then elim (first (λ s. str_eq s.token_hash session.token_hash) db.session_scopes) [
      | none ↦ none
      | some s ↦ in_scope db user (scoped user s db.memberships)
    ]
    else none

-- `Store.resolve_session_user`
unfoldable pub resolve_session_user : Db → Session → Option User
resolve_session_user db session = elim (first (λ u. str_eq u.id session.user_id) db.users) [
  | none ↦ none
  | some user ↦ if str_eq db.mode "synthetic" then some user else resolve_pilot db session user
]
