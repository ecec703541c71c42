-- ===== src/Accounts/Requests.antt =====
-- services/api/app.py: the check of every request, the change of branch and signing out.
use aisle_signals.Common.{
  ℕ, suc, ◌+◌, Bool, false, ◌&&◌, ◌||◌, not, Option, none, some, String, str_eq, leb, ltb,
  if◌then◌else◌,
}
use aisle_signals.Common.Tables.{first, update_where}
use aisle_signals.Accounts.Model.{
  done, auth_required, session_expired, csrf_rejected, site_context_changed, site_not_available,
  User, Session, Db, Host,
}
use aisle_signals.Accounts.Store.{
  Branch, draw, audit, is_pilot, allowed_sites, user_scope, resolve_session_user,
}
use aisle_signals.Accounts.Login.{
  seconds, Handled, fails, delete_sessions, open_session, open_scope,
}

pub record Request : Type 0 where
  pub token : String
  pub is_write : Bool
  pub path : String
  pub csrf_token : String
  pub site_header : Option String

pub record Context : Type 0 where
  pub user : User
  pub csrf_token : String
  pub token_hash : String

-- The session is older than eight hours, or was not used for fifteen minutes.
abbrev pub is_over : ℕ → Session → Bool
is_over stamp s = leb (s.created_at + seconds 28800) stamp || leb (s.last_seen + seconds 900) stamp

abbrev pub site_matches : Db → Request → User → Bool
site_matches db request user =
    not (is_pilot db)
    || str_eq request.path "/api/logout"
    || str_eq request.path "/api/session/site"
    || elim request.site_header [ none ↦ false | some h ↦ str_eq h user.site_id ]

abbrev pub touches : Request → Bool
touches request = request.is_write || str_eq request.path "/api/session"

-- `UPDATE sessions SET last_seen=? WHERE token_hash=?`
unfoldable pub touch : ℕ → String → Db → Db
touch stamp token_hash db = record db {
  sessions =
      update_where (λ s. str_eq s.token_hash token_hash) (λ s. record s { last_seen = stamp })
        db.sessions;
}

-- The checks of a request whose session is not over.
unfoldable pub admit : ℕ → Request → Session → String → Db → Handled Context
admit stamp request session token_hash db = elim (resolve_session_user db session) [
  | none ↦ fails auth_required db
  | some user ↦
      if request.is_write && not (str_eq request.csrf_token session.csrf_token)
      then fails csrf_rejected db
      else if request.is_write && not (site_matches db request user)
      then fails site_context_changed db
      else (
        done (record { user = user; csrf_token = session.csrf_token; token_hash = token_hash }),
        if touches request then touch stamp token_hash db else db,
      )
]

-- `context`
unfoldable pub context : Host → ℕ → Request → Db → Handled Context
context host stamp request db =
    let token_hash = host.digest request.token in
    if str_eq request.token "" || ltb 256 (host.size request.token)
    then fails auth_required db
    else elim (first (λ s. str_eq s.token_hash token_hash) db.sessions) [
      | none ↦ fails session_expired db
      | some session ↦
          if is_over stamp session
          then fails session_expired (delete_sessions (λ s. str_eq s.token_hash token_hash) db)
          else admit stamp request session token_hash db
    ]

-- The writes of a change of branch.
unfoldable pub rotate : Host → ℕ → Context → Branch → ℕ → Db → Db
rotate host stamp ctx selected created db =
    let token_hash = host.digest (host.secret db.drawn) in
    let opened = open_scope token_hash selected.organisation_id selected.id (
      open_session token_hash ctx.user.id (host.secret (suc db.drawn)) created stamp
        (delete_sessions (λ s. str_eq s.token_hash ctx.token_hash) (draw (draw db)))) in
    let left =
      audit host (record { name = ctx.user.name; scope = user_scope ctx.user }) "BRANCH_LEFT" "site"
        ctx.user.site_id "Session rotated before changing active branch." opened in
    let user : User = record ctx.user { site_id = selected.id; role = selected.role } in
    audit host (record { name = user.name; scope = user_scope user }) "BRANCH_SELECTED" "site"
      user.site_id "Authorised branch selected; previous capture session revoked." left

-- `switch_site`; the new token, when the branch is another.
unfoldable pub switch_site : Host → ℕ → Context → String → Db → Handled (Option String)
switch_site host stamp ctx site_id db =
    elim (first (λ s. str_eq s.id site_id) (allowed_sites host db ctx.user)) [
      | none ↦ fails site_not_available db
      | some selected ↦
          if str_eq db.mode "synthetic" || str_eq site_id ctx.user.site_id
          then (done none, db)
          else elim (first (λ s. str_eq s.token_hash ctx.token_hash) db.sessions) [
            | none ↦ fails session_expired db
            | some current ↦ (
              done (some (host.secret db.drawn)),
              rotate host stamp ctx selected current.created_at db,
            )
          ]
    ]

-- `logout`
unfoldable pub logout : Host → Context → Db → Db
logout host ctx db =
    audit host (record { name = ctx.user.name; scope = user_scope ctx.user }) "SIGNED_OUT" "session"
      ctx.user.id "Local session revoked."
      (delete_sessions (λ s. str_eq s.token_hash ctx.token_hash) db)
