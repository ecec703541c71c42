-- ===== src/Accounts/Login.antt =====
-- services/api/app.py: signing in.
use aisle_signals.Common.{
  ℕ, suc, ◌+◌, ◌*◌, Bool, ◌&&◌, ◌||◌, not, Option, none, some, List, [], ◌∷◌, ◌++◌, String, str_eq,
  leb, ltb, if◌then◌else◌,
}
use aisle_signals.Common.Tables.{first, has_row, delete_where}
use aisle_signals.Accounts.Model.{
  Refusal, Answer, done, invalid_credentials, rate_limited, User, Security, Session, Attempt, Db,
  Host,
}
use aisle_signals.Accounts.Store.{Branch, draw, audit, is_pilot, allowed_sites, user_scope}

-- A second, in the unit of the times.
abbrev pub seconds : ℕ → ℕ
seconds n = n * 1000000

-- The result of a handler, and the database when it has ended: that of before the request when an
-- error rolled the transaction back.
abbrev pub Handled : Type 0 → Type 0
Handled A = Answer A × Db

abbrev pub fails : {A : Type 0} → Refusal → Db → Handled A
fails r db = (Answer.refused r, db)

-- `DELETE FROM login_attempts WHERE at<?`
unfoldable pub forget_attempts : ℕ → Db → Db
forget_attempts stamp db = record db {
  login_attempts = delete_where (λ a. ltb (a.at + seconds 900) stamp) db.login_attempts;
}

unfoldable pub attempts_for : String → List Attempt → ℕ
attempts_for email [] = 0
attempts_for email (a ∷ rest) = (if str_eq a.email email then 1 else 0) + attempts_for email rest

unfoldable pub attempts_from : String → List Attempt → ℕ
attempts_from ip [] = 0
attempts_from ip (a ∷ rest) = (if str_eq a.ip ip then 1 else 0) + attempts_from ip rest

abbrev pub record_attempt : String → String → ℕ → Db → Db
record_attempt ip email stamp db = record db {
  login_attempts = db.login_attempts ++ record { ip = ip; email = email; at = stamp } ∷ [];
}

-- `DELETE FROM sessions WHERE …`, and of their scopes.
unfoldable pub delete_sessions : (Session → Bool) → Db → Db
delete_sessions d db = record db {
  sessions = delete_where d db.sessions;
  session_scopes =
      delete_where (λ c. has_row (λ s. d s && str_eq s.token_hash c.token_hash) db.sessions)
        db.session_scopes;
}

-- The sessions that are over.
abbrev pub is_stale : ℕ → Session → Bool
is_stale stamp s = ltb (s.created_at + seconds 28800) stamp || ltb (s.last_seen + seconds 900) stamp

pub record Login : Type 0 where
  pub email : String
  pub password : String
  pub ip : String
  pub old_token : String

abbrev pub iterations_of : Db → Option Security → ℕ
iterations_of db none = if is_pilot db then 600000 else 210000
iterations_of db (some a) = a.password_iterations

-- The row of `account_security`, which is read in the pilot mode only.
abbrev pub security_of : Db → User → Option Security
security_of db u = if is_pilot db then first (λ a. str_eq a.user_id u.id) db.securities else none

abbrev pub may_enter : Db → Option Security → Bool
may_enter db none = not (is_pilot db)
may_enter db (some a) = not (is_pilot db) || a.enabled

-- The account, with the branches that it may work in.
abbrev pub entry : User → List Branch → Option (User × (Branch × List Branch))
entry user [] = none
entry user (b ∷ bs) = some (user, (b, bs))

abbrev pub is_valid : Host → String → Db → User → Bool
is_valid host password db u =
    str_eq (host.password_hash password u.salt (iterations_of db (security_of db u)))
      u.password_hash

-- The check of the account that was found. An unknown address has no branches, so it is refused
-- whatever is made of the password.
unfoldable pub check_user :
    Host → String → Db → Option User → Option (User × (Branch × List Branch))
check_user host password db none = none
check_user host password db (some u) =
    if is_valid host password db u && may_enter db (security_of db u)
    then entry u (allowed_sites host db u)
    else none

-- The account that the address and the password name, and its branches.
unfoldable pub check_credentials :
    Host → String → String → Db → Option (User × (Branch × List Branch))
check_credentials host email password db =
    check_user host password db (first (λ u. str_eq u.email email) db.users)

-- `next((site for … if site["id"] == user["site_id"]), permitted_sites[0])`
unfoldable pub chosen_branch : User → Branch → List Branch → Branch
chosen_branch user b bs = elim (first (λ s. str_eq s.id user.site_id) (b ∷ bs)) [
  | none ↦ b
  | some s ↦ s
]

abbrev pub signed_user : Db → User → Branch → List Branch → User
signed_user db user b bs =
    if is_pilot db
    then record user {
      site_id = (chosen_branch user b bs).id;
      role = (chosen_branch user b bs).role;
    }
    else user

abbrev pub open_session : String → String → String → ℕ → ℕ → Db → Db
open_session token_hash user_id csrf created seen db = record db {
  sessions =
      db.sessions
      ++ record {
        token_hash = token_hash;
        user_id = user_id;
        csrf_token = csrf;
        created_at = created;
        last_seen = seen;
      }
        ∷ [];
}

abbrev pub open_scope : String → String → String → Db → Db
open_scope token_hash organisation_id site_id db = record db {
  session_scopes =
      db.session_scopes
      ++ record { token_hash = token_hash; organisation_id = organisation_id; site_id = site_id }
        ∷ [];
}

pub record SignedIn : Type 0 where
  pub token : String
  pub csrf_token : String
  pub user : User

-- The writes of a successful sign-in.
unfoldable pub sign_in : Host → ℕ → Login → User → Db → Db
sign_in host stamp body user db =
    let token_hash = host.digest (host.secret db.drawn) in
    let opened = open_session token_hash user.id (host.secret (suc db.drawn)) stamp stamp (
      if str_eq body.old_token ""
      then draw (draw db)
      else delete_sessions (λ s. str_eq s.token_hash (host.digest body.old_token))
          (draw (draw db))) in
    let scoped =
      if is_pilot db
      then open_scope token_hash user.organisation_id user.site_id opened
      else opened in
    audit host (record { name = user.name; scope = user_scope user }) "SIGNED_IN" "session" user.id
      (if is_pilot db
        then "Local named-account session created."
        else "Local synthetic demo session created.")
      (record scoped {
        login_attempts =
            delete_where (λ a. str_eq a.email (host.lower body.email)) scoped.login_attempts;
      })

-- `login`
unfoldable pub login : Host → ℕ → Login → Db → Handled SignedIn
login host stamp body db =
    let email = host.lower body.email in
    let cleared = delete_sessions (is_stale stamp) (forget_attempts stamp db) in
    if leb 5 (attempts_for email cleared.login_attempts)
      || leb 20 (attempts_from body.ip cleared.login_attempts)
    then fails rate_limited db
    else elim (check_credentials host email body.password cleared) [
      | none ↦ fails invalid_credentials (record_attempt body.ip email stamp cleared)
      | some (u, (b, bs)) ↦
          let user = signed_user cleared u b bs in
          (
            done (record {
              token = host.secret cleared.drawn;
              csrf_token = host.secret (suc cleared.drawn);
              user = user;
            }),
            sign_in host stamp body user cleared,
          )
    ]
