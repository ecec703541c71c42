-- ===== src/Accounts/Lockout.antt =====
-- What a disabled account can still do, and which sessions a change of an account ends.
use mathlib.Core.Path.{subst}
use aisle_signals.Common.{
  ◌≡◌, ◌≢◌, refl, true, false, ◌&&◌, Option, none, some, List, [], ◌∷◌, String, str_eq, eq_iff,
  &&-eq-true, if◌then◌else◌, Bool-cases, Option-cases, inl, inr, arith, All, all_unit,
}
use aisle_signals.Common.Tables.{
  first, update_where, delete_where, first-selected, first-All, All-update_where,
  delete_where-spares,
}
use aisle_signals.Accounts.Model.{Answer, done, Db, Host, User, Security, Session}
use aisle_signals.Accounts.Store.{
  resolve_session_user, resolve_pilot, security_enabled, put, audit, is_pilot, Branch,
  allowed_sites,
}
use aisle_signals.Accounts.Gives.{Gives, value-Gives, bind-Gives, require-Gives, done-Gives}
use aisle_signals.Accounts.Managers.{revoke_sessions}
use aisle_signals.Accounts.Login.{
  entry, is_valid, check_user, check_credentials, security_of, may_enter,
}
use aisle_signals.Accounts.Local.{
  Command, found, branch, add, grant, revoke, disable, enable, set_secret, run_command, find_user,
  grant_user, revoke_site_access, disable_user, enable_user, set_password,
}

-- No row of the account in `account_security` is enabled.
abbrev Locked : String → Db → Type 0
Locked user_id db = All (λ a. str_eq a.user_id user_id ≡ true → a.enabled ≡ false) db.securities

-- Neither a session nor a sign-in gives the account any authority.
abbrev pub Shut : Host → String → Db → Type 0
Shut host user_id db =
    ((session : Session) → session.user_id ≡ user_id → resolve_session_user db session ≡ none)
    × ((email password : String) (user : User) (r : Branch × List Branch)
        → check_credentials host email password db ≡ some (user, r)
        → user.id ≢ user_id)

Locked-security :
    (db : Db) (user_id id : String)
    → Locked user_id db
    → id ≡ user_id
    → security_enabled (first (λ a. str_eq a.user_id id) db.securities) ≡ false
Locked-security db user_id id l e =
    elim (Option-cases (first (λ a. str_eq a.user_id id) db.securities)) [
      | inl n ↦ rw n refl
      | inr (a, s) ↦
          let off =
            first-All (λ a. str_eq a.user_id user_id ≡ true → a.enabled ≡ false)
              (λ a. str_eq a.user_id id) db.securities a l s in
          let hit = first-selected (λ a. str_eq a.user_id id) db.securities a s in
          rw s (off (ground (arith, e, hit)))
    ]

not_synthetic : (db : Db) → is_pilot db ≡ true → str_eq db.mode "synthetic" ≡ false
not_synthetic db h = rw ((eq_iff db.mode "pilot").0 h) refl

Locked-session :
    (db : Db) (user_id : String) (session : Session)
    → is_pilot db ≡ true
    → Locked user_id db
    → session.user_id ≡ user_id
    → resolve_session_user db session ≡ none
unfolding resolve_session_user resolve_pilot
Locked-session db user_id session p l e =
    elim (Option-cases (first (λ u. str_eq u.id session.user_id) db.users)) [
      | inl n ↦ rw (resolve_session_user, n) refl
      | inr (user, f) ↦
          let hit = first-selected (λ u. str_eq u.id session.user_id) db.users user f in
          let same = (eq_iff user.id session.user_id).0 hit in
          let off = Locked-security db user_id user.id l (cc (same, e)) in
          rw (resolve_session_user, f, not_synthetic db p, resolve_pilot, off) refl
    ]

entered_user :
    (u user : User) (bs : List Branch) (r : Branch × List Branch)
    → entry u bs ≡ some (user, r)
    → u ≡ user
entered_user u user [] r h = absurd (cc h)
entered_user u user (b ∷ bs) r h = cc h

entered :
    (host : Host) (db : Db) (password : String) (found : Option User) (user : User)
    (r : Branch × List Branch)
    → check_user host password db found ≡ some (user, r)
    → may_enter db (security_of db user) ≡ true
unfolding check_user
entered host db password none user r h = absurd (cc h)
entered host db password (some u) user r h =
    elim (Bool-cases (is_valid host password db u && may_enter db (security_of db u))) [
      | inr off ↦ absurd (ground (arith, off, h))
      | inl on ↦
          let same = entered_user u user (allowed_sites host db u) r (
            subst (λ b. (if b then entry u (allowed_sites host db u) else none) ≡ some (user, r)) on
              h) in
          subst (λ v. may_enter db (security_of db v) ≡ true) same (&&-eq-true _ _ on).1
    ]

Locked-entry :
    (db : Db) (user_id : String) (user : User)
    → is_pilot db ≡ true
    → Locked user_id db
    → user.id ≡ user_id
    → may_enter db (security_of db user) ≡ false
Locked-entry db user_id user p l e =
    let off = Locked-security db user_id user.id l e in
    elim (Option-cases (first (λ a. str_eq a.user_id user.id) db.securities)) [
      | inl n ↦ rw (p, n) (rw p refl)
      | inr (a, f) ↦ rw (p, f) (rw p (subst (λ o. security_enabled o ≡ false) f off))
    ]

some_eq : (e f : String) → some e ≡ some f → e ≡ f
some_eq e f h = cc h

disabled-Locked :
    (db : Db) (user_id : String)
    → All
        (λ (a : Security). str_eq a.user_id user_id ≡ true → a.enabled ≡ false)
        (update_where
          (λ a. str_eq a.user_id user_id)
          (λ a. record a { enabled = false })
          db.securities)
disabled-Locked db user_id =
    All-update_where (λ a. Unit) _ (λ a. str_eq a.user_id user_id)
      (λ a. record a { enabled = false }) db.securities
      (λ a u. elim (Bool-cases (str_eq a.user_id user_id)) [
        | inl hit ↦ rw hit (λ t. refl)
        | inr other ↦ rw other (λ t. cc (other, t))
      ])
      (all_unit db.securities)

Locked-Shut :
    (host : Host) (db : Db) (user_id : String)
    → is_pilot db ≡ true
    → Locked user_id db
    → Shut host user_id db
unfolding check_credentials
Locked-Shut host db user_id p l = (
  λ session e. Locked-session db user_id session p l e,
  λ email password user r h e.
      let off = Locked-entry db user_id user p l e in
      let on = entered host db password (first (λ u. str_eq u.email email) db.users) user r h in
      absurd (cc (on, off)),
)

one_user : (u user : User) (m : Answer User) → m ≡ done u → m ≡ done user → user ≡ u
one_user u user m a b = cc (a, b)

-- What holds of the account that an address finds.
abbrev Found : Host → String → Db → (User → Type 0) → Type 0
Found host email db P = (user : User) × ((find_user host email db ≡ done user) × P user)

found_user :
    (host : Host) (email : String) (db : Db) (P : User → Type 0) (u : User)
    → find_user host email db ≡ done u
    → Found host email db P
    → P u
found_user host email db P u f (user, (g, h)) =
    subst P (one_user u user (find_user host email db) f g) h

-- A local operator's disabling of an account ends its authority at once: no session of the account,
-- whatever its token and scope, resolves to a user any more, and no address and password sign it in.
pub disabled-Shut :
    (host : Host) (email : String) (db db' : Db) (u : User)
    → find_user host email db ≡ done u
    → disable_user host email db ≡ done db'
    → Shut host u.id db'
unfolding disable_user revoke_sessions audit put
disabled-Shut host email db db' u f h =
    found_user host email db (λ v. Shut host v.id db') u f
      (value-Gives (λ d. Found host email db λ v. Shut host v.id d) (disable_user host email db) db'
        (require-Gives _ _ _ _ λ p. bind-Gives _ _ _ λ user hu. bind-Gives _ _ _ λ t ht.
          done-Gives _ _ (user, (hu, Locked-Shut host _ user.id p (disabled-Locked db user.id))))
        h)

-- No session of the account is left.
abbrev pub SignedOut : String → Db → Type 0
SignedOut user_id db = All (λ s. str_eq s.user_id user_id ≡ false) db.sessions

-- The account that a command changes, when it changes one.
abbrev changed_account : Command → Option String
changed_account (found o b e n p) = none
changed_account (branch o b) = none
changed_account (add e n p ss r) = none
changed_account (grant e s r) = some e
changed_account (revoke e s) = some e
changed_account (disable e) = some e
changed_account (enable e) = some e
changed_account (set_secret e p) = some e

abbrev Cleared : Host → String → Db → Db → Type 0
Cleared host email db d = Found host email db λ v. SignedOut v.id d

cleared :
    (host : Host) (email : String) (db : Db) (user : User) (sessions : List Session)
    → find_user host email db ≡ done user
    → Found host email db (λ v.
      All
        (λ s. str_eq s.user_id v.id ≡ false)
        (delete_where (λ s. str_eq s.user_id user.id) sessions))
cleared host email db user sessions hu =
    (user, (hu, delete_where-spares (λ s. str_eq s.user_id user.id) sessions))

run_command-Cleared :
    (host : Host) (c : Command) (email : String) (db : Db)
    → changed_account c ≡ some email
    → Gives (Cleared host email db) (run_command host c db)
unfolding run_command grant_user revoke_site_access disable_user enable_user set_password
    revoke_sessions audit put
run_command-Cleared host (found o b e n p) email db h = absurd (cc h)
run_command-Cleared host (branch o b) email db h = absurd (cc h)
run_command-Cleared host (add e n p ss r) email db h = absurd (cc h)
run_command-Cleared host (grant e s r) email db h =
    subst (λ e'. Gives (Cleared host e' db) (grant_user host e s r db)) (some_eq e email h)
      (require-Gives _ _ _ _ λ p. require-Gives _ _ _ _ λ q. bind-Gives _ _ _ λ user hu.
        bind-Gives _ _ _ λ c hc.
          require-Gives _ _ _ _
            λ o. bind-Gives _ _ _ λ t ht. done-Gives _ _ (cleared host e db user _ hu))
run_command-Cleared host (revoke e s) email db h =
    subst (λ e'. Gives (Cleared host e' db) (revoke_site_access host e s db)) (some_eq e email h)
      (require-Gives _ _ _ _ λ p. bind-Gives _ _ _ λ user hu. bind-Gives _ _ _ λ c hc.
        require-Gives _ _ _ _
          λ o. bind-Gives _ _ _ λ t ht. done-Gives _ _ (cleared host e db user _ hu))
run_command-Cleared host (disable e) email db h =
    subst (λ e'. Gives (Cleared host e' db) (disable_user host e db)) (some_eq e email h)
      (require-Gives _ _ _ _ λ p.
        bind-Gives _ _ _
          λ user hu. bind-Gives _ _ _ λ t ht. done-Gives _ _ (cleared host e db user _ hu))
run_command-Cleared host (enable e) email db h =
    subst (λ e'. Gives (Cleared host e' db) (enable_user host e db)) (some_eq e email h)
      (require-Gives _ _ _ _ λ p.
        bind-Gives _ _ _
          λ user hu. require-Gives _ _ _ _ λ q. done-Gives _ _ (cleared host e db user _ hu))
run_command-Cleared host (set_secret e w) email db h =
    subst (λ e'. Gives (Cleared host e' db) (set_password host e w db)) (some_eq e email h)
      (require-Gives _ _ _ _ λ p.
        bind-Gives _ _ _
          λ v hv. bind-Gives _ _ _ λ user hu. done-Gives _ _ (cleared host e db user _ hu))

-- Every command of the local operator that changes an account (its access, its password, or whether
-- it is enabled) ends all of that account's sessions.
pub sessions_ended :
    (host : Host) (c : Command) (email : String) (db db' : Db) (u : User)
    → changed_account c ≡ some email
    → find_user host email db ≡ done u
    → run_command host c db ≡ done db'
    → SignedOut u.id db'
sessions_ended host c email db db' u a f h =
    found_user host email db (λ v. SignedOut v.id db') u f
      (value-Gives (Cleared host email db) (run_command host c db) db'
        (run_command-Cleared host c email db a) h)
