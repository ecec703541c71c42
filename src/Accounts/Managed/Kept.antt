-- ===== src/Accounts/Managed/Kept.antt =====
-- No command of the local operator leaves a branch without an enabled manager.
use aisle_signals.Common.{
  ◌≡◌, refl, true, false, ◌&&◌, Option, none, some, List, [], ◌∷◌, String, str_eq, Bool-cases, inl,
  inr, arith,
}
use aisle_signals.Common.Tables.{has_row, has_row-weaken, has_row-append_left}
use aisle_signals.Accounts.Model.{Answer, done, ◌>>=◌, Db, Host, Scope, User}
use aisle_signals.Accounts.Store.{draw, Actor, is_enabled, put, audit}
use aisle_signals.Accounts.Gives.{Gives, value-Gives, bind-Gives, require-Gives, done-Gives}
use aisle_signals.Accounts.Checks.{password_iterations}
use aisle_signals.Accounts.Creation.{create_site, create_user, assign, insert_user, new_user}
use aisle_signals.Accounts.Managers.{manages, orphans, preserve_manager, revoke_sessions}
use aisle_signals.Accounts.Managed.{
  Managed, revoked-Managed, granted-Managed, disabled-Managed, raised-Managed,
}
use aisle_signals.Accounts.Local.{
  kept, Command, found, branch, add, grant, revoke, disable, enable, set_secret, run_command,
  initialise, add_site, add_user, grant_user, revoke_site_access, disable_user, enable_user,
  set_password,
}

pub no_orphans :
    (db : Db) (user_id : String) (site : Option String)
    → preserve_manager db user_id site none ≡ done tt
    → has_row (orphans db user_id site) db.memberships ≡ false
unfolding preserve_manager
no_orphans db user_id site h =
    elim (Bool-cases (has_row (orphans db user_id site) db.memberships)) [
      | inr kept ↦ kept
      | inl lost ↦ ground (arith, lost, h)
    ]

assigned-Managed :
    (host : Host) (actor : Option Actor) (user_id role : String) (scopes : List Scope) (db : Db)
    (s : String)
    → Managed s db
    → Managed s (assign host actor user_id role scopes db)
unfolding assign audit put is_enabled
assigned-Managed host actor user_id role [] db s h = h
assigned-Managed host actor user_id role (scope ∷ scopes) db s h =
    assigned-Managed host actor user_id role scopes _ s
      (has_row-append_left (manages db s) db.memberships _ h)

inserted-Managed :
    (user : User) (db : Db) (s : String) → Managed s db → Managed s (insert_user user db)
unfolding is_enabled
inserted-Managed user db s h =
    has_row-weaken db.memberships
      (λ m e.
        let still =
          has_row-append_left (λ a. str_eq a.user_id m.user_id && a.enabled) db.securities
            (record { user_id = user.id; enabled = true; password_iterations = password_iterations }
              ∷ [])
            (ground arith) in
        ground arith)
      h

pub create_user-Managed :
    (host : Host) (email name password : String) (sites : List String) (role : String)
    (actor : Option Actor) (db : Db) (s : String)
    → Managed s db
    → Gives
        (λ (r : User × Db). Managed s r.1)
        (create_user host email name password sites role actor db)
unfolding create_user is_enabled
create_user-Managed host email name password sites role actor db s h = bind-Gives _ _ _ λ e he.
    bind-Gives _ _ _ λ n hn. bind-Gives _ _ _ λ p hp. require-Gives _ _ _ _ λ hr.
      bind-Gives _ _ _ λ scopes hs. bind-Gives _ _ _ λ home hh. require-Gives _ _ _ _ λ new.
        done-Gives _ _ (
          assigned-Managed host actor _ role scopes _ s
            (inserted-Managed (new_user host e n p role home db) (draw db) s h))

-- What is kept of an operation that also returns a value.
kept-Gives :
    {A : Type 0} (P : Db → Type 0) (m : Answer (A × Db))
    → Gives (λ (r : A × Db). P r.1) m
    → Gives P (kept m)
unfolding Gives ◌>>=◌
kept-Gives P (done r) h = h
kept-Gives P (Answer.refused r) h = tt

initialise-Managed :
    (host : Host) (organisation branch_name email name password : String) (db : Db) (s : String)
    → Managed s db
    → Gives
        (λ (r : User × Db). Managed s r.1)
        (initialise host organisation branch_name email name password db)
unfolding initialise create_site audit put is_enabled
initialise-Managed host organisation branch_name email name password db s h =
    require-Gives _ _ _ _ λ hp. bind-Gives _ _ _ λ o ho. bind-Gives _ _ _ λ b hb.
      require-Gives _ _ _ _
        λ empty. create_user-Managed host email name password _ "MANAGER" none _ s h

add_site-Managed :
    (host : Host) (organisation branch_name : String) (db : Db) (s : String)
    → Managed s db
    → Gives (λ (r : String × Db). Managed s r.1) (add_site host organisation branch_name db)
unfolding add_site create_site audit put is_enabled
add_site-Managed host organisation branch_name db s h =
    require-Gives _ _ _ _ λ hp. bind-Gives _ _ _ λ b hb. bind-Gives _ _ _ λ e he. done-Gives _ _ h

add_user-Managed :
    (host : Host) (email name password : String) (sites : List String) (role : String) (db : Db)
    (s : String)
    → Managed s db
    → Gives (λ (r : User × Db). Managed s r.1) (add_user host email name password sites role db)
unfolding add_user
add_user-Managed host email name password sites role db s h =
    require-Gives _ _ _ _ λ hp. create_user-Managed host email name password sites role none db s h

grant-Managed :
    (host : Host) (email site_id role : String) (db : Db) (s : String)
    → Managed s db
    → Gives (Managed s) (grant_user host email site_id role db)
unfolding grant_user revoke_sessions audit put is_enabled
grant-Managed host email site_id role db s h = require-Gives _ _ _ _ λ hp.
    require-Gives _ _ _ _ λ hr. bind-Gives _ _ _ λ u hu. bind-Gives _ _ _ λ c hc.
      require-Gives _ _ _ _ λ ho. bind-Gives _ _ _ λ t ht. done-Gives _ _ (
        granted-Managed db
          (record {
            user_id = u.id;
            organisation_id = c.organisation_id;
            site_id = site_id;
            role = role;
          })
          s ht h)

revoke-Managed :
    (host : Host) (email site_id : String) (db : Db) (s : String)
    → Managed s db
    → Gives (Managed s) (revoke_site_access host email site_id db)
unfolding revoke_site_access revoke_sessions audit put is_enabled
revoke-Managed host email site_id db s h = require-Gives _ _ _ _ λ hp. bind-Gives _ _ _ λ u hu.
    bind-Gives _ _ _ λ c hc. require-Gives _ _ _ _ λ ho. bind-Gives _ _ _ λ t ht.
      done-Gives _ _ (revoked-Managed db u.id site_id s (no_orphans db u.id (some site_id) ht) h)

disable-Managed :
    (host : Host) (email : String) (db : Db) (s : String)
    → Managed s db
    → Gives (Managed s) (disable_user host email db)
unfolding disable_user revoke_sessions audit put is_enabled
disable-Managed host email db s h = require-Gives _ _ _ _ λ hp. bind-Gives _ _ _ λ u hu.
    bind-Gives _ _ _
      λ t ht. done-Gives _ _ (disabled-Managed db u.id s _ (no_orphans db u.id none ht) h)

enable-Managed :
    (host : Host) (email : String) (db : Db) (s : String)
    → Managed s db
    → Gives (Managed s) (enable_user host email db)
unfolding enable_user revoke_sessions audit put is_enabled
enable-Managed host email db s h = require-Gives _ _ _ _ λ hp. bind-Gives _ _ _ λ u hu.
    require-Gives _ _ _ _ λ ha. done-Gives _ _ (raised-Managed db s _ _ (λ a e. refl) (λ a. refl) h)

set_password-Managed :
    (host : Host) (email password : String) (db : Db) (s : String)
    → Managed s db
    → Gives (Managed s) (set_password host email password db)
unfolding set_password revoke_sessions audit put is_enabled
set_password-Managed host email password db s h = require-Gives _ _ _ _ λ hp.
    bind-Gives _ _ _ λ p hw.
      bind-Gives _ _ _ λ u hu. done-Gives _ _ (raised-Managed db s _ _ (λ a e. e) (λ a. refl) h)

run_command-Managed :
    (host : Host) (c : Command) (db : Db) (s : String)
    → Managed s db
    → Gives (Managed s) (run_command host c db)
unfolding run_command
run_command-Managed host (found o b e n p) db s h =
    kept-Gives _ _ (initialise-Managed host o b e n p db s h)
run_command-Managed host (branch o b) db s h = kept-Gives _ _ (add_site-Managed host o b db s h)
run_command-Managed host (add e n p ss r) db s h =
    kept-Gives _ _ (add_user-Managed host e n p ss r db s h)
run_command-Managed host (grant e t r) db s h = grant-Managed host e t r db s h
run_command-Managed host (revoke e t) db s h = revoke-Managed host e t db s h
run_command-Managed host (disable e) db s h = disable-Managed host e db s h
run_command-Managed host (enable e) db s h = enable-Managed host e db s h
run_command-Managed host (set_secret e p) db s h = set_password-Managed host e p db s h

-- A branch that has an enabled manager still has one after any command of the local operator that
-- succeeds, for whichever account and branch it was.
pub manager_kept :
    (host : Host) (c : Command) (db db' : Db) (site_id : String)
    → Managed site_id db
    → run_command host c db ≡ done db'
    → Managed site_id db'
manager_kept host c db db' site_id h e =
    value-Gives (Managed site_id) (run_command host c db) db'
      (run_command-Managed host c db site_id h) e
