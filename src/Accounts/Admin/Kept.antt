-- ===== src/Accounts/Admin/Kept.antt =====
-- No request of a manager leaves a branch without an enabled manager.
use aisle_signals.Common.{
  ◌≡◌, refl, ℕ, Bool, true, false, Option, none, some, List, String, str_eq, Bool-cases, leb, inl,
  inr,
}
use aisle_signals.Common.Tables.{has_row, update_where, has_row-append_left}
use aisle_signals.Accounts.Model.{Answer, done, refused, Db, Host}
use aisle_signals.Accounts.Store.{Branch, is_enabled, put, audit}
use aisle_signals.Accounts.Gives.{Gives, bind-Gives, require-Gives, done-Gives}
use aisle_signals.Accounts.Creation.{create_site}
use aisle_signals.Accounts.Managers.{manages, preserve_manager, revoke_sessions}
use aisle_signals.Accounts.Managed.{
  Managed, revoked-Managed, granted-Managed, disabled-Managed, raised-Managed,
}
use aisle_signals.Accounts.Managed.Kept.{no_orphans}
use aisle_signals.Accounts.Login.{attempts_for, Handled, forget_attempts}
use aisle_signals.Accounts.Requests.{Context}
use aisle_signals.Accounts.Admin.{
  reauth_name, confirms, enabled_security, for_manager, continued, concluded, confirmed,
  reauthenticate, managed_sites,
}
use aisle_signals.Accounts.Admin.Changes.{
  set_access, change_access_of, change_access, guard_disable, change_enabled_of, change_enabled,
  reset_password_of, reset_password,
}
use aisle_signals.Accounts.Admin.Additions.{create_site_of, add_branch}

concluded-Managed :
    (s : String) (db : Db) (m : Answer Db)
    → Managed s db
    → Gives (Managed s) m
    → Managed s (concluded db m).1
unfolding Gives
concluded-Managed s db (done d) h g = g
concluded-Managed s db (refused r) h g = h

continued-Managed :
    (s : String) (db : Db) (m : Handled (Unit {0})) (change : Db → Answer Db)
    → Managed s db
    → Managed s m.1
    → ((d : Db) → Managed s d → Gives (Managed s) (change d))
    → Managed s (continued db m change).1
continued-Managed s db (done u, d) change h g k = concluded-Managed s db (change d) h (k d g)
continued-Managed s db (refused r, d) change h g k = g

reauthenticate-Managed :
    (host : Host) (stamp : ℕ) (ctx : Context) (secret : String) (db : Db) (s : String)
    → Managed s db
    → Managed s (reauthenticate host stamp ctx secret db).1
unfolding reauthenticate forget_attempts is_enabled
reauthenticate-Managed host stamp ctx secret db s h =
    elim (Bool-cases
      (leb 5 (attempts_for (reauth_name host ctx) (forget_attempts stamp db).login_attempts))) [
        | inl limited ↦ rw (reauthenticate, limited) h
        | inr free ↦
            elim (Bool-cases (
              confirms host ctx secret (enabled_security (forget_attempts stamp db) ctx.user.id))) [
                | inl right ↦ rw (reauthenticate, free, right) h
                | inr wrong ↦ rw (reauthenticate, free, wrong) h
              ]
      ]

for_manager-Managed :
    (s : String) (db : Db) (m : Answer (List Branch)) (handle : List Branch → Handled (Unit {0}))
    → Managed s db
    → ((sites : List Branch) → Managed s (handle sites).1)
    → Managed s (for_manager db m handle).1
for_manager-Managed s db (refused r) handle h k = h
for_manager-Managed s db (done sites) handle h k = k sites

confirmed-Managed :
    (host : Host) (stamp : ℕ) (ctx : Context) (secret : String) (db : Db) (s : String)
    (change : List Branch → Db → Answer Db)
    → Managed s db
    → ((sites : List Branch) (d : Db) → Managed s d → Gives (Managed s) (change sites d))
    → Managed s (confirmed host stamp ctx secret db change).1
unfolding confirmed
confirmed-Managed host stamp ctx secret db s change h k =
    for_manager-Managed s db (managed_sites host ctx db) _ h (λ sites.
      continued-Managed s db _ (change sites) h
        (reauthenticate-Managed host stamp ctx secret db s h) (k sites))

set_access-Managed :
    (db : Db) (user_id organisation_id site_id : String) (role : Option String) (s : String)
    → preserve_manager db user_id (some site_id) role ≡ done tt
    → Managed s db
    → has_row (manages db s) (set_access user_id organisation_id site_id role db.memberships) ≡ true
set_access-Managed db user_id organisation_id site_id none s kept h =
    revoked-Managed db user_id site_id s (no_orphans db user_id (some site_id) kept) h
set_access-Managed db user_id organisation_id site_id (some role) s kept h =
    granted-Managed db
      (record {
        user_id = user_id;
        organisation_id = organisation_id;
        site_id = site_id;
        role = role;
      })
      s kept h

change_access-Managed :
    (host : Host) (ctx : Context) (user_id site_id : String) (role : Option String)
    (expected : String) (s : String) (sites : List Branch) (db : Db)
    → Managed s db
    → Gives (Managed s) (change_access_of host ctx user_id site_id role expected sites db)
unfolding change_access_of revoke_sessions audit put is_enabled
change_access-Managed host ctx user_id site_id role expected s sites db h = bind-Gives _ _ _ λ u hu.
    require-Gives _ _ _ _ λ hv. require-Gives _ _ _ _ λ hs. require-Gives _ _ _ _ λ hl.
      bind-Gives _ _ _ λ t ht.
        done-Gives _ _ (set_access-Managed db u.id ctx.user.organisation_id site_id role s ht h)

set_enabled-Managed :
    (db : Db) (user_id : String) (enabled : Bool) (s : String)
    → guard_disable db user_id enabled ≡ done tt
    → Managed s db
    → Managed s (record db {
      securities =
          update_where
            (λ a. str_eq a.user_id user_id)
            (λ a. record a { enabled = enabled })
            db.securities;
    })
set_enabled-Managed db user_id true s kept h = raised-Managed db s _ _ (λ a e. refl) (λ a. refl) h
set_enabled-Managed db user_id false s kept h =
    disabled-Managed db user_id s _ (no_orphans db user_id none kept) h

change_enabled-Managed :
    (host : Host) (ctx : Context) (user_id : String) (enabled : Bool) (expected s : String)
    (sites : List Branch) (db : Db)
    → Managed s db
    → Gives (Managed s) (change_enabled_of host ctx user_id enabled expected sites db)
unfolding change_enabled_of revoke_sessions audit put is_enabled
change_enabled-Managed host ctx user_id enabled expected s sites db h = bind-Gives _ _ _ λ u hu.
    require-Gives _ _ _ _ λ hg.
      require-Gives _ _ _ _
        λ hv. bind-Gives _ _ _ λ t ht. done-Gives _ _ (set_enabled-Managed db u.id enabled s ht h)

reset_password-Managed :
    (host : Host) (ctx : Context) (user_id typed expected s : String) (sites : List Branch)
    (db : Db)
    → Managed s db
    → Gives (Managed s) (reset_password_of host ctx user_id typed expected sites db)
unfolding reset_password_of revoke_sessions audit put is_enabled
reset_password-Managed host ctx user_id typed expected s sites db h = bind-Gives _ _ _ λ u hu.
    require-Gives _ _ _ _ λ hg. require-Gives _ _ _ _ λ hv.
      bind-Gives _ _ _ λ p hp. done-Gives _ _ (raised-Managed db s _ _ (λ a e. e) (λ a. refl) h)

create_site-Managed :
    (host : Host) (ctx : Context) (typed s : String) (sites : List Branch) (db : Db)
    → Managed s db
    → Gives (Managed s) (create_site_of host ctx typed sites db)
unfolding create_site_of create_site audit put is_enabled
create_site-Managed host ctx typed s sites db h = bind-Gives _ _ _ λ n hn.
    require-Gives _ _ _ _ λ hc.
      bind-Gives _ _ _
        λ own ho. done-Gives _ _ (has_row-append_left (manages db s) db.memberships _ h)

-- The requests of a manager that change an account or add a branch.
pub data Change : Type 0 where
  access : String → String → Option String → String → Change
  enabling : String → Bool → String → Change
  password : String → String → String → Change
  adding : String → Change

unfoldable pub run_change : Host → ℕ → Context → String → Change → Db → Handled (Unit {0})
run_change host stamp ctx secret (access id site role v) db =
    change_access host stamp ctx id site role v secret db
run_change host stamp ctx secret (enabling id on v) db =
    change_enabled host stamp ctx id on v secret db
run_change host stamp ctx secret (password id p v) db =
    reset_password host stamp ctx id p v secret db
run_change host stamp ctx secret (adding name) db = add_branch host stamp ctx name secret db

-- A branch that has an enabled manager still has one after any request of a manager that changes
-- an account or adds a branch, whether the request succeeds or is refused.
pub manager_kept_by_change :
    (host : Host) (stamp : ℕ) (ctx : Context) (secret : String) (c : Change) (db : Db)
    (site_id : String)
    → Managed site_id db
    → Managed site_id (run_change host stamp ctx secret c db).1
unfolding run_change change_access change_enabled reset_password add_branch
manager_kept_by_change host stamp ctx secret (access id site role v) db site_id h =
    confirmed-Managed host stamp ctx secret db site_id _ h
      (change_access-Managed host ctx id site role v site_id)
manager_kept_by_change host stamp ctx secret (enabling id on v) db site_id h =
    confirmed-Managed host stamp ctx secret db site_id _ h
      (change_enabled-Managed host ctx id on v site_id)
manager_kept_by_change host stamp ctx secret (password id p v) db site_id h =
    confirmed-Managed host stamp ctx secret db site_id _ h
      (reset_password-Managed host ctx id p v site_id)
manager_kept_by_change host stamp ctx secret (adding name) db site_id h =
    confirmed-Managed host stamp ctx secret db site_id _ h
      (create_site-Managed host ctx name site_id)
