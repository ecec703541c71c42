-- ===== src/Accounts/Tests.antt =====
-- A pharmacy with two managers of one branch, and the operations on their accounts.
use aisle_signals.Common.{
  ◌≡◌, ◌≢◌, inr, refl, ℕ, true, false, none, some, List, [], ◌∷◌, String, arith,
}
use aisle_signals.Common.Tables.{first, has_row, update_where, delete_where}
use aisle_signals.Accounts.Model.{
  Answer, done, refused, last_manager, ◌>>=◌, User, Security, Membership, Session, Entity,
  site_body, Db, Host,
}
use aisle_signals.Accounts.Store.{is_enabled, put, get, audit, resolve_session_user, resolve_pilot}
use aisle_signals.Accounts.Checks.{email_address, site_scope, password_iterations}
use aisle_signals.Accounts.Managers.{preserve_manager, revoke_sessions}
use aisle_signals.Accounts.Local.{
  find_user, run_command, grant_user, disable_user, revoke_site_access, disable,
}
use aisle_signals.Accounts.Managed.{Managed}
use aisle_signals.Accounts.Managed.Kept.{manager_kept}
use aisle_signals.Accounts.Lockout.{Shut, SignedOut, disabled-Shut, sessions_ended}
use aisle_signals.Accounts.Refusals.{IsLastManager, last_manager_refused}
use aisle_signals.Accounts.Login.{Login}
use aisle_signals.Accounts.Requests.{Request, Context, context, admit, touch}
use aisle_signals.Accounts.Entry.{IsEntitled, entry-IsEntitled}
use aisle_signals.Accounts.Lifetime.{request, switch, run_moves, workday_ends}
use aisle_signals.Accounts.Admin.Kept.{access, run_change, manager_kept_by_change}

abbrev host : Host
host = record {
  uuid = λ n. "fresh";
  secret = λ n. "secret";
  now = "2026-01-01";
  digest = λ t. t;
  password_hash = λ p s n. p;
  strip = λ t. t;
  lower = λ t. t;
  casefold = λ t. t;
  size = λ t. 20;
  distinct = λ t. 10;
  is_printable = λ t. true;
  is_address = λ t. true;
  ends_with = λ e t. false;
  version = λ e g s. "v";
}

abbrev member : String → String → User
member id email = record {
  id = id;
  email = email;
  name = id;
  role = "MANAGER";
  organisation_id = "group";
  site_id = "shop";
  salt = "salt";
  password_hash = "right";
}

abbrev shop : Entity
shop = record {
  id = "shop";
  kind = "site";
  organisation_id = "group";
  site_id = "shop";
  body = site_body (record {
    id = "shop";
    name = "Shop";
    organisation_name = "Group";
    timezone = "Europe/Dublin";
    monthly_price_cents = 6000;
    shift_active = false;
  });
  created_at = "2026-01-01";
}

abbrev manager_of_shop : String → Membership
manager_of_shop id = record {
  user_id = id;
  organisation_id = "group";
  site_id = "shop";
  role = "MANAGER";
}

abbrev secured : String → Security
secured id = record { user_id = id; enabled = true; password_iterations = password_iterations }

abbrev session : Session
session = record {
  token_hash = "token";
  user_id = "anna";
  csrf_token = "csrf";
  created_at = 1000;
  last_seen = 1000;
}

-- One manager, who is signed in.
abbrev alone : Db
alone = record {
  mode = "pilot";
  users = member "anna" "anna@shop" ∷ [];
  securities = secured "anna" ∷ [];
  memberships = manager_of_shop "anna" ∷ [];
  sessions = session ∷ [];
  session_scopes =
      record { token_hash = "token"; organisation_id = "group"; site_id = "shop" } ∷ [];
  login_attempts = [];
  entities = shop ∷ [];
  setup = none;
  drawn = 0;
}

-- Two managers.
abbrev both : Db
both = record alone {
  users = member "anna" "anna@shop" ∷ member "ben" "ben@shop" ∷ [];
  securities = secured "anna" ∷ secured "ben" ∷ [];
  memberships = manager_of_shop "anna" ∷ manager_of_shop "ben" ∷ [];
}

abbrev value_or : Db → Answer Db → Db
value_or db (done d) = d
value_or db (refused r) = db

abbrev disabled : Db
disabled = value_or both (disable_user host "anna@shop" both)

disabled_run : disable_user host "anna@shop" both ≡ done disabled
unfolding disable_user find_user email_address preserve_manager is_enabled has_row first
    revoke_sessions audit put update_where delete_where ◌>>=◌
disabled_run = refl

command_run : run_command host (disable "anna@shop") both ≡ done disabled
unfolding run_command
command_run = disabled_run

anna_found : find_user host "anna@shop" both ≡ done (member "anna" "anna@shop")
unfolding find_user email_address first ◌>>=◌
anna_found = refl

both-Managed : Managed "shop" both
unfolding has_row is_enabled
both-Managed = refl

manager_kept_example : Managed "shop" disabled
manager_kept_example =
    manager_kept host (disable "anna@shop") both disabled "shop" both-Managed command_run

disabled-Shut_example : Shut host "anna" disabled
disabled-Shut_example =
    disabled-Shut host "anna@shop" both disabled (member "anna" "anna@shop") anna_found disabled_run

sessions_ended_example : SignedOut "anna" disabled
sessions_ended_example =
    sessions_ended host (disable "anna@shop") "anna@shop" both disabled (member "anna" "anna@shop")
      refl anna_found command_run

shop_found : site_scope alone "shop" ≡ done (record { organisation_id = "group"; site_id = "shop" })
unfolding site_scope first ◌>>=◌
shop_found = refl

anna_alone_found : find_user host "anna@shop" alone ≡ done (member "anna" "anna@shop")
unfolding find_user email_address first ◌>>=◌
anna_alone_found = refl

anna_last : IsLastManager "anna" "shop" alone
unfolding has_row is_enabled
anna_last = record { is_manager = refl; is_active = refl; is_alone = (inr (inr (inr refl)), tt) }

last_manager_refused_example :
    (disable_user host "anna@shop" alone ≡ refused last_manager)
    × ((revoke_site_access host "anna@shop" "shop" alone ≡ refused last_manager)
        × (grant_user host "anna@shop" "shop" "REVIEWER" alone ≡ refused last_manager))
last_manager_refused_example =
    last_manager_refused host "anna@shop" "shop" alone (member "anna" "anna@shop")
      (record { organisation_id = "group"; site_id = "shop" }) refl anna_alone_found shop_found refl
      anna_last

abbrev guess : ℕ → ℕ × Login
guess n = (n, record { email = "anna@shop"; password = "wrong"; ip = "local"; old_token = "" })

-- Seven wrong passwords in seven moments: the sixth and the seventh are not compared.
abbrev guesses : List (ℕ × Login)
guesses = guess 1 ∷ guess 2 ∷ guess 3 ∷ guess 4 ∷ guess 5 ∷ guess 6 ∷ guess 7 ∷ []

abbrev reading : Request
reading = record {
  token = "token";
  is_write = false;
  path = "/api/bootstrap";
  csrf_token = "";
  site_header = none;
}

abbrev entered : Context
entered = record { user = member "anna" "anna@shop"; csrf_token = "csrf"; token_hash = "token" }

entry_run : (context host 2000 reading alone).0 ≡ done entered
unfolding context admit first resolve_session_user resolve_pilot get touch
entry_run = refl

entry-IsEntitled_example : (s : Session) × IsEntitled host 2000 reading alone entered s
entry-IsEntitled_example = entry-IsEntitled host 2000 reading alone entered entry_run

workday_ends_example :
    (context host 28800001000 reading
      (run_moves host (request 2000 reading ∷ switch 3000 entered "shop" ∷ []) alone)).0
    ≢ done entered
workday_ends_example =
    workday_ends 1000 host (request 2000 reading ∷ switch 3000 entered "shop" ∷ []) alone
      28800001000 reading entered (omega arith, tt) (omega arith)

manager_kept_by_change_example :
    Managed "shop"
      (run_change host 2000 entered "right" (access "anna" "shop" (some "REVIEWER") "v") both).1
manager_kept_by_change_example =
    manager_kept_by_change host 2000 entered "right" (access "anna" "shop" (some "REVIEWER") "v")
      both "shop" both-Managed
