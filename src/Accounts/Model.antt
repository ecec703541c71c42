-- ===== src/Accounts/Model.antt =====
-- services/api/store.py: the rows of the tables of accounts and sessions, and the errors.
use Prim.Native.Nat.{Ordering}
use aisle_signals.Common.{ℕ, Bool, true, false, Option, none, some, List, String}

-- Why an operation is refused.
pub data Refusal : Type 0 where
  not_pilot bad_text bad_email demo_address bad_password bad_role unknown_branch : Refusal
  unknown_organisation no_branch mixed_organisations account_exists unknown_account : Refusal
  other_organisation last_manager already_initialised not_found no_access integrity : Refusal
  setup_unavailable setup_rate_limited setup_token_invalid forbidden rate_limited : Refusal
  reauthentication_required account_not_available account_changed authority_required : Refusal
  branch_conflict site_not_available branch_required invalid_credentials auth_required : Refusal
  session_expired csrf_rejected site_context_changed : Refusal

-- The order of texts.
abbrev pub before : String → String → Bool
before a b = elim (Prim.Native.String.compare a b) [ Ordering.lt ↦ true | _ ↦ false ]

pub data Answer {ℓ} (A : Type ℓ) : Type ℓ where
  done : A → Answer A
  refused : Refusal → Answer A

infixl 5 ◌>>=◌ ◌>>◌
-- It does not compute in a proof on its own: what holds of a chain is shown step by step.
unfoldable pub ◌>>=◌ {ℓ κ} : {A : Type ℓ} {B : Type κ} → Answer A → (A → Answer B) → Answer B
done a >>= f = f a
refused r >>= f = refused r

abbrev pub ◌>>◌ {ℓ} : {B : Type ℓ} → Answer (Unit {0}) → Answer B → Answer B
m >> k = m >>= λ _. k

-- `if not condition: raise`
abbrev pub require : Bool → Refusal → Answer (Unit {0})
require true r = done tt
require false r = refused r

abbrev pub or_refuse {ℓ} : {A : Type ℓ} → Option A → Refusal → Answer A
or_refuse none r = refused r
or_refuse (some a) r = done a

pub record Scope : Type 0 where
  pub organisation_id : String
  pub site_id : String

pub record User : Type 0 where
  pub id : String
  pub email : String
  pub name : String
  pub role : String
  pub organisation_id : String
  pub site_id : String
  pub salt : String
  pub password_hash : String

-- A row of `account_security`.
pub record Security : Type 0 where
  pub user_id : String
  pub enabled : Bool
  pub password_iterations : ℕ

pub record Membership : Type 0 where
  pub user_id : String
  pub organisation_id : String
  pub site_id : String
  pub role : String

-- The times are in microseconds.
pub record Session : Type 0 where
  pub token_hash : String
  pub user_id : String
  pub csrf_token : String
  pub created_at : ℕ
  pub last_seen : ℕ

pub record SessionScope : Type 0 where
  pub token_hash : String
  pub organisation_id : String
  pub site_id : String

-- A row of `login_attempts`.
pub record Attempt : Type 0 where
  pub ip : String
  pub email : String
  pub at : ℕ

pub record Site : Type 0 where
  pub id : String
  pub name : String
  pub organisation_name : String
  pub timezone : String
  pub monthly_price_cents : ℕ
  pub shift_active : Bool

pub record Audit : Type 0 where
  pub id : String
  pub at : String
  pub actor : String
  pub action : String
  pub resource_type : String
  pub resource_id : String
  pub detail : String

-- The bodies of the entities that the accounts need.
pub data Body : Type 0 where
  site_body : Site → Body
  audit_body : Audit → Body

pub record Entity : Type 0 where
  pub id : String
  pub kind : String
  pub organisation_id : String
  pub site_id : String
  pub body : Body
  pub created_at : String

-- The setting `first_owner_setup`.
pub record Setup : Type 0 where
  pub token_hash : String
  pub expires_at : ℕ

-- The database, and how many identifiers and secrets were drawn so far.
pub record Db : Type 0 where
  pub mode : String
  pub users : List User
  pub securities : List Security
  pub memberships : List Membership
  pub sessions : List Session
  pub session_scopes : List SessionScope
  pub login_attempts : List Attempt
  pub entities : List Entity
  pub setup : Option Setup
  pub drawn : ℕ

-- What the code takes from Python's library: random values, the hashes, the present time and the
-- functions on texts.
pub record Host : Type 0 where
  pub uuid : ℕ → String
  pub secret : ℕ → String
  pub now : String
  pub digest : String → String
  pub password_hash : String → String → ℕ → String
  pub strip : String → String
  pub lower : String → String
  pub casefold : String → String
  pub size : String → ℕ
  pub distinct : String → ℕ
  -- No character of a category that starts with C.
  pub is_printable : String → Bool
  -- The pattern of an address.
  pub is_address : String → Bool
  pub ends_with : String → String → Bool
  -- The change marker of an account: a digest of its state, its memberships and its salt.
  pub version : Bool → List (String × String) → String → String
