-- ===== src/Interactions/Model.antt =====
-- services/api/interactions.py: the record of a sampled interaction, and what the service keeps.
use aisle_signals.Common.{
  ℕ, ◌+◌, Bool, true, false, ◌&&◌, not, Option, none, some, List, [], ◌∷◌, String, leb, str_eq,
  if◌then◌else◌,
}
use aisle_signals.Common.Tables.{first}
use aisle_signals.Accounts.Model.{User, Session}
use aisle_signals.Accounts.Store.{resolve_session_user}
use aisle_signals.Accounts.Login.{seconds}

pub data Status : Type 0 where
  pending running completed failed cancelled : Status

pub record Review : Type 0 where
  pub outcome : String
  pub note : String
  pub by : String

-- The result of an analysis, as far as the service reads it.
pub record Outcome : Type 0 where
  pub action : String
  pub alarm_eligible : Bool
  pub camera_calibrated : Bool

-- A stored interaction: an entity of the kind `interaction` with its body.
pub record Interaction : Type 0 where
  pub id : String
  pub organisation_id : String
  pub site_id : String
  pub status : Status
  pub error : Option String
  pub frames : List String
  pub result : Option Outcome
  pub review : Option Review
  pub version : ℕ
  pub incident_id : Option String
  pub camera_calibration : Option String
  pub actor_id : String
  pub session_hash : String
  pub expires_at : ℕ

-- Where the thread of a job is: before its first transaction, or at the analysis.
pub data Phase : Type 0 where
  starting analysing : Phase

-- An entry of `ACTIVE_JOBS`, with whether its event is set.
pub record Active : Type 0 where
  pub id : String
  pub is_cancelled : Bool
  pub phase : Phase

-- What the service keeps: the interactions in the order of their creation, the active jobs, the
-- free inference slot, whether it is closed, and the calls for the cloud so far.
pub record Service : Type 0 where
  pub interactions : List Interaction
  pub active_jobs : List Active
  pub slot_free : Bool
  pub closed : Bool
  pub published : List String
  pub withdrawn : List (String × String)

abbrev pub is_open : Status → Bool
is_open pending = true
is_open running = true
is_open _ = false

abbrev pub is_completed : Status → Bool
is_completed completed = true
is_completed _ = false

abbrev pub is_cancelled : Status → Bool
is_cancelled cancelled = true
is_cancelled _ = false

-- `failed` or `cancelled`
abbrev pub is_dead : Status → Bool
is_dead failed = true
is_dead cancelled = true
is_dead _ = false

abbrev pub is_some {ℓ} : {A : Type ℓ} → Option A → Bool
is_some none = false
is_some (some a) = true

abbrev pub is_empty {ℓ} : {A : Type ℓ} → List A → Bool
is_empty [] = true
is_empty (x ∷ xs) = false

-- `expired`
abbrev pub is_expired : ℕ → Interaction → Bool
is_expired stamp i = leb i.expires_at stamp

abbrev pub in_place : Interaction → User → Bool
in_place i user = str_eq user.organisation_id i.organisation_id && str_eq user.site_id i.site_id

-- The session of an interaction is in use and younger than eight hours.
abbrev pub in_use : ℕ → Session → Bool
in_use stamp s =
    not (leb (s.last_seen + seconds 900) stamp) && not (leb (s.created_at + seconds 28800) stamp)

-- The user that a session of an interaction gives it.
unfoldable pub session_user :
    aisle_signals.Accounts.Model.Db → ℕ → Interaction → Session → Option User
session_user db stamp i s = elim (resolve_session_user db s) [
  | none ↦ none
  | some user ↦ if in_use stamp s && in_place i user then some user else none
]

-- `authorized`
unfoldable pub authorized : aisle_signals.Accounts.Model.Db → ℕ → Interaction → Option User
authorized db stamp i =
    elim (first (λ s. str_eq s.token_hash i.session_hash && str_eq s.user_id i.actor_id)
      db.sessions) [ none ↦ none | some s ↦ session_user db stamp i s ]

-- What a step reads of its surroundings: the accounts, the time, and whether the runtime of an
-- interaction is still the current one.
pub record Moment : Type 0 where
  pub accounts : aisle_signals.Accounts.Model.Db
  pub stamp : ℕ
  pub runtime_current : Interaction → Bool
