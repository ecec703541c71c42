-- ===== src/Interactions/Jobs.antt =====
-- services/api/interactions.py: the steps of a job and of the requests on it.
use aisle_signals.Common.{
  ℕ, ◌+◌, ◌-◌, Bool, true, false, ◌&&◌, ◌||◌, not, Option, none, some, List, [], ◌∷◌, ◌++◌, String,
  ltb, str_eq, ◌==◌, if◌then◌else◌, length,
}
use aisle_signals.Common.Tables.{first, select, has_row, update_where, delete_where}
use aisle_signals.Accounts.Login.{seconds}
use aisle_signals.Interactions.Model.{
  Status, pending, running, completed, failed, cancelled, Review, Outcome, Interaction, Phase,
  starting, analysing, Active, Service, is_open, is_completed, is_cancelled, is_dead, is_some,
  is_empty, is_expired, authorized, Moment,
}

abbrev pub has_id : String → Interaction → Bool
has_id id i = str_eq i.id id

abbrev pub is_job : String → Active → Bool
is_job id a = str_eq a.id id

unfoldable pub find_interaction : String → Service → Option Interaction
find_interaction id s = first (has_id id) s.interactions

-- `Store.put` of an interaction that exists.
abbrev pub change : String → (Interaction → Interaction) → Service → Service
change id f s = record s { interactions = update_where (has_id id) f s.interactions }

abbrev pub job_cancelled : String → Service → Bool
job_cancelled id s = has_row (λ a. is_job id a && a.is_cancelled) s.active_jobs

-- An interaction that ends without a classification; its frames are removed.
abbrev pub ended : Status → String → Interaction → Interaction
ended status message i = record i { status = status; error = some message; frames = [] }

-- The job may go on: its user is still authorised, it is not cancelled and its runtime is current.
abbrev pub may_run : Moment → Service → Interaction → Bool
may_run m s i =
    is_some (authorized m.accounts m.stamp i) && not (job_cancelled i.id s) && m.runtime_current i

-- `finally` of `worker`
unfoldable pub release : String → Service → Service
release id s = record s { active_jobs = delete_where (is_job id) s.active_jobs; slot_free = true }

abbrev pub set_phase : String → Phase → List Active → List Active
set_phase id phase active = update_where (is_job id) (λ a. record a { phase = phase }) active

abbrev pub started : Interaction → Interaction
started i = record i { status = running }

-- The first transaction of `worker`; a worker that returns releases the slot.
unfoldable pub begin : Moment → String → Service → Service
begin m id s = elim (find_interaction id s) [
  | none ↦ release id s
  | some i ↦
      if is_cancelled i.status || is_expired m.stamp i
      then release id s
      else if not (may_run m s i)
      then release id (
          change id
            (ended cancelled "Analysis stopped because its runtime context or authorisation ended.")
            s)
      else record (change id started s) { active_jobs = set_phase id analysing s.active_jobs }
]

-- A result for a camera without a calibration never makes an alarm eligible.
abbrev pub calibrated_result : Option String → Outcome → Outcome
calibrated_result none r = record r { camera_calibrated = false; alarm_eligible = false }
calibrated_result (some c) r = record r { camera_calibrated = true }

abbrev pub finished : Outcome → Interaction → Interaction
finished r i = record i {
  status = completed;
  result = some (calibrated_result i.camera_calibration r);
}

-- The second transaction of `worker`, with the result of the analysis.
unfoldable pub finish : Moment → String → Outcome → Service → Service
finish m id r s = elim (find_interaction id s) [
  | none ↦ release id s
  | some i ↦
      if is_cancelled i.status
      then release id s
      else if is_expired m.stamp i || s.closed || not (may_run m s i)
      then release id (
          change id
            (ended cancelled
              "Analysis stopped before publication because its context or authorisation ended.")
            s)
      else release id (record (change id (finished r) s) { published = s.published ++ id ∷ [] })
]

-- The handler of an exception of `worker`.
unfoldable pub fail : String → String → Service → Service
fail id message s = elim (find_interaction id s) [
  | none ↦ release id s
  | some i ↦
      if is_cancelled i.status || is_completed i.status
      then release id s
      else release id (change id (ended failed message) s)
]

-- `if cancellation.is_set() or self.closed.is_set(): return`, before the analysis.
unfoldable pub abandon : String → Service → Service
abandon id s = if job_cancelled id s || s.closed then release id s else s

abbrev pub signal : String → List Active → List Active
signal id active = update_where (is_job id) (λ a. record a { is_cancelled = true }) active

-- `cancel`, of an interaction that is available
unfoldable pub cancel : String → Service → Service
cancel id s = elim (find_interaction id s) [
  | none ↦ s
  | some i ↦
      if is_open i.status
      then record (change id
          (ended cancelled "Analysis was cancelled. No classification was published.") s) {
            active_jobs = signal id s.active_jobs;
          }
      else s
]

abbrev pub reviewed : Review → Interaction → Interaction
reviewed r i = record i { review = some r; version = i.version + 1 }

-- The version that a review expects is current, or a first review names none.
abbrev pub version_fits : Option ℕ → Interaction → Bool
version_fits none i = not (is_some i.review)
version_fits (some v) i = v == i.version

-- `review`; `none` is a refusal.
unfoldable pub review : String → Option ℕ → Review → Service → Option Service
review id expected r s = elim (find_interaction id s) [
  | none ↦ none
  | some i ↦
      if is_completed i.status && version_fits expected i
      then some (change id (reviewed r) s)
      else none
]

abbrev pub linked : String → Interaction → Interaction
linked incident i = record i { incident_id = some incident; version = i.version + 1 }

-- The checks of `create_case` on the interaction; its frames are read elsewhere.
abbrev pub may_link : ℕ → Interaction → Bool
may_link expected i =
    not (is_some i.incident_id)
    && (i.version == expected)
    && is_completed i.status
    && is_some i.result
    && is_some i.review
    && not (is_empty i.frames)

-- `create_case` on the record of the interaction; `none` is a refusal.
unfoldable pub link_case : String → ℕ → String → Service → Option Service
link_case id expected incident s = elim (find_interaction id s) [
  | none ↦ none
  | some i ↦ if may_link expected i then some (change id (linked incident) s) else none
]

abbrev pub withdraw : String → String → Service → Service
withdraw id reason s = record s { withdrawn = s.withdrawn ++ (id, reason) ∷ [] }

abbrev pub drop : String → Service → Service
drop id s = record s { interactions = delete_where (has_id id) s.interactions }

-- `delete`
unfoldable pub delete : String → Service → Service
delete id s =
    drop id (withdraw id "LOCAL_DELETED" (record s { active_jobs = signal id s.active_jobs }))

-- The interaction is of little value: it failed, or shows ordinary shopping.
abbrev pub is_ordinary : String → Bool
is_ordinary action =
    str_eq action "NORMAL_SHOPPING"
    || str_eq action "UNCLEAR"
    || str_eq action "TAKE_PRODUCT"
    || str_eq action "RETURN_PRODUCT"
    || str_eq action "PLACE_IN_BASKET"

abbrev pub is_plain : Option Outcome → Bool
is_plain none = false
is_plain (some r) = is_ordinary r.action && not r.alarm_eligible

abbrev pub may_roll_off : Interaction → Bool
may_roll_off i =
    not (is_some i.review) && (is_dead i.status || (is_completed i.status && is_plain i.result))

abbrev pub site_limit : ℕ
site_limit = 100

abbrev pub total_limit : ℕ
total_limit = 600

abbrev pub has_room : ℕ → ℕ → Bool
has_room count total = ltb count site_limit && ltb total total_limit

-- The loop of `make_room` over the rows of the branch.
unfoldable pub roll_off : List Interaction → ℕ → ℕ → Service → Bool × Service
roll_off [] count total s = (has_room count total, s)
roll_off (i ∷ rows) count total s =
    let rolled =
      roll_off rows (count - 1) (total - 1) (drop i.id (withdraw i.id "LOCAL_EXPORT_REMOVED" s)) in
    let kept = roll_off rows count total s in
    if has_room count total then (true, s) else if may_roll_off i then rolled else kept

abbrev pub of_site : String → String → Interaction → Bool
of_site organisation_id site_id i =
    str_eq i.organisation_id organisation_id && str_eq i.site_id site_id

-- `make_room`
unfoldable pub make_room : String → String → Service → Bool × Service
make_room organisation_id site_id s =
    let rows = select (of_site organisation_id site_id) s.interactions in
    roll_off rows (length rows) (length s.interactions) s

-- An expired interaction goes; after a restart an interrupted one fails.
abbrev pub recovered : List Active → Interaction → Interaction
recovered active i =
    if is_open i.status && not (has_row (is_job i.id) active)
    then ended failed
        "Analysis was interrupted by a service restart. Submit a fresh sample to retry." i
    else i

-- The loop of `cleanup` over the rows.
unfoldable pub clean_rows : ℕ → Bool → List Interaction → Service → Service
clean_rows stamp recover [] s = s
clean_rows stamp recover (i ∷ rows) s = clean_rows stamp recover rows (
    if is_expired stamp i
    then drop i.id (withdraw i.id "LOCAL_EXPIRED" s)
    else if recover
    then change i.id (recovered s.active_jobs) s
    else s)

-- `cleanup`, when the files can be removed
unfoldable pub cleanup : ℕ → Bool → Service → Service
cleanup stamp recover s = clean_rows stamp recover s.interactions s

-- What `submit` stores and starts once its checks are passed and the slot is acquired: its insertion,
-- the commit and the entry of the job in one step, when none of them fails.
unfoldable pub dispatch : Interaction → Service → Service
dispatch i s = record s {
  interactions = s.interactions ++ i ∷ [];
  active_jobs = s.active_jobs ++ record { id = i.id; is_cancelled = false; phase = starting } ∷ [];
  slot_free = false;
}

-- The parts of a new interaction that `submit` computes before it stores it.
pub record Sample : Type 0 where
  pub id : String
  pub organisation_id : String
  pub site_id : String
  pub frames : List String
  pub camera_calibration : Option String
  pub actor_id : String
  pub session_hash : String

abbrev pub new_interaction : ℕ → Sample → Interaction
new_interaction stamp x = record {
  id = x.id;
  organisation_id = x.organisation_id;
  site_id = x.site_id;
  status = pending;
  error = none;
  frames = x.frames;
  result = none;
  review = none;
  version = 1;
  incident_id = none;
  camera_calibration = x.camera_calibration;
  actor_id = x.actor_id;
  session_hash = x.session_hash;
  expires_at = stamp + seconds 86400;
}

-- `submit` from its call of `make_room` on; a refusal rolls back what was removed.
unfoldable pub submit : ℕ → Sample → Service → Option Service
submit stamp x s =
    let room = make_room x.organisation_id x.site_id s in
    if room.0 && room.1.slot_free then some (dispatch (new_interaction stamp x) room.1) else none
