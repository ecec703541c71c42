-- ===== src/Observation/Model.antt =====
-- The values of services/api/cloud_observation.py.
use Prim.Native.Char.{code}
use aisle_signals.Common.{
  ◌≡◌, ℕ, suc, Bool, true, false, ◌&&◌, ◌||◌, Option, List, [], ◌∷◌, String, leb, str_eq, ◌==◌,
}
use aisle_signals.Common.Int.{ℤ}

-- The outcomes of `map_observation` that are not an observation.
pub data Exclusion : Type 0 where
  not_pilot binding_missing binding_disabled scope_mismatch admission_missing : Exclusion
  binding_changed before_binding invalid_observation unsupported_source : Exclusion
  recorded_source not_completed event_excluded alarm_ineligible pose_disabled : Exclusion
  invalid_camera_context clock_invalid expired : Exclusion

-- A `datetime` in UTC, by its microseconds since the epoch.
abbrev pub Instant : Type 0
Instant = ℤ

pub record ObservationScope : Type 0 where
  pub installation_id : String
  pub organisation_id : String
  pub site_id : String

pub record BindingSnapshot : Type 0 where
  pub installation_id : String
  pub binding_id : String
  pub generation : ℕ
  pub organisation_id : String
  pub site_id : String
  pub activated_at : Instant
  pub enabled : Bool
  pub pose_event_codes : List String

pub record AdmissionSnapshot : Type 0 where
  pub binding_id : String
  pub generation : ℕ

pub record Payload : Type 0 where
  pub source_event_id : String
  pub event_code : String
  pub source_label : String
  pub occurred_at : String
  pub historical : Bool

-- `MappedObservation`
pub record MappedObservation : Type 0 where
  pub entity_kind : String
  pub entity_id : String
  pub payload : Payload
  pub admitted_at : Instant
  pub deadline : Instant

-- The result of a completed interaction; a key that is not there is `none`.
pub record InteractionResult : Type 0 where
  pub action : Option String
  pub alarm_eligible : Option Bool

-- The grid position of a camera, and whether its model accepts the fields.
pub record CameraContext : Type 0 where
  pub layout : String
  pub camera_index : ℕ

pub data ContextField : Type 0 where
  no_context malformed : ContextField
  context : CameraContext → ContextField

-- A stored entity; a key that is not there is `none`, and so is a time that does not parse.
pub record SourceItem : Type 0 where
  pub id : Option String
  pub organisation_id : Option String
  pub site_id : Option String
  pub source_kind : Option String
  pub historical : Option Bool
  pub status : Option String
  pub result : Option InteractionResult
  pub event_code : Option String
  pub created_at : Option Instant
  pub expires_at : Option Instant
  pub camera_context : ContextField

-- What the module takes from Python's library: the tests of UUIDs, the UUID5 of a JSON list, the
-- ISO text of an instant, and whether a text is the ISO form of the instant that it parses to.
pub record Formats : Type 0 where
  pub is_uuid : String → Bool
  pub is_uuid5 : String → Bool
  pub uuid5 : List String → String
  pub iso : Instant → String
  pub is_canonical_time : String → Bool

-- What Python's library documents of these: a UUID5 is a UUID of version 5, and an ISO text parses
-- to the instant that it was made of.
pub record FormatLaws (formats : Formats) : Type 0 where
  pub uuid5_is_uuid5 : (parts : List String) → formats.is_uuid5 (formats.uuid5 parts) ≡ true
  pub iso_is_canonical : (t : Instant) → formats.is_canonical_time (formats.iso t) ≡ true

abbrev pub codes : String → List ℕ
codes String.[] = []
codes (String.◌∷◌ c s) = code c ∷ codes s

abbrev pub all_codes : (ℕ → Bool) → List ℕ → Bool
all_codes p [] = true
all_codes p (c ∷ cs) = p c && all_codes p cs

abbrev pub count_codes : List ℕ → ℕ
count_codes [] = 0
count_codes (c ∷ cs) = suc (count_codes cs)

-- `[A-Za-z0-9_-]`
abbrev pub identifier_code : ℕ → Bool
identifier_code c =
    (leb b'A' c && leb c b'Z')
    || (leb b'a' c && leb c b'z')
    || (leb b'0' c && leb c b'9')
    || c == b'_'
    || c == b'-'

-- `_IDENTIFIER`
unfoldable pub is_identifier : String → Bool
is_identifier s =
    all_codes identifier_code (codes s)
    && leb 1 (count_codes (codes s))
    && leb (count_codes (codes s)) 128

abbrev pub hex_code : ℕ → Bool
hex_code c = (leb b'0' c && leb c b'9') || (leb b'a' c && leb c b'f')

-- `live-[0-9a-f]{64}`
abbrev is_live_codes : List ℕ → Bool
is_live_codes (l ∷ i ∷ v ∷ e ∷ dash ∷ rest) =
    l == b'l'
    && i == b'i'
    && v == b'v'
    && e == b'e'
    && dash == b'-'
    && all_codes hex_code rest
    && count_codes rest == 64
is_live_codes _ = false

-- `_local_entity_id` accepts the identifier for its kind.
unfoldable pub is_local_entity_id : Formats → String → String → Bool
is_local_entity_id formats kind id =
    (str_eq kind "interaction" && formats.is_uuid id)
    || (str_eq kind "live_event" && is_live_codes (codes id))

abbrev pub member : String → List String → Bool
member s [] = false
member s (w ∷ ws) = str_eq s w || member s ws

abbrev pub pose_event_codes : List String
pose_event_codes = "REPEATED_HAND_TO_WAIST" ∷ "RESTRICTED_ZONE_ENTRY" ∷ []

abbrev pub event_codes : List String
event_codes = "POSSIBLE_CONCEALMENT" ∷ pose_event_codes
