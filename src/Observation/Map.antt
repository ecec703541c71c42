-- ===== src/Observation/Map.antt =====
-- `validate_payload`, `source_event_id` and `map_observation` of cloud_observation.py.
pub mod Sound
use Prim.Native.String.{◌++◌ as join}
use aisle_signals.Common.{
  ℕ, suc, ◌+◌, ◌*◌, Bool, true, false, ◌&&◌, ◌||◌, not, Option, none, some, List, [], ◌∷◌, String,
  ltb, str_eq, ◌==◌, if◌then◌else◌,
}
use aisle_signals.Common.Int.{pos, negsuc, leb_ℤ, ltb_ℤ, ◌+ℤ◌}
use aisle_signals.Observation.Model.{
  Exclusion, Instant, ObservationScope, BindingSnapshot, AdmissionSnapshot, Payload,
  MappedObservation, CameraContext, no_context, malformed, context, SourceItem, Formats,
  is_identifier, is_local_entity_id, member, pose_event_codes, event_codes,
}

abbrev pub digit : ℕ → String
digit n =
    if n == 1
    then "1"
    else if n == 2
    then "2"
    else if n == 3
    then "3"
    else if n == 4
    then "4"
    else if n == 5
    then "5"
    else "6"

-- The label of a grid camera, counted from 1.
unfoldable pub grid_label : String → ℕ → ℕ → String
unfolding digit
grid_label layout count index = join "Camera " (
    join (digit index) (
      join " of "
        (join (digit count) (join " · " (join layout " screen grid · local observation")))))

unfoldable pub grid_labels : String → ℕ → ℕ → List String
unfolding grid_label
grid_labels layout count ℕ.zero = []
grid_labels layout count (suc n) = grid_label layout count (suc n) ∷ grid_labels layout count n

abbrev pub camera_label : String
camera_label = "Camera source · local observation"

abbrev pub screen_label : String
screen_label = "Screen area · local observation"

-- `label in _SOURCE_LABELS`
unfoldable pub is_source_label : String → Bool
unfolding grid_labels
is_source_label s =
    str_eq s camera_label
    || str_eq s screen_label
    || member s (grid_labels "2x2" 4 4)
    || member s (grid_labels "3x2" 6 6)
    || member s (grid_labels "2x3" 6 6)

-- `validate_payload` accepts.
unfoldable pub valid_payload : Formats → Payload → Bool
unfolding is_source_label
valid_payload formats p =
    formats.is_uuid5 p.source_event_id
    && member p.event_code event_codes
    && is_source_label p.source_label
    && p.historical
    && formats.is_canonical_time p.occurred_at

-- `source_event_id`; `none` is the `ValueError`.
unfoldable pub source_event_id :
    Formats → String → String → String → String → String → String → Option String
source_event_id formats installation binding organisation site kind id =
    if formats.is_uuid installation
      && formats.is_uuid binding
      && is_identifier organisation
      && is_identifier site
      && is_local_entity_id formats kind id
    then some (
        formats.uuid5 (
          "aislesignals-observation-v1" ∷ installation ∷ binding ∷ organisation ∷ site ∷ kind ∷ id
          ∷ []))
    else none

-- An outcome of the projection.
pub data Outcome {ℓ} (A : Type ℓ) : Type ℓ where
  mapped : A → Outcome A
  excluded : Exclusion → Outcome A

infixl 5 ◌>>=◌ ◌>>◌
abbrev pub ◌>>=◌ {ℓ κ} : {A : Type ℓ} {B : Type κ} → Outcome A → (A → Outcome B) → Outcome B
mapped a >>= f = f a
excluded x >>= f = excluded x

abbrev pub ◌>>◌ {ℓ} : {B : Type ℓ} → Outcome (Unit {0}) → Outcome B → Outcome B
m >> k = m >>= λ _. k

-- `if condition: return Exclusion.…`
abbrev pub exclude_if : Bool → Exclusion → Outcome (Unit {0})
exclude_if true x = excluded x
exclude_if false x = mapped tt

abbrev pub or_exclude {ℓ} : {A : Type ℓ} → Option A → Exclusion → Outcome A
or_exclude none x = excluded x
or_exclude (some a) x = mapped a

abbrev pub text_is : Option String → String → Bool
text_is none s = false
text_is (some t) s = str_eq t s

abbrev pub is_true : Option Bool → Bool
is_true none = false
is_true (some b) = b

-- `(entity_kind == "interaction" or key in item) and item.get(key) != …`
abbrev pub scope_differs : String → Option String → String → Bool
scope_differs kind none s = str_eq kind "interaction"
scope_differs kind (some t) s = not (str_eq t s)

-- The event code of an entity of either kind.
unfoldable pub code_of : BindingSnapshot → String → SourceItem → Outcome String
code_of binding kind item =
    if str_eq kind "interaction"
    then (do
      exclude_if (not (text_is item.status "completed")) Exclusion.not_completed
      result ← or_exclude item.result Exclusion.invalid_observation
      exclude_if (not (text_is result.action "POSSIBLE_CONCEALMENT")) Exclusion.event_excluded
      exclude_if (not (is_true result.alarm_eligible)) Exclusion.alarm_ineligible
      mapped "POSSIBLE_CONCEALMENT")
    else (do
      code ← or_exclude item.event_code Exclusion.event_excluded
      exclude_if (not (member code pose_event_codes)) Exclusion.event_excluded
      exclude_if (not (member code binding.pose_event_codes)) Exclusion.pose_disabled
      mapped code)

abbrev pub minute_us : ℕ
minute_us = 60000000

abbrev pub day_us : ℕ
day_us = 86400000000

-- `datetime.min` and `datetime.max`, in UTC: a sum beyond them is an `OverflowError`.
abbrev pub earliest_instant : Instant
earliest_instant = negsuc 62135596799999999

abbrev pub latest_instant : Instant
latest_instant = pos 253402300799999999

-- The earlier of the retention and, for an interaction, of its own expiry.
unfoldable pub deadline_of : String → SourceItem → Instant → Outcome Instant
deadline_of kind item admitted =
    let retained = admitted +ℤ pos day_us in
    if ltb_ℤ latest_instant retained
    then excluded Exclusion.clock_invalid
    else if str_eq kind "interaction"
    then (do
      expiry ← or_exclude item.expires_at Exclusion.clock_invalid
      exclude_if (leb_ℤ expiry admitted) Exclusion.clock_invalid
      mapped (if ltb_ℤ expiry retained then expiry else retained))
    else mapped retained

-- The admission time and the deadline, under the clock tests; the first is of the sums on the clock.
unfoldable pub times_of :
    BindingSnapshot → String → SourceItem → Instant → Outcome (Instant × Instant)
times_of binding kind item now = do
  admitted ← or_exclude item.created_at Exclusion.clock_invalid
  exclude_if
      (ltb_ℤ now (earliest_instant +ℤ pos (30 * day_us))
        || ltb_ℤ latest_instant (now +ℤ pos (5 * minute_us)))
      Exclusion.clock_invalid
  exclude_if
      (ltb_ℤ (admitted +ℤ pos (30 * day_us)) now || ltb_ℤ (now +ℤ pos (5 * minute_us)) admitted)
      Exclusion.clock_invalid
  exclude_if (ltb_ℤ (now +ℤ pos (5 * minute_us)) binding.activated_at) Exclusion.clock_invalid
  exclude_if (ltb_ℤ admitted binding.activated_at) Exclusion.before_binding
  deadline ← deadline_of kind item admitted
  exclude_if (leb_ℤ deadline now) Exclusion.expired
  mapped (admitted, deadline)

-- The number of cameras of a layout.
abbrev pub grid_count : String → ℕ
grid_count layout = if str_eq layout "2x2" then 4 else 6

-- The tests of `CameraContext` that bear on the label.
unfoldable pub valid_context : CameraContext → Bool
valid_context c =
    (str_eq c.layout "2x2" || str_eq c.layout "3x2" || str_eq c.layout "2x3")
    && ltb c.camera_index (grid_count c.layout)

unfoldable pub label_of : SourceItem → Outcome String
unfolding valid_context
label_of item = elim item.camera_context [
  | no_context ↦ mapped (if text_is item.source_kind "CAMERA" then camera_label else screen_label)
  | malformed ↦ excluded Exclusion.invalid_camera_context
  | context c ↦
      if valid_context c
      then mapped (grid_label c.layout (grid_count c.layout) (c.camera_index + 1))
      else excluded Exclusion.invalid_camera_context
]

-- The tests of `map_observation` on mode, binding, scope and admission.
unfoldable pub admission_tests :
    String
    → ObservationScope
    → Option BindingSnapshot
    → Option AdmissionSnapshot
    → Outcome BindingSnapshot
admission_tests mode scope binding admission = do
  exclude_if (not (str_eq mode "pilot")) Exclusion.not_pilot
  b ← or_exclude binding Exclusion.binding_missing
  exclude_if (not b.enabled) Exclusion.binding_disabled
  exclude_if
      (not (
        str_eq scope.installation_id b.installation_id
        && str_eq scope.organisation_id b.organisation_id
        && str_eq scope.site_id b.site_id))
      Exclusion.scope_mismatch
  a ← or_exclude admission Exclusion.admission_missing
  exclude_if (not (str_eq a.binding_id b.binding_id && a.generation == b.generation))
      Exclusion.binding_changed
  mapped b

-- The tests on the source of the entity.
unfoldable pub source_tests : SourceItem → Outcome (Unit {0})
source_tests item = do
  exclude_if (text_is item.source_kind "RECORDED_VIDEO" || is_true item.historical)
      Exclusion.recorded_source
  exclude_if (not (text_is item.source_kind "SCREEN_CAPTURE" || text_is item.source_kind "CAMERA"))
      Exclusion.unsupported_source

unfoldable pub map_observation :
    Formats
    → String
    → ObservationScope
    → Option BindingSnapshot
    → Option AdmissionSnapshot
    → String
    → SourceItem
    → Instant
    → Outcome MappedObservation
map_observation formats mode scope binding admission kind item now = do
  b ← admission_tests mode scope binding admission
  exclude_if (not (str_eq kind "interaction" || str_eq kind "live_event"))
      Exclusion.invalid_observation
  exclude_if (scope_differs kind item.organisation_id scope.organisation_id)
      Exclusion.scope_mismatch
  exclude_if (scope_differs kind item.site_id scope.site_id) Exclusion.scope_mismatch
  id ← or_exclude item.id Exclusion.invalid_observation
  event_id ←
      or_exclude
        (source_event_id formats scope.installation_id b.binding_id scope.organisation_id
          scope.site_id kind id)
        Exclusion.invalid_observation
  source_tests item
  code ← code_of b kind item
  times ← times_of b kind item now
  label ← label_of item
  mapped (record {
    entity_kind = kind;
    entity_id = id;
    payload = record {
      source_event_id = event_id;
      event_code = code;
      source_label = label;
      occurred_at = formats.iso times.0;
      historical = true;
    };
    admitted_at = times.0;
    deadline = times.1;
  })
