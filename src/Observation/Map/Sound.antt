-- ===== src/Observation/Map/Sound.antt =====
-- What is mapped passes the checks of `MappedObservation`, and only live, admitted, current
-- entities are mapped.
use aisle_signals.Common.{
  ℕ, zero, suc, ◌+◌, ◌*◌, ◌<◌, ◌≡◌, refl, ap, true, false, ◌||◌, Option, none, some, [], ◌∷◌,
  String, str_eq, ◌⊎◌, inl, inr, arith, Bool-cases, eq_iff,
}
use aisle_signals.Common.Int.{pos, ◌+ℤ◌, ◌≤ℤ◌, ◌<ℤ◌, +ℤ_parts}
use aisle_signals.Observation.Model.{
  Exclusion, Instant, ObservationScope, BindingSnapshot, AdmissionSnapshot, MappedObservation,
  InteractionResult, ContextField, no_context, malformed, context, SourceItem, Formats, FormatLaws,
  member, event_codes, is_local_entity_id,
}
use aisle_signals.Observation.Map.{
  grid_label, is_source_label, valid_payload, source_event_id, Outcome, mapped, excluded, text_is,
  is_true, code_of, day_us, minute_us, deadline_of, times_of, grid_count, label_of, admission_tests,
  source_tests, map_observation, camera_label, screen_label, scope_differs,
}

-- The parts that a mapped observation was put together from.
record Parts (formats : Formats) (mode : String) (scope : ObservationScope)
    (binding : Option BindingSnapshot) (admission : Option AdmissionSnapshot) (kind : String)
    (item : SourceItem) (now : Instant) (m : MappedObservation) : Type 0 where
  current : BindingSnapshot
  admitted : admission_tests mode scope binding admission ≡ mapped current
  named : item.id ≡ some m.entity_id
  event :
      source_event_id formats scope.installation_id current.binding_id scope.organisation_id
        scope.site_id kind m.entity_id
      ≡ some m.payload.source_event_id
  in_organisation : scope_differs kind item.organisation_id scope.organisation_id ≡ false
  in_site : scope_differs kind item.site_id scope.site_id ≡ false
  known : (str_eq kind "interaction" || str_eq kind "live_event") ≡ true
  kind_kept : m.entity_kind ≡ kind
  live : source_tests item ≡ mapped tt
  code : code_of current kind item ≡ mapped m.payload.event_code
  times : times_of current kind item now ≡ mapped (m.admitted_at, m.deadline)
  label : label_of item ≡ mapped m.payload.source_label
  stamped : m.payload.occurred_at ≡ formats.iso m.admitted_at
  historical : m.payload.historical ≡ true

map_observation-Parts :
    (formats : Formats) (mode : String) (scope : ObservationScope)
    (binding : Option BindingSnapshot) (admission : Option AdmissionSnapshot) (kind : String)
    (item : SourceItem) (now : Instant) (m : MappedObservation)
    → map_observation formats mode scope binding admission kind item now ≡ mapped m
    → Parts formats mode scope binding admission kind item now m
unfolding map_observation
map_observation-Parts formats mode scope binding admission kind item now m h =
    elim (Outcome-cases (admission_tests mode scope binding admission)) [
      | inl (b, e) ↦ record {
        current = b;
        admitted = e;
        named = ground arith;
        event = ground arith;
        in_organisation = ground arith;
        in_site = ground arith;
        known = ground arith;
        kind_kept = ground arith;
        live = ground arith;
        code = ground arith;
        times = ground arith;
        label = ground arith;
        stamped = ground arith;
        historical = ground arith;
      }
      | inr (x, e) ↦ absurd (ground arith)
    ]
  where
    Outcome-cases :
        (o : Outcome BindingSnapshot)
        → ((b : BindingSnapshot) × (o ≡ mapped b)) ⊎ ((x : Exclusion) × (o ≡ excluded x))
    Outcome-cases (mapped b) = inl (b, refl)
    Outcome-cases (excluded x) = inr (x, refl)

code_known :
    (b : BindingSnapshot) (kind : String) (item : SourceItem) (c : String)
    → code_of b kind item ≡ mapped c
    → member c event_codes ≡ true
unfolding code_of
code_known b kind item c h = ground (arith, eq_iff c "POSSIBLE_CONCEALMENT")

event_is_uuid5 :
    (formats : Formats) (i b o s kind id x : String)
    → FormatLaws formats
    → source_event_id formats i b o s kind id ≡ some x
    → formats.is_uuid5 x ≡ true
unfolding source_event_id
event_is_uuid5 formats i b o s kind id x laws h =
    ground
      (arith, laws.uuid5_is_uuid5 ("aislesignals-observation-v1" ∷ i ∷ b ∷ o ∷ s ∷ kind ∷ id ∷ []))

event_is_local :
    (formats : Formats) (i b o s kind id x : String)
    → source_event_id formats i b o s kind id ≡ some x
    → is_local_entity_id formats kind id ≡ true
unfolding source_event_id
event_is_local formats i b o s kind id x h = ground arith

-- What the clock tests leave.
pub record TimesFit (b : BindingSnapshot) (item : SourceItem) (now admitted deadline : Instant)
    : Type 0 where
  pub created : item.created_at ≡ some admitted
  pub after_binding : b.activated_at ≤ℤ admitted
  pub not_ahead : admitted ≤ℤ (now +ℤ pos (5 * minute_us))
  pub unexpired : now <ℤ deadline
  pub positive : admitted <ℤ deadline
  pub retained : deadline ≤ℤ (admitted +ℤ pos day_us)

deadline_fits :
    (kind : String) (item : SourceItem) (admitted deadline : Instant)
    → deadline_of kind item admitted ≡ mapped deadline
    → (admitted <ℤ deadline) × (deadline ≤ℤ (admitted +ℤ pos day_us))
unfolding deadline_of
deadline_fits kind item admitted deadline h = ground (arith, +ℤ_parts admitted (pos day_us))

times_fit :
    (b : BindingSnapshot) (kind : String) (item : SourceItem) (now admitted deadline : Instant)
    → times_of b kind item now ≡ mapped (admitted, deadline)
    → TimesFit b item now admitted deadline
unfolding times_of
times_fit b kind item now admitted deadline h =
    ground (arith, deadline_fits kind item admitted deadline)

label_2x2 : (i : ℕ) → i < 4 → is_source_label (grid_label "2x2" 4 (i + 1)) ≡ true
unfolding is_source_label
label_2x2 zero h = refl
label_2x2 (suc zero) h = refl
label_2x2 (suc (suc zero)) h = refl
label_2x2 (suc (suc (suc zero))) h = refl
label_2x2 (suc (suc (suc (suc i)))) h = absurd (omega arith)

label_3x2 : (i : ℕ) → i < 6 → is_source_label (grid_label "3x2" 6 (i + 1)) ≡ true
unfolding is_source_label
label_3x2 zero h = refl
label_3x2 (suc zero) h = refl
label_3x2 (suc (suc zero)) h = refl
label_3x2 (suc (suc (suc zero))) h = refl
label_3x2 (suc (suc (suc (suc zero)))) h = refl
label_3x2 (suc (suc (suc (suc (suc zero))))) h = refl
label_3x2 (suc (suc (suc (suc (suc (suc i)))))) h = absurd (omega arith)

label_2x3 : (i : ℕ) → i < 6 → is_source_label (grid_label "2x3" 6 (i + 1)) ≡ true
unfolding is_source_label
label_2x3 zero h = refl
label_2x3 (suc zero) h = refl
label_2x3 (suc (suc zero)) h = refl
label_2x3 (suc (suc (suc zero))) h = refl
label_2x3 (suc (suc (suc (suc zero)))) h = refl
label_2x3 (suc (suc (suc (suc (suc zero))))) h = refl
label_2x3 (suc (suc (suc (suc (suc (suc i)))))) h = absurd (omega arith)

plain_labels : (is_source_label camera_label ≡ true) × (is_source_label screen_label ≡ true)
unfolding is_source_label
plain_labels = (refl, refl)

context_label :
    (layout : String) (i : ℕ)
    → (str_eq layout "2x2" || str_eq layout "3x2" || str_eq layout "2x3") ≡ true
    → i < grid_count layout
    → is_source_label (grid_label layout (grid_count layout) (i + 1)) ≡ true
context_label layout i known h = elim (Bool-cases (str_eq layout "2x2")) [
  | inl e ↦ rw ((eq_iff layout "2x2").0 e) (label_2x2 i (rw ((eq_iff layout "2x2").0 e) at h))
  | inr n ↦ elim (Bool-cases (str_eq layout "3x2")) [
    | inl e ↦ rw ((eq_iff layout "3x2").0 e) (label_3x2 i (rw ((eq_iff layout "3x2").0 e) at h))
    | inr m ↦
        let e : str_eq layout "2x3" ≡ true = ground arith in
        rw ((eq_iff layout "2x3").0 e) (label_2x3 i (rw ((eq_iff layout "2x3").0 e) at h))
  ]
]

label_known : (item : SourceItem) (l : String) → label_of item ≡ mapped l → is_source_label l ≡ true
unfolding label_of
label_known item l h = label_from item.camera_context refl
  where
    label_from : (f : ContextField) → item.camera_context ≡ f → is_source_label l ≡ true
    label_from no_context e = elim (Bool-cases (text_is item.source_kind "CAMERA")) [
      | inl c ↦ ground (arith, plain_labels.0)
      | inr s ↦ ground (arith, plain_labels.1)
    ]
    label_from malformed e = ground arith
    label_from (context c) e = ground (arith, context_label c.layout c.camera_index)

admitted_by :
    (mode : String) (scope : ObservationScope) (binding : Option BindingSnapshot)
    (admission : Option AdmissionSnapshot) (b : BindingSnapshot)
    → admission_tests mode scope binding admission ≡ mapped b
    → (str_eq mode "pilot" ≡ true)
      × (binding ≡ some b)
      × (b.enabled ≡ true)
      × (scope.installation_id ≡ b.installation_id)
      × (scope.organisation_id ≡ b.organisation_id)
      × (scope.site_id ≡ b.site_id)
unfolding admission_tests
admitted_by mode scope binding admission b h = ground (
  arith,
  eq_iff scope.installation_id b.installation_id,
  eq_iff scope.organisation_id b.organisation_id,
  eq_iff scope.site_id b.site_id,
)

admitted_under :
    (mode : String) (scope : ObservationScope) (binding : Option BindingSnapshot)
    (admission : Option AdmissionSnapshot) (b : BindingSnapshot)
    → admission_tests mode scope binding admission ≡ mapped b
    → (a : AdmissionSnapshot) × (admission ≡ some a)
      × (a.binding_id ≡ b.binding_id)
      × (a.generation ≡ b.generation)
unfolding admission_tests
admitted_under mode scope none admission b h = absurd (ground arith)
admitted_under mode scope (some c) none b h = absurd (ground arith)
admitted_under mode scope (some c) (some a) b h =
    (a, refl, ground (arith, eq_iff a.binding_id c.binding_id), ground arith)

-- The field of the entity is that of the scope; that of a live event may be missing.
abbrev pub IsOfScope : String → Option String → String → Type 0
IsOfScope kind field s = (field ≡ some s) ⊎ ((field ≡ none) × (kind ≡ "live_event"))

field-IsOfScope :
    (kind s : String) (field : Option String)
    → (str_eq kind "interaction" || str_eq kind "live_event") ≡ true
    → scope_differs kind field s ≡ false
    → IsOfScope kind field s
field-IsOfScope kind s none k h = inr (refl, (eq_iff kind "live_event").0 (ground (arith, k, h)))
field-IsOfScope kind s (some t) k h = inl (ap some ((eq_iff t s).0 (ground (arith, h))))

not_recorded :
    (item : SourceItem)
    → source_tests item ≡ mapped tt
    → (text_is item.source_kind "RECORDED_VIDEO" ≡ false) × (is_true item.historical ≡ false)
unfolding source_tests
not_recorded item h = ground arith

-- An interaction must be a completed, alarm-eligible concealment.
interaction_eligible :
    (b : BindingSnapshot) (item : SourceItem) (c : String)
    → code_of b "interaction" item ≡ mapped c
    → (text_is item.status "completed" ≡ true)
      × ((r : InteractionResult) × (item.result ≡ some r) × (is_true r.alarm_eligible ≡ true))
unfolding code_of
interaction_eligible b item c h = ground (arith, eq_iff "interaction" "interaction")

-- What `MappedObservation` checks when it is made, so that making it never raises.
pub record IsWellFormed (formats : Formats) (m : MappedObservation) : Type 0 where
  pub local : is_local_entity_id formats m.entity_kind m.entity_id ≡ true
  pub payload : valid_payload formats m.payload ≡ true
  pub stamped : m.payload.occurred_at ≡ formats.iso m.admitted_at
  pub positive : m.admitted_at <ℤ m.deadline
  pub retained : m.deadline ≤ℤ (m.admitted_at +ℤ pos day_us)

-- The entity was live, admitted under the binding as it is now, and has not expired.
pub record IsCurrent (scope : ObservationScope) (binding : Option BindingSnapshot)
    (admission : Option AdmissionSnapshot) (kind : String) (item : SourceItem) (now : Instant)
    (m : MappedObservation) : Type 0 where
  pub current : BindingSnapshot
  pub bound : binding ≡ some current
  pub enabled : current.enabled ≡ true
  pub installation : scope.installation_id ≡ current.installation_id
  pub organisation : scope.organisation_id ≡ current.organisation_id
  pub site : scope.site_id ≡ current.site_id
  pub admitted :
      (a : AdmissionSnapshot) × (admission ≡ some a)
      × (a.binding_id ≡ current.binding_id)
      × (a.generation ≡ current.generation)
  pub in_organisation : IsOfScope kind item.organisation_id scope.organisation_id
  pub in_site : IsOfScope kind item.site_id scope.site_id
  pub unrecorded : text_is item.source_kind "RECORDED_VIDEO" ≡ false
  pub live : is_true item.historical ≡ false
  pub fits : TimesFit current item now m.admitted_at m.deadline

module _ (formats : Formats) (mode : String) (scope : ObservationScope)
    (binding : Option BindingSnapshot) (admission : Option AdmissionSnapshot) (kind : String)
    (item : SourceItem) (now : Instant) (m : MappedObservation) where
  -- An observation that `map_observation` returns passes every check that its construction makes:
  -- a local identifier of its kind, a valid payload, an occurrence time that is the ISO text of the admission, and a deadline
  -- after the admission by at most a day. Python's UUID5 and ISO texts are assumed well formed.
  pub mapped-IsWellFormed :
      FormatLaws formats
      → map_observation formats mode scope binding admission kind item now ≡ mapped m
      → IsWellFormed formats m
  unfolding valid_payload
  mapped-IsWellFormed laws h =
      let p = map_observation-Parts formats mode scope binding admission kind item now m h in
      let fit = times_fit p.current kind item now m.admitted_at m.deadline p.times in
      record {
        local = rw p.kind_kept (
            event_is_local formats scope.installation_id p.current.binding_id scope.organisation_id
              scope.site_id kind m.entity_id m.payload.source_event_id p.event);
        payload =
            rw
              (event_is_uuid5 formats scope.installation_id p.current.binding_id
                scope.organisation_id scope.site_id kind m.entity_id m.payload.source_event_id laws
                p.event)
              (rw (code_known p.current kind item m.payload.event_code p.code) (
                rw (label_known item m.payload.source_label p.label)
                  (rw p.historical (rw p.stamped (laws.iso_is_canonical m.admitted_at)))));
        stamped = p.stamped;
        positive = fit.positive;
        retained = fit.retained;
      }

  -- Only a live entity is mapped: not a recording, under an enabled binding of the scope's
  -- installation, organisation and site that it was admitted under in this generation, with the
  -- organisation and the site of the scope where it names them (an interaction must), created after
  -- the binding was activated, and before its deadline.
  pub mapped-IsCurrent :
      map_observation formats mode scope binding admission kind item now ≡ mapped m
      → IsCurrent scope binding admission kind item now m
  mapped-IsCurrent h =
      let p = map_observation-Parts formats mode scope binding admission kind item now m h in
      let a = admitted_by mode scope binding admission p.current p.admitted in
      let r = not_recorded item p.live in
      record {
        current = p.current;
        bound = a.1;
        enabled = a.2;
        installation = a.3;
        organisation = a.4;
        site = a.5;
        admitted = admitted_under mode scope binding admission p.current p.admitted;
        in_organisation = field-IsOfScope kind _ item.organisation_id p.known p.in_organisation;
        in_site = field-IsOfScope kind _ item.site_id p.known p.in_site;
        unrecorded = r.0;
        live = r.1;
        fits = times_fit p.current kind item now m.admitted_at m.deadline p.times;
      }

-- An interaction reaches the cloud only if it is complete and its result may raise the alarm.
pub mapped_interaction_eligible :
    (formats : Formats) (mode : String) (scope : ObservationScope)
    (binding : Option BindingSnapshot) (admission : Option AdmissionSnapshot) (item : SourceItem)
    (now : Instant) (m : MappedObservation)
    → map_observation formats mode scope binding admission "interaction" item now ≡ mapped m
    → (text_is item.status "completed" ≡ true)
      × ((r : InteractionResult) × (item.result ≡ some r) × (is_true r.alarm_eligible ≡ true))
mapped_interaction_eligible formats mode scope binding admission item now m h =
    let p = map_observation-Parts formats mode scope binding admission "interaction" item now m h in
    interaction_eligible p.current item m.payload.event_code p.code
