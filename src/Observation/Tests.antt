-- ===== src/Observation/Tests.antt =====
-- An interaction that is mapped.
use aisle_signals.Common.{◌≡◌, refl, true, false, none, some, []}
use aisle_signals.Common.Int.{pos, ◌+ℤ◌}
use aisle_signals.Observation.Model.{
  ObservationScope, BindingSnapshot, AdmissionSnapshot, MappedObservation, InteractionResult,
  no_context, SourceItem, Formats, FormatLaws, is_identifier, is_local_entity_id,
}
use aisle_signals.Observation.Map.{
  Outcome, mapped, excluded, source_event_id, code_of, deadline_of, times_of, label_of,
  admission_tests, source_tests, map_observation, is_true, text_is,
}
use aisle_signals.Observation.Map.Sound.{
  IsWellFormed, IsCurrent, mapped-IsWellFormed, mapped-IsCurrent, mapped_interaction_eligible,
}

abbrev pub plain : Formats
plain = record {
  is_uuid = λ _. true;
  is_uuid5 = λ _. true;
  uuid5 = λ _. "event";
  iso = λ _. "2026-09-15T00:00:00Z";
  is_canonical_time = λ _. true;
}

plain-FormatLaws : FormatLaws plain
plain-FormatLaws = record { uuid5_is_uuid5 = λ _. refl; iso_is_canonical = λ _. refl }

abbrev pub scope : ObservationScope
scope = record { installation_id = "i"; organisation_id = "o"; site_id = "s" }

abbrev pub binding : BindingSnapshot
binding = record {
  installation_id = "i";
  binding_id = "b";
  generation = 2;
  organisation_id = "o";
  site_id = "s";
  activated_at = pos 100;
  enabled = true;
  pose_event_codes = [];
}

abbrev pub admission : AdmissionSnapshot
admission = record { binding_id = "b"; generation = 2 }

abbrev pub item : SourceItem
item = record {
  id = some "x";
  organisation_id = some "o";
  site_id = some "s";
  source_kind = some "CAMERA";
  historical = none;
  status = some "completed";
  result = some (record { action = some "POSSIBLE_CONCEALMENT"; alarm_eligible = some true });
  event_code = none;
  created_at = some (pos 200);
  expires_at = some (pos 9000);
  camera_context = no_context;
}

abbrev pub outcome : Outcome MappedObservation
outcome =
    map_observation plain "pilot" scope (some binding) (some admission) "interaction" item (pos 300)

abbrev pub result_of : Outcome MappedObservation → MappedObservation
result_of (mapped m) = m
result_of (excluded x) = record {
  entity_kind = "";
  entity_id = "";
  payload = record {
    source_event_id = "";
    event_code = "";
    source_label = "";
    occurred_at = "";
    historical = false;
  };
  admitted_at = pos 0;
  deadline = pos 0;
}

item_maps : outcome ≡ mapped (result_of outcome)
unfolding map_observation admission_tests source_tests source_event_id is_identifier
    is_local_entity_id code_of times_of deadline_of label_of ◌+ℤ◌
item_maps = refl

mapped-IsWellFormed_example : IsWellFormed plain (result_of outcome)
mapped-IsWellFormed_example =
    mapped-IsWellFormed plain "pilot" scope (some binding) (some admission) "interaction" item
      (pos 300) (result_of outcome) plain-FormatLaws item_maps

mapped-IsCurrent_example :
    IsCurrent scope (some binding) (some admission) "interaction" item (pos 300) (result_of outcome)
mapped-IsCurrent_example =
    mapped-IsCurrent plain "pilot" scope (some binding) (some admission) "interaction" item
      (pos 300) (result_of outcome) item_maps

mapped_interaction_eligible_example :
    (text_is item.status "completed" ≡ true)
    × ((r : InteractionResult) × (item.result ≡ some r) × (is_true r.alarm_eligible ≡ true))
mapped_interaction_eligible_example =
    mapped_interaction_eligible plain "pilot" scope (some binding) (some admission) item (pos 300)
      (result_of outcome) item_maps
