-- ===== src/Interactions/Tests.antt =====
-- A sample that is submitted, started, cancelled and reviewed in one branch.
use Prim.Native.String.{◌++◌ as join}
use aisle_signals.Common.{
  ◌≡◌, refl, ℕ, zero, suc, Bool, true, false, not, ◌&&◌, Option, none, some, List, [], ◌∷◌, String,
  length, arith,
}
use aisle_signals.Common.Tables.{first, has_row, select, delete_where}
use aisle_signals.Interactions.Model.{Service, Interaction, completed, failed}
use aisle_signals.Interactions.Jobs.{
  Sample, new_interaction, has_id, submit, make_room, roll_off, dispatch, cancel, find_interaction,
}
use aisle_signals.Interactions.Sound.{IsSound, Unique}
use aisle_signals.Interactions.Reach.{
  Reachable, here, later, submits, cancels, fresh_service, Reachable-IsSound,
}
use aisle_signals.Interactions.Room.{suspicious, protected_kept}

abbrev sample : Sample
sample = record {
  id = "sample";
  organisation_id = "group";
  site_id = "shop";
  frames = "0" ∷ "1" ∷ "2" ∷ [];
  camera_calibration = none;
  actor_id = "anna";
  session_hash = "token";
}

abbrev service_or : Service → Option Service → Service
service_or s none = s
service_or s (some t) = t

abbrev submitted : Service
submitted = service_or fresh_service (submit 1000 sample fresh_service)

submit_run : submit 1000 sample fresh_service ≡ some submitted
unfolding submit make_room roll_off select dispatch
submit_run = refl

submitted-Reachable : Reachable fresh_service submitted
unfolding has_row
submitted-Reachable = later here (submits 1000 sample refl submit_run)

Reachable-IsSound_example : IsSound (cancel "sample" submitted)
Reachable-IsSound_example =
    Reachable-IsSound (cancel "sample" submitted) (later submitted-Reachable (cancels "sample"))

-- A completed sample that shows a possible concealment.
abbrev evidence : Interaction
evidence = record (new_interaction 1000 sample) {
  status = completed;
  result = some (record {
    action = "POSSIBLE_CONCEALMENT";
    alarm_eligible = false;
    camera_calibrated = true;
  });
}

-- Failed samples with different identifiers.
abbrev failures : ℕ → String → List Interaction
failures zero id = []
failures (suc n) id =
    record (new_interaction 1000 sample) { id = id; status = failed } ∷ failures n (join "f" id)

-- The branch is full: the evidence, and failed samples after it.
abbrev crowded : Service
crowded = record fresh_service { interactions = evidence ∷ failures 99 "f" }

all_unique : List Interaction → Bool
all_unique [] = true
all_unique (i ∷ is) = not (has_row (has_id i.id) is) && all_unique is

all_unique-Unique : (is : List Interaction) → all_unique is ≡ true → Unique is
unfolding all_unique
all_unique-Unique [] h = tt
all_unique-Unique (i ∷ is) h = (ground (arith, h), all_unique-Unique is (ground (arith, h)))

crowded-Unique : Unique crowded.interactions
unfolding all_unique has_row
crowded-Unique = all_unique-Unique crowded.interactions refl

evidence_found : find_interaction "sample" crowded ≡ some evidence
unfolding find_interaction first
evidence_found = refl

-- Making room removes one of the failed samples.
room_made : length (make_room "group" "shop" crowded).1.interactions ≡ 99
unfolding make_room roll_off select delete_where
room_made = refl

protected_kept_example :
    find_interaction "sample" (make_room "group" "shop" crowded).1 ≡ some evidence
protected_kept_example =
    protected_kept "group" "shop" "sample" crowded evidence crowded-Unique evidence_found (
      suspicious
        (record {
          action = "POSSIBLE_CONCEALMENT";
          alarm_eligible = false;
          camera_calibrated = true;
        })
        refl refl refl)
