-- ===== src/Custody/Engine.antt =====
-- `ProductCustodyEngine`: bounded records by visit, episode and product, and `observe`.
pub mod History
pub mod Alarm
pub mod Runs
pub mod Bounds
pub mod Sticky
pub mod Replay
use aisle_signals.Common.{
  Bool, true, false, ◌&&◌, ◌||◌, not, Option, none, some, List, [], ◌∷◌, String, str_eq,
  if◌then◌else◌, length,
}
use aisle_signals.Common.Int.{ℤ, pos, ltb_ℤ, leb_ℤ, eqb_ℤ}
use aisle_signals.Custody.Model.{
  fact_eq, CustodyObservation, CustodyAssessment, Reason, Record, fresh_record, valid,
}
use aisle_signals.Custody.Steps.{compromise_if, accept}
use aisle_signals.Custody.Assess.{assessment}

abbrev pub Key : Type 0
Key = String × String × String

abbrev pub key_of : CustodyObservation → Key
key_of o = (o.visit_id, o.episode_id, o.product_token)

abbrev pub key_eq : Key → Key → Bool
key_eq a b = str_eq a.0 b.0 && str_eq a.1 b.1 && str_eq a.2 b.2

-- `_records`, in the order of insertion, with the settings of the engine.
pub record ProductCustodyEngine : Type 0 where
  pub max_records : ℤ
  pub max_episode_ms : ℤ
  pub pos_grace_ms : ℤ
  pub records : List (Key × Record)
  pub capacity_degraded : Bool

-- `__init__`; `none` is the `ValueError`.
unfoldable pub create : ℤ → ℤ → ℤ → Option ProductCustodyEngine
create max_records max_episode_ms pos_grace_ms =
    if ltb_ℤ max_records (pos 1) || ltb_ℤ max_episode_ms (pos 60000) || ltb_ℤ pos_grace_ms (pos 0)
    then none
    else some (record {
      max_records = max_records;
      max_episode_ms = max_episode_ms;
      pos_grace_ms = pos_grace_ms;
      records = [];
      capacity_degraded = false;
    })

-- `reset` and `recover_after_capacity_alarm`
unfoldable pub reset : ProductCustodyEngine → ProductCustodyEngine
reset e = record e { records = []; capacity_degraded = false }

unfoldable pub find : Key → List (Key × Record) → Option Record
find k [] = none
find k ((j, r) ∷ l) = if key_eq j k then some r else find k l

-- A record that was changed in place keeps its position; a new one comes last.
unfoldable pub store : Key → Record → List (Key × Record) → List (Key × Record)
store k r [] = (k, r) ∷ []
store k r ((j, s) ∷ l) = if key_eq j k then (j, r) ∷ l else (j, s) ∷ store k r l

-- `min(self._records, key=…)`: the first of the least recently updated.
unfoldable pub oldest : Key → ℤ → List (Key × Record) → Key
oldest best at [] = best
oldest best at ((k, r) ∷ l) =
    let better = ltb_ℤ r.last_at_ms at in
    oldest (if better then k else best) (if better then r.last_at_ms else at) l

-- `_records.pop(key)`
unfoldable pub evict : Key → List (Key × Record) → List (Key × Record)
evict k [] = []
evict k ((j, r) ∷ l) = if key_eq j k then l else (j, r) ∷ evict k l

unfoldable pub evict_oldest : List (Key × Record) → List (Key × Record)
unfolding oldest evict
evict_oldest [] = []
evict_oldest ((k, r) ∷ l) = evict (oldest k r.last_at_ms l) ((k, r) ∷ l)

-- Room for a new key: at the bound the oldest record goes, and the engine is degraded.
unfoldable pub make_room : ProductCustodyEngine → ProductCustodyEngine
unfolding evict_oldest
make_room e =
    if leb_ℤ e.max_records (pos (length e.records))
    then record e { records = evict_oldest e.records; capacity_degraded = true }
    else e

unfoldable pub option_eq : Option ℤ → Option ℤ → Bool
option_eq none none = true
option_eq (some a) (some b) = eqb_ℤ a b
option_eq _ _ = false

abbrev pub bool_eq : Bool → Bool → Bool
bool_eq true b = b
bool_eq false b = not b

-- Equality of the `signature` tuples of two observations.
unfoldable pub same_signature : CustodyObservation → CustodyObservation → Bool
same_signature a b =
    str_eq a.visit_id b.visit_id
    && str_eq a.episode_id b.episode_id
    && str_eq a.product_token b.product_token
    && str_eq a.camera_id b.camera_id
    && eqb_ℤ a.at_ms b.at_ms
    && fact_eq a.fact b.fact
    && str_eq a.visibility b.visibility
    && bool_eq a.direct b.direct
    && str_eq a.association b.association
    && bool_eq a.product_linked b.product_linked
    && str_eq a.source_kind b.source_kind
    && option_eq a.coverage_start_ms b.coverage_start_ms
    && option_eq a.coverage_end_ms b.coverage_end_ms
    && str_eq a.source_health b.source_health
    && option_eq a.finalized_watermark_ms b.finalized_watermark_ms
    && str_eq a.evidence_ref b.evidence_ref

unfoldable pub recall : String → List (String × CustodyObservation) → Option CustodyObservation
recall k [] = none
recall k ((j, o) ∷ l) = if str_eq j k then some o else recall k l

-- What `observe` does to the record of the observation, and whether its timeline overflowed:
-- a known event changes nothing unless it conflicts, an event that is not later is refused, and
-- any other is taken in.
unfoldable pub update :
    ℤ → ℤ → CustodyObservation → Option CustodyObservation → Record → Record × Bool
unfolding same_signature
update longest grace o (some known) r =
    (compromise_if (not (same_signature known o)) Reason.conflicting_duplicate r, false)
update longest grace o none r =
    if leb_ℤ o.at_ms r.last_at_ms
    then (compromise_if true Reason.time_backwards r, false)
    else accept longest grace o r

-- The record of an observation after it, and whether its timeline overflowed.
abbrev pub updated : ProductCustodyEngine → CustodyObservation → Record → Record × Bool
updated e o r = update e.max_episode_ms e.pos_grace_ms o (recall o.event_id r.event_ids) r

-- `observe` on a record that is in place.
unfoldable pub observe_record :
    ProductCustodyEngine → CustodyObservation → Record → ProductCustodyEngine × CustodyAssessment
unfolding recall update store
observe_record e o r =
    let degraded = e.capacity_degraded || (updated e o r).1 in
    (
      record e {
        records = store (key_of o) (updated e o r).0 e.records;
        capacity_degraded = degraded;
      },
      assessment degraded e.pos_grace_ms o (updated e o r).0,
    )

abbrev pub admit :
    ProductCustodyEngine
    → CustodyObservation
    → Option Record
    → ProductCustodyEngine × CustodyAssessment
admit e o (some r) = observe_record e o r
admit e o none = observe_record (make_room e) o fresh_record

-- `observe`; `none` is the `ValueError` on an invalid observation, raised before any change.
unfoldable pub observe :
    ProductCustodyEngine → CustodyObservation → Option (ProductCustodyEngine × CustodyAssessment)
unfolding find make_room observe_record
observe e o = if valid o then some (admit e o (find (key_of o) e.records)) else none

-- The loop of `observe_many` with its `result`; the engine comes back beside a `ValueError` too.
unfoldable pub observe_from :
    ProductCustodyEngine
    → Option CustodyAssessment
    → List CustodyObservation
    → ProductCustodyEngine × Option CustodyAssessment
observe_from e result [] = (e, result)
observe_from e result (o ∷ rest) = elim (observe e o) [
  | none ↦ (e, none)
  | some (e', a) ↦ observe_from e' (some a) rest
]

unfoldable pub observe_many :
    ProductCustodyEngine → List CustodyObservation → ProductCustodyEngine × Option CustodyAssessment
unfolding observe_from
observe_many e observations = observe_from e none observations
