-- ===== src/Media/Model.antt =====
-- The table of services/api/cloud_media_outbox.py, beside the tables of the outbox.
use aisle_signals.Common.{
  ℕ, zero, suc, ◌-◌, Bool, true, false, ◌&&◌, Option, none, some, List, [], ◌∷◌, String, ltb, ◌==◌,
  if◌then◌else◌, length,
}
use aisle_signals.Common.Int.{ℤ, pos, negsuc}
use aisle_signals.Observation.Model.{codes, all_codes, count_codes, hex_code}
use aisle_signals.Outbox.Model.{BindingRef, Db}

pub data MediaState : Type 0 where
  pending_manifest leased_manifest pending_content leased_content ready : MediaState
  cancelled expired withdrawn blocked : MediaState

pub data MediaOperation : Type 0 where
  manifest content : MediaOperation

-- A row of `cloud_media_items`; its kind and content type are constant.
pub record MediaItem : Type 0 where
  pub id : String
  pub observation_item_id : String
  pub binding_id : String
  pub source_event_id : String
  pub entity_kind : String
  pub entity_id : String
  pub frame_index : ℤ
  pub frame_sha256 : String
  pub frame_bytes : ℤ
  pub deadline_ms : ℕ
  pub created_ms : ℕ
  pub state : MediaState
  pub attempts : ℕ
  pub ever_attempted : Bool
  pub next_ms : ℕ
  pub lease_token : Option String
  pub lease_until_ms : Option ℕ
  pub claim_generation : Option ℕ
  pub evidence_id : Option String
  pub settled_token : Option String
  pub terminal_ms : Option ℕ
  pub error_code : Option String

pub record MediaDb : Type 0 where
  pub outbox : Db
  pub media : List MediaItem

-- `MediaClaim`
pub record MediaClaim : Type 0 where
  pub id : String
  pub binding : BindingRef
  pub token : String
  pub operation : MediaOperation
  pub source_event_id : String
  pub entity_kind : String
  pub entity_id : String
  pub frame_index : ℤ
  pub sha256 : String
  pub byte_count : ℤ
  pub evidence_id : Option String
  pub lease_until : ℕ

-- What `enqueue_overview` reads of an interaction; `none` is a key that is missing.
pub record Frame : Type 0 where
  pub sha256 : Option String
  pub bytes : Option ℤ

pub record Evidence : Type 0 where
  pub evidence_frame_indices : Option (List ℤ)
  pub frames : Option (List Frame)

abbrev pub is_leased : MediaState → Bool
is_leased leased_manifest = true
is_leased leased_content = true
is_leased _ = false

abbrev pub is_pending : MediaState → Bool
is_pending pending_manifest = true
is_pending pending_content = true
is_pending _ = false

abbrev pub is_withdrawn : MediaState → Bool
is_withdrawn withdrawn = true
is_withdrawn _ = false

-- `READY`, `WITHDRAWN` or `BLOCKED`
abbrev pub is_kept : MediaState → Bool
is_kept ready = true
is_kept withdrawn = true
is_kept blocked = true
is_kept _ = false

-- `CANCELLED`, `EXPIRED` or `WITHDRAWN`
abbrev pub is_closed : MediaState → Bool
is_closed cancelled = true
is_closed expired = true
is_closed withdrawn = true
is_closed _ = false

abbrev pub leased_for : MediaOperation → MediaState
leased_for manifest = leased_manifest
leased_for content = leased_content

abbrev pub pending_for : MediaOperation → MediaState
pending_for manifest = pending_manifest
pending_for content = pending_content

-- `state == expected` for the leased state of an operation
abbrev pub leased_as : MediaOperation → MediaState → Bool
leased_as manifest leased_manifest = true
leased_as content leased_content = true
leased_as _ _ = false

abbrev pub operation_of : MediaState → MediaOperation
operation_of pending_manifest = manifest
operation_of _ = content

abbrev pub is_manifest : MediaOperation → Bool
is_manifest manifest = true
is_manifest content = false

abbrev pub last {ℓ} : {A : Type ℓ} → List A → Option A
last [] = none
last (x ∷ []) = some x
last (x ∷ y ∷ xs) = last (y ∷ xs)

abbrev pub get_elem? {ℓ} : {A : Type ℓ} → List A → ℕ → Option A
get_elem? [] n = none
get_elem? (x ∷ xs) zero = some x
get_elem? (x ∷ xs) (suc n) = get_elem? xs n

-- `frames[index]`: a negative index counts from the end.
abbrev pub at_index {ℓ} : {A : Type ℓ} → List A → ℤ → Option A
at_index xs (pos n) = get_elem? xs n
at_index xs (negsuc n) = if ltb n (length xs) then get_elem? xs (length xs - suc n) else none

-- `[0-9a-f]{64}`
abbrev pub is_digest : String → Bool
is_digest s = all_codes hex_code (codes s) && count_codes (codes s) == 64
