-- ===== src/Media/Queue.antt =====
-- `enqueue_overview`, `_sync_parent`, `reconcile` and `mark_restored`.
use Prim.Native.Nat.{◌*◌}
use aisle_signals.Common.{
  ℕ, ◌+◌, Bool, true, false, ◌&&◌, ◌||◌, not, Option, none, some, List, [], ◌∷◌, ◌++◌, String, leb,
  ltb, str_eq, if◌then◌else◌, map,
}
use aisle_signals.Common.Int.{ℤ, pos, leb_ℤ, eqb_ℤ}
use aisle_signals.Observation.Model.{Instant}
use aisle_signals.Outbox.Model.{
  Result, ok, ◌>>=◌, ◌>>◌, require, stamp, day_ms, BindingRef, Item, Vault, invalid_identifier,
  observation_not_found, media_reference_invalid, media_conflict, integrity_error, is_withdrawal,
  is_dropped, is_some, holds, ItemState,
}
use aisle_signals.Outbox.Rows.{first, delete_where, or_fail}
use aisle_signals.Outbox.Bindings.{count_where}
use aisle_signals.Outbox.Upkeep.{or_time}
use aisle_signals.Media.Model.{
  MediaState, MediaItem, MediaDb, Evidence, pending_manifest, pending_content, leased_manifest,
  leased_content, cancelled, expired, withdrawn, blocked, is_withdrawn, is_kept, is_closed, last,
  at_index, is_digest,
}

-- The chosen frame: the last index, its digest and its size.
abbrev pub Chosen : Type 0
Chosen = ℤ × String × ℤ

unfoldable pub chosen_frame : Evidence → Result Chosen
chosen_frame e = do
  indices ← or_fail e.evidence_frame_indices media_reference_invalid
  frames ← or_fail e.frames media_reference_invalid
  index ← or_fail (last indices) media_reference_invalid
  frame ← or_fail (at_index frames index) media_reference_invalid
  sha256 ← or_fail frame.sha256 media_reference_invalid
  size ← or_fail frame.bytes media_reference_invalid
  require (is_digest sha256 && leb_ℤ (pos 1) size && leb_ℤ size (pos (350 * 1024)))
      media_reference_invalid
  ok (index, sha256, size)

abbrev pub new_media : BindingRef → String → Item → Chosen → ℕ → MediaItem
new_media ref id parent c now = record {
  id = id;
  observation_item_id = parent.id;
  binding_id = ref.id;
  source_event_id = parent.source_event_id;
  entity_kind = parent.entity_kind;
  entity_id = parent.entity_id;
  frame_index = c.0;
  frame_sha256 = c.1;
  frame_bytes = c.2;
  deadline_ms = parent.timing.deadline_ms;
  created_ms = now;
  state = pending_manifest;
  attempts = 0;
  ever_attempted = false;
  next_ms = now;
  lease_token = none;
  lease_until_ms = none;
  claim_generation = none;
  evidence_id = none;
  settled_token = none;
  terminal_ms = none;
  error_code = none;
}

abbrev pub same_frame : MediaItem → Chosen → Bool
same_frame m c = eqb_ℤ m.frame_index c.0 && str_eq m.frame_sha256 c.1 && eqb_ℤ m.frame_bytes c.2

-- The unique keys of the table, but for the observation.
abbrev pub clashes : BindingRef → String → Item → MediaItem → Bool
clashes ref id parent m =
    str_eq m.id id
    || (str_eq m.binding_id ref.id && str_eq m.source_event_id parent.source_event_id)

unfoldable pub insert_media :
    BindingRef → String → Item → Chosen → ℕ → MediaDb → Result (String × MediaDb)
insert_media ref id parent c now db = do
  require (not (is_some (first (clashes ref id parent) db.media))) integrity_error
  ok (id, record db { media = db.media ++ new_media ref id parent c now ∷ [] })

unfoldable pub known_media : Chosen → MediaDb → MediaItem → Result (String × MediaDb)
known_media c db m = do require (same_frame m c) media_conflict; ok (m.id, db)

-- `enqueue_overview`, with the identifier that it draws
unfoldable pub enqueue_overview :
    Vault → BindingRef → String → String → Evidence → Instant → MediaDb → Result (String × MediaDb)
unfolding chosen_frame insert_media known_media
enqueue_overview vault ref id observation_item_id evidence now db = do
  at ← stamp now
  require (vault.formats.is_uuid observation_item_id) invalid_identifier
  parent ←
      or_fail
        (first
          (λ (i : Item).
            str_eq i.id observation_item_id
            && str_eq i.binding_id ref.id
            && not (is_withdrawal i.operation))
          db.outbox.items)
        observation_not_found
  c ← chosen_frame evidence
  elim (first (λ (m : MediaItem). str_eq m.observation_item_id observation_item_id) db.media) [
    | some m ↦ known_media c db m
    | none ↦ insert_media ref id parent c at db
  ]

abbrev pub parent_of : List Item → MediaItem → Option Item
parent_of items m = first (λ (i : Item). str_eq i.id m.observation_item_id) items

abbrev pub unleased_media : MediaState → Option ℕ → Option String → MediaItem → MediaItem
unleased_media state terminal error m = record m {
  state = state;
  terminal_ms = terminal;
  error_code = error;
  lease_token = none;
  lease_until_ms = none;
  claim_generation = none;
}

abbrev pub parent_withdrawn : ItemState → Bool
parent_withdrawn ItemState.withdrawn = true
parent_withdrawn _ = false

-- `p.operation='WITHDRAWAL' OR p.state IN ('CANCELLED','EXPIRED','BLOCKED')`
abbrev pub parent_stopped : Item → Bool
parent_stopped p =
    is_withdrawal p.operation
    || is_dropped p.state
    || elim p.state [ ItemState.blocked ↦ true | _ ↦ false ]

-- The two updates of `_sync_parent` on a row with its parent.
unfoldable pub follow_parent : ℕ → Item → MediaItem → MediaItem
follow_parent now p m =
    if not (is_withdrawn m.state) && parent_withdrawn p.state
    then unleased_media withdrawn (or_time m.terminal_ms now) (some "PARENT_WITHDRAWN") m
    else if not (is_kept m.state) && parent_stopped p
    then unleased_media (if holds p.withdrawal_reason "LOCAL_EXPIRED" then expired else cancelled)
        (or_time m.terminal_ms now) (some "PARENT_WITHDRAWN") m
    else m

abbrev pub follow : ℕ → Option Item → MediaItem → MediaItem
follow now none m = m
follow now (some p) m = follow_parent now p m

-- `_sync_parent`
unfoldable pub sync_parent : String → ℕ → List Item → List MediaItem → List MediaItem
unfolding follow_parent first
sync_parent binding_id now items media =
    map (λ m. if str_eq m.binding_id binding_id then follow now (parent_of items m) m else m) media

abbrev pub is_settled : BindingRef → ℕ → MediaItem → Bool
is_settled ref now m =
    str_eq m.binding_id ref.id
    && elim m.terminal_ms [ none ↦ false | some t ↦ leb (t + 30 * day_ms) now ]
    && is_closed m.state

-- `reconcile`, with the number of rows that it deletes
unfoldable pub reconcile : BindingRef → Instant → MediaDb → Result (ℕ × MediaDb)
unfolding sync_parent delete_where
reconcile ref now db = do
  at ← stamp now
  let media = sync_parent ref.id at db.outbox.items db.media
  ok (
    count_where (is_settled ref at) media,
    record db { media = delete_where (is_settled ref at) media },
  )

abbrev pub is_uncertain : MediaItem → Bool
is_uncertain m =
    not (is_withdrawn m.state)
    && (m.ever_attempted || ltb 0 m.attempts || is_some m.evidence_id || elim m.state [
      | leased_manifest ↦ true
      | leased_content ↦ true
      | pending_content ↦ true
      | _ ↦ false
    ])

abbrev pub fenced_media : ℕ → MediaItem → MediaItem
fenced_media now m =
    if is_uncertain m
    then record (unleased_media blocked none (some "RESTORED_REQUIRES_MANAGEMENT") m) {
      settled_token = none;
    }
    else if not (is_kept m.state)
    then record (unleased_media cancelled (some now) (some "RESTORED") m) { settled_token = none }
    else m

-- `mark_restored`, with the number of blocked rows, where the table is there
unfoldable pub mark_restored : Instant → MediaDb → Result (ℕ × MediaDb)
mark_restored now db = do
  at ← stamp now
  let media = map (fenced_media at) db.media
  ok (
    count_where (λ (m : MediaItem). holds m.error_code "RESTORED_REQUIRES_MANAGEMENT") media,
    record db { media = media },
  )
