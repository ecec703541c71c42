-- ===== src/Media/Leases.antt =====
-- `claim`, `_lease`, `retry`, `acknowledge_manifest`, `acknowledge_content` and `reject`.
pub mod Order
use Prim.Native.Nat.{◌*◌, min}
use aisle_signals.Common.{
  ℕ, ◌+◌, ◌≤◌, Bool, true, false, ◌&&◌, ◌||◌, not, Option, none, some, List, [], ◌∷◌, String, leb,
  ltb, str_eq, ◌==◌, if◌then◌else◌, map,
}
use aisle_signals.Observation.Model.{Instant}
use aisle_signals.Outbox.Model.{
  Result, ok, err, ◌>>=◌, ◌>>◌, require, stamp, max_generation, Scope, BindingRef, Binding, Item,
  Vault, Db, invalid_identifier, invalid_lease, stale_lease, invalid_backoff, invalid_receipt,
  receipt_conflict, is_withdrawal, is_some, is_active, is_connected, holds, holds_number,
  later_than, ItemState,
}
use aisle_signals.Outbox.Rows.{first, update_where, or_fail, is_binding}
use aisle_signals.Outbox.Leases.{before, is_held, reserve, settle_capacity, same_ref}
use aisle_signals.Media.Model.{
  MediaState, MediaOperation, MediaItem, MediaDb, MediaClaim, manifest, content, pending_manifest,
  pending_content, blocked, is_leased, is_pending, leased_for, pending_for, leased_as, operation_of,
  is_manifest,
}
use aisle_signals.Media.Queue.{sync_parent, parent_of, unleased_media}

-- `ORDER BY m.created_ms, m.id LIMIT 1`
unfoldable pub earliest : (MediaItem → Bool) → List MediaItem → Option MediaItem → Option MediaItem
earliest p [] best = best
earliest p (m ∷ ms) best = earliest p ms (
    if p m
    then elim best [
      | none ↦ some m
      | some b ↦
          if ltb m.created_ms b.created_ms || (m.created_ms == b.created_ms && before m.id b.id)
          then some m
          else some b
    ]
    else best)

abbrev pub is_delivered : Option Item → Bool
is_delivered none = false
is_delivered (some p) =
    not (is_withdrawal p.operation) && elim p.state [ ItemState.received ↦ true | _ ↦ false ]

-- The rows that `claim` may give out: their observation was received and they are in time.
abbrev pub is_due : BindingRef → ℕ → List Item → MediaItem → Bool
is_due ref now items m =
    str_eq m.binding_id ref.id
    && is_pending m.state
    && leb m.next_ms now
    && ltb now m.deadline_ms
    && is_delivered (parent_of items m)

abbrev pub requeued : MediaState → MediaState
requeued MediaState.leased_manifest = pending_manifest
requeued _ = pending_content

abbrev pub is_lapsed : BindingRef → ℕ → MediaItem → Bool
is_lapsed ref now m =
    str_eq m.binding_id ref.id
    && is_leased m.state
    && is_some m.lease_until_ms
    && not (later_than m.lease_until_ms now)

-- The lapsed leases are given back.
unfoldable pub requeue_lapsed : BindingRef → ℕ → List MediaItem → List MediaItem
unfolding update_where
requeue_lapsed ref now media =
    update_where (is_lapsed ref now)
      (λ m. unleased_media (requeued m.state) m.terminal_ms m.error_code m) media

abbrev pub set_media : String → (MediaItem → MediaItem) → List MediaItem → List MediaItem
set_media id f media = update_where (λ m. str_eq m.id id) f media

-- The lease of the row that `claim` has selected.
unfoldable pub take_lease :
    Scope → BindingRef → String → ℕ → ℕ → MediaItem → MediaDb → Option MediaClaim × MediaDb
unfolding reserve update_where
take_lease scope ref token seconds now m db =
    let until = min (now + seconds * 1000) m.deadline_ms in
    (
      some (record {
        id = m.id;
        binding = ref;
        token = token;
        operation = operation_of m.state;
        source_event_id = m.source_event_id;
        entity_kind = m.entity_kind;
        entity_id = m.entity_id;
        frame_index = m.frame_index;
        sha256 = m.frame_sha256;
        byte_count = m.frame_bytes;
        evidence_id = m.evidence_id;
        lease_until = until;
      }),
      record db {
        media =
            set_media m.id
              (λ n. record n {
                state = leased_for (operation_of m.state);
                lease_token = some token;
                lease_until_ms = some until;
                claim_generation = some ref.generation;
                ever_attempted = true;
                attempts = min (n.attempts + 1) max_generation;
              })
              db.media;
        outbox = record db.outbox {
          capacity =
              reserve
                (record {
                  installation_id = scope.installation_id;
                  token = token;
                  until_ms = until;
                })
                db.outbox.capacity;
        };
      },
    )

-- What `claim` gives out once the rows have followed their parents and lapsed leases are back.
unfoldable pub claim_due :
    Scope → BindingRef → Binding → String → ℕ → ℕ → MediaDb → Option MediaClaim × MediaDb
unfolding earliest take_lease first
claim_due scope ref b token seconds now db =
    if is_some (first (is_held scope now) db.outbox.capacity)
    then (none, db)
    else elim (earliest (is_due ref now db.outbox.items) db.media none) [
      | none ↦ (none, db)
      | some m ↦
          if is_active b.state then take_lease scope ref token seconds now m db else (none, db)
    ]

abbrev pub usable : BindingRef → Option Binding → Option Binding
usable ref none = none
usable ref (some b) =
    if b.generation == ref.generation && is_connected b.state then some b else none

-- `claim`, with the token that it draws
unfoldable pub claim :
    Scope → BindingRef → String → ℕ → Instant → MediaDb → Result (Option MediaClaim × MediaDb)
unfolding claim_due sync_parent requeue_lapsed
claim scope ref token seconds now db = do
  at ← stamp now
  require (leb 1 seconds && leb seconds 60) invalid_lease
  elim (usable ref (first (is_binding scope ref) db.outbox.bindings)) [
    | none ↦ ok (none, db)
    | some b ↦ ok (
        claim_due scope ref b token seconds at (record db {
          media = requeue_lapsed ref at (sync_parent ref.id at db.outbox.items db.media);
        }))
  ]

-- `_lease`
unfoldable pub find_lease : BindingRef → MediaClaim → ℕ → MediaDb → Result MediaItem
unfolding first
find_lease ref c now db = do
  require (same_ref c.binding ref) stale_lease
  m ←
      or_fail (first (λ (m : MediaItem). str_eq m.id c.id && str_eq m.binding_id ref.id) db.media)
        stale_lease
  require
      (leased_as c.operation m.state
        && holds m.lease_token c.token
        && holds_number m.claim_generation ref.generation
        && later_than m.lease_until_ms now)
      stale_lease
  ok m

-- A write to the row of a claim, which gives its reservation back.
unfoldable pub settle : Scope → MediaClaim → (MediaItem → MediaItem) → MediaDb → MediaDb
unfolding update_where settle_capacity
settle scope c f db = record db {
  media = set_media c.id f db.media;
  outbox = record db.outbox { capacity = settle_capacity scope c.token db.outbox.capacity };
}

-- `retry`
unfoldable pub retry : Scope → BindingRef → MediaClaim → ℕ → Instant → MediaDb → Result MediaDb
unfolding find_lease settle
retry scope ref c delay_seconds now db = do
  at ← stamp now
  find_lease ref c at db >>= λ _.
      require (leb 1 delay_seconds && leb delay_seconds 3600) invalid_backoff
      >> ok (
          settle scope c
            (λ m. record (unleased_media (pending_for c.operation) m.terminal_ms (some "RETRY") m) {
              next_ms = at + delay_seconds * 1000;
            })
            db)

-- The states that the cloud reports; `other` is any other text.
pub data RemoteState : Type 0 where
  pending ready other : RemoteState

-- The receipt asks for the upload of a pending frame, or for none of a ready one.
abbrev pub is_receipt : Bool → RemoteState → Bool
is_receipt true RemoteState.pending = true
is_receipt false RemoteState.ready = true
is_receipt _ _ = false

abbrev pub is_known : RemoteState → Bool
is_known RemoteState.other = false
is_known _ = true

abbrev pub fits_evidence : Option String → String → Bool
fits_evidence none id = true
fits_evidence (some e) id = str_eq e id

-- `acknowledge_manifest`
unfoldable pub acknowledge_manifest :
    Vault
    → Scope
    → BindingRef
    → MediaClaim
    → String
    → Bool
    → RemoteState
    → Instant
    → MediaDb
    → Result MediaDb
unfolding find_lease settle
acknowledge_manifest vault scope ref c evidence_id upload_required state now db = do
  at ← stamp now
  m ← find_lease ref c at db
  require (vault.formats.is_uuid evidence_id) invalid_identifier
  require (is_manifest c.operation && is_known state) invalid_receipt
  require (fits_evidence m.evidence_id evidence_id) receipt_conflict
  require (is_receipt upload_required state) invalid_receipt
  ok (
      settle scope c
        (λ m.
          record (unleased_media (if upload_required then pending_content else MediaState.ready)
            (if upload_required then none else some at) none m) {
              evidence_id = some evidence_id;
              next_ms = at;
              settled_token = some c.token;
            })
        db)

abbrev pub is_ready : RemoteState → Bool
is_ready RemoteState.ready = true
is_ready _ = false

-- `acknowledge_content`
unfoldable pub acknowledge_content :
    Scope → BindingRef → MediaClaim → String → RemoteState → Instant → MediaDb → Result MediaDb
unfolding find_lease settle
acknowledge_content scope ref c evidence_id state now db = do
  at ← stamp now
  m ← find_lease ref c at db
  require (not (is_manifest c.operation) && is_ready state && holds m.evidence_id evidence_id)
      invalid_receipt
  ok (
      settle scope c
        (λ m. record (unleased_media MediaState.ready (some at) none m) {
          settled_token = some c.token;
        })
        db)

-- `reject`
unfoldable pub reject :
    Scope → BindingRef → MediaClaim → String → Instant → MediaDb → Result MediaDb
unfolding find_lease settle
reject scope ref c code now db = do
  at ← stamp now
  find_lease ref c at db >>= λ _.
      ok (settle scope c (λ m. unleased_media blocked (some at) (some code) m) db)
