-- ===== src/Outbox/Leases.antt =====
-- `claim`, `_lease`, `retry`, `acknowledge` and `reject`.
pub mod Claims
pub mod Exclusive
pub mod Receipts
use Prim.Native.Nat.{◌*◌, min}
use Prim.Native.String.{compare}
use Prim.Native.Nat.{Ordering}
use aisle_signals.Common.{
  ℕ, ◌+◌, Bool, true, false, ◌&&◌, ◌||◌, not, Option, none, some, List, [], ◌∷◌, String, leb, ltb,
  str_eq, ◌==◌, if◌then◌else◌,
}
use aisle_signals.Observation.Model.{Instant}
use aisle_signals.Outbox.Model.{
  invalid_identifier, invalid_lease, stale_lease, invalid_backoff, receipt_conflict,
  invalid_error_code, Result, ok, ◌>>=◌, ◌>>◌, require, max_generation, stamp, Scope, BindingRef,
  Operation, observation, withdrawal, ItemState, pending, leased, received, withdrawn, blocked,
  Binding, Item, Capacity, Db, Vault, Claim, is_connected, is_active, is_pending, is_leased,
  is_settled, is_withdrawal, operation_eq, holds, holds_number, later_than, is_some,
}
use aisle_signals.Outbox.Rows.{
  first, update_where, delete_where, find_binding, find_item, set_item, decode, withdraw_item,
  expire_items, unleased,
}

abbrev pub before : String → String → Bool
before a b = elim (compare a b) [ Ordering.lt ↦ true | _ ↦ false ]

-- `ORDER BY operation='WITHDRAWAL' DESC, created_ms, id`
unfoldable pub comes_before : Item → Item → Bool
comes_before a b =
    if operation_eq a.operation b.operation
    then ltb a.created_ms b.created_ms || (a.created_ms == b.created_ms && before a.id b.id)
    else is_withdrawal a.operation

-- `LIMIT 1`: the first of the selected rows in that order.
unfoldable pub foremost : (Item → Bool) → Option Item → List Item → Option Item
foremost p best [] = best
foremost p best (i ∷ is) =
    foremost p
      (if p i
        then elim best [ none ↦ some i | some b ↦ if comes_before i b then some i else some b ]
        else best)
      is

-- A lease of the binding whose time has passed.
abbrev pub is_lapsed : BindingRef → ℕ → Item → Bool
is_lapsed ref now i =
    str_eq i.binding_id ref.id
    && is_leased i.state
    && not (later_than i.lease_until_ms now)
    && is_some i.lease_until_ms

abbrev pub is_due : BindingRef → ℕ → Bool → Item → Bool
is_due ref now sending i =
    str_eq i.binding_id ref.id
    && is_pending i.state
    && leb i.next_ms now
    && (is_withdrawal i.operation || sending)

-- A reservation of the installation that is still running.
abbrev pub is_held : Scope → ℕ → Capacity → Bool
is_held scope now c = str_eq c.installation_id scope.installation_id && ltb now c.until_ms

abbrev pub lease_end : ℕ → ℕ → Item → ℕ
lease_end now seconds i =
    let until = now + seconds * 1000 in
    if is_withdrawal i.operation then until else min until i.timing.deadline_ms

abbrev pub leased_item : BindingRef → String → ℕ → Item → Item
leased_item ref token until i = record i {
  state = leased;
  lease_token = some token;
  lease_until_ms = some until;
  claim_generation = some ref.generation;
  ever_attempted = true;
  attempts = min (i.attempts + 1) max_generation;
}

-- The upsert of the reservation of an installation.
unfoldable pub reserve : Capacity → List Capacity → List Capacity
reserve c [] = c ∷ []
reserve c (d ∷ ds) = if str_eq d.installation_id c.installation_id then c ∷ ds else d ∷ reserve c ds

unfoldable pub settle_capacity : Scope → String → List Capacity → List Capacity
unfolding delete_where
settle_capacity scope token capacity =
    delete_where
      (λ (c : Capacity). str_eq c.installation_id scope.installation_id && str_eq c.token token)
      capacity

-- The lease of the row that `claim` has selected.
unfoldable pub take_lease :
    Vault → Scope → BindingRef → String → ℕ → ℕ → Item → Db → Result (Option Claim × Db)
unfolding reserve
take_lease vault scope ref token seconds now i db = do
  content ← decode vault scope ref i
  let until = lease_end now seconds i
  ok (
    some (record {
      id = i.id;
      binding = ref;
      token = token;
      operation = i.operation;
      source_event_id = i.source_event_id;
      payload = content;
      lease_until = until;
      timing = i.timing;
    }),
    record db {
      items = set_item i.id (leased_item ref token until) db.items;
      capacity =
          reserve
            (record { installation_id = scope.installation_id; token = token; until_ms = until })
            db.capacity;
    },
  )

-- What `claim` does with the tables once the items past their deadline and the lapsed leases are
-- dealt with.
unfoldable pub claim_due :
    Vault → Scope → BindingRef → Binding → String → ℕ → ℕ → Db → Result (Option Claim × Db)
unfolding foremost
claim_due vault scope ref b token seconds now db =
    if is_some (first (is_held scope now) db.capacity)
    then ok (none, db)
    else elim (foremost (is_due ref now (is_active b.state)) none db.items) [
      | none ↦ ok (none, db)
      | some i ↦ take_lease vault scope ref token seconds now i db
    ]

-- `claim`, with the token that it draws
unfoldable pub claim :
    Vault
    → (String → String)
    → Scope
    → BindingRef
    → String
    → ℕ
    → Instant
    → Db
    → Result (Option Claim × Db)
claim vault nonce scope ref token seconds now db = do
  at ← stamp now
  found ← find_binding vault scope ref at db
  require (leb 1 seconds && leb seconds 60) invalid_lease
  if not (is_connected found.0.state) then ok (none, found.1) else do
    items ← expire_items vault nonce scope ref at found.1.items
    claim_due vault scope ref found.0 token seconds at
        (record found.1 { items = update_where (is_lapsed ref at) unleased items })

abbrev pub same_ref : BindingRef → BindingRef → Bool
same_ref a b = str_eq a.id b.id && a.generation == b.generation

-- The claim still holds the lease of the row.
abbrev pub holds_lease : BindingRef → Claim → ℕ → Item → Bool
holds_lease ref c now i =
    is_leased i.state
    && holds i.lease_token c.token
    && holds_number i.claim_generation ref.generation
    && later_than i.lease_until_ms now
    && operation_eq i.operation c.operation

-- `_lease`
unfoldable pub find_lease : Vault → Scope → BindingRef → Claim → ℕ → Db → Result (Item × Db)
find_lease vault scope ref c now db = do
  found ← find_binding vault scope ref now db
  require (same_ref c.binding ref && is_connected found.0.state) stale_lease
  i ← find_item vault ref c.id found.1
  require (holds_lease ref c now i) stale_lease
  ok (i, found.1)

abbrev pub retried_item : ℕ → Item → Item
retried_item next i = record i {
  state = pending;
  next_ms = next;
  lease_token = none;
  lease_until_ms = none;
  claim_generation = none;
  error_code = some "RETRY";
}

-- `retry`
unfoldable pub retry : Vault → Scope → BindingRef → Claim → ℕ → Instant → Db → Result Db
retry vault scope ref c delay_seconds now db = do
  at ← stamp now
  found ← find_lease vault scope ref c at db
  require (leb 1 delay_seconds && leb delay_seconds 3600) invalid_backoff
  ok (record found.1 {
    items = set_item c.id (retried_item (at + delay_seconds * 1000)) found.1.items;
    capacity = settle_capacity scope c.token found.1.capacity;
  })

abbrev pub settled_state : Operation → ItemState
settled_state observation = received
settled_state withdrawal = withdrawn

abbrev pub acknowledged_item : Claim → String → ℕ → Item → Item
acknowledged_item c receipt now i = record i {
  state = settled_state i.operation;
  payload = none;
  receipt_id = some receipt;
  observation_receipt_id =
      if is_withdrawal i.operation then i.observation_receipt_id else some receipt;
  receipt_ms = some now;
  settled_token = some c.token;
  terminal_ms = some now;
  lease_token = none;
  lease_until_ms = none;
  claim_generation = none;
  error_code = none;
}

-- `acknowledge` of a row that no delivery of the claim has settled
unfoldable pub settle : Vault → Scope → BindingRef → Claim → String → ℕ → Db → Result Db
settle vault scope ref c receipt now db = do
  lease ← find_lease vault scope ref c now db
  ok (record lease.1 {
    items = set_item c.id (acknowledged_item c receipt now) lease.1.items;
    capacity = settle_capacity scope c.token lease.1.capacity;
  })

-- `acknowledge`
unfoldable pub acknowledge : Vault → Scope → BindingRef → Claim → String → Instant → Db → Result Db
acknowledge vault scope ref c receipt now db = do
  at ← stamp now
  require (vault.formats.is_uuid receipt) invalid_identifier
  found ← find_binding vault scope ref at db
  require (same_ref c.binding ref) stale_lease
  i ← find_item vault ref c.id found.1
  if is_settled i.state && holds i.settled_token c.token
      then require (holds i.receipt_id receipt) receipt_conflict >> ok found.1
      else settle vault scope ref c receipt at found.1

abbrev pub is_terminal_code : String → Bool
is_terminal_code code =
    str_eq code "REMOTE_REJECTED" || str_eq code "REMOTE_CONFLICT" || str_eq code "LOCAL_CORRUPTION"

-- `reject`
unfoldable pub reject :
    Vault → (String → String) → Scope → BindingRef → Claim → String → Instant → Db → Result Db
reject vault nonce scope ref c code now db = do
  at ← stamp now
  lease ← find_lease vault scope ref c at db
  require (is_terminal_code code) invalid_error_code
  row ←
      if is_withdrawal lease.0.operation
      then ok (record lease.0 {
        state = blocked;
        payload = none;
        error_code = some code;
        terminal_ms = some at;
        lease_token = none;
        lease_until_ms = none;
        claim_generation = none;
      })
      else (do
        i ← withdraw_item vault nonce scope ref "LOCAL_EXPORT_REMOVED" at lease.0
        ok (record i { error_code = some code }))
  ok (record lease.1 {
    items = set_item c.id (λ _. row) lease.1.items;
    capacity = settle_capacity scope c.token lease.1.capacity;
  })
