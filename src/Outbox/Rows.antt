-- ===== src/Outbox/Rows.antt =====
-- Reads and writes of rows: the lookups of `_binding` and `_item`, `_encrypt`, `_decode`,
-- `_withdraw`, `_release` and `_expire`.
pub mod Overdue
use aisle_signals.Common.{
  ℕ, Bool, ◌&&◌, ◌||◌, not, Option, none, some, List, [], ◌∷◌, String, leb, str_eq, ◌==◌,
  if◌then◌else◌, length,
}
unfoldable pub use aisle_signals.Common.Tables.{first, update_where, delete_where}
use aisle_signals.Observation.Model.{Formats}
use aisle_signals.Observation.Map.{valid_payload}
use aisle_signals.Outbox.Model.{
  Code, not_found, stale_generation, key_unavailable, clock_rollback, payload_limit,
  withdrawal_reserve_invalid, ciphertext_invalid, invalid_identifier, Result, ok, err, ◌>>=◌, ◌>>◌,
  require, withdrawal_reserve, Scope, BindingRef, Operation, withdrawal, pending, expired,
  cancelled, Content, observed, withdrawing, Binding, Item, Db, Aad, Vault, is_leased, is_dropped,
  is_withdrawal, scope_eq,
}

abbrev pub is_binding : Scope → BindingRef → Binding → Bool
is_binding scope ref b = str_eq b.id ref.id && scope_eq b.scope scope

abbrev pub is_item : BindingRef → String → Item → Bool
is_item ref id i = str_eq i.id id && str_eq i.binding_id ref.id

-- The checks of `_binding` on the row that it found.
unfoldable pub check_binding : Vault → BindingRef → ℕ → Binding → Result (Unit {0})
check_binding vault ref now b = do
  require (b.generation == ref.generation) stale_generation
  require (str_eq b.key_hash vault.key_hash) key_unavailable
  require (leb b.clock_ms now) clock_rollback

abbrev pub or_fail {ℓ} : {A : Type ℓ} → Option A → Code → Result A
or_fail none c = err c
or_fail (some a) c = ok a

abbrev pub set_clock : BindingRef → ℕ → Db → Db
set_clock ref now db = record db {
  bindings = update_where (λ b. str_eq b.id ref.id) (λ b. record b { clock_ms = now }) db.bindings;
}

-- `_binding`: the row as it was read, and the tables with the clock of the binding moved.
unfoldable pub find_binding : Vault → Scope → BindingRef → ℕ → Db → Result (Binding × Db)
unfolding first update_where
find_binding vault scope ref now db = do
  b ← or_fail (first (is_binding scope ref) db.bindings) not_found
  check_binding vault ref now b
  ok (b, set_clock ref now db)

-- `_item`
unfoldable pub find_item : Vault → BindingRef → String → Db → Result Item
unfolding first
find_item vault ref id db = do
  require (vault.formats.is_uuid id) invalid_identifier
  or_fail (first (is_item ref id) db.items) not_found

-- A write to the row of an item.
abbrev pub set_item : String → (Item → Item) → List Item → List Item
set_item id f items = update_where (λ i. str_eq i.id id) f items

abbrev pub aad_of : Scope → BindingRef → Item → Operation → Aad
aad_of scope ref i operation = record {
  scope = scope;
  binding_id = ref.id;
  item_id = i.id;
  operation = operation;
  timing = i.timing;
}

-- `_encrypt`, with its nonce
unfoldable pub encrypt : Vault → String → Aad → Content → Result (List ℕ)
encrypt vault nonce aad content = do
  require (leb (vault.raw_size content) 2048) payload_limit
  ok (vault.seal nonce aad content)

abbrev pub is_reason : String → Bool
is_reason reason =
    str_eq reason "LOCAL_DELETED"
    || str_eq reason "LOCAL_EXPIRED"
    || str_eq reason "LOCAL_EXPORT_REMOVED"

-- The content is what its operation and its row say.
unfoldable pub fits_row : Formats → Item → Content → Bool
fits_row formats i (observed p) =
    not (is_withdrawal i.operation)
    && valid_payload formats p
    && str_eq p.source_event_id i.source_event_id
fits_row formats i (withdrawing event reason) =
    is_withdrawal i.operation && is_reason reason && str_eq event i.source_event_id

unfoldable pub decode_bytes : Vault → Aad → Item → Option (List ℕ) → Option Content
decode_bytes vault aad i none = none
decode_bytes vault aad i (some bytes) = elim (vault.unseal aad bytes) [
  | none ↦ none
  | some content ↦
      if str_eq (vault.digest content) i.payload_hash && fits_row vault.formats i content
      then some content
      else none
]

-- `_decode`
unfoldable pub decode : Vault → Scope → BindingRef → Item → Result Content
unfolding decode_bytes
decode vault scope ref i =
    or_fail (decode_bytes vault (aad_of scope ref i i.operation) i i.payload) ciphertext_invalid

-- The row of an item that was never attempted, dropped.
abbrev pub dropped_item : String → ℕ → Item → Item
dropped_item reason now i = record i {
  state = if str_eq reason "LOCAL_EXPIRED" then expired else cancelled;
  payload = none;
  lease_token = none;
  lease_until_ms = none;
  claim_generation = none;
  terminal_ms = some now;
}

-- The row of an attempted item, turned into the obligation to withdraw it.
abbrev pub obliged_item : Vault → String → ℕ → List ℕ → Item → Item
obliged_item vault reason now bytes i = record i {
  operation = withdrawal;
  state = pending;
  payload = some bytes;
  payload_hash = vault.digest (withdrawing i.source_event_id reason);
  next_ms = now;
  withdrawal_reason = some reason;
  lease_token = none;
  lease_until_ms = none;
  claim_generation = none;
  settled_token = none;
  terminal_ms = none;
}

-- `_withdraw` on a row; the nonce of an encryption is given for each item.
unfoldable pub withdraw_item :
    Vault → (String → String) → Scope → BindingRef → String → ℕ → Item → Result Item
unfolding encrypt
withdraw_item vault nonce scope ref reason now i =
    if is_withdrawal i.operation
    then ok i
    else if not i.ever_attempted
    then ok (dropped_item reason now i)
    else (do
      bytes ←
          encrypt vault (nonce i.id) (aad_of scope ref i withdrawal)
            (withdrawing i.source_event_id reason)
      require (leb (length bytes) withdrawal_reserve) withdrawal_reserve_invalid
      ok (obliged_item vault reason now bytes i))

-- A loop of `_withdraw` over the rows that a test selects.
unfoldable pub withdraw_where :
    Vault
    → (String → String)
    → Scope
    → BindingRef
    → String
    → ℕ
    → (Item → Bool)
    → List Item
    → Result (List Item)
unfolding withdraw_item
withdraw_where vault nonce scope ref reason now p [] = ok []
withdraw_where vault nonce scope ref reason now p (i ∷ is) = do
  i' ← if p i then withdraw_item vault nonce scope ref reason now i else ok i
  is' ← withdraw_where vault nonce scope ref reason now p is
  ok (i' ∷ is')

-- The rows that `_expire` selects.
abbrev pub is_overdue : BindingRef → ℕ → Item → Bool
is_overdue ref now i =
    str_eq i.binding_id ref.id
    && not (is_withdrawal i.operation)
    && leb i.timing.deadline_ms now
    && not (is_dropped i.state)

-- `_expire`
unfoldable pub expire_items :
    Vault → (String → String) → Scope → BindingRef → ℕ → List Item → Result (List Item)
unfolding withdraw_where
expire_items vault nonce scope ref now items =
    withdraw_where vault nonce scope ref "LOCAL_EXPIRED" now (is_overdue ref now) items

abbrev pub unleased : Item → Item
unleased i = record i {
  state = pending;
  lease_token = none;
  lease_until_ms = none;
  claim_generation = none;
}

-- `_release`
unfoldable pub release : BindingRef → List Item → List Item
unfolding update_where
release ref items =
    update_where (λ i. str_eq i.binding_id ref.id && is_leased i.state) unleased items
