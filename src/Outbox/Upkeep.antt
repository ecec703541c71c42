-- ===== src/Outbox/Upkeep.antt =====
-- `withdraw`, `expire`, `prune_terminal` and the restore of `mark_restored`.
pub mod Restore
pub mod Expiry
use Prim.Native.Nat.{◌*◌, max}
use aisle_signals.Common.{
  ℕ, zero, suc, ◌+◌, Bool, true, false, ◌&&◌, ◌||◌, not, Option, none, some, List, [], ◌∷◌, String,
  leb, ltb, str_eq, ◌==◌, if◌then◌else◌, map,
}
use aisle_signals.Observation.Model.{Instant}
use aisle_signals.Outbox.Model.{
  invalid_reason, invalid_limit, generation_exhausted, Result, ok, ◌>>=◌, ◌>>◌, require,
  max_generation, day_ms, stamp, Scope, BindingRef, BindingState, restored, withdrawal, leased,
  received, cancelled, blocked, Binding, Item, Db, Vault, is_dropped, is_withdrawn, is_some, holds,
}
use aisle_signals.Outbox.Rows.{
  first, update_where, delete_where, find_binding, find_item, set_item, is_reason, withdraw_item,
  expire_items,
}
use aisle_signals.Outbox.Leases.{before}

-- `withdraw`
unfoldable pub withdraw :
    Vault → (String → String) → Scope → BindingRef → String → String → Instant → Db → Result Db
withdraw vault nonce scope ref id reason now db = do
  at ← stamp now
  found ← find_binding vault scope ref at db
  require (is_reason reason) invalid_reason
  i ← find_item vault ref id found.1
  row ← withdraw_item vault nonce scope ref reason at i
  ok (record found.1 { items = set_item id (λ _. row) found.1.items })

-- `expire`
unfoldable pub expire : Vault → (String → String) → Scope → BindingRef → Instant → Db → Result Db
expire vault nonce scope ref now db = do
  at ← stamp now
  found ← find_binding vault scope ref at db
  items ← expire_items vault nonce scope ref at found.1.items
  ok (record found.1 { items = items })

-- Nothing is owed for the item any more.
abbrev pub is_resolved : Item → Bool
is_resolved i =
    (is_dropped i.state && not i.ever_attempted) || (is_withdrawn i.state && is_some i.receipt_id)

-- The rows that `prune_terminal` may delete.
abbrev pub is_prunable : BindingRef → ℕ → Item → Bool
is_prunable ref now i =
    str_eq i.binding_id ref.id
    && elim i.terminal_ms [ none ↦ false | some t ↦ leb (t + 31 * day_ms) now ]
    && is_resolved i

abbrev pub ended_before : Item → Item → Bool
ended_before a b = elim a.terminal_ms [
  | none ↦ false
  | some t ↦ elim b.terminal_ms [ none ↦ true | some u ↦ ltb t u || (t == u && before a.id b.id) ]
]

-- The first row that may be deleted, by `terminal_ms` and identifier.
unfoldable pub first_prunable : BindingRef → ℕ → Option Item → List Item → Option Item
first_prunable ref now best [] = best
first_prunable ref now best (i ∷ is) =
    first_prunable ref now
      (if is_prunable ref now i
        then elim best [ none ↦ some i | some b ↦ if ended_before i b then some i else some b ]
        else best)
      is

-- At most `limit` rows are deleted, the earliest first; the number of them comes back.
unfoldable pub prune_items : ℕ → BindingRef → ℕ → List Item → ℕ × List Item
unfolding first_prunable
prune_items zero ref now items = (0, items)
prune_items (suc limit) ref now items = elim (first_prunable ref now none items) [
  | none ↦ (0, items)
  | some i ↦
      let rest =
        prune_items limit ref now
          (delete_where (λ (j : Item). str_eq j.binding_id ref.id && str_eq j.id i.id) items) in
      (suc rest.0, rest.1)
]

-- `prune_terminal`
unfoldable pub prune_terminal : Vault → Scope → BindingRef → ℕ → Instant → Db → Result (ℕ × Db)
prune_terminal vault scope ref limit now db = do
  at ← stamp now
  found ← find_binding vault scope ref at db
  require (leb 1 limit && leb limit 1000) invalid_limit
  let pruned = prune_items limit ref at found.1.items
  ok (pruned.0, record found.1 { items = pruned.1 })

abbrev pub is_restored : BindingState → Bool
is_restored restored = true
is_restored _ = false

abbrev pub restored_binding : ℕ → Binding → Binding
restored_binding now b = record b {
  generation = b.generation + 1;
  state = restored;
  clock_ms = max b.clock_ms now;
}

-- A delivery that may have reached the cloud and is not acknowledged as withdrawn.
abbrev pub is_uncertain : Item → Bool
is_uncertain i =
    not (is_withdrawn i.state && is_some i.receipt_id)
    && (i.ever_attempted
        || ltb 0 i.attempts
        || is_some i.receipt_id
        || is_some i.observation_receipt_id
        || elim i.state [ leased ↦ true | received ↦ true | _ ↦ false ])

abbrev pub or_text : Option String → String → Option String
or_text none s = some s
or_text (some t) s = some t

abbrev pub or_time : Option ℕ → ℕ → Option ℕ
or_time none n = some n
or_time (some m) n = some m

-- The first two updates of `mark_restored` on a row: an uncertain delivery is a blocked
-- obligation, and any other without an acknowledged withdrawal is cancelled.
abbrev pub fenced_item : ℕ → Item → Item
fenced_item now i =
    if is_uncertain i
    then record i {
      operation = withdrawal;
      state = blocked;
      withdrawal_reason = or_text i.withdrawal_reason "LOCAL_EXPORT_REMOVED";
      error_code = some "RESTORED_REQUIRES_MANAGEMENT";
      terminal_ms = none;
    }
    else if not (holds i.error_code "RESTORED_REQUIRES_MANAGEMENT")
        && not (is_withdrawn i.state && is_some i.receipt_id)
    then record i {
      state = cancelled;
      error_code = some "RESTORED";
      terminal_ms = or_time i.terminal_ms now;
    }
    else i

-- Its third update: no payload and no lease is left.
abbrev pub erased_item : Item → Item
erased_item i = record i {
  payload = none;
  payload_hash = "";
  lease_token = none;
  lease_until_ms = none;
  claim_generation = none;
  settled_token = none;
}

-- `mark_restored` on the tables of this module, without the counts that it reports
unfoldable pub mark_restored : Instant → Db → Result Db
unfolding update_where
mark_restored now db = do
  at ← stamp now
  require
      (not (
        is_some (
          first (λ (b : Binding). not (is_restored b.state) && leb max_generation b.generation)
            db.bindings)))
      generation_exhausted
  ok (record {
    bindings =
        update_where (λ (b : Binding). not (is_restored b.state)) (restored_binding at) db.bindings;
    items = map (λ i. erased_item (fenced_item at i)) db.items;
    capacity = [];
  })
