-- ===== src/Outbox/Bindings.antt =====
-- `create_binding`, `set_paused` and `disconnect`.
pub mod Fences
use aisle_signals.Common.{
  ℕ, ◌+◌, Bool, true, false, ◌&&◌, ◌||◌, not, List, [], ◌∷◌, ◌++◌, String, leb, str_eq, ◌==◌,
  if◌then◌else◌,
}
use aisle_signals.Observation.Model.{Instant}
use aisle_signals.Outbox.Model.{
  invalid_identifier, invalid_binding, binding_exists, binding_limit, binding_conflict,
  binding_disconnected, generation_exhausted, Result, ok, ◌>>=◌, ◌>>◌, require, max_generation,
  stamp, Scope, BindingRef, Target, BindingState, active, paused, disconnected, restored, Binding,
  Db, Vault, is_connected, is_active, is_some,
}
use aisle_signals.Outbox.Rows.{first, update_where, find_binding, withdraw_where, release}

abbrev pub count_where {ℓ} : {A : Type ℓ} → (A → Bool) → List A → ℕ
count_where p [] = 0
count_where p (x ∷ xs) = (if p x then 1 else 0) + count_where p xs

-- The unique keys of the table: the target's device, and one connected binding an installation.
abbrev pub conflicts : Scope → Target → Binding → Bool
conflicts scope target b =
    (str_eq b.target.origin target.origin && str_eq b.target.device_id target.device_id)
    || (str_eq b.scope.installation_id scope.installation_id && is_connected b.state)

abbrev pub new_binding : Vault → Scope → String → Target → ℕ → Binding
new_binding vault scope id target now = record {
  id = id;
  scope = scope;
  generation = 1;
  target = target;
  key_hash = vault.key_hash;
  state = paused;
  created_ms = now;
  activated_ms = now;
  clock_ms = now;
}

-- `create_binding`; the new row is read back by `_binding`.
unfoldable pub create_binding :
    Vault → Scope → String → ℕ → Target → Instant → Db → Result (Binding × Db)
create_binding vault scope id expected_generation target now db = do
  require (expected_generation == 0) invalid_binding
  require (vault.formats.is_uuid id) invalid_identifier
  at ← stamp now
  require (not (is_some (first (λ b. str_eq b.id id) db.bindings))) binding_exists
  require
      (not (
        leb vault.limits.bindings_per_installation (
          count_where (λ (b : Binding). str_eq b.scope.installation_id scope.installation_id)
            db.bindings)))
      binding_limit
  require (not (is_some (first (conflicts scope target) db.bindings))) binding_conflict
  find_binding vault scope (record { id = id; generation = 1 }) at
      (record db { bindings = db.bindings ++ new_binding vault scope id target at ∷ [] })

-- A change of the state of a binding, which starts a new generation.
abbrev pub advance : BindingRef → BindingState → ℕ → List Binding → List Binding
advance ref state activated bindings =
    update_where (λ b. str_eq b.id ref.id)
      (λ b. record b { state = state; generation = b.generation + 1; activated_ms = activated })
      bindings

abbrev pub next_ref : BindingRef → BindingRef
next_ref ref = record ref { generation = ref.generation + 1 }

abbrev pub paused_state : Bool → BindingState
paused_state true = paused
paused_state false = active

-- `state == binding["state"]`, for a connected binding
abbrev pub same_pause : Bool → BindingState → Bool
same_pause pause state = if pause then not (is_active state) else is_active state

-- `set_paused`
unfoldable pub set_paused : Vault → Scope → BindingRef → Bool → Instant → Db → Result (Binding × Db)
set_paused vault scope ref pause now db = do
  at ← stamp now
  found ← find_binding vault scope ref at db
  require (is_connected found.0.state) binding_disconnected
  if same_pause pause found.0.state then ok found else do
    require (not (ref.generation == max_generation)) generation_exhausted
    find_binding vault scope (next_ref ref) at (record found.1 {
      bindings =
          advance ref (paused_state pause) (if pause then found.0.activated_ms else at)
            found.1.bindings;
      items = release ref found.1.items;
    })

-- `disconnect`
unfoldable pub disconnect :
    Vault → (String → String) → Scope → BindingRef → Bool → Instant → Db → Result (Binding × Db)
disconnect vault nonce scope ref as_restored now db = do
  at ← stamp now
  found ← find_binding vault scope ref at db
  if not (is_connected found.0.state) then ok found else do
    require (not (ref.generation == max_generation)) generation_exhausted
    items ←
        withdraw_where vault nonce scope ref "LOCAL_EXPORT_REMOVED" at
          (λ i. str_eq i.binding_id ref.id) found.1.items
    find_binding vault scope (next_ref ref) at (record found.1 {
      bindings =
          advance ref (if as_restored then restored else disconnected) found.0.activated_ms
            found.1.bindings;
      items = release ref items;
    })
