-- ===== src/Outbox/Bindings/Fences.antt =====
-- A change of a binding's state puts an end to what its earlier generation may do.
use mathlib.Core.Path.{subst}
use aisle_signals.Common.{
  ◌≡◌, refl, sym, ◌∙◌, ◌≢◌, ◌⊎◌, ◌+◌, Bool, true, false, ℕ, ◌==◌, Option, none, some, List, [], ◌∷◌,
  String, arith, Bool-cases, Option-cases, inl, inr, if◌then◌else◌, leb, str_eq,
}
use aisle_signals.Observation.Model.{Instant}
use aisle_signals.Outbox.Model.{
  ok, err, stamp, Scope, BindingRef, Vault, Db, Binding, Claim, is_connected, stale_generation,
  max_generation,
}
use aisle_signals.Outbox.Rows.{first, find_binding, check_binding, is_binding, update_where}
use aisle_signals.Outbox.Returns.{Returns, Result-cases, value-Returns}
use aisle_signals.Outbox.Bindings.{set_paused, same_pause, next_ref}
use aisle_signals.Outbox.Leases.{claim, find_lease}

-- The row that a reference finds has this generation.
abbrev IsAt : ℕ → Option Binding → Type 0
IsAt g none = ⊥
IsAt g (some b) = b.generation ≡ g

if-IsAt :
    (g : ℕ) (found : Bool) (b b' : Binding) (o o' : Option Binding)
    → b'.generation ≡ b.generation
    → (IsAt g o → IsAt g o')
    → IsAt g (if found then some b else o)
    → IsAt g (if found then some b' else o')
if-IsAt g true b b' o o' e k h = e ∙ h
if-IsAt g false b b' o o' e k h = k h

set_clock-IsAt :
    (p : Binding → Bool) (id : String) (now g : ℕ) (bs : List Binding)
    → ((b : Binding) → p (record b { clock_ms = now }) ≡ p b)
    → IsAt g (first p bs)
    → IsAt g (first p (update_where (λ b. str_eq b.id id) (λ b. record b { clock_ms = now }) bs))
unfolding first update_where
set_clock-IsAt p id now g [] k h = h
set_clock-IsAt p id now g (b ∷ bs) k h = elim (Bool-cases (str_eq b.id id)) [
  | inl same ↦ rw same (
      rw (k b) (
        if-IsAt g (p b) b (record b { clock_ms = now }) _ _ refl (set_clock-IsAt p id now g bs k)
          h))
  | inr other ↦ rw other (if-IsAt g (p b) b b _ _ refl (set_clock-IsAt p id now g bs k) h)
]

check_binding-current :
    (vault : Vault) (ref : BindingRef) (now : ℕ) (b : Binding)
    → Returns (λ _. b.generation ≡ ref.generation) (check_binding vault ref now b)
unfolding check_binding
check_binding-current vault ref now b = elim (Bool-cases (b.generation == ref.generation)) [
  | inr stale ↦ rw stale tt
  | inl current ↦ rw current (elim (Bool-cases (str_eq b.key_hash vault.key_hash)) [
    | inr locked ↦ rw locked tt
    | inl opened ↦ rw opened (elim (Bool-cases (leb b.clock_ms now)) [
      | inr back ↦ rw back tt
      | inl later ↦ rw later ground arith
    ])
  ])
]

find_binding-IsAt :
    (vault : Vault) (scope : Scope) (ref : BindingRef) (now : ℕ) (db : Db)
    → Returns
        (λ (r : Binding × Db).
          (r.0.generation ≡ ref.generation)
          × IsAt ref.generation (first (is_binding scope ref) r.1.bindings))
        (find_binding vault scope ref now db)
unfolding find_binding
find_binding-IsAt vault scope ref now db =
    elim (Option-cases (first (is_binding scope ref) db.bindings)) [
      | inl missing ↦ rw missing tt
      | inr (b, e) ↦ rw e (elim (Result-cases (check_binding vault ref now b)) [
        | inr (c, f) ↦ rw f tt
        | inl (u, f) ↦
            let current =
              value-Returns (λ _. b.generation ≡ ref.generation) _ u
                (check_binding-current vault ref now b) f in
            rw f (
              current,
              set_clock-IsAt (is_binding scope ref) ref.id now ref.generation db.bindings
                  (λ _. refl) (subst (IsAt ref.generation) (sym e) current),
            )
      ])
    ]

wrong_generation : (m n : ℕ) → m ≢ n → (m == n) ≡ false
wrong_generation m n h = ground arith

find_binding_stale :
    (vault : Vault) (scope : Scope) (ref : BindingRef) (now g : ℕ) (db : Db)
    → g ≢ ref.generation
    → IsAt g (first (is_binding scope ref) db.bindings)
    → find_binding vault scope ref now db ≡ err stale_generation
unfolding find_binding check_binding
find_binding_stale vault scope ref now g db n h =
    elim (Option-cases (first (is_binding scope ref) db.bindings)) [
      | inl missing ↦ absurd (subst (IsAt g) missing h)
      | inr (b, e) ↦ rw e (
          rw
            (wrong_generation b.generation ref.generation
              (λ same. n (sym (subst (IsAt g) e h) ∙ same)))
            refl)
    ]

-- The binding as `set_paused` reads it back is of this generation, in the tables too.
abbrev Fenced : Scope → BindingRef → Binding × Db → Type 0
Fenced scope ref r = IsAt r.0.generation (first (is_binding scope ref) r.1.bindings)

found-Fenced :
    (vault : Vault) (scope : Scope) (ref : BindingRef) (now : ℕ) (db : Db)
    → Returns (Fenced scope ref) (find_binding vault scope ref now db)
found-Fenced vault scope ref now db = elim (Result-cases (find_binding vault scope ref now db)) [
  | inr (c, f) ↦ rw f tt
  | inl (r, f) ↦
      let at =
        value-Returns
          (λ (r : Binding × Db).
            (r.0.generation ≡ ref.generation)
            × IsAt ref.generation (first (is_binding scope ref) r.1.bindings))
          _ r (find_binding-IsAt vault scope ref now db) f in
      rw f (rw at.0 at.1)
]

set_paused-Fenced :
    (vault : Vault) (scope : Scope) (ref : BindingRef) (pause : Bool) (now : Instant) (db : Db)
    → Returns (Fenced scope ref) (set_paused vault scope ref pause now db)
unfolding set_paused
set_paused-Fenced vault scope ref pause now db = elim (Result-cases (stamp now)) [
  | inr (c, s) ↦ rw s tt
  | inl (at, s) ↦ rw s (elim (Result-cases (find_binding vault scope ref at db)) [
    | inr (c, f) ↦ rw f tt
    | inl ((b, d), f) ↦
        let keep =
          value-Returns (Fenced scope ref) _ (b, d) (found-Fenced vault scope ref at db) f in
        rw f (elim (Bool-cases (is_connected b.state)) [
          | inr gone ↦ rw gone tt
          | inl there ↦ rw there (elim (Bool-cases (same_pause pause b.state)) [
            | inl same ↦ rw same keep
            | inr change ↦ rw change (elim (Bool-cases (ref.generation == max_generation)) [
              | inl last ↦ rw last tt
              | inr more ↦ rw more (found-Fenced vault scope (next_ref ref) at _)
            ])
          ])
        ])
  ])
]

found-state :
    (vault : Vault) (scope : Scope) (ref : BindingRef) (now : ℕ) (db : Db) (old : Binding)
    → first (is_binding scope ref) db.bindings ≡ some old
    → Returns (λ (r : Binding × Db). r.0.state ≡ old.state) (find_binding vault scope ref now db)
unfolding find_binding
found-state vault scope ref now db old e =
    rw e (elim (Result-cases (check_binding vault ref now old)) [
      | inl (u, f) ↦ rw f refl
      | inr (c, f) ↦ rw f tt
    ])

-- The binding has the state that it had, or it is of the next generation.
abbrev Advanced : BindingRef → Binding → Binding × Db → Type 0
Advanced ref old r = (r.0.state ≡ old.state) ⊎ (r.0.generation ≡ ref.generation + 1)

next-Advanced :
    (vault : Vault) (scope : Scope) (ref : BindingRef) (now : ℕ) (db : Db) (old : Binding)
    → Returns (Advanced ref old) (find_binding vault scope (next_ref ref) now db)
next-Advanced vault scope ref now db old =
    elim (Result-cases (find_binding vault scope (next_ref ref) now db)) [
      | inr (c, f) ↦ rw f tt
      | inl (r, f) ↦
          let at =
            value-Returns _ (find_binding vault scope (next_ref ref) now db) r
              (find_binding-IsAt vault scope (next_ref ref) now db) f in
          rw f (inr at.0)
    ]

set_paused-Advanced :
    (vault : Vault) (scope : Scope) (ref : BindingRef) (pause : Bool) (now : Instant) (db : Db)
    (old : Binding)
    → first (is_binding scope ref) db.bindings ≡ some old
    → Returns (Advanced ref old) (set_paused vault scope ref pause now db)
unfolding set_paused
set_paused-Advanced vault scope ref pause now db old e = elim (Result-cases (stamp now)) [
  | inr (c, s) ↦ rw s tt
  | inl (at, s) ↦ rw s (elim (Result-cases (find_binding vault scope ref at db)) [
    | inr (c, f) ↦ rw f tt
    | inl ((b, d), f) ↦
        let keep =
          value-Returns (λ (r : Binding × Db). r.0.state ≡ old.state) _ (b, d)
            (found-state vault scope ref at db old e) f in
        rw f (elim (Bool-cases (is_connected b.state)) [
          | inr gone ↦ rw gone tt
          | inl there ↦ rw there (elim (Bool-cases (same_pause pause b.state)) [
            | inl same ↦ rw same (inl keep)
            | inr change ↦ rw change (elim (Bool-cases (ref.generation == max_generation)) [
              | inl last ↦ rw last tt
              | inr more ↦ rw more (next-Advanced vault scope ref at _ old)
            ])
          ])
        ])
  ])
]

-- A changed state is of another generation than the reference.
changed-generation :
    (ref : BindingRef) (old : Binding) (r : Binding × Db)
    → r.0.state ≢ old.state
    → Advanced ref old r
    → r.0.generation ≢ ref.generation
changed-generation ref old r n (inl same) = absurd (n same)
changed-generation ref old r n (inr next) = λ e. absurd (omega (arith, next, e))

-- Once `set_paused` has changed the state of a binding, a claim and a lease under the generation
-- before it are refused as stale.
pub set_paused_fences :
    (vault : Vault) (nonce : String → String) (scope : Scope) (ref : BindingRef) (pause : Bool)
    (now later : Instant) (token : String) (c : Claim) (seconds at : ℕ) (db db' : Db)
    (old b : Binding)
    → first (is_binding scope ref) db.bindings ≡ some old
    → set_paused vault scope ref pause now db ≡ ok (b, db')
    → b.state ≢ old.state
    → stamp later ≡ ok at
    → (claim vault nonce scope ref token seconds later db' ≡ err stale_generation)
      × (find_lease vault scope ref c at db' ≡ err stale_generation)
unfolding claim find_lease
set_paused_fences vault nonce scope ref pause now later token c seconds at db db' old b e h n s =
    let moved =
      changed-generation ref old (b, db') n
        (value-Returns (Advanced ref old) _ (b, db')
          (set_paused-Advanced vault scope ref pause now db old e) h) in
    let stale = find_binding_stale vault scope ref at b.generation db' moved (
      value-Returns (Fenced scope ref) _ (b, db') (set_paused-Fenced vault scope ref pause now db)
        h) in
    (rw s (rw stale refl), rw stale refl)
