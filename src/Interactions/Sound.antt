-- ===== src/Interactions/Sound.antt =====
-- What every stored interaction has at every moment of its job.
use aisle_signals.Common.{
  ◌≡◌, refl, Bool, true, false, ◌&&◌, ◌||◌, not, Option, none, some, List, [], ◌∷◌, String, leb,
  eq_iff, Bool-cases, inl, inr, arith, All, if◌then◌else◌,
}
use aisle_signals.Common.Tables.{first, has_row, update_where, delete_where}
use aisle_signals.Interactions.Model.{
  Status, pending, running, cancelled, Interaction, Phase, starting, analysing, Active, Service,
  is_completed, is_dead, is_some, is_empty,
}
use aisle_signals.Interactions.Jobs.{has_id, is_job}

abbrev pub phase_of_job : Option Active → Option Phase
phase_of_job none = none
phase_of_job (some a) = some a.phase

unfoldable pub phase_of : String → List Active → Option Phase
phase_of id active = phase_of_job (first (is_job id) active)

-- The state that the job of an interaction may have found it in.
abbrev pub in_phase : Option Phase → Status → Bool
in_phase none s = true
in_phase (some starting) pending = true
in_phase (some starting) cancelled = true
in_phase (some starting) _ = false
in_phase (some analysing) running = true
in_phase (some analysing) cancelled = true
in_phase (some analysing) _ = false

-- A completed interaction has a result and any other has neither result nor review nor case; one
-- that failed or was cancelled has no frames; a case has a review; versions start at one.
abbrev pub well_formed : Interaction → Bool
well_formed i =
    (if is_completed i.status
      then is_some i.result
      else not (is_some i.result) && not (is_some i.review) && not (is_some i.incident_id))
    && (not (is_dead i.status) || is_empty i.frames)
    && (not (is_some i.incident_id) || is_some i.review)
    && leb 1 i.version

abbrev pub sound : Option Phase → Interaction → Bool
sound p i = in_phase p i.status && well_formed i

abbrev pub Rows : List Active → List Interaction → Type 0
Rows active is = All (λ i. sound (phase_of i.id active) i ≡ true) is

-- The identifiers are a primary key.
abbrev pub Unique : List Interaction → Type 0
Unique [] = Unit
Unique (i ∷ is) = (has_row (has_id i.id) is ≡ false) × Unique is

-- The free slot stands for no job, and the taken slot for one.
abbrev pub OneJob : Bool → List Active → Type 0
OneJob true [] = Unit
OneJob true (a ∷ as') = ⊥
OneJob false [] = ⊥
OneJob false (a ∷ []) = Unit
OneJob false (a ∷ b ∷ as') = ⊥

pub record IsSound (s : Service) : Type 0 where
  pub rows : Rows s.active_jobs s.interactions
  pub unique : Unique s.interactions
  pub one_job : OneJob s.slot_free s.active_jobs

pub none_has :
    (p : Interaction → Bool) (is : List Interaction)
    → has_row p is ≡ false
    → All (λ i. p i ≡ false) is
unfolding has_row
none_has p [] h = tt
none_has p (i ∷ is) h = (ground (arith, h), none_has p is (ground (arith, h)))

pub All-weaken :
    {P Q : Interaction → Type 0} (k : (i : Interaction) → P i → Q i) (is : List Interaction)
    → All P is
    → All Q is
All-weaken k [] h = tt
All-weaken k (i ∷ is) h = (k i h.0, All-weaken k is h.1)

-- The row with an identifier is the one that is found.
pub one_row :
    (id : String) (is : List Interaction) (i : Interaction)
    → Unique is
    → first (has_id id) is ≡ some i
    → All (λ j. has_id id j ≡ true → j ≡ i) is
unfolding first
one_row id [] i u f = absurd (cc f)
one_row id (j ∷ js) i u f = elim (Bool-cases (has_id id j)) [
  | inl hit ↦
      let same : j ≡ i = ground (arith, hit, f) in
      let key = (eq_iff j.id id).0 hit in
      (
        λ t. same,
        All-weaken (λ k n t. absurd (ground (arith, n, t, key, eq_iff k.id id, eq_iff k.id j.id)))
            js (none_has (has_id j.id) js u.0),
      )
  | inr miss ↦ (λ t. absurd (cc (miss, t)), one_row id js i u.1 (ground (arith, miss, f)))
]

pub Rows-changed :
    (id : String) (f : Interaction → Interaction) (active active' : List Active) (i : Interaction)
    (is : List Interaction)
    → ((j : Interaction)
        → has_id id j ≡ false
        → sound (phase_of j.id active) j ≡ true
        → sound (phase_of j.id active') j ≡ true)
    → sound (phase_of (f i).id active') (f i) ≡ true
    → Rows active is
    → All (λ j. has_id id j ≡ true → j ≡ i) is
    → Rows active' (update_where (has_id id) f is)
unfolding update_where
Rows-changed id f active active' i [] k g r o = tt
Rows-changed id f active active' i (j ∷ js) k g r o = (
  elim (Bool-cases (has_id id j)) [
    | inl hit ↦ rw (hit, o.0 hit) g
    | inr miss ↦ rw miss (k j miss r.0)
  ],
  Rows-changed id f active active' i js k g r.1 o.1,
)

-- The other interactions and their phases.
pub Rows-kept :
    (active active' : List Active) (is : List Interaction)
    → ((j : Interaction)
        → sound (phase_of j.id active) j ≡ true
        → sound (phase_of j.id active') j ≡ true)
    → Rows active is
    → Rows active' is
Rows-kept active active' is k r = All-weaken k is r

has_id-update :
    (k id : String) (f : Interaction → Interaction) (is : List Interaction)
    → ((i : Interaction) → (f i).id ≡ i.id)
    → has_row (has_id k) (update_where (has_id id) f is) ≡ has_row (has_id k) is
unfolding has_row update_where
has_id-update k id f [] h = refl
has_id-update k id f (i ∷ is) h = elim (Bool-cases (has_id id i)) [
  | inl hit ↦ rw (hit, h i, has_id-update k id f is h) refl
  | inr miss ↦ rw (miss, has_id-update k id f is h) refl
]

pub Unique-changed :
    (id : String) (f : Interaction → Interaction) (is : List Interaction)
    → ((i : Interaction) → (f i).id ≡ i.id)
    → Unique is
    → Unique (update_where (has_id id) f is)
unfolding update_where
Unique-changed id f [] h u = tt
Unique-changed id f (i ∷ is) h u = elim (Bool-cases (has_id id i)) [
  | inl hit ↦ rw hit (rw (h i, has_id-update i.id id f is h) u.0, Unique-changed id f is h u.1)
  | inr miss ↦ rw miss (rw (has_id-update i.id id f is h) u.0, Unique-changed id f is h u.1)
]

pub has_id-delete :
    (k id : String) (is : List Interaction)
    → has_row (has_id k) is ≡ false
    → has_row (has_id k) (delete_where (has_id id) is) ≡ false
unfolding has_row delete_where
has_id-delete k id [] h = refl
has_id-delete k id (i ∷ is) h =
    let rest = has_id-delete k id is (ground (arith, h)) in
    elim (Bool-cases (has_id id i)) [
      | inl hit ↦ rw hit rest
      | inr miss ↦ rw miss (ground (arith, rest, h))
    ]

pub Unique-dropped :
    (id : String) (is : List Interaction) → Unique is → Unique (delete_where (has_id id) is)
unfolding delete_where
Unique-dropped id [] u = tt
Unique-dropped id (i ∷ is) u = elim (Bool-cases (has_id id i)) [
  | inl hit ↦ rw hit (Unique-dropped id is u.1)
  | inr miss ↦ rw miss (has_id-delete i.id id is u.0, Unique-dropped id is u.1)
]
