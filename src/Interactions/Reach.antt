-- ===== src/Interactions/Reach.antt =====
-- Every service that the steps can reach is sound.
use mathlib.Core.Path.{subst}
use aisle_signals.Common.{
  ◌≡◌, refl, ℕ, ◌-◌, true, false, ◌&&◌, Option, some, List, [], ◌∷◌, ◌++◌, String, str_eq, eq_iff,
  Bool-cases, inl, inr, arith, All, All-append,
}
use aisle_signals.Common.Tables.{first, select, has_row}
use aisle_signals.Interactions.Model.{
  Interaction, Outcome, Review, Phase, starting, analysing, Active, Service, Moment,
}
use aisle_signals.Interactions.Jobs.{
  has_id, begin, finish, fail, abandon, cancel, review, link_case, delete, drop, withdraw,
  may_roll_off, has_room, roll_off, make_room, of_site, dispatch, Sample, new_interaction, submit,
}
use aisle_signals.Interactions.Sound.{
  phase_of, sound, Rows, Unique, OneJob, IsSound, none_has, has_id-delete,
}
use aisle_signals.Interactions.Phases.{sound_released}
use aisle_signals.Interactions.Steps.{
  cancel-IsSound, fail-IsSound, finish-IsSound, begin-IsSound, abandon-IsSound, review-IsSound,
  link-IsSound, dropped-IsSound, delete-IsSound,
}

-- Sound, and the identifier is new.
abbrev Ready : String → Service → Type 0
Ready id s = IsSound s × (has_row (has_id id) s.interactions ≡ false)

rolled-Ready :
    (id : String) (rows : List Interaction) (count total : ℕ) (s : Service)
    → Ready id s
    → Ready id (roll_off rows count total s).1
unfolding roll_off
rolled-Ready id [] count total s h = h
rolled-Ready id (i ∷ rows) count total s h = elim (Bool-cases (has_room count total)) [
  | inl room ↦ rw (roll_off, room) h
  | inr full ↦ elim (Bool-cases (may_roll_off i)) [
    | inl low ↦
        rw (roll_off, full, low)
          (rolled-Ready id rows (count - 1) (total - 1)
            (drop i.id (withdraw i.id "LOCAL_EXPORT_REMOVED" s))
            (dropped-IsSound i.id _ s h.0, has_id-delete id i.id s.interactions h.1))
    | inr high ↦ rw (roll_off, full, high) (rolled-Ready id rows count total s h)
  ]
]

no_jobs : (active : List Active) → OneJob true active → active ≡ []
no_jobs [] o = refl
no_jobs (a ∷ rest) o = elim o [ ]

not_added :
    (i j : Interaction) (js : List Interaction)
    → str_eq j.id i.id ≡ false
    → has_row (has_id j.id) js ≡ false
    → has_row (has_id j.id) (js ++ i ∷ []) ≡ false
unfolding has_row
not_added i j [] n h =
    ground (arith, n, eq_iff i.id j.id, eq_iff j.id i.id, Bool-cases (str_eq i.id j.id))
not_added i j (k ∷ ks) n h =
    let rest = not_added i j ks n (ground (arith, h)) in ground (arith, h, rest)

Unique-appended :
    (i : Interaction) (is : List Interaction)
    → has_row (has_id i.id) is ≡ false
    → Unique is
    → Unique (is ++ i ∷ [])
unfolding has_row
Unique-appended i [] n u = (refl, tt)
Unique-appended i (j ∷ js) n u =
    (not_added i j js (ground (arith, n)) u.0, Unique-appended i js (ground (arith, n)) u.1)

old-Rows :
    (id : String) (active : List Active) (is : List Interaction)
    → Rows active is
    → All (λ j. has_id id j ≡ false) is
    → Rows (record { id = id; is_cancelled = false; phase = starting } ∷ []) is
unfolding phase_of first
old-Rows id active [] r n = tt
old-Rows id active (j ∷ js) r n =
    let other : str_eq id j.id ≡ false =
      ground (arith, n.0, eq_iff id j.id, eq_iff j.id id, Bool-cases (str_eq id j.id)) in
    (rw other (sound_released (phase_of j.id active) j r.0), old-Rows id active js r.1 n.1)

dispatch-IsSound :
    (stamp : ℕ) (x : Sample) (s : Service)
    → Ready x.id s
    → s.slot_free ≡ true
    → IsSound (dispatch (new_interaction stamp x) s)
unfolding dispatch phase_of first
dispatch-IsSound stamp x s h free =
    let idle = no_jobs s.active_jobs (subst (λ b. OneJob b s.active_jobs) free h.0.one_job) in
    record {
      rows = rw idle (
          All-append
            (λ i.
              sound
                (phase_of i.id (record { id = x.id; is_cancelled = false; phase = starting } ∷ []))
                i
              ≡ true)
            s.interactions _
            (old-Rows x.id s.active_jobs s.interactions h.0.rows
              (none_has (has_id x.id) s.interactions h.1))
            (rw ((eq_iff x.id x.id).1 refl) refl, tt));
      unique = Unique-appended (new_interaction stamp x) s.interactions h.1 h.0.unique;
      one_job = rw idle tt;
    }

submit-IsSound :
    (stamp : ℕ) (x : Sample) (s s' : Service)
    → Ready x.id s
    → submit stamp x s ≡ some s'
    → IsSound s'
unfolding submit make_room
submit-IsSound stamp x s s' h g =
    let room = make_room x.organisation_id x.site_id s in
    elim (Bool-cases (room.0 && room.1.slot_free)) [
      | inr refused ↦ absurd (ground (arith, refused, g))
      | inl granted ↦
          let same : dispatch (new_interaction stamp x) room.1 ≡ s' = ground (arith, granted, g) in
          subst IsSound same (
            dispatch-IsSound stamp x room.1
              (rolled-Ready x.id (select (of_site x.organisation_id x.site_id) s.interactions) _ _ s
                h)
              (ground (arith, granted)))
    ]

-- A step of the service: a request, or the worker of a job where it has come to. A submitted sample
-- gets a new identifier.
pub data Step : Service → Service → Type 0 where
  submits :
      {s s' : Service} (stamp : ℕ) (x : Sample)
      → has_row (has_id x.id) s.interactions ≡ false
      → submit stamp x s ≡ some s'
      → Step s s'
  begins :
      {s : Service} (m : Moment) (id : String)
      → phase_of id s.active_jobs ≡ some starting
      → Step s (begin m id s)
  finishes :
      {s : Service} (m : Moment) (id : String) (r : Outcome)
      → phase_of id s.active_jobs ≡ some analysing
      → Step s (finish m id r s)
  abandons :
      {s : Service} (id : String)
      → phase_of id s.active_jobs ≡ some analysing
      → Step s (abandon id s)
  fails :
      {s : Service} (id message : String) (p : Phase)
      → phase_of id s.active_jobs ≡ some p
      → Step s (fail id message s)
  cancels : {s : Service} (id : String) → Step s (cancel id s)
  reviews :
      {s s' : Service} (id : String) (expected : Option ℕ) (r : Review)
      → review id expected r s ≡ some s'
      → Step s s'
  links :
      {s s' : Service} (id : String) (expected : ℕ) (incident : String)
      → link_case id expected incident s ≡ some s'
      → Step s s'
  deletes : {s : Service} (id : String) → Step s (delete id s)

pub data Reachable : Service → Service → Type 0 where
  here : {s : Service} → Reachable s s
  later : {s s' s'' : Service} → Reachable s s' → Step s' s'' → Reachable s s''

step-IsSound : (s s' : Service) → Step s s' → IsSound s → IsSound s'
step-IsSound s s' (submits stamp x new e) h = submit-IsSound stamp x s s' (h, new) e
step-IsSound s s' (begins m id p) h = begin-IsSound m id s h p
step-IsSound s s' (finishes m id r p) h = finish-IsSound m id r analysing s h p
step-IsSound s s' (abandons id p) h = abandon-IsSound id analysing s h p
step-IsSound s s' (fails id message q p) h = fail-IsSound id message q s h p
step-IsSound s s' (cancels id) h = cancel-IsSound id s h
step-IsSound s s' (reviews id expected r e) h = review-IsSound id expected r s s' h e
step-IsSound s s' (links id expected incident e) h = link-IsSound id expected incident s s' h e
step-IsSound s s' (deletes id) h = delete-IsSound id s h

-- The service at its start: nothing stored, no job, the slot free.
abbrev pub fresh_service : Service
fresh_service = record {
  interactions = [];
  active_jobs = [];
  slot_free = true;
  closed = false;
  published = [];
  withdrawn = [];
}

-- Whatever requests and jobs interleave from the start of the service, one job at most holds the
-- inference slot, and every stored interaction is well formed and in a state that fits the place its
-- job has come to: a result belongs to a completed one only, a review or a case too, and one that
-- failed or was cancelled keeps no frames.
pub Reachable-IsSound : (s : Service) → Reachable fresh_service s → IsSound s
Reachable-IsSound s here = record { rows = tt; unique = tt; one_job = tt }
Reachable-IsSound s (later {s' = t} r step) = step-IsSound t s step (Reachable-IsSound t r)
