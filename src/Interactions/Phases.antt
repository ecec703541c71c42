-- ===== src/Interactions/Phases.antt =====
-- The job of an interaction, and the changes that keep the interactions sound.
use mathlib.Core.Path.{subst}
use aisle_signals.Common.{
  ◌≡◌, refl, sym, ap, ◌∙◌, Bool, true, false, Option, none, some, List, [], ◌∷◌, String, str_eq,
  eq_iff, Bool-cases, inl, inr, arith,
}
use aisle_signals.Common.Tables.{first, update_where, delete_where, first-All, first-selected}
use aisle_signals.Interactions.Model.{
  Status, pending, running, completed, failed, cancelled, Interaction, Phase, starting, analysing,
  Active, Service, is_open, is_completed,
}
use aisle_signals.Interactions.Jobs.{
  has_id, is_job, find_interaction, change, ended, release, set_phase, signal,
}
use aisle_signals.Interactions.Sound.{
  phase_of, in_phase, sound, OneJob, IsSound, one_row, Rows-changed, Rows-kept, Unique-changed,
}

pub phase_updated :
    (k id : String) (g : Active → Active) (active : List Active)
    → ((a : Active) → (g a).id ≡ a.id)
    → ((a : Active) → (str_eq k id ≡ true → (g a).phase ≡ a.phase))
    → phase_of k (update_where (is_job id) g active) ≡ phase_of k active
unfolding phase_of first update_where
phase_updated k id g [] h e = refl
phase_updated k id g (a ∷ rest) h e =
    let tail = phase_updated k id g rest h e in
    elim (Bool-cases (is_job id a)) [
      | inr miss ↦ elim (Bool-cases (is_job k a)) [
        | inl mine ↦ rw (miss, mine) refl
        | inr other ↦ rw (miss, other) tail
      ]
      | inl hit ↦ elim (Bool-cases (is_job k a)) [
        | inl mine ↦
            let own : str_eq k id ≡ true =
              ground (arith, hit, mine, eq_iff a.id id, eq_iff a.id k, eq_iff k id) in
            rw (hit, h a, mine) (ap some (e a own))
        | inr other ↦ rw (hit, h a, other) tail
      ]
    ]

pub phase_deleted :
    (k id : String) (active : List Active)
    → str_eq k id ≡ false
    → phase_of k (delete_where (is_job id) active) ≡ phase_of k active
unfolding phase_of first delete_where
phase_deleted k id [] n = refl
phase_deleted k id (a ∷ rest) n =
    let tail = phase_deleted k id rest n in
    elim (Bool-cases (is_job id a)) [
      | inl hit ↦
          let other : is_job k a ≡ false =
            ground (
              arith,
              hit,
              n,
              eq_iff a.id id,
              eq_iff a.id k,
              eq_iff k id,
              Bool-cases (is_job k a),
            ) in
          rw (hit, other) tail
      | inr miss ↦ elim (Bool-cases (is_job k a)) [
        | inl mine ↦ rw (miss, mine) refl
        | inr other ↦ rw (miss, other) tail
      ]
    ]

-- The job is the only one.
pub sole :
    (id : String) (p : Phase) (free : Bool) (active : List Active)
    → OneJob free active
    → phase_of id active ≡ some p
    → (free ≡ false) × ((a : Active) × ((active ≡ a ∷ []) × ((is_job id a ≡ true) × (a.phase ≡ p))))
unfolding phase_of first
sole id p free [] o h = absurd (cc h)
sole id p true (a ∷ rest) o h = elim o [ ]
sole id p false (a ∷ b ∷ rest) o h = elim o [ ]
sole id p false (a ∷ []) o h = elim (Bool-cases (is_job id a)) [
  | inl hit ↦ (refl, (a, (refl, (hit, ground (arith, h, hit)))))
  | inr miss ↦ absurd (ground (arith, h, miss))
]

pub released_job :
    (id : String) (p : Phase) (free : Bool) (active : List Active)
    → OneJob free active
    → phase_of id active ≡ some p
    → delete_where (is_job id) active ≡ []
unfolding delete_where
released_job id p free active o h =
    let (f, (a, (e, (hit, q)))) = sole id p free active o h in rw e (rw hit refl)

pub sound_released : (p : Option Phase) (j : Interaction) → sound p j ≡ true → sound none j ≡ true
sound_released p j h = ground (arith, h)

-- The end of a job.
pub release-IsSound :
    (id : String) (p : Phase) (s : Service)
    → IsSound s
    → phase_of id s.active_jobs ≡ some p
    → IsSound (release id s)
unfolding release phase_of first
release-IsSound id p s h e =
    let gone = released_job id p s.slot_free s.active_jobs h.one_job e in
    record {
      rows = rw gone (
          Rows-kept s.active_jobs [] s.interactions
            (λ j k. sound_released (phase_of j.id s.active_jobs) j k) h.rows);
      unique = h.unique;
      one_job = rw gone tt;
    }

-- A change of the interaction that is found, under whichever phase its job has afterwards.
pub changed-IsSound :
    (id : String) (f : Interaction → Interaction) (active : List Active) (i : Interaction)
    (s : Service)
    → IsSound s
    → find_interaction id s ≡ some i
    → ((j : Interaction) → (f j).id ≡ j.id)
    → OneJob s.slot_free active
    → ((k : String) → str_eq k id ≡ false → phase_of k active ≡ phase_of k s.active_jobs)
    → sound (phase_of id active) (f i) ≡ true
    → IsSound (record (change id f s) { active_jobs = active })
unfolding find_interaction
changed-IsSound id f active i s h e same one others good =
    let key = (eq_iff i.id id).0 (first-selected (has_id id) s.interactions i e) in
    record {
      rows =
          Rows-changed id f s.active_jobs active i s.interactions
            (λ j other k. subst (λ p. sound p j ≡ true) (sym (others j.id other)) k)
            (subst (λ k. sound (phase_of k active) (f i) ≡ true) (sym (same i ∙ key)) good) h.rows
            (one_row id s.interactions i h.unique e);
      unique = Unique-changed id f s.interactions same h.unique;
      one_job = one;
    }

pub found_sound :
    (id : String) (i : Interaction) (s : Service)
    → IsSound s
    → find_interaction id s ≡ some i
    → sound (phase_of id s.active_jobs) i ≡ true
unfolding find_interaction
found_sound id i s h e =
    let key = (eq_iff i.id id).0 (first-selected (has_id id) s.interactions i e) in
    subst (λ k. sound (phase_of k s.active_jobs) i ≡ true) key
      (first-All (λ j. sound (phase_of j.id s.active_jobs) j ≡ true) (has_id id) s.interactions i
        h.rows e)

-- A change while the job keeps its phase.
pub kept-IsSound :
    (id : String) (f : Interaction → Interaction) (i : Interaction) (s : Service)
    → IsSound s
    → find_interaction id s ≡ some i
    → ((j : Interaction) → (f j).id ≡ j.id)
    → sound (phase_of id s.active_jobs) (f i) ≡ true
    → IsSound (change id f s)
kept-IsSound id f i s h e same good =
    changed-IsSound id f s.active_jobs i s h e same h.one_job (λ k n. refl) good

-- Ending an interaction without a classification fits every phase when it is cancelled.
pub cancelled_sound :
    (p : Option Phase) (message : String) (i : Interaction)
    → sound p i ≡ true
    → is_completed i.status ≡ false
    → sound p (ended cancelled message i) ≡ true
cancelled_sound none message i h n = ground (arith, h, n)
cancelled_sound (some starting) message i h n = ground (arith, h, n)
cancelled_sound (some analysing) message i h n = ground (arith, h, n)

pub open_starting : (s : Status) → in_phase (some starting) s ≡ true → is_completed s ≡ false
open_starting pending h = refl
open_starting cancelled h = refl
open_starting running h = refl
open_starting failed h = refl
open_starting completed h = absurd (cc h)

pub open_analysing : (s : Status) → in_phase (some analysing) s ≡ true → is_completed s ≡ false
open_analysing pending h = refl
open_analysing cancelled h = refl
open_analysing running h = refl
open_analysing failed h = refl
open_analysing completed h = absurd (cc h)

pub open_job :
    (p : Phase) (i : Interaction) → sound (some p) i ≡ true → is_completed i.status ≡ false
open_job starting i h = open_starting i.status (ground (arith, h))
open_job analysing i h = open_analysing i.status (ground (arith, h))

pub one_updated :
    (free : Bool) (p : Active → Bool) (g : Active → Active) (active : List Active)
    → OneJob free active
    → OneJob free (update_where p g active)
unfolding update_where
one_updated true p g [] o = tt
one_updated true p g (a ∷ rest) o = elim o [ ]
one_updated false p g [] o = elim o [ ]
one_updated false p g (a ∷ []) o = tt
one_updated false p g (a ∷ b ∷ rest) o = elim o [ ]

pub open_not_completed : (s : Status) → is_open s ≡ true → is_completed s ≡ false
open_not_completed pending h = refl
open_not_completed running h = refl
open_not_completed completed h = absurd (cc h)
open_not_completed failed h = refl
open_not_completed cancelled h = refl

pub signalled :
    (k id : String) (active : List Active) → phase_of k (signal id active) ≡ phase_of k active
signalled k id active = phase_updated k id _ active (λ a. refl) (λ a t. refl)

-- The end of a job after a change of its interaction.
pub ended-IsSound :
    (id : String) (p : Phase) (f : Interaction → Interaction) (i : Interaction) (s : Service)
    → IsSound s
    → phase_of id s.active_jobs ≡ some p
    → find_interaction id s ≡ some i
    → ((j : Interaction) → (f j).id ≡ j.id)
    → sound none (f i) ≡ true
    → IsSound (release id (change id f s))
unfolding release find_interaction phase_of first
ended-IsSound id p f i s h q e same good =
    let gone = released_job id p s.slot_free s.active_jobs h.one_job q in
    record {
      rows = rw gone (
          Rows-changed id f s.active_jobs [] i s.interactions
            (λ j other k. sound_released (phase_of j.id s.active_jobs) j k) good h.rows
            (one_row id s.interactions i h.unique e));
      unique = Unique-changed id f s.interactions same h.unique;
      one_job = rw gone tt;
    }

pub phase_set :
    (id : String) (p q : Phase) (free : Bool) (active : List Active)
    → OneJob free active
    → phase_of id active ≡ some p
    → phase_of id (set_phase id q active) ≡ some q
unfolding phase_of first update_where
phase_set id p q free active o h =
    let (f, (a, (e, (hit, r)))) = sole id p free active o h in rw (e, hit) (rw hit refl)
