-- ===== src/Interactions/Steps.antt =====
-- The steps of jobs and requests keep every interaction sound.
use mathlib.Core.Path.{subst}
use aisle_signals.Common.{
  ◌≡◌, refl, sym, ℕ, true, ◌&&◌, ◌||◌, not, Option, some, List, [], ◌∷◌, ◌++◌, String, Bool-cases,
  Option-cases, inl, inr, arith,
}
use aisle_signals.Common.Tables.{All-delete_where}
use aisle_signals.Interactions.Model.{
  failed, cancelled, Interaction, Outcome, Review, Phase, starting, analysing, Service, Moment,
  is_open, is_completed, is_cancelled, is_some, is_expired,
}
use aisle_signals.Interactions.Jobs.{
  has_id, is_job, find_interaction, change, ended, may_run, job_cancelled, release, set_phase,
  started, begin, finished, finish, fail, abandon, signal, cancel, reviewed, version_fits, review,
  linked, may_link, link_case, drop, delete,
}
use aisle_signals.Interactions.Sound.{phase_of, sound, IsSound, Rows-kept, Unique-dropped}
use aisle_signals.Interactions.Phases.{
  phase_updated, release-IsSound, changed-IsSound, found_sound, kept-IsSound, cancelled_sound,
  open_job, one_updated, open_not_completed, signalled, ended-IsSound, phase_set,
}

pub cancel-IsSound : (id : String) (s : Service) → IsSound s → IsSound (cancel id s)
unfolding cancel
cancel-IsSound id s h = elim (Option-cases (find_interaction id s)) [
  | inl n ↦ rw (cancel, n) h
  | inr (i, e) ↦ elim (Bool-cases (is_open i.status)) [
    | inr over ↦ rw (cancel, e, over) h
    | inl on ↦
        rw (cancel, e, on)
          (changed-IsSound id _ (signal id s.active_jobs) i s h e (λ j. refl)
            (one_updated s.slot_free (is_job id) _ s.active_jobs h.one_job)
            (λ k n. signalled k id s.active_jobs)
            (subst
              (λ p.
                sound p
                  (ended cancelled "Analysis was cancelled. No classification was published." i)
                ≡ true)
              (sym (signalled id id s.active_jobs))
              (cancelled_sound (phase_of id s.active_jobs)
                "Analysis was cancelled. No classification was published." i
                (found_sound id i s h e) (open_not_completed i.status on))))
  ]
]

pub fail-IsSound :
    (id message : String) (p : Phase) (s : Service)
    → IsSound s
    → phase_of id s.active_jobs ≡ some p
    → IsSound (fail id message s)
unfolding fail
fail-IsSound id message p s h q = elim (Option-cases (find_interaction id s)) [
  | inl n ↦ rw (fail, n) (release-IsSound id p s h q)
  | inr (i, e) ↦ elim (Bool-cases (is_cancelled i.status || is_completed i.status)) [
    | inl over ↦ rw (fail, e, over) (release-IsSound id p s h q)
    | inr on ↦
        rw (fail, e, on)
          (let k = found_sound id i s h e in
            ended-IsSound id p (ended failed message) i s h q e (λ j. refl) (ground (arith, k, on)))
  ]
]

publishing :
    (id : String) (ids : List String) (s : Service)
    → IsSound (release id s)
    → IsSound (release id (record s { published = ids }))
unfolding release
publishing id ids s h = record { rows = h.rows; unique = h.unique; one_job = h.one_job }

pub finish-IsSound :
    (m : Moment) (id : String) (r : Outcome) (p : Phase) (s : Service)
    → IsSound s
    → phase_of id s.active_jobs ≡ some p
    → IsSound (finish m id r s)
unfolding finish
finish-IsSound m id r p s h q = elim (Option-cases (find_interaction id s)) [
  | inl n ↦ rw (finish, n) (release-IsSound id p s h q)
  | inr (i, e) ↦
      let k = found_sound id i s h e in
      let fresh = open_job p i (subst (λ o. sound o i ≡ true) q k) in
      elim (Bool-cases (is_cancelled i.status)) [
        | inl over ↦ rw (finish, e, over) (release-IsSound id p s h q)
        | inr on ↦ elim (Bool-cases (is_expired m.stamp i || s.closed || not (may_run m s i))) [
          | inl stop ↦
              rw (finish, e, on, stop)
                (ended-IsSound id p (ended cancelled _) i s h q e (λ j. refl)
                  (ground (arith, k, fresh)))
          | inr go ↦
              rw (finish, e, on, go)
                (publishing id (s.published ++ id ∷ []) (change id (finished r) s) (
                  ended-IsSound id p (finished r) i s h q e (λ j. refl) (ground (arith, k, fresh))))
        ]
      ]
]

pub begin-IsSound :
    (m : Moment) (id : String) (s : Service)
    → IsSound s
    → phase_of id s.active_jobs ≡ some starting
    → IsSound (begin m id s)
unfolding begin
begin-IsSound m id s h q = elim (Option-cases (find_interaction id s)) [
  | inl n ↦ rw (begin, n) (release-IsSound id starting s h q)
  | inr (i, e) ↦
      let k = found_sound id i s h e in
      let fresh = open_job starting i (subst (λ o. sound o i ≡ true) q k) in
      elim (Bool-cases (is_cancelled i.status || is_expired m.stamp i)) [
        | inl over ↦ rw (begin, e, over) (release-IsSound id starting s h q)
        | inr on ↦ elim (Bool-cases (not (may_run m s i))) [
          | inl stop ↦
              rw (begin, e, on, stop)
                (ended-IsSound id starting (ended cancelled _) i s h q e (λ j. refl)
                  (ground (arith, k, fresh)))
          | inr go ↦
              rw (begin, e, on, go)
                (changed-IsSound id started (set_phase id analysing s.active_jobs) i s h e
                  (λ j. refl) (one_updated s.slot_free (is_job id) _ s.active_jobs h.one_job)
                  (λ k n.
                    phase_updated k id _ s.active_jobs (λ a. refl) (λ a t. absurd (cc (n, t))))
                  (rw (phase_set id starting analysing s.slot_free s.active_jobs h.one_job q)
                    (ground (arith, k, fresh, on))))
        ]
      ]
]

pub abandon-IsSound :
    (id : String) (p : Phase) (s : Service)
    → IsSound s
    → phase_of id s.active_jobs ≡ some p
    → IsSound (abandon id s)
unfolding abandon
abandon-IsSound id p s h q = elim (Bool-cases (job_cancelled id s || s.closed)) [
  | inl stop ↦ rw (abandon, stop) (release-IsSound id p s h q)
  | inr go ↦ rw (abandon, go) h
]

reviewed-sound :
    (p : Option Phase) (r : Review) (i : Interaction)
    → sound p i ≡ true
    → is_completed i.status ≡ true
    → sound p (reviewed r i) ≡ true
reviewed-sound p r i h c = ground (arith, h, c)

linked-sound :
    (p : Option Phase) (incident : String) (i : Interaction)
    → sound p i ≡ true
    → (is_completed i.status ≡ true) × (is_some i.review ≡ true)
    → sound p (linked incident i) ≡ true
linked-sound p incident i h c = ground (arith, h, c)

pub review-IsSound :
    (id : String) (expected : Option ℕ) (r : Review) (s s' : Service)
    → IsSound s
    → review id expected r s ≡ some s'
    → IsSound s'
unfolding review
review-IsSound id expected r s s' h g = elim (Option-cases (find_interaction id s)) [
  | inl n ↦ absurd (ground (arith, n, g))
  | inr (i, e) ↦ elim (Bool-cases (is_completed i.status && version_fits expected i)) [
    | inr refused ↦ absurd (ground (arith, e, refused, g))
    | inl fits ↦
        let same : change id (reviewed r) s ≡ s' = ground (arith, e, fits, g) in
        subst IsSound same (
          kept-IsSound id (reviewed r) i s h e (λ j. refl)
            (reviewed-sound (phase_of id s.active_jobs) r i (found_sound id i s h e)
              (ground (arith, fits))))
  ]
]

pub link-IsSound :
    (id : String) (expected : ℕ) (incident : String) (s s' : Service)
    → IsSound s
    → link_case id expected incident s ≡ some s'
    → IsSound s'
unfolding link_case
link-IsSound id expected incident s s' h g = elim (Option-cases (find_interaction id s)) [
  | inl n ↦ absurd (ground (arith, n, g))
  | inr (i, e) ↦ elim (Bool-cases (may_link expected i)) [
    | inr refused ↦ absurd (ground (arith, e, refused, g))
    | inl fits ↦
        let same : change id (linked incident) s ≡ s' = ground (arith, e, fits, g) in
        subst IsSound same (
          kept-IsSound id (linked incident) i s h e (λ j. refl)
            (linked-sound (phase_of id s.active_jobs) incident i (found_sound id i s h e)
              (ground (arith, fits), ground (arith, fits))))
  ]
]

pub dropped-IsSound :
    (id : String) (calls : List (String × String)) (s : Service)
    → IsSound s
    → IsSound (drop id (record s { withdrawn = calls }))
dropped-IsSound id calls s h = record {
  rows =
      All-delete_where (λ i. sound (phase_of i.id s.active_jobs) i ≡ true) (has_id id)
        s.interactions h.rows;
  unique = Unique-dropped id s.interactions h.unique;
  one_job = h.one_job;
}

pub delete-IsSound : (id : String) (s : Service) → IsSound s → IsSound (delete id s)
unfolding delete
delete-IsSound id s h = record {
  rows =
      All-delete_where (λ i. sound (phase_of i.id (signal id s.active_jobs)) i ≡ true) (has_id id)
        s.interactions
        (Rows-kept s.active_jobs (signal id s.active_jobs) s.interactions
          (λ j k. subst (λ p. sound p j ≡ true) (sym (signalled j.id id s.active_jobs)) k) h.rows);
  unique = Unique-dropped id s.interactions h.unique;
  one_job = one_updated s.slot_free (is_job id) _ s.active_jobs h.one_job;
}
