-- ===== src/Interactions/Room.antt =====
-- What making room for a sample leaves in place.
use aisle_signals.Common.{
  ◌≡◌, ◌≢◌, refl, ℕ, ◌-◌, Bool, true, false, ◌&&◌, some, List, [], ◌∷◌, String, str_eq, eq_iff,
  Bool-cases, inl, inr, arith, All,
}
use aisle_signals.Common.Tables.{first, select, delete_where}
use aisle_signals.Interactions.Model.{
  Interaction, Service, Review, Outcome, pending, running, completed,
}
use aisle_signals.Interactions.Jobs.{
  has_id, drop, withdraw, may_roll_off, has_room, roll_off, make_room, of_site, find_interaction,
}
use aisle_signals.Interactions.Sound.{Unique, one_row}

other_found :
    (k id : String) (is : List Interaction) (j : Interaction)
    → str_eq k id ≡ false
    → first (has_id k) is ≡ some j
    → first (has_id k) (delete_where (has_id id) is) ≡ some j
unfolding first delete_where
other_found k id [] j n e = e
other_found k id (i ∷ is) j n e = elim (Bool-cases (has_id k i)) [
  | inl mine ↦
      let spared : has_id id i ≡ false =
        ground
          (arith, mine, n, eq_iff i.id k, eq_iff i.id id, eq_iff k id, Bool-cases (has_id id i)) in
      rw (spared, mine) (ground (arith, e, mine))
  | inr other ↦ elim (Bool-cases (has_id id i)) [
    | inl gone ↦ rw gone (other_found k id is j n (ground (arith, e, other)))
    | inr there ↦ rw (there, other) (other_found k id is j n (ground (arith, e, other)))
  ]
]

-- A row that the loop may remove is not the one with the identifier.
abbrev Spared : String → Interaction → Type 0
Spared k i = may_roll_off i ≡ true → str_eq k i.id ≡ false

rolled_found :
    (k : String) (rows : List Interaction) (count total : ℕ) (s : Service) (j : Interaction)
    → All (Spared k) rows
    → find_interaction k s ≡ some j
    → find_interaction k (roll_off rows count total s).1 ≡ some j
unfolding roll_off find_interaction
rolled_found k [] count total s j a e = e
rolled_found k (i ∷ rows) count total s j a e = elim (Bool-cases (has_room count total)) [
  | inl room ↦ rw (roll_off, room) e
  | inr full ↦ elim (Bool-cases (may_roll_off i)) [
    | inl low ↦
        rw (roll_off, full, low)
          (rolled_found k rows (count - 1) (total - 1)
            (drop i.id (withdraw i.id "LOCAL_EXPORT_REMOVED" s)) j a.1
            (other_found k i.id s.interactions j (a.0 low) e))
    | inr high ↦ rw (roll_off, full, high) (rolled_found k rows count total s j a.1 e)
  ]
]

Spared-rows :
    (k : String) (p : Interaction → Bool) (is : List Interaction) (j : Interaction)
    → (may_roll_off j && p j) ≡ false
    → All (λ i. has_id k i ≡ true → i ≡ j) is
    → All (Spared k) (select p is)
unfolding select
Spared-rows k p [] j n o = tt
Spared-rows k p (i ∷ is) j n o = elim (Bool-cases (p i)) [
  | inr out ↦ rw out (Spared-rows k p is j n o.1)
  | inl in' ↦ rw in' (
    (λ low. elim (Bool-cases (str_eq k i.id)) [
      | inr other ↦ other
      | inl own ↦
          let same = o.0 (ground (arith, own, eq_iff k i.id, eq_iff i.id k)) in
          absurd (cc (same, low, in', n))
    ]),
    Spared-rows k p is j n o.1,
  )
]

-- Why an interaction is not to be removed for a sample of the branch: it is of another branch, was
-- reviewed, is still analysed, or is completed with a result that shows a possible concealment or may
-- raise an alarm.
pub data IsProtected (organisation_id site_id : String) (j : Interaction) : Type 0 where
  of_another_organisation :
      j.organisation_id ≢ organisation_id → IsProtected organisation_id site_id j
  of_another_site : j.site_id ≢ site_id → IsProtected organisation_id site_id j
  reviewed : (r : Review) → j.review ≡ some r → IsProtected organisation_id site_id j
  waiting : j.status ≡ pending → IsProtected organisation_id site_id j
  analysed : j.status ≡ running → IsProtected organisation_id site_id j
  suspicious :
      (r : Outcome)
      → j.status ≡ completed
      → j.result ≡ some r
      → r.action ≡ "POSSIBLE_CONCEALMENT"
      → IsProtected organisation_id site_id j
  alarming :
      (r : Outcome)
      → j.status ≡ completed
      → j.result ≡ some r
      → r.alarm_eligible ≡ true
      → IsProtected organisation_id site_id j

protected_stays :
    (organisation_id site_id : String) (j : Interaction)
    → IsProtected organisation_id site_id j
    → (may_roll_off j && of_site organisation_id site_id j) ≡ false
protected_stays o s j (of_another_organisation h) = ground (arith, h, eq_iff j.organisation_id o)
protected_stays o s j (of_another_site h) = ground (arith, h, eq_iff j.site_id s)
protected_stays o s j (reviewed r e) = rw e refl
protected_stays o s j (waiting e) = rw e (ground arith)
protected_stays o s j (analysed e) = rw e (ground arith)
protected_stays o s j (suspicious r e f g) = rw (e, f, g) (ground arith)
protected_stays o s j (alarming r e f g) = rw (e, f, g) (ground arith)

-- Making room never removes evidence that is protected: an interaction that was reviewed, one that
-- is still analysed, a completed one that shows a possible concealment or may raise an alarm, and any
-- of another branch is found afterwards as it was.
pub protected_kept :
    (organisation_id site_id k : String) (s : Service) (j : Interaction)
    → Unique s.interactions
    → find_interaction k s ≡ some j
    → IsProtected organisation_id site_id j
    → find_interaction k (make_room organisation_id site_id s).1 ≡ some j
unfolding make_room find_interaction
protected_kept organisation_id site_id k s j u e p =
    let n = protected_stays organisation_id site_id j p in
    rolled_found k (select (of_site organisation_id site_id) s.interactions) _ _ s j
      (Spared-rows k (of_site organisation_id site_id) s.interactions j n
        (one_row k s.interactions j u e))
      e
