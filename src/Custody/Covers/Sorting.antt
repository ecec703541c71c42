-- ===== src/Custody/Covers/Sorting.antt =====
-- The insertion sort of the intervals: it keeps its elements and orders them by their left ends.
use aisle_signals.Common.{
  ◌≡◌, ◌⊎◌, inl, inr, true, false, List, [], ◌∷◌, arith, Any, All, All-map, Bool-cases,
}
use aisle_signals.Common.Int.{ℤ, ◌≤ℤ◌}
use aisle_signals.Custody.Covers.{interval_leb, insert, sorted}

abbrev pub IsAscending : List (ℤ × ℤ) → Type 0
IsAscending [] = Unit
IsAscending (a ∷ l) = All (λ b. a.0 ≤ℤ b.0) l × IsAscending l

interval_leb→le : (a b : ℤ × ℤ) → interval_leb a b ≡ true → a.0 ≤ℤ b.0
interval_leb→le a b h = ground arith

interval_leb→ge : (a b : ℤ × ℤ) → interval_leb a b ≡ false → b.0 ≤ℤ a.0
interval_leb→ge a b h = ground arith

module _ (P : ℤ × ℤ → Type 0) where
  Any-insert_in : (a : ℤ × ℤ) (l : List (ℤ × ℤ)) → P a ⊎ Any P l → Any P (insert a l)
  unfolding insert
  Any-insert_in a [] h = h
  Any-insert_in a (b ∷ l) h = elim (Bool-cases (interval_leb a b)) [
    | inl le ↦ rw le h
    | inr gt ↦ rw gt (elim h [
      | inl p ↦ inr (Any-insert_in a l (inl p))
      | inr (inl q) ↦ inl q
      | inr (inr q) ↦ inr (Any-insert_in a l (inr q))
    ])
  ]

  Any-insert_out : (a : ℤ × ℤ) (l : List (ℤ × ℤ)) → Any P (insert a l) → P a ⊎ Any P l
  unfolding insert
  Any-insert_out a [] h = h
  Any-insert_out a (b ∷ l) h = elim (Bool-cases (interval_leb a b)) [
    | inl le ↦ rw le at h
    | inr gt ↦
        let h' : P b ⊎ Any P (insert a l) = rw gt at h in
        elim h' [
          | inl q ↦ inr (inl q)
          | inr q ↦ elim (Any-insert_out a l q) [ inl p ↦ inl p | inr r ↦ inr (inr r) ]
        ]
  ]

  pub Any-sorted_in : (l : List (ℤ × ℤ)) → Any P l → Any P (sorted l)
  unfolding sorted
  Any-sorted_in [] h = h
  Any-sorted_in (a ∷ l) (inl p) = Any-insert_in a (sorted l) (inl p)
  Any-sorted_in (a ∷ l) (inr q) = Any-insert_in a (sorted l) (inr (Any-sorted_in l q))

  pub Any-sorted_out : (l : List (ℤ × ℤ)) → Any P (sorted l) → Any P l
  unfolding sorted
  Any-sorted_out [] h = h
  Any-sorted_out (a ∷ l) h = elim (Any-insert_out a (sorted l) h) [
    | inl p ↦ inl p
    | inr q ↦ inr (Any-sorted_out l q)
  ]

  All-insert : (a : ℤ × ℤ) (l : List (ℤ × ℤ)) → P a → All P l → All P (insert a l)
  unfolding insert
  All-insert a [] p h = (p, tt)
  All-insert a (b ∷ l) p h = elim (Bool-cases (interval_leb a b)) [
    | inl le ↦ rw le (p, h)
    | inr gt ↦ rw gt (h.0, All-insert a l p h.1)
  ]

insert-IsAscending : (a : ℤ × ℤ) (l : List (ℤ × ℤ)) → IsAscending l → IsAscending (insert a l)
unfolding insert
insert-IsAscending a [] h = (tt, tt)
insert-IsAscending a (b ∷ l) h = elim (Bool-cases (interval_leb a b)) [
  | inl le ↦
      let first = interval_leb→le a b le in
      rw le ((first, All-map (λ c (k : b.0 ≤ℤ c.0). omega (arith, first)) l h.0), h)
  | inr gt ↦
      rw gt
        (All-insert (λ c. b.0 ≤ℤ c.0) a l (interval_leb→ge a b gt) h.0, insert-IsAscending a l h.1)
]

pub sorted-IsAscending : (l : List (ℤ × ℤ)) → IsAscending (sorted l)
unfolding sorted
sorted-IsAscending [] = tt
sorted-IsAscending (a ∷ l) = insert-IsAscending a (sorted l) (sorted-IsAscending l)
