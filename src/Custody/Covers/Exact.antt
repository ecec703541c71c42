-- ===== src/Custody/Covers/Exact.antt =====
-- `_covers` decides whether every millisecond of the span lies in some interval.
use aisle_signals.Common.{◌≡◌, ◌↔◌, inl, inr, true, List, [], ◌∷◌, arith, Any, All, Bool-cases}
use aisle_signals.Common.Int.{ℤ, ◌≤ℤ◌, ◌<ℤ◌, ltb_ℤ, leb_ℤ, max_ℤ, ltb_ℤ→lt, leb_ℤ→le, leb_ℤ→gt}
use aisle_signals.Custody.Covers.{sorted, sweep, covers}
use aisle_signals.Custody.Covers.Sorting.{
  IsAscending, Any-sorted_in, Any-sorted_out, sorted-IsAscending,
}

-- The millisecond from `t` on lies in the interval.
abbrev pub Within : ℤ → ℤ × ℤ → Type 0
Within t i = (i.0 ≤ℤ t) × (t <ℤ i.1)

sweep_sound :
    (cursor end : ℤ) (l : List (ℤ × ℤ)) (t : ℤ)
    → sweep cursor end l ≡ true
    → cursor ≤ℤ t
    → t <ℤ end
    → Any (Within t) l
unfolding sweep
sweep_sound cursor end [] t h from to = absurd (omega (arith, leb_ℤ→le end cursor h))
sweep_sound cursor end ((left, right) ∷ l) t h from to =
    ground (arith, sweep_sound cursor end l t, sweep_sound (max_ℤ cursor right) end l t)

-- Intervals that begin later than `t` do not hold it.
later_misses :
    (t : ℤ) (left : ℤ) (l : List (ℤ × ℤ))
    → t <ℤ left
    → All (λ b. left ≤ℤ b.0) l
    → Any (Within t) l
    → ⊥
later_misses t left [] lt all h = h
later_misses t left (a ∷ l) lt all (inl w) = omega (arith, w.0, all.0)
later_misses t left (a ∷ l) lt all (inr q) = later_misses t left l lt all.1 q

-- A hypothesis on every point of a span, restricted past an interval that ends before `cursor'`.
rest_of_span :
    (cursor end left right : ℤ) (l : List (ℤ × ℤ)) (cursor' : ℤ)
    → cursor ≤ℤ cursor'
    → right ≤ℤ cursor'
    → ((t : ℤ) → cursor ≤ℤ t → t <ℤ end → Any (Within t) ((left, right) ∷ l))
    → (t : ℤ) → cursor' ≤ℤ t
    → t <ℤ end
    → Any (Within t) l
rest_of_span cursor end left right l cursor' a b all t from to =
    elim (all t (omega (arith, a, from)) to) [
      | inl w ↦ absurd (omega (arith, w.1, b, from))
      | inr q ↦ q
    ]

sweep_complete :
    (cursor end : ℤ) (l : List (ℤ × ℤ))
    → IsAscending l
    → cursor <ℤ end
    → ((t : ℤ) → cursor ≤ℤ t → t <ℤ end → Any (Within t) l)
    → sweep cursor end l ≡ true
unfolding sweep
sweep_complete cursor end [] s lt all = absurd (all cursor (omega arith) lt)
sweep_complete cursor end ((left, right) ∷ l) s lt all = elim (Bool-cases (ltb_ℤ right cursor)) [
  | inl skip ↦ rw skip (
      sweep_complete cursor end l s.1 lt (
        rest_of_span cursor end left right l cursor (omega arith)
          (omega (arith, ltb_ℤ→lt right cursor skip)) all))
  | inr kept ↦ rw kept (elim (Bool-cases (ltb_ℤ cursor left)) [
    | inl gap ↦ absurd (elim (all cursor (omega arith) lt) [
      | inl w ↦ omega (arith, w.0, ltb_ℤ→lt cursor left gap)
      | inr q ↦ later_misses cursor left l (ltb_ℤ→lt cursor left gap) s.0 q
    ])
    | inr near ↦ rw near (elim (Bool-cases (leb_ℤ end (max_ℤ cursor right))) [
      | inl done ↦ rw done
      | inr more ↦ rw more (
          sweep_complete (max_ℤ cursor right) end l s.1 (leb_ℤ→gt end (max_ℤ cursor right) more) (
            rest_of_span cursor end left right l (max_ℤ cursor right) (ground arith) (ground arith)
              all))
    ])
  ])
]

-- Over a span that is not empty, `_covers` answers true exactly when every millisecond of the
-- span lies in one of the intervals, in whatever order the intervals are given.
pub covers_exact :
    (intervals : List (ℤ × ℤ)) (start end : ℤ)
    → start <ℤ end
    → (covers intervals start end ≡ true)
      ↔ ((t : ℤ) → start ≤ℤ t → t <ℤ end → Any (Within t) intervals)
unfolding covers
covers_exact intervals start end lt = (
  (λ h t from to.
      Any-sorted_out (Within t) intervals (sweep_sound start end (sorted intervals) t h from to)),
  (λ all.
      sweep_complete start end (sorted intervals) (sorted-IsAscending intervals) lt
        (λ t from to. Any-sorted_in (Within t) intervals (all t from to))),
)

-- Soundness alone needs no hypothesis on the span.
pub covers_sound :
    (intervals : List (ℤ × ℤ)) (start end t : ℤ)
    → covers intervals start end ≡ true
    → start ≤ℤ t
    → t <ℤ end
    → Any (Within t) intervals
unfolding covers
covers_sound intervals start end t h from to =
    Any-sorted_out (Within t) intervals (sweep_sound start end (sorted intervals) t h from to)
