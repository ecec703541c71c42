-- ===== src/Custody/Covers.antt =====
-- `ProductCustodyEngine._covers`: do observed intervals cover a span without a gap?
mod Sorting
pub mod Exact
use aisle_signals.Common.{Bool, true, false, ◌&&◌, ◌||◌, List, [], ◌∷◌, if◌then◌else◌}
use aisle_signals.Common.Int.{ℤ, ltb_ℤ, leb_ℤ, eqb_ℤ, max_ℤ}

-- The order of Python's tuples.
abbrev pub interval_leb : ℤ × ℤ → ℤ × ℤ → Bool
interval_leb a b = ltb_ℤ a.0 b.0 || (eqb_ℤ a.0 b.0 && leb_ℤ a.1 b.1)

unfoldable pub insert : ℤ × ℤ → List (ℤ × ℤ) → List (ℤ × ℤ)
insert a [] = a ∷ []
insert a (b ∷ l) = if interval_leb a b then a ∷ b ∷ l else b ∷ insert a l

-- `sorted`
unfoldable pub sorted : List (ℤ × ℤ) → List (ℤ × ℤ)
unfolding insert
sorted [] = []
sorted (a ∷ l) = insert a (sorted l)

-- The loop, from its cursor.
unfoldable pub sweep : ℤ → ℤ → List (ℤ × ℤ) → Bool
sweep cursor end [] = leb_ℤ end cursor
sweep cursor end ((left, right) ∷ l) =
    let skipped = sweep cursor end l in
    let rest = sweep (max_ℤ cursor right) end l in
    if ltb_ℤ right cursor
    then skipped
    else if ltb_ℤ cursor left
    then false
    else if leb_ℤ end (max_ℤ cursor right)
    then true
    else rest

unfoldable pub covers : List (ℤ × ℤ) → ℤ → ℤ → Bool
unfolding sorted sweep
covers intervals start end = sweep start end (sorted intervals)
