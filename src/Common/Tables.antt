-- ===== src/Common/Tables.antt =====
-- The statements of SQL on a table, a list of its rows, and what they keep.
use mathlib.Core.Path.{◌≡◌, refl, subst}
use mathlib.Core.Logic.{◌⊎◌, inl, inr}
use mathlib.Core.Bool.{Bool, true, false, ◌&&◌, ◌||◌, not}
use mathlib.Core.Option.{Option, none, some}
use mathlib.Core.List.{List, [], ◌∷◌, ◌++◌}
use native.Mathlib.Omega.{arith}
use aisle_signals.Common.Tests.{if◌then◌else◌, Bool-cases}
use aisle_signals.Common.Lists.{All}

-- The first row that a test selects.
unfoldable pub first {ℓ} : {A : Type ℓ} → (A → Bool) → List A → Option A
first p [] = none
first p (x ∷ xs) = if p x then some x else first p xs

-- `UPDATE … WHERE`
unfoldable pub update_where {ℓ} : {A : Type ℓ} → (A → Bool) → (A → A) → List A → List A
update_where p f [] = []
update_where p f (x ∷ xs) = (if p x then f x else x) ∷ update_where p f xs

-- `DELETE … WHERE`
unfoldable pub delete_where {ℓ} : {A : Type ℓ} → (A → Bool) → List A → List A
delete_where p [] = []
delete_where p (x ∷ xs) = let rest = delete_where p xs in if p x then rest else x ∷ rest

-- `SELECT 1 … WHERE … LIMIT 1`
unfoldable pub has_row {ℓ} : {A : Type ℓ} → (A → Bool) → List A → Bool
has_row p [] = false
has_row p (x ∷ xs) = p x || has_row p xs

-- `SELECT … WHERE …`
unfoldable pub select {ℓ} : {A : Type ℓ} → (A → Bool) → List A → List A
select p [] = []
select p (x ∷ xs) = let rest = select p xs in if p x then x ∷ rest else rest

module _ {ℓ} {A : Type ℓ} where
  -- Every row that the one test selects is a row that the other selects.
  abbrev pub Implies : (A → Bool) → (A → Bool) → Type ℓ
  Implies p q = (x : A) → p x ≡ true → q x ≡ true

  pub has_row-weaken :
      {p q : A → Bool} (xs : List A) → Implies p q → has_row p xs ≡ true → has_row q xs ≡ true
  unfolding has_row
  has_row-weaken [] h e = e
  has_row-weaken {p} {q} (x ∷ xs) h e = elim (Bool-cases (p x)) [
    | inl t ↦ rw (h x t) refl
    | inr f ↦ let rest = has_row-weaken xs h (ground (arith, e, f)) in ground (arith, rest)
  ]

  pub has_row-append_left :
      (p : A → Bool) (xs ys : List A) → has_row p xs ≡ true → has_row p (xs ++ ys) ≡ true
  unfolding has_row
  has_row-append_left p [] ys e = absurd (cc e)
  has_row-append_left p (x ∷ xs) ys e = elim (Bool-cases (p x)) [
    | inl t ↦ rw t refl
    | inr f ↦ let rest = has_row-append_left p xs ys (ground (arith, e, f)) in ground (arith, rest)
  ]

  -- A row that the test selects and the deletion spares.
  pub has_row-delete_where :
      (p : A → Bool) (d : A → Bool) (xs : List A)
      → has_row (λ x. p x && not (d x)) xs ≡ true
      → has_row p (delete_where d xs) ≡ true
  unfolding has_row delete_where
  has_row-delete_where p d [] e = e
  has_row-delete_where p d (x ∷ xs) e = elim (Bool-cases (d x)) [
    | inl gone ↦ rw gone (has_row-delete_where p d xs (ground (arith, e, gone)))
    | inr there ↦ rw there (elim (Bool-cases (p x)) [
      | inl t ↦ rw t refl
      | inr f ↦ rw f (has_row-delete_where p d xs (ground (arith, e, f)))
    ])
  ]

  pub has_row-update_where :
      (p q : A → Bool) (hit : A → Bool) (f : A → A) (xs : List A)
      → Implies p (λ x. q (if hit x then f x else x))
      → has_row p xs ≡ true
      → has_row q (update_where hit f xs) ≡ true
  unfolding has_row update_where
  has_row-update_where p q hit f [] k e = e
  has_row-update_where p q hit f (x ∷ xs) k e = elim (Bool-cases (p x)) [
    | inl t ↦ rw (k x t) refl
    | inr n ↦
        let rest = has_row-update_where p q hit f xs k (ground (arith, e, n)) in
        rw rest (ground arith)
  ]

  -- A selected row either passes another test or does not.
  pub has_row-split :
      (p q : A → Bool) (xs : List A)
      → has_row p xs ≡ true
      → (has_row (λ x. p x && q x) xs ≡ true) ⊎ (has_row (λ x. p x && not (q x)) xs ≡ true)
  unfolding has_row
  has_row-split p q [] e = inl e
  has_row-split p q (x ∷ xs) e = elim (Bool-cases (p x)) [
    | inl t ↦ elim (Bool-cases (q x)) [
      | inl u ↦ inl (rw (t, u) refl)
      | inr u ↦ inr (rw (t, u) refl)
    ]
    | inr n ↦ elim (has_row-split p q xs (ground (arith, e, n))) [
      | inl a ↦ inl (rw a (ground arith))
      | inr b ↦ inr (rw b (ground arith))
    ]
  ]

  pub has_row-select :
      (p : A → Bool) (xs : List A) → has_row (λ x. true) (select p xs) ≡ has_row p xs
  unfolding has_row select
  has_row-select p [] = refl
  has_row-select p (x ∷ xs) = elim (Bool-cases (p x)) [
    | inl t ↦ rw t refl
    | inr n ↦ rw n (has_row-select p xs)
  ]

  pub first-selected : (p : A → Bool) (xs : List A) (x : A) → first p xs ≡ some x → p x ≡ true
  unfolding first
  first-selected p [] x e = absurd (cc e)
  first-selected p (y ∷ ys) x e = elim (Bool-cases (p y)) [
    | inl t ↦ ground (arith, e, t)
    | inr n ↦ first-selected p ys x (ground (arith, e, n))
  ]

  pub first-has_row :
      (p : A → Bool) (xs : List A) (x : A) → first p xs ≡ some x → has_row p xs ≡ true
  unfolding first has_row
  first-has_row p [] x e = absurd (cc e)
  first-has_row p (y ∷ ys) x e = elim (Bool-cases (p y)) [
    | inl t ↦ rw t refl
    | inr n ↦ let rest = first-has_row p ys x (ground (arith, e, n)) in rw rest (ground arith)
  ]

  pub All-delete_where :
      (P : A → Type 0) (d : A → Bool) (xs : List A) → All P xs → All P (delete_where d xs)
  unfolding delete_where
  All-delete_where P d [] h = tt
  All-delete_where P d (x ∷ xs) h = elim (Bool-cases (d x)) [
    | inl gone ↦ rw gone (All-delete_where P d xs h.1)
    | inr there ↦ rw there (h.0, All-delete_where P d xs h.1)
  ]

  -- What is left after a deletion is not what was deleted.
  pub delete_where-spares :
      (d : A → Bool) (xs : List A) → All (λ x. d x ≡ false) (delete_where d xs)
  unfolding delete_where
  delete_where-spares d [] = tt
  delete_where-spares d (x ∷ xs) = elim (Bool-cases (d x)) [
    | inl gone ↦ rw gone (delete_where-spares d xs)
    | inr there ↦ rw there (there, delete_where-spares d xs)
  ]

  pub All-update_where :
      (P Q : A → Type 0) (hit : A → Bool) (f : A → A) (xs : List A)
      → ((x : A) → P x → Q (if hit x then f x else x))
      → All P xs
      → All Q (update_where hit f xs)
  unfolding update_where
  All-update_where P Q hit f [] k h = tt
  All-update_where P Q hit f (x ∷ xs) k h = (k x h.0, All-update_where P Q hit f xs k h.1)

  pub first-All :
      (P : A → Type 0) (p : A → Bool) (xs : List A) (x : A) → All P xs → first p xs ≡ some x → P x
  unfolding first
  first-All P p [] x h e = absurd (cc e)
  first-All P p (y ∷ ys) x h e = elim (Bool-cases (p y)) [
    | inl t ↦ subst P (ground (arith, e, t)) h.0
    | inr n ↦ first-All P p ys x h.1 (ground (arith, e, n))
  ]
