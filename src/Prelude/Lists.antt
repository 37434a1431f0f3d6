-- ===== src/Prelude/Lists.antt =====
-- Lists measured by native numbers, and the queries of a table that is a list of rows.
use Prim.Native.Nat.{ℕ, zero, suc, ◌+◌, ◌≤◌}
use mathlib.Core.Path.{◌≡◌, refl, subst}
use mathlib.Core.Bool.{Bool, true, false, ◌||◌}
use mathlib.Core.Option.{Option, none, some}
use mathlib.Core.List.{List, [], ◌∷◌, ◌++◌}
use mathlib.Core.Logic.{inl, inr}
use native.Mathlib.Omega.{arith}
use forex_remote_copy_tradin.Prelude.Tests.{if◌then◌else◌, Bool-cases}

module _ {ℓ} {A : Type ℓ} where
  abbrev pub length : List A → ℕ
  length [] = 0
  length (x ∷ xs) = suc (length xs)

  pub length-append : (xs ys : List A) → length (xs ++ ys) ≡ length xs + length ys
  length-append [] ys = omega arith
  length-append (x ∷ xs) ys = omega (arith, length-append xs ys)

  -- `xs.some(p)`
  abbrev pub any : (A → Bool) → List A → Bool
  any p [] = false
  any p (x ∷ xs) = p x || any p xs

  -- `xs.filter(p)`, and the rows that a `where` selects
  abbrev pub filter_by : (A → Bool) → List A → List A
  filter_by p [] = []
  filter_by p (x ∷ xs) = if p x then x ∷ filter_by p xs else filter_by p xs

  -- the first row that a `where` selects
  abbrev pub find_first : (A → Bool) → List A → Option A
  find_first p [] = none
  find_first p (x ∷ xs) = if p x then some x else find_first p xs

  -- the last row that a `where` selects
  abbrev pub find_last : (A → Bool) → List A → Option A
  find_last p [] = none
  find_last p (x ∷ xs) =
      let later = find_last p xs in
      elim later [ none ↦ if p x then some x else none | some y ↦ some y ]

  -- the rows that a `where` selects, changed
  abbrev pub update_where : (A → Bool) → (A → A) → List A → List A
  update_where p f [] = []
  update_where p f (x ∷ xs) = (if p x then f x else x) ∷ update_where p f xs

  abbrev pub count_where : (A → Bool) → List A → ℕ
  count_where p [] = 0
  count_where p (x ∷ xs) = (if p x then 1 else 0) + count_where p xs

-- A predicate that holds at every element.
abbrev pub All {ℓ κ} : {A : Type ℓ} → (A → Type κ) → List A → Type κ
All P [] = Unit
All P (x ∷ xs) = P x × All P xs

module _ {ℓ} {A : Type ℓ} where
  pub find_first-eq_some :
      (p : A → Bool) (xs : List A) {x : A} → find_first p xs ≡ some x → p x ≡ true
  find_first-eq_some p [] h = cc
  find_first-eq_some p (y ∷ xs) {x} h = ground (arith, find_first-eq_some p xs {x = x})

  pub All-find_first {κ} :
      (P : A → Type κ) (p : A → Bool) (xs : List A) {x : A}
      → All P xs
      → find_first p xs ≡ some x
      → P x
  All-find_first P p [] a h = cc
  All-find_first P p (y ∷ xs) {x} (a, rest) h = elim (Bool-cases (p y)) [
    | inl e ↦ subst P (ground arith) a
    | inr e ↦ All-find_first P p xs rest (ground arith)
  ]

  pub All-filter_by {κ} :
      (P : A → Type κ) (p : A → Bool) (xs : List A) → All P xs → All P (filter_by p xs)
  All-filter_by P p [] a = tt
  All-filter_by P p (y ∷ xs) (a, rest) = ground (arith, All-filter_by P p xs rest)

module _ {ℓ} {A : Type ℓ} where
  -- `xs.slice(0, n)`, and the `take` of a query
  abbrev pub take : ℕ → List A → List A
  take n [] = []
  take zero (x ∷ xs) = []
  take (suc n) (x ∷ xs) = x ∷ take n xs

  -- a copy of the list with the first element that satisfies the test replaced
  abbrev pub replace_first : (A → Bool) → A → List A → List A
  replace_first p y [] = []
  replace_first p y (x ∷ xs) = if p x then y ∷ xs else x ∷ replace_first p y xs

  pub length-take : (n : ℕ) (xs : List A) → length (take n xs) ≤ n
  length-take n [] = omega arith
  length-take zero (x ∷ xs) = omega arith
  length-take (suc n) (x ∷ xs) = omega (arith, length-take n xs)

  pub length-take_le : (n : ℕ) (xs : List A) → length (take n xs) ≤ length xs
  length-take_le n [] = omega arith
  length-take_le zero (x ∷ xs) = omega arith
  length-take_le (suc n) (x ∷ xs) = omega (arith, length-take_le n xs)

  pub length-replace_first :
      (p : A → Bool) (y : A) (xs : List A) → length (replace_first p y xs) ≡ length xs
  length-replace_first p y [] = refl
  length-replace_first p y (x ∷ xs) = ground (arith, length-replace_first p y xs)

  -- What is found in the first elements is found in the list.
  pub find_first-take :
      (p : A → Bool) (n : ℕ) (xs : List A) {x : A}
      → find_first p (take n xs) ≡ some x
      → find_first p xs ≡ some x
  find_first-take p n [] h = h
  find_first-take p zero (y ∷ xs) h = absurd (cc)
  find_first-take p (suc n) (y ∷ xs) {x} h = ground (arith, find_first-take p n xs {x = x})

  pub find_first-replace_first :
      (p : A → Bool) (y : A) (xs : List A) {x : A}
      → find_first p xs ≡ some x
      → p y ≡ true
      → find_first p (replace_first p y xs) ≡ some y
  find_first-replace_first p y [] h hit = absurd (cc)
  find_first-replace_first p y (z ∷ xs) {x} h hit =
      ground (arith, find_first-replace_first p y xs {x = x})

  -- A replacement is not seen by a test that both elements fail.
  pub find_first-replace_first_others :
      (p q : A → Bool) (y : A) (xs : List A)
      → ((x : A) → p x ≡ true → q x ≡ false)
      → q y ≡ false
      → find_first q (replace_first p y xs) ≡ find_first q xs
  find_first-replace_first_others p q y [] other miss = refl
  find_first-replace_first_others p q y (x ∷ xs) other miss =
      ground (arith, find_first-replace_first_others p q y xs other miss, other x)
