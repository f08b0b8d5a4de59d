-- ===== src/Sorted/Without.antt =====
-- The items of a list that another list does not hold.
use rtrtr.Base.{
  ◌≡◌, refl, Bool, not, ◌&&◌, List, [], ◌∷◌, ◌++◌, arith, All, if◌then◌else◌, ap, true, false,
}
use rtrtr.Order.{Order, ◌≺◌, elem, IsSorted}
use rtrtr.Sorted.Elem.{eq_of_is_eq, is_eq_of_gt}

module _ {ℓ} {A : Type ℓ} where
  -- `filter` of an iterator.
  unfoldable pub select : (A → Bool) → List A → List A
  select p [] = []
  select p (x ∷ xs) = if p x then x ∷ select p xs else select p xs

  pub select-append :
      (p : A → Bool) (xs ys : List A) → select p (xs ++ ys) ≡ select p xs ++ select p ys
  unfolding select
  select-append p [] ys = refl
  select-append p (x ∷ xs) ys = ground (arith, select-append p xs ys)

  pub All-select {κ} :
      (P : A → Type κ) (p : A → Bool) (xs : List A) → All P xs → All P (select p xs)
  unfolding select
  All-select P p [] h = tt
  All-select P p (x ∷ xs) h = ground (arith, All-select P p xs h.1)

module _ {ℓ} {A : Type ℓ} ⦃o : Order A⦄ where
  pub select-IsSorted : (p : A → Bool) (xs : List A) → IsSorted xs → IsSorted (select p xs)
  unfolding select
  select-IsSorted p [] s = tt
  select-IsSorted p (x ∷ xs) s =
      ground (arith, select-IsSorted p xs s.1, All-select (λ y. x ≺ y) p xs s.0)

  pub elem-select : (p : A → Bool) (a : A) (xs : List A) → elem a (select p xs) ≡ p a && elem a xs
  unfolding select
  elem-select p a [] = ground arith
  elem-select p a (x ∷ xs) = ground (arith, elem-select p a xs, eq_of_is_eq a x)

  unfoldable pub without : List A → List A → List A
  unfolding select
  without ys = select (λ a. not (elem a ys))

  pub elem-without :
      (a : A) (ys xs : List A) → elem a (without ys xs) ≡ not (elem a ys) && elem a xs
  unfolding without
  elem-without a ys xs = elem-select (λ b. not (elem b ys)) a xs

  pub without-IsSorted : (ys xs : List A) → IsSorted xs → IsSorted (without ys xs)
  unfolding without
  without-IsSorted ys = select-IsSorted (λ a. not (elem a ys))

  pub without_nil : (xs : List A) → without [] xs ≡ xs
  unfolding without select
  without_nil [] = refl
  without_nil (x ∷ xs) = ap (◌∷◌ x) (without_nil xs)

  -- An item below all others takes nothing away from them.
  pub without_below :
      (x : A) (ys xs : List A) → All (λ z. x ≺ z) xs → without (x ∷ ys) xs ≡ without ys xs
  unfolding without select
  without_below x ys [] h = refl
  without_below x ys (z ∷ xs) h =
      rw (is_eq_of_gt z x h.0) (ground (arith, without_below x ys xs h.1))

  pub without-cons_out :
      (y : A) (ys xs : List A) → elem y xs ≡ false → without xs (y ∷ ys) ≡ y ∷ without xs ys
  unfolding without select
  without-cons_out y ys xs h = rw h

  pub without-cons_in :
      (y : A) (ys xs : List A) → elem y xs ≡ true → without xs (y ∷ ys) ≡ without xs ys
  unfolding without select
  without-cons_in y ys xs h = rw h

  pub without-of_nil : (xs : List A) → without xs [] ≡ []
  unfolding without select
  without-of_nil xs = refl
