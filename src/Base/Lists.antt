-- ===== src/Base/Lists.antt =====
-- Lists measured, indexed and cut by native numbers, and predicates on all their items.
use Prim.Native.Nat.{ℕ, zero, suc, ◌+◌, ◌≤◌, ◌<◌}
use mathlib.Core.Path.{◌≡◌, refl, ap}
use mathlib.Core.List.{List, [], ◌∷◌, ◌++◌}
use mathlib.Core.Option.{Option, none, some}
use native.Mathlib.Omega.{arith}

module _ {ℓ} {A : Type ℓ} where
  abbrev pub length : List A → ℕ
  length [] = 0
  length (x ∷ xs) = suc (length xs)

  abbrev pub get_elem? : List A → ℕ → Option A
  get_elem? [] i = none
  get_elem? (x ∷ xs) zero = some x
  get_elem? (x ∷ xs) (suc i) = get_elem? xs i

  abbrev pub head? : List A → Option A
  head? [] = none
  head? (x ∷ xs) = some x

  abbrev pub take : ℕ → List A → List A
  take zero xs = []
  take (suc n) [] = []
  take (suc n) (x ∷ xs) = x ∷ take n xs

  abbrev pub drop : ℕ → List A → List A
  drop zero xs = xs
  drop (suc n) [] = []
  drop (suc n) (x ∷ xs) = drop n xs

  pub length-append : (xs ys : List A) → length (xs ++ ys) ≡ length xs + length ys
  length-append [] ys = omega arith
  length-append (x ∷ xs) ys = omega (arith, length-append xs ys)

  -- The items with an index from `a` on and below `b`.
  unfoldable pub slice : List A → ℕ → ℕ → List A
  slice xs zero b = take b xs
  slice [] (suc a) b = []
  slice (x ∷ xs) (suc a) zero = []
  slice (x ∷ xs) (suc a) (suc b) = slice xs a b

  abbrev pub All {κ} : (A → Type κ) → List A → Type κ
  All P [] = Unit
  All P (x ∷ xs) = P x × All P xs

module _ {ℓ} {A : Type ℓ} where
  pub get_elem?-lt : (xs : List A) (i : ℕ) → i < length xs → (x : A) × (get_elem? xs i ≡ some x)
  get_elem?-lt [] i h = elim h [ ]
  get_elem?-lt (x ∷ xs) zero h = (x, refl)
  get_elem?-lt (x ∷ xs) (suc i) h = get_elem?-lt xs i (omega arith)

  pub lt_of_get_elem? : (xs : List A) (i : ℕ) (x : A) → get_elem? xs i ≡ some x → i < length xs
  lt_of_get_elem? [] i x e = cc e
  lt_of_get_elem? (y ∷ xs) zero x e = omega arith
  lt_of_get_elem? (y ∷ xs) (suc i) x e = omega (arith, lt_of_get_elem? xs i x e)

  pub slice-cons :
      (xs : List A) (a b : ℕ) {x : A}
      → a < b
      → get_elem? xs a ≡ some x
      → slice xs a b ≡ x ∷ slice xs (suc a) b
  unfolding slice
  slice-cons [] a b h e = ground arith
  slice-cons (y ∷ xs) zero zero h e = elim h [ ]
  slice-cons (y ∷ []) zero (suc zero) h e = ground arith
  slice-cons (y ∷ []) zero (suc (suc b)) h e = ground arith
  slice-cons (y ∷ z ∷ xs) zero (suc zero) h e = ground arith
  slice-cons (y ∷ z ∷ xs) zero (suc (suc b)) h e = ground arith
  slice-cons (y ∷ xs) (suc a) zero h e = elim h [ ]
  slice-cons (y ∷ []) (suc a) (suc b) h e = ground arith
  slice-cons (y ∷ z ∷ xs) (suc a) (suc b) h e = slice-cons (z ∷ xs) a b (omega arith) e

  pub slice_nil : (xs : List A) (a b : ℕ) → b ≤ a → slice xs a b ≡ []
  unfolding slice
  slice_nil xs zero zero h = refl
  slice_nil xs zero (suc b) h = elim h [ ]
  slice_nil [] (suc a) b h = refl
  slice_nil (x ∷ xs) (suc a) zero h = refl
  slice_nil (x ∷ xs) (suc a) (suc b) h = slice_nil xs a b (omega arith)

module _ {ℓ} {A : Type ℓ} where
  pub slice-append :
      (xs : List A) (a m b : ℕ) → a ≤ m → m ≤ b → slice xs a m ++ slice xs m b ≡ slice xs a b
  unfolding slice
  slice-append [] zero zero b h k = refl
  slice-append [] zero (suc m) zero h k = elim k [ ]
  slice-append [] zero (suc m) (suc b) h k = refl
  slice-append [] (suc a) zero b h k = elim h [ ]
  slice-append [] (suc a) (suc m) b h k = refl
  slice-append (x ∷ xs) zero zero b h k = refl
  slice-append (x ∷ xs) zero (suc m) zero h k = elim k [ ]
  slice-append (x ∷ xs) zero (suc m) (suc b) h k =
      ap (◌∷◌ x) (take-append-slice xs m b (omega arith))
    where
      take-append-slice : (ys : List A) (i j : ℕ) → i ≤ j → take i ys ++ slice ys i j ≡ take j ys
      take-append-slice ys zero j h = refl
      take-append-slice ys (suc i) zero h = elim h [ ]
      take-append-slice [] (suc i) (suc j) h = refl
      take-append-slice (y ∷ ys) (suc i) (suc j) h =
          ap (◌∷◌ y) (take-append-slice ys i j (omega arith))
  slice-append (x ∷ xs) (suc a) zero b h k = elim h [ ]
  slice-append (x ∷ xs) (suc a) (suc m) zero h k = elim k [ ]
  slice-append (x ∷ xs) (suc a) (suc m) (suc b) h k =
      slice-append xs a m b (omega arith) (omega arith)

  pub length-slice : (xs : List A) (a b : ℕ) → a ≤ b → b ≤ length xs → length (slice xs a b) + a ≡ b
  unfolding slice
  length-slice xs zero b h k = go xs b k
    where
      go : (ys : List A) (n : ℕ) → n ≤ length ys → length (take n ys) + 0 ≡ n
      go ys zero h = omega arith
      go [] (suc n) h = elim h [ ]
      go (y ∷ ys) (suc n) h = omega (arith, go ys n (omega arith))
  length-slice [] (suc a) zero h k = elim h [ ]
  length-slice [] (suc a) (suc b) h k = elim k [ ]
  length-slice (x ∷ xs) (suc a) zero h k = elim h [ ]
  length-slice (x ∷ xs) (suc a) (suc b) h k =
      omega (arith, length-slice xs a b (omega arith) (omega arith))
