-- ===== src/Order.antt =====
-- The bound `Ord` of payload items: `rpki::rtr::payload::Payload` is not part of this repository,
-- so the items are a type parameter with a total order. Its laws are the ones that the trait asks
-- for; `==`, `<` and `>=` are read off `cmp`.
use Prim.Native.Nat.Ordering.{lt, eq, gt}
use rtrtr.Base.{ℕ, Ordering, compare, ◌≡◌, Bool, true, false, ◌||◌, List, [], ◌∷◌, arith, All}

pub record IsTotal {ℓ} {A : Type ℓ} (cmp : A → A → Ordering) : Type ℓ where
  pub cmp_refl : (a : A) → cmp a a ≡ eq
  pub eq_of_cmp : (a b : A) → cmp a b ≡ eq → a ≡ b
  pub gt_of_lt : (a b : A) → cmp a b ≡ lt → cmp b a ≡ gt
  pub lt_of_gt : (a b : A) → cmp a b ≡ gt → cmp b a ≡ lt
  pub lt_trans : (a b c : A) → cmp a b ≡ lt → cmp b c ≡ lt → cmp a c ≡ lt

pub record Order {ℓ} (A : Type ℓ) : Type ℓ where
  pub cmp : A → A → Ordering
  pub total : IsTotal cmp
  pub open total use *

pub compare-IsTotal : IsTotal compare
compare-IsTotal = ground arith

instance abbrev pub nat_order : Order ℕ
nat_order = record { cmp = compare; total = compare-IsTotal }

infix 50 ◌≺◌
abbrev pub ◌≺◌ {ℓ} : {A : Type ℓ} ⦃o : Order A⦄ → A → A → Type 0
◌≺◌ ⦃o⦄ a b = o.cmp a b ≡ lt

module _ {ℓ} {A : Type ℓ} ⦃o : Order A⦄ where
  -- `a < b`
  abbrev pub is_lt : A → A → Bool
  is_lt a b = elim (o.cmp a b) [ lt ↦ true | _ ↦ false ]

  -- `a == b`
  abbrev pub is_eq : A → A → Bool
  is_eq a b = elim (o.cmp a b) [ eq ↦ true | _ ↦ false ]

  abbrev pub elem : A → List A → Bool
  elem a [] = false
  elem a (x ∷ xs) = is_eq a x || elem a xs

  -- In strictly ascending order, and so without duplicates.
  abbrev pub IsSorted : List A → Type ℓ
  IsSorted [] = Unit
  IsSorted (x ∷ xs) = All (λ y. x ≺ y) xs × IsSorted xs
