-- ===== src/Payload/Pack.antt =====
-- src/payload.rs: `Pack` and `PackBuilder`. The `HashSet` of a builder is the list of its items
-- without duplicates; its order of iteration is unspecified, and `finalize` sorts it away.
pub mod Laws
use Prim.Native.Nat.Ordering.{gt}
use rtrtr.Base.{ℕ, Bool, List, [], ◌∷◌, length, if◌then◌else◌}
use rtrtr.Order.{Order, elem, is_eq}
use rtrtr.Payload.Types.{Result, ok, err, duplicate_announce, unknown_withdraw}

pub record Pack {ℓ} (A : Type ℓ) : Type ℓ where
  pub items : List A

-- `Pack::default`
abbrev pub default {ℓ} : {A : Type ℓ} → Pack A
default = record { items = [] }

pub record PackBuilder {ℓ} (A : Type ℓ) : Type ℓ where
  pub items : List A

module _ {ℓ} {A : Type ℓ} where
  abbrev pub empty : PackBuilder A
  empty = record { items = [] }

  unfoldable pub len : PackBuilder A → ℕ
  len b = length b.items

  unfoldable pub is_empty : PackBuilder A → Bool
  is_empty b = elim b.items [ [] ↦ Bool.true | x ∷ xs ↦ Bool.false ]

module _ {ℓ} {A : Type ℓ} ⦃o : Order A⦄ where
  unfoldable pub contains : PackBuilder A → A → Bool
  contains b a = elem a b.items

  -- An error leaves the builder as it was.
  unfoldable pub insert : PackBuilder A → A → Result (PackBuilder A)
  insert b a =
      if elem a b.items then err duplicate_announce else ok (record { items = a ∷ b.items })

  unfoldable pub insert_unchecked : PackBuilder A → A → PackBuilder A
  insert_unchecked b a = if elem a b.items then b else record { items = a ∷ b.items }

  unfoldable pub erase : A → List A → List A
  erase a [] = []
  erase a (x ∷ xs) = if is_eq a x then xs else x ∷ erase a xs

  -- An error leaves the builder as it was.
  unfoldable pub remove : PackBuilder A → A → Result (PackBuilder A)
  remove b a =
      if elem a b.items then ok (record { items = erase a b.items }) else err unknown_withdraw

  unfoldable pub place : A → List A → List A
  place a [] = a ∷ []
  place a (x ∷ xs) = elim (o.cmp a x) [ gt ↦ x ∷ place a xs | _ ↦ a ∷ x ∷ xs ]

  -- `sort_unstable`: the items of a builder are distinct, so every sort gives the same list.
  unfoldable pub sort : List A → List A
  sort [] = []
  sort (x ∷ xs) = place x (sort xs)

  unfoldable pub finalize : PackBuilder A → Pack A
  finalize b = record { items = sort b.items }
