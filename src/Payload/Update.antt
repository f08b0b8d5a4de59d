-- ===== src/Payload/Update.antt =====
-- src/payload.rs: `Update`, and the equality of sets that it derives its own from.
use rtrtr.Base.{Bool, true, false, ◌&&◌, List, [], ◌∷◌, Option, some, ◌>>=◌}
use rtrtr.Order.{Order, is_eq}
use rtrtr.Payload.Set.{Set, collect}
use rtrtr.Payload.Diff.{Diff, apply_relaxed}

-- `Update`; `new`, `set` and `into_set` are its constructor and its projection.
pub record Update {ℓ} (A : Type ℓ) : Type ℓ where
  pub set : Set A

module _ {ℓ} {A : Type ℓ} where
  abbrev pub new : Set A → Update A
  new s = record { set = s }

  abbrev pub into_set : Update A → Set A
  into_set u = u.set

module _ {ℓ} {A : Type ℓ} ⦃o : Order A⦄ where
  -- `Iterator::eq`
  unfoldable pub items_eq : List A → List A → Bool
  items_eq [] [] = true
  items_eq [] (y ∷ ys) = false
  items_eq (x ∷ xs) [] = false
  items_eq (x ∷ xs) (y ∷ ys) = is_eq x y && items_eq xs ys

  -- `PartialEq` of sets: the same items, however they are cut into blocks.
  unfoldable pub same_items : Set A → Set A → Option Bool
  same_items s t = do xs ← collect s.blocks; ys ← collect t.blocks; some (items_eq xs ys)

  unfoldable pub apply_diff_relaxed : Update A → Diff A → Option (Update A)
  apply_diff_relaxed u d = do s ← apply_relaxed d u.set; some (new s)
