-- ===== src/Payload/Diff.antt =====
-- src/payload.rs: `Diff`, its iterators, `DiffBuilder`, and `Set::diff_from`. `none` is a panic.
-- A peekable iterator is the list of the items still to come.
pub mod From
pub mod Keep
pub mod Overlap
pub mod Apply
pub mod Roundtrip
pub mod Tracks
pub mod Fits
pub mod Extend
pub mod Walk
use Prim.Native.Nat.Ordering.{lt, eq, gt}
use rtrtr.Base.{
  ℕ, ◌+◌, Bool, true, false, ◌&&◌, List, [], ◌∷◌, Option, none, some, length, if◌then◌else◌, ◌>>=◌,
}
use rtrtr.Order.{Order, elem, is_lt, is_eq}
use rtrtr.Payload.Types.{
  Action, announce, withdraw, Result, ok, err, corrupt, duplicate_announce, unknown_withdraw,
}
use rtrtr.Payload.Pack.{Pack, PackBuilder, insert, insert_unchecked, remove, contains, erase}
use rtrtr.Payload.Pack
use rtrtr.Payload.Block.{OwnedBlockIter}
use rtrtr.Payload.Block
use rtrtr.Payload.Set.{Set, collect}
use rtrtr.Payload.Filter.{filter}
use rtrtr.Payload.Builder.{to_builder, insert_pack, try_insert_pack}
use rtrtr.Payload.Builder

pub record Diff {ℓ} (A : Type ℓ) : Type ℓ where
  pub announced : Pack A
  pub withdrawn : Pack A

abbrev pub default {ℓ} : {A : Type ℓ} → Diff A
default = record { announced = Pack.default; withdrawn = Pack.default }

module _ {ℓ} {A : Type ℓ} where
  unfoldable pub len : Diff A → ℕ
  len d = length d.announced.items + length d.withdrawn.items

  unfoldable pub no_items : List A → Bool
  no_items [] = true
  no_items (x ∷ xs) = false

  unfoldable pub is_empty : Diff A → Bool
  unfolding no_items
  is_empty d = no_items d.announced.items && no_items d.withdrawn.items

pub record DiffIter {ℓ} (A : Type ℓ) : Type ℓ where
  pub announced : List A
  pub withdrawn : List A

module _ {ℓ} {A : Type ℓ} where
  abbrev pub iter : Diff A → DiffIter A
  iter d = record { announced = d.announced.items; withdrawn = d.withdrawn.items }

module _ {ℓ} {A : Type ℓ} ⦃o : Order A⦄ where
  unfoldable pub next_of : List A → List A → DiffIter A × Option (A × Action)
  next_of [] [] = (record { announced = []; withdrawn = [] }, none)
  next_of (a ∷ as') [] = (record { announced = as'; withdrawn = [] }, some (a, announce))
  next_of [] (w ∷ ws) = (record { announced = []; withdrawn = ws }, some (w, withdraw))
  next_of (a ∷ as') (w ∷ ws) =
      if is_lt a w
      then (record { announced = as'; withdrawn = w ∷ ws }, some (a, announce))
      else (record { announced = a ∷ as'; withdrawn = ws }, some (w, withdraw))

  -- `DiffIter::next`
  unfoldable pub next : DiffIter A → DiffIter A × Option (A × Action)
  unfolding next_of
  next it = next_of it.announced it.withdrawn

  -- The changes that `DiffIter` gives, one after the other.
  unfoldable pub changes : List A → List A → List (A × Action)
  changes [] [] = []
  changes (a ∷ as') [] = (a, announce) ∷ changes as' []
  changes [] (w ∷ ws) = (w, withdraw) ∷ changes [] ws
  changes (a ∷ as') (w ∷ ws) = elim (is_lt a w) [
    | true ↦ (a, announce) ∷ changes as' (w ∷ ws)
    | false ↦ (w, withdraw) ∷ changes (a ∷ as') ws
  ]

pub record OwnedDiffIter {ℓ} (A : Type ℓ) : Type ℓ where
  pub announced : OwnedBlockIter A
  pub withdrawn : OwnedBlockIter A

module _ {ℓ} {A : Type ℓ} ⦃o : Order A⦄ where
  unfoldable pub owned_iter : Diff A → OwnedDiffIter A
  owned_iter d = record {
    announced = Block.owned_iter (Block.from_pack d.announced);
    withdrawn = Block.owned_iter (Block.from_pack d.withdrawn);
  }

  unfoldable pub owned_peek : OwnedDiffIter A → Option (A × Action)
  owned_peek it = elim (Block.peek it.announced) [
    | none ↦ elim (Block.peek it.withdrawn) [ none ↦ none | some w ↦ some (w, withdraw) ]
    | some a ↦ elim (Block.peek it.withdrawn) [
      | none ↦ some (a, announce)
      | some w ↦ if is_lt a w then some (a, announce) else some (w, withdraw)
    ]
  ]

  unfoldable pub next_announced : OwnedDiffIter A → OwnedDiffIter A × Option (A × Action)
  next_announced it =
      let (rest, item) = Block.next it.announced in
      (record it { announced = rest }, elim item [ none ↦ none | some a ↦ some (a, announce) ])

  unfoldable pub next_withdrawn : OwnedDiffIter A → OwnedDiffIter A × Option (A × Action)
  next_withdrawn it =
      let (rest, item) = Block.next it.withdrawn in
      (record it { withdrawn = rest }, elim item [ none ↦ none | some a ↦ some (a, withdraw) ])

  -- `PayloadDiff::next`
  unfoldable pub owned_next : OwnedDiffIter A → OwnedDiffIter A × Option (A × Action)
  unfolding next_announced next_withdrawn
  owned_next it = elim (Block.peek it.announced) [
    | none ↦ elim (Block.peek it.withdrawn) [ none ↦ (it, none) | some w ↦ next_withdrawn it ]
    | some a ↦ elim (Block.peek it.withdrawn) [
      | none ↦ next_announced it
      | some w ↦ if is_lt a w then next_announced it else next_withdrawn it
    ]
  ]

pub record DiffBuilder {ℓ} (A : Type ℓ) : Type ℓ where
  pub announced : PackBuilder A
  pub withdrawn : PackBuilder A

abbrev pub empty {ℓ} : {A : Type ℓ} → DiffBuilder A
empty = record { announced = Pack.empty; withdrawn = Pack.empty }

module _ {ℓ} {A : Type ℓ} where
  unfoldable pub builder_len : DiffBuilder A → ℕ
  builder_len b = Pack.len b.announced + Pack.len b.withdrawn

  unfoldable pub builder_is_empty : DiffBuilder A → Bool
  builder_is_empty b = Pack.is_empty b.announced && Pack.is_empty b.withdrawn

  abbrev pub set_announced : DiffBuilder A → Result (PackBuilder A) → Result (DiffBuilder A)
  set_announced b (ok p) = ok (record b { announced = p })
  set_announced b (err e) = err e

  abbrev pub set_withdrawn : DiffBuilder A → Result (PackBuilder A) → Result (DiffBuilder A)
  set_withdrawn b (ok p) = ok (record b { withdrawn = p })
  set_withdrawn b (err e) = err e

module _ {ℓ} {A : Type ℓ} ⦃o : Order A⦄ where
  -- An error leaves the builder as it was.
  unfoldable pub push : DiffBuilder A → A → Action → Result (DiffBuilder A)
  push b a announce =
      if contains b.withdrawn a then err corrupt else set_announced b (insert b.announced a)
  push b a withdraw =
      if contains b.announced a then err corrupt else set_withdrawn b (insert b.withdrawn a)

  -- One round of `push_diff`.
  unfoldable pub push_change : DiffBuilder A → A → Action → Result (DiffBuilder A)
  push_change b a announce = elim (remove b.withdrawn a) [
    | ok w ↦ ok (record b { withdrawn = w })
    | err e ↦ set_announced b (insert b.announced a)
  ]
  push_change b a withdraw = elim (remove b.announced a) [
    | ok n ↦ ok (record b { announced = n })
    | err e ↦ set_withdrawn b (insert b.withdrawn a)
  ]

  unfoldable pub push_changes : DiffBuilder A → List (A × Action) → Result (DiffBuilder A)
  push_changes b [] = ok b
  push_changes b ((a, action) ∷ rest) = elim (push_change b a action) [
    | ok b' ↦ push_changes b' rest
    | err e ↦ err e
  ]

  -- The callers drop the builder on an error.
  unfoldable pub push_diff : DiffBuilder A → Diff A → Result (DiffBuilder A)
  push_diff b d = push_changes b (changes d.announced.items d.withdrawn.items)

  unfoldable pub finalize : DiffBuilder A → Diff A
  finalize b = record {
    announced = Pack.finalize b.announced;
    withdrawn = Pack.finalize b.withdrawn;
  }

  unfoldable pub extend : Diff A → Diff A → Result (Diff A)
  extend d additional = elim (push_diff empty d) [
    | err e ↦ err e
    | ok b ↦ elim (push_diff b additional) [ err e ↦ err e | ok b' ↦ ok (finalize b') ]
  ]

  unfoldable pub add_announced : DiffBuilder A → A → DiffBuilder A
  add_announced b a = record b { announced = insert_unchecked b.announced a }

  unfoldable pub add_withdrawn : DiffBuilder A → A → DiffBuilder A
  add_withdrawn b a = record b { withdrawn = insert_unchecked b.withdrawn a }

  -- The loops of `diff_from`, over the items of the old set and of the new one.
  unfoldable pub diff_loop : DiffBuilder A → List A → List A → DiffBuilder A
  diff_loop d [] [] = d
  diff_loop d [] (t ∷ ts) = diff_loop (add_announced d t) [] ts
  diff_loop d (s ∷ ss) [] = diff_loop (add_withdrawn d s) ss []
  diff_loop d (s ∷ ss) (t ∷ ts) = elim (o.cmp s t) [
    | lt ↦ diff_loop (add_withdrawn d s) ss (t ∷ ts)
    | eq ↦ diff_loop d ss ts
    | gt ↦ diff_loop (add_announced d t) (s ∷ ss) ts
  ]

  -- `Set::diff_from`
  unfoldable pub diff_from : Set A → Set A → Option (Diff A)
  diff_from set other = do
    source ← collect other.blocks
    target ← collect set.blocks
    some (finalize (diff_loop empty source target))

  -- `collect` into a `HashSet`
  unfoldable pub hash_set : List A → List A
  hash_set [] = []
  hash_set (x ∷ xs) = let rest = hash_set xs in if elem x rest then rest else x ∷ rest

  -- The closure `!withdrawn.remove(item)`.
  unfoldable pub keep_unless_withdrawn : List A → A → List A × Bool
  keep_unless_withdrawn withdrawn item =
      if elem item withdrawn then (erase item withdrawn, false) else (withdrawn, true)

  -- The part of `apply` behind the check for duplicates.
  unfoldable pub apply_checked : Diff A → Builder.SetBuilder A → Option (Result (Set A))
  apply_checked d b = do
    res ← Builder.finalize b
    (withdrawn, kept) ← filter keep_unless_withdrawn (hash_set d.withdrawn.items) res
    some (if no_items withdrawn then ok kept else err unknown_withdraw)

  unfoldable pub apply : Diff A → Set A → Option (Result (Set A))
  apply d set = do
    inserted ← try_insert_pack (to_builder set) d.announced
    elim inserted [ err e ↦ some (err duplicate_announce) | ok b ↦ apply_checked d b ]

  unfoldable pub apply_relaxed : Diff A → Set A → Option (Set A)
  apply_relaxed d set = do
    res ← Builder.finalize (insert_pack (to_builder set) d.announced)
    (withdrawn, kept) ← filter keep_unless_withdrawn (hash_set d.withdrawn.items) res
    some kept
