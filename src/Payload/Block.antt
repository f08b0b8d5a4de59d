-- ===== src/Payload/Block.antt =====
-- src/payload.rs: `Block`, a range of a pack, and its owned iterator. `none` is a panic: an
-- `assert!` that fails, or a slice of the pack that is out of range.
pub mod Laws
pub mod Overlap
use Prim.Native.Nat.Ordering.{lt, eq, gt}
use rtrtr.Base.{
  ℕ, suc, ◌≤◌, Bool, true, false, ◌&&◌, List, [], ◌∷◌, Option, none, some, length, get_elem?, head?,
  slice, ltb, leb, if◌then◌else◌, ◌>>=◌, ◌>>◌, assert,
}
use rtrtr.Order.{Order}
use rtrtr.Payload.Pack.{Pack}

-- `Range<usize>`
pub record Range : Type 0 where
  pub start : ℕ
  pub end : ℕ

pub record Block {ℓ} (A : Type ℓ) : Type ℓ where
  pub pack : Pack A
  pub range : Range
  pub open range use *

module _ {ℓ} {A : Type ℓ} where
  -- `Pack::block`
  unfoldable pub block : Pack A → ℕ → ℕ → Option (Block A)
  block p start end = do
    assert (leb end (length p.items))
    some (record { pack = p; range = record { start = start; end = end } })

  -- Indexing a slice with a range panics unless `start <= end <= len`.
  unfoldable pub as_slice : Block A → Option (List A)
  as_slice b =
      if leb b.start b.end && leb b.end (length b.pack.items)
      then some (slice b.pack.items b.start b.end)
      else none

  -- The slice methods, by `Deref`.
  unfoldable pub len : Block A → Option ℕ
  len b = do xs ← as_slice b; some (length xs)

  unfoldable pub is_empty : Block A → Option Bool
  is_empty b = do xs ← as_slice b; some (elim xs [ [] ↦ true | x ∷ r ↦ false ])

  unfoldable pub first : Block A → Option (Option A)
  first b = do xs ← as_slice b; some (head? xs)

  unfoldable pub get_from_pack : Block A → ℕ → Option A
  get_from_pack b i = if leb b.start i && ltb i b.end then get_elem? b.pack.items i else none

  unfoldable pub head_until : Block A → ℕ → Option (Block A)
  head_until b i = do
    assert (leb i b.end)
    some (record { pack = b.pack; range = record { start = b.start; end = i } })

  -- The part split off, and what is left of the block.
  unfoldable pub split_off_at : Block A → ℕ → Option (Block A × Block A)
  split_off_at b i = do
    assert (leb b.start i)
    assert (leb i b.end)
    some (
      record b { range = record { start = b.start; end = i } },
      record b { range = record { start = i; end = b.end } },
    )

  -- `From<Pack>`
  unfoldable pub from_pack : Pack A → Block A
  from_pack p = record { pack = p; range = record { start = 0; end = length p.items } }

  -- The items of a block, where it is valid.
  unfoldable pub contents : Block A → List A
  contents b = slice b.pack.items b.start b.end

  -- The range lies in the pack, and so no slice of it panics.
  pub record InRange (b : Block A) : Type 0 where
    pub ordered : b.start ≤ b.end
    pub bounded : b.end ≤ length b.pack.items

-- How far the inner loop of `overlaps` gets with one item.
pub data Probe {ℓ} (A : Type ℓ) : Type ℓ where
  exhausted found : Probe A
  stopped : List A → Probe A

module _ {ℓ} {A : Type ℓ} ⦃o : Order A⦄ where
  -- The inner loop of `overlaps`. A peekable iterator is the list of the items still to come.
  unfoldable pub probe : A → List A → Probe A
  probe a [] = exhausted
  probe a (y ∷ ys) = elim (o.cmp y a) [ lt ↦ probe a ys | eq ↦ found | gt ↦ stopped (y ∷ ys) ]

  -- The outer loop of `overlaps`.
  unfoldable pub overlaps_items : List A → List A → Bool
  overlaps_items [] ys = false
  overlaps_items (x ∷ xs) ys = elim (probe x ys) [
    | exhausted ↦ false
    | found ↦ true
    | stopped rest ↦ overlaps_items xs rest
  ]

  unfoldable pub overlaps : Block A → Block A → Option Bool
  overlaps b other = do xs ← as_slice b; ys ← as_slice other; some (overlaps_items xs ys)

-- `OwnedBlockIter`
pub record OwnedBlockIter {ℓ} (A : Type ℓ) : Type ℓ where
  pub block : Block A
  pub pos : ℕ

module _ {ℓ} {A : Type ℓ} where
  unfoldable pub owned_iter : Block A → OwnedBlockIter A
  owned_iter b = record { block = b; pos = b.start }

  unfoldable pub peek : OwnedBlockIter A → Option A
  peek it = if ltb it.pos it.block.end then get_elem? it.block.pack.items it.pos else none

  unfoldable pub next : OwnedBlockIter A → OwnedBlockIter A × Option A
  next it =
      if ltb it.pos it.block.end
      then elim (get_elem? it.block.pack.items it.pos) [
        | none ↦ (it, none)
        | some a ↦ (record it { pos = suc it.pos }, some a)
      ]
      else (it, none)
