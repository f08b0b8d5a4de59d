-- ===== src/Payload/Merge.antt =====
-- src/payload.rs: `Set::merge`. The loops over indices take as fuel one round more than the block
-- has items, and the loop over blocks one round more than both sets have items; `none` is a panic.
pub mod Advance
pub mod Heads
pub mod Skipping
pub mod Loop
pub mod Finish
pub mod Laws
use rtrtr.Base.{ℕ, zero, suc, ◌+◌, ◌-◌, true, false, List, [], ◌∷◌, ◌++◌, Option, none, some, ◌>>=◌}
use rtrtr.Order.{Order, is_lt, is_eq}
use rtrtr.Payload.Block.{Block, get_from_pack, split_off_at}
use rtrtr.Payload.Block
use rtrtr.Payload.Set.{Set}

-- The variables of the loop: the two iterators with their heads, and what is pushed so far.
pub record Merging {ℓ} (A : Type ℓ) : Type ℓ where
  pub left_head : Option (Block A)
  pub left_tail : List (Block A)
  pub right_head : Option (Block A)
  pub right_tail : List (Block A)
  pub target : List (Block A)
  pub target_len : ℕ

module _ {ℓ} {A : Type ℓ} where
  -- The inner loop that skips over empty blocks.
  unfoldable pub skip_empty :
      Option (Block A) → List (Block A) → Option (Option (Block A) × List (Block A))
  skip_empty none tail = some (none, tail)
  skip_empty (some b) [] = do
    e ← Block.is_empty b
    elim e [ true ↦ some (none, []) | false ↦ some (some b, []) ]
  skip_empty (some b) (c ∷ cs) = do
    e ← Block.is_empty b
    elim e [ true ↦ skip_empty (some c) cs | false ↦ some (some b, c ∷ cs) ]

  -- The number of items by the ranges, which bounds the rounds of the loop.
  unfoldable pub weight : List (Block A) → ℕ
  weight [] = 0
  weight (b ∷ bs) = (b.end - b.start) + weight bs

  -- What is left of a head or of an iterator goes to the target.
  unfoldable pub push_head : Option (Block A) → List (Block A) → ℕ → Option (List (Block A) × ℕ)
  push_head none target n = some (target, n)
  push_head (some b) target n = do
    e ← Block.is_empty b
    k ← Block.len b
    some (elim e [ true ↦ (target, n) | false ↦ (target ++ b ∷ [], n + k) ])

  unfoldable pub push_tail : List (Block A) → List (Block A) → ℕ → Option (List (Block A) × ℕ)
  push_tail [] target n = some (target, n)
  push_tail (b ∷ bs) target n = do k ← Block.len b; push_tail bs (target ++ b ∷ []) (n + k)

  -- The part of `merge` behind the loop.
  unfoldable pub finish : Merging A → Option (Set A)
  finish m = do
    (t1, n1) ← push_head m.left_head m.target m.target_len
    (t2, n2) ← push_head m.right_head t1 n1
    (t3, n3) ← push_tail (m.left_tail ++ m.right_tail) t2 n2
    some (record { blocks = t3; len = n3 })

  unfoldable pub uncons : List (Block A) → Option (Block A) × List (Block A)
  uncons [] = (none, [])
  uncons (b ∷ bs) = (some b, bs)

module _ {ℓ} {A : Type ℓ} ⦃o : Order A⦄ where
  -- Moves an index of a block past the items below a bound.
  unfoldable pub advance_before : ℕ → Block A → A → ℕ → Option ℕ
  advance_before zero b y i = none
  advance_before (suc f) b y i = elim (get_from_pack b i) [
    | none ↦ some i
    | some x ↦ elim (is_lt x y) [ true ↦ advance_before f b y (suc i) | false ↦ some i ]
  ]

  -- Moves an index of each block for as long as the items are equal.
  unfoldable pub advance_equal : ℕ → Block A → Block A → ℕ → ℕ → Option (ℕ × ℕ)
  advance_equal zero l r i j = none
  advance_equal (suc f) l r i j = elim (get_from_pack l i) [
    | none ↦ some (i, j)
    | some x ↦ elim (get_from_pack r j) [
      | none ↦ some (i, j)
      | some y ↦ elim (is_eq x y) [
        | true ↦ advance_equal f l r (suc i) (suc j)
        | false ↦ some (i, j)
      ]
    ]
  ]

  -- One round, with `left` the block that starts first: the new block, and what is left of both.
  unfoldable pub merge_heads : Block A → Block A → Option (Block A × Block A × Block A)
  merge_heads left right = do
    head ← Block.first right
    first_right ← head
    i ← advance_before (suc (left.end - left.start)) left first_right left.start
    (left_idx, right_idx) ← advance_equal (suc (left.end - i)) left right i right.start
    (new, rest) ← split_off_at left left_idx
    some (new, rest, record right { range = record { start = right_idx; end = right.end } })

  -- Orders the two blocks, and puts what is left of them back into their places.
  unfoldable pub merge_round : Block A → Block A → Option (Block A × Block A × Block A)
  merge_round l r = do
    left_first ← Block.first l
    x ← left_first
    right_first ← Block.first r
    y ← right_first
    elim (is_lt y x) [
      | true ↦ do (new, r', l') ← merge_heads r l; some (new, l', r')
      | false ↦ merge_heads l r
    ]

  unfoldable pub merge_loop : ℕ → Merging A → Option (Merging A)
  merge_loop zero m = none
  merge_loop (suc f) m = do
    (lh, ltail) ← skip_empty m.left_head m.left_tail
    (rh, rtail) ← skip_empty m.right_head m.right_tail
    let m1 : Merging A = record m {
      left_head = lh;
      left_tail = ltail;
      right_head = rh;
      right_tail = rtail;
    }
    elim lh [
      | none ↦ some m1
      | some l ↦ elim rh [
        | none ↦ some m1
        | some r ↦ do
          (new, l', r') ← merge_round l r
          n ← Block.len new
          merge_loop f (record m1 {
            left_head = some l';
            right_head = some r';
            target = m.target ++ new ∷ [];
            target_len = m.target_len + n;
          })
      ]
    ]

  unfoldable pub merge : Set A → Set A → Option (Set A)
  merge s t = do
    m ← merge_loop (suc (weight s.blocks + weight t.blocks)) (record {
      left_head = (uncons s.blocks).0;
      left_tail = (uncons s.blocks).1;
      right_head = (uncons t.blocks).0;
      right_tail = (uncons t.blocks).1;
      target = [];
      target_len = 0;
    })
    finish m
