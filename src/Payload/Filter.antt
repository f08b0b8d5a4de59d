-- ===== src/Payload/Filter.antt =====
-- src/payload.rs: `Set::filter`. The closure is `FnMut`: it takes its captured state along and
-- gives it back. Each loop takes as fuel one round more than it has items; `none` is a panic.
pub mod Runs
pub mod Laws
use rtrtr.Base.{
  ℕ, zero, suc, ◌+◌, ◌-◌, Bool, true, false, List, [], ◌∷◌, ◌++◌, Option, none, some, get_elem?,
  ltb, ◌>>=◌,
}
use rtrtr.Payload.Block.{Block, block}
use rtrtr.Payload.Block
use rtrtr.Payload.Set.{Set}

module _ {ℓ κ} {A : Type ℓ} {S : Type κ} (retain : S → A → S × Bool) where
  -- The loop that looks for the end of a run to retain.
  unfoldable pub keep_run : ℕ → Block A → S → ℕ → Option (S × ℕ)
  keep_run zero b s end = none
  keep_run (suc f) b s end = elim (ltb end b.end) [
    | false ↦ some (s, end)
    | true ↦ do
      a ← get_elem? b.pack.items end
      let (s', keep) = retain s a
      elim keep [ true ↦ keep_run f b s' (suc end) | false ↦ some (s', end) ]
  ]

  -- The loop that looks for the end of a run to ignore.
  unfoldable pub drop_run : ℕ → Block A → S → ℕ → Option (S × ℕ)
  drop_run zero b s end = none
  drop_run (suc f) b s end = elim (ltb end b.end) [
    | false ↦ some (s, end)
    | true ↦ do
      a ← get_elem? b.pack.items end
      let (s', keep) = retain s a
      elim keep [ true ↦ some (s', end) | false ↦ drop_run f b s' (suc end) ]
  ]

module _ {ℓ} {A : Type ℓ} where
  -- What `if end > start` adds to the result.
  unfoldable pub push_run : Block A → ℕ → ℕ → List (Block A) → ℕ → Option (List (Block A) × ℕ)
  push_run b start end res res_len = elim (ltb start end) [
    | false ↦ some (res, res_len)
    | true ↦ do
      new_block ← block b.pack start end
      n ← Block.len new_block
      some (res ++ new_block ∷ [], res_len + n)
  ]

module _ {ℓ κ} {A : Type ℓ} {S : Type κ} (retain : S → A → S × Bool) where
  -- `while start < block.end()`
  unfoldable pub filter_block :
      ℕ → Block A → S → ℕ → List (Block A) → ℕ → Option (S × List (Block A) × ℕ)
  filter_block zero b s start res res_len = none
  filter_block (suc f) b s start res res_len = elim (ltb start b.end) [
    | false ↦ some (s, res, res_len)
    | true ↦ do
      (s1, end) ← keep_run retain (suc (b.end - start)) b s start
      (res1, len1) ← push_run b start end res res_len
      (s2, start1) ← drop_run retain (suc (b.end - suc end)) b s1 (suc end)
      filter_block f b s2 start1 res1 len1
  ]

  -- `for block in self.blocks.iter()`
  unfoldable pub filter_blocks :
      List (Block A) → S → List (Block A) → ℕ → Option (S × List (Block A) × ℕ)
  filter_blocks [] s res res_len = some (s, res, res_len)
  filter_blocks (b ∷ bs) s res res_len = do
    (s1, res1, len1) ← filter_block (suc (b.end - b.start)) b s b.start res res_len
    filter_blocks bs s1 res1 len1

  unfoldable pub filter : S → Set A → Option (S × Set A)
  filter s set = do
    (s1, res, res_len) ← filter_blocks set.blocks s [] 0
    some (s1, record { blocks = res; len = res_len })
