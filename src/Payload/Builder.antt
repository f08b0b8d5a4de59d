-- ===== src/Payload/Builder.antt =====
-- src/payload.rs: `SetBuilder`. `finalize` cuts the blocks so that their items come in order. Its
-- loop takes as fuel twice the number of items and blocks, and two more; `none` is a panic.
pub mod Placing
pub mod Sorting
pub mod Start
pub mod Loop
pub mod Laws
use Prim.Native.Nat.Ordering.{lt, eq, gt}
use rtrtr.Base.{
  ℕ, zero, suc, ◌+◌, ◌-◌, ◌*◌, Ordering, Bool, true, false, List, [], ◌∷◌, ◌++◌, Option, none, some,
  length, ltb, if◌then◌else◌, ◌>>=◌,
}
use rtrtr.Order.{Order, is_eq}
use rtrtr.Payload.Types.{Result, ok, err, corrupt}
use rtrtr.Payload.Pack.{Pack}
use rtrtr.Payload.Block.{Block, get_from_pack, head_until, overlaps}
use rtrtr.Payload.Block
use rtrtr.Payload.Set.{Set}
use rtrtr.Payload.Merge.{advance_before, weight}

pub record SetBuilder {ℓ} (A : Type ℓ) : Type ℓ where
  pub blocks : List (Block A)

module _ {ℓ} {A : Type ℓ} where
  abbrev pub empty : SetBuilder A
  empty = record { blocks = [] }

  -- `Set::to_builder`
  abbrev pub to_builder : Set A → SetBuilder A
  to_builder s = record { blocks = s.blocks }

  abbrev pub insert_block : SetBuilder A → Block A → SetBuilder A
  insert_block b block = record { blocks = b.blocks ++ block ∷ [] }

  abbrev pub insert_pack : SetBuilder A → Pack A → SetBuilder A
  insert_pack b p = insert_block b (Block.from_pack p)

  abbrev pub insert_set : SetBuilder A → Set A → SetBuilder A
  insert_set b s = record { blocks = b.blocks ++ s.blocks }

  -- `while src.first().map(|blk| blk.is_empty()).unwrap_or(false)`
  unfoldable pub strip_empty : List (Block A) → Option (List (Block A))
  strip_empty [] = some []
  strip_empty (b ∷ bs) = do
    e ← Block.is_empty b
    elim e [ true ↦ strip_empty bs | false ↦ some (b ∷ bs) ]

  -- `find_map(|blk| blk.first())`
  unfoldable pub find_first : List (Block A) → Option (Option A)
  find_first [] = some none
  find_first (b ∷ bs) = do
    f ← Block.first b
    elim f [ none ↦ find_first bs | some a ↦ some (some a) ]

module _ {ℓ} {A : Type ℓ} ⦃o : Order A⦄ where
  -- `Ord` of an option: `None` comes first.
  unfoldable pub option_cmp : Option A → Option A → Ordering
  option_cmp none none = eq
  option_cmp none (some b) = lt
  option_cmp (some a) none = gt
  option_cmp (some a) (some b) = o.cmp a b

  unfoldable pub place_block : Block A → List (Block A) → Option (List (Block A))
  place_block b [] = some (b ∷ [])
  place_block b (c ∷ cs) = do
    l ← Block.first b
    r ← Block.first c
    elim (option_cmp l r) [
      | gt ↦ do rest ← place_block b cs; some (c ∷ rest)
      | _ ↦ some (b ∷ c ∷ cs)
    ]

  -- `sort_by`, which is stable.
  unfoldable pub sort_blocks : List (Block A) → Option (List (Block A))
  sort_blocks [] = some []
  sort_blocks (b ∷ bs) = do rest ← sort_blocks bs; place_block b rest

  -- Adds the part of a block before an index to the result.
  unfoldable pub push_until : Block A → ℕ → List (Block A) → ℕ → Option (List (Block A) × ℕ)
  push_until first end res res_len = elim (ltb first.start end) [
    | false ↦ some (res, res_len)
    | true ↦ do
      block ← head_until first end
      n ← Block.len block
      some (res ++ block ∷ [], res_len + n)
  ]

  -- Where the first block begins from now on: past an item equal to the other block's first.
  unfoldable pub start_after : Block A → A → ℕ → ℕ
  start_after first second end = elim (get_from_pack first end) [
    | none ↦ end
    | some a ↦ if is_eq a second then suc end else end
  ]

  unfoldable pub finalize_loop : ℕ → List (Block A) → List (Block A) → ℕ → Option (Set A)
  finalize_loop zero src res res_len = none
  finalize_loop (suc f) src res res_len = do
    stripped ← strip_empty src
    sorted ← sort_blocks stripped
    elim sorted [
      | [] ↦ some (record { blocks = res; len = res_len })
      | first ∷ rest ↦ do
        found ← find_first rest
        elim found [
          | none ↦ do
            n ← Block.len first
            some (record { blocks = res ++ first ∷ []; len = res_len + n })
          | some second ↦ do
            end ← advance_before (suc (first.end - first.start)) first second first.start
            (res1, len1) ← push_until first end res res_len
            let cut : Block A = record first {
              range = record { start = start_after first second end; end = first.end };
            }
            finalize_loop f (cut ∷ rest) res1 len1
        ]
    ]

  unfoldable pub finalize : SetBuilder A → Option (Set A)
  finalize b = finalize_loop (2 * (weight b.blocks + length b.blocks) + 2) b.blocks [] 0

  unfoldable pub any_overlaps : List (Block A) → Block A → Option Bool
  any_overlaps [] b = some false
  any_overlaps (item ∷ items) b = do
    hit ← overlaps item b
    elim hit [ true ↦ some true | false ↦ any_overlaps items b ]

  unfoldable pub try_insert_block : SetBuilder A → Block A → Option (Result (SetBuilder A))
  try_insert_block b block = do
    hit ← any_overlaps b.blocks block
    some (if hit then err corrupt else ok (insert_block b block))

  unfoldable pub try_insert_pack : SetBuilder A → Pack A → Option (Result (SetBuilder A))
  try_insert_pack b p = try_insert_block b (Block.from_pack p)
