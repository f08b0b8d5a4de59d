-- ===== src/Payload/Set.antt =====
-- src/payload.rs: `Set`, a sequence of blocks, and its two iterators. `none` is a panic.
pub mod Laws
pub mod Moves
pub mod Walk
pub mod Packed
use rtrtr.Base.{
  ◌<◌, ℕ, suc, ◌≡◌, Bool, true, false, List, [], ◌∷◌, ◌++◌, Option, none, some, length, get_elem?,
  All, ◌>>=◌,
}
use rtrtr.Payload.Pack.{Pack}
use rtrtr.Payload.Block.{Block, InRange, as_slice, contents, get_from_pack}
use rtrtr.Payload.Block

pub record Set {ℓ} (A : Type ℓ) : Type ℓ where
  pub blocks : List (Block A)
  pub len : ℕ

module _ {ℓ} {A : Type ℓ} where
  -- `Set::default`
  abbrev pub default : Set A
  default = record { blocks = []; len = 0 }

  unfoldable pub is_empty : Set A → Bool
  is_empty s = elim s.blocks [ [] ↦ true | b ∷ bs ↦ false ]

  -- `From<Block>`
  unfoldable pub from_block : Block A → Option (Set A)
  from_block b = do n ← Block.len b; some (record { blocks = b ∷ []; len = n })

  -- `From<Pack>`
  unfoldable pub from_pack : Pack A → Option (Set A)
  from_pack p = from_block (Block.from_pack p)

-- `SetIter`
pub record SetIter {ℓ} (A : Type ℓ) : Type ℓ where
  pub head : List A
  pub tail : List (Block A)

module _ {ℓ} {A : Type ℓ} where
  unfoldable pub next_block : SetIter A → Option (SetIter A × Bool)
  next_block it = elim it.tail [
    | [] ↦ some (it, false)
    | b ∷ bs ↦ do xs ← as_slice b; some (record { head = xs; tail = bs }, true)
  ]

  -- `SetIter::new`
  unfoldable pub iter : Set A → Option (SetIter A)
  iter s = do (it, more) ← next_block (record { head = []; tail = s.blocks }); some it

  unfoldable pub next_from : List A → List (Block A) → Option (SetIter A × Option A)
  next_from (x ∷ xs) bs = some (record { head = xs; tail = bs }, some x)
  next_from [] [] = some (record { head = []; tail = [] }, none)
  next_from [] (b ∷ bs) = do xs ← as_slice b; next_from xs bs

  unfoldable pub next : SetIter A → Option (SetIter A × Option A)
  next it = next_from it.head it.tail

-- `OwnedSetIter`
pub record OwnedSetIter {ℓ} (A : Type ℓ) : Type ℓ where
  pub set : Set A
  pub block : ℕ
  pub item : ℕ

module _ {ℓ} {A : Type ℓ} where
  unfoldable pub owned_iter : Set A → OwnedSetIter A
  owned_iter s = record { set = s; block = 0; item = elim s.blocks [ [] ↦ 0 | b ∷ bs ↦ b.start ] }

  -- The outer option is the panic of `first`.
  unfoldable pub owned_peek : OwnedSetIter A → Option (Option A)
  owned_peek it = elim (get_elem? it.set.blocks it.block) [
    | none ↦ some none
    | some b ↦ elim (get_from_pack b it.item) [
      | some a ↦ some (some a)
      | none ↦ elim (get_elem? it.set.blocks (suc it.block)) [
        | none ↦ some none
        | some c ↦ Block.first c
      ]
    ]
  ]

  -- The branch of `next` that goes on to the block with index `n`.
  unfoldable pub next_owned_block : OwnedSetIter A → ℕ → OwnedSetIter A × Option A
  next_owned_block it n = elim (get_elem? it.set.blocks n) [
    | none ↦ (record it { block = n }, none)
    | some c ↦ elim (get_from_pack c c.start) [
      | none ↦ (record it { block = n; item = c.start }, none)
      | some a ↦ (record it { block = n; item = suc c.start }, some a)
    ]
  ]

  -- `PayloadSet::next`
  unfoldable pub owned_next : OwnedSetIter A → OwnedSetIter A × Option A
  owned_next it = elim (get_elem? it.set.blocks it.block) [
    | none ↦ (it, none)
    | some b ↦ elim (get_from_pack b it.item) [
      | some a ↦ (record it { item = suc it.item }, some a)
      | none ↦ next_owned_block it (suc it.block)
    ]
  ]

  -- The items of a sequence of blocks.
  unfoldable pub flatten : List (Block A) → List A
  flatten [] = []
  flatten (b ∷ bs) = contents b ++ flatten bs

  -- No range is out of its pack, so that no slice panics.
  abbrev pub AllInRange : List (Block A) → Type 0
  AllInRange bs = All InRange bs

  -- No slice of a block panics, and the length is right.
  pub record IsWellFormed (s : Set A) : Type ℓ where
    pub in_range : AllInRange s.blocks
    pub counted : s.len ≡ length (flatten s.blocks)

  -- No block is empty.
  abbrev pub NoneEmpty : List (Block A) → Type 0
  NoneEmpty bs = All (λ b. b.start < b.end) bs

  -- At most the first block is empty, as in the set of an empty pack.
  abbrev pub TailNoneEmpty : List (Block A) → Type 0
  TailNoneEmpty [] = Unit
  TailNoneEmpty (b ∷ bs) = NoneEmpty bs

  pub NoneEmpty-TailNoneEmpty : (bs : List (Block A)) → NoneEmpty bs → TailNoneEmpty bs
  NoneEmpty-TailNoneEmpty [] h = tt
  NoneEmpty-TailNoneEmpty (b ∷ bs) h = h.1

  -- The items that `SetIter` gives, one after the other.
  unfoldable pub collect : List (Block A) → Option (List A)
  collect [] = some []
  collect (b ∷ bs) = do xs ← as_slice b; ys ← collect bs; some (xs ++ ys)
