-- ===== src/Payload/Set/Moves.antt =====
-- The steps of the owning iterator over a set in src/payload.rs.
use rtrtr.Base.{
  ℕ, zero, suc, ◌≤◌, ◌≡◌, refl, List, [], ◌∷◌, none, some, length, get_elem?, drop, arith,
}
use rtrtr.Payload.Block.{Block, InRange, get_from_pack}
use rtrtr.Payload.Set.{OwnedSetIter, owned_next, next_owned_block, AllInRange, NoneEmpty}

module _ {ℓ} {A : Type ℓ} where
  pub get_elem?-drop :
      (k : ℕ) (xs : List A) {y : A} {ys : List A}
      → drop k xs ≡ y ∷ ys
      → (get_elem? xs k ≡ some y) × (drop (suc k) xs ≡ ys)
  get_elem?-drop zero [] e = cc e
  get_elem?-drop zero (x ∷ xs) e = (cc e, cc e)
  get_elem?-drop (suc k) [] e = cc e
  get_elem?-drop (suc k) (x ∷ xs) e = get_elem?-drop k xs e

  get_elem?-drop_nil : (k : ℕ) (xs : List A) → drop k xs ≡ [] → get_elem? xs k ≡ none
  get_elem?-drop_nil zero [] e = refl
  get_elem?-drop_nil zero (x ∷ xs) e = cc e
  get_elem?-drop_nil (suc k) [] e = refl
  get_elem?-drop_nil (suc k) (x ∷ xs) e = get_elem?-drop_nil k xs e

module _ {ℓ} {A : Type ℓ} where
  -- The iterator stands at an item of a block, with the other blocks still to come.
  pub record Stands (it : OwnedSetIter A) (b : Block A) (cs : List (Block A)) : Type ℓ where
    pub here : get_elem? it.set.blocks it.block ≡ some b
    pub later : drop (suc it.block) it.set.blocks ≡ cs
    pub after_start : b.start ≤ it.item
    pub before_end : it.item ≤ b.end
    pub in_range : InRange b
    pub rest_in_range : AllInRange cs
    pub rest_none_empty : NoneEmpty cs

  -- The results of so many calls of `next`, up to the first that gives nothing.
  unfoldable pub taken : ℕ → OwnedSetIter A → List A
  taken zero it = []
  taken (suc n) it =
      let (later, item) = owned_next it in elim item [ none ↦ [] | some a ↦ a ∷ taken n later ]

  pub nil_of_length : (xs : List A) → length xs ≤ 0 → xs ≡ []
  nil_of_length [] h = refl
  nil_of_length (x ∷ xs) h = absurd (omega arith)

  -- The iterator at an index of the pack of the same block, and at a block with a following index.
  abbrev pub moved : OwnedSetIter A → OwnedSetIter A
  moved it = record it { item = suc it.item }

  abbrev pub moved_on : OwnedSetIter A → Block A → OwnedSetIter A
  moved_on it c = record it { block = suc it.block; item = suc c.start }

  pub owned_next-moved :
      (it : OwnedSetIter A) (b : Block A) (cs : List (Block A)) (x : A)
      → Stands it b cs
      → get_from_pack b it.item ≡ some x
      → owned_next it ≡ (moved it, some x)
  unfolding owned_next
  owned_next-moved it b cs x h e = rw (h.here, owned_next) (rw e refl)

  pub owned_next-moved_on :
      (it : OwnedSetIter A) (b c : Block A) (cs : List (Block A)) (x : A)
      → Stands it b (c ∷ cs)
      → get_from_pack b it.item ≡ none
      → get_from_pack c c.start ≡ some x
      → owned_next it ≡ (moved_on it c, some x)
  unfolding owned_next next_owned_block
  owned_next-moved_on it b c cs x h e f =
      rw (h.here, owned_next)
        (rw e (
          rw ((get_elem?-drop (suc it.block) it.set.blocks h.later).0, next_owned_block)
            (rw f refl)))

  pub owned_next-over :
      (it : OwnedSetIter A) (b : Block A)
      → Stands it b []
      → get_from_pack b it.item ≡ none
      → (owned_next it).1 ≡ none
  unfolding owned_next next_owned_block
  owned_next-over it b h e =
      rw (h.here, owned_next)
        (rw e (rw (get_elem?-drop_nil (suc it.block) it.set.blocks h.later, next_owned_block) refl))
