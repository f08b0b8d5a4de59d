-- ===== src/Payload/Merge/Laws.antt =====
-- `Set::merge` against the merge of ascending lists.
use rtrtr.Base.{
  suc, ◌+◌, ◌≡◌, refl, ap, ◌∙◌, inl, inr, List, [], ◌∷◌, ◌++◌, Option, none, some, arith,
  append-nil,
}
use rtrtr.Order.{Order}
use rtrtr.Sorted.Elem.{All-append}
use rtrtr.Sorted.Union.{union, union-nil}
use rtrtr.Payload.Block.{Block, contents}
use rtrtr.Payload.Set.{Set, flatten, NoneEmpty, TailNoneEmpty, IsWellFormed}
use rtrtr.Payload.Set.Laws.{listed}
use rtrtr.Payload.Merge.{Merging, weight, merge, uncons}
use rtrtr.Payload.Merge.Loop.{Inv, Over, Ends, merge_loop-Ends, left_side, right_side}
use rtrtr.Payload.Merge.Finish.{finish_lem}

module _ {ℓ} {A : Type ℓ} where
  listed-uncons : (bs : List (Block A)) → listed (uncons bs).0 (uncons bs).1 ≡ bs
  unfolding uncons
  listed-uncons [] = refl
  listed-uncons (b ∷ bs) = refl

  drained : (bs : List (Block A)) → (uncons bs).0 ≡ none → (uncons bs).1 ≡ []
  unfolding uncons
  drained [] e = refl
  drained (b ∷ bs) e = cc

  none_empty : (bs : List (Block A)) → TailNoneEmpty bs → NoneEmpty (uncons bs).1
  unfolding uncons
  none_empty [] h = tt
  none_empty (b ∷ bs) h = h

  whole_side :
      (h : Option (Block A)) (bs : List (Block A))
      → flatten (listed h []) ++ flatten bs ≡ flatten (listed h bs)
  unfolding flatten
  whole_side none bs = refl
  whole_side (some b) bs = ap (λ w. w ++ flatten bs) (append-nil (contents b))

module _ {ℓ} {A : Type ℓ} ⦃o : Order A⦄ where
  -- What `finish` adds is the merge of what is left, since one side is used up.
  rest_lem :
      (m : Merging A)
      → Over m
      → flatten (listed m.left_head [])
          ++ (flatten (listed m.right_head []) ++ flatten (m.left_tail ++ m.right_tail))
        ≡ union (flatten (left_side m)) (flatten (right_side m))
  unfolding flatten union
  rest_lem m (inl (e, t)) = rw (e, t) (whole_side m.right_head m.right_tail)
  rest_lem m (inr (e, t)) =
      rw (e, t, append-nil m.left_tail, union-nil) (whole_side m.left_head m.left_tail)

  start_Inv :
      (s t : Set A)
      → IsWellFormed s
      → IsWellFormed t
      → TailNoneEmpty s.blocks
      → TailNoneEmpty t.blocks
      → Inv (union (flatten s.blocks) (flatten t.blocks)) (record {
        left_head = (uncons s.blocks).0;
        left_tail = (uncons s.blocks).1;
        right_head = (uncons t.blocks).0;
        right_tail = (uncons t.blocks).1;
        target = [];
        target_len = 0;
      })
  unfolding flatten
  start_Inv s t v w p q = record {
    sum = rw (listed-uncons s.blocks, listed-uncons t.blocks);
    counted = refl;
    left_in_range = rw (listed-uncons s.blocks) v.in_range;
    right_in_range = rw (listed-uncons t.blocks) w.in_range;
    target_in_range = tt;
    left_drained = drained s.blocks;
    right_drained = drained t.blocks;
    left_none_empty = none_empty s.blocks p;
    right_none_empty = none_empty t.blocks q;
    target_none_empty = tt;
  }

  -- `merge` of two sets with their blocks in range, of which at most the first is empty, does not
  -- panic and ends; the result holds the merge of the two sequences of items, with the right
  -- length, its blocks in range and none of them empty.
  pub merge-union :
      (s t : Set A)
      → IsWellFormed s
      → IsWellFormed t
      → TailNoneEmpty s.blocks
      → TailNoneEmpty t.blocks
      → (r : Set A) × (merge s t ≡ some r)
        × (flatten r.blocks ≡ union (flatten s.blocks) (flatten t.blocks))
        × IsWellFormed r
        × NoneEmpty r.blocks
  unfolding merge Ends
  merge-union s t v w p q =
      let (m, g, i, over) =
        merge_loop-Ends (suc (weight s.blocks + weight t.blocks)) _ _ (start_Inv s t v w p q)
          (rw (listed-uncons s.blocks, listed-uncons t.blocks) (omega arith)) in
      let (r, f, e, h, n) =
        finish_lem m i.left_in_range i.right_in_range i.target_in_range i.counted in
      (
        r,
        rw g f,
        e ∙ ap (◌++◌ (flatten m.target)) (rest_lem m over) ∙ i.sum,
        h,
        n i.target_none_empty
            (All-append _ m.left_tail m.right_tail i.left_none_empty i.right_none_empty),
      )
