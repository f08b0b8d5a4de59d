-- ===== src/Payload/Builder/Laws.antt =====
-- `SetBuilder::finalize` against the union of the items of its blocks.
use rtrtr.Base.{
  ℕ, zero, suc, ◌+◌, ◌*◌, ◌≤◌, ◌<◌, ◌≡◌, refl, ap, ap₂, ◌∙◌, sym, inl, inr, false, List, [], ◌∷◌,
  ◌++◌, Option, none, some, length, slice, arith, append_assoc, append-nil, length-append,
}
use native.Mathlib.Nat.{add-zero, zero-add}
use rtrtr.Order.{Order}
use rtrtr.Sorted.Elem.{All-append}
use rtrtr.Sorted.Union.{union, union-nil}
use rtrtr.Payload.Block.{Block, contents}
use rtrtr.Payload.Block.Laws.{is_nil, start_lt_end, cons_of, len-contents}
use rtrtr.Payload.Set.{Set, flatten, AllInRange, NoneEmpty, IsWellFormed}
use rtrtr.Payload.Set.Laws.{flatten-append}
use rtrtr.Payload.Merge.{weight}
use rtrtr.Payload.Builder.{
  SetBuilder, strip_empty, sort_blocks, find_first, push_until, start_after, finalize_loop,
  finalize,
}
use rtrtr.Payload.Builder.Placing.{union_all, AllSorted, Placed}
use rtrtr.Payload.Builder.Sorting.{Found, sort_blocks-Placed, find_first-Found}
use rtrtr.Payload.Builder.Start.{rounds, Stripped, strip_empty-Stripped}
use rtrtr.Payload.Builder.Loop.{
  bonus-le-one, Done, Round, round_lem, cut, loop_over, loop_last, loop_cut, push_until_lem,
}

module _ {ℓ} {A : Type ℓ} ⦃o : Order A⦄ where
  Done-cut :
      (f : ℕ) (b : Block A) (bs : List (Block A)) (y : A) (e : ℕ) (src res : List (Block A)) (n : ℕ)
      (p : (new : List (Block A)) × (push_until b e res n
          ≡ some (res ++ new, n + length (flatten new)))
        × (flatten new ≡ slice b.pack.items b.start e)
        × AllInRange new
        × NoneEmpty new)
      → Round b bs y e
      → finalize_loop (suc f) src res n
        ≡ finalize_loop f (cut b (start_after b y e) ∷ bs) (res ++ p.0) (n + length (flatten p.0))
      → Done
          (union_all (cut b (start_after b y e) ∷ bs))
          (res ++ p.0)
          (n + length (flatten p.0))
          (finalize_loop f (cut b (start_after b y e) ∷ bs) (res ++ p.0) (n + length (flatten p.0)))
      → Done (union_all (b ∷ bs)) res n (finalize_loop (suc f) src res n)
  Done-cut f b bs y e src res n p r g d = record {
    new = p.0 ++ d.new;
    gives =
        g
        ∙ d.gives
        ∙ ap₂ (λ (x : List (Block A)) (k : ℕ). some (record { blocks = x; len = k }))
            (append_assoc res p.0 d.new)
            (rw (flatten-append p.0 d.new, length-append (flatten p.0) (flatten d.new))
              (omega arith));
    items = flatten-append p.0 d.new ∙ ap₂ ◌++◌ p.2 d.items ∙ sym r.splits;
    in_range = All-append _ p.0 d.new p.3 d.in_range;
    none_empty = All-append _ p.0 d.new p.4 d.none_empty;
  }

  union_all_single :
      (b : Block A) (bs : List (Block A)) → union_all bs ≡ [] → union_all (b ∷ bs) ≡ contents b
  unfolding union_all
  union_all_single b bs e = rw (e, union-nil)

  -- A list of blocks whose first has an item has an item.
  union_all_full :
      (b : Block A) (bs : List (Block A))
      → is_nil (contents b) ≡ false
      → is_nil (union_all (b ∷ bs)) ≡ false
  unfolding union_all
  union_all_full b bs e = let (x, xs, p) = cons_of (contents b) e in rw p (full x xs (union_all bs))
    where
      full : (x : A) (xs ys : List A) → is_nil (union (x ∷ xs) ys) ≡ false
      full x xs [] = rw union-nil
      full x xs (y ∷ ys) = unfold union in ground arith

  full_of :
      {src : List (Block A)} (c d : List (Block A)) {x : Block A} {xs : List (Block A)}
      → Stripped src c
      → Placed c (x ∷ xs)
      → (is_nil (union_all c) ≡ false) × (2 * (weight c + length c) + 1 ≤ rounds src)
  full_of c d a b = elim a.full [
    | inl e ↦ absurd (omega (arith, b.counts, ap length e))
    | inr (z, zs, e, n, r) ↦ (rw e (union_all_full z zs n), r)
  ]

  finalize_loop-Done :
      (f : ℕ) (src res : List (Block A)) (n : ℕ)
      → AllInRange src
      → AllSorted src
      → rounds src < f
      → Done (union_all src) res n (finalize_loop f src res n)
  unfolding flatten union_all
  finalize_loop-Done zero src res n v s h = elim h [ ]
  finalize_loop-Done (suc f) src res n v s h =
      let (c, p, a) = strip_empty-Stripped src v s in
      let (d, q, b) = sort_blocks-Placed c a.in_range a.sorted in
      go c d p a q b (λ src' res' n' v' s' h'. finalize_loop-Done f src' res' n' v' s' h')
    where
      go :
          (c d : List (Block A))
          → strip_empty src ≡ some c
          → Stripped src c
          → sort_blocks c ≡ some d
          → Placed c d
          → ((src' res' : List (Block A)) (n' : ℕ)
              → AllInRange src'
              → AllSorted src'
              → rounds src' < f
              → Done (union_all src') res' n' (finalize_loop f src' res' n'))
          → Done (union_all src) res n (finalize_loop (suc f) src res n)
      go c [] p a q b again = record {
        new = [];
        gives = loop_over f src res n p q ∙ rw (append-nil res, add-zero n);
        items = b.same ∙ a.same;
        in_range = tt;
        none_empty = tt;
      }
      go c (x ∷ xs) p a q b again =
          let (found, g, t) = find_first-Found xs b.in_range.1 b.ascending.1 in ends found g t
        where
          ends :
              (found : Option A)
              → find_first xs ≡ some found
              → Found xs found
              → Done (union_all src) res n (finalize_loop (suc f) src res n)
          ends none g t =
              let single : union_all (x ∷ xs) ≡ contents x = union_all_single x xs t in
              let filled : is_nil (contents x) ≡ false =
                rw (sym b.same ∙ single) at (full_of c (x ∷ xs) a b).0 in
              record {
                new = x ∷ [];
                gives =
                    loop_last f src res n p q g (len-contents b.in_range.0)
                    ∙ rw (append-nil (contents x));
                items = append-nil (contents x) ∙ sym single ∙ b.same ∙ a.same;
                in_range = (b.in_range.0, tt);
                none_empty =
                    let (z, zs, w) = cons_of (contents x) filled in
                    (start_lt_end b.in_range.0 w, tt);
              }
          ends (some y) g t =
              let (e, r) = round_lem x xs y b.in_range.0 b.sorted.0 b.ascending.0 t.1 in
              let k = push_until_lem x e res n b.in_range.0 r.from r.upto in
              rw (← a.same, ← b.same)
                (Done-cut f x xs y e src res n k r (loop_cut f src res n p q g r.advances k.1) (
                  again (cut x (start_after x y e) ∷ xs) (res ++ k.0) (n + length (flatten k.0))
                    (r.in_range, b.in_range.1) (r.sorted, b.sorted.1)
                    (omega (arith, r.fewer, b.weighs, b.counts, (full_of c (x ∷ xs) a b).1))))

  -- `finalize` of blocks that lie in their packs and are ascending, in any order and with any
  -- overlap, does not panic and ends; the result holds exactly the items of all blocks in
  -- ascending order and once, with the right length, its blocks in range and none of them empty.
  pub finalize-union_all :
      (b : SetBuilder A)
      → AllInRange b.blocks
      → AllSorted b.blocks
      → (s : Set A) × (finalize b ≡ some s)
        × (flatten s.blocks ≡ union_all b.blocks)
        × IsWellFormed s
        × NoneEmpty s.blocks
  unfolding finalize
  finalize-union_all b v s =
      let d =
        finalize_loop-Done (2 * (weight b.blocks + length b.blocks) + 2) b.blocks [] 0 v s
          (omega (arith, bonus-le-one b.blocks)) in
      (
        record { blocks = d.new; len = length (flatten d.new) },
        d.gives ∙ rw (zero-add (length (flatten d.new))),
        d.items,
        record { in_range = d.in_range; counted = refl },
        d.none_empty,
      )
