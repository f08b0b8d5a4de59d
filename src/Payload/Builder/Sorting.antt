-- ===== src/Payload/Builder/Sorting.antt =====
-- The blocks of a builder: the union of their items, and that sorting them keeps it.
use Prim.Native.Nat.Ordering.{lt, eq, gt}
use rtrtr.Base.{
  Ordering, ◌≡◌, refl, ap, ◌∙◌, ◌⊎◌, inl, inr, List, [], ◌∷◌, Option, none, some, head?, All, arith,
}
use rtrtr.Order.{Order}
use rtrtr.Sorted.Union.{union}
use rtrtr.Payload.Block.{Block, contents}
use rtrtr.Payload.Block.Laws.{first-contents}
use rtrtr.Payload.Set.{AllInRange}
use rtrtr.Payload.Merge.{weight}
use rtrtr.Payload.Builder.{option_cmp, place_block, sort_blocks, find_first}
use rtrtr.Payload.Builder.Placing.{
  union_all, AllSorted, StartsBefore, FirstSorted, Placed, place_block-Placed,
}

module _ {ℓ} {A : Type ℓ} ⦃o : Order A⦄ where
  sort_gives :
      (b : Block A) (bs : List (Block A)) {cs ds : List (Block A)}
      → sort_blocks bs ≡ some cs
      → place_block b cs ≡ some ds
      → sort_blocks (b ∷ bs) ≡ some ds
  unfolding sort_blocks
  sort_gives b bs g h = rw g h

  -- Nothing of a list lies below an item.
  abbrev pub Least : A → List A → Type ℓ
  Least y xs = (xs ≡ []) ⊎ ((z : A) × (zs : List A) × (xs ≡ z ∷ zs) × ¬ (o.cmp y z ≡ gt))

  union-Least : (y : A) (xs ys : List A) → Least y xs → Least y ys → Least y (union xs ys)
  unfolding union
  union-Least y [] ys h k = k
  union-Least y (x ∷ xs) [] h k = h
  union-Least y (x ∷ xs) (z ∷ zs) (inl e) k = cc
  union-Least y (x ∷ xs) (z ∷ zs) (inr h) (inl e) = cc
  union-Least y (x ∷ xs) (z ∷ zs) (inr (x', xs', e, h)) (inr (z', zs', e', k)) = go (o.cmp x z) refl
    where
      x_least : ¬ (o.cmp y x ≡ gt)
      x_least w = h (cc (w, e))

      z_least : ¬ (o.cmp y z ≡ gt)
      z_least w = k (cc (w, e'))

      go : (r : Ordering) → o.cmp x z ≡ r → Least y (union (x ∷ xs) (z ∷ zs))
      go lt e1 = rw (e1, union) (inr (x, union xs (z ∷ zs), refl, x_least))
      go eq e1 = rw (e1, union) (inr (x, union xs zs, refl, x_least))
      go gt e1 = rw (e1, union) (inr (z, union (x ∷ xs) zs, refl, z_least))

  pub union_all-Least :
      (b : Block A) (bs : List (Block A)) {y : A}
      → head? (contents b) ≡ some y
      → All (StartsBefore b) bs
      → Least y (union_all bs)
  unfolding union_all option_cmp
  union_all-Least b [] e h = inl refl
  union_all-Least b (c ∷ cs) {y = y} e h =
      union-Least y (contents c) (union_all cs) (one (contents c) (rw e at h.0))
        (union_all-Least b cs e h.1)
    where
      one : (xs : List A) → ¬ (option_cmp (some y) (head? xs) ≡ gt) → Least y xs
      one [] k = inl refl
      one (x ∷ xs) k = inr (x, xs, refl, k)

  abbrev pub Found : List (Block A) → Option A → Type ℓ
  Found bs none = union_all bs ≡ []
  Found bs (some y) = (ys : List A) × (union_all bs ≡ y ∷ ys)

  union-first : (y : A) (xs zs : List A) → Least y zs → (ys : List A) × (union (y ∷ xs) zs ≡ y ∷ ys)
  unfolding union
  union-first y xs [] h = (xs, refl)
  union-first y xs (z ∷ zs) (inl e) = cc
  union-first y xs (z ∷ zs) (inr (z', zs', e, h)) = go (o.cmp y z) refl
    where
      go : (r : Ordering) → o.cmp y z ≡ r → (ys : List A) × (union (y ∷ xs) (z ∷ zs) ≡ y ∷ ys)
      go lt e1 = (union xs (z ∷ zs), rw (e1, union))
      go eq e1 = (union xs zs, rw (e1, union))
      go gt e1 = absurd (h (cc (e1, e)))

  -- The first item that `find_map` finds is the least of all.
  pub find_first-Found :
      (bs : List (Block A))
      → AllInRange bs
      → FirstSorted bs
      → (f : Option A) × (find_first bs ≡ some f) × Found bs f
  unfolding find_first union_all union
  find_first-Found [] v a = (none, refl, refl)
  find_first-Found (b ∷ bs) v a = go (contents b) refl (find_first-Found bs v.1 a.1)
    where
      go :
          (xs : List A)
          → contents b ≡ xs
          → ((f : Option A) × (find_first bs ≡ some f) × Found bs f)
          → (f : Option A) × (find_first (b ∷ bs) ≡ some f) × Found (b ∷ bs) f
      go [] e (none, g, h) = (none, rw (first-contents v.0) (rw e g), rw e h)
      go [] e (some y, g, h) = (some y, rw (first-contents v.0) (rw e g), (h.0, rw e h.1))
      go (x ∷ xs) e _ =
          let (ys, h) = union-first x xs (union_all bs) (union_all-Least b bs (ap head? e) a.0) in
          (some x, rw (first-contents v.0) (rw e), (ys, rw e h))

  pub sort_blocks-Placed :
      (bs : List (Block A))
      → AllInRange bs
      → AllSorted bs
      → (cs : List (Block A)) × (sort_blocks bs ≡ some cs) × Placed bs cs
  unfolding sort_blocks weight union_all
  sort_blocks-Placed [] v s = (
    [],
    refl,
    record {
      same = refl;
      in_range = tt;
      sorted = tt;
      weighs = refl;
      counts = refl;
      ascending = tt;
      carries = λ d h. h;
    },
  )
  sort_blocks-Placed (b ∷ bs) v s =
      let (cs, g, p) = sort_blocks-Placed bs v.1 s.1 in
      let (ds, g', q) = place_block-Placed b cs v.0 s.0 p.in_range p.sorted p.ascending in
      (
        ds,
        sort_gives b bs g g',
        record {
          same = q.same ∙ ap (union (contents b)) p.same;
          in_range = q.in_range;
          sorted = q.sorted;
          weighs = omega (arith, p.weighs, q.weighs);
          counts = omega (arith, p.counts, q.counts);
          ascending = q.ascending;
          carries = λ d h. q.carries d (h.0, p.carries d h.1);
        },
      )
