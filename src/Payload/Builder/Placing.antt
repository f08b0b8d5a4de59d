-- ===== src/Payload/Builder/Placing.antt =====
-- The union of blocks, and that placing a block before others keeps it.
use Prim.Native.Nat.Ordering.{lt, eq, gt}
use rtrtr.Base.{
  Ordering, ◌≡◌, refl, ap, ◌∙◌, sym, List, [], ◌∷◌, Option, none, some, length, head?, All, arith,
  ◌>>=◌,
}
use rtrtr.Order.{Order, IsSorted}
use rtrtr.Sorted.Union.{union, union_comm, union_assoc, union-IsSorted}
use rtrtr.Payload.Block.{Block, InRange, contents}
use rtrtr.Payload.Block
use rtrtr.Payload.Block.Laws.{first-contents}
use rtrtr.Payload.Set.{AllInRange}
use rtrtr.Payload.Merge.{weight}
use rtrtr.Payload.Builder.{option_cmp, place_block}

module _ {ℓ} {A : Type ℓ} ⦃o : Order A⦄ where
  unfoldable pub union_all : List (Block A) → List A
  union_all [] = []
  union_all (b ∷ bs) = union (contents b) (union_all bs)

  abbrev pub AllSorted : List (Block A) → Type ℓ
  AllSorted bs = All (λ b. IsSorted (contents b)) bs

  pub union_all-IsSorted : (bs : List (Block A)) → AllSorted bs → IsSorted (union_all bs)
  unfolding union_all
  union_all-IsSorted [] h = tt
  union_all-IsSorted (b ∷ bs) h =
      union-IsSorted (contents b) (union_all bs) h.0 (union_all-IsSorted bs h.1)

  -- The first block starts no later than the second.
  abbrev pub StartsBefore : Block A → Block A → Type 0
  StartsBefore b c = ¬ (option_cmp (head? (contents b)) (head? (contents c)) ≡ gt)

  abbrev pub FirstSorted : List (Block A) → Type 0
  FirstSorted [] = Unit
  FirstSorted (b ∷ bs) = All (StartsBefore b) bs × FirstSorted bs

  cmp_trans : (a b c : A) → ¬ (o.cmp a b ≡ gt) → ¬ (o.cmp b c ≡ gt) → ¬ (o.cmp a c ≡ gt)
  cmp_trans a b c h k e = go (o.cmp a b) (o.cmp b c) refl refl
    where
      go : (p q : Ordering) → o.cmp a b ≡ p → o.cmp b c ≡ q → ⊥
      go gt q e1 e2 = h e1
      go lt gt e1 e2 = k e2
      go lt lt e1 e2 = cc (o.lt_trans a b c e1 e2)
      go lt eq e1 e2 = cc (o.eq_of_cmp b c e2)
      go eq gt e1 e2 = k e2
      go eq lt e1 e2 = cc (o.eq_of_cmp a b e1)
      go eq eq e1 e2 = cc (o.eq_of_cmp a b e1)

  option_cmp_trans :
      (x y z : Option A)
      → ¬ (option_cmp x y ≡ gt)
      → ¬ (option_cmp y z ≡ gt)
      → ¬ (option_cmp x z ≡ gt)
  unfolding option_cmp
  option_cmp_trans none y none h k = λ e. cc
  option_cmp_trans none y (some c) h k = λ e. cc
  option_cmp_trans (some a) none z h k = λ e. h refl
  option_cmp_trans (some a) (some b) none h k = λ e. k refl
  option_cmp_trans (some a) (some b) (some c) h k = cmp_trans a b c h k

  option_cmp-gt : (x y : Option A) → option_cmp x y ≡ gt → ¬ (option_cmp y x ≡ gt)
  unfolding option_cmp
  option_cmp-gt none none h e = cc
  option_cmp-gt none (some b) h e = cc
  option_cmp-gt (some a) none h e = cc
  option_cmp-gt (some a) (some b) h e = cc (o.lt_of_gt a b h)

  before-All :
      (b c : Block A) (cs : List (Block A))
      → StartsBefore b c
      → All (StartsBefore c) cs
      → All (StartsBefore b) cs
  before-All b c [] h k = tt
  before-All b c (d ∷ ds) h k = (option_cmp_trans _ _ _ h k.0, before-All b c ds h k.1)

  union_swap :
      (xs ys zs : List A)
      → IsSorted xs
      → IsSorted ys
      → IsSorted zs
      → union xs (union ys zs) ≡ union ys (union xs zs)
  union_swap xs ys zs s t u =
      sym (union_assoc xs ys zs s t u)
      ∙ ap (λ w. union w zs) (union_comm xs ys)
      ∙ union_assoc ys xs zs t s u

  -- What sorting the blocks keeps, and the order that it brings.
  pub record Placed (bs cs : List (Block A)) : Type ℓ where
    pub same : union_all cs ≡ union_all bs
    pub in_range : AllInRange cs
    pub sorted : AllSorted cs
    pub weighs : weight cs ≡ weight bs
    pub counts : length cs ≡ length bs
    pub ascending : FirstSorted cs
    pub carries : (d : Block A) → All (StartsBefore d) bs → All (StartsBefore d) cs

  place_stays :
      (b c : Block A) (cs : List (Block A)) {x y : Option A}
      → Block.first b ≡ some x
      → Block.first c ≡ some y
      → ¬ (option_cmp x y ≡ gt)
      → place_block b (c ∷ cs) ≡ some (b ∷ c ∷ cs)
  unfolding place_block
  place_stays b c cs {x = x} {y = y} p q n = rw p (rw q (go (option_cmp x y) refl))
    where
      go :
          (r : Ordering)
          → option_cmp x y ≡ r
          → elim (option_cmp x y) as (λ r. Option (List (Block A))) [
            | gt ↦ do rest ← place_block b cs; some (c ∷ rest)
            | _ ↦ some (b ∷ c ∷ cs)
          ]
            ≡ some (b ∷ c ∷ cs)
      go lt e = rw e
      go eq e = rw e
      go gt e = absurd (n e)

  place_goes_on :
      (b c : Block A) (cs : List (Block A)) {x y : Option A} {ds : List (Block A)}
      → Block.first b ≡ some x
      → Block.first c ≡ some y
      → option_cmp x y ≡ gt
      → place_block b cs ≡ some ds
      → place_block b (c ∷ cs) ≡ some (c ∷ ds)
  unfolding place_block
  place_goes_on b c cs p q e g = ground arith

  pub place_block-Placed :
      (b : Block A) (cs : List (Block A))
      → InRange b
      → IsSorted (contents b)
      → AllInRange cs
      → AllSorted cs
      → FirstSorted cs
      → (ds : List (Block A)) × (place_block b cs ≡ some ds) × Placed (b ∷ cs) ds
  unfolding place_block weight union_all
  place_block-Placed b [] v s w t a = (
    b ∷ [],
    refl,
    record {
      same = refl;
      in_range = (v, tt);
      sorted = (s, tt);
      weighs = refl;
      counts = refl;
      ascending = (tt, tt);
      carries = λ d h. h;
    },
  )
  place_block-Placed b (c ∷ cs) v s w t a =
      go (option_cmp (head? (contents b)) (head? (contents c))) refl
        (place_block-Placed b cs v s w.1 t.1 a.1)
    where
      stay : StartsBefore b c → Placed (b ∷ c ∷ cs) (b ∷ c ∷ cs)
      stay h = record {
        same = refl;
        in_range = (v, w);
        sorted = (s, t);
        weighs = refl;
        counts = refl;
        ascending = ((h, before-All b c cs h a.0), a);
        carries = λ d h. h;
      }

      go :
          (r : Ordering)
          → option_cmp (head? (contents b)) (head? (contents c)) ≡ r
          → ((ds : List (Block A)) × (place_block b cs ≡ some ds) × Placed (b ∷ cs) ds)
          → (ds : List (Block A)) × (place_block b (c ∷ cs) ≡ some ds) × Placed (b ∷ c ∷ cs) ds
      go lt e _ = (
        b ∷ c ∷ cs,
        place_stays b c cs (first-contents v) (first-contents w.0) (λ h. cc),
        stay (λ h. cc),
      )
      go eq e _ = (
        b ∷ c ∷ cs,
        place_stays b c cs (first-contents v) (first-contents w.0) (λ h. cc),
        stay (λ h. cc),
      )
      go gt e (ds, g, p) = (
        c ∷ ds,
        place_goes_on b c cs (first-contents v) (first-contents w.0) e g,
        record {
          same =
              ap (union (contents c)) p.same
              ∙ union_swap (contents c) (contents b) (union_all cs) t.0 s
                  (union_all-IsSorted cs t.1);
          in_range = (w.0, p.in_range);
          sorted = (t.0, p.sorted);
          weighs = omega (arith, p.weighs);
          counts = omega (arith, p.counts);
          ascending = (p.carries c (option_cmp-gt _ _ e, a.0), p.ascending);
          carries = λ d h. (h.1.0, p.carries d (h.0, h.1.1));
        },
      )
