-- ===== src/Payload/Builder/Start.antt =====
-- How a round of `SetBuilder::finalize` begins: empty blocks go, and the first block is cut.
use Prim.Native.Nat.Ordering.{gt}
use rtrtr.Base.{
  ℕ, suc, ◌+◌, ◌*◌, ◌≤◌, ◌<◌, ◌≡◌, refl, ap, ◌∙◌, ◌⊎◌, inl, inr, true, false, List, [], ◌∷◌, some,
  length, All, slice, arith, if◌then◌else◌, lt-cases, Bool-cases, slice-append,
}
use rtrtr.Order.{Order, ◌≺◌, is_lt, is_eq, IsSorted}
use rtrtr.Sorted.Elem.{eq_of_is_eq, IsSorted-of_append}
use rtrtr.Sorted.Union.{union}
use rtrtr.Payload.Block.{Block, InRange, contents, get_from_pack}
use rtrtr.Payload.Block.Laws.{
  is_nil, nil_of, rest, contents-rest, get_from_pack-rest, is_empty-contents,
}
use rtrtr.Payload.Set.{AllInRange}
use rtrtr.Payload.Merge.{weight}
use rtrtr.Payload.Merge.Advance.{Before}
use rtrtr.Payload.Builder.{strip_empty, start_after}
use rtrtr.Payload.Builder.Placing.{union_all, AllSorted}

module _ {ℓ} {A : Type ℓ} ⦃o : Order A⦄ where
  -- The rounds still to come: each cuts off an item, drops a block, or makes the first one empty.
  abbrev pub bonus : List (Block A) → ℕ
  bonus [] = 0
  bonus (b ∷ bs) = if is_nil (contents b) then 0 else 1

  abbrev pub rounds : List (Block A) → ℕ
  rounds bs = 2 * (weight bs + length bs) + bonus bs

  pub record Stripped (bs cs : List (Block A)) : Type ℓ where
    pub same : union_all cs ≡ union_all bs
    pub in_range : AllInRange cs
    pub sorted : AllSorted cs
    pub smaller : weight cs + length cs ≤ weight bs + length bs
    pub full :
        (cs ≡ [])
        ⊎ ((b : Block A) × (ds : List (Block A)) × (cs ≡ b ∷ ds)
            × (is_nil (contents b) ≡ false)
            × (2 * (weight cs + length cs) + 1 ≤ rounds bs))

  pub strip_empty-Stripped :
      (bs : List (Block A))
      → AllInRange bs
      → AllSorted bs
      → (cs : List (Block A)) × (strip_empty bs ≡ some cs) × Stripped bs cs
  unfolding strip_empty union_all union weight
  strip_empty-Stripped [] v s = (
    [],
    refl,
    record { same = refl; in_range = tt; sorted = tt; smaller = omega arith; full = inl refl },
  )
  strip_empty-Stripped (b ∷ bs) v s = elim (Bool-cases (is_nil (contents b))) [
    | inr e ↦ (
      b ∷ bs,
      rw (is_empty-contents v.0) (rw e),
      record {
        same = refl;
        in_range = v;
        sorted = s;
        smaller = omega arith;
        full = inr (b, bs, refl, e, rw e (omega arith));
      },
    )
    | inl e ↦
        let (cs, g, p) = strip_empty-Stripped bs v.1 s.1 in
        (
          cs,
          rw (is_empty-contents v.0) (rw e g),
          record {
            same = p.same ∙ rw (nil_of (contents b) e);
            in_range = p.in_range;
            sorted = p.sorted;
            smaller = omega (arith, p.smaller);
            full = lighter b bs cs e p;
          },
        )
  ]
    where
      lighter :
          (b : Block A) (bs cs : List (Block A))
          → is_nil (contents b) ≡ true
          → Stripped bs cs
          → (cs ≡ [])
            ⊎ ((c : Block A) × (ds : List (Block A)) × (cs ≡ c ∷ ds)
                × (is_nil (contents c) ≡ false)
                × (2 * (weight cs + length cs) + 1 ≤ rounds (b ∷ bs)))
      lighter b bs cs e p = elim p.full [
        | inl h ↦ inl h
        | inr (c, ds, h, n, _) ↦ inr (c, ds, h, n, rw e (omega (arith, p.smaller)))
      ]

  -- An item below all of the other list's is only skipped where both begin with it.
  union_skip :
      (y : A) (bs ys : List A) → All (λ b. y ≺ b) bs → union (y ∷ bs) (y ∷ ys) ≡ union bs (y ∷ ys)
  unfolding union
  union_skip y [] ys h = rw (o.cmp_refl y, union)
  union_skip y (b ∷ bs) ys h = rw (o.cmp_refl y, union) (rw (o.gt_of_lt y b h.0, union))

  -- Where the first block begins after a round.
  pub record After (b : Block A) (y : A) (ys : List A) (e : ℕ) (e' : ℕ) : Type ℓ where
    pub from : e ≤ e'
    pub upto : e' ≤ b.end
    pub same : union (rest b e) (y ∷ ys) ≡ union (rest b e') (y ∷ ys)
    pub moves : (x : A) → get_from_pack b b.start ≡ some x → ¬ (o.cmp x y ≡ gt) → b.start < e'
    pub sorted : IsSorted (rest b e')

  not_lt_eq : (x y : A) → is_lt x y ≡ false → is_eq x y ≡ false → o.cmp x y ≡ gt
  not_lt_eq x y h k = ground arith

  pub start_after-After :
      (b : Block A) (y : A) (ys : List A) (e : ℕ)
      → InRange b
      → IsSorted (contents b)
      → b.start ≤ e
      → Before b y b.start e
      → After b y ys e (start_after b y e)
  unfolding start_after
  start_after-After b y ys e v s h f = elim (get_from_pack-rest b e v h f.upto) [
    | inl (p, g, r) ↦
        rw (g, start_after)
          (record {
            from = omega arith;
            upto = f.upto;
            same = refl;
            moves = λ x q n. elim (lt-cases b.start e) [
              | inl passed ↦ passed
              | inr ge ↦ let t : b.start ≡ e = omega arith in cc (ap (get_from_pack b) t, g, q)
            ];
            sorted = parts.1;
          })
    | inr (x, below, g, r) ↦ elim (Bool-cases (is_eq x y)) [
      | inl k ↦
          let tail : IsSorted (x ∷ rest b (suc e)) = rw r at parts.1 in
          let x_y : x ≡ y = eq_of_is_eq x y k in
          rw (g, start_after)
            (rw k (record {
              from = omega arith;
              upto = below;
              same = rw r (rw x_y (union_skip y (rest b (suc e)) ys (rw x_y at tail.0)));
              moves = λ _ _ _. omega arith;
              sorted = tail.1;
            }))
      | inr k ↦
          rw (g, start_after)
            (rw k (record {
              from = omega arith;
              upto = f.upto;
              same = refl;
              moves = λ z q n. elim (lt-cases b.start e) [
                | inl passed ↦ passed
                | inr ge ↦
                    let t : b.start ≡ e = omega arith in
                    let z_x : z ≡ x = cc (ap (get_from_pack b) t, g, q) in
                    absurd (n (rw z_x (not_lt_eq x y (stop x g r) k)))
              ];
              sorted = parts.1;
            }))
    ]
  ]
    where
      parts :
          IsSorted (slice b.pack.items b.start e)
          × IsSorted (rest b e)
          × All (λ x. All (λ z. x ≺ z) (rest b e)) (slice b.pack.items b.start e)
      parts =
          IsSorted-of_append _ _
            (rw (slice-append b.pack.items b.start e b.end h f.upto) (rw contents-rest at s))

      stop :
          (x : A) → get_from_pack b e ≡ some x → rest b e ≡ x ∷ rest b (suc e) → is_lt x y ≡ false
      stop x g r = elim f.stops [
        | inl t ↦ cc (t, r)
        | inr (z, _, g', n) ↦ let z_x : z ≡ x = cc (g, g') in rw z_x at n
      ]
