-- ===== src/Payload/Builder/Loop.antt =====
-- The loop of `SetBuilder::finalize`: what one round cuts off, and that the rounds end.
use Prim.Native.Nat.Ordering.{gt}
use rtrtr.Base.{
  ℕ, suc, ◌+◌, ◌-◌, ◌*◌, ◌≤◌, ◌<◌, ◌≡◌, ap, ◌∙◌, sym, inl, inr, List, [], ◌∷◌, ◌++◌, Option, none,
  some, length, head?, All, slice, arith, lt-cases, Bool-cases, append-nil, slice_nil, slice-append,
  le→leb, lt→ltb, ltb-le,
}
use native.Mathlib.Nat.{add-zero}
use rtrtr.Order.{Order, IsSorted}
use rtrtr.Sorted.Union.{union, union_prefix}
use rtrtr.Payload.Block.{Block, InRange, contents, get_from_pack, head_until}
use rtrtr.Payload.Block
use rtrtr.Payload.Block.Laws.{is_nil, nil_of, cons_of, rest, len-contents, length-contents}
use rtrtr.Payload.Set.{Set, flatten, AllInRange, NoneEmpty}
use rtrtr.Payload.Merge.{weight, advance_before}
use rtrtr.Payload.Merge.Advance.{advance_before-Before}
use rtrtr.Payload.Merge.Heads.{get_first}
use rtrtr.Payload.Builder.{
  strip_empty, sort_blocks, find_first, push_until, start_after, finalize_loop,
}
use rtrtr.Payload.Builder.Placing.{union_all, StartsBefore}
use rtrtr.Payload.Builder.Sorting.{union_all-Least}
use rtrtr.Payload.Builder.Start.{bonus, rounds, After, start_after-After}

module _ {ℓ} {A : Type ℓ} ⦃o : Order A⦄ where
  pub push_until_lem :
      (b : Block A) (e : ℕ) (res : List (Block A)) (n : ℕ)
      → InRange b
      → b.start ≤ e
      → e ≤ b.end
      → (new : List (Block A)) × (push_until b e res n
          ≡ some (res ++ new, n + length (flatten new)))
        × (flatten new ≡ slice b.pack.items b.start e)
        × AllInRange new
        × NoneEmpty new
  unfolding push_until flatten contents head_until
  push_until_lem b e res n v h k = elim (lt-cases b.start e) [
    | inr ge ↦ (
      [],
      rw (ltb-le b.start e ge, push_until) (rw (append-nil res, add-zero n)),
      sym (slice_nil _ _ _ ge),
      tt,
      tt,
    )
    | inl below ↦
        let new : Block A = record { pack = b.pack; range = record { start = b.start; end = e } } in
        let w : InRange new = record { ordered = h; bounded = omega (arith, v.bounded) } in
        (
          new ∷ [],
          rw (lt→ltb b.start e below, push_until)
              (rw (le→leb _ _ k)
                (rw (len-contents w) (rw (append-nil (slice b.pack.items b.start e))))),
          append-nil _,
          (w, tt),
          (below, tt),
        )
  ]

  -- What the loop gives: the union of the blocks' items, in blocks behind those so far.
  pub record Done (goal : List A) (res : List (Block A)) (n : ℕ) (r : Option (Set A)) : Type ℓ where
    pub new : List (Block A)
    pub gives : r ≡ some (record { blocks = res ++ new; len = n + length (flatten new) })
    pub items : flatten new ≡ goal
    pub in_range : AllInRange new
    pub none_empty : NoneEmpty new

  pub loop_over :
      (f : ℕ) (src res : List (Block A)) (n : ℕ) {c : List (Block A)}
      → strip_empty src ≡ some c
      → sort_blocks c ≡ some []
      → finalize_loop (suc f) src res n ≡ some (record { blocks = res; len = n })
  unfolding finalize_loop
  loop_over f src res n p q = rw p (rw q)

  pub loop_last :
      (f : ℕ) (src res : List (Block A)) (n : ℕ) {c bs : List (Block A)} {b : Block A} {k : ℕ}
      → strip_empty src ≡ some c
      → sort_blocks c ≡ some (b ∷ bs)
      → find_first bs ≡ some none
      → Block.len b ≡ some k
      → finalize_loop (suc f) src res n ≡ some (record { blocks = res ++ b ∷ []; len = n + k })
  unfolding finalize_loop
  loop_last f src res n p q g h = rw p (rw q (rw g (rw h)))

  abbrev pub cut : Block A → ℕ → Block A
  cut b e = record b { range = record { start = e; end = b.end } }

  pub loop_cut :
      (f : ℕ) (src res : List (Block A)) (n : ℕ) {c bs : List (Block A)} {b : Block A} {y : A}
      {e : ℕ} {res1 : List (Block A)} {n1 : ℕ}
      → strip_empty src ≡ some c
      → sort_blocks c ≡ some (b ∷ bs)
      → find_first bs ≡ some (some y)
      → advance_before (suc (b.end - b.start)) b y b.start ≡ some e
      → push_until b e res n ≡ some (res1, n1)
      → finalize_loop (suc f) src res n ≡ finalize_loop f (cut b (start_after b y e) ∷ bs) res1 n1
  unfolding finalize_loop
  loop_cut f src res n p q g h k = rw p (rw q (rw g (rw h (rw k))))

  -- A round that cuts the first block.
  pub record Round (b : Block A) (bs : List (Block A)) (y : A) (e : ℕ) : Type ℓ where
    pub advances : advance_before (suc (b.end - b.start)) b y b.start ≡ some e
    pub from : b.start ≤ e
    pub upto : e ≤ b.end
    pub in_range : InRange (cut b (start_after b y e))
    pub sorted : IsSorted (contents (cut b (start_after b y e)))
    pub splits :
        union_all (b ∷ bs)
        ≡ slice b.pack.items b.start e ++ union_all (cut b (start_after b y e) ∷ bs)
    pub fewer :
        rounds (cut b (start_after b y e) ∷ bs) < 2 * (weight (b ∷ bs) + length (b ∷ bs)) + 1

  pub bonus-le-one : (bs : List (Block A)) → bonus bs ≤ 1
  bonus-le-one [] = omega arith
  bonus-le-one (b ∷ bs) = ground arith

  first_le :
      (b : Block A) (bs : List (Block A)) (x y : A) {xs ys : List A}
      → contents b ≡ x ∷ xs
      → All (StartsBefore b) bs
      → union_all bs ≡ y ∷ ys
      → ¬ (o.cmp x y ≡ gt)
  first_le b bs x y e a u h = elim (union_all-Least b bs (ap head? e) a) [
    | inl n ↦ cc (n, u)
    | inr (z, zs, p, k) ↦ let z_y : z ≡ y = cc (p, u) in k (rw z_y h)
  ]

  fewer_lem :
      (b : Block A) (bs : List (Block A)) (y : A) (ys : List A) (e e' : ℕ)
      → InRange b
      → All (StartsBefore b) bs
      → union_all bs ≡ y ∷ ys
      → After b y ys e e'
      → b.start ≤ e
      → rounds (cut b e' ∷ bs) < 2 * (weight (b ∷ bs) + length (b ∷ bs)) + 1
  unfolding weight contents slice
  fewer_lem b bs y ys e e' v a u t h = elim (Bool-cases (is_nil (contents b))) [
    | inl n ↦
        let none_left : b.start ≡ b.end =
          omega (arith, length-contents v, ap length (nil_of (contents b) n)) in
        let empty : contents (cut b e') ≡ [] =
          slice_nil b.pack.items e' b.end (omega (arith, t.from, t.upto)) in
        rw empty (omega (arith, t.from, t.upto))
    | inr n ↦
        let (x, xs, p) = cons_of (contents b) n in
        let moved : b.start < e' = t.moves x (get_first b v p) (first_le b bs x y p a u) in
        omega (arith, moved, t.upto, bonus-le-one (cut b e' ∷ bs))
  ]

  pub round_lem :
      (b : Block A) (bs : List (Block A)) (y : A) {ys : List A}
      → InRange b
      → IsSorted (contents b)
      → All (StartsBefore b) bs
      → union_all bs ≡ y ∷ ys
      → (e : ℕ) × Round b bs y e
  unfolding union_all contents weight
  round_lem b bs y {ys = ys} v s a u =
      let (e, g, f) =
        advance_before-Before (suc (b.end - b.start)) b y b.start v (omega arith) v.ordered
          (omega arith) in
      let t = start_after-After b y ys e v s f.from f in
      (
        e,
        record {
          advances = g;
          from = f.from;
          upto = f.upto;
          in_range = record { ordered = t.upto; bounded = v.bounded };
          sorted = t.sorted;
          splits = rw u (
              ap (λ w. union w (y ∷ ys))
                (sym (slice-append b.pack.items b.start e b.end f.from f.upto))
              ∙ union_prefix (slice b.pack.items b.start e) (rest b e) y ys f.below
              ∙ ap (◌++◌ (slice b.pack.items b.start e)) t.same);
          fewer = fewer_lem b bs y ys e (start_after b y e) v a u t f.from;
        },
      )
