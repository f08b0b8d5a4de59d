-- ===== src/Payload/Merge/Advance.antt =====
-- How far a round of `Set::merge` moves the indices of its two blocks.
use mathlib.Core.Path.{◌≡⟨◌⟩◌, ◌∎}
use rtrtr.Base.{
  ℕ, zero, suc, ◌+◌, ◌-◌, ◌≤◌, ◌<◌, ◌≡◌, ap, ap₂, ◌∙◌, sym, ◌⊎◌, inl, inr, true, false, List, [],
  ◌∷◌, ◌++◌, some, slice, All, arith, Bool-cases, slice_nil, slice-append, append_assoc,
}
use rtrtr.Order.{Order, ◌≺◌, is_lt, is_eq}
use rtrtr.Sorted.Elem.{eq_of_is_eq}
use rtrtr.Sorted.Union.{union, union_prefix, union_common}
use rtrtr.Payload.Block.{Block, InRange, contents, get_from_pack}
use rtrtr.Payload.Block.Laws.{rest, contents-rest, get_from_pack-rest, slice-get_from_pack}
use rtrtr.Payload.Merge.{advance_before, advance_equal}

module _ {ℓ} {A : Type ℓ} ⦃o : Order A⦄ where
  lt_of_is_lt : (x y : A) → is_lt x y ≡ true → x ≺ y
  lt_of_is_lt x y h = ground arith

  -- Where `advance_before` stops: behind items below the bound, at one that is not.
  pub record Before (b : Block A) (y : A) (i e : ℕ) : Type ℓ where
    pub from : i ≤ e
    pub upto : e ≤ b.end
    pub below : All (λ x. x ≺ y) (slice b.pack.items i e)
    pub stops :
        (rest b e ≡ [])
        ⊎ ((x : A) × (rest b e ≡ x ∷ rest b (suc e))
            × (get_from_pack b e ≡ some x)
            × (is_lt x y ≡ false))

  pub advance_before-Before :
      (f : ℕ) (b : Block A) (y : A) (i : ℕ)
      → InRange b
      → b.start ≤ i
      → i ≤ b.end
      → b.end < f + i
      → (e : ℕ) × (advance_before f b y i ≡ some e) × Before b y i e
  unfolding advance_before
  advance_before-Before zero b y i v h k m = absurd (omega arith)
  advance_before-Before (suc f) b y i v h k m = elim (get_from_pack-rest b i v h k) [
    | inl (e, p, q) ↦ (
      i,
      rw (p, advance_before),
      record {
        from = omega arith;
        upto = k;
        below = rw (slice_nil b.pack.items i i (omega arith)) tt;
        stops = inl q;
      },
    )
    | inr (x, lt, p, q) ↦ elim (Bool-cases (is_lt x y)) [
      | inl less ↦
          let (e, r, t) = advance_before-Before f b y (suc i) v (omega arith) lt (omega arith) in
          (
            e,
            rw (p, advance_before) (rw less r),
            record {
              from = omega (arith, t.from);
              upto = t.upto;
              below =
                  rw (slice-get_from_pack b i e p (omega (arith, t.from)))
                    (lt_of_is_lt x y less, t.below);
              stops = t.stops;
            },
          )
      | inr stop ↦ (
        i,
        rw (p, advance_before) (rw stop),
        record {
          from = omega arith;
          upto = k;
          below = rw (slice_nil b.pack.items i i (omega arith)) tt;
          stops = inr (x, q, p, stop);
        },
      )
    ]
  ]

  pub record Equal (l r : Block A) (i j i' j' : ℕ) : Type ℓ where
    pub from_left : i ≤ i'
    pub upto_left : i' ≤ l.end
    pub from_right : j ≤ j'
    pub upto_right : j' ≤ r.end
    pub same : slice l.pack.items i i' ≡ slice r.pack.items j j'
    pub moves : (x : A) → get_from_pack l i ≡ some x → get_from_pack r j ≡ some x → i < i'

  pub advance_equal-Equal :
      (f : ℕ) (l r : Block A) (i j : ℕ)
      → InRange l
      → InRange r
      → l.start ≤ i
      → i ≤ l.end
      → r.start ≤ j
      → j ≤ r.end
      → l.end < f + i
      → (i' : ℕ) × (j' : ℕ) × (advance_equal f l r i j ≡ some (i', j')) × Equal l r i j i' j'
  unfolding advance_equal
  advance_equal-Equal zero l r i j v w h k h' k' m = absurd (omega arith)
  advance_equal-Equal (suc f) l r i j v w h k h' k' m = elim (get_from_pack-rest l i v h k) [
    | inl (e, p, q) ↦ (i, j, rw (p, advance_equal), stay (λ z a b. absurd (ground arith)))
    | inr (x, lt, p, q) ↦ elim (get_from_pack-rest r j w h' k') [
      | inl (e', p', q') ↦
          (i, j, rw (p, advance_equal) (rw p'), stay (λ z a b. absurd (ground arith)))
      | inr (y, lt', p', q') ↦ elim (Bool-cases (is_eq x y)) [
        | inr differ ↦ (
          i,
          j,
          rw (p, advance_equal) (rw p' (rw differ)),
          stay (λ z a b. absurd (ground (arith, o.cmp_refl z))),
        )
        | inl alike ↦
            let (a, b, g, t) =
              advance_equal-Equal f l r (suc i) (suc j) v w (omega arith) lt (omega arith) lt'
                (omega arith) in
            (
              a,
              b,
              rw (p, advance_equal) (rw p' (rw (alike) g)),
              record {
                from_left = omega (arith, t.from_left);
                upto_left = t.upto_left;
                from_right = omega (arith, t.from_right);
                upto_right = t.upto_right;
                moves = λ z _ _. omega (arith, t.from_left);
                same =
                    rw
                      (
                        slice-get_from_pack l i a p (omega (arith, t.from_left)),
                        slice-get_from_pack r j b p' (omega (arith, t.from_right)),
                      )
                      (ap₂ ◌∷◌ (eq_of_is_eq x y alike) t.same);
              },
            )
      ]
    ]
  ]
    where
      stay :
          ((z : A) → get_from_pack l i ≡ some z → get_from_pack r j ≡ some z → i < i)
          → Equal l r i j i j
      stay none_moves = record {
        moves = none_moves;
        from_left = omega arith;
        upto_left = k;
        from_right = omega arith;
        upto_right = k';
        same =
            rw (slice_nil l.pack.items i i (omega arith), slice_nil r.pack.items j j (omega arith));
      }

  -- What a round of the loop does to the two blocks, whatever blocks come behind them.
  pub record IsRound (l r new l' r' : Block A) : Type ℓ where
    pub splits :
        (xs ys : List A)
        → union (contents l ++ xs) (contents r ++ ys)
          ≡ contents new ++ union (contents l' ++ xs) (contents r' ++ ys)
    pub new_in_range : InRange new
    pub left_in_range : InRange l'
    pub right_in_range : InRange r'
    pub nonempty : new.start < new.end
    pub shrinks : (l'.end - l'.start) + (r'.end - r'.start) < (l.end - l.start) + (r.end - r.start)

  pub splits_lem :
      (l r : Block A) (i i' j' : ℕ) {y : A} {zs : List A}
      → contents r ≡ y ∷ zs
      → l.start ≤ i
      → Before l y l.start i
      → Equal l r i r.start i' j'
      → (xs ys : List A)
      → union (contents l ++ xs) (contents r ++ ys)
        ≡ slice l.pack.items l.start i' ++ union (rest l i' ++ xs) (rest r j' ++ ys)
  splits_lem l r i i' j' {y = y} {zs = zs} e h b q xs ys =
      union (contents l ++ xs) (contents r ++ ys)
      ≡⟨ ap (λ w. union (w ++ xs) (contents r ++ ys)) left_parts ⟩
        union ((before ++ (common ++ rest l i')) ++ xs) (contents r ++ ys)
      ≡⟨ ap₂ union (append_assoc before (common ++ rest l i') xs) (ap (λ w. w ++ ys) e) ⟩
        union (before ++ ((common ++ rest l i') ++ xs)) (y ∷ (zs ++ ys))
      ≡⟨ union_prefix before ((common ++ rest l i') ++ xs) y (zs ++ ys) b.below ⟩
        before ++ union ((common ++ rest l i') ++ xs) (y ∷ (zs ++ ys))
      ≡⟨ ap (λ w. before ++ union ((common ++ rest l i') ++ xs) (w ++ ys)) (sym e ∙ right_parts) ⟩
        before ++ union ((common ++ rest l i') ++ xs) ((common ++ rest r j') ++ ys)
      ≡⟨ ap (◌++◌ before) (
          ap₂ union (append_assoc common (rest l i') xs) (append_assoc common (rest r j') ys)
          ∙ union_common common (rest l i' ++ xs) (rest r j' ++ ys)) ⟩
        before ++ (common ++ union (rest l i' ++ xs) (rest r j' ++ ys))
      ≡⟨ sym (append_assoc before common (union (rest l i' ++ xs) (rest r j' ++ ys))) ⟩
        (before ++ common) ++ union (rest l i' ++ xs) (rest r j' ++ ys)
      ≡⟨ ap (λ w. w ++ union (rest l i' ++ xs) (rest r j' ++ ys))
          (slice-append l.pack.items l.start i i' h q.from_left) ⟩
        slice l.pack.items l.start i' ++ union (rest l i' ++ xs) (rest r j' ++ ys) ∎
    where
      before : List A
      before = slice l.pack.items l.start i

      common : List A
      common = slice l.pack.items i i'

      left_parts : contents l ≡ before ++ (common ++ rest l i')
      left_parts =
          contents-rest l
          ∙ sym (slice-append l.pack.items l.start i l.end h b.upto)
          ∙ ap (◌++◌ before) (sym (slice-append l.pack.items i i' l.end q.from_left q.upto_left))

      right_parts : contents r ≡ common ++ rest r j'
      right_parts =
          contents-rest r
          ∙ sym (slice-append r.pack.items r.start j' r.end q.from_right q.upto_right)
          ∙ ap (λ w. w ++ rest r j') (sym q.same)
