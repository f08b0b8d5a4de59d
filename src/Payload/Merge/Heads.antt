-- ===== src/Payload/Merge/Heads.antt =====
-- One round of `Set::merge`: how far the indices get, and what the new block holds.
use rtrtr.Base.{
  ℕ, suc, ◌-◌, ◌≤◌, ◌<◌, ◌≡◌, ap, ◌∙◌, sym, inl, inr, true, false, List, ◌∷◌, ◌++◌, some, arith,
  le→leb, lt-cases, Bool-cases,
}
use rtrtr.Order.{Order, is_lt}
use rtrtr.Sorted.Union.{union_comm}
use rtrtr.Payload.Block.{Block, InRange, contents, get_from_pack, split_off_at, first}
use rtrtr.Payload.Block.Laws.{rest, contents-rest, get_from_pack-rest, first-contents}
use rtrtr.Payload.Merge.{merge_heads, merge_round}
use rtrtr.Payload.Merge.Advance.{
  Before, advance_before-Before, Equal, advance_equal-Equal, IsRound, splits_lem,
}

module _ {ℓ} {A : Type ℓ} ⦃o : Order A⦄ where
  pub get_first :
      (b : Block A) {x : A} {xs : List A}
      → InRange b
      → contents b ≡ x ∷ xs
      → get_from_pack b b.start ≡ some x
  get_first b v e = elim (get_from_pack-rest b b.start v (omega arith) v.ordered) [
    | inl (_, _, q) ↦ cc (sym e ∙ contents-rest b ∙ q)
    | inr (z, _, p, q) ↦ cc (sym e ∙ contents-rest b ∙ q, p)
  ]

  eq_of_not_lt : (x y : A) → is_lt x y ≡ false → is_lt y x ≡ false → x ≡ y
  eq_of_not_lt x y h k = o.eq_of_cmp x y (ground (arith, o.lt_of_gt x y))

  progress :
      (l r : Block A) (i i' j' : ℕ) {x y : A} {xs zs : List A}
      → InRange l
      → InRange r
      → contents l ≡ x ∷ xs
      → contents r ≡ y ∷ zs
      → is_lt y x ≡ false
      → Before l y l.start i
      → Equal l r i r.start i' j'
      → l.start < i'
  progress l r i i' j' {x = x} {y = y} v w e e' n b q = elim (lt-cases l.start i) [
    | inl lt ↦ omega (arith, q.from_left)
    | inr ge ↦
        let same : i ≡ l.start = omega (arith, b.from) in
        elim b.stops [
          | inl t ↦ cc (contents-rest l, ap (rest l) same)
          | inr (z, t, g, m) ↦
              let first_left : get_from_pack l i ≡ some x = rw same (get_first l v e) in
              let z_x : z ≡ x = cc (g, first_left) in
              let x_y : x ≡ y = eq_of_not_lt x y (rw z_x at m) n in
              omega (arith, b.from, q.moves x first_left (rw x_y (get_first r w e')))
        ]
  ]

  pub merge_heads-IsRound :
      (l r : Block A) {x y : A} {xs zs : List A}
      → InRange l
      → InRange r
      → contents l ≡ x ∷ xs
      → contents r ≡ y ∷ zs
      → is_lt y x ≡ false
      → (new : Block A) × (l' : Block A) × (r' : Block A) × (merge_heads l r ≡ some (new, l', r'))
        × IsRound l r new l' r'
  unfolding merge_heads split_off_at contents
  merge_heads-IsRound l r {x = x} {y = y} v w e e' n =
      let (i, g, b) =
        advance_before-Before (suc (l.end - l.start)) l y l.start v (omega arith) v.ordered
          (omega arith) in
      let (i', j', g', q) =
        advance_equal-Equal (suc (l.end - i)) l r i r.start v w b.from b.upto (omega arith)
          w.ordered (omega arith) in
      let fwd : l.start ≤ i' = omega (arith, b.from, q.from_left) in
      let moved : l.start < i' = progress l r i i' j' v w e e' n b q in
      (
        record l { range = record { start = l.start; end = i' } },
        record l { range = record { start = i'; end = l.end } },
        record r { range = record { start = j'; end = r.end } },
        rw (first-contents w)
            (rw e' (rw g (rw g' (rw (le→leb l.start i' fwd) (rw (le→leb i' l.end q.upto_left)))))),
        record {
          splits = splits_lem l r i i' j' e' b.from b q;
          new_in_range = record { ordered = fwd; bounded = omega (arith, q.upto_left, v.bounded) };
          left_in_range = record { ordered = q.upto_left; bounded = v.bounded };
          right_in_range = record { ordered = q.upto_right; bounded = w.bounded };
          nonempty = moved;
          shrinks =
              omega (arith, moved, q.upto_left, q.from_right, q.upto_right, v.ordered, w.ordered);
        },
      )

  swap_IsRound : {l r new l' r' : Block A} → IsRound r l new r' l' → IsRound l r new l' r'
  swap_IsRound {l = l} {r = r} {l' = l'} {r' = r'} q = record {
    splits = λ xs ys.
        union_comm (contents l ++ xs) (contents r ++ ys)
        ∙ q.splits ys xs
        ∙ ap (◌++◌ _) (union_comm (contents r' ++ ys) (contents l' ++ xs));
    new_in_range = q.new_in_range;
    left_in_range = q.right_in_range;
    right_in_range = q.left_in_range;
    nonempty = q.nonempty;
    shrinks = omega (arith, q.shrinks);
  }

  not_lt_of_lt : (x y : A) → is_lt x y ≡ true → is_lt y x ≡ false
  not_lt_of_lt x y h = ground (arith, o.gt_of_lt x y)

  merge_round_lt :
      (l r : Block A) {x y : A} {new l' r' : Block A}
      → first l ≡ some (some x)
      → first r ≡ some (some y)
      → is_lt y x ≡ true
      → merge_heads r l ≡ some (new, r', l')
      → merge_round l r ≡ some (new, l', r')
  unfolding merge_round
  merge_round_lt l r p q n g = ground arith

  merge_round_ge :
      (l r : Block A) {x y : A} {res : Block A × Block A × Block A}
      → first l ≡ some (some x)
      → first r ≡ some (some y)
      → is_lt y x ≡ false
      → merge_heads l r ≡ some res
      → merge_round l r ≡ some res
  unfolding merge_round
  merge_round_ge l r p q n g = ground arith

  pub merge_round-IsRound :
      (l r : Block A) {x y : A} {xs zs : List A}
      → InRange l
      → InRange r
      → contents l ≡ x ∷ xs
      → contents r ≡ y ∷ zs
      → (new : Block A) × (l' : Block A) × (r' : Block A) × (merge_round l r ≡ some (new, l', r'))
        × IsRound l r new l' r'
  unfolding merge_round
  merge_round-IsRound l r {x = x} {y = y} v w e e' = elim (Bool-cases (is_lt y x)) [
    | inr n ↦
        let (new, l', r', g, q) = merge_heads-IsRound l r v w e e' n in
        (
          new,
          l',
          r',
          merge_round_ge l r (rw (first-contents v, e)) (rw (first-contents w, e')) n g,
          q,
        )
    | inl n ↦
        let (new, r', l', g, q) = merge_heads-IsRound r l w v e' e (not_lt_of_lt y x n) in
        (
          new,
          l',
          r',
          merge_round_lt l r (rw (first-contents v, e)) (rw (first-contents w, e')) n g,
          swap_IsRound q,
        )
  ]
