-- ===== src/Payload/Block/Overlap.antt =====
-- `Block::overlaps` finds a common item of two ascending sequences.
use Prim.Native.Nat.Ordering.{lt, eq, gt}
use rtrtr.Base.{
  Ordering, ◌≡◌, refl, ap, ap₂, ◌∙◌, sym, Bool, true, false, ◌||◌, List, [], ◌∷◌, ◌++◌, some, All,
  arith,
}
use rtrtr.Order.{Order, ◌≺◌, elem, IsSorted}
use rtrtr.Sorted.Elem.{is_eq_self, below_trans, elem-below, elem-above, elem-append, All-imp}
use rtrtr.Payload.Block.{
  Block, InRange, contents, Probe, exhausted, found, stopped, probe, overlaps_items, overlaps,
}
use rtrtr.Payload.Block.Laws.{as_slice-contents}

module _ {ℓ} {A : Type ℓ} ⦃o : Order A⦄ where
  -- The lists have an item in common.
  unfoldable pub meets : List A → List A → Bool
  meets [] ys = false
  meets (x ∷ xs) ys = elem x ys || meets xs ys

  -- Where the inner loop stops in an ascending list.
  Probed : A → List A → Probe A → Type ℓ
  Probed x ys exhausted = Unit {ℓ} × All (λ y. y ≺ x) ys
  Probed x ys found = Unit {ℓ} × (elem x ys ≡ true)
  Probed x ys (stopped r) =
      (zs : List A) × (ys ≡ zs ++ r) × All (λ y. y ≺ x) zs × All (λ y. x ≺ y) r × IsSorted r

  probe-Probed : (x : A) (ys : List A) → IsSorted ys → Probed x ys (probe x ys)
  unfolding probe Probed
  probe-Probed x [] s = (tt, tt)
  probe-Probed x (y ∷ ys) s = go (o.cmp y x) refl (probe x ys) refl (probe-Probed x ys s.1)
    where
      go :
          (c : Ordering)
          → o.cmp y x ≡ c
          → (p : Probe A) → probe x ys ≡ p
          → Probed x ys (probe x ys)
          → Probed x (y ∷ ys) (probe x (y ∷ ys))
      go lt e exhausted q h =
          let k : Probed x ys exhausted = rw q at h in rw (e, probe) (rw q (tt, (e, k.1)))
      go lt e found q h =
          let k : Probed x ys found = rw q at h in
          let m : elem x ys ≡ true = k.1 in rw (e, probe) (rw q (tt, ground arith))
      go lt e (stopped r) q h =
          let k : Probed x ys (stopped r) = rw q at h in
          rw (e, probe) (rw q (y ∷ k.0, ap (◌∷◌ y) k.1, (e, k.2), k.3, k.4))
      go eq e p q h = rw (e, probe) (rw (o.eq_of_cmp y x e) (tt, rw (is_eq_self x)))
      go gt e p q h =
          let above : x ≺ y = o.lt_of_gt y x e in
          rw (e, probe) ([], refl, tt, (above, below_trans x y ys above s.0), s)

  meets-drop :
      (x : A) (zs r xs : List A)
      → All (λ y. y ≺ x) zs
      → All (λ y. x ≺ y) xs
      → meets xs (zs ++ r) ≡ meets xs r
  unfolding meets
  meets-drop x zs r [] h k = refl
  meets-drop x zs r (w ∷ xs) h k =
      ap₂ ◌||◌
        (elem-append w zs r
          ∙ ap (λ b. b || elem w r)
              (elem-above w zs (All-imp (λ y l. o.lt_trans y x w l k.0) zs h)))
        (meets-drop x zs r xs h k.1)

  pub meets-nil : (xs : List A) → meets xs [] ≡ false
  unfolding meets
  meets-nil [] = refl
  meets-nil (x ∷ xs) = meets-nil xs

  meets_above :
      (x : A) (xs ys : List A) → All (λ y. y ≺ x) ys → All (λ w. x ≺ w) xs → meets xs ys ≡ false
  unfolding meets
  meets_above x [] ys h k = refl
  meets_above x (w ∷ xs) ys h k =
      rw (elem-above w ys (All-imp (λ y l. o.lt_trans y x w l k.0) ys h))
        (meets_above x xs ys h k.1)

  pub overlaps_items-meets :
      (xs ys : List A) → IsSorted xs → IsSorted ys → overlaps_items xs ys ≡ meets xs ys
  unfolding overlaps_items meets
  overlaps_items-meets [] ys s t = refl
  overlaps_items-meets (x ∷ xs) ys s t =
      go (probe x ys) refl (probe-Probed x ys t) (λ r h. overlaps_items-meets xs r s.1 h)
    where
      go :
          (p : Probe A)
          → probe x ys ≡ p
          → Probed x ys (probe x ys)
          → ((r : List A) → IsSorted r → overlaps_items xs r ≡ meets xs r)
          → overlaps_items (x ∷ xs) ys ≡ meets (x ∷ xs) ys
      go exhausted q h again =
          let k' : Probed x ys exhausted = rw q at h in
          let k : All (λ y. y ≺ x) ys = unfold Probed in (k'.1) in
          rw (q, overlaps_items) (rw (elem-above x ys k) (sym (meets_above x xs ys k s.0)))
      go found q h again =
          let k' : Probed x ys found = rw q at h in
          let k : elem x ys ≡ true = unfold Probed in (k'.1) in rw (q, overlaps_items) (rw k)
      go (stopped r) q h again =
          let k : Probed x ys (stopped r) = rw q at h in
          let k' : (zs : List A) × (ys ≡ zs ++ r)
              × All (λ y. y ≺ x) zs
              × All (λ y. x ≺ y) r
              × IsSorted r =
            unfold Probed in k in
          rw (q, overlaps_items)
            (again r k'.4
              ∙ sym (
                  rw k'.1 (
                    ap₂ ◌||◌
                      (elem-append x k'.0 r
                        ∙ ap₂ ◌||◌ (elem-above x k'.0 k'.2) (elem-below x r k'.3))
                      (meets-drop x k'.0 r xs k'.2 s.0))))

  -- `overlaps` of two ascending blocks in range does not panic, and tells whether they have an
  -- item in common.
  pub overlaps-meets :
      (b c : Block A)
      → InRange b
      → InRange c
      → IsSorted (contents b)
      → IsSorted (contents c)
      → overlaps b c ≡ some (meets (contents b) (contents c))
  unfolding overlaps
  overlaps-meets b c v w s t =
      rw (as_slice-contents v)
        (rw (as_slice-contents w) (rw (overlaps_items-meets (contents b) (contents c) s t)))
