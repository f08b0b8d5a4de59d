-- ===== src/Sorted/Elem.antt =====
-- Membership in ascending lists, and that it determines them.
use Prim.Native.Nat.Ordering.{lt, eq, gt}
use rtrtr.Base.{
  Ordering, ◌≡◌, refl, sym, ◌∙◌, ap, ap₂, inl, inr, true, false, ◌||◌, List, [], ◌∷◌, ◌++◌, arith,
  All, Bool-cases,
}
use rtrtr.Order.{Order, ◌≺◌, is_eq, elem, IsSorted}

module _ {ℓ} {A : Type ℓ} where
  pub All-imp {κ μ} :
      {P : A → Type κ} {Q : A → Type μ}
      → ((a : A) → P a → Q a)
      → (xs : List A) → All P xs
      → All Q xs
  All-imp f [] h = tt
  All-imp f (x ∷ xs) h = (f x h.0, All-imp f xs h.1)

  pub All-append {κ} : (P : A → Type κ) (xs ys : List A) → All P xs → All P ys → All P (xs ++ ys)
  All-append P [] ys h k = k
  All-append P (x ∷ xs) ys h k = (h.0, All-append P xs ys h.1 k)

  pub All-of_append {κ} : (P : A → Type κ) (xs ys : List A) → All P (xs ++ ys) → All P xs × All P ys
  All-of_append P [] ys h = (tt, h)
  All-of_append P (x ∷ xs) ys h = let (a, b) = All-of_append P xs ys h.1 in ((h.0, a), b)

module _ {ℓ} {A : Type ℓ} ⦃o : Order A⦄ where
  pub is_eq_self : (a : A) → is_eq a a ≡ true
  is_eq_self a = ground (arith, o.cmp_refl a)

  pub eq_of_is_eq : (a b : A) → is_eq a b ≡ true → a ≡ b
  eq_of_is_eq a b h = o.eq_of_cmp a b (ground arith)

  pub is_eq_of_lt : (a b : A) → a ≺ b → is_eq a b ≡ false
  is_eq_of_lt a b h = ground arith

  pub is_eq_of_gt : (a b : A) → b ≺ a → is_eq a b ≡ false
  is_eq_of_gt a b h = ground (arith, o.gt_of_lt b a h)

  pub below_trans : (a b : A) (xs : List A) → a ≺ b → All (λ x. b ≺ x) xs → All (λ x. a ≺ x) xs
  below_trans a b xs h = All-imp (λ x k. o.lt_trans a b x h k) xs

  pub elem-below : (a : A) (xs : List A) → All (λ x. a ≺ x) xs → elem a xs ≡ false
  elem-below a [] h = refl
  elem-below a (x ∷ xs) h = ground (arith, elem-below a xs h.1, is_eq_of_lt a x h.0)

  pub elem-above : (a : A) (xs : List A) → All (λ x. x ≺ a) xs → elem a xs ≡ false
  elem-above a [] h = refl
  elem-above a (x ∷ xs) h = ground (arith, elem-above a xs h.1, is_eq_of_gt a x h.0)

  pub elem-append : (a : A) (xs ys : List A) → elem a (xs ++ ys) ≡ elem a xs || elem a ys
  elem-append a [] ys = refl
  elem-append a (x ∷ xs) ys = ground (arith, elem-append a xs ys)

  pub All_of_elem {κ} : (P : A → Type κ) (a : A) (xs : List A) → All P xs → elem a xs ≡ true → P a
  All_of_elem P a [] h e = cc
  All_of_elem P a (x ∷ xs) h e = elim (Bool-cases (is_eq a x)) [
    | inl p ↦ rw (eq_of_is_eq a x p) h.0
    | inr q ↦ All_of_elem P a xs h.1 (ground arith)
  ]

  pub All-by_elem {κ} :
      {P : A → Type κ} (xs : List A) → ((a : A) → elem a xs ≡ true → P a) → All P xs
  All-by_elem [] h = tt
  All-by_elem (x ∷ xs) h = (h x (rw (is_eq_self x)), All-by_elem xs (λ a e. h a (ground arith)))

  pub IsSorted-append :
      (xs ys : List A)
      → IsSorted xs
      → IsSorted ys
      → All (λ x. All (λ y. x ≺ y) ys) xs
      → IsSorted (xs ++ ys)
  IsSorted-append [] ys s t h = t
  IsSorted-append (x ∷ xs) ys s t h = (All-append _ xs ys s.0 h.0, IsSorted-append xs ys s.1 t h.1)

  pub IsSorted-of_append :
      (xs ys : List A)
      → IsSorted (xs ++ ys)
      → IsSorted xs × IsSorted ys × All (λ x. All (λ y. x ≺ y) ys) xs
  IsSorted-of_append [] ys s = (tt, s, tt)
  IsSorted-of_append (x ∷ xs) ys s =
      let (a, b) = All-of_append _ xs ys s.0 in
      let (p, q, r) = IsSorted-of_append xs ys s.1 in ((a, p), q, (b, r))

  tail_elem :
      (x : A) (xs ys : List A)
      → All (λ y. x ≺ y) xs
      → All (λ y. x ≺ y) ys
      → ((a : A) → (is_eq a x || elem a xs) ≡ (is_eq a x || elem a ys))
      → (a : A) → elem a xs ≡ elem a ys
  tail_elem x xs ys h k e a = elim (Bool-cases (is_eq a x)) [
    | inl p ↦ rw (eq_of_is_eq a x p) (elem-below x xs h ∙ sym (elem-below x ys k))
    | inr q ↦ rw q at (e a)
  ]

  -- An ascending list is determined by the items that it holds.
  pub sorted_ext :
      (xs ys : List A) → IsSorted xs → IsSorted ys → ((a : A) → elem a xs ≡ elem a ys) → xs ≡ ys
  sorted_ext [] [] s t e = refl
  sorted_ext [] (y ∷ ys) s t e = ground (arith, e y, is_eq_self y)
  sorted_ext (x ∷ xs) [] s t e = ground (arith, e x, is_eq_self x)
  sorted_ext (x ∷ xs) (y ∷ ys) s t e = go (o.cmp x y) refl (sorted_ext xs ys s.1 t.1)
    where
      go :
          (c : Ordering)
          → o.cmp x y ≡ c
          → (((a : A) → elem a xs ≡ elem a ys) → xs ≡ ys)
          → x ∷ xs ≡ y ∷ ys
      go lt p rest =
          ground (
            arith,
            e x,
            is_eq_self x,
            is_eq_of_lt x y p,
            elem-below x ys (below_trans x y ys p t.0),
          )
      go eq p rest =
          let same : x ≡ y = o.eq_of_cmp x y p in
          let below : All (λ z. x ≺ z) ys = rw same t.0 in
          ap₂ ◌∷◌ same (
            rest (
              tail_elem x xs ys s.0 below (λ a. e a ∙ ap (λ z. is_eq a z || elem a ys) (sym same))))
      go gt p rest = ground (
        arith,
        e y,
        is_eq_self y,
        is_eq_of_lt y x (o.lt_of_gt x y p),
        elem-below y xs (below_trans y x xs (o.lt_of_gt x y p) s.0),
      )
