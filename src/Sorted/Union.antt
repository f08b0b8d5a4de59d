-- ===== src/Sorted/Union.antt =====
-- The merge of two ascending lists, with the items of both once.
use Prim.Native.Nat.Ordering.{lt, eq, gt}
use rtrtr.Base.{Ordering, Bool, false, ◌≡◌, refl, ap, ◌||◌, List, [], ◌∷◌, ◌++◌, arith, All}
use rtrtr.Order.{Order, ◌≺◌, is_eq, elem, IsSorted}
use rtrtr.Sorted.Elem.{below_trans, sorted_ext}

or_false : (b : Bool) → b ≡ b || false
or_false b = ground arith

or_assoc : (a b c : Bool) → (a || (b || c)) ≡ (a || b) || c
or_assoc a b c = ground arith

or_same : (a b c : Bool) → (a || (b || c)) ≡ (a || b) || (a || c)
or_same a b c = ground arith

or_swap : (a b c : Bool) → (a || (b || c)) ≡ b || (a || c)
or_swap a b c = ground arith

module _ {ℓ} {A : Type ℓ} ⦃o : Order A⦄ where
  unfoldable pub union : List A → List A → List A
  union [] ys = ys
  union (x ∷ xs) [] = x ∷ xs
  union (x ∷ xs) (y ∷ ys) = elim (o.cmp x y) [
    | lt ↦ x ∷ union xs (y ∷ ys)
    | eq ↦ x ∷ union xs ys
    | gt ↦ y ∷ union (x ∷ xs) ys
  ]

  pub union-nil : (xs : List A) → union xs [] ≡ xs
  unfolding union
  union-nil [] = refl
  union-nil (x ∷ xs) = refl

  pub union_comm : (xs ys : List A) → union xs ys ≡ union ys xs
  unfolding union
  union_comm [] [] = refl
  union_comm [] (y ∷ ys) = refl
  union_comm (x ∷ xs) [] = refl
  union_comm (x ∷ xs) (y ∷ ys) = ground (
    arith,
    union_comm xs (y ∷ ys),
    union_comm xs ys,
    union_comm (x ∷ xs) ys,
    o.gt_of_lt x y,
    o.lt_of_gt x y,
    o.eq_of_cmp x y,
    o.cmp_refl x,
  )

  pub elem-union : (a : A) (xs ys : List A) → elem a (union xs ys) ≡ elem a xs || elem a ys
  unfolding union
  elem-union a [] ys = refl
  elem-union a (x ∷ xs) [] = or_false (elem a (x ∷ xs))
  elem-union a (x ∷ xs) (y ∷ ys) =
      go (o.cmp x y) refl (elem-union a xs (y ∷ ys)) (elem-union a xs ys) (elem-union a (x ∷ xs) ys)
    where
      go :
          (c : Ordering)
          → o.cmp x y ≡ c
          → elem a (union xs (y ∷ ys)) ≡ elem a xs || elem a (y ∷ ys)
          → elem a (union xs ys) ≡ elem a xs || elem a ys
          → elem a (union (x ∷ xs) ys) ≡ elem a (x ∷ xs) || elem a ys
          → elem a (union (x ∷ xs) (y ∷ ys)) ≡ elem a (x ∷ xs) || elem a (y ∷ ys)
      go lt e h _ _ = rw (e, union) (rw h (or_assoc (is_eq a x) (elem a xs) (elem a (y ∷ ys))))
      go eq e _ h _ =
          rw (e, union, h) (rw (← o.eq_of_cmp x y e) (or_same (is_eq a x) (elem a xs) (elem a ys)))
      go gt e _ _ h = rw (e, union) (rw h (or_swap (is_eq a y) (elem a (x ∷ xs)) (elem a ys)))

  pub All-union {κ} : (P : A → Type κ) (xs ys : List A) → All P xs → All P ys → All P (union xs ys)
  unfolding union
  All-union P [] ys h k = k
  All-union P (x ∷ xs) [] h k = h
  All-union P (x ∷ xs) (y ∷ ys) h k = ground (
    arith,
    All-union P xs (y ∷ ys) h.1 k,
    All-union P xs ys h.1 k.1,
    All-union P (x ∷ xs) ys h k.1,
  )

  pub union-IsSorted : (xs ys : List A) → IsSorted xs → IsSorted ys → IsSorted (union xs ys)
  unfolding union
  union-IsSorted [] ys s t = t
  union-IsSorted (x ∷ xs) [] s t = s
  union-IsSorted (x ∷ xs) (y ∷ ys) s t = ground (
    arith,
    union-IsSorted xs (y ∷ ys) s.1 t,
    union-IsSorted xs ys s.1 t.1,
    union-IsSorted (x ∷ xs) ys s t.1,
    All-union (λ z. x ≺ z) xs (y ∷ ys) s.0,
    All-union (λ z. x ≺ z) xs ys s.0,
    All-union (λ z. y ≺ z) (x ∷ xs) ys,
    below_trans x y ys,
    below_trans y x xs,
    o.lt_of_gt x y,
    o.eq_of_cmp x y,
  )

  pub union_assoc :
      (xs ys zs : List A)
      → IsSorted xs
      → IsSorted ys
      → IsSorted zs
      → union (union xs ys) zs ≡ union xs (union ys zs)
  union_assoc xs ys zs s t u =
      sorted_ext _ _ (union-IsSorted _ zs (union-IsSorted xs ys s t) u)
        (union-IsSorted xs _ s (union-IsSorted ys zs t u))
        λ a. ground (
          arith,
          elem-union a (union xs ys) zs,
          elem-union a xs ys,
          elem-union a xs (union ys zs),
          elem-union a ys zs,
        )

  -- What lies below the other side comes first.
  pub union_prefix :
      (bs xs : List A) (y : A) (ys : List A)
      → All (λ a. a ≺ y) bs
      → union (bs ++ xs) (y ∷ ys) ≡ bs ++ union xs (y ∷ ys)
  unfolding union
  union_prefix [] xs y ys h = refl
  union_prefix (a ∷ bs) xs y ys h = rw h.0 (ap (◌∷◌ a) (union_prefix bs xs y ys h.1))

  -- What both sides begin with comes once.
  pub union_common : (es xs ys : List A) → union (es ++ xs) (es ++ ys) ≡ es ++ union xs ys
  unfolding union
  union_common [] xs ys = refl
  union_common (e ∷ es) xs ys = rw (o.cmp_refl e) (ap (◌∷◌ e) (union_common es xs ys))
