-- ===== src/Payload/Pack/Laws.antt =====
-- What the operations of a `PackBuilder` do to the set of its items, and that `finalize` sorts.
use rtrtr.Base.{
  ◌≡◌, refl, ap, ◌∙◌, sym, inl, inr, Bool, true, false, not, ◌&&◌, ◌||◌, List, [], ◌∷◌, All, arith,
  Bool-cases,
}
use rtrtr.Order.{Order, ◌≺◌, is_eq, elem, IsSorted}
use rtrtr.Sorted.Elem.{eq_of_is_eq, below_trans, elem-below, sorted_ext}
use rtrtr.Payload.Pack.{PackBuilder, erase, place, sort, finalize}

module _ {ℓ} {A : Type ℓ} ⦃o : Order A⦄ where
  -- No item stands twice.
  abbrev pub Distinct : List A → Type 0
  Distinct [] = Unit
  Distinct (x ∷ xs) = (elem x xs ≡ false) × Distinct xs

  pub IsSorted-Distinct : (xs : List A) → IsSorted xs → Distinct xs
  IsSorted-Distinct [] s = tt
  IsSorted-Distinct (x ∷ xs) s = (elem-below x xs s.0, IsSorted-Distinct xs s.1)

  elem-place : (a b : A) (xs : List A) → elem a (place b xs) ≡ is_eq a b || elem a xs
  unfolding place
  elem-place a b [] = refl
  elem-place a b (x ∷ xs) = ground (arith, elem-place a b xs)

  All-place {κ} : (P : A → Type κ) (b : A) (xs : List A) → P b → All P xs → All P (place b xs)
  unfolding place
  All-place P b [] p h = (p, tt)
  All-place P b (x ∷ xs) p h = ground (arith, All-place P b xs p h.1)

  place-IsSorted : (b : A) (xs : List A) → elem b xs ≡ false → IsSorted xs → IsSorted (place b xs)
  unfolding place
  place-IsSorted b [] n s = (tt, tt)
  place-IsSorted b (x ∷ xs) n s =
      ground (
        arith,
        place-IsSorted b xs,
        All-place (λ z. x ≺ z) b xs,
        o.lt_of_gt b x,
        below_trans b x xs,
      )

  pub elem-sort : (a : A) (xs : List A) → elem a (sort xs) ≡ elem a xs
  unfolding sort
  elem-sort a [] = refl
  elem-sort a (x ∷ xs) = elem-place a x (sort xs) ∙ ap (λ w. is_eq a x || w) (elem-sort a xs)

  pub sort-IsSorted : (xs : List A) → Distinct xs → IsSorted (sort xs)
  unfolding sort
  sort-IsSorted [] h = tt
  sort-IsSorted (x ∷ xs) h =
      place-IsSorted x (sort xs) (elem-sort x xs ∙ h.0) (sort-IsSorted xs h.1)

  -- Two builders that hold the same items, each once, give the same pack: it does not depend on
  -- the order in which the hash set is iterated.
  pub finalize_unique :
      (b c : PackBuilder A)
      → Distinct b.items
      → Distinct c.items
      → ((a : A) → elem a b.items ≡ elem a c.items)
      → (finalize b).items ≡ (finalize c).items
  unfolding finalize
  finalize_unique b c h k e =
      sorted_ext (sort b.items) (sort c.items) (sort-IsSorted b.items h) (sort-IsSorted c.items k)
        λ a. elem-sort a b.items ∙ e a ∙ sym (elem-sort a c.items)

  pub elem-erase :
      (a b : A) (xs : List A) → Distinct xs → elem a (erase b xs) ≡ elem a xs && not (is_eq a b)
  unfolding erase
  elem-erase a b [] h = refl
  elem-erase a b (x ∷ xs) h = elim (Bool-cases (is_eq b x)) [
    | inl e ↦
        rw e
          (rw (eq_of_is_eq b x e) (gone (elem a xs) (is_eq a x) (λ k. rw (eq_of_is_eq a x k) h.0)))
    | inr n ↦ rw n (
        rw (elem-erase a b xs h.1) (
          kept (is_eq a x) (elem a xs) (is_eq a b)
            (λ k l. cc (ap (λ z. is_eq z x) (eq_of_is_eq a b l), n, k))))
  ]
    where
      gone : (e k : Bool) → (k ≡ true → e ≡ false) → e ≡ (k || e) && not k
      gone e true h = h refl
      gone true false h = refl
      gone false false h = refl

      kept :
          (k e l : Bool)
          → (k ≡ true → l ≡ true → false ≡ true)
          → (k || (e && not l)) ≡ (k || e) && not l
      kept true e true h = cc (h refl refl)
      kept true e false h = refl
      kept false e l h = refl

  pub erase-Distinct : (b : A) (xs : List A) → Distinct xs → Distinct (erase b xs)
  unfolding erase
  erase-Distinct b [] h = tt
  erase-Distinct b (x ∷ xs) h = elim (Bool-cases (is_eq b x)) [
    | inl e ↦ rw e h.1
    | inr n ↦ rw n (rw (elem-erase x b xs h.1, h.0), erase-Distinct b xs h.1)
  ]
