-- ===== src/Payload/Diff/Keep.antt =====
-- src/payload.rs: the closure with which `Diff::apply` drops the withdrawn items.
use rtrtr.Base.{
  ◌≡◌, refl, ap, ◌∙◌, inl, inr, Bool, true, false, not, ◌&&◌, ◌||◌, List, [], ◌∷◌, All, arith,
  Bool-cases,
}
use rtrtr.Order.{Order, ◌≺◌, is_eq, elem, IsSorted}
use rtrtr.Sorted.Elem.{is_eq_self, eq_of_is_eq, is_eq_of_gt}
use rtrtr.Sorted.Without.{without}
use rtrtr.Payload.Pack.{erase}
use rtrtr.Payload.Pack.Laws.{Distinct, elem-erase, erase-Distinct}
use rtrtr.Payload.Filter.Runs.{filter_with, IsStable}
use rtrtr.Payload.Diff.{keep_unless_withdrawn, hash_set, no_items}

module _ {ℓ} {A : Type ℓ} ⦃o : Order A⦄ where
  without-erase :
      (x : A) (ws xs : List A)
      → Distinct ws
      → All (λ z. x ≺ z) xs
      → without (erase x ws) xs ≡ without ws xs
  unfolding without erase
  without-erase x ws [] d h = refl
  without-erase x ws (z ∷ xs) d h =
      rw (elem-erase z x ws d, is_eq_of_gt z x h.0) (ground (arith, without-erase x ws xs d h.1))

  -- What the closure of `apply` keeps, and which items of its set it has not met.
  pub filter_with-drop :
      (ws xs : List A)
      → Distinct ws
      → IsSorted xs
      → ((filter_with keep_unless_withdrawn ws xs).1 ≡ without ws xs)
        × ((a : A)
            → elem a (filter_with keep_unless_withdrawn ws xs).0 ≡ not (elem a xs) && elem a ws)
  unfolding filter_with keep_unless_withdrawn without
  filter_with-drop ws [] d s = (refl, λ a. refl)
  filter_with-drop ws (x ∷ xs) d s = elim (Bool-cases (elem x ws)) [
    | inl e ↦
        let (h, k) = filter_with-drop (erase x ws) xs (erase-Distinct x ws d) s.1 in
        rw e (
          h ∙ without-erase x ws xs d s.0,
          λ a. k a ∙ rw (elem-erase a x ws d) (met (is_eq a x) (elem a xs) (elem a ws)),
        )
    | inr n ↦
        let (h, k) = filter_with-drop ws xs d s.1 in
        rw n (
          ap (◌∷◌ x) h,
          λ a. k a ∙ unmet (is_eq a x) (elem a xs) (elem a ws) (λ q. rw (eq_of_is_eq a x q) n),
        )
  ]
    where
      met : (p q r : Bool) → (not q && (r && not p)) ≡ not (p || q) && r
      met p q r = ground arith

      unmet : (p q r : Bool) → (p ≡ true → r ≡ false) → (not q && r) ≡ not (p || q) && r
      unmet true q r h = rw (h refl) (ground arith)
      unmet false q r h = refl

  pub keep_unless_withdrawn-IsStable : IsStable {A = A} keep_unless_withdrawn
  unfolding keep_unless_withdrawn
  keep_unless_withdrawn-IsStable ws a h = elim (Bool-cases (elem a ws)) [
    | inl e ↦ cc (rw e at h)
    | inr n ↦ rw n (rw n)
  ]

  pub hash_set_lem : (xs : List A) → Distinct xs → hash_set xs ≡ xs
  unfolding hash_set
  hash_set_lem [] d = refl
  hash_set_lem (x ∷ xs) d = rw (hash_set_lem xs d.1) (rw d.0)

  pub no_items-ext :
      (xs ys : List A) → ((a : A) → elem a xs ≡ elem a ys) → no_items xs ≡ no_items ys
  unfolding no_items
  no_items-ext [] [] h = refl
  no_items-ext [] (y ∷ ys) h = ground (arith, h y, is_eq_self y)
  no_items-ext (x ∷ xs) [] h = ground (arith, h x, is_eq_self x)
  no_items-ext (x ∷ xs) (y ∷ ys) h = refl
