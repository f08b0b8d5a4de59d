-- ===== src/Payload/Diff/Roundtrip.antt =====
-- `Diff::apply` of what `Set::diff_from` gives leads from the old set to the new one.
use rtrtr.Base.{
  ◌≡◌, refl, ap, ap₂, ◌∙◌, sym, subst, Bool, true, false, not, ◌&&◌, ◌||◌, List, [], ◌∷◌, some,
  arith,
}
use rtrtr.Order.{Order, is_eq, elem, IsSorted}
use rtrtr.Sorted.Elem.{is_eq_self, sorted_ext}
use rtrtr.Sorted.Union.{union, elem-union, union-IsSorted}
use rtrtr.Sorted.Without.{without, elem-without, without-IsSorted}
use rtrtr.Payload.Types.{ok}
use rtrtr.Payload.Block.Overlap.{meets}
use rtrtr.Payload.Set.{Set, flatten, IsWellFormed}
use rtrtr.Payload.Diff.{Diff, diff_from, apply, no_items}
use rtrtr.Payload.Diff.From.{diff_from-IsDiff}
use rtrtr.Payload.Diff.Apply.{Gives, applied, withdrawn_from, apply-applied}

module _ {ℓ} {A : Type ℓ} ⦃o : Order A⦄ where
  meets-apart : (xs ys : List A) → ((a : A) → elem a xs && elem a ys ≡ false) → meets xs ys ≡ false
  unfolding meets
  meets-apart [] ys h = refl
  meets-apart (x ∷ xs) ys h =
      ap₂ ◌||◌ (first (is_eq x x) (elem x xs) (elem x ys) (is_eq_self x) (h x))
        (meets-apart xs ys λ a. later (is_eq a x) (elem a xs) (elem a ys) (h a))
    where
      first : (p q r : Bool) → p ≡ true → (p || q) && r ≡ false → r ≡ false
      first p q r e h = ground arith

      later : (p q r : Bool) → (p || q) && r ≡ false → q && r ≡ false
      later p q r h = ground arith

  no_items-nothing : (xs : List A) → ((a : A) → elem a xs ≡ false) → no_items xs ≡ true
  unfolding no_items
  no_items-nothing [] h = refl
  no_items-nothing (x ∷ xs) h = ground (arith, h x, is_eq_self x)

  -- The items announced and withdrawn between two lists lead from the first to the second.
  pub applied-without :
      (xs ys : List A)
      → IsSorted xs
      → IsSorted ys
      → applied xs (without xs ys) (without ys xs) ≡ ok ys
  unfolding applied withdrawn_from
  applied-without xs ys s t =
      rw
        (meets-apart xs (without xs ys)
          λ a. ap (λ q. elem a xs && q) (elem-without a xs ys) ∙ apart (elem a xs) (elem a ys))
        (rw
          (no_items-nothing (without (union xs (without xs ys)) (without ys xs)) λ a.
            elem-without a (union xs (without xs ys)) (without ys xs)
            ∙ ap₂ (λ p q. not p && q)
                (elem-union a xs (without xs ys) ∙ ap (λ q. elem a xs || q) (elem-without a xs ys))
                (elem-without a ys xs)
            ∙ known (elem a xs) (elem a ys))
          (ap ok (
            sorted_ext (without (without ys xs) (union xs (without xs ys))) ys
              (without-IsSorted (without ys xs) (union xs (without xs ys))
                (union-IsSorted xs (without xs ys) s (without-IsSorted xs ys t)))
              t
              λ a.
                elem-without a (without ys xs) (union xs (without xs ys))
                ∙ ap₂ (λ p q. not p && q) (elem-without a ys xs)
                    (elem-union a xs (without xs ys)
                      ∙ ap (λ q. elem a xs || q) (elem-without a xs ys))
                ∙ both (elem a xs) (elem a ys))))
    where
      apart : (p q : Bool) → p && (not p && q) ≡ false
      apart p q = ground arith

      known : (p q : Bool) → not (p || (not p && q)) && (not q && p) ≡ false
      known p q = ground arith

      both : (p q : Bool) → not (not q && p) && (p || (not p && q)) ≡ q
      both p q = ground arith

  -- For two well-formed sets in ascending order, `diff_from` of the new set and the old one does
  -- not panic, and `apply` of the diff to the old set succeeds with a well-formed set, free of
  -- empty blocks, that has exactly the items of the new set.
  pub apply-diff_from :
      (new old : Set A)
      → IsWellFormed new
      → IsWellFormed old
      → IsSorted (flatten new.blocks)
      → IsSorted (flatten old.blocks)
      → (d : Diff A) × (diff_from new old ≡ some d) × Gives (ok (flatten new.blocks)) (apply d old)
  apply-diff_from new old v w s t =
      let (d, e, h) = diff_from-IsDiff new old v w s t in
      (
        d,
        e,
        subst (λ r. Gives r (apply d old))
            (ap₂ (applied (flatten old.blocks)) h.announces h.withdraws
              ∙ applied-without (flatten old.blocks) (flatten new.blocks) t s)
            (apply-applied d old
              (subst IsSorted (sym h.announces)
                (without-IsSorted (flatten old.blocks) (flatten new.blocks) s))
              (subst IsSorted (sym h.withdraws)
                (without-IsSorted (flatten new.blocks) (flatten old.blocks) t))
              w t),
      )
