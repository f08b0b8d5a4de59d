-- ===== src/Payload/Diff/Extend.antt =====
-- `DiffBuilder::push_diff` and `Diff::extend`: the diff of two steps, one after the other.
use rtrtr.Base.{◌≡◌, refl, ap₂, ◌∙◌, sym, subst, fun_ext, Bool, false, not, ◌&&◌, ◌||◌, List, arith}
use rtrtr.Order.{Order, elem, IsSorted}
use rtrtr.Sorted.Elem.{sorted_ext}
use rtrtr.Sorted.Without.{without, elem-without, without-IsSorted}
use rtrtr.Payload.Types.{ok}
use rtrtr.Payload.Pack.{sort, finalize}
use rtrtr.Payload.Pack.Laws.{IsSorted-Distinct, elem-sort, sort-IsSorted}
use rtrtr.Payload.Diff.{
  Diff, DiffBuilder, changes, push_change, push_changes, push_diff, extend, empty,
}
use rtrtr.Payload.Diff
use rtrtr.Payload.Diff.From.{IsDiff}
use rtrtr.Payload.Diff.Tracks.{Tracks, push_changes-Tracks}
use rtrtr.Payload.Diff.Fits.{changes-AllFit}

module _ {ℓ} {A : Type ℓ} ⦃o : Order A⦄ where
  -- A builder that holds the difference from `xs` to `ys` takes the diff from `ys` to `zs`.
  push_diff-Tracks :
      (xs ys zs : List A) (b : DiffBuilder A) (d : Diff A)
      → IsSorted ys
      → IsSorted zs
      → IsDiff ys zs d
      → Tracks xs (λ a. elem a ys) b
      → (c : DiffBuilder A) × (push_diff b d ≡ ok c) × Tracks xs (λ a. elem a zs) c
  unfolding push_diff
  push_diff-Tracks xs ys zs b d s t h k =
      let (f, g) =
        changes-AllFit (λ a. elem a ys) (without ys zs) (without zs ys)
          (IsSorted-Distinct (without ys zs) (without-IsSorted ys zs t))
          (IsSorted-Distinct (without zs ys) (without-IsSorted zs ys s))
          (λ z. rw (elem-without z ys zs) (apart (elem z ys) (elem z zs)))
          (λ z. rw (elem-without z zs ys) (within (elem z ys) (elem z zs))) in
      let (c, e, u) =
        push_changes-Tracks xs (λ a. elem a ys) b (changes (without ys zs) (without zs ys)) k f in
      (
        c,
        rw (h.announces, h.withdraws) e,
        subst (λ m. Tracks xs m c)
            (fun_ext λ z.
              g z
              ∙ ap₂ (λ p q. p || (elem z ys && not q)) (elem-without z ys zs) (elem-without z zs ys)
              ∙ ends (elem z ys) (elem z zs))
            u,
      )
    where
      apart : (p q : Bool) → (not p && q) && p ≡ false
      apart p q = ground arith

      within : (p q : Bool) → (not q && p) && not p ≡ false
      within p q = ground arith

      ends : (p q : Bool) → (not p && q) || (p && not (not q && p)) ≡ q
      ends p q = ground arith

  empty-Tracks : (xs : List A) → Tracks xs (λ a. elem a xs) empty
  empty-Tracks xs = record {
    announces = λ a. ground arith;
    withdraws = λ a. ground arith;
    distinct_announced = tt;
    distinct_withdrawn = tt;
  }

  finalize-IsDiff :
      (xs zs : List A) (b : DiffBuilder A)
      → IsSorted xs
      → IsSorted zs
      → Tracks xs (λ a. elem a zs) b
      → IsDiff xs zs (Diff.finalize b)
  unfolding Diff.finalize finalize
  finalize-IsDiff xs zs b s t k = record {
    announces =
        sorted_ext (sort b.announced.items) (without xs zs)
          (sort-IsSorted b.announced.items k.distinct_announced) (without-IsSorted xs zs t)
          λ a.
            elem-sort a b.announced.items
            ∙ k.announces a
            ∙ and_comm (elem a zs) (not (elem a xs))
            ∙ sym (elem-without a xs zs);
    withdraws =
        sorted_ext (sort b.withdrawn.items) (without zs xs)
          (sort-IsSorted b.withdrawn.items k.distinct_withdrawn) (without-IsSorted zs xs s)
          λ a.
            elem-sort a b.withdrawn.items
            ∙ k.withdraws a
            ∙ and_comm (elem a xs) (not (elem a zs))
            ∙ sym (elem-without a zs xs);
  }
    where
      and_comm : (p q : Bool) → p && q ≡ q && p
      and_comm p q = ground arith

  -- If one diff leads from `xs` to `ys` and another from `ys` to `zs`, all of them in ascending
  -- order, then `extend` of the first by the second succeeds, and its diff leads from `xs` to `zs`.
  pub extend-IsDiff :
      (xs ys zs : List A) (first second : Diff A)
      → IsSorted xs
      → IsSorted ys
      → IsSorted zs
      → IsDiff xs ys first
      → IsDiff ys zs second
      → (d : Diff A) × (extend first second ≡ ok d) × IsDiff xs zs d
  unfolding extend
  extend-IsDiff xs ys zs first second s t u h k =
      let (b, e, m) = push_diff-Tracks xs xs ys empty first s t h (empty-Tracks xs) in
      let (c, f, n) = push_diff-Tracks xs ys zs b second t u k m in
      (Diff.finalize c, rw (e, extend) (rw f refl), finalize-IsDiff xs zs c s u n)
