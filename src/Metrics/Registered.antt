-- ===== src/Metrics/Registered.antt =====
-- The collection of src/metrics.rs keeps its sources in the order of their names.
use Prim.Native.Nat.Ordering.{lt, eq, gt}
use rtrtr.Base.{
  ◌≡◌, refl, ap, ◌∙◌, Ordering, Bool, true, false, List, [], ◌∷◌, ◌++◌, arith, All, if◌then◌else◌,
}
use rtrtr.Order.{is_eq}
use rtrtr.Text.{Text}
use rtrtr.Text.Compare.{compare_text, text_order}
use rtrtr.Sorted.Elem.{eq_of_is_eq}
use rtrtr.Metrics.{RegisteredSource, Source, live, place, sort, register}

abbrev pub is_after : Ordering → Bool
is_after gt = true
is_after _ = false

-- The name of the first is not after that of the second.
abbrev pub NotAfter : RegisteredSource → RegisteredSource → Type 0
NotAfter x y = is_after (compare_text x.name y.name) ≡ false

abbrev pub IsOrdered : List RegisteredSource → Type 0
IsOrdered [] = Unit
IsOrdered (x ∷ xs) = All (NotAfter x) xs × IsOrdered xs

-- The sources with a name, in their order.
unfoldable pub named : Text → List RegisteredSource → List RegisteredSource
named n [] = []
named n (x ∷ xs) = if is_eq n x.name then x ∷ named n xs else named n xs

All-place :
    (P : RegisteredSource → Type 0) (x : RegisteredSource) (xs : List RegisteredSource)
    → P x
    → All P xs
    → All P (place x xs)
unfolding place
All-place P x [] p h = (p, tt)
All-place P x (y ∷ ys) p h = go (compare_text x.name y.name) (All-place P x ys p h.1)
  where
    go :
        (c : Ordering)
        → All P (place x ys)
        → All P (elim c as (λ _. List RegisteredSource) [ gt ↦ y ∷ place x ys | _ ↦ x ∷ y ∷ ys ])
    go lt r = (p, h)
    go eq r = (p, h)
    go gt r = (h.0, r)

NotAfter-trans : (x y z : RegisteredSource) → NotAfter x y → NotAfter y z → NotAfter x z
NotAfter-trans x y z h k = ground (
  arith,
  h,
  k,
  text_order.lt_of_gt x.name z.name,
  text_order.lt_trans z.name x.name y.name,
  text_order.gt_of_lt z.name y.name,
  text_order.eq_of_cmp x.name y.name,
)

All-trans :
    (x y : RegisteredSource) (zs : List RegisteredSource)
    → NotAfter x y
    → All (NotAfter y) zs
    → All (NotAfter x) zs
All-trans x y [] h w = tt
All-trans x y (z ∷ zs) h w = (NotAfter-trans x y z h w.0, All-trans x y zs h w.1)

place-IsOrdered :
    (x : RegisteredSource) (xs : List RegisteredSource) → IsOrdered xs → IsOrdered (place x xs)
unfolding place
place-IsOrdered x [] h = (tt, tt)
place-IsOrdered x (y ∷ ys) h = go (compare_text x.name y.name) refl (place-IsOrdered x ys h.1)
  where
    before : compare_text y.name x.name ≡ lt → IsOrdered (place x ys) → IsOrdered (y ∷ place x ys)
    before e r = (All-place (NotAfter y) x ys (rw e refl) h.0, r)

    after : NotAfter x y → IsOrdered (x ∷ y ∷ ys)
    after n = ((n, All-trans x y ys n h.0), h)

    go :
        (c : Ordering)
        → compare_text x.name y.name ≡ c
        → IsOrdered (place x ys)
        → IsOrdered
            (elim c as (λ _. List RegisteredSource) [ gt ↦ y ∷ place x ys | _ ↦ x ∷ y ∷ ys ])
    go lt e r = after (rw e refl)
    go eq e r = after (rw e refl)
    go gt e r = before (text_order.lt_of_gt x.name y.name e) r

sort-IsOrdered : (xs : List RegisteredSource) → IsOrdered (sort xs)
unfolding sort
sort-IsOrdered [] = tt
sort-IsOrdered (x ∷ xs) = place-IsOrdered x (sort xs) (sort-IsOrdered xs)

-- Placing is stable: among the sources with its name, the source comes first.
named-place :
    (n : Text) (x : RegisteredSource) (xs : List RegisteredSource)
    → named n (place x xs) ≡ named n (x ∷ xs)
unfolding named place
named-place n x [] = refl
named-place n x (y ∷ ys) = ground (
  arith,
  named-place n x ys,
  eq_of_is_eq n x.name,
  eq_of_is_eq n y.name,
  text_order.cmp_refl x.name,
)

named-sort : (n : Text) (xs : List RegisteredSource) → named n (sort xs) ≡ named n xs
unfolding named sort
named-sort n [] = refl
named-sort n (x ∷ xs) =
    named-place n x (sort xs) ∙ ap (λ r. if is_eq n x.name then x ∷ r else r) (named-sort n xs)

named-append :
    (n : Text) (xs ys : List RegisteredSource) → named n (xs ++ ys) ≡ named n xs ++ named n ys
unfolding named
named-append n [] ys = refl
named-append n (x ∷ xs) ys = ground (arith, named-append n xs ys)

-- After a source is registered, the collection is in the order of the names, and under each name it
-- holds the sources that live and were registered under that name before, in their old order, and
-- the new source behind them under its own name.
pub register-IsOrdered :
    (sources : List RegisteredSource) (name : Text) (source : Source)
    → IsOrdered (register sources name source)
      × ((n : Text)
          → named n (register sources name source)
            ≡ named n (live sources)
              ++ (if is_eq n name
                  then record { name = name; source = source; lives = true } ∷ []
                  else []))
unfolding register compare_text named
register-IsOrdered sources name source =
    let new : RegisteredSource = record { name = name; source = source; lives = true } in
    (
      sort-IsOrdered (live sources ++ new ∷ []),
      λ n. named-sort n (live sources ++ new ∷ []) ∙ named-append n (live sources) (new ∷ []),
    )
