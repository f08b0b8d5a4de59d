-- ===== src/Text/Compare.antt =====
-- The order of `str`: by the first character that differs, a text before those that go on.
use Prim.Native.Nat.Ordering.{lt, eq, gt}
use rtrtr.Base.{Ordering, compare, ◌≡◌, refl, [], ◌∷◌, arith}
use rtrtr.Order.{Order, IsTotal}
use rtrtr.Text.{Text}

unfoldable pub compare_text : Text → Text → Ordering
compare_text [] [] = eq
compare_text [] (d ∷ ds) = lt
compare_text (c ∷ cs) [] = gt
compare_text (c ∷ cs) (d ∷ ds) = elim (compare c d) [ lt ↦ lt | gt ↦ gt | eq ↦ compare_text cs ds ]

compare_text_refl : (s : Text) → compare_text s s ≡ eq
unfolding compare_text
compare_text_refl [] = refl
compare_text_refl (c ∷ cs) = ground (arith, compare_text_refl cs)

eq_of_compare_text : (s t : Text) → compare_text s t ≡ eq → s ≡ t
unfolding compare_text
eq_of_compare_text [] [] h = refl
eq_of_compare_text [] (d ∷ ds) h = cc h
eq_of_compare_text (c ∷ cs) [] h = cc h
eq_of_compare_text (c ∷ cs) (d ∷ ds) h = ground (arith, eq_of_compare_text cs ds)

gt_of_lt_text : (s t : Text) → compare_text s t ≡ lt → compare_text t s ≡ gt
unfolding compare_text
gt_of_lt_text [] [] h = cc h
gt_of_lt_text [] (d ∷ ds) h = refl
gt_of_lt_text (c ∷ cs) [] h = cc h
gt_of_lt_text (c ∷ cs) (d ∷ ds) h = ground (arith, gt_of_lt_text cs ds)

lt_of_gt_text : (s t : Text) → compare_text s t ≡ gt → compare_text t s ≡ lt
unfolding compare_text
lt_of_gt_text [] [] h = cc h
lt_of_gt_text [] (d ∷ ds) h = cc h
lt_of_gt_text (c ∷ cs) [] h = refl
lt_of_gt_text (c ∷ cs) (d ∷ ds) h = ground (arith, lt_of_gt_text cs ds)

lt_trans_text :
    (s t u : Text) → compare_text s t ≡ lt → compare_text t u ≡ lt → compare_text s u ≡ lt
unfolding compare_text
lt_trans_text [] [] u h k = ground (arith, h)
lt_trans_text [] (d ∷ ds) [] h k = cc k
lt_trans_text [] (d ∷ ds) (e ∷ es) h k = refl
lt_trans_text (c ∷ cs) [] u h k = cc h
lt_trans_text (c ∷ cs) (d ∷ ds) [] h k = cc k
lt_trans_text (c ∷ cs) (d ∷ ds) (e ∷ es) h k = ground (arith, lt_trans_text cs ds es)

pub compare_text-IsTotal : IsTotal compare_text
compare_text-IsTotal = record {
  cmp_refl = compare_text_refl;
  eq_of_cmp = eq_of_compare_text;
  gt_of_lt = gt_of_lt_text;
  lt_of_gt = lt_of_gt_text;
  lt_trans = lt_trans_text;
}

instance abbrev pub text_order : Order Text
text_order = record { cmp = compare_text; total = compare_text-IsTotal }
