-- ===== src/Payload/Diff/From.antt =====
-- `Set::diff_from` gives exactly the items that one set holds and the other does not.
use Prim.Native.Nat.Ordering.{lt, eq, gt}
use rtrtr.Base.{
  Ordering, ◌≡◌, refl, ap, ◌∙◌, sym, inl, inr, Bool, true, false, ◌||◌, List, [], ◌∷◌, some, All,
  arith, Bool-cases,
}
use rtrtr.Order.{Order, ◌≺◌, is_eq, elem, IsSorted}
use rtrtr.Sorted.Elem.{is_eq_self, eq_of_is_eq, below_trans, elem-below, sorted_ext}
use rtrtr.Sorted.Without.{
  without, without_nil, without_below, without-cons_out, without-cons_in, without-of_nil,
  without-IsSorted,
}
use rtrtr.Payload.Pack.{Pack, PackBuilder, insert_unchecked, sort, empty}
use rtrtr.Payload.Pack.Laws.{Distinct, elem-sort, sort-IsSorted}
use rtrtr.Payload.Pack
use rtrtr.Payload.Set.{Set, flatten, IsWellFormed}
use rtrtr.Payload.Set.Laws.{collect-flatten}
use rtrtr.Payload.Diff.{
  Diff, DiffBuilder, diff_loop, add_announced, add_withdrawn, diff_from, finalize,
}
use rtrtr.Payload.Diff

module _ {ℓ} {A : Type ℓ} ⦃o : Order A⦄ where
  -- The items added to a builder one after the other.
  add_all : PackBuilder A → List A → PackBuilder A
  add_all b [] = b
  add_all b (x ∷ xs) = add_all (insert_unchecked b x) xs

  pub elem-insert_unchecked :
      (a x : A) (b : PackBuilder A)
      → elem a (insert_unchecked b x).items ≡ is_eq a x || elem a b.items
  unfolding insert_unchecked
  elem-insert_unchecked a x b = elim (Bool-cases (elem x b.items)) [
    | inl e ↦ rw e (old (is_eq a x) (elem a b.items) (λ k. rw (eq_of_is_eq a x k) e))
    | inr n ↦ rw n
  ]
    where
      old : (k e : Bool) → (k ≡ true → e ≡ true) → e ≡ k || e
      old true e h = h refl
      old false e h = refl

  pub insert_unchecked-Distinct :
      (x : A) (b : PackBuilder A) → Distinct b.items → Distinct (insert_unchecked b x).items
  unfolding insert_unchecked
  insert_unchecked-Distinct x b h = ground arith

  elem-add_all :
      (a : A) (b : PackBuilder A) (xs : List A)
      → elem a (add_all b xs).items ≡ elem a xs || elem a b.items
  unfolding add_all
  elem-add_all a b [] = refl
  elem-add_all a b (x ∷ xs) =
      elem-add_all a (insert_unchecked b x) xs
      ∙ ap (λ w. elem a xs || w) (elem-insert_unchecked a x b)
      ∙ or_swap (elem a xs) (is_eq a x) (elem a b.items)
    where
      or_swap : (p q r : Bool) → (p || (q || r)) ≡ (q || p) || r
      or_swap p q r = ground arith

  add_all-Distinct :
      (b : PackBuilder A) (xs : List A) → Distinct b.items → Distinct (add_all b xs).items
  unfolding add_all
  add_all-Distinct b [] h = h
  add_all-Distinct b (x ∷ xs) h =
      add_all-Distinct (insert_unchecked b x) xs (insert_unchecked-Distinct x b h)

  -- The loops add what only one side holds, in order.
  diff_loop_lem :
      (d : DiffBuilder A) (ss ts : List A)
      → IsSorted ss
      → IsSorted ts
      → ((diff_loop d ss ts).announced ≡ add_all d.announced (without ss ts))
        × ((diff_loop d ss ts).withdrawn ≡ add_all d.withdrawn (without ts ss))
  unfolding diff_loop add_all add_announced add_withdrawn
  diff_loop_lem d [] [] p q = (rw without-of_nil, rw without-of_nil)
  diff_loop_lem d [] (t ∷ ts) p q =
      let (h, k) = diff_loop_lem (add_announced d t) [] ts tt q.1 in
      (
        h ∙ rw (without_nil ts, without_nil (t ∷ ts)),
        k ∙ rw (without-of_nil ts, without-of_nil (t ∷ ts)),
      )
  diff_loop_lem d (s ∷ ss) [] p q =
      let (h, k) = diff_loop_lem (add_withdrawn d s) ss [] p.1 tt in
      (
        h ∙ rw (without-of_nil ss, without-of_nil (s ∷ ss)),
        k ∙ rw (without_nil ss, without_nil (s ∷ ss)),
      )
  diff_loop_lem d (s ∷ ss) (t ∷ ts) p q =
      go (o.cmp s t) refl (diff_loop_lem (add_withdrawn d s) ss (t ∷ ts) p.1 q)
        (diff_loop_lem d ss ts p.1 q.1) (diff_loop_lem (add_announced d t) (s ∷ ss) ts p q.1)
    where
      Split : DiffBuilder A → List A → List A → Type ℓ
      Split d ss ts =
          ((diff_loop d ss ts).announced ≡ add_all d.announced (without ss ts))
          × ((diff_loop d ss ts).withdrawn ≡ add_all d.withdrawn (without ts ss))

      go :
          (c : Ordering)
          → o.cmp s t ≡ c
          → Split (add_withdrawn d s) ss (t ∷ ts)
          → Split d ss ts
          → Split (add_announced d t) (s ∷ ss) ts
          → Split d (s ∷ ss) (t ∷ ts)
      go lt e (h, k) _ _ =
          let below : All (λ z. s ≺ z) (t ∷ ts) = (e, below_trans s t ts e q.0) in
          rw (e, diff_loop)
            (
              h ∙ rw (without_below s ss (t ∷ ts) below),
              k ∙ rw (without-cons_out s ss (t ∷ ts) (elem-below s (t ∷ ts) below)),
            )
      go eq e _ (h, k) _ =
          let same : s ≡ t = o.eq_of_cmp s t e in
          let s_in : elem s (t ∷ ts) ≡ true = rw same (rw (is_eq_self t)) in
          let t_in : elem t (s ∷ ss) ≡ true = rw same (rw (is_eq_self t)) in
          rw (e, diff_loop)
            (
              h
                  ∙ ap (add_all d.announced) (
                      sym
                        (without-cons_in t ts (s ∷ ss) t_in ∙ without_below s ss ts (rw same q.0))),
              k
                  ∙ ap (add_all d.withdrawn) (
                      sym (
                        without-cons_in s ss (t ∷ ts) s_in
                        ∙ without_below t ts ss (rw (← same) p.0))),
            )
      go gt e _ _ (h, k) =
          let less : t ≺ s = o.lt_of_gt s t e in
          let below : All (λ z. t ≺ z) (s ∷ ss) = (less, below_trans t s ss less p.0) in
          rw (e, diff_loop)
            (
              h ∙ rw (without-cons_out t ts (s ∷ ss) (elem-below t (s ∷ ss) below)),
              k ∙ rw (without_below t ts (s ∷ ss) below),
            )

  -- The pack of the items added to an empty builder, if they are ascending.
  finalize-add_all : (xs : List A) → IsSorted xs → (Pack.finalize (add_all empty xs)).items ≡ xs
  finalize-add_all xs s =
      unfold Pack.finalize in
      sorted_ext (sort (add_all empty xs).items) xs
        (sort-IsSorted (add_all empty xs).items (add_all-Distinct empty xs tt)) s
        λ a. elem-sort a (add_all empty xs).items ∙ elem-add_all a empty xs ∙ or_false (elem a xs)
    where
      or_false : (b : Bool) → (b || false) ≡ b
      or_false b = ground arith

  -- The diff that leads from one ascending list to another.
  pub record IsDiff (old new : List A) (d : Diff A) : Type ℓ where
    pub announces : d.announced.items ≡ without old new
    pub withdraws : d.withdrawn.items ≡ without new old

  -- `diff_from` of two sets in ascending order, with their blocks in range, does not panic; the
  -- diff announces exactly the items of the new set that the old one lacks, and withdraws exactly
  -- those of the old one that the new one lacks.
  pub diff_from-IsDiff :
      (set other : Set A)
      → IsWellFormed set
      → IsWellFormed other
      → IsSorted (flatten set.blocks)
      → IsSorted (flatten other.blocks)
      → (d : Diff A) × (diff_from set other ≡ some d)
        × IsDiff (flatten other.blocks) (flatten set.blocks) d
  unfolding diff_from finalize
  diff_from-IsDiff set other v w s t =
      let b = diff_loop Diff.empty (flatten other.blocks) (flatten set.blocks) in
      let h = diff_loop_lem Diff.empty (flatten other.blocks) (flatten set.blocks) t s in
      (
        finalize b,
        rw (collect-flatten other.blocks w.in_range) (rw (collect-flatten set.blocks v.in_range)),
        record {
          announces =
              rw h.0 (
                finalize-add_all _
                  (without-IsSorted (flatten other.blocks) (flatten set.blocks) s));
          withdraws =
              rw h.1 (
                finalize-add_all _
                  (without-IsSorted (flatten set.blocks) (flatten other.blocks) t));
        },
      )
