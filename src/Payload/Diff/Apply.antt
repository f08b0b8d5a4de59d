-- ===== src/Payload/Diff/Apply.antt =====
-- `Diff::apply` and `Diff::apply_relaxed` against the sets of items.
use rtrtr.Base.{
  ◌≡◌, refl, ap, ap₂, ◌∙◌, sym, Bool, true, false, List, [], ◌∷◌, ◌++◌, some, Option, if◌then◌else◌,
}
use rtrtr.Order.{Order, elem, IsSorted}
use rtrtr.Sorted.Elem.{All-append}
use rtrtr.Sorted.Union.{union, union-nil, union-IsSorted}
use rtrtr.Sorted.Without.{without, elem-without}
use rtrtr.Payload.Types.{Result, ok, err, duplicate_announce, unknown_withdraw, corrupt}
use rtrtr.Payload.Pack.{Pack}
use rtrtr.Payload.Pack.Laws.{IsSorted-Distinct}
use rtrtr.Payload.Block.{Block, contents, from_pack}
use rtrtr.Payload.Block.Overlap.{meets}
use rtrtr.Payload.Set.{Set, flatten, IsWellFormed, AllInRange, NoneEmpty}
use rtrtr.Payload.Filter.{filter}
use rtrtr.Payload.Filter.Laws.{filter_refines}
use rtrtr.Payload.Filter.Runs.{filter_with}
use rtrtr.Payload.Builder.{
  SetBuilder, any_overlaps, try_insert_block, try_insert_pack, insert_pack, to_builder,
}
use rtrtr.Payload.Builder
use rtrtr.Payload.Builder.Placing.{union_all, AllSorted, union_all-IsSorted}
use rtrtr.Payload.Builder.Laws.{finalize-union_all}
use rtrtr.Payload.Diff.{
  Diff, keep_unless_withdrawn, hash_set, no_items, apply, apply_checked, apply_relaxed,
}
use rtrtr.Payload.Diff.Keep.{
  filter_with-drop, keep_unless_withdrawn-IsStable, hash_set_lem, no_items-ext,
}
use rtrtr.Payload.Diff.Overlap.{
  flatten-AllSorted, union_all-flatten, union_all-append, any_overlaps-meets, contents-from_pack,
  from_pack-InRange,
}

module _ {ℓ} {A : Type ℓ} ⦃o : Order A⦄ where
  -- An outcome of `apply`: the error, or a set with the items, well formed and free of empty
  -- blocks. A panic is no outcome.
  unfoldable pub Gives : Result (List A) → Option (Result (Set A)) → Type ℓ
  Gives (err e) o = o ≡ some (err e)
  Gives (ok xs) o =
      (s : Set A) × (o ≡ some (ok s))
      × (flatten s.blocks ≡ xs)
      × IsWellFormed s
      × NoneEmpty s.blocks

  -- What is left of the items without the withdrawn ones, each of which has to be there.
  unfoldable pub withdrawn_from : List A → List A → Result (List A)
  withdrawn_from ws xs =
      if no_items (without xs ws) then ok (without ws xs) else err unknown_withdraw

  -- The specification of `apply`.
  unfoldable pub applied : List A → List A → List A → Result (List A)
  applied xs ann wd =
      if meets xs ann then err duplicate_announce else withdrawn_from wd (union xs ann)

  apply_checked-Gives :
      (d : Diff A) (b : SetBuilder A)
      → IsSorted d.withdrawn.items
      → AllInRange b.blocks
      → AllSorted b.blocks
      → Gives (withdrawn_from d.withdrawn.items (union_all b.blocks)) (apply_checked d b)
  unfolding Gives withdrawn_from apply_checked
  apply_checked-Gives d b w v s =
      let (set, e, items, wf, _) = finalize-union_all b v s in
      let (r, f, kept, wf1, full) =
        filter_refines keep_unless_withdrawn d.withdrawn.items set keep_unless_withdrawn-IsStable
          wf in
      let distinct = IsSorted-Distinct d.withdrawn.items w in
      let (drops, rem) =
        filter_with-drop d.withdrawn.items (union_all b.blocks) distinct
          (union_all-IsSorted b.blocks s) in
      go set e (hash_set_lem d.withdrawn.items distinct) r
        (filter_with keep_unless_withdrawn d.withdrawn.items (flatten set.blocks)).0 f
        (kept ∙ ap (λ xs. (filter_with keep_unless_withdrawn d.withdrawn.items xs).1) items ∙ drops)
        wf1 full
        (no_items-ext (filter_with keep_unless_withdrawn d.withdrawn.items (flatten set.blocks)).0
          (without (union_all b.blocks) d.withdrawn.items)
          λ a.
            ap (λ xs. elem a (filter_with keep_unless_withdrawn d.withdrawn.items xs).0) items
            ∙ rem a
            ∙ sym (elem-without a (union_all b.blocks) d.withdrawn.items))
    where
      go :
          (set : Set A)
          → Builder.finalize b ≡ some set
          → hash_set d.withdrawn.items ≡ d.withdrawn.items
          → (r : Set A) → (left : List A)
          → filter keep_unless_withdrawn d.withdrawn.items set ≡ some (left, r)
          → flatten r.blocks ≡ without d.withdrawn.items (union_all b.blocks)
          → IsWellFormed r
          → NoneEmpty r.blocks
          → no_items left ≡ no_items (without (union_all b.blocks) d.withdrawn.items)
          → Gives (withdrawn_from d.withdrawn.items (union_all b.blocks)) (apply_checked d b)
      go set e h r left f i wf full n = rw (sym n) (rw (e, h) (rw f (pick (no_items left))))
        where
          pick :
              (t : Bool)
              → Gives
                  (if t
                    then ok (without d.withdrawn.items (union_all b.blocks))
                    else err unknown_withdraw)
                  (some (if t then ok r else err unknown_withdraw))
          pick true = (r, refl, i, wf, full)
          pick false = refl

  abbrev pub set_and_pack : Set A → Pack A → List (Block A)
  set_and_pack set p = set.blocks ++ from_pack p ∷ []

  pub set_and_pack-InRange :
      (set : Set A) (p : Pack A) → IsWellFormed set → AllInRange (set_and_pack set p)
  set_and_pack-InRange set p v =
      All-append _ set.blocks (from_pack p ∷ []) v.in_range (from_pack-InRange p, tt)

  pub set_and_pack-Sorted :
      (set : Set A) (p : Pack A)
      → IsSorted (flatten set.blocks)
      → IsSorted p.items
      → AllSorted (set_and_pack set p)
  set_and_pack-Sorted set p s t =
      All-append _ set.blocks (from_pack p ∷ []) (flatten-AllSorted set.blocks s)
        (rw (contents-from_pack p) t, tt)

  pub set_and_pack-union :
      (set : Set A) (p : Pack A)
      → IsSorted (flatten set.blocks)
      → IsSorted p.items
      → union_all (set_and_pack set p) ≡ union (flatten set.blocks) p.items
  unfolding union_all
  set_and_pack-union set p s t =
      union_all-append set.blocks (from_pack p ∷ []) (flatten-AllSorted set.blocks s)
        (rw (contents-from_pack p) t, tt)
      ∙ ap₂ union (union_all-flatten set.blocks s)
          (union-nil (contents (from_pack p)) ∙ contents-from_pack p)

  -- For a well-formed set in ascending order and a diff in ascending order, `apply` does not panic
  -- and ends, and its outcome is the one specified: `duplicate_announce` if the set has an
  -- announced item, else `unknown_withdraw` if a withdrawn item is neither in the set nor
  -- announced, else a set of the items of both without the withdrawn ones.
  pub apply-applied :
      (d : Diff A) (set : Set A)
      → IsSorted d.announced.items
      → IsSorted d.withdrawn.items
      → IsWellFormed set
      → IsSorted (flatten set.blocks)
      → Gives (applied (flatten set.blocks) d.announced.items d.withdrawn.items) (apply d set)
  unfolding applied apply Gives try_insert_pack try_insert_block
  apply-applied d set a w v s =
      rw
        (any_overlaps-meets set.blocks (from_pack d.announced) v.in_range
          (from_pack-InRange d.announced) (flatten-AllSorted set.blocks s)
          (rw (contents-from_pack d.announced) a))
        (rw (contents-from_pack d.announced) (
          pick (meets (flatten set.blocks) d.announced.items) (
            rw (sym (set_and_pack-union set d.announced s a)) (
              apply_checked-Gives d (record { blocks = set_and_pack set d.announced }) w
                (set_and_pack-InRange set d.announced v)
                (set_and_pack-Sorted set d.announced s a)))))
    where
      pick :
          (m : Bool)
          → Gives
              (withdrawn_from d.withdrawn.items (union (flatten set.blocks) d.announced.items))
              (apply_checked d (record { blocks = set_and_pack set d.announced }))
          → Gives
              (if m
                then err duplicate_announce
                else withdrawn_from d.withdrawn.items
                    (union (flatten set.blocks) d.announced.items))
              (elim (if◌then◌else◌ {A = Result (SetBuilder A)} m
                  (err corrupt)
                  (ok (record { blocks = set_and_pack set d.announced })))
                as (λ _. Option (Result (Set A))) [
                  | err e ↦ some (err duplicate_announce)
                  | ok b ↦ apply_checked d b
                ])
      pick true h = refl
      pick false h = h

  -- For a well-formed set in ascending order and a diff in ascending order, `apply_relaxed` does
  -- not panic and ends, and it gives a well-formed set without empty blocks that has the items of
  -- the set and the announced ones, without the withdrawn ones.
  pub apply_relaxed_lem :
      (d : Diff A) (set : Set A)
      → IsSorted d.announced.items
      → IsSorted d.withdrawn.items
      → IsWellFormed set
      → IsSorted (flatten set.blocks)
      → (r : Set A) × (apply_relaxed d set ≡ some r)
        × (flatten r.blocks
            ≡ without d.withdrawn.items (union (flatten set.blocks) d.announced.items))
        × IsWellFormed r
        × NoneEmpty r.blocks
  unfolding apply_relaxed
  apply_relaxed_lem d set a w v s =
      let (t, e, items, wf, _) =
        finalize-union_all (record { blocks = set_and_pack set d.announced })
          (set_and_pack-InRange set d.announced v) (set_and_pack-Sorted set d.announced s a) in
      let (r, f, kept, wf1, full) =
        filter_refines keep_unless_withdrawn d.withdrawn.items t keep_unless_withdrawn-IsStable
          wf in
      let distinct = IsSorted-Distinct d.withdrawn.items w in
      let whole = items ∙ set_and_pack-union set d.announced s a in
      (
        r,
        rw (e, hash_set_lem d.withdrawn.items distinct) (rw f refl),
        kept
            ∙ ap (λ xs. (filter_with keep_unless_withdrawn d.withdrawn.items xs).1) whole
            ∙ (filter_with-drop d.withdrawn.items (union (flatten set.blocks) d.announced.items)
                distinct (union-IsSorted (flatten set.blocks) d.announced.items s a)).0,
        wf1,
        full,
      )
