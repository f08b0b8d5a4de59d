-- ===== src/Payload/Tests.antt =====
-- Runs of the operations on sets, after the unit tests of src/payload.rs.
use rtrtr.Base.{
  ◌≤◌, ℕ, List, [], ◌∷◌, some, length, slice, Option, ◌>>=◌, ◌≡◌, refl, ap, ◌∙◌, sym, subst,
  append-nil, arith, Bool, false, ◌||◌, ◌++◌,
}
use rtrtr.Order.{nat_order, IsSorted, is_eq}
use rtrtr.Payload.Block.{
  Block, contents, as_slice, is_empty, first, get_from_pack, split_off_at, head_until, len,
}
use rtrtr.Payload.Set.{Set, flatten, IsWellFormed, NoneEmpty}
use rtrtr.Payload.Pack.{Pack, PackBuilder}
use rtrtr.Payload.Pack
use rtrtr.Payload.Set
use rtrtr.Payload.Set.Walk.{taken-flatten}
use rtrtr.Payload.Diff
use rtrtr.Payload.Diff.{changes}
use rtrtr.Payload.Diff.Walk.{taken-owned_iter}
use rtrtr.Payload.Pack.Laws.{finalize_unique}
use rtrtr.Payload.Block.{overlaps}
use rtrtr.Payload.Block.Overlap.{overlaps-meets, meets}
use rtrtr.Payload.Filter.{filter}
use rtrtr.Payload.Filter.Laws.{filter_refines}
use rtrtr.Payload.Filter.Runs.{filter_with}
use rtrtr.Payload.Merge.Laws.{merge-union}
use rtrtr.Payload.Builder.Laws.{finalize-union_all}
use rtrtr.Payload.Diff.{Diff, diff_from, apply, apply_relaxed, extend, keep_unless_withdrawn}
use rtrtr.Payload.Diff.From.{IsDiff, diff_from-IsDiff}
use rtrtr.Payload.Diff.Extend.{extend-IsDiff}
use rtrtr.Payload.Diff.Roundtrip.{apply-diff_from}
use rtrtr.Payload.Diff.Apply.{Gives, applied, apply-applied, apply_relaxed_lem}
use rtrtr.Payload.Diff.Keep.{keep_unless_withdrawn-IsStable}
use rtrtr.Payload.Diff.Overlap.{slice-length}
use rtrtr.Sorted.Union.{union}
use rtrtr.Sorted.Without.{select, without}
use rtrtr.Payload.Types.{ok}
use rtrtr.Payload.Merge.{
  skip_empty, push_head, push_tail, finish, uncons, advance_before, advance_equal, merge_heads,
  merge_round, merge_loop, merge, weight,
}
use rtrtr.Payload.Builder.Placing.{union_all}
use rtrtr.Payload.Builder.{
  SetBuilder, strip_empty, find_first, option_cmp, place_block, sort_blocks, push_until,
  start_after, finalize_loop, finalize,
}

abbrev pub block : List ℕ → ℕ → ℕ → Block ℕ
block xs a b = record { pack = record { items = xs }; range = record { start = a; end = b } }

abbrev pub whole : List ℕ → Set ℕ
whole xs = record { blocks = block xs 0 (length xs) ∷ []; len = length xs }

-- A set with a single block is well formed, and has the items of its pack.
pub whole-items : (xs : List ℕ) → flatten (whole xs).blocks ≡ xs
unfolding contents flatten
whole-items xs = append-nil (slice xs 0 (length xs)) ∙ slice-length xs

pub whole-IsWellFormed : (xs : List ℕ) → IsWellFormed (whole xs)
whole-IsWellFormed xs = record {
  in_range = (record { ordered = omega arith; bounded = omega arith }, tt);
  counted = ap length (sym (whole-items xs));
}

pub whole-IsSorted : (xs : List ℕ) → IsSorted xs → IsSorted (flatten (whole xs).blocks)
whole-IsSorted xs s = subst IsSorted (sym (whole-items xs)) s

abbrev pub left : Set ℕ
left = whole (1 ∷ 3 ∷ 5 ∷ [])

abbrev pub right : Set ℕ
right = whole (1 ∷ 3 ∷ 4 ∷ [])

-- The names that a run of the operations on sets computes with.
abbrev runs : Unit {0}
unfolding slice contents flatten as_slice len is_empty first get_from_pack head_until split_off_at
    skip_empty push_head push_tail finish uncons advance_before advance_equal merge_heads
    merge_round merge_loop merge weight strip_empty find_first option_cmp place_block sort_blocks
    push_until start_after finalize_loop finalize
runs = tt

merged : Option (List ℕ)
unfolding runs
merged = do s ← merge left right; some (flatten s.blocks)

finalized : Option (List ℕ)
unfolding runs
finalized = do
  s ← finalize (record {
    blocks =
        block (10 ∷ 30 ∷ 40 ∷ []) 0 3
        ∷ block (1 ∷ 2 ∷ []) 2 2
        ∷ block (1 ∷ 3 ∷ 10 ∷ 35 ∷ []) 1 4
        ∷ [];
  })
  some (flatten s.blocks)

pub left-IsSorted : IsSorted {A = ℕ} (1 ∷ 3 ∷ 5 ∷ [])
left-IsSorted = ground arith

pub right-IsSorted : IsSorted {A = ℕ} (1 ∷ 3 ∷ 4 ∷ [])
right-IsSorted = ground arith

merge-union_example :
    (r : Set ℕ) × (merge left right ≡ some r)
    × (flatten r.blocks ≡ union (flatten left.blocks) (flatten right.blocks))
    × IsWellFormed r
    × NoneEmpty r.blocks
merge-union_example =
    merge-union left right (whole-IsWellFormed (1 ∷ 3 ∷ 5 ∷ []))
      (whole-IsWellFormed (1 ∷ 3 ∷ 4 ∷ [])) tt tt

abbrev two_blocks : SetBuilder ℕ
two_blocks = record { blocks = left.blocks ++ right.blocks }

finalize-union_all_example :
    (s : Set ℕ) × (finalize two_blocks ≡ some s)
    × (flatten s.blocks ≡ union_all two_blocks.blocks)
    × IsWellFormed s
    × NoneEmpty s.blocks
finalize-union_all_example =
    finalize-union_all two_blocks
      (
        record { ordered = omega arith; bounded = omega arith },
        (record { ordered = omega arith; bounded = omega arith }, tt),
      )
      (unfold contents slice in (left-IsSorted, (right-IsSorted, tt)))

-- Announces 2 and 4, and withdraws 3.
abbrev change : Diff ℕ
change = record { announced = record { items = 2 ∷ 4 ∷ [] }; withdrawn = record { items = 3 ∷ [] } }

abbrev left_changed : List ℕ
left_changed = 1 ∷ 2 ∷ 4 ∷ 5 ∷ []

apply-applied_example :
    Gives (applied (flatten left.blocks) (2 ∷ 4 ∷ []) (3 ∷ [])) (apply change left)
apply-applied_example =
    apply-applied change left (ground arith) (ground arith) (whole-IsWellFormed (1 ∷ 3 ∷ 5 ∷ []))
      (whole-IsSorted (1 ∷ 3 ∷ 5 ∷ []) left-IsSorted)

apply_relaxed_lem_example :
    (r : Set ℕ) × (apply_relaxed change left ≡ some r)
    × (flatten r.blocks ≡ without (3 ∷ []) (union (flatten left.blocks) (2 ∷ 4 ∷ [])))
    × IsWellFormed r
    × NoneEmpty r.blocks
apply_relaxed_lem_example =
    apply_relaxed_lem change left (ground arith) (ground arith)
      (whole-IsWellFormed (1 ∷ 3 ∷ 5 ∷ [])) (whole-IsSorted (1 ∷ 3 ∷ 5 ∷ []) left-IsSorted)

diff_from-IsDiff_example :
    (d : Diff ℕ) × (diff_from right left ≡ some d)
    × IsDiff (flatten left.blocks) (flatten right.blocks) d
diff_from-IsDiff_example =
    diff_from-IsDiff right left (whole-IsWellFormed (1 ∷ 3 ∷ 4 ∷ []))
      (whole-IsWellFormed (1 ∷ 3 ∷ 5 ∷ [])) (whole-IsSorted (1 ∷ 3 ∷ 4 ∷ []) right-IsSorted)
      (whole-IsSorted (1 ∷ 3 ∷ 5 ∷ []) left-IsSorted)

apply-diff_from_example :
    (d : Diff ℕ) × (diff_from right left ≡ some d)
    × Gives (ok (flatten right.blocks)) (apply d left)
apply-diff_from_example =
    apply-diff_from right left (whole-IsWellFormed (1 ∷ 3 ∷ 4 ∷ []))
      (whole-IsWellFormed (1 ∷ 3 ∷ 5 ∷ [])) (whole-IsSorted (1 ∷ 3 ∷ 4 ∷ []) right-IsSorted)
      (whole-IsSorted (1 ∷ 3 ∷ 5 ∷ []) left-IsSorted)

-- Back from what `change` leads to.
abbrev back : Diff ℕ
back = record { announced = record { items = 3 ∷ [] }; withdrawn = record { items = 2 ∷ [] } }

extend-IsDiff_example :
    (d : Diff ℕ) × (extend change back ≡ ok d) × IsDiff (1 ∷ 3 ∷ 5 ∷ []) (1 ∷ 3 ∷ 4 ∷ 5 ∷ []) d
extend-IsDiff_example =
    extend-IsDiff (1 ∷ 3 ∷ 5 ∷ []) left_changed (1 ∷ 3 ∷ 4 ∷ 5 ∷ []) change back left-IsSorted
      (ground arith) (ground arith) change-IsDiff back-IsDiff
  where
    change-IsDiff : IsDiff (1 ∷ 3 ∷ 5 ∷ []) left_changed change
    change-IsDiff = unfold without select in record { announces = refl; withdraws = refl }

    back-IsDiff : IsDiff left_changed (1 ∷ 3 ∷ 4 ∷ 5 ∷ []) back
    back-IsDiff = unfold without select in record { announces = refl; withdraws = refl }

filter_refines_example :
    (r : Set ℕ) × (filter keep_unless_withdrawn (3 ∷ []) left
      ≡ some ((filter_with keep_unless_withdrawn (3 ∷ []) (flatten left.blocks)).0, r))
    × (flatten r.blocks ≡ (filter_with keep_unless_withdrawn (3 ∷ []) (flatten left.blocks)).1)
    × IsWellFormed r
    × NoneEmpty r.blocks
filter_refines_example =
    filter_refines keep_unless_withdrawn (3 ∷ []) left keep_unless_withdrawn-IsStable
      (whole-IsWellFormed (1 ∷ 3 ∷ 5 ∷ []))

overlaps-meets_example :
    overlaps (block (1 ∷ 3 ∷ 5 ∷ []) 0 3) (block (1 ∷ 3 ∷ 4 ∷ []) 2 3)
    ≡ some (meets (contents (block (1 ∷ 3 ∷ 5 ∷ []) 0 3)) (contents (block (1 ∷ 3 ∷ 4 ∷ []) 2 3)))
overlaps-meets_example =
    overlaps-meets (block (1 ∷ 3 ∷ 5 ∷ []) 0 3) (block (1 ∷ 3 ∷ 4 ∷ []) 2 3)
      (record { ordered = omega arith; bounded = omega arith })
      (record { ordered = omega arith; bounded = omega arith })
      (unfold contents slice in left-IsSorted) (unfold contents slice in (tt, tt))

finalize_unique_example :
    (Pack.finalize {A = ℕ} (record { items = 3 ∷ 1 ∷ [] })).items
    ≡ (Pack.finalize {A = ℕ} (record { items = 1 ∷ 3 ∷ [] })).items
finalize_unique_example =
    finalize_unique {A = ℕ} (record { items = 3 ∷ 1 ∷ [] }) (record { items = 1 ∷ 3 ∷ [] })
      (refl, (refl, tt)) (refl, (refl, tt)) λ a. or_swap (is_eq a 3) (is_eq a 1)
  where
    or_swap : (p q : Bool) → p || (q || false) ≡ q || (p || false)
    or_swap p q = ground arith

taken-flatten_example : Set.Moves.taken 4 (Set.owned_iter left) ≡ flatten left.blocks
taken-flatten_example =
    taken-flatten left 4 (whole-IsWellFormed (1 ∷ 3 ∷ 5 ∷ [])).in_range tt
      (subst (λ xs. length xs ≤ 4) (sym (whole-items (1 ∷ 3 ∷ 5 ∷ []))) (omega arith))

taken-owned_iter_example :
    Diff.Walk.taken 5 (Diff.owned_iter change)
    ≡ changes change.announced.items change.withdrawn.items
taken-owned_iter_example = taken-owned_iter change 5 (unfold Diff.len in omega arith)
