-- ===== src/Units/Tests.antt =====
-- Runs of src/units.
use rtrtr.Base.{slice, refl, true, ℕ, ◌≡◌, List, [], ◌∷◌, none, some, ◌==◌, arith}
use rtrtr.Order.{nat_order, elem}
use rtrtr.Payload.Set.{Set, flatten, IsWellFormed, NoneEmpty}
use rtrtr.Payload.Types.{ok}
use rtrtr.Payload.Block.{contents}
use rtrtr.Sorted.Without.{without, select}
use rtrtr.Payload.Diff.{Diff, changes}
use rtrtr.Payload.Diff
use rtrtr.Units.Rtr.{Target, TargetUpdate, serial, start, push_updates, into_update}
use rtrtr.Units.Rtr.Reset.{ResetOutcome, announces, push_updates-ResetOutcome}
use rtrtr.Units.Rtr.Follow.{into_update-IsDiff}
use rtrtr.Payload.Update.{Update, new}
use rtrtr.Payload.Tests.{
  left, right, whole-IsWellFormed, whole-IsSorted, left-IsSorted, right-IsSorted,
}
use rtrtr.Comms.Status.{UnitHealth, UnitStatus, UnitUpdate}
use rtrtr.Units.Combine.{Pick, pick, first_pick, merge_update}
use rtrtr.Units.Combine.Merging.{IsGood, any_holds, merge_update-any_holds}
use rtrtr.Units.Combine.Picking.{IsPick, pick-IsPick}
use rtrtr.Units.Slurm.{Slurm, Content, apply, apply_files}
use rtrtr.Units.Slurm.Laws.{excepted, excepted_all, apply-excepted, apply_files-excepted_all}

abbrev working : Set ℕ → UnitStatus (Update ℕ)
working s = record { health = UnitHealth.healthy; payload = some (new s) }

abbrev stalling : UnitStatus (Update ℕ)
stalling = record { health = UnitHealth.stalled; payload = some (new left) }

abbrev sources : List (UnitStatus (Update ℕ))
sources = working left ∷ stalling ∷ working right ∷ []

left-IsGood : IsGood left
left-IsGood = record {
  well_formed = whole-IsWellFormed (1 ∷ 3 ∷ 5 ∷ []);
  tail_none_empty = tt;
  sorted = whole-IsSorted (1 ∷ 3 ∷ 5 ∷ []) left-IsSorted;
}

right-IsGood : IsGood right
right-IsGood = record {
  well_formed = whole-IsWellFormed (1 ∷ 3 ∷ 4 ∷ []);
  tail_none_empty = tt;
  sorted = whole-IsSorted (1 ∷ 3 ∷ 4 ∷ []) right-IsSorted;
}

merge_update-any_holds_example :
    (r : Set ℕ) × (merge_update sources ≡ some (UnitUpdate.payload (new r)))
    × IsGood r
    × ((a : ℕ) → elem a (flatten r.blocks) ≡ any_holds a sources)
merge_update-any_holds_example =
    merge_update-any_holds sources (left-IsGood, (left-IsGood, (right-IsGood, tt)))

pick-IsPick_example :
    (p : Pick) × (pick sources none (some 0) ≡ some p)
    × IsPick sources (first_pick sources none (some 0)) p
pick-IsPick_example = pick-IsPick sources none (some 0) (unfold first_pick in omega arith)

-- A file is a number to drop, with the numbers to add.
abbrev files : Slurm ℕ
files = record {
  SlurmFile = ℕ × List ℕ;
  Filters = ℕ;
  filters = λ f. f.0;
  iter_payload = λ f. f.1;
  drop_payload = λ f a. a == f;
  no_filters = 0;
}

-- Drops 3 and adds 2.
abbrev content : Content files
content = record { filters = 3; assertions = record { items = 2 ∷ [] } }

apply-excepted_example :
    (r : Set ℕ) × (added removed : ℕ) × (apply files content left ≡ some (r, added, removed))
    × (flatten r.blocks ≡ excepted files content (flatten left.blocks))
    × IsWellFormed r
    × NoneEmpty r.blocks
apply-excepted_example =
    apply-excepted files content left (tt, tt) (whole-IsWellFormed (1 ∷ 3 ∷ 5 ∷ []))
      (whole-IsSorted (1 ∷ 3 ∷ 5 ∷ []) left-IsSorted)

apply_files-excepted_all_example :
    (r : Set ℕ) × (apply_files files (content ∷ content ∷ []) left ≡ some r)
    × (flatten r.blocks ≡ excepted_all files (content ∷ content ∷ []) (flatten left.blocks))
    × IsWellFormed r
apply_files-excepted_all_example =
    apply_files-excepted_all files (content ∷ content ∷ []) left ((tt, tt), ((tt, tt), tt))
      (whole-IsWellFormed (1 ∷ 3 ∷ 5 ∷ [])) (whole-IsSorted (1 ∷ 3 ∷ 5 ∷ []) left-IsSorted)

-- Leads from the items of `left` to those of `right`.
abbrev left_to_right : Diff ℕ
left_to_right = record {
  announced = record { items = 4 ∷ [] };
  withdrawn = record { items = 5 ∷ [] };
}

into_update-IsDiff_example :
    (t : TargetUpdate ℕ) × (push_updates (serial left Diff.empty) (changes (4 ∷ []) (5 ∷ []))
      ≡ ok t)
    × (r : Set ℕ) × (into_update t ≡ some (ok (new r)))
    × (flatten r.blocks ≡ 1 ∷ 3 ∷ 4 ∷ [])
    × IsWellFormed r
    × NoneEmpty r.blocks
into_update-IsDiff_example =
    into_update-IsDiff left (1 ∷ 3 ∷ 4 ∷ []) left_to_right (whole-IsWellFormed (1 ∷ 3 ∷ 5 ∷ []))
      (whole-IsSorted (1 ∷ 3 ∷ 5 ∷ []) left-IsSorted) right-IsSorted
      (unfold flatten contents slice without select in
        record { announces = refl; withdraws = refl })

-- A client that has a set already.
abbrev client : Target ℕ ℕ
client = record { current = left; state = none }

push_updates-ResetOutcome_example :
    ResetOutcome (3 ∷ 1 ∷ 2 ∷ []) (push_updates (start client true) (announces (3 ∷ 1 ∷ 2 ∷ [])))
push_updates-ResetOutcome_example = push_updates-ResetOutcome client (3 ∷ 1 ∷ 2 ∷ [])
