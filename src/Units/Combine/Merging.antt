-- ===== src/Units/Combine/Merging.antt =====
-- src/units/combine.rs: `Merge` sends the items of its healthy sources.
use rtrtr.Base.{
  ◌≡◌, refl, ap, ◌∙◌, sym, subst, Bool, true, false, ◌||◌, ◌&&◌, List, [], ◌∷◌, Option, none, some,
  All, arith, ◌>>=◌,
}
use rtrtr.Order.{Order, elem, IsSorted}
use rtrtr.Sorted.Union.{union-IsSorted, elem-union}
use rtrtr.Payload.Set.{
  Set, flatten, IsWellFormed, NoneEmpty, TailNoneEmpty, NoneEmpty-TailNoneEmpty,
}
use rtrtr.Payload.Set
use rtrtr.Payload.Merge.{merge}
use rtrtr.Payload.Merge.Laws.{merge-union}
use rtrtr.Payload.Update.{Update, new}
use rtrtr.Comms.Status.{UnitStatus, UnitUpdate, is_healthy}
use rtrtr.Units.Combine.{merge_sources, merge_update}

module _ {ℓ} {A : Type ℓ} ⦃o : Order A⦄ where
  -- A set as the units produce it.
  pub record IsGood (s : Set A) : Type ℓ where
    pub well_formed : IsWellFormed s
    pub tail_none_empty : TailNoneEmpty s.blocks
    pub sorted : IsSorted (flatten s.blocks)

  abbrev pub GoodPayload : Option (Update A) → Type ℓ
  GoodPayload none = Unit
  GoodPayload (some u) = IsGood u.set

  abbrev pub AllGood : List (UnitStatus (Update A)) → Type ℓ
  AllGood ss = All (λ s. GoodPayload s.payload) ss

  unfoldable pub payload_holds : A → Option (Update A) → Bool
  payload_holds a none = false
  payload_holds a (some u) = elem a (flatten u.set.blocks)

  -- Whether a healthy source has the item.
  unfoldable pub any_holds : A → List (UnitStatus (Update A)) → Bool
  any_holds a [] = false
  any_holds a (s ∷ ss) = (is_healthy s.health && payload_holds a s.payload) || any_holds a ss

  merge_sources_lem :
      (output : Set A) (ss : List (UnitStatus (Update A)))
      → IsGood output
      → AllGood ss
      → (r : Set A) × (merge_sources output ss ≡ some r)
        × IsGood r
        × ((a : A) → elem a (flatten r.blocks) ≡ elem a (flatten output.blocks) || any_holds a ss)
  unfolding merge_sources any_holds
  merge_sources_lem output [] g h =
      (output, refl, g, λ a. or_false (elem a (flatten output.blocks)))
    where
      or_false : (p : Bool) → p ≡ p || false
      or_false p = ground arith
  merge_sources_lem output (s ∷ ss) g h =
      go (is_healthy s.health) s.payload h.0 (merge_sources_lem output ss g h.1)
        (λ next n. merge_sources_lem next ss n h.1)
    where
      go :
          (b : Bool)
          → (p : Option (Update A)) → GoodPayload p
          → ((r : Set A) × (merge_sources output ss ≡ some r)
              × IsGood r
              × ((a : A)
                  → elem a (flatten r.blocks) ≡ elem a (flatten output.blocks) || any_holds a ss))
          → ((next : Set A)
              → IsGood next
              → (r : Set A) × (merge_sources next ss ≡ some r)
                × IsGood r
                × ((a : A)
                    → elem a (flatten r.blocks) ≡ elem a (flatten next.blocks) || any_holds a ss))
          → (r : Set A) × (elim b as (λ _. Option (Set A)) [
            | false ↦ merge_sources output ss
            | true ↦ elim p [
              | none ↦ merge_sources output ss
              | some update ↦ do next ← merge output update.set; merge_sources next ss
            ]
          ]
              ≡ some r)
            × IsGood r
            × ((a : A)
                → elem a (flatten r.blocks)
                  ≡ elem a (flatten output.blocks) || ((b && payload_holds a p) || any_holds a ss))
      go false p k skip next = skip
      go true none k skip next = unfold payload_holds in skip
      go true (some u) k skip next =
          let (m, e, items, wf, full) =
            merge-union output u.set g.well_formed k.well_formed g.tail_none_empty
              k.tail_none_empty in
          let good : IsGood m = record {
            well_formed = wf;
            tail_none_empty = NoneEmpty-TailNoneEmpty m.blocks full;
            sorted =
                subst IsSorted (sym items)
                  (union-IsSorted (flatten output.blocks) (flatten u.set.blocks) g.sorted k.sorted);
          } in
          let (r, f, q, held) = next m good in
          (
            r,
            rw e f,
            q,
            λ a.
                held a
                ∙ ap (λ w. w || any_holds a ss)
                    (ap (elem a) items
                      ∙ elem-union a (flatten output.blocks) (flatten u.set.blocks))
                ∙ unfold payload_holds in
                  or_assoc (elem a (flatten output.blocks)) (elem a (flatten u.set.blocks))
                    (any_holds a ss),
          )
        where
          or_assoc : (p q r : Bool) → (p || q) || r ≡ p || (q || r)
          or_assoc p q r = ground arith

  -- If the sets of all sources are well formed, in ascending order, and empty in no block but the
  -- first, then `Merge` does not panic and sends a set in ascending order that has exactly the
  -- items that some healthy source has.
  pub merge_update-any_holds :
      (ss : List (UnitStatus (Update A)))
      → AllGood ss
      → (r : Set A) × (merge_update ss ≡ some (UnitUpdate.payload (new r)))
        × IsGood r
        × ((a : A) → elem a (flatten r.blocks) ≡ any_holds a ss)
  unfolding merge_update flatten
  merge_update-any_holds ss h =
      let (r, e, g, k) =
        merge_sources_lem Set.default ss
          (record {
            well_formed = record { in_range = tt; counted = refl };
            tail_none_empty = tt;
            sorted = tt;
          })
          h in
      (r, rw e refl, g, k)
