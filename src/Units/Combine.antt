-- ===== src/Units/Combine.antt =====
-- src/units/combine.rs: the units `Any` and `Merge`. A link is the status that it has of its unit.
-- `none` is a panic.
pub mod Metrics
pub mod Merging
pub mod Picking
use rtrtr.Base.{
  ℕ, zero, suc, ◌+◌, ◌%◌, Bool, true, false, List, [], ◌∷◌, Option, none, some, length, get_elem?,
  if◌then◌else◌, ◌==◌, ◌>>=◌,
}
use rtrtr.Order.{Order}
use rtrtr.Payload.Set.{Set}
use rtrtr.Payload.Set
use rtrtr.Payload.Merge.{merge}
use rtrtr.Payload.Update.{Update, new}
use rtrtr.Comms.Status.{UnitHealth, healthy, stalled, gone, UnitStatus, UnitUpdate, is_healthy}
use rtrtr.Comms.Status

-- The outcome of `pick`: an error, or the index of a source if there is one.
pub data Pick : Type 0 where
  terminated : Pick
  picked : Option ℕ → Pick

module _ {ℓ} {U : Type ℓ} where
  -- The loop of `pick`, with the number of rounds to go.
  unfoldable pub pick_loop : ℕ → List (UnitStatus U) → ℕ → Bool → Option Pick
  pick_loop zero sources next only_gone = some (if only_gone then terminated else picked none)
  pick_loop (suc n) sources next only_gone = do
    source ← get_elem? sources next
    elim source.health [
      | healthy ↦ elim source.payload [
        | some u ↦ some (picked (some next))
        | none ↦ pick_loop n sources ((next + 1) % length sources) false
      ]
      | stalled ↦ pick_loop n sources ((next + 1) % length sources) false
      | gone ↦ pick_loop n sources ((next + 1) % length sources) only_gone
    ]

  -- Where `pick` starts: `random` holds the number drawn, if the unit picks at random.
  unfoldable pub first_pick : List (UnitStatus U) → Option ℕ → Option ℕ → ℕ
  first_pick sources (some drawn) curr = drawn
  first_pick sources none (some curr) = (curr + 1) % length sources
  first_pick sources none none = 0

  unfoldable pub pick : List (UnitStatus U) → Option ℕ → Option ℕ → Option Pick
  pick sources random curr =
      pick_loop (length sources) sources (first_pick sources random curr) true

-- What the inner loop of `Any::run` does with an update: send it on, wait, or pick again.
pub data AnyStep {ℓ} (U : Type ℓ) : Type ℓ where
  send : U → AnyStep U
  wait repick : AnyStep U

-- `Some(idx) == curr_idx`
abbrev pub is_current : ℕ → Option ℕ → Bool
is_current idx none = false
is_current idx (some curr) = idx == curr

module _ {ℓ} {U : Type ℓ} where
  -- `match res` in the inner loop.
  unfoldable pub any_step : Option ℕ → ℕ → UnitUpdate U → AnyStep U
  any_step curr idx (UnitUpdate.payload u) =
      if is_current idx curr then send u else elim curr [ none ↦ repick | some c ↦ wait ]
  any_step curr idx UnitUpdate.stalled = if is_current idx curr then repick else wait
  any_step curr idx UnitUpdate.gone = if is_current idx curr then repick else wait

  -- What the outer loop sends once it has picked.
  unfoldable pub picked_update : List (UnitStatus U) → Pick → Option (UnitUpdate U)
  picked_update sources terminated = some UnitUpdate.gone
  picked_update sources (picked none) = some UnitUpdate.stalled
  picked_update sources (picked (some idx)) = do
    source ← get_elem? sources idx
    elim source.payload [ some u ↦ some (UnitUpdate.payload u) | none ↦ some UnitUpdate.stalled ]

module _ {ℓ} {A : Type ℓ} ⦃o : Order A⦄ where
  -- The loop of `Merge::run` over the sources.
  unfoldable pub merge_sources : Set A → List (UnitStatus (Update A)) → Option (Set A)
  merge_sources output [] = some output
  merge_sources output (source ∷ sources) = elim (is_healthy source.health) [
    | false ↦ merge_sources output sources
    | true ↦ elim source.payload [
      | none ↦ merge_sources output sources
      | some update ↦ do next ← merge output update.set; merge_sources next sources
    ]
  ]

  -- What `Merge::run` sends after an update of a source.
  unfoldable pub merge_update : List (UnitStatus (Update A)) → Option (UnitUpdate (Update A))
  merge_update sources = do
    output ← merge_sources Set.default sources
    some (UnitUpdate.payload (new output))

-- What the inner loops of `Any::run` and `Merge::run` wait for: an update of a source, or the gate.
pub data CombineEvent {ℓ} (U : Type ℓ) : Type ℓ where
  source_update : ℕ → UnitUpdate U → CombineEvent U
  processed : CombineEvent U

module _ {ℓ} {U : Type ℓ} where
  -- A round of the inner loop of `Any::run`, with a pick and its update if it leaves it: the
  -- current index, what is sent, and whether the unit goes on.
  unfoldable pub any_event :
      List (UnitStatus U)
      → Option ℕ
      → Option ℕ
      → CombineEvent U
      → Option (Option ℕ × Option (UnitUpdate U) × Bool)
  any_event sources random curr processed = some (curr, none, true)
  any_event sources random curr (source_update idx u) = elim (any_step curr idx u) [
    | send v ↦ some (curr, some (UnitUpdate.payload v), true)
    | wait ↦ some (curr, none, true)
    | repick ↦ do
      p ← pick sources random curr
      sent ← picked_update sources p
      elim p [
        | terminated ↦ some (curr, some sent, false)
        | picked next ↦ some (next, some sent, true)
      ]
  ]

module _ {ℓ} {A : Type ℓ} ⦃o : Order A⦄ where
  -- A round of `Merge::run`.
  unfoldable pub merge_event :
      List (UnitStatus (Update A))
      → CombineEvent (Update A)
      → Option (Option (UnitUpdate (Update A)))
  merge_event sources processed = some none
  merge_event sources (source_update idx u) = do sent ← merge_update sources; some (some sent)
