-- ===== src/Targets/Rtr.antt =====
-- src/targets/rtr.rs: `Source` and `SourceData`, the data that an RTR server hands to its clients.
-- `none` is a panic.
pub mod Serve
pub mod History
pub mod Answer
pub mod Metrics
use rtrtr.Base.{
  ℕ, Bool, true, false, ◌&&◌, not, List, [], ◌∷◌, ◌++◌, Option, none, some, length, leb,
  if◌then◌else◌, ◌>>=◌,
}
use rtrtr.Order.{Order}
use rtrtr.Payload.Types.{Result, ok, err}
use rtrtr.Payload.Set.{Set, OwnedSetIter}
use rtrtr.Payload.Set
use rtrtr.Payload.Diff.{Diff, OwnedDiffIter, diff_from, extend}
use rtrtr.Payload.Diff
use rtrtr.Payload.Update.{Update}
use rtrtr.Comms.Status.{UnitUpdate, payload, stalled, gone}

-- What the target uses of rpki::rtr: `State` with its session and serial number, and `Timing`.
pub record Protocol : Type 1 where
  pub State : Type 0
  pub Session : Type 0
  pub Serial : Type 0
  pub Timing : Type 0
  pub session : State → Session
  pub serial : State → Serial
  pub inc : State → State
  pub same_session : Session → Session → Bool
  pub same_serial : Serial → Serial → Bool

-- `Result::unwrap`
abbrev pub unwrap {ℓ} : {A : Type ℓ} → Result A → Option A
unwrap (ok a) = some a
unwrap (err e) = none

pub record SourceData (p : Protocol) (A : Type 0) : Type 0 where
  pub state : p.State
  pub current : Option (Set A)
  pub diffs : List (p.Serial × Diff A)
  pub timing : p.Timing

pub record Source (p : Protocol) (A : Type 0) : Type 0 where
  pub source_data : SourceData p A
  pub history_size : ℕ
  pub timing : p.Timing

-- The values that `update` stores in the metrics.
pub record ListenerMetrics (p : Protocol) : Type 0 where
  pub serial : p.Serial
  pub payload_size : ℕ

module _ (p : Protocol) {A : Type 0} where
  -- `Source::new`, with the default `SourceData`.
  abbrev pub new : p.State → p.Timing → ℕ → p.Timing → Source p A
  new initial default_timing history_size timing = record {
    source_data = record { state = initial; current = none; diffs = []; timing = default_timing };
    history_size = history_size;
    timing = timing;
  }

  unfoldable pub ready : Source p A → Bool
  ready s = elim s.source_data.current [ none ↦ false | some set ↦ true ]

  abbrev pub notify : Source p A → p.State
  notify s = s.source_data.state

  unfoldable pub full : Source p A → p.State × OwnedSetIter A
  full s = elim s.source_data.current [
    | some current ↦ (s.source_data.state, Set.owned_iter current)
    | none ↦ (s.source_data.state, Set.owned_iter Set.default)
  ]

module _ (p : Protocol) {A : Type 0} ⦃o : Order A⦄ where
  -- `find_map` over the diffs kept.
  unfoldable pub find_diff : p.Serial → List (p.Serial × Diff A) → Option (OwnedDiffIter A)
  find_diff serial [] = none
  find_diff serial ((n, d) ∷ rest) =
      if p.same_serial n serial then some (Diff.owned_iter d) else find_diff serial rest

  unfoldable pub get_diff : SourceData p A → p.Serial → Option (OwnedDiffIter A)
  get_diff d serial =
      if p.same_serial serial (p.serial d.state)
      then some (Diff.owned_iter Diff.default)
      else find_diff serial d.diffs

  -- `PayloadSource::diff`
  unfoldable pub diff : Source p A → p.State → Option (p.State × OwnedDiffIter A)
  diff s state = elim s.source_data.current [
    | none ↦ none
    | some current ↦ elim (p.same_session (p.session state) (p.session s.source_data.state)) [
      | false ↦ none
      | true ↦ do d ← get_diff s.source_data (p.serial state); some (s.source_data.state, d)
    ]
  ]

  -- `for (serial, old_diff) in &data.diffs`
  unfoldable pub extend_diffs :
      ℕ
      → Diff A
      → List (p.Serial × Diff A)
      → List (p.Serial × Diff A)
      → Option (List (p.Serial × Diff A))
  extend_diffs history_size diff diffs [] = some diffs
  extend_diffs history_size diff diffs ((serial, old_diff) ∷ rest) =
      elim (leb history_size (length diffs)) [
        | true ↦ some diffs
        | false ↦ do
          extended ← unwrap (extend old_diff diff)
          extend_diffs history_size diff (diffs ++ (serial, extended) ∷ []) rest
      ]

  -- What `update` stores, once the new data is known.
  abbrev pub store : Source p A → SourceData p A → Set A → Source p A × ListenerMetrics p × Bool
  store s new_data set = (
    record s { source_data = new_data },
    record { serial = p.serial new_data.state; payload_size = set.len },
    true,
  )

  -- The case of `update` for a source that has data.
  unfoldable pub update_current :
      Source p A
      → ListenerMetrics p
      → Set A
      → Set A
      → Option (Source p A × ListenerMetrics p × Bool)
  update_current s m current set = do
    diff ← diff_from set current
    elim (Diff.is_empty diff) [
      | true ↦ some (s, m, false)
      | false ↦ do
        diffs ←
            extend_diffs s.history_size diff ((p.serial s.source_data.state, diff) ∷ [])
              s.source_data.diffs
        some (
            store s
              (record {
                state = p.inc s.source_data.state;
                current = some set;
                diffs = diffs;
                timing = s.timing;
              })
              set)
    ]

  unfoldable pub update :
      Source p A
      → ListenerMetrics p
      → UnitUpdate (Update A)
      → Option (Source p A × ListenerMetrics p × Bool)
  update s m stalled = some (s, m, false)
  update s m gone = some (s, m, false)
  update s m (payload u) = elim s.source_data.current [
    | none ↦ some (
        store s
          (record {
            state = s.source_data.state;
            current = some u.set;
            diffs = [];
            timing = s.timing;
          })
          u.set)
    | some current ↦ update_current s m current u.set
  ]
