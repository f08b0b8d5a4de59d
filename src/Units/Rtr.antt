-- ===== src/Units/Rtr.antt =====
-- src/units/rtr.rs: `Target` and `TargetUpdate`, with which the RTR client collects its data, and
-- what `RtrClient::run` does with an update. `none` is a panic.
pub mod Metrics
pub mod Pushes
pub mod Follow
pub mod Reset
use rtrtr.Base.{Bool, true, false, List, [], ◌∷◌, Option, none, some, if◌then◌else◌, ◌>>=◌}
use rtrtr.Order.{Order}
use rtrtr.Payload.Types.{Action, announce, withdraw, Result, ok, err, PayloadError, corrupt}
use rtrtr.Payload.Pack.{PackBuilder, insert}
use rtrtr.Payload.Pack
use rtrtr.Payload.Set.{Set}
use rtrtr.Payload.Set
use rtrtr.Payload.Diff.{Diff, DiffBuilder, builder_is_empty}
use rtrtr.Payload.Diff
use rtrtr.Payload.Update.{Update, new}
use rtrtr.Comms.Status.{UnitUpdate}

-- The name, which is only logged, is left out.
pub record Target (State A : Type 0) : Type 0 where
  pub current : Set A
  pub state : Option State

pub data TargetUpdate (A : Type 0) : Type 0 where
  reset : PackBuilder A → TargetUpdate A
  serial : Set A → DiffBuilder A → TargetUpdate A

module _ {State A : Type 0} where
  -- `Target::new`
  abbrev pub new_target : Target State A
  new_target = record { current = Set.default; state = none }

  unfoldable pub start : Target State A → Bool → TargetUpdate A
  start t to_reset = if to_reset then reset Pack.empty else serial t.current Diff.empty

module _ {A : Type 0} where
  unfoldable pub is_definitely_empty : TargetUpdate A → Bool
  is_definitely_empty (reset pack) = false
  is_definitely_empty (serial set diff) = builder_is_empty diff

module _ {A : Type 0} ⦃o : Order A⦄ where
  -- What the two results of `push_update` are put back into.
  abbrev pub to_reset : Result (PackBuilder A) → Result (TargetUpdate A)
  to_reset (ok pack) = ok (reset pack)
  to_reset (err e) = err e

  abbrev pub to_serial : Set A → Result (DiffBuilder A) → Result (TargetUpdate A)
  to_serial set (ok diff) = ok (serial set diff)
  to_serial set (err e) = err e

  unfoldable pub push_update : TargetUpdate A → Action → A → Result (TargetUpdate A)
  push_update (reset pack) withdraw a = err corrupt
  push_update (reset pack) announce a = to_reset (insert pack a)
  push_update (serial set diff) action a = to_serial set (Diff.push diff a action)

  -- The client pushes what the server sends, one item after the other, up to an error.
  unfoldable pub push_updates : TargetUpdate A → List (A × Action) → Result (TargetUpdate A)
  push_updates t [] = ok t
  push_updates t ((a, action) ∷ rest) = elim (push_update t action a) [
    | ok next ↦ push_updates next rest
    | err e ↦ err e
  ]

  unfoldable pub into_update : TargetUpdate A → Option (Result (Update A))
  into_update (reset pack) = do set ← Set.from_pack (Pack.finalize pack); some (ok (new set))
  into_update (serial set diff) = do
    res ← Diff.apply (Diff.finalize diff) set
    some (elim res [ ok applied ↦ ok (new applied) | err e ↦ err e ])

  -- The future in `RtrClient::update` behind the client's own update.
  unfoldable pub finish_update : TargetUpdate A → Option (Result (Option (Update A)))
  finish_update update = elim (is_definitely_empty update) [
    | true ↦ some (ok none)
    | false ↦ do res ← into_update update; some (elim res [ ok u ↦ ok (some u) | err e ↦ err e ])
  ]

-- What `RtrClient::run` gets from `connect` and from `update`.
pub data ClientEvent (A : Type 0) : Type 0 where
  connect_failed disconnected terminated : ClientEvent A
  updated : Option (Update A) → ClientEvent A

module _ {State A : Type 0} where
  -- The target and what is sent to the gate.
  unfoldable pub run_event :
      Target State A → ClientEvent A → Target State A × Option (UnitUpdate (Update A))
  run_event t connect_failed = (t, some UnitUpdate.stalled)
  run_event t disconnected = (t, some UnitUpdate.stalled)
  run_event t terminated = (t, some UnitUpdate.gone)
  run_event t (updated none) = (t, none)
  run_event t (updated (some u)) = (record t { current = u.set }, some (UnitUpdate.payload u))
