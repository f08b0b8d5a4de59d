-- ===== src/Comms/Gate.antt =====
-- src/comms.rs: `Gate`. The slab of senders is the list of its slots with what they hold; the slot
-- that the slab picks for a new sender is an argument. A sender is its channel: the updates sent
-- and not yet received, and whether the receiver is gone. The clock is an argument.
pub mod Slots
pub mod Sync
pub mod Until
use rtrtr.Base.{
  ℕ, zero, suc, ◌≡◌, Bool, true, false, List, [], ◌∷◌, ◌++◌, Option, none, some, length,
  if◌then◌else◌, ◌==◌,
}
use rtrtr.Comms.Status.{UnitHealth, UnitUpdate, UnitStatus, apply}
use rtrtr.Comms.Status

pub record Channel {ℓ} (U : Type ℓ) : Type ℓ where
  pub queue : List (UnitUpdate U)
  pub closed : Bool

pub record UpdateSender {ℓ} (U : Type ℓ) : Type ℓ where
  pub sender : Option (Channel U)
  pub suspended : Bool

pub record GateMetrics (Time : Type 0) : Type 0 where
  pub health : UnitHealth
  pub count : ℕ
  pub update : Option Time

pub record Gate {ℓ} (U : Type ℓ) (Time : Type 0) : Type ℓ where
  pub updates : List (ℕ × UpdateSender U)
  pub suspended : ℕ
  pub unit_status : UnitStatus U
  pub metrics : GateMetrics Time

pub data GateStatus : Type 0 where
  active dormant : GateStatus

-- A command of a link: the slot of a `subscribe` is the one that the slab picks, and its last field
-- tells whether the link still waits for the response.
pub data GateCommand : Type 0 where
  suspension : ℕ → Bool → GateCommand
  subscribe : ℕ → Bool → Bool → GateCommand

-- What comes of `process`: it waits for more commands, ends with `Terminated`, or gives a new status.
pub data Processing : Type 0 where
  pending terminated : Processing
  changed : GateStatus → Processing

-- The future does not resolve.
abbrev pub never : {Output : Type 0} → Option Output → Bool
never none = true
never (some output) = false

abbrev pub same_status : GateStatus → GateStatus → Bool
same_status active active = true
same_status dormant dormant = true
same_status _ _ = false

module _ {ℓ} {U : Type ℓ} {Time : Type 0} where
  -- `Gate::new`
  abbrev pub new : Gate U Time
  new = record {
    updates = [];
    suspended = 0;
    unit_status = Status.default;
    metrics = record { health = UnitHealth.healthy; count = 0; update = none };
  }

  unfoldable pub gate_status : Gate U Time → GateStatus
  gate_status g = if g.suspended == length g.updates then dormant else active

module _ {ℓ} {U : Type ℓ} where
  -- The change of what a slot holds.
  unfoldable pub set_suspended : ℕ → Bool → List (ℕ × UpdateSender U) → List (ℕ × UpdateSender U)
  set_suspended slot suspend [] = []
  set_suspended slot suspend ((n, item) ∷ rest) =
      if n == slot
      then (n, record item { suspended = suspend }) ∷ rest
      else (n, item) ∷ set_suspended slot suspend rest

  -- The loop body of `update`.
  unfoldable pub send : UnitUpdate U → UpdateSender U → UpdateSender U
  send u item = elim item.suspended [
    | true ↦ item
    | false ↦ elim item.sender [
      | none ↦ item
      | some channel ↦ elim channel.closed [
        | false ↦ record item {
          sender = some (record { queue = channel.queue ++ u ∷ []; closed = false });
        }
        | true ↦ record item { sender = none }
      ]
    ]
  ]

  unfoldable pub send_all : UnitUpdate U → List (ℕ × UpdateSender U) → List (ℕ × UpdateSender U)
  send_all u [] = []
  send_all u ((n, item) ∷ rest) = (n, send u item) ∷ send_all u rest

  -- `retain(|_, item| item.sender.is_some())`
  unfoldable pub retain_senders : List (ℕ × UpdateSender U) → List (ℕ × UpdateSender U)
  retain_senders [] = []
  retain_senders ((n, item) ∷ rest) = elim item.sender [
    | none ↦ retain_senders rest
    | some channel ↦ (n, item) ∷ retain_senders rest
  ]

module _ {ℓ} {U : Type ℓ} {Time : Type 0} where
  -- `Gate::suspension`
  unfoldable pub suspend_slot : Gate U Time → ℕ → Bool → Gate U Time
  suspend_slot g slot suspend = record g { updates = set_suspended slot suspend g.updates }

  -- `Gate::subscribe`: without a receiver for the response, the new slot is removed again.
  unfoldable pub subscribe_slot : Gate U Time → ℕ → Bool → Bool → Gate U Time
  subscribe_slot g slot suspended waits =
      if waits
      then record g {
        updates =
            (
              slot,
              record {
                sender = some (record { queue = []; closed = false });
                suspended = suspended;
              },
            )
            ∷ g.updates;
      }
      else g

  -- `match command` in `process`.
  unfoldable pub run_command : Gate U Time → GateCommand → Gate U Time
  run_command g (suspension slot suspend) = suspend_slot g slot suspend
  run_command g (subscribe slot suspended waits) = subscribe_slot g slot suspended waits

  -- The loop of `process` over the commands that come in, and whether the channel is closed behind
  -- them: the gate, the commands left, and what comes of it.
  unfoldable pub process_loop :
      Bool
      → GateStatus
      → Gate U Time
      → List GateCommand
      → Gate U Time × List GateCommand × Processing
  process_loop closed status g [] = (g, [], if closed then terminated else pending)
  process_loop closed status g (c ∷ cs) =
      let rest = process_loop closed status (run_command g c) cs in
      if same_status (gate_status (run_command g c)) status
      then rest
      else (run_command g c, cs, changed (gate_status (run_command g c)))

  unfoldable pub process :
      Bool → Gate U Time → List GateCommand → Gate U Time × List GateCommand × Processing
  process closed g = process_loop closed (gate_status g) g

  -- The loop of `process_until` over the commands that come in before the future resolves, with its
  -- output; with none, it does not resolve before all links and agents are gone and the channel is
  -- closed. It gives the gate, and the output or, as none, `Terminated`. A change of the status starts
  -- `process` again.
  unfoldable pub process_until_loop :
      {Output : Type 0}
      → ℕ
      → Gate U Time
      → List GateCommand
      → Option Output
      → Option (Gate U Time × Option Output)
  process_until_loop zero g cs end = none
  process_until_loop (suc fuel) g cs end =
      let (g', left, processing) = process (never end) g cs in
      elim processing [
        | pending ↦ some (g', end)
        | terminated ↦ some (g', none)
        | changed status ↦ process_until_loop fuel g' left end
      ]

  unfoldable pub process_until :
      {Output : Type 0}
      → Gate U Time
      → List GateCommand
      → Option Output
      → Option (Gate U Time × Option Output)
  process_until g cs end = process_until_loop (suc (length cs)) g cs end

module _ {ℓ} {U : Type ℓ} {Time : Type 0} (same : U → U → Bool) (len : U → ℕ) where
  -- `GateMetrics::update`
  unfoldable pub update_metrics : GateMetrics Time → UnitStatus U → Time → GateMetrics Time
  update_metrics m s now = record {
    health = s.health;
    count = elim s.payload [ none ↦ m.count | some u ↦ len u ];
    update = some now;
  }

  -- `Gate::update`, and whether the status changed.
  unfoldable pub update : Gate U Time → UnitUpdate U → Time → Gate U Time × Bool
  update g u now =
      let (status, has_changed) = apply same g.unit_status u in
      if has_changed
      then (
        record g {
          updates = retain_senders (send_all u g.updates);
          unit_status = status;
          metrics = update_metrics g.metrics status now;
        },
        true,
      )
      else (g, false)
