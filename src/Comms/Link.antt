-- ===== src/Comms/Link.antt =====
-- src/comms.rs: `Link`. What the channels to the gate answer is an argument; `none` as the result
-- of `query` is a future that stays pending.
pub mod Laws
use rtrtr.Base.{ℕ, Bool, true, false, Option, none, some, if◌then◌else◌}
use rtrtr.Comms.Status.{UnitHealth, UnitUpdate, UnitStatus, apply, to_update}
use rtrtr.Comms.Status

-- `Active` holds the slot of the connection. Its receiver stands in the channel at the gate.
pub data ConnectionStatus : Type 0 where
  unconnected : ConnectionStatus
  active : ℕ → ConnectionStatus
  gone : ConnectionStatus

pub record Link {ℓ} (U : Type ℓ) : Type ℓ where
  pub connection : ConnectionStatus
  pub unit_status : UnitStatus U
  pub suspended : Bool

-- What becomes of a `Subscribe` command: it is not sent, or not answered, or answered.
pub data Subscription {ℓ} (U : Type ℓ) : Type ℓ where
  not_sent not_answered : Subscription U
  answered : ℕ → UnitStatus U → Subscription U

-- `!=`
abbrev pub differ : Bool → Bool → Bool
differ true b = if b then false else true
differ false b = b

module _ {ℓ} {U : Type ℓ} where
  -- `Link::new`
  abbrev pub new : Link U
  new = record { connection = unconnected; unit_status = Status.default; suspended = false }

  abbrev pub set_health : UnitStatus U → UnitHealth → UnitStatus U
  set_health s h = record s { health = h }

  -- What `connect` and `query` do when the unit is gone.
  abbrev pub disconnect : Link U → Link U
  disconnect l = record l {
    connection = ConnectionStatus.gone;
    unit_status = set_health l.unit_status UnitHealth.gone;
  }

  unfoldable pub connect : Link U → Subscription U → Link U × Bool
  connect l subscription = elim l.connection [
    | unconnected ↦ elim subscription [
      | not_sent ↦ (disconnect l, true)
      | not_answered ↦ (disconnect l, true)
      | answered slot status ↦ (record l { connection = active slot; unit_status = status }, true)
    ]
    | active slot ↦ (l, false)
    | gone ↦ (l, false)
  ]

  -- `suspend`, and whether the command is sent if there is one to send.
  unfoldable pub suspend : Link U → Bool → Bool → Link U
  suspend l to sent = elim (differ l.suspended to) [
    | false ↦ l
    | true ↦ elim l.connection [
      | active slot ↦
          if sent
          then record l { suspended = to }
          else record l { unit_status = set_health l.unit_status UnitHealth.gone }
      | unconnected ↦ l
      | gone ↦ l
    ]
  ]

module _ {ℓ} {U : Type ℓ} (same : U → U → Bool) where
  -- The part of `query` behind the connection attempt; `received` is what the channel gives.
  unfoldable pub receive : Link U → Option (UnitUpdate U) → Link U × Option (UnitUpdate U)
  receive l received = elim l.connection [
    | unconnected ↦ (l, none)
    | gone ↦ (l, none)
    | active slot ↦ elim received [
      | some u ↦ (record l { unit_status = (apply same l.unit_status u).0 }, some u)
      | none ↦ (disconnect l, some UnitUpdate.gone)
    ]
  ]

  unfoldable pub query :
      Link U → Subscription U → Option (UnitUpdate U) → Link U × Option (UnitUpdate U)
  query l subscription received =
      let (connected, attempted) = connect l subscription in
      if attempted
      then elim (to_update connected.unit_status) [
        | some u ↦ (connected, some u)
        | none ↦ receive connected received
      ]
      else receive connected received
