-- ===== src/Comms/Status.antt =====
-- src/comms.rs: `UnitHealth`, `UnitStatus` and `UnitUpdate`. The payload update that they carry is
-- a type parameter, with the test `==` for it.
pub mod Laws
use rtrtr.Base.{
  ◌≡◌, refl, Bool, true, false, ◌&&◌, List, [], ◌∷◌, Option, none, some, if◌then◌else◌, Bool-cases,
  inl, inr, arith, ◌⊎◌,
}

pub data UnitHealth : Type 0 where
  healthy stalled gone : UnitHealth

pub data UnitUpdate {ℓ} (U : Type ℓ) : Type ℓ where
  payload : U → UnitUpdate U
  stalled gone : UnitUpdate U

pub record UnitStatus {ℓ} (U : Type ℓ) : Type ℓ where
  pub health : UnitHealth
  pub payload : Option U

module _ {ℓ} {U : Type ℓ} where
  -- The derived `Default`.
  abbrev pub default : UnitStatus U
  default = record { health = UnitHealth.healthy; payload = none }

  -- `From<&UnitUpdate> for UnitHealth`
  unfoldable pub from_update : UnitUpdate U → UnitHealth
  from_update (payload u) = UnitHealth.healthy
  from_update stalled = UnitHealth.stalled
  from_update gone = UnitHealth.gone

  unfoldable pub to_update : UnitStatus U → Option (UnitUpdate U)
  to_update s = elim s.health [
    | healthy ↦ elim s.payload [ none ↦ none | some u ↦ some (payload u) ]
    | stalled ↦ some UnitUpdate.stalled
    | gone ↦ some UnitUpdate.gone
  ]

-- The tests of `matches!`.
abbrev pub is_healthy : UnitHealth → Bool
is_healthy healthy = true
is_healthy _ = false

abbrev pub is_stalled : UnitHealth → Bool
is_stalled stalled = true
is_stalled _ = false

abbrev pub is_gone : UnitHealth → Bool
is_gone gone = true
is_gone _ = false

module _ {ℓ} {U : Type ℓ} (same : U → U → Bool) where
  -- `Some(payload) == self.payload.as_ref()`
  abbrev pub same_payload : U → Option U → Bool
  same_payload u none = false
  same_payload u (some v) = same u v

  -- `UnitStatus::apply`: the new status, and whether it changed.
  unfoldable pub apply : UnitStatus U → UnitUpdate U → UnitStatus U × Bool
  apply s (payload u) =
      if is_healthy s.health && same_payload u s.payload
      then (s, false)
      else (record { health = UnitHealth.healthy; payload = some u }, true)
  apply s stalled =
      if is_stalled s.health then (s, false) else (record s { health = UnitHealth.stalled }, true)
  apply s gone =
      if is_gone s.health then (s, false) else (record s { health = UnitHealth.gone }, true)

  -- The updates applied one after the other.
  unfoldable pub apply_all : UnitStatus U → List (UnitUpdate U) → UnitStatus U
  apply_all s [] = s
  apply_all s (u ∷ us) = apply_all (apply s u).0 us
