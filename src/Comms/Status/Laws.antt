-- ===== src/Comms/Status/Laws.antt =====
-- src/comms.rs: what applying an update to a `UnitStatus` does.
use rtrtr.Base.{◌≡◌, refl, Bool, true, false, Option, none, some, if◌then◌else◌, ◌⊎◌, inl, inr}
use rtrtr.Comms.Status.{
  UnitHealth, healthy, stalled, gone, UnitUpdate, payload, UnitStatus, apply, to_update,
  from_update,
}

module _ {ℓ} {U : Type ℓ} (same : U → U → Bool) where
  -- `apply` always leaves the health that the update stands for. It reports a change together with
  -- a status that gives just this update back, and reports none only when it leaves the status
  -- as it was.
  pub apply-to_update :
      (s : UnitStatus U) (u : UnitUpdate U)
      → ((apply same s u).0.health ≡ from_update u)
        × (((apply same s u).1 ≡ true × to_update (apply same s u).0 ≡ some u)
            ⊎ ((apply same s u).1 ≡ false × (apply same s u).0 ≡ s))
  unfolding apply to_update from_update
  apply-to_update s u = go s.health s.payload u
    where
      go :
          (h : UnitHealth) (p : Option U) (u : UnitUpdate U)
          → let s : UnitStatus U = record { health = h; payload = p } in
            ((apply same s u).0.health ≡ from_update u)
            × (((apply same s u).1 ≡ true × to_update (apply same s u).0 ≡ some u)
                ⊎ ((apply same s u).1 ≡ false × (apply same s u).0 ≡ s))
      go healthy none (payload u) = (refl, inl (refl, refl))
      go healthy (some v) (payload u) = known (same u v)
        where
          known :
              (b : Bool)
              → let r : UnitStatus U × Bool =
                  if b
                  then (record { health = UnitHealth.healthy; payload = some v }, false)
                  else (record { health = UnitHealth.healthy; payload = some u }, true) in
                (r.0.health ≡ UnitHealth.healthy)
                × ((r.1 ≡ true × to_update r.0 ≡ some (payload u))
                    ⊎ (r.1 ≡ false
                        × r.0 ≡ record { health = UnitHealth.healthy; payload = some v }))
          known true = (refl, inr (refl, refl))
          known false = (refl, inl (refl, refl))
      go stalled p (payload u) = (refl, inl (refl, refl))
      go gone p (payload u) = (refl, inl (refl, refl))
      go healthy p stalled = (refl, inl (refl, refl))
      go stalled p stalled = (refl, inr (refl, refl))
      go gone p stalled = (refl, inl (refl, refl))
      go healthy p gone = (refl, inl (refl, refl))
      go stalled p gone = (refl, inl (refl, refl))
      go gone p gone = (refl, inr (refl, refl))
