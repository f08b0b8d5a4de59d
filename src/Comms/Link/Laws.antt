-- ===== src/Comms/Link/Laws.antt =====
-- src/comms.rs: the status that a link has of its unit.
use rtrtr.Base.{◌≡◌, refl, ap, ◌∙◌, sym, Bool, true, false, Option, none, some, if◌then◌else◌}
use rtrtr.Comms.Status.{
  UnitHealth, healthy, stalled, gone, UnitUpdate, payload, UnitStatus, to_update, from_update,
}
use rtrtr.Comms.Status.Laws.{apply-to_update}
use rtrtr.Comms.Link.{
  Link, Subscription, ConnectionStatus, unconnected, active, connect, receive, query,
}

module _ {ℓ} {U : Type ℓ} (same : U → U → Bool) where
  to_update-from_update :
      (s : UnitStatus U) (u : UnitUpdate U) → to_update s ≡ some u → s.health ≡ from_update u
  unfolding to_update from_update
  to_update-from_update s u e = go s.health s.payload u e
    where
      go :
          (h : UnitHealth) (p : Option U) (u : UnitUpdate U)
          → to_update (record { health = h; payload = p }) ≡ some u
          → h ≡ from_update u
      go healthy none u e = cc e
      go healthy (some v) (payload w) e = refl
      go healthy (some v) stalled e = cc e
      go healthy (some v) gone e = cc e
      go stalled p (payload w) e = cc e
      go stalled p stalled e = refl
      go stalled p gone e = cc e
      go gone p (payload w) e = cc e
      go gone p stalled e = cc e
      go gone p gone e = refl

  result_of :
      (x k : Link U) (v u : UnitUpdate U)
      → ◌≡◌ {A = Link U × Option (UnitUpdate U)} (x, some v) (k, some u)
      → x.unit_status.health ≡ from_update v
      → k.unit_status.health ≡ from_update u
  result_of x k v u e h =
      sym (ap (λ r. r.0.unit_status.health) e)
      ∙ h
      ∙ ap (λ r. elim r.1 [ none ↦ from_update u | some w ↦ from_update w ]) e

  receive-health :
      (l k : Link U) (received : Option (UnitUpdate U)) (u : UnitUpdate U)
      → receive same l received ≡ (k, some u)
      → k.unit_status.health ≡ from_update u
  unfolding receive from_update
  receive-health l k received u e = go l.connection received e
    where
      go :
          (c : ConnectionStatus) (r : Option (UnitUpdate U))
          → receive same (record l { connection = c }) r ≡ (k, some u)
          → k.unit_status.health ≡ from_update u
      go unconnected r e = cc e
      go ConnectionStatus.gone r e = cc e
      go (active slot) none e = result_of _ k UnitUpdate.gone u e refl
      go (active slot) (some v) e = result_of _ k v u e (apply-to_update same l.unit_status v).0

  -- Whenever `query` resolves, the health that the link has of its unit is the one of the update
  -- that it returns, whether the update comes with the subscription, through the channel, or from
  -- a failure of one of them.
  pub query-from_update :
      (l k : Link U) (subscription : Subscription U) (received : Option (UnitUpdate U))
      (u : UnitUpdate U)
      → query same l subscription received ≡ (k, some u)
      → k.unit_status.health ≡ from_update u
  unfolding query
  query-from_update l k subscription received u e = go (connect l subscription) e
    where
      answer :
          (c : Link U) (o : Option (UnitUpdate U))
          → to_update c.unit_status ≡ o
          → elim o as (λ _. Link U × Option (UnitUpdate U)) [
            | some v ↦ (c, some v)
            | none ↦ receive same c received
          ]
            ≡ (k, some u)
          → k.unit_status.health ≡ from_update u
      answer c none f e = receive-health c k received u e
      answer c (some v) f e = result_of c k v u e (to_update-from_update c.unit_status v f)

      go :
          (r : Link U × Bool)
          → (if r.1
              then elim (to_update r.0.unit_status) [
                | some v ↦ (r.0, some v)
                | none ↦ receive same r.0 received
              ]
              else receive same r.0 received)
            ≡ (k, some u)
          → k.unit_status.health ≡ from_update u
      go (c, true) e = answer c (to_update c.unit_status) refl e
      go (c, false) e = receive-health c k received u e
