-- ===== src/Comms/Gate/Sync.antt =====
-- src/comms.rs: a link that is not suspended follows the status of its gate.
use rtrtr.Base.{
  ℕ, ◌≡◌, refl, ap, ◌∙◌, sym, Bool, true, false, List, [], ◌∷◌, ◌++◌, Option, none, some,
  if◌then◌else◌, ◌==◌, arith,
}
use rtrtr.Comms.Status.{UnitUpdate, UnitStatus, apply, apply_all}
use rtrtr.Comms.Gate.{
  Gate, UpdateSender, GateCommand, suspension, subscribe, run_command, suspend_slot, subscribe_slot,
  send_all, retain_senders, update, update_metrics,
}
use rtrtr.Comms.Gate.Slots.{
  lookup, set_queue, open_sender, lookup-set_queue, lookup-send_all, lookup-set_suspended,
}

module _ {ℓ} {U : Type ℓ} (same : U → U → Bool) where
  apply_all-push :
      (l : UnitStatus U) (q : List (UnitUpdate U)) (u : UnitUpdate U)
      → apply_all same l (q ++ u ∷ []) ≡ (apply same (apply_all same l q) u).0
  unfolding apply_all
  apply_all-push l [] u = refl
  apply_all-push l (v ∷ q) u = apply_all-push (apply same l v).0 q u

-- The slot that a command is about.
abbrev pub slot_of : GateCommand → ℕ
slot_of (suspension slot b) = slot
slot_of (subscribe slot b w) = slot

module _ {ℓ} {U : Type ℓ} {Time : Type 0} (same : U → U → Bool) (len : U → ℕ) (slot : ℕ) where
  -- The link at the slot is connected and not suspended, and once it has applied the updates that
  -- are on their way to it, it has the status of the gate.
  abbrev pub Synced : Gate U Time → UnitStatus U → Type ℓ
  Synced g l =
      (q : List (UnitUpdate U)) × (lookup slot g.updates ≡ some (open_sender q))
      × (apply_all same l q ≡ g.unit_status)

  -- What happens to the gate, and to the status that the link at the slot has: the unit updates
  -- the gate, a command of another link comes in, or the link receives an update.
  pub data Step : Gate U Time → UnitStatus U → Gate U Time → UnitStatus U → Type ℓ where
    updated :
        {g : Gate U Time} {l : UnitStatus U} (u : UnitUpdate U) (now : Time)
        → Step g l (update same len g u now).0 l
    commanded :
        {g : Gate U Time} {l : UnitStatus U} (c : GateCommand)
        → (slot_of c == slot) ≡ false
        → Step g l (run_command g c) l
    received :
        {g : Gate U Time} {l : UnitStatus U} (u : UnitUpdate U) (q : List (UnitUpdate U))
        → lookup slot g.updates ≡ some (open_sender (u ∷ q))
        → Step g l (record g { updates = set_queue slot q g.updates }) (apply same l u).0

  pub data Steps (g : Gate U Time) (l : UnitStatus U) : Gate U Time → UnitStatus U → Type ℓ where
    stop : Steps g l g l
    more : {h k : Gate U Time} {m n : UnitStatus U} → Steps g l h m → Step h m k n → Steps g l k n

  updated-Synced :
      (g : Gate U Time) (l : UnitStatus U) (u : UnitUpdate U) (now : Time)
      → Synced g l
      → Synced (update same len g u now).0 l
  unfolding update
  updated-Synced g l u now (q, e, f) = go (apply same g.unit_status u) refl
    where
      go :
          (r : UnitStatus U × Bool)
          → apply same g.unit_status u ≡ r
          → Synced
              (if◌then◌else◌ {A = Gate U Time × Bool} r.1
                (
                  record g {
                    updates = retain_senders (send_all u g.updates);
                    unit_status = r.0;
                    metrics = update_metrics same len g.metrics r.0 now;
                  },
                  true,
                )
                (g, false)).0
              l
      go (status, false) k = (q, e, f)
      go (status, true) k = (
        q ++ u ∷ [],
        lookup-send_all slot q u g.updates e,
        apply_all-push same l q u ∙ ap (λ t. (apply same t u).0) f ∙ ap (λ r. r.0) k,
      )

  commanded-Synced :
      (g : Gate U Time) (l : UnitStatus U) (c : GateCommand)
      → (slot_of c == slot) ≡ false
      → Synced g l
      → Synced (run_command g c) l
  unfolding run_command suspend_slot subscribe_slot lookup
  commanded-Synced g l (suspension other b) n (q, e, f) =
      (q, lookup-set_suspended slot other b g.updates n ∙ e, f)
  commanded-Synced g l (subscribe other b true) n (q, e, f) = (q, rw n e, f)
  commanded-Synced g l (subscribe other b false) n s = s

  Step-Synced : {g h : Gate U Time} {l m : UnitStatus U} → Step g l h m → Synced g l → Synced h m
  unfolding apply_all
  Step-Synced {g} {h} {l} {m} (updated u now) s = updated-Synced g l u now s
  Step-Synced {g} {h} {l} {m} (commanded c n) s = commanded-Synced g l c n s
  Step-Synced {g} {h} {l} {m} (received u q e) (p, k, f) = (
    q,
    lookup-set_queue slot (u ∷ q) q g.updates e,
    ap (apply_all same l) (same_queue (u ∷ q) p (sym e ∙ k)) ∙ f,
  )
    where
      queue_of : Option (UpdateSender U) → List (UnitUpdate U)
      queue_of none = []
      queue_of (some i) = elim i.sender [ none ↦ [] | some c ↦ c.queue ]

      same_queue : (a b : List (UnitUpdate U)) → some (open_sender a) ≡ some (open_sender b) → a ≡ b
      same_queue a b h = ap queue_of h

  subscribed-Synced : (g : Gate U Time) → Synced (subscribe_slot g slot false true) g.unit_status
  unfolding subscribe_slot lookup apply_all
  subscribed-Synced g = ([], rw (self slot) refl, refl)
    where
      self : (n : ℕ) → (n == n) ≡ true
      self n = ground arith

  -- Take a link that has subscribed, not suspended, and started out with the status that the
  -- response held. Whatever the unit and the commands of other links do, and however many of its
  -- updates the link has received: it is connected, and the updates on their way lead its status
  -- to the status of the gate.
  pub Steps-Synced :
      (g h : Gate U Time) (m : UnitStatus U)
      → Steps (subscribe_slot g slot false true) g.unit_status h m
      → Synced h m
  Steps-Synced g h m stop = subscribed-Synced g
  Steps-Synced g h m (more steps step) = Step-Synced step (Steps-Synced g _ _ steps)
