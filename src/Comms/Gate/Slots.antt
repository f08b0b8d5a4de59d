-- ===== src/Comms/Gate/Slots.antt =====
-- The slots of the slab of a gate in src/comms.rs.
use rtrtr.Base.{
  ℕ, ◌≡◌, refl, ap, ◌∙◌, sym, subst, Bool, true, false, List, [], ◌∷◌, ◌++◌, Option, none, some,
  if◌then◌else◌, ◌==◌, arith,
}
use rtrtr.Comms.Status.{UnitUpdate}
use rtrtr.Comms.Gate.{UpdateSender, Channel, set_suspended, send, send_all, retain_senders}

module _ {ℓ} {U : Type ℓ} where
  unfoldable pub lookup : ℕ → List (ℕ × UpdateSender U) → Option (UpdateSender U)
  lookup slot [] = none
  lookup slot ((n, item) ∷ rest) = if n == slot then some item else lookup slot rest

  -- The receiver takes what it waits for out of the channel: these updates stay.
  unfoldable pub set_queue :
      ℕ → List (UnitUpdate U) → List (ℕ × UpdateSender U) → List (ℕ × UpdateSender U)
  set_queue slot q [] = []
  set_queue slot q ((n, item) ∷ rest) =
      if n == slot
      then (n, record item { sender = some (record { queue = q; closed = false }) }) ∷ rest
      else (n, item) ∷ set_queue slot q rest

  -- The sender of a link that is connected and not suspended, with updates on their way.
  abbrev pub open_sender : List (UnitUpdate U) → UpdateSender U
  open_sender q = record { sender = some (record { queue = q; closed = false }); suspended = false }

  pub lookup-set_queue :
      (slot : ℕ) (p q : List (UnitUpdate U)) (xs : List (ℕ × UpdateSender U))
      → lookup slot xs ≡ some (open_sender p)
      → lookup slot (set_queue slot q xs) ≡ some (open_sender q)
  unfolding lookup set_queue
  lookup-set_queue slot p q [] h = cc h
  lookup-set_queue slot p q ((n, item) ∷ rest) h =
      go (n == slot) refl h (lookup-set_queue slot p q rest)
    where
      go :
          (b : Bool)
          → (n == slot) ≡ b
          → (if b then some item else lookup slot rest) ≡ some (open_sender p)
          → (lookup slot rest ≡ some (open_sender p)
              → lookup slot (set_queue slot q rest) ≡ some (open_sender q))
          → lookup slot (
              if b
              then (n, record item { sender = some (record { queue = q; closed = false }) }) ∷ rest
              else (n, item) ∷ set_queue slot q rest)
            ≡ some (open_sender q)
      go true e h r = rw e (
          ap
            (λ i.
              some (record { sender = some (record { queue = q; closed = false }); suspended = i }))
            (active_of item h))
        where
          active_of : (i : UpdateSender U) → some i ≡ some (open_sender p) → i.suspended ≡ false
          active_of i h = ap (λ o. elim o [ none ↦ false | some j ↦ j.suspended ]) h
      go false e h r = rw e (r h)

  pub lookup-send_all :
      (slot : ℕ) (q : List (UnitUpdate U)) (u : UnitUpdate U) (xs : List (ℕ × UpdateSender U))
      → lookup slot xs ≡ some (open_sender q)
      → lookup slot (retain_senders (send_all u xs)) ≡ some (open_sender (q ++ u ∷ []))
  unfolding lookup send_all retain_senders send
  lookup-send_all slot q u [] h = cc h
  lookup-send_all slot q u ((n, item) ∷ rest) h =
      go (n == slot) refl h (lookup-send_all slot q u rest)
    where
      skip :
          (i : UpdateSender U) (o : Option (Channel U)) (xs : List (ℕ × UpdateSender U))
          → (n == slot) ≡ false
          → lookup slot
              (elim o as (λ _. List (ℕ × UpdateSender U)) [ none ↦ xs | some c ↦ (n, i) ∷ xs ])
            ≡ lookup slot xs
      skip i none xs e = refl
      skip i (some c) xs e = rw e refl

      go :
          (b : Bool)
          → (n == slot) ≡ b
          → (if b then some item else lookup slot rest) ≡ some (open_sender q)
          → (lookup slot rest ≡ some (open_sender q)
              → lookup slot (retain_senders (send_all u rest)) ≡ some (open_sender (q ++ u ∷ [])))
          → lookup slot (retain_senders (send_all u ((n, item) ∷ rest)))
            ≡ some (open_sender (q ++ u ∷ []))
      go true e h r =
          subst
            (λ i.
              lookup slot (retain_senders (send_all u ((n, i) ∷ rest)))
              ≡ some (open_sender (q ++ u ∷ [])))
            (sym (item_of item h)) (rw e refl)
        where
          item_of : (i : UpdateSender U) → some i ≡ some (open_sender q) → i ≡ open_sender q
          item_of i h = cc h
      go false e h r =
          skip (send u item) (send u item).sender (retain_senders (send_all u rest)) e ∙ r h

  pub lookup-set_suspended :
      (slot other : ℕ) (b : Bool) (xs : List (ℕ × UpdateSender U))
      → (other == slot) ≡ false
      → lookup slot (set_suspended other b xs) ≡ lookup slot xs
  unfolding lookup set_suspended
  lookup-set_suspended slot other b [] n = refl
  lookup-set_suspended slot other b ((m, item) ∷ rest) n =
      go (m == other) refl (lookup-set_suspended slot other b rest n)
    where
      apart : (m == other) ≡ true → (other == slot) ≡ false → (m == slot) ≡ false
      apart e n = ground arith

      go :
          (t : Bool)
          → (m == other) ≡ t
          → lookup slot (set_suspended other b rest) ≡ lookup slot rest
          → lookup slot (
              if t
              then (m, record item { suspended = b }) ∷ rest
              else (m, item) ∷ set_suspended other b rest)
            ≡ lookup slot ((m, item) ∷ rest)
      go true e r = rw (apart e n) refl
      go false e r = rw r refl
