-- ===== src/Manager/Spawning.antt =====
-- Which units src/manager.rs starts after loading a configuration.
use rtrtr.Base.{
  ℕ, ◌≡◌, refl, sym, ap, ◌∙◌, true, false, List, [], ◌∷◌, none, some, arith, All, if◌then◌else◌,
  Option-cases, inl, inr,
}
use rtrtr.Text.{Text, same_text}
use rtrtr.Text.Trim.{same_text_iff}
use rtrtr.Manager.{lookup, remove, has, Manager, Loaded, loaded, load, spawn_units, spawn}
use rtrtr.Manager.Loading.{call_names}
use rtrtr.Manager.Pending.{all_in}
use rtrtr.Manager.Resolving.{
  all_in-All, link_names, LoadOutcome, connected, missing, load-LoadOutcome,
}

-- No name stands twice: the units of a configuration are the keys of a map.
abbrev pub DistinctNames : List Text → Type 0
DistinctNames [] = Unit
DistinctNames (n ∷ ns) = (has n ns ≡ false) × DistinctNames ns

lookup-remove {ℓ} :
    {V : Type ℓ} (n k : Text) (m : List (Text × V))
    → same_text k n ≡ false
    → lookup n (remove k m) ≡ lookup n m
unfolding lookup remove
lookup-remove n k [] e = refl
lookup-remove n k ((j, w) ∷ m) e =
    ground (arith, e, lookup-remove n k m, same_text_iff j k, same_text_iff k n, same_text_iff j n)

spawn_units-none :
    (k : Text) (ns : List Text) (pending : List (Text × ℕ))
    → lookup k pending ≡ none
    → spawn_units (k ∷ ns) pending ≡ spawn_units ns pending
unfolding spawn_units
spawn_units-none k ns pending e = rw (e, spawn_units) refl

spawn_units-some :
    (k : Text) (ns : List Text) (pending : List (Text × ℕ)) (gate : ℕ)
    → lookup k pending ≡ some gate
    → (spawn_units (k ∷ ns) pending).0 ≡ (k, gate) ∷ (spawn_units ns (remove k pending)).0
unfolding spawn_units
spawn_units-some k ns pending gate e = rw (e, spawn_units) refl

-- A unit is started with the gate that waits for it, and not started if none does.
lookup-spawn_units :
    (n : Text) (names : List Text) (pending : List (Text × ℕ))
    → DistinctNames names
    → lookup n (spawn_units names pending).0 ≡ (if has n names then lookup n pending else none)
unfolding has lookup spawn_units
lookup-spawn_units n [] pending d = refl
lookup-spawn_units n (k ∷ ns) pending d = elim (Option-cases (lookup k pending)) [
  | inl e ↦
      ap (λ r. lookup n r.0) (spawn_units-none k ns pending e)
      ∙ lookup-spawn_units n ns pending d.1
      ∙ ground (arith, e, unknown, absent)
  | inr (gate, e) ↦
      ap (lookup n) (spawn_units-some k ns pending gate e)
      ∙ ground (
        arith,
        e,
        unknown,
        lookup-spawn_units n ns (remove k pending) d.1,
        lookup-remove n k pending,
      )
]
  where
    unknown : same_text k n ≡ true → lookup k pending ≡ lookup n pending
    unknown t = ap (λ j. lookup j pending) ((same_text_iff k n).0 t)

    absent : same_text k n ≡ true → has n ns ≡ false
    absent t = ap (λ j. has j ns) (sym ((same_text_iff k n).0 t)) ∙ d.0

module _ {Mark : Type 0} where
  -- If each link of a configuration refers to one of its units, loading it succeeds, and spawning
  -- its units then starts each unit that a link refers to, with the gate that the link is connected
  -- to.
  pub spawn-load :
      (calls : List (Text × Mark)) (names targets : List Text)
      → DistinctNames names
      → all_in (call_names calls) names ≡ true
      → (m : Manager) × (links : List (Text × ℕ)) × (load calls (some names) ≡ loaded m links)
        × (link_names links ≡ call_names calls)
        × All (λ l. lookup l.0 (spawn m names targets).0 ≡ some l.1) links
  unfolding spawn
  spawn-load calls names targets d h =
      go (load calls (some names)) (load-LoadOutcome calls names) refl
    where
      started :
          (pending links : List (Text × ℕ))
          → All (λ l. has l.0 names ≡ true) links
          → All (λ l. lookup l.0 pending ≡ some l.1) links
          → All (λ l. lookup l.0 (spawn_units names pending).0 ≡ some l.1) links
      started pending [] i a = tt
      started pending ((n, id) ∷ links) i a = (
        lookup-spawn_units n names pending d ∙ ground (arith, i.0, a.0),
        started pending links i.1 a.1,
      )

      go :
          (x : Loaded Mark)
          → LoadOutcome calls names x
          → load calls (some names) ≡ x
          → (m : Manager) × (links : List (Text × ℕ)) × (load calls (some names) ≡ loaded m links)
            × (link_names links ≡ call_names calls)
            × All (λ l. lookup l.0 (spawn_units names m.pending).0 ≡ some l.1) links
      go x (connected m links i same a) e = (
        m,
        links,
        e,
        same,
        started m.pending links (all_in-All links names (ap (λ ns. all_in ns names) same ∙ i)) a,
      )
      go x (missing err errs i) e = cc (h, i)
