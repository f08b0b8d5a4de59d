-- ===== src/Units/Combine/Picking.antt =====
-- src/units/combine.rs: the source that `Any::pick` picks.
use native.Mathlib.Nat.{mod-lt, mod-eq_of_lt, mod-add-mod, mod_self, zero-add}
use rtrtr.Base.{
  ℕ, zero, suc, ◌+◌, ◌-◌, ◌%◌, ◌<◌, ◌≤◌, ◌≡◌, refl, ap, ◌∙◌, sym, subst, inl, inr, Bool, true,
  false, List, Option, none, some, length, get_elem?, arith, ◌>>=◌, lt-cases, get_elem?-lt,
  lt_of_get_elem?,
}
use rtrtr.Comms.Status.{UnitHealth, healthy, stalled, gone, UnitStatus}
use rtrtr.Units.Combine.{Pick, terminated, picked, pick_loop, pick, first_pick}

module _ {ℓ} {U : Type ℓ} where
  -- Healthy, and with data.
  unfoldable pub IsReady : UnitStatus U → Type 0
  IsReady s = elim s.health [
    | healthy ↦ elim s.payload [ none ↦ ⊥ | some u ↦ Unit ]
    | stalled ↦ ⊥
    | gone ↦ ⊥
  ]

  -- The source that is looked at in a round.
  abbrev pub looked_at : List (UnitStatus U) → ℕ → ℕ → ℕ
  looked_at ss start j = (start + j) % length ss

  -- The sources of the first rounds have a property.
  abbrev pub InRounds : (UnitStatus U → Type 0) → List (UnitStatus U) → ℕ → ℕ → Type ℓ
  InRounds P ss start k =
      (j : ℕ) → j < k → (s : UnitStatus U) → get_elem? ss (looked_at ss start j) ≡ some s → P s

  abbrev pub Every : (UnitStatus U → Type 0) → List (UnitStatus U) → Type ℓ
  Every P ss = (i : ℕ) (s : UnitStatus U) → get_elem? ss i ≡ some s → P s

  abbrev pub IsNotReady : UnitStatus U → Type 0
  IsNotReady s = ¬ IsReady s

  abbrev pub IsGone : UnitStatus U → Type 0
  IsGone s = s.health ≡ UnitHealth.gone

  -- The specification of `pick`, given where it starts.
  unfoldable pub IsPick : List (UnitStatus U) → ℕ → Pick → Type ℓ
  IsPick ss start terminated = Every IsGone ss
  IsPick ss start (picked none) =
      Every IsNotReady ss × (i : ℕ) × (s : UnitStatus U) × (get_elem? ss i ≡ some s) × ¬ IsGone s
  IsPick ss start (picked (some i)) =
      (k : ℕ) × (k < length ss)
      × (i ≡ looked_at ss start k)
      × InRounds IsNotReady ss start k
      × (s : UnitStatus U) × (get_elem? ss i ≡ some s)
      × IsReady s

  one_more :
      (P : UnitStatus U → Type 0) (ss : List (UnitStatus U)) (start k : ℕ) (s : UnitStatus U)
      → InRounds P ss start k
      → get_elem? ss (looked_at ss start k) ≡ some s
      → P s
      → InRounds P ss start (suc k)
  one_more P ss start k s h e p j l t f = elim (lt-cases j k) [
    | inl m ↦ h j m t f
    | inr m ↦ let same : j ≡ k = omega (arith, l, m) in subst P (cc (e, f, same)) p
  ]

  every :
      (P : UnitStatus U → Type 0) (ss : List (UnitStatus U)) (start : ℕ)
      → start < length ss
      → InRounds P ss start (length ss)
      → Every P ss
  every P ss start l h i s e = elim (lt-cases i start) [
    | inl m ↦
        h (i + length ss - start) (omega (arith, bound)) s
          (subst (λ n. get_elem? ss n ≡ some s) (sym (around m)) e)
    | inr m ↦
        h (i - start) (omega (arith, bound)) s
          (subst (λ n. get_elem? ss n ≡ some s) (sym (ahead m)) e)
  ]
    where
      bound : i < length ss
      bound = lt_of_get_elem? ss i s e

      ahead : start ≤ i → looked_at ss start (i - start) ≡ i
      ahead m = ap (λ n. n % length ss) (sum m) ∙ mod-eq_of_lt bound
        where
          sum : start ≤ i → start + (i - start) ≡ i
          sum m = omega arith

      around : i < start → looked_at ss start (i + length ss - start) ≡ i
      around m =
          ap (λ n. n % length ss) (sum m l)
          ∙ sym (mod-add-mod (length ss) (length ss) i)
          ∙ ap (λ n. (n + i) % length ss) (mod_self (length ss))
          ∙ ap (λ n. n % length ss) (zero-add i)
          ∙ mod-eq_of_lt bound
        where
          sum : i < start → start < length ss → start + (i + length ss - start) ≡ length ss + i
          sum m l = omega arith

  -- Whether the flag `only_gone` is right for the first rounds.
  abbrev Flag : List (UnitStatus U) → ℕ → ℕ → Bool → Type ℓ
  Flag ss start k true = InRounds IsGone ss start k
  Flag ss start k false = (i : ℕ) × (s : UnitStatus U) × (get_elem? ss i ≡ some s) × ¬ IsGone s

  abbrev Outcome : List (UnitStatus U) → ℕ → Option Pick → Type ℓ
  Outcome ss start o = (p : Pick) × (o ≡ some p) × IsPick ss start p

  next_at :
      (ss : List (UnitStatus U)) (start k : ℕ)
      → (looked_at ss start k + 1) % length ss ≡ looked_at ss start (suc k)
  next_at ss start k = mod-add-mod (start + k) (length ss) 1 ∙ ap (λ n. n % length ss) (sum start k)
    where
      sum : (a b : ℕ) → a + b + 1 ≡ a + suc b
      sum a b = omega arith

  -- A round of `pick_loop`, from the source that is looked at.
  after : ℕ → List (UnitStatus U) → ℕ → Bool → Option (UnitStatus U) → Option Pick
  after n ss next flag found = do
    source ← found
    elim source.health [
      | healthy ↦ elim source.payload [
        | some u ↦ some (picked (some next))
        | none ↦ pick_loop n ss ((next + 1) % length ss) false
      ]
      | stalled ↦ pick_loop n ss ((next + 1) % length ss) false
      | gone ↦ pick_loop n ss ((next + 1) % length ss) flag
    ]

  pick_loop-IsPick :
      (n k : ℕ) (ss : List (UnitStatus U)) (start : ℕ) (flag : Bool)
      → start < length ss
      → k + n ≡ length ss
      → InRounds IsNotReady ss start k
      → Flag ss start k flag
      → (p : Pick) × (pick_loop n ss (looked_at ss start k) flag ≡ some p) × IsPick ss start p
  unfolding pick_loop IsPick after
  pick_loop-IsPick zero k ss start true l m h f =
      (terminated, refl, every IsGone ss start l (subst (InRounds IsGone ss start) (omega arith) f))
  pick_loop-IsPick zero k ss start false l m h f =
      let (i, s, e, g) = f in
      (
        picked none,
        refl,
        (
          every IsNotReady ss start l (subst (InRounds IsNotReady ss start) (omega arith) h),
          i,
          s,
          e,
          g,
        ),
      )
  pick_loop-IsPick (suc n) k ss start flag l m h f =
      let (s, e) = get_elem?-lt ss (looked_at ss start k) (mod-lt (start + k) (omega arith)) in
      subst (Outcome ss start) (sym (ap (after n ss (looked_at ss start k) flag) e)) (
        go s s.health refl s.payload refl e (next_at ss start k)
          λ g q r. pick_loop-IsPick n (suc k) ss start g l (omega arith) q r)
    where
      go :
          (s : UnitStatus U) (c : UnitHealth)
          → s.health ≡ c
          → (q : Option U) → s.payload ≡ q
          → get_elem? ss (looked_at ss start k) ≡ some s
          → (looked_at ss start k + 1) % length ss ≡ looked_at ss start (suc k)
          → ((g : Bool)
              → InRounds IsNotReady ss start (suc k)
              → Flag ss start (suc k) g
              → Outcome ss start (pick_loop n ss (looked_at ss start (suc k)) g))
          → Outcome ss start (elim c [
            | healthy ↦ elim q [
              | some u ↦ some (picked (some (looked_at ss start k)))
              | none ↦ pick_loop n ss ((looked_at ss start k + 1) % length ss) false
            ]
            | stalled ↦ pick_loop n ss ((looked_at ss start k + 1) % length ss) false
            | gone ↦ pick_loop n ss ((looked_at ss start k + 1) % length ss) flag
          ])
      go s healthy a (some u) b e t rec = (
        picked (some (looked_at ss start k)),
        refl,
        (k, omega arith, refl, h, s, e, unfold IsReady in rw (a, b) tt),
      )
      go s healthy a none b e t rec = rw t (
          rec false (one_more IsNotReady ss start k s h e (unfold IsReady in rw (a, b) (λ z. z)))
            (looked_at ss start k, s, e, λ z. cc (a, z)))
      go s stalled a q b e t rec = rw t (
          rec false (one_more IsNotReady ss start k s h e (unfold IsReady in rw a (λ z. z)))
            (looked_at ss start k, s, e, λ z. cc (a, z)))
      go s gone a q b e t rec = rw t (
          rec flag (one_more IsNotReady ss start k s h e (unfold IsReady in rw a (λ z. z)))
            (keep flag f))
        where
          keep : (g : Bool) → Flag ss start k g → Flag ss start (suc k) g
          keep true f = one_more IsGone ss start k s f e a
          keep false f = f

  -- For at least one source, and a start that is the index of a source, `pick` does not panic. It
  -- picks the first source, going around from the start, that is healthy and has data. If there is
  -- none, it is an error if all sources are gone, and no index else.
  pub pick-IsPick :
      (ss : List (UnitStatus U)) (random curr : Option ℕ)
      → first_pick ss random curr < length ss
      → (p : Pick) × (pick ss random curr ≡ some p) × IsPick ss (first_pick ss random curr) p
  unfolding pick
  pick-IsPick ss random curr l =
      subst (Outcome ss (first_pick ss random curr))
        (ap (λ i. pick_loop (length ss) ss i true) (start_at l))
        (pick_loop-IsPick (length ss) 0 ss (first_pick ss random curr) true l (omega arith)
          (λ j m. elim m [ ]) λ j m. elim m [ ])
    where
      start_at :
          first_pick ss random curr < length ss
          → looked_at ss (first_pick ss random curr) 0 ≡ first_pick ss random curr
      start_at l = ap (λ n. n % length ss) (add_zero (first_pick ss random curr)) ∙ mod-eq_of_lt l
        where
          add_zero : (n : ℕ) → n + 0 ≡ n
          add_zero n = omega arith
