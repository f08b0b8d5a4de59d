-- ===== src/Targets/Rtr/Metrics/Table.antt =====
-- The table of the metrics per client address in src/targets/rtr.rs stays sorted, and what its
-- operations do to the numbers in it.
use Prim.Native.Nat.Ordering.{lt, eq, gt}
use rtrtr.Base.{
  ℕ, suc, ◌+◌, ◌%◌, Ordering, ◌≡◌, refl, sym, ap, ◌∙◌, subst, true, false, ◌||◌, List, [], ◌∷◌,
  ◌++◌, arith, All, if◌then◌else◌, take, drop,
}
use rtrtr.Order.{Order, ◌≺◌, is_eq, elem, IsSorted}
use rtrtr.Sorted.Elem.{below_trans, elem-below, eq_of_is_eq}
use rtrtr.Targets.Rtr.Metrics.{
  MetricsData, default, PerAddrMetrics, Search, at, missing, binary_search, get, adjust, size_64,
}

-- An operation that adds to a number.
abbrev pub Adds : (MetricsData → ℕ) → ℕ → (MetricsData → MetricsData) → Type 0
Adds f n op = (d : MetricsData) → f (op d) % size_64 ≡ (f d + n) % size_64

module _ {Addr : Type 0} where
  unfoldable pub keys : PerAddrMetrics Addr → List Addr
  keys [] = []
  keys ((key, d) ∷ rest) = key ∷ keys rest

  -- The sum of a number over all addresses.
  unfoldable pub total : (MetricsData → ℕ) → PerAddrMetrics Addr → ℕ
  total f [] = 0
  total f ((key, d) ∷ rest) = f d + total f rest

module _ {Addr : Type 0} ⦃o : Order Addr⦄ where
  -- The number at an address, zero where the address is unknown.
  unfoldable pub number : (MetricsData → ℕ) → Addr → PerAddrMetrics Addr → ℕ
  number f addr [] = 0
  number f addr ((key, d) ∷ rest) = if is_eq addr key then f d else number f addr rest

  -- `get` written as an insertion.
  place : Addr → PerAddrMetrics Addr → PerAddrMetrics Addr
  place addr [] = (addr, default) ∷ []
  place addr ((key, d) ∷ rest) = elim (o.cmp addr key) [
    | lt ↦ (addr, default) ∷ (key, d) ∷ rest
    | eq ↦ (key, d) ∷ rest
    | gt ↦ (key, d) ∷ place addr rest
  ]

  get-place : (addr : Addr) (t : PerAddrMetrics Addr) → get addr t ≡ place addr t
  unfolding get place binary_search
  get-place addr [] = refl
  get-place addr ((key, d) ∷ rest) =
      go (o.cmp addr key) (binary_search addr rest) (get-place addr rest)
    where
      go :
          (c : Ordering) (s : Search)
          → elim s as (λ _. PerAddrMetrics Addr) [
            | at i ↦ rest
            | missing i ↦ take i rest ++ (addr, default) ∷ drop i rest
          ]
            ≡ place addr rest
          → elim (elim c as (λ _. Search) [
            | lt ↦ missing 0
            | eq ↦ at 0
            | gt ↦ elim s [ at i ↦ at (suc i) | missing i ↦ missing (suc i) ]
          ])
              as (λ _. PerAddrMetrics Addr) [
                | at i ↦ (key, d) ∷ rest
                | missing i ↦ take i ((key, d) ∷ rest) ++ (addr, default) ∷ drop i ((key, d) ∷ rest)
              ]
            ≡ elim c as (λ _. PerAddrMetrics Addr) [
              | lt ↦ (addr, default) ∷ (key, d) ∷ rest
              | eq ↦ (key, d) ∷ rest
              | gt ↦ (key, d) ∷ place addr rest
            ]
      go lt s e = refl
      go eq s e = refl
      go gt (at i) e = ap (◌∷◌ (key, d)) e
      go gt (missing i) e = ap (◌∷◌ (key, d)) e

  elem-place :
      (b a : Addr) (t : PerAddrMetrics Addr)
      → elem b (keys (place a t)) ≡ is_eq b a || elem b (keys t)
  unfolding place keys
  elem-place b a [] = refl
  elem-place b a ((key, d) ∷ rest) = ground (arith, elem-place b a rest, o.eq_of_cmp a key)

  All-place :
      (k a : Addr) (t : PerAddrMetrics Addr)
      → k ≺ a
      → All (λ y. k ≺ y) (keys t)
      → All (λ y. k ≺ y) (keys (place a t))
  unfolding place keys
  All-place k a [] h w = (h, tt)
  All-place k a ((key, d) ∷ rest) h w = ground (arith, All-place k a rest h w.1)

  place-IsSorted :
      (a : Addr) (t : PerAddrMetrics Addr) → IsSorted (keys t) → IsSorted (keys (place a t))
  unfolding place keys
  place-IsSorted a [] s = (tt, tt)
  place-IsSorted a ((key, d) ∷ rest) s = ground (
    arith,
    place-IsSorted a rest s.1,
    All-place key a rest,
    o.lt_of_gt a key,
    below_trans a key (keys rest),
  )

  number_unknown :
      (f : MetricsData → ℕ) (b : Addr) (t : PerAddrMetrics Addr)
      → elem b (keys t) ≡ false
      → number f b t ≡ 0
  unfolding number keys
  number_unknown f b [] e = refl
  number_unknown f b ((key, d) ∷ rest) e = ground (arith, number_unknown f b rest)

  unknown_before :
      (b a key : Addr) (rest : List Addr)
      → is_eq b a ≡ true
      → o.cmp a key ≡ lt
      → All (λ y. key ≺ y) rest
      → elem b (key ∷ rest) ≡ false
  unknown_before b a key rest e l w =
      ap (λ c. elem c (key ∷ rest)) (eq_of_is_eq b a e)
      ∙ elem-below a (key ∷ rest) (l, below_trans a key rest l w)

  number-place :
      (f : MetricsData → ℕ) (b a : Addr) (t : PerAddrMetrics Addr)
      → f default ≡ 0
      → IsSorted (keys t)
      → number f b (place a t) ≡ number f b t
  unfolding place number keys
  number-place f b a [] z s = ground (arith, z)
  number-place f b a ((key, d) ∷ rest) z s = ground (
    arith,
    z,
    number-place f b a rest z s.1,
    number_unknown f b ((key, d) ∷ rest),
    unknown_before b a key (keys rest),
  )

  total-place :
      (f : MetricsData → ℕ) (a : Addr) (t : PerAddrMetrics Addr)
      → f default ≡ 0
      → total f (place a t) ≡ total f t
  unfolding place total
  total-place f a [] z = omega (arith, z)
  total-place f a ((key, d) ∷ rest) z = ground (arith, z, total-place f a rest z)

  pub keys-adjust :
      (op : MetricsData → MetricsData) (a : Addr) (t : PerAddrMetrics Addr)
      → keys (adjust op a t) ≡ keys t
  unfolding adjust keys
  keys-adjust op a [] = refl
  keys-adjust op a ((key, d) ∷ rest) = ground (arith, keys-adjust op a rest)

  pub total-adjust :
      (f : MetricsData → ℕ) (n : ℕ) (op : MetricsData → MetricsData) (a : Addr)
      (t : PerAddrMetrics Addr)
      → Adds f n op
      → elem a (keys t) ≡ true
      → total f (adjust op a t) % size_64 ≡ (total f t + n) % size_64
  unfolding adjust total keys
  total-adjust f n op a [] h e = cc e
  total-adjust f n op a ((key, d) ∷ rest) h e = ground (arith, h d, total-adjust f n op a rest h)

  pub number-adjust :
      (f : MetricsData → ℕ) (g : ℕ → ℕ) (op : MetricsData → MetricsData) (b a : Addr)
      (t : PerAddrMetrics Addr)
      → ((d : MetricsData) → f (op d) ≡ g (f d))
      → elem a (keys t) ≡ true
      → number f b (adjust op a t) ≡ (if is_eq b a then g (number f b t) else number f b t)
  unfolding adjust number keys
  number-adjust f g op b a [] h e = cc e
  number-adjust f g op b a ((key, d) ∷ rest) h e = ground (
    arith,
    h d,
    number-adjust f g op b a rest h,
    eq_of_is_eq b a,
    eq_of_is_eq b key,
    o.eq_of_cmp a key,
  )

  pub elem-get :
      (b a : Addr) (t : PerAddrMetrics Addr)
      → elem b (keys (get a t)) ≡ is_eq b a || elem b (keys t)
  elem-get b a t = ap (λ u. elem b (keys u)) (get-place a t) ∙ elem-place b a t

  pub get-IsSorted :
      (a : Addr) (t : PerAddrMetrics Addr) → IsSorted (keys t) → IsSorted (keys (get a t))
  get-IsSorted a t s = subst (λ u. IsSorted (keys u)) (sym (get-place a t)) (place-IsSorted a t s)

  pub number-get :
      (f : MetricsData → ℕ) (b a : Addr) (t : PerAddrMetrics Addr)
      → f default ≡ 0
      → IsSorted (keys t)
      → number f b (get a t) ≡ number f b t
  number-get f b a t z s = ap (number f b) (get-place a t) ∙ number-place f b a t z s

  pub total-get :
      (f : MetricsData → ℕ) (a : Addr) (t : PerAddrMetrics Addr)
      → f default ≡ 0
      → total f (get a t) ≡ total f t
  total-get f a t z = ap (total f) (get-place a t) ∙ total-place f a t z
