-- ===== src/Payload/Block/Laws.antt =====
-- What the methods of a block in range give, by the items of the block.
use rtrtr.Base.{
  ℕ, suc, ◌+◌, ◌≤◌, ◌<◌, ◌≡◌, refl, ap, ◌⊎◌, inl, inr, Bool, true, false, List, [], ◌∷◌, none, some,
  length, get_elem?, head?, slice, arith, le→leb, lt→ltb, ltb-le, lt-cases, get_elem?-lt,
  slice-cons, slice_nil, length-slice,
}
use rtrtr.Payload.Block.{Block, InRange, as_slice, len, is_empty, first, get_from_pack, contents}

-- The items of a block from an index of its pack on.
abbrev pub rest {ℓ} : {A : Type ℓ} → Block A → ℕ → List A
rest b i = slice b.pack.items i b.end

abbrev pub is_nil {ℓ} : {A : Type ℓ} → List A → Bool
is_nil [] = true
is_nil (x ∷ xs) = false

module _ {ℓ} {A : Type ℓ} where
  pub as_slice-contents : {b : Block A} → InRange b → as_slice b ≡ some (contents b)
  unfolding as_slice contents
  as_slice-contents {b = b} v = rw (le→leb _ _ v.ordered, le→leb _ _ v.bounded)

  pub len-contents : {b : Block A} → InRange b → len b ≡ some (length (contents b))
  unfolding len
  len-contents v = rw (as_slice-contents v)

  pub is_empty-contents : {b : Block A} → InRange b → is_empty b ≡ some (is_nil (contents b))
  unfolding is_empty
  is_empty-contents {b = b} v = rw (as_slice-contents v) (ground arith)

  pub first-contents : {b : Block A} → InRange b → first b ≡ some (head? (contents b))
  unfolding first
  first-contents v = rw (as_slice-contents v)

  pub contents-rest : (b : Block A) → contents b ≡ rest b b.start
  unfolding contents
  contents-rest b = refl

  pub length-contents : {b : Block A} → InRange b → length (contents b) + b.start ≡ b.end
  unfolding contents
  length-contents {b = b} v = length-slice b.pack.items b.start b.end v.ordered v.bounded

  -- At an index of the block, `get_from_pack` gives the next item, and at its end nothing.
  pub get_from_pack-rest :
      (b : Block A) (i : ℕ)
      → InRange b
      → b.start ≤ i
      → i ≤ b.end
      → ((i ≡ b.end) × (get_from_pack b i ≡ none) × (rest b i ≡ []))
        ⊎ ((x : A) × (i < b.end) × (get_from_pack b i ≡ some x) × (rest b i ≡ x ∷ rest b (suc i)))
  unfolding get_from_pack
  get_from_pack-rest b i v h k = elim (lt-cases i b.end) [
    | inl lt ↦
        let (x, p) = get_elem?-lt b.pack.items i (omega (arith, v.bounded)) in
        inr (x, lt, rw (le→leb _ _ h, lt→ltb _ _ lt) p, slice-cons _ _ _ lt p)
    | inr ge ↦ inl (omega arith, rw (le→leb _ _ h, ltb-le _ _ ge), slice_nil _ _ _ ge)
  ]

  pub get_elem?-rest :
      (b : Block A) (i : ℕ)
      → InRange b
      → i < b.end
      → (x : A) × (get_elem? b.pack.items i ≡ some x) × (rest b i ≡ x ∷ rest b (suc i))
  get_elem?-rest b i v h =
      let (x, p) = get_elem?-lt b.pack.items i (omega (arith, v.bounded)) in
      (x, p, slice-cons _ _ _ h p)

  get_elem?-of_get :
      (b : Block A) (i : ℕ) {x : A} → get_from_pack b i ≡ some x → get_elem? b.pack.items i ≡ some x
  unfolding get_from_pack
  get_elem?-of_get b i h = ground arith

  pub slice-get_from_pack :
      (b : Block A) (i e : ℕ) {x : A}
      → get_from_pack b i ≡ some x
      → i < e
      → slice b.pack.items i e ≡ x ∷ slice b.pack.items (suc i) e
  slice-get_from_pack b i e h lt = slice-cons b.pack.items i e lt (get_elem?-of_get b i h)

  pub start_lt_end :
      {b : Block A} {x : A} {xs : List A} → InRange b → contents b ≡ x ∷ xs → b.start < b.end
  start_lt_end {b = b} v e = omega (arith, ap length e, length-contents v)

  pub cons_of : (xs : List A) → is_nil xs ≡ false → (x : A) × (ys : List A) × (xs ≡ x ∷ ys)
  cons_of [] e = cc
  cons_of (x ∷ xs) e = (x, xs, refl)

  pub nil_of : (xs : List A) → is_nil xs ≡ true → xs ≡ []
  nil_of [] e = refl
  nil_of (x ∷ xs) e = cc
