-- ===== src/Payload/Merge/Skipping.antt =====
-- How `Set::merge` in src/payload.rs takes the next block that has items.
use rtrtr.Base.{
  ◌≤◌, ◌≡◌, refl, ◌∙◌, ◌⊎◌, inl, inr, true, List, [], ◌∷◌, Option, none, some, arith, Bool-cases,
}
use rtrtr.Payload.Block.{Block, contents}
use rtrtr.Payload.Block.Laws.{is_nil, cons_of, is_empty-contents}
use rtrtr.Payload.Set.{flatten, AllInRange, NoneEmpty}
use rtrtr.Payload.Set.Laws.{listed}
use rtrtr.Payload.Merge.{skip_empty, weight}

module _ {ℓ} {A : Type ℓ} where
  -- The head is a block with items, or everything is used up.
  abbrev pub Ready : Option (Block A) → List (Block A) → Type ℓ
  Ready h bs =
      ((h ≡ none) × (bs ≡ []))
      ⊎ ((b : Block A) × (x : A) × (xs : List A) × (h ≡ some b) × (contents b ≡ x ∷ xs))

  pub record Skipped (h : Option (Block A)) (bs : List (Block A)) (h' : Option (Block A))
      (bs' : List (Block A)) : Type ℓ where
    pub same : flatten (listed h' bs') ≡ flatten (listed h bs)
    pub lighter : weight (listed h' bs') ≤ weight (listed h bs)
    pub in_range : AllInRange (listed h' bs')
    pub none_empty : NoneEmpty bs'
    pub ready : Ready h' bs'

  skip_one :
      (b : Block A) (bs : List (Block A))
      → is_nil (contents b) ≡ true
      → flatten bs ≡ flatten (b ∷ bs)
  unfolding flatten
  skip_one b bs e = ground arith

  pub skip_empty-Skipped :
      (h : Option (Block A)) (bs : List (Block A))
      → AllInRange (listed h bs)
      → NoneEmpty bs
      → (h ≡ none → bs ≡ [])
      → (h' : Option (Block A)) × (bs' : List (Block A)) × (skip_empty h bs ≡ some (h', bs'))
        × Skipped h bs h' bs'
  unfolding skip_empty weight
  skip_empty-Skipped none bs v n d = (
    none,
    bs,
    refl,
    record {
      same = refl;
      lighter = omega arith;
      in_range = v;
      none_empty = n;
      ready = inl (refl, d refl);
    },
  )
  skip_empty-Skipped (some b) [] v n d = elim (Bool-cases (is_nil (contents b))) [
    | inl e ↦ (
      none,
      [],
      rw (is_empty-contents v.0) (rw e),
      record {
        same = skip_one b [] e;
        lighter = omega arith;
        in_range = tt;
        none_empty = tt;
        ready = inl (refl, refl);
      },
    )
    | inr e ↦
        let (x, xs, p) = cons_of (contents b) e in
        (
          some b,
          [],
          rw (is_empty-contents v.0) (rw e),
          record {
            same = refl;
            lighter = omega arith;
            in_range = v;
            none_empty = tt;
            ready = inr (b, x, xs, refl, p);
          },
        )
  ]
  skip_empty-Skipped (some b) (c ∷ cs) v n d = elim (Bool-cases (is_nil (contents b))) [
    | inl e ↦
        let (h', bs', g, s) = skip_empty-Skipped (some c) cs v.1 n.1 (λ e'. cc) in
        (
          h',
          bs',
          rw (is_empty-contents v.0) (rw e g),
          record {
            same = s.same ∙ skip_one b (c ∷ cs) e;
            lighter = omega (arith, s.lighter);
            in_range = s.in_range;
            none_empty = s.none_empty;
            ready = s.ready;
          },
        )
    | inr e ↦
        let (x, xs, p) = cons_of (contents b) e in
        (
          some b,
          c ∷ cs,
          rw (is_empty-contents v.0) (rw e),
          record {
            same = refl;
            lighter = omega arith;
            in_range = v;
            none_empty = n;
            ready = inr (b, x, xs, refl, p);
          },
        )
  ]
