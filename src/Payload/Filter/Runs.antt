-- ===== src/Payload/Filter/Runs.antt =====
-- The inner loops of `Set::filter` in src/payload.rs: runs of items that are kept, and of items
-- that are dropped.
use rtrtr.Base.{
  ℕ, zero, suc, ◌+◌, ◌-◌, ◌≤◌, ◌<◌, ◌≡◌, refl, sym, inl, inr, Bool, true, List, [], ◌∷◌, ◌++◌, some,
  length, slice, arith, if◌then◌else◌, le→leb, lt→ltb, ltb-le, lt-cases, Bool-cases, slice-cons,
  slice_nil, append-nil,
}
use native.Mathlib.Nat.{add-zero}
use rtrtr.Payload.Block.{Block, InRange, contents, block}
use rtrtr.Payload.Block.Laws.{rest, get_elem?-rest, len-contents}
use rtrtr.Payload.Set.{flatten, AllInRange, NoneEmpty}
use rtrtr.Payload.Filter.{keep_run, drop_run, push_run}

abbrev pub prepend {ℓ κ} : {A : Type ℓ} {S : Type κ} → List A → S × List A → S × List A
prepend xs r = (r.0, xs ++ r.1)

module _ {ℓ κ} {A : Type ℓ} {S : Type κ} (retain : S → A → S × Bool) where
  -- The filter that presents each item once.
  unfoldable pub filter_with : S → List A → S × List A
  filter_with s [] = (s, [])
  filter_with s (x ∷ xs) =
      let r = retain s x in let t = filter_with r.0 xs in (t.0, if r.1 then x ∷ t.1 else t.1)

  -- An item that is retained is retained again, and changes nothing then.
  abbrev pub IsStable : Type (ℓ ⊔ κ)
  IsStable = (s : S) (a : A) → (retain s a).1 ≡ true → retain (retain s a).0 a ≡ retain s a

  pub keep_run_lem :
      (f : ℕ) (b : Block A) (s : S) (i : ℕ)
      → InRange b
      → i ≤ b.end
      → b.end < f + i
      → (s1 : S) × (e : ℕ) × (keep_run retain f b s i ≡ some (s1, e))
        × (i ≤ e)
        × (e ≤ b.end)
        × (filter_with s (rest b i)
            ≡ prepend (slice b.pack.items i e) (filter_with s1 (rest b (suc e))))
  unfolding keep_run filter_with
  keep_run_lem zero b s i v h k = absurd (omega arith)
  keep_run_lem (suc f) b s i v h k = elim (lt-cases i b.end) [
    | inr ge ↦ (
      s,
      i,
      rw (ltb-le i b.end ge, keep_run),
      omega arith,
      h,
      rw
          (
            slice_nil b.pack.items i b.end ge,
            slice_nil b.pack.items (suc i) b.end (omega arith),
            slice_nil b.pack.items i i (omega arith),
          )
          refl,
    )
    | inl lt ↦
        let (x, p, q) = get_elem?-rest b i v lt in
        elim (Bool-cases (retain s x).1) [
          | inl yes' ↦
              let (s1, e, r, le, le', t) =
                keep_run_lem f b (retain s x).0 (suc i) v lt (omega arith) in
              (
                s1,
                e,
                rw (lt→ltb i b.end lt, keep_run) (rw p (rw yes' r)),
                omega arith,
                le',
                rw (q, slice-cons b.pack.items i e (omega arith) p) (rw yes' (rw t)),
              )
          | inr no' ↦ (
            (retain s x).0,
            i,
            rw (lt→ltb i b.end lt, keep_run) (rw p (rw no')),
            omega arith,
            h,
            rw (q, slice_nil b.pack.items i i (omega arith)) (rw no'),
          )
        ]
  ]

  pub drop_run_lem :
      (f : ℕ) (b : Block A) (s : S) (i : ℕ)
      → IsStable
      → InRange b
      → b.end - i < f
      → (s2 : S) × (e : ℕ) × (drop_run retain f b s i ≡ some (s2, e))
        × (i ≤ e)
        × (filter_with s (rest b i) ≡ filter_with s2 (rest b e))
  unfolding drop_run filter_with
  drop_run_lem zero b s i st v k = absurd (omega arith)
  drop_run_lem (suc f) b s i st v k = elim (lt-cases i b.end) [
    | inr ge ↦ (s, i, rw (ltb-le i b.end ge, drop_run), omega arith, refl)
    | inl lt ↦
        let (x, p, q) = get_elem?-rest b i v lt in
        elim (Bool-cases (retain s x).1) [
          | inl yes' ↦ (
            (retain s x).0,
            i,
            rw (lt→ltb i b.end lt, drop_run) (rw p (rw yes')),
            omega arith,
            rw q (rw (st s x yes')),
          )
          | inr no' ↦
              let (s2, e, r, le, t) = drop_run_lem f b (retain s x).0 (suc i) st v (omega arith) in
              (
                s2,
                e,
                rw (lt→ltb i b.end lt, drop_run) (rw p (rw no' r)),
                omega arith,
                rw q (rw no' t),
              )
        ]
  ]

module _ {ℓ} {A : Type ℓ} where
  pub push_run_lem :
      (b : Block A) (start end : ℕ) (res : List (Block A)) (n : ℕ)
      → start ≤ end
      → end ≤ length b.pack.items
      → (new : List (Block A)) × (push_run b start end res n
          ≡ some (res ++ new, n + length (flatten new)))
        × (flatten new ≡ slice b.pack.items start end)
        × AllInRange new
        × NoneEmpty new
  unfolding push_run flatten contents block
  push_run_lem b start end res n h k = elim (lt-cases start end) [
    | inr ge ↦ (
      [],
      rw (ltb-le start end ge, push_run) (rw (append-nil res, add-zero n)),
      sym (slice_nil _ _ _ ge),
      tt,
      tt,
    )
    | inl lt ↦
        let new : Block A = record { pack = b.pack; range = record { start = start; end = end } } in
        let v : InRange new = record { ordered = h; bounded = k } in
        (
          new ∷ [],
          rw (lt→ltb start end lt, push_run)
              (rw (le→leb _ _ k)
                (rw (len-contents v) (rw (append-nil (slice b.pack.items start end))))),
          append-nil _,
          (v, tt),
          (lt, tt),
        )
  ]
