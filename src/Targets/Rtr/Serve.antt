-- ===== src/Targets/Rtr/Serve.antt =====
-- src/targets/rtr.rs: the diffs that a source keeps, brought up to the next data.
use rtrtr.Base.{
  ℕ, suc, ◌+◌, ◌≤◌, ◌≡◌, ◌⊎◌, refl, ap, ◌∙◌, sym, inl, inr, Bool, true, false, List, [], ◌∷◌, ◌++◌,
  Option, some, length, leb, All, append_assoc, append-nil, length-append, ◌>>=◌, arith,
}
use rtrtr.Order.{Order, IsSorted}
use rtrtr.Payload.Types.{ok}
use rtrtr.Payload.Diff.{Diff, extend}
use rtrtr.Payload.Diff.From.{IsDiff}
use rtrtr.Payload.Diff.Extend.{extend-IsDiff}
use rtrtr.Targets.Rtr.{Protocol, extend_diffs, unwrap}

module _ (p : Protocol) {A : Type 0} ⦃o : Order A⦄ where
  -- The diffs lead to the data, each from what the source had under its serial number: they are as
  -- many as the past versions that they belong to, from the newest on.
  abbrev pub Serve : List A → List (p.Serial × List A) → List (p.Serial × Diff A) → Type 0
  Serve now past [] = Unit
  Serve now [] (e ∷ ds) = ⊥
  Serve now ((n, xs) ∷ past) ((k, d) ∷ ds) = (n ≡ k) × IsDiff xs now d × Serve now past ds

  abbrev pub AllSortedPast : List (p.Serial × List A) → Type 0
  AllSortedPast past = All (λ e. IsSorted e.1) past

  -- What `extend_diffs` adds, until it runs out of diffs or of space.
  abbrev pub Extended :
      ℕ
      → List A
      → List (p.Serial × List A)
      → List (p.Serial × Diff A)
      → List (p.Serial × Diff A)
      → Option (List (p.Serial × Diff A))
      → Type 0
  Extended h next past kept olds outcome =
      (more : List (p.Serial × Diff A)) × (outcome ≡ some (kept ++ more))
      × Serve next past more
      × ((length more ≡ 0) ⊎ (length kept + length more ≤ h))
      × ((length more ≡ length olds) ⊎ (h ≤ length kept + length more))

  extend_step :
      (h : ℕ) (next : List A) (past : List (p.Serial × List A))
      (kept olds : List (p.Serial × Diff A)) (n k : p.Serial) (xs : List A) (old ext : Diff A)
      (outcome : Option (List (p.Serial × Diff A)))
      → leb h (length kept) ≡ false
      → n ≡ k
      → IsDiff xs next ext
      → Extended h next past (kept ++ (k, ext) ∷ []) olds outcome
      → Extended h next ((n, xs) ∷ past) kept ((k, old) ∷ olds) outcome
  extend_step h next past kept olds n k xs old ext outcome e same j (more, f, v, a, b) = (
    (k, ext) ∷ more,
    f ∙ ap some (append_assoc kept ((k, ext) ∷ []) more),
    (same, j, v),
    inr (
        room (length kept) (length more) (length (kept ++ (k, ext) ∷ [])) e
          (length-append kept ((k, ext) ∷ [])) a),
    full (length kept) (length more) (length (kept ++ (k, ext) ∷ []))
        (length-append kept ((k, ext) ∷ [])) b,
  )
    where
      room : (l m c : ℕ) → leb h l ≡ false → c ≡ l + 1 → (m ≡ 0) ⊎ (c + m ≤ h) → l + suc m ≤ h
      room l m c e q (inl z) = grind arith
      room l m c e q (inr z) = omega arith

      full :
          (l m c : ℕ)
          → c ≡ l + 1
          → (m ≡ length olds) ⊎ (h ≤ c + m)
          → (suc m ≡ suc (length olds)) ⊎ (h ≤ l + suc m)
      full l m c q (inl z) = inl (omega arith)
      full l m c q (inr z) = inr (omega arith)

  pub extend_diffs-Extended :
      (h : ℕ) (now next : List A) (d : Diff A) (past : List (p.Serial × List A))
      (kept olds : List (p.Serial × Diff A))
      → AllSortedPast past
      → IsSorted now
      → IsSorted next
      → IsDiff now next d
      → Serve now past olds
      → Extended h next past kept olds (extend_diffs p h d kept olds)
  unfolding extend_diffs
  extend_diffs-Extended h now next d past kept [] q s t i v =
      ([], ap some (sym (append-nil kept)), tt, inl refl, inl refl)
  extend_diffs-Extended h now next d [] kept (e ∷ olds) q s t i v = elim v [ ]
  extend_diffs-Extended h now next d ((n, xs) ∷ past) kept ((k, old) ∷ olds) q s t i v =
      let (ext, f, j) = extend-IsDiff xs now next old d q.0 s t v.1 i in
      go (leb h (length kept)) refl ext f j
        (extend_diffs-Extended h now next d past (kept ++ (k, ext) ∷ []) olds q.1 s t i v.2)
    where
      go :
          (b : Bool)
          → leb h (length kept) ≡ b
          → (ext : Diff A) → extend old d ≡ ok ext
          → IsDiff xs next ext
          → Extended h next past
              (kept ++ (k, ext) ∷ [])
              olds
              (extend_diffs p h d (kept ++ (k, ext) ∷ []) olds)
          → Extended h next ((n, xs) ∷ past) kept ((k, old) ∷ olds) (elim b [
            | true ↦ some kept
            | false ↦ do
              extended ← unwrap (extend old d)
              extend_diffs p h d (kept ++ (k, extended) ∷ []) olds
          ])
      go true e ext f j r =
          ([], ap some (sym (append-nil kept)), tt, inl refl, inr (full (length kept) e))
        where
          full : (l : ℕ) → leb h l ≡ true → h ≤ l + 0
          full l e = ground arith
      go false e ext f j r = rw f (extend_step h next past kept olds n k xs old ext _ e v.0 j r)
