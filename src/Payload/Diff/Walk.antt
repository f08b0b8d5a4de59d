-- ===== src/Payload/Diff/Walk.antt =====
-- src/payload.rs: `OwnedDiffIter`, with which a server sends a diff, gives the changes of the diff.
use rtrtr.Base.{
  ℕ, zero, suc, ◌+◌, ◌≤◌, ◌≡◌, refl, ap, ap₂, ◌∙◌, sym, inl, inr, Bool, true, false, List, [], ◌∷◌,
  Option, none, some, length, arith, if◌then◌else◌, lt-cases, lt→ltb, ltb-le, slice_nil,
}
use rtrtr.Order.{Order, is_lt}
use rtrtr.Payload.Types.{Action, announce, withdraw}
use rtrtr.Payload.Pack.{Pack}
use rtrtr.Payload.Block.{InRange, OwnedBlockIter, peek, next, owned_iter, from_pack}
use rtrtr.Payload.Block.Laws.{rest, get_elem?-rest, contents-rest}
use rtrtr.Payload.Diff.{Diff, OwnedDiffIter, owned_next, next_announced, next_withdrawn, changes}
use rtrtr.Payload.Diff
use rtrtr.Payload.Diff.Overlap.{contents-from_pack, from_pack-InRange}

module _ {ℓ} {A : Type ℓ} where
  -- The items that are still to come.
  record Holds (it : OwnedBlockIter A) (xs : List A) : Type ℓ where
    in_range : InRange it.block
    before_end : it.pos ≤ it.block.end
    items : rest it.block it.pos ≡ xs

  abbrev moved : OwnedBlockIter A → OwnedBlockIter A
  moved it = record it { pos = suc it.pos }

  Holds-nil : (it : OwnedBlockIter A) → Holds it [] → (peek it ≡ none) × (next it ≡ (it, none))
  unfolding peek next
  Holds-nil it h = elim (lt-cases it.pos it.block.end) [
    | inl l ↦ let (x, e, f) = get_elem?-rest it.block it.pos h.in_range l in cc (h.items, f)
    | inr g ↦ rw (ltb-le _ _ g) (refl, refl)
  ]

  Holds-cons :
      (it : OwnedBlockIter A) (x : A) (xs : List A)
      → Holds it (x ∷ xs)
      → (peek it ≡ some x) × (next it ≡ (moved it, some x)) × Holds (moved it) xs
  unfolding peek next
  Holds-cons it x xs h = elim (lt-cases it.pos it.block.end) [
    | inl l ↦
        let (y, e, f) = get_elem?-rest it.block it.pos h.in_range l in
        let same : y ≡ x = cc (h.items, f) in
        (
          rw (lt→ltb _ _ l) (e ∙ ap some same),
          rw (lt→ltb _ _ l, e) (ap (λ z. (moved it, some z)) same),
          record { in_range = h.in_range; before_end = omega arith; items = cc (h.items, f) },
        )
    | inr g ↦ cc (h.items, slice_nil it.block.pack.items it.pos it.block.end g)
  ]

module _ {ℓ} {A : Type ℓ} ⦃o : Order A⦄ where
  abbrev announced_moved : OwnedDiffIter A → OwnedDiffIter A
  announced_moved it = record it { announced = moved it.announced }

  abbrev withdrawn_moved : OwnedDiffIter A → OwnedDiffIter A
  withdrawn_moved it = record it { withdrawn = moved it.withdrawn }

  next_announced-Holds :
      (it : OwnedDiffIter A) (a : A) (ns : List A)
      → Holds it.announced (a ∷ ns)
      → next_announced it ≡ (announced_moved it, some (a, announce))
  unfolding next_announced
  next_announced-Holds it a ns h = rw ((Holds-cons it.announced a ns h).1) refl

  next_withdrawn-Holds :
      (it : OwnedDiffIter A) (w : A) (ws : List A)
      → Holds it.withdrawn (w ∷ ws)
      → next_withdrawn it ≡ (withdrawn_moved it, some (w, withdraw))
  unfolding next_withdrawn
  next_withdrawn-Holds it w ws h = rw ((Holds-cons it.withdrawn w ws h).1) refl

  owned_next-over :
      (it : OwnedDiffIter A)
      → Holds it.announced []
      → Holds it.withdrawn []
      → owned_next it ≡ (it, none)
  unfolding owned_next
  owned_next-over it h k =
      rw ((Holds-nil it.announced h).0, owned_next) (rw ((Holds-nil it.withdrawn k).0) refl)

  owned_next-announced :
      (it : OwnedDiffIter A) (a : A) (ns : List A)
      → Holds it.announced (a ∷ ns)
      → Holds it.withdrawn []
      → owned_next it ≡ (announced_moved it, some (a, announce))
  unfolding owned_next
  owned_next-announced it a ns h k =
      rw ((Holds-cons it.announced a ns h).0, owned_next)
        (rw ((Holds-nil it.withdrawn k).0) (next_announced-Holds it a ns h))

  owned_next-withdrawn :
      (it : OwnedDiffIter A) (w : A) (ws : List A)
      → Holds it.announced []
      → Holds it.withdrawn (w ∷ ws)
      → owned_next it ≡ (withdrawn_moved it, some (w, withdraw))
  unfolding owned_next
  owned_next-withdrawn it w ws h k =
      rw ((Holds-nil it.announced h).0, owned_next)
        (rw ((Holds-cons it.withdrawn w ws k).0) (next_withdrawn-Holds it w ws k))

  owned_next-both :
      (it : OwnedDiffIter A) (a w : A) (ns ws : List A)
      → Holds it.announced (a ∷ ns)
      → Holds it.withdrawn (w ∷ ws)
      → owned_next it ≡ (
          if is_lt a w
          then (announced_moved it, some (a, announce))
          else (withdrawn_moved it, some (w, withdraw)))
  unfolding owned_next
  owned_next-both it a w ns ws h k =
      rw ((Holds-cons it.announced a ns h).0, owned_next)
        (rw ((Holds-cons it.withdrawn w ws k).0) (
          ap₂ (λ x y. if is_lt a w then x else y) (next_announced-Holds it a ns h)
            (next_withdrawn-Holds it w ws k)))

  -- The results of so many calls of `next`, up to the first that gives nothing.
  unfoldable pub taken : ℕ → OwnedDiffIter A → List (A × Action)
  taken zero it = []
  taken (suc n) it =
      let (later, item) = owned_next it in
      elim item [ none ↦ [] | some change ↦ change ∷ taken n later ]

  taken-step :
      (n : ℕ) (it later : OwnedDiffIter A) (c : A × Action)
      → owned_next it ≡ (later, some c)
      → taken (suc n) it ≡ c ∷ taken n later
  unfolding taken
  taken-step n it later c e =
      ap
        (λ r. elim r.1 as (λ _. List (A × Action)) [
          | none ↦ []
          | some change ↦ change ∷ taken n r.0
        ])
        e

  taken-changes :
      (n : ℕ) (it : OwnedDiffIter A) (ns ws : List A)
      → Holds it.announced ns
      → Holds it.withdrawn ws
      → length ns + length ws ≤ n
      → taken n it ≡ changes ns ws
  unfolding taken changes
  taken-changes zero it [] [] h k l = refl
  taken-changes zero it (a ∷ ns) ws h k l = absurd (omega arith)
  taken-changes zero it [] (w ∷ ws) h k l = absurd (omega arith)
  taken-changes (suc n) it [] [] h k l = rw ((owned_next-over it h k), taken) refl
  taken-changes (suc n) it (a ∷ ns) [] h k l =
      taken-step n it (announced_moved it) (a, announce) (owned_next-announced it a ns h k)
      ∙ ap (◌∷◌ (a, announce)) (
          taken-changes n (announced_moved it) ns [] (Holds-cons it.announced a ns h).2 k
            (omega arith))
  taken-changes (suc n) it [] (w ∷ ws) h k l =
      taken-step n it (withdrawn_moved it) (w, withdraw) (owned_next-withdrawn it w ws h k)
      ∙ ap (◌∷◌ (w, withdraw)) (
          taken-changes n (withdrawn_moved it) [] ws h (Holds-cons it.withdrawn w ws k).2
            (omega arith))
  taken-changes (suc n) it (a ∷ ns) (w ∷ ws) h k l =
      ap
        (λ r. elim r.1 as (λ _. List (A × Action)) [
          | none ↦ []
          | some change ↦ change ∷ taken n r.0
        ])
        (owned_next-both it a w ns ws h k)
      ∙ (go (is_lt a w)
          (taken-changes n (announced_moved it) ns (w ∷ ws) (Holds-cons it.announced a ns h).2 k
            (omega arith))
          (taken-changes n (withdrawn_moved it) (a ∷ ns) ws h (Holds-cons it.withdrawn w ws k).2
            (omega arith)))
    where
      go :
          (t : Bool)
          → taken n (announced_moved it) ≡ changes ns (w ∷ ws)
          → taken n (withdrawn_moved it) ≡ changes (a ∷ ns) ws
          → (let (later, item) : OwnedDiffIter A × Option (A × Action) =
                if t
                then (announced_moved it, some (a, announce))
                else (withdrawn_moved it, some (w, withdraw)) in
              elim item as (λ _. List (A × Action)) [
                | none ↦ []
                | some change ↦ change ∷ taken n later
              ])
            ≡ elim t [
              | true ↦ (a, announce) ∷ changes ns (w ∷ ws)
              | false ↦ (w, withdraw) ∷ changes (a ∷ ns) ws
            ]
      go true p q = ap (◌∷◌ (a, announce)) p
      go false p q = ap (◌∷◌ (w, withdraw)) q

  -- The iterator with which a server sends a diff gives the changes of the diff, and then nothing:
  -- this is what any number of calls gives that is enough for its items.
  pub taken-owned_iter :
      (d : Diff A) (n : ℕ)
      → Diff.len d ≤ n
      → taken n (Diff.owned_iter d) ≡ changes d.announced.items d.withdrawn.items
  unfolding Diff.owned_iter Diff.len owned_iter
  taken-owned_iter d n l =
      taken-changes n (Diff.owned_iter d) d.announced.items d.withdrawn.items (start d.announced)
        (start d.withdrawn) l
    where
      start : (p : Pack A) → Holds (owned_iter (from_pack p)) p.items
      start p =
          unfold owned_iter in
          record {
            in_range = from_pack-InRange p;
            before_end = (from_pack-InRange p).ordered;
            items = sym (contents-rest (from_pack p)) ∙ contents-from_pack p;
          }
