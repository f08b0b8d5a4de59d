-- ===== src/Units/Rtr/Reset.antt =====
-- A reset update of the RTR client in src/units/rtr.rs, which builds the complete data set.
use rtrtr.Base.{
  ◌≡◌, refl, sym, ap, ◌∙◌, subst, Bool, true, false, not, ◌&&◌, ◌||◌, List, [], ◌∷◌, some, arith,
  if◌then◌else◌, Bool-cases, inl, inr,
}
use rtrtr.Order.{Order, is_eq, elem, IsSorted}
use rtrtr.Payload.Types.{Action, announce, Result, ok, err, duplicate_announce}
use rtrtr.Payload.Pack.{insert, sort, finalize}
use rtrtr.Payload.Pack.Laws.{Distinct, elem-sort, sort-IsSorted}
use rtrtr.Payload.Set.{Set, flatten, IsWellFormed}
use rtrtr.Payload.Set.Packed.{from_pack_lem}
use rtrtr.Payload.Update.{new}
use rtrtr.Units.Rtr.{Target, TargetUpdate, reset, start, push_update, push_updates, into_update}

module _ {A : Type 0} ⦃o : Order A⦄ where
  abbrev pub announces : List A → List (A × Action)
  announces [] = []
  announces (x ∷ xs) = (x, announce) ∷ announces xs

  -- The items in the order in which the builder has them.
  abbrev pub pushed : List A → List A → List A
  pushed items [] = items
  pushed items (x ∷ xs) = pushed (x ∷ items) xs

  -- No item is there before it comes.
  abbrev pub all_fresh : List A → List A → Bool
  all_fresh items [] = true
  all_fresh items (x ∷ xs) = not (elem x items) && all_fresh (x ∷ items) xs

  push_updates-reset :
      (items xs : List A)
      → push_updates (reset (record { items = items })) (announces xs) ≡ (
          if all_fresh items xs
          then ok (reset (record { items = pushed items xs }))
          else err duplicate_announce)
  unfolding push_updates push_update insert
  push_updates-reset items [] = refl
  push_updates-reset items (x ∷ xs) = ground (arith, push_updates-reset (x ∷ items) xs)

  pushed-Distinct :
      (items xs : List A) → Distinct items → all_fresh items xs ≡ true → Distinct (pushed items xs)
  pushed-Distinct items [] d h = d
  pushed-Distinct items (x ∷ xs) d h =
      pushed-Distinct (x ∷ items) xs (ground (arith, h), d) (ground (arith, h))

  elem-pushed : (a : A) (items xs : List A) → elem a (pushed items xs) ≡ elem a xs || elem a items
  elem-pushed a items [] = refl
  elem-pushed a items (x ∷ xs) =
      elem-pushed a (x ∷ items) xs ∙ or_swap (elem a xs) (is_eq a x) (elem a items)
    where
      or_swap : (p q r : Bool) → (p || (q || r)) ≡ (q || p) || r
      or_swap p q r = ground arith

  -- What comes of a reset update in which the server announces these items.
  pub data ResetOutcome (xs : List A) : Result (TargetUpdate A) → Type 0 where
    complete :
        (u : TargetUpdate A) (set : Set A)
        → all_fresh [] xs ≡ true
        → into_update u ≡ some (ok (new set))
        → IsWellFormed set
        → IsSorted (flatten set.blocks)
        → ((a : A) → elem a (flatten set.blocks) ≡ elem a xs)
        → ResetOutcome xs (ok u)
    repeated : all_fresh [] xs ≡ false → ResetOutcome xs (err duplicate_announce)

  into_reset :
      (xs : List A)
      → all_fresh [] xs ≡ true
      → ResetOutcome xs (ok (reset (record { items = pushed [] xs })))
  unfolding into_update finalize
  into_reset xs h =
      let (set, e, items, wf) = from_pack_lem (record { items = sort (pushed [] xs) }) in
      complete (reset (record { items = pushed [] xs })) set h (rw e refl) wf
        (subst IsSorted (sym items) (sort-IsSorted (pushed [] xs) (pushed-Distinct [] xs tt h)))
        (λ a.
          ap (elem a) items
          ∙ elem-sort a (pushed [] xs)
          ∙ elem-pushed a [] xs
          ∙ or_false (elem a xs))
    where
      or_false : (p : Bool) → p || false ≡ p
      or_false p = ground arith

  -- A client that starts a reset update and to which the server then announces items, in any order,
  -- fails with `duplicate_announce` if an item comes twice; otherwise it goes on to an update with a
  -- well-formed set of exactly these items in ascending order, whatever set it had before.
  pub push_updates-ResetOutcome :
      {State : Type 0} (t : Target State A) (xs : List A)
      → ResetOutcome xs (push_updates (start t true) (announces xs))
  unfolding start
  push_updates-ResetOutcome t xs = elim (Bool-cases (all_fresh [] xs)) [
    | inl h ↦
        subst (ResetOutcome xs)
          (sym (
            push_updates-reset [] xs
            ∙ ap
                (λ b.
                  if b
                  then ok (reset (record { items = pushed [] xs }))
                  else err duplicate_announce)
                h))
          (into_reset xs h)
    | inr h ↦
        subst (ResetOutcome xs)
          (sym (
            push_updates-reset [] xs
            ∙ ap
                (λ b.
                  if b
                  then ok (reset (record { items = pushed [] xs }))
                  else err duplicate_announce)
                h))
          (repeated h)
  ]
