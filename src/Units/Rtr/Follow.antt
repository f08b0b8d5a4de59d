-- ===== src/Units/Rtr/Follow.antt =====
-- src/units/rtr.rs: a client that is sent a diff ends up with the data of the server.
use rtrtr.Base.{
  ◌≡◌, refl, ap₂, ◌∙◌, sym, subst, Bool, true, false, not, ◌&&◌, ◌||◌, List, [], ◌∷◌, some, arith,
}
use rtrtr.Order.{Order, is_lt, elem, IsSorted}
use rtrtr.Sorted.Elem.{sorted_ext}
use rtrtr.Sorted.Without.{without, elem-without, without-IsSorted}
use rtrtr.Payload.Types.{ok, announce, withdraw}
use rtrtr.Payload.Pack.{sort, finalize}
use rtrtr.Payload.Pack.Laws.{Distinct, IsSorted-Distinct, elem-sort, sort-IsSorted}
use rtrtr.Payload.Set.{Set, flatten, IsWellFormed, NoneEmpty}
use rtrtr.Payload.Diff.{Diff, DiffBuilder, changes, push}
use rtrtr.Payload.Diff
use rtrtr.Payload.Diff.From.{IsDiff}
use rtrtr.Payload.Diff.Apply.{Gives, applied, apply-applied}
use rtrtr.Payload.Diff.Roundtrip.{applied-without}
use rtrtr.Payload.Update.{new}
use rtrtr.Units.Rtr.{TargetUpdate, serial, push_updates, into_update}
use rtrtr.Units.Rtr.Pushes.{
  Awaits, Pushes, add_announce, add_withdraw, announce_first, withdraw_first,
}

module _ {A : Type 0} ⦃o : Order A⦄ where
  push_updates-Pushes :
      (set : Set A) (b : DiffBuilder A) (ns ws : List A)
      → Awaits b ns ws
      → Pushes set b ns ws (push_updates (serial set b) (changes ns ws))
  unfolding push_updates changes
  push_updates-Pushes set b [] [] h = (
    b,
    refl,
    λ z. or_false (elem z b.announced.items),
    λ z. or_false (elem z b.withdrawn.items),
    h.distinct_announced,
    h.distinct_withdrawn,
  )
    where
      or_false : (p : Bool) → p ≡ p || false
      or_false p = ground arith
  push_updates-Pushes set b (a ∷ ns) [] h =
      announce_first set b a ns [] (changes ns []) h
        (push_updates-Pushes set (add_announce b a) ns [])
  push_updates-Pushes set b [] (w ∷ ws) h =
      withdraw_first set b w [] ws (changes [] ws) h
        (push_updates-Pushes set (add_withdraw b w) [] ws)
  push_updates-Pushes set b (a ∷ ns) (w ∷ ws) h =
      go (is_lt a w)
        (announce_first set b a ns (w ∷ ws) (changes ns (w ∷ ws)) h
          (push_updates-Pushes set (add_announce b a) ns (w ∷ ws)))
        (withdraw_first set b w (a ∷ ns) ws (changes (a ∷ ns) ws) h
          (push_updates-Pushes set (add_withdraw b w) (a ∷ ns) ws))
    where
      go :
          (t : Bool)
          → Pushes set b
              (a ∷ ns)
              (w ∷ ws)
              (push_updates (serial set b) ((a, announce) ∷ changes ns (w ∷ ws)))
          → Pushes set b
              (a ∷ ns)
              (w ∷ ws)
              (push_updates (serial set b) ((w, withdraw) ∷ changes (a ∷ ns) ws))
          → Pushes set b (a ∷ ns) (w ∷ ws) (
              push_updates (serial set b) (elim t [
                | true ↦ (a, announce) ∷ changes ns (w ∷ ws)
                | false ↦ (w, withdraw) ∷ changes (a ∷ ns) ws
              ]))
      go true p q = p
      go false p q = q

  finalize-items :
      (c : DiffBuilder A) (ns ws : List A)
      → IsSorted ns
      → IsSorted ws
      → ((z : A) → elem z c.announced.items ≡ elem z ns)
      → ((z : A) → elem z c.withdrawn.items ≡ elem z ws)
      → Distinct c.announced.items
      → Distinct c.withdrawn.items
      → ((Diff.finalize c).announced.items ≡ ns) × ((Diff.finalize c).withdrawn.items ≡ ws)
  unfolding Diff.finalize finalize
  finalize-items c ns ws s t p q d f = (
    sorted_ext (sort c.announced.items) ns (sort-IsSorted c.announced.items d) s
        λ z. elem-sort z c.announced.items ∙ p z,
    sorted_ext (sort c.withdrawn.items) ws (sort-IsSorted c.withdrawn.items f) t
        λ z. elem-sort z c.withdrawn.items ∙ q z,
  )

  into_update-Gives :
      (set : Set A) (c : DiffBuilder A) (ys : List A)
      → Gives (ok ys) (Diff.apply (Diff.finalize c) set)
      → (r : Set A) × (into_update (serial set c) ≡ some (ok (new r)))
        × (flatten r.blocks ≡ ys)
        × IsWellFormed r
        × NoneEmpty r.blocks
  unfolding Gives into_update
  into_update-Gives set c ys (r, e, items, wf, full) =
      (r, rw (e, into_update) refl, items, wf, full)

  -- Take a client with a well-formed set in ascending order, and a diff that leads from its items
  -- to a list in ascending order. If the client starts a serial update and pushes the changes of
  -- the diff in the order of its iterator, then every push succeeds, and `into_update` succeeds
  -- with a well-formed set, free of empty blocks, that has exactly the items of the list.
  pub into_update-IsDiff :
      (set : Set A) (ys : List A) (d : Diff A)
      → IsWellFormed set
      → IsSorted (flatten set.blocks)
      → IsSorted ys
      → IsDiff (flatten set.blocks) ys d
      → (t : TargetUpdate A) × (push_updates
            (serial set Diff.empty)
            (changes d.announced.items d.withdrawn.items)
          ≡ ok t)
        × (r : Set A) × (into_update t ≡ some (ok (new r)))
        × (flatten r.blocks ≡ ys)
        × IsWellFormed r
        × NoneEmpty r.blocks
  into_update-IsDiff set ys d v s t h =
      let xs = flatten set.blocks in
      let ns_sorted = without-IsSorted xs ys t in
      let ws_sorted = without-IsSorted ys xs s in
      let (c, e, p, q, dn, dw) =
        push_updates-Pushes set Diff.empty (without xs ys) (without ys xs) (record {
          apart = λ z.
              ap₂ ◌&&◌ (elem-without z xs ys) (elem-without z ys xs)
              ∙ never (elem z xs) (elem z ys);
          fresh = λ z. refl;
          distinct_ns = IsSorted-Distinct (without xs ys) ns_sorted;
          distinct_ws = IsSorted-Distinct (without ys xs) ws_sorted;
          distinct_announced = tt;
          distinct_withdrawn = tt;
        }) in
      let (f, g) = finalize-items c (without xs ys) (without ys xs) ns_sorted ws_sorted p q dn dw in
      let (r, k, items, wf, full) = into_update-Gives set c ys (
        subst (λ x. Gives x (Diff.apply (Diff.finalize c) set))
          (ap₂ (applied xs) f g ∙ applied-without xs ys s t)
          (apply-applied (Diff.finalize c) set (subst IsSorted (sym f) ns_sorted)
            (subst IsSorted (sym g) ws_sorted) v s)) in
      (serial set c, rw (h.announces, h.withdraws) e, r, k, items, wf, full)
    where
      never : (p q : Bool) → (not p && q) && (not q && p) ≡ false
      never p q = ground arith
