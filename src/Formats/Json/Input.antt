-- ===== src/Formats/Json/Input.antt =====
-- Reading data sets from JSON, in src/formats/json.rs.
use rtrtr.Base.{◌≡◌, refl, sym, ap, ◌∙◌, subst, Bool, false, ◌||◌, List, [], ◌∷◌, map, some, arith}
use rtrtr.Order.{Order, elem, is_eq, IsSorted}
use rtrtr.Payload.Types.{Result, ok, err}
use rtrtr.Payload.Pack.{PackBuilder, insert, insert_unchecked, finalize, empty}
use rtrtr.Payload.Pack.Laws.{Distinct, elem-sort, sort-IsSorted}
use rtrtr.Payload.Diff.From.{elem-insert_unchecked, insert_unchecked-Distinct}
use rtrtr.Payload.Set.{Set, flatten, IsWellFormed}
use rtrtr.Payload.Set.Packed.{from_pack_lem}
use rtrtr.Formats.Json.{Rpki, Vrp, vrp_payload, insert_vrps, into_payload}

module _ {A : Type 0} (r : Rpki A) ⦃o : Order A⦄ where
  -- A duplicate is dropped.
  insert-unchecked :
      (b : PackBuilder A) (a : A)
      → elim (insert b a) as (λ _. PackBuilder A) [ ok b' ↦ b' | err e ↦ b ] ≡ insert_unchecked b a
  unfolding insert insert_unchecked
  insert-unchecked b a = ground arith

  insert_vrps-cons :
      (b : PackBuilder A) (vrp : Vrp r) (vrps : List (Vrp r))
      → insert_vrps r b (vrp ∷ vrps) ≡ insert_vrps r (insert_unchecked b (vrp_payload r vrp)) vrps
  unfolding insert_vrps
  insert_vrps-cons b vrp vrps =
      after (insert b (vrp_payload r vrp))
      ∙ ap (λ c. insert_vrps r c vrps) (insert-unchecked b (vrp_payload r vrp))
    where
      after :
          (m : Result (PackBuilder A))
          → elim m as (λ _. PackBuilder A) [
            | ok b' ↦ insert_vrps r b' vrps
            | err e ↦ insert_vrps r b vrps
          ]
            ≡ insert_vrps r (elim m as (λ _. PackBuilder A) [ ok b' ↦ b' | err e ↦ b ]) vrps
      after (ok b') = refl
      after (err e) = refl

  insert_vrps-Distinct :
      (b : PackBuilder A) (vrps : List (Vrp r))
      → Distinct b.items
      → Distinct (insert_vrps r b vrps).items
  unfolding insert_vrps
  insert_vrps-Distinct b [] d = d
  insert_vrps-Distinct b (vrp ∷ vrps) d =
      subst (λ c. Distinct c.items) (sym (insert_vrps-cons b vrp vrps))
        (insert_vrps-Distinct (insert_unchecked b (vrp_payload r vrp)) vrps
          (insert_unchecked-Distinct (vrp_payload r vrp) b d))

  elem-insert_vrps :
      (a : A) (b : PackBuilder A) (vrps : List (Vrp r))
      → elem a (insert_vrps r b vrps).items ≡ elem a (map (vrp_payload r) vrps) || elem a b.items
  unfolding insert_vrps
  elem-insert_vrps a b [] = refl
  elem-insert_vrps a b (vrp ∷ vrps) =
      ap (λ c. elem a c.items) (insert_vrps-cons b vrp vrps)
      ∙ elem-insert_vrps a (insert_unchecked b (vrp_payload r vrp)) vrps
      ∙ ap (λ w. elem a (map (vrp_payload r) vrps) || w)
          (elem-insert_unchecked a (vrp_payload r vrp) b)
      ∙ or_swap (elem a (map (vrp_payload r) vrps)) (is_eq a (vrp_payload r vrp)) (elem a b.items)
    where
      or_swap : (p q r : Bool) → (p || (q || r)) ≡ (q || p) || r
      or_swap p q r = ground arith

  -- Reading a list of VRPs, in any order and with duplicates, does not panic, and gives a
  -- well-formed set with exactly their route origins, in ascending order and so each once.
  pub into_payload-roas :
      (roas : List (Vrp r))
      → (s : Set A) × (into_payload r roas ≡ some s)
        × IsWellFormed s
        × IsSorted (flatten s.blocks)
        × ((a : A) → elem a (flatten s.blocks) ≡ elem a (map (vrp_payload r) roas))
  unfolding into_payload finalize
  into_payload-roas roas =
      let (s, e, items, wf) = from_pack_lem (finalize (insert_vrps r empty roas)) in
      (
        s,
        e,
        wf,
        subst IsSorted (sym items)
            (sort-IsSorted (insert_vrps r empty roas).items (insert_vrps-Distinct empty roas tt)),
        λ a.
            ap (elem a) items
            ∙ elem-sort a (insert_vrps r empty roas).items
            ∙ elem-insert_vrps a empty roas
            ∙ or_false (elem a (map (vrp_payload r) roas)),
      )
    where
      or_false : (p : Bool) → p || false ≡ p
      or_false p = ground arith
