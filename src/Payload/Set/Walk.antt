-- ===== src/Payload/Set/Walk.antt =====
-- src/payload.rs: `OwnedSetIter`, with which a server sends its data, gives the items of the set.
use rtrtr.Base.{
  ℕ, zero, suc, ◌≤◌, ◌<◌, ◌≡◌, refl, ap, ◌∙◌, sym, subst, inl, inr, List, [], ◌∷◌, ◌++◌, Option,
  none, some, length, get_elem?, drop, arith,
}
use rtrtr.Payload.Block.{Block, get_from_pack, contents}
use rtrtr.Payload.Block.Laws.{rest, get_from_pack-rest, contents-rest}
use rtrtr.Payload.Set.{
  Set, OwnedSetIter, owned_iter, owned_next, next_owned_block, flatten, AllInRange, TailNoneEmpty,
}
use rtrtr.Payload.Set.Moves.{
  get_elem?-drop, Stands, taken, nil_of_length, moved, moved_on, owned_next-moved,
  owned_next-moved_on, owned_next-over,
}

module _ {ℓ} {A : Type ℓ} where
  moved-Stands :
      (it : OwnedSetIter A) (b : Block A) (cs : List (Block A))
      → Stands it b cs
      → it.item < b.end
      → Stands (moved it) b cs
  moved-Stands it b cs h l = record {
    here = h.here;
    later = h.later;
    after_start = omega (arith, h.after_start);
    before_end = omega arith;
    in_range = h.in_range;
    rest_in_range = h.rest_in_range;
    rest_none_empty = h.rest_none_empty;
  }

  moved_on-Stands :
      (it : OwnedSetIter A) (b c : Block A) (cs : List (Block A))
      → Stands it b (c ∷ cs)
      → Stands (moved_on it c) c cs
  moved_on-Stands it b c cs h =
      let (e, f) = get_elem?-drop (suc it.block) it.set.blocks h.later in
      record {
        here = e;
        later = f;
        after_start = omega arith;
        before_end = h.rest_none_empty.0;
        in_range = h.rest_in_range.0;
        rest_in_range = h.rest_in_range.1;
        rest_none_empty = h.rest_none_empty.1;
      }

  taken-step :
      (n : ℕ) (it later : OwnedSetIter A) (x : A)
      → owned_next it ≡ (later, some x)
      → taken (suc n) it ≡ x ∷ taken n later
  unfolding taken
  taken-step n it later x e =
      ap (λ r. elim r.1 as (λ _. List A) [ none ↦ [] | some a ↦ a ∷ taken n r.0 ]) e

  taken-Stands :
      (n : ℕ) (it : OwnedSetIter A) (b : Block A) (cs : List (Block A))
      → Stands it b cs
      → length (rest b it.item ++ flatten cs) ≤ n
      → taken n it ≡ rest b it.item ++ flatten cs
  unfolding taken flatten
  taken-Stands zero it b cs h l = sym (nil_of_length (rest b it.item ++ flatten cs) l)
  taken-Stands (suc n) it b cs h l =
      elim (get_from_pack-rest b it.item h.in_range h.after_start h.before_end) [
        | inl (g, e, f) ↦ rw f (
            go cs h (subst (λ xs. length (xs ++ flatten cs) ≤ suc n) f l) e
              λ it c cs h. taken-Stands n it c cs h)
        | inr (x, m, e, f) ↦ rw f (
            taken-step n it (moved it) x (owned_next-moved it b cs x h e)
            ∙ ap (◌∷◌ x) (
                taken-Stands n (moved it) b cs (moved-Stands it b cs h m) (
                  fewer (rest b (suc it.item) ++ flatten cs) x
                    (subst (λ xs. length (xs ++ flatten cs) ≤ suc n) f l))))
      ]
    where
      fewer : (xs : List A) (x : A) → length (x ∷ xs) ≤ suc n → length xs ≤ n
      fewer xs x h = omega arith

      go :
          (cs : List (Block A))
          → Stands it b cs
          → length (flatten cs) ≤ suc n
          → get_from_pack b it.item ≡ none
          → ((it : OwnedSetIter A) (c : Block A) (cs : List (Block A))
              → Stands it c cs
              → length (rest c it.item ++ flatten cs) ≤ n
              → taken n it ≡ rest c it.item ++ flatten cs)
          → taken (suc n) it ≡ flatten cs
      go [] h l e rec = rw (owned_next-over it b h e, taken) refl
      go (c ∷ cs) h l e rec =
          elim (get_from_pack-rest c c.start h.rest_in_range.0 (omega arith)
            h.rest_in_range.0.ordered) [
              | inl (g, f, z) ↦ absurd (omega (arith, h.rest_none_empty.0))
              | inr (x, m, f, z) ↦
                  let items : contents c ≡ x ∷ rest c (suc c.start) = contents-rest c ∙ z in
                  taken-step n it (moved_on it c) x (owned_next-moved_on it b c cs x h e f)
                  ∙ ap (◌∷◌ x) (
                      rec (moved_on it c) c cs (moved_on-Stands it b c cs h) (
                        fewer (rest c (suc c.start) ++ flatten cs) x
                          (subst (λ xs. length (xs ++ flatten cs) ≤ suc n) items l)))
                  ∙ ap (λ xs. xs ++ flatten cs) (sym items)
            ]

  -- For a set with its blocks in range, of which at most the first is empty, the iterator with
  -- which a server sends its data gives the items of the set, each once and in order, and then
  -- nothing: this is what any number of calls gives that is enough for the items.
  pub taken-flatten :
      (s : Set A) (n : ℕ)
      → AllInRange s.blocks
      → TailNoneEmpty s.blocks
      → length (flatten s.blocks) ≤ n
      → taken n (owned_iter s) ≡ flatten s.blocks
  unfolding owned_iter taken owned_next flatten
  taken-flatten s n v t l = go n s.blocks refl v t l
    where
      go :
          (n : ℕ) (bs : List (Block A))
          → s.blocks ≡ bs
          → AllInRange bs
          → TailNoneEmpty bs
          → length (flatten bs) ≤ n
          → taken n (record { set = s; block = 0; item = elim bs [ [] ↦ 0 | b ∷ bs ↦ b.start ] })
            ≡ flatten bs
      go zero [] e v t l = refl
      go (suc n) [] e v t l = nothing
        where
          nothing : taken (suc n) (record { set = s; block = 0; item = 0 }) ≡ []
          nothing =
              ap (λ o. elim o.1 as (λ _. List A) [ none ↦ [] | some a ↦ a ∷ taken n o.0 ]) (over e)
            where
              over :
                  s.blocks ≡ []
                  → owned_next (record { set = s; block = 0; item = 0 })
                    ≡ (record { set = s; block = 0; item = 0 }, none)
              over e =
                  ap
                    (λ xs. elim (get_elem? {A = Block A} xs 0) as (λ _. OwnedSetIter A × Option A) [
                      | none ↦ (record { set = s; block = 0; item = 0 }, none)
                      | some b ↦ elim (get_from_pack b 0) [
                        | some a ↦ (record { set = s; block = 0; item = 1 }, some a)
                        | none ↦ next_owned_block (record { set = s; block = 0; item = 0 }) 1
                      ]
                    ])
                    e
      go n (b ∷ bs) e v t l =
          taken-Stands n (record { set = s; block = 0; item = b.start }) b bs
            (record {
              here = ap (λ xs. get_elem? xs 0) e;
              later = ap (drop 1) e;
              after_start = omega arith;
              before_end = v.0.ordered;
              in_range = v.0;
              rest_in_range = v.1;
              rest_none_empty = t;
            })
            (subst (λ xs. length (xs ++ flatten bs) ≤ n) (contents-rest b) l)
          ∙ ap (λ xs. xs ++ flatten bs) (sym (contents-rest b))
