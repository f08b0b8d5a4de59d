-- ===== src/Payload/Diff/Overlap.antt =====
-- src/payload.rs: the items of a set and of a pack inserted into it.
use rtrtr.Base.{
  ◌≡◌, refl, ap, ◌∙◌, sym, Bool, true, false, ◌||◌, List, [], ◌∷◌, ◌++◌, some, Option, All, arith,
  slice, take, length,
}
use rtrtr.Order.{Order, ◌≺◌, elem, IsSorted}
use rtrtr.Sorted.Elem.{IsSorted-of_append}
use rtrtr.Sorted.Union.{union, union-nil, union_assoc}
use rtrtr.Payload.Pack.{Pack}
use rtrtr.Payload.Block.{Block, InRange, contents, from_pack}
use rtrtr.Payload.Block.Overlap.{meets, overlaps-meets}
use rtrtr.Payload.Set.{flatten, AllInRange}
use rtrtr.Payload.Builder.{any_overlaps}
use rtrtr.Payload.Builder.Placing.{union_all, AllSorted, union_all-IsSorted}

module _ {ℓ} {A : Type ℓ} ⦃o : Order A⦄ where
  -- The blocks of an ascending sequence are ascending, and their union is the sequence.
  pub flatten-AllSorted : (bs : List (Block A)) → IsSorted (flatten bs) → AllSorted bs
  unfolding flatten
  flatten-AllSorted [] s = tt
  flatten-AllSorted (b ∷ bs) s =
      let (p, q, _) = IsSorted-of_append (contents b) (flatten bs) s in (p, flatten-AllSorted bs q)

  union_apart : (xs ys : List A) → All (λ x. All (λ y. x ≺ y) ys) xs → union xs ys ≡ xs ++ ys
  unfolding union
  union_apart [] ys h = refl
  union_apart (x ∷ xs) [] h = ap (◌∷◌ x) (sym (union-nil xs) ∙ union_apart xs [] h.1)
  union_apart (x ∷ xs) (y ∷ ys) h = rw (h.0.0, union) (ap (◌∷◌ x) (union_apart xs (y ∷ ys) h.1))

  pub union_all-flatten : (bs : List (Block A)) → IsSorted (flatten bs) → union_all bs ≡ flatten bs
  unfolding flatten union_all
  union_all-flatten [] s = refl
  union_all-flatten (b ∷ bs) s =
      let (p, q, r) = IsSorted-of_append (contents b) (flatten bs) s in
      ap (union (contents b)) (union_all-flatten bs q) ∙ union_apart (contents b) (flatten bs) r

  pub union_all-append :
      (bs cs : List (Block A))
      → AllSorted bs
      → AllSorted cs
      → union_all (bs ++ cs) ≡ union (union_all bs) (union_all cs)
  unfolding union_all union
  union_all-append [] cs s t = refl
  union_all-append (b ∷ bs) cs s t =
      ap (union (contents b)) (union_all-append bs cs s.1 t)
      ∙ sym (
          union_assoc (contents b) (union_all bs) (union_all cs) s.0 (union_all-IsSorted bs s.1)
            (union_all-IsSorted cs t))

  pub any_overlaps-meets :
      (bs : List (Block A)) (b : Block A)
      → AllInRange bs
      → InRange b
      → AllSorted bs
      → IsSorted (contents b)
      → any_overlaps bs b ≡ some (meets (flatten bs) (contents b))
  unfolding any_overlaps flatten meets
  any_overlaps-meets [] b v w s t = refl
  any_overlaps-meets (c ∷ cs) b v w s t =
      rw (overlaps-meets c b v.0 w s.0 t)
        (go (any_overlaps-meets cs b v.1 w s.1 t) (meets (contents c) (contents b)) refl)
    where
      meets-append : (xs ys zs : List A) → meets (xs ++ ys) zs ≡ meets xs zs || meets ys zs
      meets-append [] ys zs = refl
      meets-append (x ∷ xs) ys zs =
          ap (λ w. elem x zs || w) (meets-append xs ys zs)
          ∙ or_assoc (elem x zs) (meets xs zs) (meets ys zs)
        where
          or_assoc : (p q r : Bool) → (p || (q || r)) ≡ (p || q) || r
          or_assoc p q r = ground arith

      go :
          any_overlaps cs b ≡ some (meets (flatten cs) (contents b))
          → (m : Bool) → meets (contents c) (contents b) ≡ m
          → elim m as (λ _. Option Bool) [ true ↦ some true | false ↦ any_overlaps cs b ]
            ≡ some (meets (contents c ++ flatten cs) (contents b))
      go r true e = rw (meets-append (contents c) (flatten cs) (contents b), e)
      go r false e = rw (meets-append (contents c) (flatten cs) (contents b), e) r

  pub slice-length : (xs : List A) → slice xs 0 (length xs) ≡ xs
  unfolding slice
  slice-length xs = go xs
    where
      go : (ys : List A) → take (length ys) ys ≡ ys
      go [] = refl
      go (y ∷ ys) = ap (◌∷◌ y) (go ys)

  pub contents-from_pack : (p : Pack A) → contents (from_pack p) ≡ p.items
  unfolding contents from_pack
  contents-from_pack p = slice-length p.items

  pub from_pack-InRange : (p : Pack A) → InRange (from_pack p)
  unfolding from_pack
  from_pack-InRange p = record { ordered = omega arith; bounded = omega arith }
