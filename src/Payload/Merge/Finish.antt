-- ===== src/Payload/Merge/Finish.antt =====
-- How `Set::merge` in src/payload.rs ends: what is left of the side that is not used up.
use native.Mathlib.Nat.{add-zero, add_assoc}
use rtrtr.Base.{
  ℕ, ◌+◌, ◌≡◌, refl, ap, ◌∙◌, sym, inl, inr, List, [], ◌∷◌, ◌++◌, Option, none, some, length, arith,
  Bool-cases, append_assoc, append-nil, length-append,
}
use rtrtr.Sorted.Elem.{All-append}
use rtrtr.Payload.Block.{Block, contents}
use rtrtr.Payload.Block.Laws.{
  is_nil, cons_of, nil_of, len-contents, is_empty-contents, start_lt_end,
}
use rtrtr.Payload.Set.{Set, flatten, AllInRange, NoneEmpty, IsWellFormed}
use rtrtr.Payload.Set.Laws.{flatten-append, flatten-push, listed}
use rtrtr.Payload.Merge.{Merging, finish, push_head, push_tail}
use rtrtr.Payload.Merge.Loop.{left_side, right_side}

module _ {ℓ} {A : Type ℓ} where
  -- What is pushed onto the target holds the given items, and the count keeps up.
  pub record Pushed (items : List A) (target : List (Block A)) (n : ℕ) (target' : List (Block A))
      (n' : ℕ) : Type ℓ where
    pub holds : flatten target' ≡ flatten target ++ items
    pub counts : n ≡ length (flatten target) → n' ≡ length (flatten target')
    pub in_range : AllInRange target → AllInRange target'
    pub none_empty : NoneEmpty target → NoneEmpty target'

  push_head_lem :
      (h : Option (Block A)) (target : List (Block A)) (n : ℕ)
      → AllInRange (listed h [])
      → (t' : List (Block A)) × (n' : ℕ) × (push_head h target n ≡ some (t', n'))
        × Pushed (flatten (listed h [])) target n t' n'
  unfolding push_head flatten
  push_head_lem none target n v = (
    target,
    n,
    refl,
    record {
      holds = sym (append-nil (flatten target));
      counts = λ e. e;
      in_range = λ e. e;
      none_empty = λ e. e;
    },
  )
  push_head_lem (some b) target n v = elim (Bool-cases (is_nil (contents b))) [
    | inl e ↦ (
      target,
      n,
      rw (is_empty-contents v.0) (rw (len-contents v.0) (rw e)),
      record {
        holds = rw (nil_of (contents b) e) (sym (append-nil (flatten target)));
        counts = λ e. e;
        in_range = λ e. e;
        none_empty = λ e. e;
      },
    )
    | inr e ↦
        let (x, xs, p) = cons_of (contents b) e in
        (
          target ++ b ∷ [],
          n + length (contents b),
          rw (is_empty-contents v.0) (rw (len-contents v.0) (rw e)),
          record {
            holds = flatten-append target (b ∷ []);
            counts = λ c.
                rw (flatten-push target b, length-append (flatten target) (contents b))
                  (omega (arith, c));
            in_range = λ i. All-append _ target (b ∷ []) i v;
            none_empty = λ i. All-append _ target (b ∷ []) i (start_lt_end v.0 p, tt);
          },
        )
  ]

  push_tail_lem :
      (bs target : List (Block A)) (n : ℕ)
      → AllInRange bs
      → push_tail bs target n ≡ some (target ++ bs, n + length (flatten bs))
  unfolding push_tail flatten
  push_tail_lem [] target n v = rw (append-nil target, add-zero n)
  push_tail_lem (b ∷ bs) target n v = rw (len-contents v.0) (
      push_tail_lem bs (target ++ b ∷ []) (n + length (contents b)) v.1
      ∙ rw (
        append_assoc target (b ∷ []) bs,
        length-append (contents b) (flatten bs),
        add_assoc n (length (contents b)) (length (flatten bs)),
      ))

  pub finish_lem :
      (m : Merging A)
      → AllInRange (left_side m)
      → AllInRange (right_side m)
      → AllInRange m.target
      → m.target_len ≡ length (flatten m.target)
      → (r : Set A) × (finish m ≡ some r)
        × (flatten r.blocks
            ≡ flatten m.target
              ++ (flatten (listed m.left_head [])
                  ++ (flatten (listed m.right_head []) ++ flatten (m.left_tail ++ m.right_tail))))
        × IsWellFormed r
        × (NoneEmpty m.target → NoneEmpty (m.left_tail ++ m.right_tail) → NoneEmpty r.blocks)
  unfolding finish
  finish_lem m v w u c =
      let (t1, n1, p, a) =
        push_head_lem m.left_head m.target m.target_len (heads m.left_head m.left_tail v) in
      let (t2, n2, q, b) = push_head_lem m.right_head t1 n1 (heads m.right_head m.right_tail w) in
      let i : AllInRange (m.left_tail ++ m.right_tail) =
        All-append _ m.left_tail m.right_tail (tails m.left_head m.left_tail v)
          (tails m.right_head m.right_tail w) in
      (
        record {
          blocks = t2 ++ (m.left_tail ++ m.right_tail);
          len = n2 + length (flatten (m.left_tail ++ m.right_tail));
        },
        rw p (rw q (rw (push_tail_lem (m.left_tail ++ m.right_tail) t2 n2 i))),
        flatten-append t2 (m.left_tail ++ m.right_tail)
            ∙ ap (λ w. w ++ flatten (m.left_tail ++ m.right_tail))
                (b.holds ∙ ap (λ w. w ++ flatten (listed m.right_head [])) a.holds)
            ∙ append_assoc (flatten m.target ++ flatten (listed m.left_head []))
                (flatten (listed m.right_head [])) (flatten (m.left_tail ++ m.right_tail))
            ∙ append_assoc (flatten m.target) (flatten (listed m.left_head []))
                (flatten (listed m.right_head []) ++ flatten (m.left_tail ++ m.right_tail)),
        record {
          in_range = All-append _ t2 (m.left_tail ++ m.right_tail) (b.in_range (a.in_range u)) i;
          counted =
              rw
                (
                  flatten-append t2 (m.left_tail ++ m.right_tail),
                  length-append (flatten t2) (flatten (m.left_tail ++ m.right_tail)),
                )
                (omega (arith, b.counts (a.counts c)));
        },
        λ x y. All-append _ t2 (m.left_tail ++ m.right_tail) (b.none_empty (a.none_empty x)) y,
      )
    where
      heads :
          (h : Option (Block A)) (bs : List (Block A))
          → AllInRange (listed h bs)
          → AllInRange (listed h [])
      heads none bs v = tt
      heads (some b) bs v = (v.0, tt)

      tails :
          (h : Option (Block A)) (bs : List (Block A)) → AllInRange (listed h bs) → AllInRange bs
      tails none bs v = v
      tails (some b) bs v = v.1
