-- ===== src/Payload/Merge/Loop.antt =====
-- The loop of `Set::merge`: its invariant, and that it ends with one side used up.
use rtrtr.Base.{
  ℕ, zero, suc, ◌+◌, ◌<◌, ◌≡◌, refl, ap, ap₂, ◌∙◌, sym, ◌⊎◌, inl, inr, List, [], ◌∷◌, ◌++◌, Option,
  none, some, length, arith, append_assoc, length-append,
}
use mathlib.Core.Option.{some-injective}
use rtrtr.Order.{Order}
use rtrtr.Sorted.Elem.{All-append}
use rtrtr.Sorted.Union.{union}
use rtrtr.Payload.Block.{Block, InRange, contents}
use rtrtr.Payload.Block
use rtrtr.Payload.Block.Laws.{len-contents}
use rtrtr.Payload.Set.{flatten, AllInRange, NoneEmpty}
use rtrtr.Payload.Set.Laws.{flatten-push, listed}
use rtrtr.Payload.Merge.{Merging, skip_empty, weight, merge_round, merge_loop}
use rtrtr.Payload.Merge.Advance.{IsRound}
use rtrtr.Payload.Merge.Heads.{merge_round-IsRound}
use rtrtr.Payload.Merge.Skipping.{Ready, Skipped, skip_empty-Skipped}

abbrev pub left_side {ℓ} : {A : Type ℓ} → Merging A → List (Block A)
left_side m = listed m.left_head m.left_tail

abbrev pub right_side {ℓ} : {A : Type ℓ} → Merging A → List (Block A)
right_side m = listed m.right_head m.right_tail

module _ {ℓ} {A : Type ℓ} ⦃o : Order A⦄ where
  -- The items pushed, and the merge of those still to come, are what the whole merge gives.
  pub record Inv (goal : List A) (m : Merging A) : Type ℓ where
    pub sum : flatten m.target ++ union (flatten (left_side m)) (flatten (right_side m)) ≡ goal
    pub counted : m.target_len ≡ length (flatten m.target)
    pub left_in_range : AllInRange (left_side m)
    pub right_in_range : AllInRange (right_side m)
    pub target_in_range : AllInRange m.target
    pub left_drained : m.left_head ≡ none → m.left_tail ≡ []
    pub right_drained : m.right_head ≡ none → m.right_tail ≡ []
    pub left_none_empty : NoneEmpty m.left_tail
    pub right_none_empty : NoneEmpty m.right_tail
    pub target_none_empty : NoneEmpty m.target

  -- One side is used up.
  abbrev pub Over : Merging A → Type ℓ
  Over m =
      ((m.left_head ≡ none) × (m.left_tail ≡ [])) ⊎ ((m.right_head ≡ none) × (m.right_tail ≡ []))

  ready_drained : (h : Option (Block A)) (bs : List (Block A)) → Ready h bs → h ≡ none → bs ≡ []
  ready_drained h bs (inl (_, e)) _ = e
  ready_drained h bs (inr (b, x, xs, p, _)) e = cc

  skipped :
      Merging A → Option (Block A) → List (Block A) → Option (Block A) → List (Block A) → Merging A
  skipped m lh lt rh rt = record m {
    left_head = lh;
    left_tail = lt;
    right_head = rh;
    right_tail = rt;
  }

  skipped-Inv :
      (goal : List A) (m : Merging A) (lh : Option (Block A)) (lt : List (Block A))
      (rh : Option (Block A)) (rt : List (Block A))
      → Inv goal m
      → Skipped m.left_head m.left_tail lh lt
      → Skipped m.right_head m.right_tail rh rt
      → Inv goal (skipped m lh lt rh rt)
  unfolding skipped
  skipped-Inv goal m lh lt rh rt v p q = record {
    sum = ap (◌++◌ (flatten m.target)) (ap₂ union p.same q.same) ∙ v.sum;
    counted = v.counted;
    left_in_range = p.in_range;
    right_in_range = q.in_range;
    target_in_range = v.target_in_range;
    left_drained = ready_drained lh lt p.ready;
    right_drained = ready_drained rh rt q.ready;
    left_none_empty = p.none_empty;
    right_none_empty = q.none_empty;
    target_none_empty = v.target_none_empty;
  }

  pushed : Merging A → Block A → Block A → Block A → ℕ → Merging A
  pushed m new l r n = record m {
    left_head = some l;
    right_head = some r;
    target = m.target ++ new ∷ [];
    target_len = m.target_len + n;
  }

  pushed-Inv :
      (goal : List A) (m : Merging A) (l r new l' r' : Block A)
      → m.left_head ≡ some l
      → m.right_head ≡ some r
      → Inv goal m
      → IsRound l r new l' r'
      → Inv goal (pushed m new l' r' (length (contents new)))
  unfolding pushed flatten
  pushed-Inv goal m l r new l' r' p q v k = record {
    sum = rw flatten-push (
        append_assoc (flatten m.target) (contents new) _
        ∙ ap (◌++◌ (flatten m.target)) (sym (k.splits (flatten m.left_tail) (flatten m.right_tail)))
        ∙ rw (p, q) at v.sum);
    counted =
        rw (flatten-push, length-append (flatten m.target) (contents new))
          (ap (λ (t : ℕ). t + length (contents new)) v.counted);
    left_in_range = (k.left_in_range, (rw p at v.left_in_range).1);
    right_in_range = (k.right_in_range, (rw q at v.right_in_range).1);
    target_in_range = All-append _ m.target (new ∷ []) v.target_in_range (k.new_in_range, tt);
    left_drained = λ e. cc;
    right_drained = λ e. cc;
    left_none_empty = v.left_none_empty;
    right_none_empty = v.right_none_empty;
    target_none_empty = All-append _ m.target (new ∷ []) v.target_none_empty (k.nonempty, tt);
  }

  loop_left_over :
      (f : ℕ) (m : Merging A) {lt rt : List (Block A)} {rh : Option (Block A)}
      → skip_empty m.left_head m.left_tail ≡ some (none, lt)
      → skip_empty m.right_head m.right_tail ≡ some (rh, rt)
      → merge_loop (suc f) m ≡ some (skipped m none lt rh rt)
  unfolding merge_loop skipped
  loop_left_over f m p q = rw p (rw q)

  loop_right_over :
      (f : ℕ) (m : Merging A) {lt rt : List (Block A)} {l : Block A}
      → skip_empty m.left_head m.left_tail ≡ some (some l, lt)
      → skip_empty m.right_head m.right_tail ≡ some (none, rt)
      → merge_loop (suc f) m ≡ some (skipped m (some l) lt none rt)
  unfolding merge_loop skipped
  loop_right_over f m p q = rw p (rw q)

  loop_round :
      (f : ℕ) (m : Merging A) {lt rt : List (Block A)} {l r new l' r' : Block A} {n : ℕ}
      → skip_empty m.left_head m.left_tail ≡ some (some l, lt)
      → skip_empty m.right_head m.right_tail ≡ some (some r, rt)
      → merge_round l r ≡ some (new, l', r')
      → Block.len new ≡ some n
      → merge_loop (suc f) m ≡ merge_loop f (pushed (skipped m (some l) lt (some r) rt) new l' r' n)
  unfolding merge_loop skipped pushed
  loop_round f m p q g h = rw p (rw q (rw g (rw h)))

  unfoldable pub Ends : List A → Option (Merging A) → Type ℓ
  Ends goal res = (m : Merging A) × (res ≡ some m) × Inv goal m × Over m

  pub merge_loop-Ends :
      (f : ℕ) (goal : List A) (m : Merging A)
      → Inv goal m
      → weight (left_side m) + weight (right_side m) < f
      → Ends goal (merge_loop f m)
  unfolding Ends skipped pushed weight
  merge_loop-Ends zero goal m v h = elim h [ ]
  merge_loop-Ends (suc f) goal m v h =
      let (lh, lt, p, a) =
        skip_empty-Skipped m.left_head m.left_tail v.left_in_range v.left_none_empty
          v.left_drained in
      let (rh, rt, q, b) =
        skip_empty-Skipped m.right_head m.right_tail v.right_in_range v.right_none_empty
          v.right_drained in
      go lh lt rh rt p a q b a.ready b.ready (λ m' v' h'. merge_loop-Ends f goal m' v' h')
    where
      go :
          (lh : Option (Block A)) (lt : List (Block A)) (rh : Option (Block A))
          (rt : List (Block A))
          → skip_empty m.left_head m.left_tail ≡ some (lh, lt)
          → Skipped m.left_head m.left_tail lh lt
          → skip_empty m.right_head m.right_tail ≡ some (rh, rt)
          → Skipped m.right_head m.right_tail rh rt
          → Ready lh lt
          → Ready rh rt
          → ((m' : Merging A)
              → Inv goal m'
              → weight (left_side m') + weight (right_side m') < f
              → Ends goal (merge_loop f m'))
          → Ends goal (merge_loop (suc f) m)
      go none lt rh rt p a q b (inl (_, e)) _ _ = (
        skipped m none lt rh rt,
        loop_left_over f m p q,
        skipped-Inv goal m none lt rh rt v a b,
        inl (refl, e),
      )
      go none lt rh rt p a q b (inr (_, _, _, e, _)) _ _ = cc
      go (some l) lt none rt p a q b _ (inl (_, e)) _ = (
        skipped m (some l) lt none rt,
        loop_right_over f m p q,
        skipped-Inv goal m (some l) lt none rt v a b,
        inr (refl, e),
      )
      go (some l) lt none rt p a q b _ (inr (_, _, _, e, _)) _ = cc
      go (some l) lt (some r) rt p a q b (inl (e, _)) _ _ = cc
      go (some l) lt (some r) rt p a q b (inr _) (inl (e, _)) _ = cc
      go (some l) lt (some r) rt p a q b (inr (l0, x, xs, e, c)) (inr (r0, y, ys, e', d)) again =
          let c' : contents l ≡ x ∷ xs = rw (some-injective l l0 e) c in
          let d' : contents r ≡ y ∷ ys = rw (some-injective r r0 e') d in
          let (new, l', r', g, k) = merge_round-IsRound l r a.in_range.0 b.in_range.0 c' d' in
          rw (loop_round f m p q g (len-contents k.new_in_range)) (
            again (pushed (skipped m (some l) lt (some r) rt) new l' r' (length (contents new)))
              (pushed-Inv goal (skipped m (some l) lt (some r) rt) l r new l' r' refl refl
                (skipped-Inv goal m (some l) lt (some r) rt v a b) k)
              (omega (arith, a.lighter, b.lighter, k.shrinks, h)))
