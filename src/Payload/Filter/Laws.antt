-- ===== src/Payload/Filter/Laws.antt =====
-- `Set::filter` presents the first item behind a dropped run to its closure twice. For a closure
-- that answers the same the second time, the result is the filter that presents each item once.
use rtrtr.Base.{
  ℕ, zero, suc, ◌+◌, ◌-◌, ◌≤◌, ◌<◌, ◌≡◌, refl, ap, ap₂, ◌∙◌, sym, inl, inr, Bool, List, [], ◌∷◌,
  ◌++◌, Option, some, length, slice, arith, lt→ltb, ltb-le, lt-cases, Bool-cases, slice_nil,
  append_assoc, append-nil, length-append,
}
use native.Mathlib.Nat.{add-zero, zero-add}
use rtrtr.Sorted.Elem.{All-append}
use rtrtr.Payload.Block.{Block, InRange, contents}
use rtrtr.Payload.Block.Laws.{rest, contents-rest}
use rtrtr.Payload.Set.{Set, flatten, IsWellFormed, AllInRange, NoneEmpty}
use rtrtr.Payload.Set.Laws.{flatten-append}
use rtrtr.Payload.Filter.{keep_run, drop_run, push_run, filter_block, filter_blocks, filter}
use rtrtr.Payload.Filter.Runs.{
  prepend, filter_with, IsStable, keep_run_lem, drop_run_lem, push_run_lem,
}

-- What a loop of `filter` gives: the items of the reference, in blocks behind those so far.
record Filtered {ℓ κ} {A : Type ℓ} {S : Type κ} (t : S × List A) (res : List (Block A)) (n : ℕ)
    (r : Option (S × List (Block A) × ℕ)) : Type (ℓ ⊔ κ) where
  new : List (Block A)
  gives : r ≡ some (t.0, res ++ new, n + length (flatten new))
  items : flatten new ≡ t.1
  in_range : AllInRange new
  none_empty : NoneEmpty new

module _ {ℓ} {A : Type ℓ} where
  push_twice :
      (res bs cs : List (Block A)) (n : ℕ)
      → ◌≡◌ {A = List (Block A) × ℕ}
          ((res ++ bs) ++ cs, (n + length (flatten bs)) + length (flatten cs))
          (res ++ (bs ++ cs), n + length (flatten (bs ++ cs)))
  push_twice res bs cs n =
      rw (append_assoc res bs cs, flatten-append bs cs, length-append (flatten bs) (flatten cs))
        (ap (λ (k : ℕ). (res ++ (bs ++ cs), k)) (omega arith))

module _ {ℓ κ} {A : Type ℓ} {S : Type κ} (retain : S → A → S × Bool) where
  filter_block_step :
      (f : ℕ) (b : Block A) (s : S) (start : ℕ) (res : List (Block A)) (n : ℕ)
      → start < b.end
      → (k : (s1 : S) × (e : ℕ) × (keep_run retain (suc (b.end - start)) b s start ≡ some (s1, e))
          × (start ≤ e)
          × (e ≤ b.end)
          × (filter_with retain s (rest b start)
              ≡ prepend (slice b.pack.items start e) (filter_with retain s1 (rest b (suc e)))))
      → (p : (new : List (Block A)) × (push_run b start k.1 res n
            ≡ some (res ++ new, n + length (flatten new)))
          × (flatten new ≡ slice b.pack.items start k.1)
          × AllInRange new
          × NoneEmpty new)
      → (d : (s2 : S) × (e : ℕ) × (drop_run retain (suc (b.end - suc k.1)) b k.0 (suc k.1)
            ≡ some (s2, e))
          × (suc k.1 ≤ e)
          × (filter_with retain k.0 (rest b (suc k.1)) ≡ filter_with retain s2 (rest b e)))
      → Filtered
          (filter_with retain d.0 (rest b d.1))
          (res ++ p.0)
          (n + length (flatten p.0))
          (filter_block retain f b d.0 d.1 (res ++ p.0) (n + length (flatten p.0)))
      → Filtered
          (filter_with retain s (rest b start))
          res
          n
          (filter_block retain (suc f) b s start res n)
  unfolding filter_block
  filter_block_step f b s start res n lt k p d ih = record {
    new = p.0 ++ ih.new;
    gives =
        rw (lt→ltb start b.end lt, filter_block)
          (rw k.2 (
            rw p.1 (
              rw d.2 (
                rw ih.gives (
                  rw (k.5, d.4)
                    (ap
                      (λ (w : List (Block A) × ℕ).
                        some ((filter_with retain d.0 (rest b d.1)).0, w.0, w.1))
                      (push_twice res p.0 ih.new n)))))));
    items =
        flatten-append p.0 ih.new
        ∙ ap₂ ◌++◌ p.2 ih.items
        ∙ sym
            (ap (λ (w : S × List A). w.1) (k.5 ∙ ap (prepend (slice b.pack.items start k.1)) d.4));
    in_range = All-append _ p.0 ih.new p.3 ih.in_range;
    none_empty = All-append _ p.0 ih.new p.4 ih.none_empty;
  }

  filter_block_lem :
      (f : ℕ) (b : Block A) (s : S) (start : ℕ) (res : List (Block A)) (n : ℕ)
      → IsStable retain
      → InRange b
      → b.end - start < f
      → Filtered (filter_with retain s (rest b start)) res n (filter_block retain f b s start res n)
  unfolding filter_block filter_with flatten
  filter_block_lem zero b s start res n st v k = absurd (omega arith)
  filter_block_lem (suc f) b s start res n st v k = elim (lt-cases start b.end) [
    | inr ge ↦ record {
      new = [];
      gives =
          rw (ltb-le start b.end ge, filter_block)
            (rw (slice_nil b.pack.items start b.end ge, append-nil res, add-zero n));
      items = rw (slice_nil b.pack.items start b.end ge);
      in_range = tt;
      none_empty = tt;
    }
    | inl lt ↦
        let r = keep_run_lem retain (suc (b.end - start)) b s start v (omega arith) (omega arith) in
        let p = push_run_lem b start r.1 res n r.3 (omega (arith, r.4, v.bounded)) in
        let d = drop_run_lem retain (suc (b.end - suc r.1)) b r.0 (suc r.1) st v (omega arith) in
        filter_block_step f b s start res n lt r p d (
          filter_block_lem f b d.0 d.1 (res ++ p.0) (n + length (flatten p.0)) st v
            (omega (arith, r.3, d.3)))
  ]

  filter_with-append :
      (s : S) (xs ys : List A)
      → filter_with retain s (xs ++ ys)
        ≡ prepend (filter_with retain s xs).1 (filter_with retain (filter_with retain s xs).0 ys)
  unfolding filter_with
  filter_with-append s [] ys = refl
  filter_with-append s (x ∷ xs) ys = elim (Bool-cases (retain s x).1) [
    | inl e ↦ rw e (ap (prepend (x ∷ [])) (filter_with-append (retain s x).0 xs ys))
    | inr e ↦ rw e (filter_with-append (retain s x).0 xs ys)
  ]

  filter_blocks_step :
      (b : Block A) (bs : List (Block A)) (s : S) (res : List (Block A)) (n : ℕ)
      → (h : Filtered
          (filter_with retain s (contents b))
          res
          n
          (filter_block retain (suc (b.end - b.start)) b s b.start res n))
      → Filtered
          (filter_with retain (filter_with retain s (contents b)).0 (flatten bs))
          (res ++ h.new)
          (n + length (flatten h.new))
          (filter_blocks retain bs
            (filter_with retain s (contents b)).0
            (res ++ h.new)
            (n + length (flatten h.new)))
      → Filtered
          (filter_with retain s (flatten (b ∷ bs)))
          res
          n
          (filter_blocks retain (b ∷ bs) s res n)
  unfolding filter_blocks flatten
  filter_blocks_step b bs s res n h ih = record {
    new = h.new ++ ih.new;
    gives = rw h.gives (
        rw ih.gives (
          rw (filter_with-append s (contents b) (flatten bs)) (
            ap
              (λ (w : List (Block A) × ℕ). some (
                (filter_with retain (filter_with retain s (contents b)).0 (flatten bs)).0,
                w.0,
                w.1,
              ))
              (push_twice res h.new ih.new n))));
    items =
        flatten-append h.new ih.new
        ∙ ap₂ ◌++◌ h.items ih.items
        ∙ sym (ap (λ (w : S × List A). w.1) (filter_with-append s (contents b) (flatten bs)));
    in_range = All-append _ h.new ih.new h.in_range ih.in_range;
    none_empty = All-append _ h.new ih.new h.none_empty ih.none_empty;
  }

  filter_blocks_lem :
      (bs : List (Block A)) (s : S) (res : List (Block A)) (n : ℕ)
      → IsStable retain
      → AllInRange bs
      → Filtered (filter_with retain s (flatten bs)) res n (filter_blocks retain bs s res n)
  unfolding filter_blocks flatten filter_with
  filter_blocks_lem [] s res n st v = record {
    new = [];
    gives = rw (append-nil res, add-zero n);
    items = refl;
    in_range = tt;
    none_empty = tt;
  }
  filter_blocks_lem (b ∷ bs) s res n st v =
      let h : Filtered (filter_with retain s (contents b)) res n
          (filter_block retain (suc (b.end - b.start)) b s b.start res n) =
        rw contents-rest
          (filter_block_lem (suc (b.end - b.start)) b s b.start res n st v.0 (omega arith)) in
      filter_blocks_step b bs s res n h (filter_blocks_lem bs _ (res ++ h.new) _ st v.1)

  -- For a closure that answers the same when an item that it retained is presented again at once,
  -- `filter` of a set with the blocks in range does not panic and ends; it gives the state and
  -- the items that presenting each item once gives, no empty block, and the right length.
  pub filter_refines :
      (s : S) (set : Set A)
      → IsStable retain
      → IsWellFormed set
      → (r : Set A) × (filter retain s set
          ≡ some ((filter_with retain s (flatten set.blocks)).0, r))
        × (flatten r.blocks ≡ (filter_with retain s (flatten set.blocks)).1)
        × IsWellFormed r
        × NoneEmpty r.blocks
  unfolding filter
  filter_refines s set st v =
      let h = filter_blocks_lem set.blocks s [] 0 st v.in_range in
      (
        record { blocks = h.new; len = length (flatten h.new) },
        rw (h.gives, filter) (rw (zero-add (length (flatten h.new)))),
        h.items,
        record { in_range = h.in_range; counted = refl },
        h.none_empty,
      )
