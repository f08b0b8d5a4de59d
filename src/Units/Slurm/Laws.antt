-- ===== src/Units/Slurm/Laws.antt =====
-- src/units/slurm.rs: what the exceptions of a file, and of several, do to the set of items.
use rtrtr.Base.{
  ℕ, suc, ◌-◌, ◌≤◌, ◌≡◌, refl, ap, ◌∙◌, sym, subst, Bool, true, false, not, ◌||◌, List, [], ◌∷◌,
  some, length, All, arith, if◌then◌else◌, Ordering,
}
use Prim.Native.Nat.Ordering.{lt, eq, gt}
use rtrtr.Order.{Order, is_eq, elem, IsSorted}
use rtrtr.Sorted.Union.{union, union-IsSorted}
use rtrtr.Sorted.Without.{select, select-IsSorted}
use rtrtr.Payload.Pack.{Pack, PackBuilder, insert_unchecked, sort}
use rtrtr.Payload.Pack
use rtrtr.Payload.Pack.Laws.{elem-sort, sort-IsSorted, Distinct}
use rtrtr.Payload.Set.{Set, flatten, IsWellFormed, NoneEmpty}
use rtrtr.Payload.Filter.{filter}
use rtrtr.Payload.Filter.Laws.{filter_refines}
use rtrtr.Payload.Filter.Runs.{filter_with}
use rtrtr.Payload.Builder.{finalize, to_builder, insert_pack}
use rtrtr.Payload.Builder.Laws.{finalize-union_all}
use rtrtr.Payload.Diff.Apply.{
  set_and_pack, set_and_pack-InRange, set_and_pack-Sorted, set_and_pack-union,
}
use rtrtr.Payload.Diff.From.{elem-insert_unchecked, insert_unchecked-Distinct}
use rtrtr.Units.Slurm.{Slurm, Content, minus, retain, apply, apply_files, from_file, insert_all}

module _ {A : Type 0} ⦃o : Order A⦄ where
  length-select : (p : A → Bool) (xs : List A) → length (select p xs) ≤ length xs
  unfolding select
  length-select p [] = omega arith
  length-select p (x ∷ xs) =
      elim (p x) as (λ b. length (if b then x ∷ select p xs else select p xs) ≤ suc (length xs)) [
        | true ↦ omega (arith, length-select p xs)
        | false ↦ omega (arith, length-select p xs)
      ]

  length-union : (xs ys : List A) → length xs ≤ length (union xs ys)
  unfolding union
  length-union [] ys = omega arith
  length-union (x ∷ xs) [] = omega arith
  length-union (x ∷ xs) (y ∷ ys) =
      go (o.cmp x y) (length-union xs (y ∷ ys)) (length-union xs ys) (length-union (x ∷ xs) ys)
    where
      go :
          (c : Ordering)
          → length xs ≤ length (union xs (y ∷ ys))
          → length xs ≤ length (union xs ys)
          → suc (length xs) ≤ length (union (x ∷ xs) ys)
          → suc (length xs)
            ≤ length (elim c as (λ _. List A) [
              | lt ↦ x ∷ union xs (y ∷ ys)
              | eq ↦ x ∷ union xs ys
              | gt ↦ y ∷ union (x ∷ xs) ys
            ])
      go lt a b c = omega arith
      go eq a b c = omega arith
      go gt a b c = omega arith

module _ {A : Type 0} ⦃o : Order A⦄ (slurm : Slurm A) where
  filter_with-retain :
      (f : slurm.Filters) (xs : List A)
      → filter_with (retain slurm f) tt xs ≡ (tt, select (λ a. not (slurm.drop_payload f a)) xs)
  unfolding filter_with retain select
  filter_with-retain f [] = refl
  filter_with-retain f (x ∷ xs) = rw (filter_with-retain f xs) refl

  minus-le : (a b : ℕ) → b ≤ a → minus a b ≡ some (a - b)
  unfolding minus
  minus-le a b h = ground arith

  -- The specification of `Content::apply`: first the filters, then the assertions.
  unfoldable pub excepted : Content slurm → List A → List A
  excepted c xs = union (select (λ a. not (slurm.drop_payload c.filters a)) xs) c.assertions.items

  -- For a well-formed set in ascending order and assertions in ascending order, `Content::apply`
  -- does not panic, its subtractions for the log included, and gives a well-formed set without
  -- empty blocks: the items that no filter drops, and the assertions.
  pub apply-excepted :
      (c : Content slurm) (set : Set A)
      → IsSorted c.assertions.items
      → IsWellFormed set
      → IsSorted (flatten set.blocks)
      → (r : Set A) × (added removed : ℕ) × (apply slurm c set ≡ some (r, added, removed))
        × (flatten r.blocks ≡ excepted c (flatten set.blocks))
        × IsWellFormed r
        × NoneEmpty r.blocks
  unfolding apply excepted
  apply-excepted c set a v s =
      let (f, e, items, wf, _) =
        filter_refines (retain slurm c.filters) tt set (unfold retain in λ q x h. refl) v in
      let kept : flatten f.blocks
          ≡ select (λ x. not (slurm.drop_payload c.filters x)) (flatten set.blocks) =
        items ∙ ap (λ q. q.1) (filter_with-retain c.filters (flatten set.blocks)) in
      let ascending : IsSorted (flatten f.blocks) =
        subst IsSorted (sym kept)
          (select-IsSorted (λ x. not (slurm.drop_payload c.filters x)) (flatten set.blocks) s) in
      let (r, g, all, wf1, full) =
        finalize-union_all (record { blocks = set_and_pack f c.assertions })
          (set_and_pack-InRange f c.assertions wf)
          (set_and_pack-Sorted f c.assertions ascending a) in
      let out : flatten r.blocks ≡ excepted c (flatten set.blocks) =
        all
        ∙ set_and_pack-union f c.assertions ascending a
        ∙ ap (λ xs. union xs c.assertions.items) kept in
      (
        r,
        r.len - f.len,
        set.len - f.len,
        run f r _ e g
            (lengths r f (length (union (flatten f.blocks) c.assertions.items)) wf1.counted
              wf.counted (ap length (all ∙ set_and_pack-union f c.assertions ascending a))
              (length-union (flatten f.blocks) c.assertions.items))
            (fewer f (length (flatten set.blocks)) v.counted wf.counted (
              subst (λ xs. length xs ≤ length (flatten set.blocks)) (sym kept)
                (length-select (λ x. not (slurm.drop_payload c.filters x)) (flatten set.blocks)))),
        out,
        wf1,
        full,
      )
    where
      lengths :
          (r f : Set A) (n : ℕ)
          → r.len ≡ length (flatten r.blocks)
          → f.len ≡ length (flatten f.blocks)
          → length (flatten r.blocks) ≡ n
          → length (flatten f.blocks) ≤ n
          → f.len ≤ r.len
      lengths r f n p q e h = omega arith

      fewer :
          (f : Set A) (n : ℕ)
          → set.len ≡ n
          → f.len ≡ length (flatten f.blocks)
          → length (flatten f.blocks) ≤ n
          → f.len ≤ set.len
      fewer f n p q h = omega arith

      run :
          (f r : Set A) (u : Unit {0})
          → filter (retain slurm c.filters) tt set ≡ some (u, f)
          → finalize (insert_pack (to_builder f) c.assertions) ≡ some r
          → f.len ≤ r.len
          → f.len ≤ set.len
          → apply slurm c set ≡ some (r, r.len - f.len, set.len - f.len)
      run f r u e g h k =
          rw (e, apply) (rw g (rw (minus-le r.len f.len h) (rw (minus-le set.len f.len k) refl)))

  -- The files of an `ExceptionSet` one after the other.
  unfoldable pub excepted_all : List (Content slurm) → List A → List A
  excepted_all [] xs = xs
  excepted_all (c ∷ cs) xs = excepted_all cs (excepted c xs)

  abbrev pub AllContentsSorted : List (Content slurm) → Type 0
  AllContentsSorted cs = All (λ c. IsSorted c.assertions.items) cs

  -- For a well-formed set in ascending order and files whose assertions are in ascending order,
  -- `ExceptionSet::apply` does not panic, and gives a well-formed set of the items that the
  -- filters and the assertions of the files, taken in their order, make of it.
  pub apply_files-excepted_all :
      (cs : List (Content slurm)) (set : Set A)
      → AllContentsSorted cs
      → IsWellFormed set
      → IsSorted (flatten set.blocks)
      → (r : Set A) × (apply_files slurm cs set ≡ some r)
        × (flatten r.blocks ≡ excepted_all cs (flatten set.blocks))
        × IsWellFormed r
  unfolding apply_files excepted_all
  apply_files-excepted_all [] set a v s = (set, refl, refl, v)
  apply_files-excepted_all (c ∷ cs) set a v s =
      let (t, n, m, e, items, wf, _) = apply-excepted c set a.0 v s in
      let (r, f, all, wf1) =
        apply_files-excepted_all cs t a.1 wf
          (subst IsSorted (sym items) (excepted-IsSorted c (flatten set.blocks) a.0 s)) in
      (r, rw (e, apply_files) f, all ∙ ap (excepted_all cs) items, wf1)
    where
      excepted-IsSorted :
          (c : Content slurm) (xs : List A)
          → IsSorted c.assertions.items
          → IsSorted xs
          → IsSorted (excepted c xs)
      excepted-IsSorted c xs a s =
          unfold excepted in
          union-IsSorted (select (λ x. not (slurm.drop_payload c.filters x)) xs) c.assertions.items
            (select-IsSorted (λ x. not (slurm.drop_payload c.filters x)) xs s) a

  insert_all_lem :
      (b : PackBuilder A) (xs : List A)
      → Distinct b.items
      → Distinct (insert_all slurm b xs).items
        × ((a : A) → elem a (insert_all slurm b xs).items ≡ elem a xs || elem a b.items)
  unfolding insert_all
  insert_all_lem b [] d = (d, λ a. refl)
  insert_all_lem b (x ∷ xs) d =
      let (h, k) = insert_all_lem (insert_unchecked b x) xs (insert_unchecked-Distinct x b d) in
      (
        h,
        λ a.
            k a
            ∙ ap (λ w. elem a xs || w) (elem-insert_unchecked a x b)
            ∙ or_swap (elem a xs) (is_eq a x) (elem a b.items),
      )
    where
      or_swap : (p q r : Bool) → (p || (q || r)) ≡ (q || p) || r
      or_swap p q r = ground arith

  -- The assertions of a file, in any order and with duplicates, become a pack in ascending order
  -- with the same items.
  pub from_file-assertions :
      (file : slurm.SlurmFile)
      → IsSorted (from_file slurm file).assertions.items
        × ((a : A)
            → elem a (from_file slurm file).assertions.items ≡ elem a (slurm.iter_payload file))
  unfolding from_file Pack.finalize
  from_file-assertions file =
      let b = insert_all slurm Pack.empty (slurm.iter_payload file) in
      let (d, e) = insert_all_lem Pack.empty (slurm.iter_payload file) tt in
      (
        sort-IsSorted b.items d,
        λ a. elem-sort a b.items ∙ e a ∙ or_false (elem a (slurm.iter_payload file)),
      )
    where
      or_false : (p : Bool) → p || false ≡ p
      or_false p = ground arith
