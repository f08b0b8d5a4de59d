-- ===== src/Targets/Rtr/History.antt =====
-- src/targets/rtr.rs: the diffs that a source keeps lead to its current data.
use rtrtr.Base.{
  ℕ, suc, ◌+◌, ◌≤◌, ◌≡◌, ◌≢◌, ◌⊎◌, refl, ap, ◌∙◌, sym, subst, inl, inr, Bool, true, false, not,
  ◌&&◌, List, [], ◌∷◌, Option, none, some, length, ◌>>=◌, arith,
}
use rtrtr.Order.{Order, elem, IsSorted}
use rtrtr.Sorted.Elem.{is_eq_self, sorted_ext}
use rtrtr.Sorted.Without.{without, elem-without}
use rtrtr.Payload.Set.{Set, flatten, IsWellFormed}
use rtrtr.Payload.Diff.{Diff, no_items, is_empty}
use rtrtr.Payload.Diff.From.{IsDiff, diff_from-IsDiff}
use rtrtr.Payload.Update.{new}
use rtrtr.Comms.Status.{payload}
use rtrtr.Targets.Rtr.{
  Protocol, Source, ListenerMetrics, extend_diffs, update, update_current, store,
}
use rtrtr.Targets.Rtr.Serve.{Serve, AllSortedPast, Extended, extend_diffs-Extended}

module _ (p : Protocol) {A : Type 0} ⦃o : Order A⦄ where
  no_items_nil : (xs : List A) → no_items xs ≡ true → xs ≡ []
  unfolding no_items
  no_items_nil [] h = refl
  no_items_nil (x ∷ xs) h = cc h

  pub without_self : (zs : List A) → without zs zs ≡ []
  without_self zs = no_elem (without zs zs) λ a. elem-without a zs zs ∙ never (elem a zs)
    where
      never : (p : Bool) → not p && p ≡ false
      never p = ground arith

      no_elem : (ws : List A) → ((a : A) → elem a ws ≡ false) → ws ≡ []
      no_elem [] h = refl
      no_elem (w ∷ ws) h = ground (arith, h w, is_eq_self w)

  -- An empty diff stands for no change, and any other for one.
  is_empty-IsDiff :
      (xs ys : List A) (d : Diff A)
      → IsSorted xs
      → IsSorted ys
      → IsDiff xs ys d
      → ((is_empty d ≡ true) → ys ≡ xs) × ((is_empty d ≡ false) → ys ≢ xs)
  unfolding is_empty
  is_empty-IsDiff xs ys d s t h = (
    λ e.
        let (p, q) = both (no_items d.announced.items) (no_items d.withdrawn.items) e in
        sorted_ext ys xs t s (λ a.
          alike (elem a xs) (elem a ys)
            (sym (elem-without a xs ys)
              ∙ ap (elem a) (sym h.announces ∙ no_items_nil d.announced.items p))
            (sym (elem-without a ys xs)
              ∙ ap (elem a) (sym h.withdraws ∙ no_items_nil d.withdrawn.items q))),
    λ e same. cc (
      e,
      nothing d.announced.items (h.announces ∙ rw same (without_self xs)),
      nothing d.withdrawn.items (h.withdraws ∙ rw same (without_self xs)),
      and_true,
    ),
  )
    where
      both : (p q : Bool) → p && q ≡ true → (p ≡ true) × (q ≡ true)
      both p q h = ground arith

      alike : (p q : Bool) → not p && q ≡ false → not q && p ≡ false → q ≡ p
      alike p q h k = ground arith

      nothing : (zs : List A) → zs ≡ [] → no_items zs ≡ true
      nothing zs e = unfold no_items in rw e refl

      and_true : true && true ≡ true
      and_true = refl

  -- What a source keeps of the versions before the current one, given from the newest on: as many
  -- diffs as fit in, and always one.
  pub record IsHistory (past : List (p.Serial × List A)) (cur : Set A) (s : Source p A)
      : Type 0 where
    pub loaded : s.source_data.current ≡ some cur
    pub well_formed : IsWellFormed cur
    pub sorted : IsSorted (flatten cur.blocks)
    pub past_sorted : AllSortedPast p past
    pub serves : Serve p (flatten cur.blocks) past s.source_data.diffs
    pub bounded : (length s.source_data.diffs ≤ 1) ⊎ (length s.source_data.diffs ≤ s.history_size)
    pub complete :
        (length s.source_data.diffs ≡ length past) ⊎ (s.history_size ≤ length s.source_data.diffs)

  -- The outcome of `update` for a source with data: nothing if the items are the same, and else
  -- the new data under the next serial number, with the old data as a new past version.
  abbrev pub Updated :
      List (p.Serial × List A)
      → Set A
      → Source p A
      → ListenerMetrics p
      → Set A
      → Option (Source p A × ListenerMetrics p × Bool)
      → Type 0
  Updated past cur s m set outcome =
      ((flatten set.blocks ≡ flatten cur.blocks) × (outcome ≡ some (s, m, false)))
      ⊎ ((flatten set.blocks ≢ flatten cur.blocks)
          × (r : Source p A) × (outcome
              ≡ some (
                r,
                record { serial = p.serial r.source_data.state; payload_size = set.len },
                true,
              ))
          × (r.source_data.state ≡ p.inc s.source_data.state)
          × IsHistory ((p.serial s.source_data.state, flatten cur.blocks) ∷ past) set r)

  -- For a source with a history and an update with a well-formed set in ascending order, `update`
  -- does not panic. If the set has the items of the current one, the source and the metrics stay
  -- and nothing is reported; else the serial number is incremented, the set becomes the current
  -- one, the old one joins the history, the metrics are set, and the change is reported.
  pub update-Updated :
      (past : List (p.Serial × List A)) (cur : Set A) (s : Source p A) (m : ListenerMetrics p)
      (set : Set A)
      → IsHistory past cur s
      → IsWellFormed set
      → IsSorted (flatten set.blocks)
      → Updated past cur s m set (update p s m (payload (new set)))
  unfolding update update_current
  update-Updated past cur s m set h w t =
      let (d, e, i) = diff_from-IsDiff set cur w h.well_formed t h.sorted in
      let x =
        extend_diffs-Extended p s.history_size (flatten cur.blocks) (flatten set.blocks) d past
          ((p.serial s.source_data.state, d) ∷ []) s.source_data.diffs h.past_sorted h.sorted t i
          h.serves in
      subst (Updated past cur s m set) (sym on_current)
        (rw (e, update_current) (go (is_empty d) d refl i x))
    where
      on_current : update p s m (payload (new set)) ≡ update_current p s m cur set
      on_current =
          ap
            (λ c. elim c as (λ _. Option (Source p A × ListenerMetrics p × Bool)) [
              | none ↦ some (
                  store p s
                    (record {
                      state = s.source_data.state;
                      current = some set;
                      diffs = [];
                      timing = s.timing;
                    })
                    set)
              | some current ↦ update_current p s m current set
            ])
            h.loaded

      go :
          (b : Bool) (d : Diff A)
          → is_empty d ≡ b
          → IsDiff (flatten cur.blocks) (flatten set.blocks) d
          → Extended p s.history_size
              (flatten set.blocks)
              past
              ((p.serial s.source_data.state, d) ∷ [])
              s.source_data.diffs
              (extend_diffs p s.history_size d
                ((p.serial s.source_data.state, d) ∷ [])
                s.source_data.diffs)
          → Updated past cur s m set (elim b [
            | true ↦ some (s, m, false)
            | false ↦ do
              diffs ←
                  extend_diffs p s.history_size d
                    ((p.serial s.source_data.state, d) ∷ [])
                    s.source_data.diffs
              some (
                  store p s
                    (record {
                      state = p.inc s.source_data.state;
                      current = some set;
                      diffs = diffs;
                      timing = s.timing;
                    })
                    set)
          ])
      go true d b i x =
          inl ((is_empty-IsDiff (flatten cur.blocks) (flatten set.blocks) d h.sorted t i).0 b, refl)
      go false d b i (more, f, v, room, full) = rw f (
          inr (
            (is_empty-IsDiff (flatten cur.blocks) (flatten set.blocks) d h.sorted t i).1 b,
            record s {
              source_data = record {
                state = p.inc s.source_data.state;
                current = some set;
                diffs = (p.serial s.source_data.state, d) ∷ more;
                timing = s.timing;
              };
            },
            refl,
            refl,
            record {
              loaded = refl;
              well_formed = w;
              sorted = t;
              past_sorted = (h.sorted, h.past_sorted);
              serves = (refl, i, v);
              bounded = elim room [ inl z ↦ inl (omega arith) | inr z ↦ inr (omega arith) ];
              complete =
                  as_many (length more) (length s.source_data.diffs) (length past) full h.complete;
            },
          ))
        where
          as_many :
              (n l q : ℕ)
              → (n ≡ l) ⊎ (s.history_size ≤ 1 + n)
              → (l ≡ q) ⊎ (s.history_size ≤ l)
              → (suc n ≡ suc q) ⊎ (s.history_size ≤ suc n)
          as_many n l q (inl e) (inl f) = inl (omega arith)
          as_many n l q (inl e) (inr f) = inr (omega arith)
          as_many n l q (inr e) f = inr (omega arith)
