-- ===== src/Payload/Diff/Tracks.antt =====
-- src/payload.rs: what `DiffBuilder::push_diff` does with a change.
use rtrtr.Base.{
  ◌≡◌, refl, ap, ◌∙◌, sym, inl, inr, Bool, true, false, not, ◌&&◌, ◌||◌, List, [], ◌∷◌, arith,
  Bool-cases,
}
use rtrtr.Order.{Order, is_eq, elem}
use rtrtr.Sorted.Elem.{eq_of_is_eq}
use rtrtr.Payload.Types.{ok, Action, announce, withdraw}
use rtrtr.Payload.Pack.{insert, remove, erase}
use rtrtr.Payload.Pack.Laws.{Distinct, elem-erase, erase-Distinct}
use rtrtr.Payload.Diff.{DiffBuilder, push_change, push_changes}

module _ {ℓ} {A : Type ℓ} ⦃o : Order A⦄ where
  -- The builder holds the difference from a list to the items for which a test holds.
  pub record Tracks (xs : List A) (m : A → Bool) (b : DiffBuilder A) : Type ℓ where
    pub announces : (a : A) → elem a b.announced.items ≡ m a && not (elem a xs)
    pub withdraws : (a : A) → elem a b.withdrawn.items ≡ elem a xs && not (m a)
    pub distinct_announced : Distinct b.announced.items
    pub distinct_withdrawn : Distinct b.withdrawn.items

  -- The test after a change, and after several.
  abbrev pub changed : (A → Bool) → A → Action → A → Bool
  changed m a announce z = is_eq z a || m z
  changed m a withdraw z = not (is_eq z a) && m z

  abbrev pub after : (A → Bool) → List (A × Action) → A → Bool
  after m [] = m
  after m ((a, action) ∷ rest) = after (changed m a action) rest

  -- Announced is what is not there, withdrawn what is.
  abbrev Fits : (A → Bool) → A → Action → Type 0
  Fits m a announce = m a ≡ false
  Fits m a withdraw = m a ≡ true

  abbrev pub AllFit : (A → Bool) → List (A × Action) → Type 0
  AllFit m [] = Unit
  AllFit m ((a, action) ∷ rest) = Fits m a action × AllFit (changed m a action) rest

  push_announce-Tracks :
      (xs : List A) (m : A → Bool) (b : DiffBuilder A) (a : A)
      → Tracks xs m b
      → m a ≡ false
      → (c : DiffBuilder A) × (push_change b a announce ≡ ok c) × Tracks xs (changed m a announce) c
  unfolding push_change remove insert
  push_announce-Tracks xs m b a t n = elim (Bool-cases (elem a b.withdrawn.items)) [
    | inl e ↦ (
      record b { withdrawn = record { items = erase a b.withdrawn.items } },
      rw (e, push_change) refl,
      record {
        announces = λ z.
            t.announces z
            ∙ same (m z) (is_eq z a) (elem z xs)
                λ k. rw (eq_of_is_eq z a k) (listed (elem a xs) (m a) (sym (t.withdraws a) ∙ e));
        withdraws = λ z.
            elem-erase z a b.withdrawn.items t.distinct_withdrawn
            ∙ ap (λ p. p && not (is_eq z a)) (t.withdraws z)
            ∙ regroup (elem z xs) (m z) (is_eq z a);
        distinct_announced = t.distinct_announced;
        distinct_withdrawn = erase-Distinct a b.withdrawn.items t.distinct_withdrawn;
      },
    )
    | inr e ↦
        let fresh : elem a b.announced.items ≡ false = t.announces a ∙ rw n in
        (
          record b { announced = record { items = a ∷ b.announced.items } },
          rw (e, fresh, push_change) refl,
          record {
            announces = λ z.
                ap (λ p. is_eq z a || p) (t.announces z)
                ∙ added (is_eq z a) (m z) (elem z xs) λ k.
                  rw (eq_of_is_eq z a k) (unlisted (elem a xs) (m a) n (sym (t.withdraws a) ∙ e));
            withdraws = λ z.
                t.withdraws z
                ∙ kept (elem z xs) (m z) (is_eq z a) λ k.
                  rw (eq_of_is_eq z a k) (unlisted (elem a xs) (m a) n (sym (t.withdraws a) ∙ e));
            distinct_announced = (fresh, t.distinct_announced);
            distinct_withdrawn = t.distinct_withdrawn;
          },
        )
  ]
    where
      listed : (l v : Bool) → l && not v ≡ true → l ≡ true
      listed l v h = ground arith

      unlisted : (l v : Bool) → v ≡ false → l && not v ≡ false → l ≡ false
      unlisted l v h k = ground arith

      same : (v k l : Bool) → (k ≡ true → l ≡ true) → v && not l ≡ (k || v) && not l
      same v true l h = rw (h refl) (ground arith)
      same v false l h = refl

      regroup : (l v k : Bool) → (l && not v) && not k ≡ l && not (k || v)
      regroup l v k = ground arith

      added : (k v l : Bool) → (k ≡ true → l ≡ false) → k || (v && not l) ≡ (k || v) && not l
      added true v l h = rw (h refl) refl
      added false v l h = refl

      kept : (l v k : Bool) → (k ≡ true → l ≡ false) → l && not v ≡ l && not (k || v)
      kept l v true h = rw (h refl) refl
      kept l v false h = refl

  push_withdraw-Tracks :
      (xs : List A) (m : A → Bool) (b : DiffBuilder A) (a : A)
      → Tracks xs m b
      → m a ≡ true
      → (c : DiffBuilder A) × (push_change b a withdraw ≡ ok c) × Tracks xs (changed m a withdraw) c
  unfolding push_change remove insert
  push_withdraw-Tracks xs m b a t n = elim (Bool-cases (elem a b.announced.items)) [
    | inl e ↦ (
      record b { announced = record { items = erase a b.announced.items } },
      rw (e, push_change) refl,
      record {
        announces = λ z.
            elem-erase z a b.announced.items t.distinct_announced
            ∙ ap (λ p. p && not (is_eq z a)) (t.announces z)
            ∙ regroup (m z) (elem z xs) (is_eq z a);
        withdraws = λ z.
            t.withdraws z
            ∙ same (elem z xs) (m z) (is_eq z a)
                λ k. rw (eq_of_is_eq z a k) (unlisted (m a) (elem a xs) (sym (t.announces a) ∙ e));
        distinct_announced = erase-Distinct a b.announced.items t.distinct_announced;
        distinct_withdrawn = t.distinct_withdrawn;
      },
    )
    | inr e ↦
        let fresh : elem a b.withdrawn.items ≡ false = t.withdraws a ∙ rw n (absent (elem a xs)) in
        (
          record b { withdrawn = record { items = a ∷ b.withdrawn.items } },
          rw (e, fresh, push_change) refl,
          record {
            announces = λ z.
                t.announces z
                ∙ kept (m z) (elem z xs) (is_eq z a) λ k.
                  rw (eq_of_is_eq z a k) (listed (m a) (elem a xs) n (sym (t.announces a) ∙ e));
            withdraws = λ z.
                ap (λ p. is_eq z a || p) (t.withdraws z)
                ∙ added (is_eq z a) (elem z xs) (m z) λ k.
                  rw (eq_of_is_eq z a k) (listed (m a) (elem a xs) n (sym (t.announces a) ∙ e));
            distinct_announced = t.distinct_announced;
            distinct_withdrawn = (fresh, t.distinct_withdrawn);
          },
        )
  ]
    where
      absent : (l : Bool) → l && false ≡ false
      absent l = ground arith

      listed : (v l : Bool) → v ≡ true → v && not l ≡ false → l ≡ true
      listed v l h k = ground arith

      unlisted : (v l : Bool) → v && not l ≡ true → l ≡ false
      unlisted v l h = ground arith

      same : (l v k : Bool) → (k ≡ true → l ≡ false) → l && not v ≡ l && not (not k && v)
      same l v true h = rw (h refl) refl
      same l v false h = refl

      regroup : (v l k : Bool) → (v && not l) && not k ≡ (not k && v) && not l
      regroup v l k = ground arith

      added : (k l v : Bool) → (k ≡ true → l ≡ true) → k || (l && not v) ≡ l && not (not k && v)
      added true l v h = rw (h refl) refl
      added false l v h = refl

      kept : (v l k : Bool) → (k ≡ true → l ≡ true) → v && not l ≡ (not k && v) && not l
      kept v l true h = rw (h refl) (ground arith)
      kept v l false h = refl

  push_change-Tracks :
      (xs : List A) (m : A → Bool) (b : DiffBuilder A) (a : A) (action : Action)
      → Tracks xs m b
      → Fits m a action
      → (c : DiffBuilder A) × (push_change b a action ≡ ok c) × Tracks xs (changed m a action) c
  push_change-Tracks xs m b a announce = push_announce-Tracks xs m b a
  push_change-Tracks xs m b a withdraw = push_withdraw-Tracks xs m b a

  pub push_changes-Tracks :
      (xs : List A) (m : A → Bool) (b : DiffBuilder A) (cs : List (A × Action))
      → Tracks xs m b
      → AllFit m cs
      → (c : DiffBuilder A) × (push_changes b cs ≡ ok c) × Tracks xs (after m cs) c
  unfolding push_changes
  push_changes-Tracks xs m b [] t f = (b, refl, t)
  push_changes-Tracks xs m b ((a, action) ∷ rest) t f =
      let (c, e, u) = push_change-Tracks xs m b a action t f.0 in
      let (d, g, w) = push_changes-Tracks xs (changed m a action) c rest u f.1 in
      (d, rw (e, push_changes) g, w)
