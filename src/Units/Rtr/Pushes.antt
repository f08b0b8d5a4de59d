-- ===== src/Units/Rtr/Pushes.antt =====
-- The announcements and withdrawals of a serial update in src/units/rtr.rs.
use rtrtr.Base.{◌≡◌, refl, ◌∙◌, Bool, true, false, ◌&&◌, ◌||◌, List, ◌∷◌, arith}
use rtrtr.Order.{Order, is_eq, elem}
use rtrtr.Sorted.Elem.{is_eq_self, eq_of_is_eq}
use rtrtr.Payload.Types.{Result, ok, Action, announce, withdraw}
use rtrtr.Payload.Pack.{insert, contains}
use rtrtr.Payload.Pack.Laws.{Distinct}
use rtrtr.Payload.Set.{Set}
use rtrtr.Payload.Diff.{DiffBuilder, push}
use rtrtr.Units.Rtr.{TargetUpdate, serial, push_update, push_updates}

is_new :
    (p n w q r : Bool) → p ≡ true → (n || w) && ((p || q) || r) ≡ false → (n ≡ false) × (w ≡ false)
is_new p n w q r e h = ground arith

is_new_withdraw :
    (p n w q r : Bool) → p ≡ true → (n || w) && (q || (p || r)) ≡ false → (n ≡ false) × (w ≡ false)
is_new_withdraw p n w q r e h = ground arith

module _ {A : Type 0} ⦃o : Order A⦄ where
  -- The builder is ready for the changes that are still to come.
  pub record Awaits (b : DiffBuilder A) (ns ws : List A) : Type 0 where
    pub apart : (z : A) → elem z ns && elem z ws ≡ false
    pub fresh :
        (z : A)
        → (elem z b.announced.items || elem z b.withdrawn.items) && (elem z ns || elem z ws) ≡ false
    pub distinct_ns : Distinct ns
    pub distinct_ws : Distinct ws
    pub distinct_announced : Distinct b.announced.items
    pub distinct_withdrawn : Distinct b.withdrawn.items

  -- All of the changes are pushed.
  abbrev pub Pushes : Set A → DiffBuilder A → List A → List A → Result (TargetUpdate A) → Type 0
  Pushes set b ns ws outcome =
      (c : DiffBuilder A) × (outcome ≡ ok (serial set c))
      × ((z : A) → elem z c.announced.items ≡ elem z b.announced.items || elem z ns)
      × ((z : A) → elem z c.withdrawn.items ≡ elem z b.withdrawn.items || elem z ws)
      × Distinct c.announced.items
      × Distinct c.withdrawn.items

  abbrev pub add_announce : DiffBuilder A → A → DiffBuilder A
  add_announce b a = record b { announced = record { items = a ∷ b.announced.items } }

  abbrev pub add_withdraw : DiffBuilder A → A → DiffBuilder A
  add_withdraw b a = record b { withdrawn = record { items = a ∷ b.withdrawn.items } }

  pub announce_first :
      (set : Set A) (b : DiffBuilder A) (a : A) (ns ws : List A) (cs : List (A × Action))
      → Awaits b (a ∷ ns) ws
      → (Awaits (add_announce b a) ns ws
          → Pushes set (add_announce b a) ns ws (push_updates (serial set (add_announce b a)) cs))
      → Pushes set b (a ∷ ns) ws (push_updates (serial set b) ((a, announce) ∷ cs))
  unfolding push_updates push_update push insert contains
  announce_first set b a ns ws cs h rec =
      let new_a =
        is_new (is_eq a a) (elem a b.announced.items) (elem a b.withdrawn.items) (elem a ns)
          (elem a ws) (is_eq_self a) (h.fresh a) in
      let (c, e, p, q, d, f) = rec (record {
        apart = λ z. tail (is_eq z a) (elem z ns) (elem z ws) (h.apart z);
        fresh = λ z.
            still (is_eq z a) (elem z b.announced.items) (elem z b.withdrawn.items) (elem z ns)
              (elem z ws) (h.fresh z) (h.apart z) λ k. rw (eq_of_is_eq z a k) h.distinct_ns.0;
        distinct_ns = h.distinct_ns.1;
        distinct_ws = h.distinct_ws;
        distinct_announced = (new_a.0, h.distinct_announced);
        distinct_withdrawn = h.distinct_withdrawn;
      }) in
      (
        c,
        rw (new_a.1, push_updates) (rw (new_a.0, push_updates) e),
        λ z. p z ∙ swap (is_eq z a) (elem z b.announced.items) (elem z ns),
        q,
        d,
        f,
      )
    where
      tail : (k n w : Bool) → (k || n) && w ≡ false → n && w ≡ false
      tail k n w h = ground arith

      still :
          (k p q n w : Bool)
          → (p || q) && ((k || n) || w) ≡ false
          → (k || n) && w ≡ false
          → (k ≡ true → n ≡ false)
          → ((k || p) || q) && (n || w) ≡ false
      still true p q n w h i g = rw (g refl) i
      still false p q n w h i g = h

      swap : (k p n : Bool) → (k || p) || n ≡ p || (k || n)
      swap k p n = ground arith

  pub withdraw_first :
      (set : Set A) (b : DiffBuilder A) (a : A) (ns ws : List A) (cs : List (A × Action))
      → Awaits b ns (a ∷ ws)
      → (Awaits (add_withdraw b a) ns ws
          → Pushes set (add_withdraw b a) ns ws (push_updates (serial set (add_withdraw b a)) cs))
      → Pushes set b ns (a ∷ ws) (push_updates (serial set b) ((a, withdraw) ∷ cs))
  unfolding push_updates push_update push insert contains
  withdraw_first set b a ns ws cs h rec =
      let new_a =
        is_new_withdraw (is_eq a a) (elem a b.announced.items) (elem a b.withdrawn.items)
          (elem a ns) (elem a ws) (is_eq_self a) (h.fresh a) in
      let (c, e, p, q, d, f) = rec (record {
        apart = λ z. tail (is_eq z a) (elem z ns) (elem z ws) (h.apart z);
        fresh = λ z.
            still (is_eq z a) (elem z b.announced.items) (elem z b.withdrawn.items) (elem z ns)
              (elem z ws) (h.fresh z) (h.apart z) λ k. rw (eq_of_is_eq z a k) h.distinct_ws.0;
        distinct_ns = h.distinct_ns;
        distinct_ws = h.distinct_ws.1;
        distinct_announced = h.distinct_announced;
        distinct_withdrawn = (new_a.1, h.distinct_withdrawn);
      }) in
      (
        c,
        rw (new_a.0, push_updates) (rw (new_a.1, push_updates) e),
        p,
        λ z. q z ∙ swap (is_eq z a) (elem z b.withdrawn.items) (elem z ws),
        d,
        f,
      )
    where
      tail : (k n w : Bool) → n && (k || w) ≡ false → n && w ≡ false
      tail k n w h = ground arith

      still :
          (k p q n w : Bool)
          → (p || q) && (n || (k || w)) ≡ false
          → n && (k || w) ≡ false
          → (k ≡ true → w ≡ false)
          → (p || (k || q)) && (n || w) ≡ false
      still true p q n w h i g = ground (arith, g refl)
      still false p q n w h i g = h

      swap : (k p n : Bool) → (k || p) || n ≡ p || (k || n)
      swap k p n = ground arith
