-- ===== src/Targets/Rtr/Metrics/Opened.antt =====
-- What the counters of src/targets/rtr.rs have to agree with, and that a new stream keeps it.
use rtrtr.Base.{
  ℕ, suc, ◌%◌, ◌≡◌, refl, sym, ap, ◌∙◌, subst, Bool, true, false, ◌||◌, List, [], ◌∷◌, ◌++◌, Option,
  some, arith, if◌then◌else◌, length,
}
use rtrtr.Order.{Order, is_eq, elem, IsSorted}
use rtrtr.Sorted.Elem.{is_eq_self}
use rtrtr.Targets.Rtr.Metrics.{
  MetricsData, PerAddrMetrics, ClientMetrics, ListenerMetrics, new, inc_open, update_now, get,
  adjust, stream_new, socket_update, poll_read, poll_write, stream_drop, size_64, add_64,
}
use rtrtr.Targets.Rtr.Metrics.Table.{
  keys, total, number, Adds, elem-get, get-IsSorted, number-get, total-get, keys-adjust,
  total-adjust, number-adjust,
}

-- An operation that leaves the number of open streams alone, and adds to the bytes.
pub record Plain (r w : ℕ) (op : MetricsData → MetricsData) : Type 0 where
  pub keeps_open : (d : MetricsData) → (op d).open_count ≡ d.open_count
  pub reads : Adds (λ d. d.bytes_read) r op
  pub writes : Adds (λ d. d.bytes_written) w op

pub update_now-Plain :
    (serial : ℕ) (reset : Bool) (now : ℕ) → Plain 0 0 (λ d. update_now d serial reset now)
unfolding update_now
update_now-Plain serial reset now = record {
  keeps_open = λ d. ground arith;
  reads = λ d. ground arith;
  writes = λ d. ground arith;
}

module _ {Addr : Type 0} where
  abbrev pub client_of : Addr → ClientMetrics Addr
  client_of addr = record { client = some addr }

module _ {Addr : Type 0} ⦃o : Order Addr⦄ where
  -- The metrics of a listener that counts by client address, with the addresses of the streams that
  -- are open: what can come of opening streams, of their reading, writing and being served, and of
  -- dropping them, in any order.
  pub data Reach : ListenerMetrics Addr → List Addr → Type 0 where
    start : Reach (new true) []
    opened :
        {m : ListenerMetrics Addr} {s : List Addr} (a : Addr)
        → Reach m s
        → Reach (stream_new m a).0 (a ∷ s)
    served :
        {m : ListenerMetrics Addr} {s : List Addr} (a : Addr) (serial : ℕ) (reset : Bool) (now : ℕ)
        → elem a s ≡ true
        → Reach m s
        → Reach (socket_update (client_of a) serial reset now m) s
    read :
        {m : ListenerMetrics Addr} {s : List Addr} (a : Addr) (len : ℕ) (filled : Option ℕ)
        → elem a s ≡ true
        → Reach m s
        → Reach (poll_read (client_of a) len filled m) s
    written :
        {m : ListenerMetrics Addr} {s : List Addr} (a : Addr) (n : Option ℕ)
        → elem a s ≡ true
        → Reach m s
        → Reach (poll_write (client_of a) n m) s
    dropped :
        {m : ListenerMetrics Addr} {s : List Addr} (a : Addr) (before after : List Addr)
        → s ≡ before ++ a ∷ after
        → Reach m s
        → Reach (stream_drop (client_of a) m) (before ++ after)

  -- How many of the streams are from an address.
  unfoldable pub count : Addr → List Addr → ℕ
  count a [] = 0
  count a (b ∷ bs) = if is_eq a b then suc (count a bs) else count a bs

  -- The table is sorted and knows the address of every open stream, the numbers of open streams are
  -- right, and the totals of the bytes agree.
  pub record Counted (g : MetricsData) (t : PerAddrMetrics Addr) (s : List Addr) : Type 0 where
    pub sorted : IsSorted (keys t)
    pub known : (a : Addr) → elem a s ≡ true → elem a (keys t) ≡ true
    pub open_global : g.open_count ≡ length s % size_64
    pub open_client : (a : Addr) → number (λ d. d.open_count) a t ≡ count a s % size_64
    pub bytes_read : g.bytes_read % size_64 ≡ total (λ d. d.bytes_read) t % size_64
    pub bytes_written : g.bytes_written % size_64 ≡ total (λ d. d.bytes_written) t % size_64

  abbrev pub Tallies : ListenerMetrics Addr → List Addr → Type 0
  Tallies m s =
      (g : MetricsData) × (t : PerAddrMetrics Addr) × (m ≡ record { global = g; client = some t })
      × Counted g t s

  pub update-Counted :
      (r w : ℕ) (op : MetricsData → MetricsData) (a : Addr) (g : MetricsData)
      (t : PerAddrMetrics Addr) (s : List Addr)
      → Plain r w op
      → elem a s ≡ true
      → Counted g t s
      → Counted (op g) (adjust op a t) s
  update-Counted r w op a g t s p e c = record {
    sorted = subst IsSorted (sym (keys-adjust op a t)) c.sorted;
    known = λ b h. ap (elem b) (keys-adjust op a t) ∙ c.known b h;
    open_global = p.keeps_open g ∙ c.open_global;
    open_client = λ b.
        number-adjust (λ d. d.open_count) (λ n. n) op b a t p.keeps_open (c.known a e)
        ∙ same (is_eq b a) (number (λ d. d.open_count) b t)
        ∙ c.open_client b;
    bytes_read = omega (
      arith,
      p.reads g,
      c.bytes_read,
      total-adjust (λ d. d.bytes_read) r op a t p.reads (c.known a e),
    );
    bytes_written = omega (
      arith,
      p.writes g,
      c.bytes_written,
      total-adjust (λ d. d.bytes_written) w op a t p.writes (c.known a e),
    );
  }
    where
      same : (b : Bool) (n : ℕ) → (if b then n else n) ≡ n
      same b n = ground arith

  count-opened :
      (b a : Addr) (s : List Addr) (n : ℕ)
      → n ≡ count b s % size_64
      → (if is_eq b a then add_64 n 1 else n) ≡ count b (a ∷ s) % size_64
  unfolding count
  count-opened b a s n e = ground (arith, e)

  pub opened-Counted :
      (a : Addr) (g : MetricsData) (t : PerAddrMetrics Addr) (s : List Addr)
      → Counted g t s
      → Counted (inc_open g) (adjust inc_open a (get a t)) (a ∷ s)
  opened-Counted a g t s c = record {
    sorted = subst IsSorted (sym (keys-adjust inc_open a (get a t))) (get-IsSorted a t c.sorted);
    known = λ b h.
        ap (elem b) (keys-adjust inc_open a (get a t))
        ∙ elem-get b a t
        ∙ grows (is_eq b a) (elem b s) (elem b (keys t)) (c.known b) h;
    open_global = omega (arith, c.open_global);
    open_client = λ b.
        number-adjust (λ d. d.open_count) (λ n. add_64 n 1) inc_open b a (get a t) (λ d. refl) here
        ∙ count-opened b a s (number (λ d. d.open_count) b (get a t))
            (number-get (λ d. d.open_count) b a t refl c.sorted ∙ c.open_client b);
    bytes_read = omega (
      arith,
      c.bytes_read,
      total-get (λ d. d.bytes_read) a t refl,
      total-adjust (λ d. d.bytes_read) 0 inc_open a (get a t) (λ d. omega arith) here,
    );
    bytes_written = omega (
      arith,
      c.bytes_written,
      total-get (λ d. d.bytes_written) a t refl,
      total-adjust (λ d. d.bytes_written) 0 inc_open a (get a t) (λ d. omega arith) here,
    );
  }
    where
      grows : (e s k : Bool) → (s ≡ true → k ≡ true) → e || s ≡ true → e || k ≡ true
      grows true s k f h = refl
      grows false s k f h = f h

      here : elem a (keys (get a t)) ≡ true
      here = elem-get a a t ∙ ap (λ w. w || elem a (keys t)) (is_eq_self a)
