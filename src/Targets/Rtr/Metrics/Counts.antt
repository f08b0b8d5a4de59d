-- ===== src/Targets/Rtr/Metrics/Counts.antt =====
-- The counters of src/targets/rtr.rs agree with the streams that are open and with each other.
use rtrtr.Base.{◌-◌, 
  ℕ, suc, ◌%◌, ◌≡◌, refl, sym, ap, ◌∙◌, subst, true, ◌||◌, List, [], ◌∷◌, ◌++◌, none, some, arith,
  if◌then◌else◌, length-append,
}
use rtrtr.Order.{Order, is_eq, elem, IsSorted}
use rtrtr.Sorted.Elem.{is_eq_self}
use rtrtr.Targets.Rtr.Metrics.{
  MetricsData, default, PerAddrMetrics, ListenerMetrics, inc_open, dec_open, inc_bytes_read,
  inc_bytes_written, update_now, get, adjust, get_client, update, stream_new, poll_read, poll_write,
  stream_drop, size_64, sub_64,
}
use rtrtr.Targets.Rtr.Metrics.Table.{keys, total, number, keys-adjust, total-adjust, number-adjust}
use rtrtr.Targets.Rtr.Metrics.Opened.{
  Plain, update_now-Plain, client_of, Reach, start, opened, served, read, written, dropped, count,
  Counted, Tallies, update-Counted, opened-Counted,
}

module _ {Addr : Type 0} ⦃o : Order Addr⦄ where
  elem-middle : (a : Addr) (before after : List Addr) → elem a (before ++ a ∷ after) ≡ true
  elem-middle a [] after = ap (λ w. w || elem a after) (is_eq_self a)
  elem-middle a (b ∷ before) after = ground (arith, elem-middle a before after)

  elem_more :
      (b a : Addr) (before after : List Addr)
      → elem b (before ++ after) ≡ true
      → elem b (before ++ a ∷ after) ≡ true
  elem_more b a [] after h = ground (arith, h)
  elem_more b a (c ∷ before) after h = ground (arith, h, elem_more b a before after)

  count-middle :
      (b a : Addr) (before after : List Addr)
      → count b (before ++ a ∷ after)
        ≡ (if is_eq b a then suc (count b (before ++ after)) else count b (before ++ after))
  unfolding count
  count-middle b a [] after = refl
  count-middle b a (c ∷ before) after = ground (arith, count-middle b a before after)

  count-dropped :
      (b a : Addr) (before after : List Addr) (n : ℕ)
      → n ≡ count b (before ++ a ∷ after) % size_64
      → (if is_eq b a then sub_64 n 1 else n) ≡ count b (before ++ after) % size_64
  count-dropped b a before after n e = ground (arith, e, count-middle b a before after)

  dropped-Counted :
      (a : Addr) (before after : List Addr) (g : MetricsData) (t : PerAddrMetrics Addr)
      → Counted g t (before ++ a ∷ after)
      → Counted (dec_open g) (adjust dec_open a t) (before ++ after)
  dropped-Counted a before after g t c = record {
    sorted = subst IsSorted (sym (keys-adjust dec_open a t)) c.sorted;
    known =
        λ b h. ap (elem b) (keys-adjust dec_open a t) ∙ c.known b (elem_more b a before after h);
    open_global =
        omega (arith, c.open_global, length-append before (a ∷ after), length-append before after);
    open_client = λ b.
        number-adjust (λ d. d.open_count) (λ n. sub_64 n 1) dec_open b a t (λ d. refl) here
        ∙ count-dropped b a before after (number (λ d. d.open_count) b t) (c.open_client b);
    bytes_read = omega (
      arith,
      c.bytes_read,
      total-adjust (λ d. d.bytes_read) 0 dec_open a t (λ d. omega arith) here,
    );
    bytes_written = omega (
      arith,
      c.bytes_written,
      total-adjust (λ d. d.bytes_written) 0 dec_open a t (λ d. omega arith) here,
    );
  }
    where
      here : elem a (keys t) ≡ true
      here = c.known a (elem-middle a before after)

  update-client_of :
      (op : MetricsData → MetricsData) (a : Addr) (g : MetricsData) (t : PerAddrMetrics Addr)
      → update op (client_of a) (record { global = g; client = some t })
        ≡ record { global = op g; client = some (adjust op a t) }
  unfolding update
  update-client_of op a g t = refl

  update-Tallies :
      (r w : ℕ) (op : MetricsData → MetricsData) (a : Addr) (m : ListenerMetrics Addr)
      (s : List Addr)
      → Plain r w op
      → elem a s ≡ true
      → Tallies m s
      → Tallies (update op (client_of a) m) s
  update-Tallies r w op a m s p e (g, t, q, c) = (
    op g,
    adjust op a t,
    ap (update op (client_of a)) q ∙ update-client_of op a g t,
    update-Counted r w op a g t s p e c,
  )

  opened-Tallies :
      (a : Addr) (m : ListenerMetrics Addr) (s : List Addr)
      → Tallies m s
      → Tallies (stream_new m a).0 (a ∷ s)
  unfolding stream_new get_client
  opened-Tallies a m s (g, t, q, c) = (
    inc_open g,
    adjust inc_open a (get a t),
    ap (λ n. (stream_new n a).0) q ∙ update-client_of inc_open a g (get a t),
    opened-Counted a g t s c,
  )

  dropped-Tallies :
      (a : Addr) (before after : List Addr) (m : ListenerMetrics Addr)
      → Tallies m (before ++ a ∷ after)
      → Tallies (stream_drop (client_of a) m) (before ++ after)
  dropped-Tallies a before after m (g, t, q, c) = (
    dec_open g,
    adjust dec_open a t,
    ap (update dec_open (client_of a)) q ∙ update-client_of dec_open a g t,
    dropped-Counted a before after g t c,
  )

  -- However streams are opened, read, written, served and dropped, the metrics of a listener that
  -- counts by client address stay right: the table is sorted by address without duplicates and has
  -- every address with an open stream, the number of open streams and the number for each address
  -- are those of the streams that are open, modulo 2 ^ 64, and the bytes read and the bytes written
  -- over all connections are the sums over the addresses, modulo 2 ^ 64.
  pub Reach-Tallies : {m : ListenerMetrics Addr} {s : List Addr} → Reach m s → Tallies m s
  unfolding poll_read poll_write keys
  Reach-Tallies start = (
    default,
    [],
    refl,
    record {
      sorted = tt;
      known = λ a h. cc h;
      open_global = refl;
      open_client = λ a. unfold number count in refl;
      bytes_read = unfold total in refl;
      bytes_written = unfold total in refl;
    },
  )
  Reach-Tallies (opened {m} {s} a h) = opened-Tallies a m s (Reach-Tallies h)
  Reach-Tallies (served {m} {s} a serial reset now e h) =
      update-Tallies 0 0 (λ d. update_now d serial reset now) a m s
        (update_now-Plain serial reset now) e (Reach-Tallies h)
  Reach-Tallies (read a len none e h) = Reach-Tallies h
  Reach-Tallies (read {m} {s} a len (some filled) e h) =
      update-Tallies (filled - len) 0 (inc_bytes_read (filled - len)) a m s
        (record { keeps_open = λ d. refl; reads = λ d. omega arith; writes = λ d. omega arith }) e
        (Reach-Tallies h)
  Reach-Tallies (written a none e h) = Reach-Tallies h
  Reach-Tallies (written {m} {s} a (some n) e h) =
      update-Tallies 0 n (inc_bytes_written n) a m s
        (record { keeps_open = λ d. refl; reads = λ d. omega arith; writes = λ d. omega arith }) e
        (Reach-Tallies h)
  Reach-Tallies (dropped {m} {s} a before after q h) =
      dropped-Tallies a before after m (subst (Tallies m) q (Reach-Tallies h))
