-- ===== src/Targets/Rtr/Metrics.antt =====
-- src/targets/rtr.rs: `MetricsData`, `PerAddrMetrics`, `ClientMetrics` and the part of
-- `ListenerMetrics` and `RtrStream` that counts. The atomic counters wrap around; `usize` has 64
-- bits, and an `i64` is its word of 64 bits. An `Arc` to the data of an address is the address: the
-- data of an address is never replaced. The clock, and the operations of the socket, are arguments.
pub mod Output
pub mod Table
pub mod Opened
pub mod Counts
mod Tests
use Prim.Native.Nat.Ordering.{lt, eq, gt}
use rtrtr.Base.{
  ℕ, zero, suc, ◌+◌, ◌-◌, ◌%◌, Bool, true, false, List, [], ◌∷◌, ◌++◌, Option, none, some, take,
  drop, if◌then◌else◌, ◌==◌,
}
use rtrtr.Order.{Order}

-- The number of values of 32 and of 64 bits, `u32::MAX` and `i64::MIN`.
abbrev pub size_32 : ℕ
size_32 = 4_294_967_296

abbrev pub size_64 : ℕ
size_64 = 18_446_744_073_709_551_616

abbrev pub u32_max : ℕ
u32_max = 4_294_967_295

abbrev pub i64_min : ℕ
i64_min = 9_223_372_036_854_775_808

pub record MetricsData : Type 0 where
  pub open_count : ℕ
  pub serial_value : ℕ
  pub updated_value : ℕ
  pub last_reset_value : ℕ
  pub reset_queries : ℕ
  pub serial_queries : ℕ
  pub bytes_read : ℕ
  pub bytes_written : ℕ

-- `MetricsData::default`
abbrev pub default : MetricsData
default = record {
  open_count = 0;
  serial_value = u32_max;
  updated_value = i64_min;
  last_reset_value = i64_min;
  reset_queries = 0;
  serial_queries = 0;
  bytes_read = 0;
  bytes_written = 0;
}

-- `fetch_add` and `fetch_sub`
abbrev pub add_32 : ℕ → ℕ → ℕ
add_32 n k = (n + k) % size_32

abbrev pub add_64 : ℕ → ℕ → ℕ
add_64 n k = (n + k) % size_64

abbrev pub sub_64 : ℕ → ℕ → ℕ
sub_64 n k = (n + (size_64 - k)) % size_64

abbrev pub inc_open : MetricsData → MetricsData
inc_open d = record d { open_count = add_64 d.open_count 1 }

abbrev pub dec_open : MetricsData → MetricsData
dec_open d = record d { open_count = sub_64 d.open_count 1 }

unfoldable pub serial : MetricsData → Option ℕ
serial d = if d.serial_value == u32_max then none else some d.serial_value

-- The time of the clock is a timestamp.
unfoldable pub update_now : MetricsData → ℕ → Bool → ℕ → MetricsData
update_now d serial reset now =
    if reset
    then record d {
      serial_value = serial;
      updated_value = now;
      last_reset_value = now;
      reset_queries = add_32 d.reset_queries 1;
    }
    else record d {
      serial_value = serial;
      updated_value = now;
      serial_queries = add_32 d.serial_queries 1;
    }

-- `timestamp_opt` of `chrono` is an argument.
module _ {DateTime : Type 0} (timestamp_opt : ℕ → Option DateTime) where
  unfoldable pub updated : MetricsData → Option DateTime
  updated d = if d.updated_value == i64_min then none else timestamp_opt d.updated_value

  unfoldable pub last_reset : MetricsData → Option DateTime
  last_reset d = if d.last_reset_value == i64_min then none else timestamp_opt d.last_reset_value

abbrev pub inc_bytes_read : ℕ → MetricsData → MetricsData
inc_bytes_read count d = record d { bytes_read = add_64 d.bytes_read count }

abbrev pub inc_bytes_written : ℕ → MetricsData → MetricsData
inc_bytes_written count d = record d { bytes_written = add_64 d.bytes_written count }

-- The result of a binary search: the index of the item, or where it belongs.
pub data Search : Type 0 where
  at missing : ℕ → Search

-- `PerAddrMetrics`
abbrev pub PerAddrMetrics : Type 0 → Type 0
PerAddrMetrics Addr = List (Addr × MetricsData)

-- `ClientMetrics`
pub record ClientMetrics (Addr : Type 0) : Type 0 where
  pub client : Option Addr

pub record ListenerMetrics (Addr : Type 0) : Type 0 where
  pub global : MetricsData
  pub client : Option (PerAddrMetrics Addr)

-- `ListenerMetrics::new`
abbrev pub new : {Addr : Type 0} → Bool → ListenerMetrics Addr
new client_metrics = record { global = default; client = if client_metrics then some [] else none }

module _ {Addr : Type 0} ⦃o : Order Addr⦄ where
  -- In a list in ascending order the search has only one result.
  unfoldable pub binary_search : Addr → PerAddrMetrics Addr → Search
  binary_search addr [] = missing 0
  binary_search addr ((key, d) ∷ rest) = elim (o.cmp addr key) [
    | lt ↦ missing 0
    | eq ↦ at 0
    | gt ↦ elim (binary_search addr rest) [ at i ↦ at (suc i) | missing i ↦ missing (suc i) ]
  ]

  -- `PerAddrMetrics::get`
  unfoldable pub get : Addr → PerAddrMetrics Addr → PerAddrMetrics Addr
  get addr addrs = elim (binary_search addr addrs) [
    | at idx ↦ addrs
    | missing idx ↦ take idx addrs ++ (addr, default) ∷ drop idx addrs
  ]

  -- The operation on the data of an address.
  unfoldable pub adjust :
      (MetricsData → MetricsData) → Addr → PerAddrMetrics Addr → PerAddrMetrics Addr
  adjust op addr [] = []
  adjust op addr ((key, d) ∷ rest) = elim (o.cmp addr key) [
    | eq ↦ (key, op d) ∷ rest
    | _ ↦ (key, d) ∷ adjust op addr rest
  ]

  unfoldable pub get_client :
      ListenerMetrics Addr → Addr → ListenerMetrics Addr × ClientMetrics Addr
  get_client m addr = elim m.client [
    | none ↦ (m, record { client = none })
    | some addrs ↦ (record m { client = some (get addr addrs) }, record { client = some addr })
  ]

  -- `ClientMetrics::update`
  unfoldable pub update :
      (MetricsData → MetricsData) → ClientMetrics Addr → ListenerMetrics Addr → ListenerMetrics Addr
  update op c m = elim c.client [
    | none ↦ record m { global = op m.global }
    | some addr ↦ record {
      global = op m.global;
      client = elim m.client [ none ↦ none | some addrs ↦ some (adjust op addr addrs) ];
    }
  ]

  -- `RtrStream::new`, where setting up the socket succeeds.
  unfoldable pub stream_new :
      ListenerMetrics Addr → Addr → ListenerMetrics Addr × ClientMetrics Addr
  stream_new m addr = let (m', c) = get_client m addr in (update inc_open c m', c)

  -- `Socket::update`
  abbrev pub socket_update :
      ClientMetrics Addr → ℕ → Bool → ℕ → ListenerMetrics Addr → ListenerMetrics Addr
  socket_update c serial reset now = update (λ d. update_now d serial reset now) c

  -- `poll_read`: how much of the buffer is filled before the socket is polled and, where it is ready
  -- without an error, after it.
  unfoldable pub poll_read :
      ClientMetrics Addr → ℕ → Option ℕ → ListenerMetrics Addr → ListenerMetrics Addr
  poll_read c len none m = m
  poll_read c len (some filled) m = update (inc_bytes_read (filled - len)) c m

  unfoldable pub poll_write :
      ClientMetrics Addr → Option ℕ → ListenerMetrics Addr → ListenerMetrics Addr
  poll_write c none m = m
  poll_write c (some n) m = update (inc_bytes_written n) c m

  -- `RtrStream::drop`
  abbrev pub stream_drop : ClientMetrics Addr → ListenerMetrics Addr → ListenerMetrics Addr
  stream_drop = update dec_open
