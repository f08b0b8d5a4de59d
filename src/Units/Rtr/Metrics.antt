-- ===== src/Units/Rtr/Metrics.antt =====
-- src/units/rtr.rs: the metrics of the RTR client, which its connections and its updates change. The
-- counters wrap around, and an `i64` is its word of 64 bits. Whether a timestamp is a time, and how
-- times are printed, is an argument.
use Prim.Native.Nat.{◌/◌}
use rtrtr.Base.{ℕ, Bool, true, false, ◌+◌, ◌-◌, ◌%◌, [], ◌∷◌, ◌++◌, Option, none, some, ◌==◌}
use rtrtr.Text.{codes, decimal}
use rtrtr.Comms.Gate.{GateMetrics}
use rtrtr.Comms.Metrics.{Clock, simple}
use rtrtr.Comms.Metrics
use rtrtr.Metrics.{Metric, MetricType, MetricUnit, Source}

-- `u32::MAX`, `i64::MIN`, and the number of values of 64 bits.
abbrev pub u32_max : ℕ
u32_max = 4_294_967_295

abbrev pub i64_min : ℕ
i64_min = 9_223_372_036_854_775_808

abbrev pub size_64 : ℕ
size_64 = 18_446_744_073_709_551_616

pub record RtrMetrics (Time : Type 0) : Type 0 where
  pub gate : GateMetrics Time
  pub session : ℕ
  pub serial : ℕ
  pub updated : ℕ
  pub bytes_read : ℕ
  pub bytes_written : ℕ

module _ {Time : Type 0} where
  -- `RtrMetrics::new`
  abbrev pub new : GateMetrics Time → RtrMetrics Time
  new gate = record {
    gate = gate;
    session = u32_max;
    serial = u32_max;
    updated = i64_min;
    bytes_read = 0;
    bytes_written = 0;
  }

  abbrev pub inc_bytes_read : ℕ → RtrMetrics Time → RtrMetrics Time
  inc_bytes_read count m = record m { bytes_read = (m.bytes_read + count) % size_64 }

  abbrev pub inc_bytes_written : ℕ → RtrMetrics Time → RtrMetrics Time
  inc_bytes_written count m = record m { bytes_written = (m.bytes_written + count) % size_64 }

  -- `RtrTcpStream::poll_read`: the length of the buffer before and, if the socket has read, after it.
  unfoldable pub poll_read : ℕ → Option ℕ → RtrMetrics Time → RtrMetrics Time
  poll_read len none m = m
  poll_read len (some filled) m = inc_bytes_read (filled - len) m

  -- `RtrTcpStream::poll_write`: the bytes that the socket has written.
  unfoldable pub poll_write : Option ℕ → RtrMetrics Time → RtrMetrics Time
  poll_write none m = m
  poll_write (some n) m = inc_bytes_written n m

  -- What `RtrClient::update` stores once it has succeeded: the session and serial number of the
  -- state, and the time.
  unfoldable pub store_state : Option (ℕ × ℕ) → ℕ → RtrMetrics Time → RtrMetrics Time
  store_state none now m = m
  store_state (some (session, serial)) now m = record m {
    session = session;
    serial = serial;
    updated = now;
  }

abbrev pub session_metric : Metric
session_metric = record {
  name = codes "session_id";
  help = codes "the session ID of the last successful update";
  metric_type = MetricType.text;
  unit = MetricUnit.info;
}

abbrev pub serial_metric : Metric
serial_metric = record {
  name = codes "serial";
  help = codes "the serial number of the last successful update";
  metric_type = MetricType.counter;
  unit = MetricUnit.total_unit;
}

abbrev pub updated_ago_metric : Metric
updated_ago_metric = record {
  name = codes "since_last_rtr_update";
  help = codes "the number of seconds since last successful update";
  metric_type = MetricType.counter;
  unit = MetricUnit.total_unit;
}

abbrev pub updated_metric : Metric
updated_metric = record {
  name = codes "rtr_updated";
  help = codes "the time of the last successful update";
  metric_type = MetricType.text;
  unit = MetricUnit.info;
}

abbrev pub bytes_read_metric : Metric
bytes_read_metric = record {
  name = codes "bytes_read";
  help = codes "the number of bytes read";
  metric_type = MetricType.counter;
  unit = MetricUnit.total_unit;
}

abbrev pub bytes_written_metric : Metric
bytes_written_metric = record {
  name = codes "bytes_written";
  help = codes "the number of bytes written";
  metric_type = MetricType.counter;
  unit = MetricUnit.total_unit;
}

-- The metrics unless the number was never stored.
abbrev pub unless : Bool → Source → Source
unless true s = []
unless false s = s

module _ {Time : Type 0} (clock : Clock Time) (timestamp_opt : ℕ → Option Time) where
  abbrev pub updated_source : Option Time → Source
  updated_source none = []
  updated_source (some updated) =
      simple updated_ago_metric (decimal (clock.milliseconds_since updated / 1000))
      ∷ simple updated_metric (clock.show_date updated)
      ∷ []

  -- The metrics that `RtrMetrics::append` appends.
  unfoldable pub source : RtrMetrics Time → Source
  source m =
      Metrics.source clock m.gate
      ++ (unless (m.session == u32_max) (simple session_metric (decimal m.session) ∷ [])
          ++ (unless (m.serial == u32_max) (simple serial_metric (decimal m.serial) ∷ [])
              ++ (unless (m.updated == i64_min) (updated_source (timestamp_opt m.updated))
                  ++ simple bytes_read_metric (decimal m.bytes_read)
                    ∷ simple bytes_written_metric (decimal m.bytes_written)
                    ∷ [])))
