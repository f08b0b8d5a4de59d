-- ===== src/Targets/Rtr/Metrics/Output.antt =====
-- src/targets/rtr.rs: the metrics that a listener appends to the output. How an address is printed is
-- an argument; `bytes_read` and the like are the counters, and the serial number and the size of the
-- payload set of the listener are arguments, too.
use Prim.Native.Nat.{◌/◌}
use rtrtr.Base.{ℕ, ◌%◌, ltb, List, [], ◌∷◌, ◌++◌, Option, none, some, if◌then◌else◌}
use rtrtr.Text.{Text, codes, decimal}
use rtrtr.Comms.Metrics.{Clock, simple}
use rtrtr.Metrics.{Metric, MetricType, MetricUnit, Record, label_value, Source}
use rtrtr.Targets.Rtr.Metrics.{
  MetricsData, PerAddrMetrics, ListenerMetrics, serial, updated, last_reset,
}

abbrev pub client_open_metric : Metric
client_open_metric = record {
  name = codes "rtr_client_connections";
  help = codes "number of open client connections by a client address";
  metric_type = MetricType.gauge;
  unit = MetricUnit.total_unit;
}

abbrev pub client_serial_metric : Metric
client_serial_metric = record {
  name = codes "rtr_client_serial";
  help = codes "last serial seen by a client address";
  metric_type = MetricType.gauge;
  unit = MetricUnit.total_unit;
}

abbrev pub updated_metric : Metric
updated_metric = record {
  name = codes "rtr_client_last_update";
  help = codes "seconds since last update by a client address";
  metric_type = MetricType.gauge;
  unit = MetricUnit.second;
}

abbrev pub last_reset_metric : Metric
last_reset_metric = record {
  name = codes "rtr_client_last_reset";
  help = codes "seconds since last cache reset by a client address";
  metric_type = MetricType.gauge;
  unit = MetricUnit.second;
}

abbrev pub reset_queries_metric : Metric
reset_queries_metric = record {
  name = codes "rtr_client_reset_queries";
  help = codes "number of reset queries by a client address";
  metric_type = MetricType.counter;
  unit = MetricUnit.total_unit;
}

abbrev pub serial_queries_metric : Metric
serial_queries_metric = record {
  name = codes "rtr_client_serial_queries";
  help = codes "number of serial queries by a client address";
  metric_type = MetricType.counter;
  unit = MetricUnit.total_unit;
}

abbrev pub client_read_metric : Metric
client_read_metric = record {
  name = codes "rtr_client_read";
  help = codes "number of bytes read from a client address";
  metric_type = MetricType.counter;
  unit = MetricUnit.byte;
}

abbrev pub client_write_metric : Metric
client_write_metric = record {
  name = codes "rtr_client_write";
  help = codes "number of bytes written to a client address";
  metric_type = MetricType.counter;
  unit = MetricUnit.byte;
}

abbrev pub open_metric : Metric
open_metric = record {
  name = codes "rtr_connections";
  help = codes "number of currently open RTR client connections";
  metric_type = MetricType.gauge;
  unit = MetricUnit.total_unit;
}

abbrev pub read_metric : Metric
read_metric = record {
  name = codes "rtr_read";
  help = codes "number of bytes read by an RTR target";
  metric_type = MetricType.counter;
  unit = MetricUnit.byte;
}

abbrev pub write_metric : Metric
write_metric = record {
  name = codes "rtr_write";
  help = codes "number of bytes written by an RTR target";
  metric_type = MetricType.counter;
  unit = MetricUnit.byte;
}

abbrev pub serial_metric : Metric
serial_metric = record {
  name = codes "rtr_target_serial";
  help = codes "current serial of an RTR target";
  metric_type = MetricType.gauge;
  unit = MetricUnit.total_unit;
}

abbrev pub payload_size_metric : Metric
payload_size_metric = record {
  name = codes "rtr_target_payload_size";
  help = codes "number of items in current payload set of an RTR target";
  metric_type = MetricType.gauge;
  unit = MetricUnit.total_unit;
}

-- `{:03}` of a number below a thousand, and `{}.{:03}` of seconds and milliseconds.
unfoldable pub three_digits : ℕ → Text
three_digits n =
    (if ltb n 100 then codes "0" else []) ++ ((if ltb n 10 then codes "0" else []) ++ decimal n)

unfoldable pub show_duration : ℕ → Text
show_duration milliseconds =
    decimal (milliseconds / 1000) ++ (codes "." ++ three_digits (milliseconds % 1000))

module _ {Addr DateTime : Type 0} (clock : Clock DateTime) (timestamp_opt : ℕ → Option DateTime)
    (show_addr : Addr → Text) where
  -- The loop over the clients: the values of a metric with their addresses.
  unfoldable pub addr_values : (MetricsData → Text) → PerAddrMetrics Addr → List Record
  addr_values show [] = []
  addr_values show ((addr, d) ∷ client) =
      label_value ((codes "addr", show_addr addr) ∷ []) (show d) ∷ addr_values show client

  abbrev pub show_serial : MetricsData → Text
  show_serial d = elim (serial d) [ some n ↦ decimal n | none ↦ codes "-1" ]

  abbrev pub show_since : Option DateTime → Text
  show_since time = elim time [
    | some t ↦ show_duration (clock.milliseconds_since t)
    | none ↦ codes "-1"
  ]

  unfoldable pub client_source : PerAddrMetrics Addr → Source
  client_source client =
      (client_open_metric, addr_values (λ d. decimal d.open_count) client)
      ∷ (client_serial_metric, addr_values show_serial client)
      ∷ (updated_metric, addr_values (λ d. show_since (updated timestamp_opt d)) client)
      ∷ (last_reset_metric, addr_values (λ d. show_since (last_reset timestamp_opt d)) client)
      ∷ (reset_queries_metric, addr_values (λ d. decimal d.reset_queries) client)
      ∷ (serial_queries_metric, addr_values (λ d. decimal d.serial_queries) client)
      ∷ (client_read_metric, addr_values (λ d. decimal d.bytes_read) client)
      ∷ (client_write_metric, addr_values (λ d. decimal d.bytes_written) client)
      ∷ []

  abbrev pub clients_source : Option (PerAddrMetrics Addr) → Source
  clients_source none = []
  clients_source (some client) = client_source client

  -- The metrics that `ListenerMetrics::append` appends.
  unfoldable pub source : ListenerMetrics Addr → ℕ → ℕ → Source
  source m serial_value payload_size =
      clients_source m.client
      ++ (simple serial_metric (decimal serial_value)
          ∷ simple payload_size_metric (decimal payload_size)
          ∷ simple open_metric (decimal m.global.open_count)
          ∷ simple read_metric (decimal m.global.bytes_read)
          ∷ simple write_metric (decimal m.global.bytes_written)
          ∷ [])
