-- ===== src/Comms/Metrics.antt =====
-- src/comms.rs: the metrics that a gate appends to the output. What chrono gives for a time is an
-- argument; the clock does not go back.
use rtrtr.Base.{ℕ, List, [], ◌∷◌, Option, none, some}
use rtrtr.Text.{Text, codes, decimal}
use rtrtr.Comms.Status.{UnitHealth}
use rtrtr.Comms.Gate.{GateMetrics}
use rtrtr.Metrics.{Metric, MetricType, MetricUnit, Record, value, Source}

pub record Clock (Time : Type 0) : Type 0 where
  -- `Display` of the time, the time as an ISO date, the milliseconds from then until now, and these as
  -- a number of seconds, which is a floating point number.
  pub show_time : Time → Text
  pub show_date : Time → Text
  pub milliseconds_since : Time → ℕ
  pub show_seconds : ℕ → Text

-- `Display` of the health.
abbrev pub show_health : UnitHealth → Text
show_health UnitHealth.healthy = codes "healthy"
show_health UnitHealth.stalled = codes "stalled"
show_health UnitHealth.gone = codes "gone"

abbrev pub status_metric : Metric
status_metric = record {
  name = codes "unit_status";
  help = codes "the operational status of the unit";
  metric_type = MetricType.text;
  unit = MetricUnit.info;
}

abbrev pub count_metric : Metric
count_metric = record {
  name = codes "vrps";
  help = codes "the number of VRPs in the last update";
  metric_type = MetricType.gauge;
  unit = MetricUnit.total_unit;
}

abbrev pub update_metric : Metric
update_metric = record {
  name = codes "last_update";
  help = codes "the date and time of the last update";
  metric_type = MetricType.text;
  unit = MetricUnit.info;
}

abbrev pub update_ago_metric : Metric
update_ago_metric = record {
  name = codes "since_last_update";
  help = codes "the number of seconds since the last update";
  metric_type = MetricType.gauge;
  unit = MetricUnit.second;
}

-- `append_simple`
abbrev pub simple : Metric → Text → Metric × List Record
simple metric v = (metric, value v ∷ [])

-- The metrics that `GateMetrics::append` appends, first those of the time of the last update.
module _ {Time : Type 0} (clock : Clock Time) where
  abbrev pub update_source : Option Time → Source
  update_source (some update) =
      simple update_metric (clock.show_time update)
      ∷ simple update_ago_metric (clock.show_seconds (clock.milliseconds_since update))
      ∷ []
  update_source none =
      simple update_metric (codes "N/A") ∷ simple update_ago_metric (codes "-1") ∷ []

  unfoldable pub source : GateMetrics Time → Source
  source m =
      simple status_metric (show_health m.health)
      ∷ simple count_metric (decimal m.count)
      ∷ update_source m.update
