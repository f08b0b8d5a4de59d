-- ===== src/Units/Combine/Metrics.antt =====
-- src/units/combine.rs: the metrics of the unit that picks one of its sources.
use rtrtr.Base.{ℕ, ◌∷◌, Option, none, some}
use rtrtr.Text.{codes, decimal}
use rtrtr.Comms.Gate.{GateMetrics}
use rtrtr.Comms.Metrics.{Clock, simple}
use rtrtr.Comms.Metrics
use rtrtr.Metrics.{Metric, MetricType, MetricUnit, Source}

pub record AnyMetrics (Time : Type 0) : Type 0 where
  pub current_index : Option ℕ
  pub gate : GateMetrics Time

-- `AnyMetrics::new`, and the store of the index that was picked.
abbrev pub new : {Time : Type 0} → GateMetrics Time → AnyMetrics Time
new gate = record { current_index = none; gate = gate }

abbrev pub store_index : {Time : Type 0} → Option ℕ → AnyMetrics Time → AnyMetrics Time
store_index index m = record m { current_index = index }

abbrev pub current_index_metric : Metric
current_index_metric = record {
  name = codes "current_index";
  help = codes "the index of the currenly selected source";
  metric_type = MetricType.gauge;
  unit = MetricUnit.info;
}

-- The metrics that `AnyMetrics::append` appends.
unfoldable pub source : {Time : Type 0} → Clock Time → AnyMetrics Time → Source
source clock m =
    simple current_index_metric (elim m.current_index [ some v ↦ decimal v | none ↦ codes "-1" ])
    ∷ Metrics.source clock m.gate
