-- ===== src/Metrics/Names.antt =====
-- The names of the metrics that the parts of the program append to the output of src/metrics.rs: those
-- of src/comms.rs, src/units/combine.rs, src/units/rtr.rs and src/targets/rtr.rs.
use rtrtr.Base.{
  ℕ, ◌≡◌, refl, sym, ap, subst, true, ◌&&◌, List, [], ◌∷◌, ◌++◌, Option, none, some, arith, ◌==◌,
}
use rtrtr.Text.{Text, same_text}
use rtrtr.Comms.Gate.{GateMetrics}
use rtrtr.Comms.Metrics.{Clock}
use rtrtr.Comms.Metrics
use rtrtr.Units.Combine.Metrics.{AnyMetrics}
use rtrtr.Units.Combine.Metrics as AnySource
use rtrtr.Units.Rtr.Metrics.{RtrMetrics, unless, u32_max, i64_min}
use rtrtr.Units.Rtr.Metrics as RtrSource
use rtrtr.Targets.Rtr.Metrics.{MetricsData, ListenerMetrics, default}
use rtrtr.Targets.Rtr.Metrics.Output.{client_source, clients_source}
use rtrtr.Targets.Rtr.Metrics.Output
use rtrtr.Metrics.{Source, OutputFormat, append_metric_name}
use rtrtr.Metrics.Distinct.{
  metric_name, metric_names, IsDistinct, is_other, is_distinct, is_distinct-IsDistinct, IsPart,
  stop, keep, IsPart-refl, IsPart-IsDistinct, none-IsPart, unless-IsPart, append-IsPart,
}

-- The metrics of a part of the program.
pub data Part (Time Addr : Type 0) : Type 0 where
  gate : GateMetrics Time → Part Time Addr
  any : AnyMetrics Time → Part Time Addr
  client : RtrMetrics Time → Part Time Addr
  listener : ListenerMetrics Addr → ℕ → ℕ → Part Time Addr

module _ {Time Addr : Type 0} (clock : Clock Time) (timestamp_opt : ℕ → Option Time)
    (show_addr : Addr → Text) where
  abbrev pub part_source : Part Time Addr → Source
  part_source (gate m) = Metrics.source clock m
  part_source (any m) = AnySource.source clock m
  part_source (client m) = RtrSource.source clock timestamp_opt m
  part_source (listener m serial size) = Output.source clock timestamp_opt show_addr m serial size

  -- All names that a gate and a client can have.
  abbrev gate_names : OutputFormat → List Text
  gate_names format =
      metric_name format Metrics.status_metric
      ∷ metric_name format Metrics.count_metric
      ∷ metric_name format Metrics.update_metric
      ∷ metric_name format Metrics.update_ago_metric
      ∷ []

  abbrev client_names : OutputFormat → List Text
  client_names format =
      gate_names format
      ++ (metric_name format RtrSource.session_metric
          ∷ metric_name format RtrSource.serial_metric
          ∷ metric_name format RtrSource.updated_ago_metric
          ∷ metric_name format RtrSource.updated_metric
          ∷ metric_name format RtrSource.bytes_read_metric
          ∷ metric_name format RtrSource.bytes_written_metric
          ∷ [])

  update-gate_names :
      (format : OutputFormat) (u : Option Time)
      → metric_names format (Metrics.update_source clock u)
        ≡ metric_name format Metrics.update_metric
          ∷ metric_name format Metrics.update_ago_metric
          ∷ []
  update-gate_names format none = refl
  update-gate_names format (some u) = refl

  source-gate_names :
      (format : OutputFormat) (m : GateMetrics Time)
      → metric_names format (Metrics.source clock m) ≡ gate_names format
  unfolding Metrics.source
  source-gate_names format m =
      ap
        (λ ns.
          metric_name format Metrics.status_metric ∷ metric_name format Metrics.count_metric ∷ ns)
        (update-gate_names format m.update)

  gate-IsPart :
      (format : OutputFormat) (m : GateMetrics Time)
      → IsPart (metric_names format (Metrics.source clock m)) (gate_names format)
  gate-IsPart format m =
      subst (λ ns. IsPart ns (gate_names format)) (sym (source-gate_names format m)) (IsPart-refl _)

  updated-client_names :
      (format : OutputFormat) (u : Option Time)
      → IsPart (metric_names format (RtrSource.updated_source clock timestamp_opt u)) (
          metric_name format RtrSource.updated_ago_metric
          ∷ metric_name format RtrSource.updated_metric
          ∷ [])
  updated-client_names format none = none-IsPart _
  updated-client_names format (some u) = IsPart-refl _

  source-client_names :
      (format : OutputFormat) (m : RtrMetrics Time)
      → IsPart (metric_names format (RtrSource.source clock timestamp_opt m)) (client_names format)
  unfolding RtrSource.source
  source-client_names format m =
      append-IsPart format (Metrics.source clock m.gate) _ (gate_names format) _
        (gate-IsPart format m.gate)
        (append-IsPart format _ _ (metric_name format RtrSource.session_metric ∷ []) _
          (unless-IsPart format (m.session == u32_max) _ _ (keep stop))
          (append-IsPart format _ _ (metric_name format RtrSource.serial_metric ∷ []) _
            (unless-IsPart format (m.serial == u32_max) _ _ (keep stop))
            (append-IsPart format _ _
              (metric_name format RtrSource.updated_ago_metric
                ∷ metric_name format RtrSource.updated_metric
                ∷ [])
              _
              (unless-IsPart format (m.updated == i64_min) _ _
                (updated-client_names format (timestamp_opt m.updated)))
              (keep (keep stop)))))

  listener_names : OutputFormat → List Text
  listener_names format =
      metric_names format (Output.client_source clock timestamp_opt show_addr [])
      ++ metric_names format (
          Output.source clock timestamp_opt show_addr (record { global = default; client = none }) 0
            0)

  source-listener_names :
      (format : OutputFormat) (m : ListenerMetrics Addr) (serial size : ℕ)
      → IsPart
          (metric_names format (Output.source clock timestamp_opt show_addr m serial size))
          (listener_names format)
  unfolding Output.source Output.client_source listener_names
  source-listener_names format m serial size =
      append-IsPart format (Output.clients_source clock timestamp_opt show_addr m.client) _
        (metric_names format (Output.client_source clock timestamp_opt show_addr [])) _
        (clients m.client) (IsPart-refl _)
    where
      clients :
          (c : Option (List (Addr × MetricsData)))
          → IsPart
              (metric_names format (Output.clients_source clock timestamp_opt show_addr c))
              (metric_names format (Output.client_source clock timestamp_opt show_addr []))
      clients none = none-IsPart _
      clients (some addrs) = IsPart-refl _

  names_distinct :
      (format : OutputFormat)
      → is_distinct (gate_names format)
          && (is_distinct (metric_name format AnySource.current_index_metric ∷ gate_names format)
              && (is_distinct (client_names format) && is_distinct (listener_names format)))
        ≡ true
  unfolding is_distinct is_other append_metric_name same_text listener_names Output.client_source
      Output.source
  names_distinct OutputFormat.plain = refl
  names_distinct OutputFormat.prometheus = refl

  parts_names : OutputFormat → Part Time Addr → List Text
  parts_names format (gate m) = gate_names format
  parts_names format (any m) = metric_name format AnySource.current_index_metric ∷ gate_names format
  parts_names format (client m) = client_names format
  parts_names format (listener m serial size) = listener_names format

  part-IsPart :
      (format : OutputFormat) (part : Part Time Addr)
      → IsPart (metric_names format (part_source part)) (parts_names format part)
  unfolding parts_names AnySource.source
  part-IsPart format (gate m) = gate-IsPart format m
  part-IsPart format (any m) = keep (gate-IsPart format m.gate)
  part-IsPart format (client m) = source-client_names format m
  part-IsPart format (listener m serial size) = source-listener_names format m serial size

  parts_names-distinct :
      (format : OutputFormat) (part : Part Time Addr) → is_distinct (parts_names format part) ≡ true
  unfolding parts_names
  parts_names-distinct format (gate m) = ground (arith, names_distinct format)
  parts_names-distinct format (any m) = ground (arith, names_distinct format)
  parts_names-distinct format (client m) = ground (arith, names_distinct format)
  parts_names-distinct format (listener m serial size) = ground (arith, names_distinct format)

  -- In each format, no two of the metrics that a gate, a unit that picks a source, an RTR client or a
  -- listener of an RTR target appends have one name, whatever their state is.
  pub part_source-IsDistinct :
      (format : OutputFormat) (part : Part Time Addr)
      → IsDistinct (metric_names format (part_source part))
  part_source-IsDistinct format part =
      IsPart-IsDistinct (part-IsPart format part)
        (is_distinct-IsDistinct _ (parts_names-distinct format part))
