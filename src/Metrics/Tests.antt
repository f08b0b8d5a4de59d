-- ===== src/Metrics/Tests.antt =====
-- Runs of src/metrics.rs.
use rtrtr.Comms.Metrics.{Clock}
use rtrtr.Comms.Metrics as Gate
use rtrtr.Metrics.Distinct.{IsDistinct, metric_names}
use rtrtr.Metrics.Names.{Part, part_source, part_source-IsDistinct}
use rtrtr.Units.Rtr.Metrics.{store_state, poll_read}
use rtrtr.Units.Rtr.Metrics as RtrClient
use rtrtr.Comms.Gate.{GateMetrics}
use rtrtr.Comms.Status.{UnitHealth}
use rtrtr.Base.{ℕ, none, some, ◌≡◌, refl, true, false, List, [], ◌∷◌, ◌++◌, if◌then◌else◌}
use rtrtr.Order.{is_eq}
use rtrtr.Text.{Text, codes, decimal, decimal_onto}
use rtrtr.Text.Compare.{text_order}
use rtrtr.Metrics.{
  Metric, gauge, text, total_unit, info, Source, value, label_value, RegisteredSource, live,
  register, prometheus, plain, assemble, assemble_onto, append_source, append, append_records,
  append_record, append_comments, append_value, append_label_value, push_labels, push_plain_labels,
  append_metric_name, new,
}
use rtrtr.Metrics.Blocks.{version_line, all_blocks, assemble-blocks}
use rtrtr.Metrics.Registered.{IsOrdered, named, register-IsOrdered}

abbrev connections : Metric
connections = record {
  name = codes "open";
  help = codes "open connections";
  metric_type = gauge;
  unit = total_unit;
}

abbrev state : Metric
state = record { name = codes "state"; help = codes "the state"; metric_type = text; unit = info }

abbrev source : Source
source =
    (state, value (codes "healthy") ∷ [])
    ∷ (connections, label_value ((codes "addr", codes "::1") ∷ []) (codes "2") ∷ [])
    ∷ []

abbrev sources : List RegisteredSource
sources =
    record { name = codes "b"; source = source; lives = true }
    ∷ record { name = codes "c"; source = source; lives = false }
    ∷ []

prometheus_output :
    assemble (codes "rtrtr/1") sources prometheus
    ≡ codes
        "# HELP rtrtr_open_total open connections\n# TYPE rtrtr_open_total gauge\nrtrtr_open_total{component=\"b\", addr=\"::1\"} 2\n"
unfolding assemble assemble_onto append_source append append_records append_record append_comments
    append_value append_label_value push_labels push_plain_labels append_metric_name new
prometheus_output = refl

plain_output :
    assemble (codes "rtrtr/1") sources plain
    ≡ codes "version: rtrtr/1\nb state: healthy\nb open addr=::1: 2\n"
unfolding assemble assemble_onto append_source append append_records append_record append_comments
    append_value append_label_value push_labels push_plain_labels append_metric_name new
plain_output = refl

assemble-blocks_example :
    assemble (codes "rtrtr/1") sources prometheus
    ≡ version_line (codes "rtrtr/1") prometheus ++ all_blocks prometheus (live sources)
assemble-blocks_example = assemble-blocks (codes "rtrtr/1") sources prometheus

register-IsOrdered_example :
    IsOrdered (register sources (codes "a") source)
    × ((n : Text)
        → named n (register sources (codes "a") source)
          ≡ named n (live sources)
            ++ (if is_eq n (codes "a")
                then record { name = codes "a"; source = source; lives = true } ∷ []
                else []))
register-IsOrdered_example = register-IsOrdered sources (codes "a") source

-- A client of the RTR protocol after an update at the time 5, of which it has read 20 bytes.
abbrev client_clock : Clock ℕ
client_clock = record {
  show_time = decimal;
  show_date = decimal;
  milliseconds_since = λ t. 1500;
  show_seconds = decimal;
}

abbrev client_gate : GateMetrics ℕ
client_gate = record { health = UnitHealth.healthy; count = 3; update = none }

abbrev client_part : Part ℕ ℕ
client_part =
    Part.client (store_state (some (7, 9)) 5 (poll_read 10 (some 30) (RtrClient.new client_gate)))

part_source-IsDistinct_example :
    IsDistinct
      (metric_names prometheus (part_source client_clock (λ t. some t) decimal client_part))
part_source-IsDistinct_example =
    part_source-IsDistinct client_clock (λ t. some t) decimal prometheus client_part

-- The serial number 2 ^ 32 - 1 counts as none: it is not shown.
last_serial_hidden :
    metric_names plain (
      RtrClient.source client_clock
        (λ t. some t)
        (store_state (some (7, RtrClient.u32_max)) 5 (RtrClient.new client_gate)))
    ≡ codes "unit_status"
      ∷ codes "vrps"
      ∷ codes "last_update"
      ∷ codes "since_last_update"
      ∷ codes "session_id"
      ∷ codes "since_last_rtr_update"
      ∷ codes "rtr_updated"
      ∷ codes "bytes_read"
      ∷ codes "bytes_written"
      ∷ []
unfolding RtrClient.source Gate.source store_state append_metric_name
last_serial_hidden = refl

client_output :
    assemble
      (codes "rtrtr/1")
      (record {
        name = codes "c";
        source =
            RtrClient.source client_clock
              (λ t. some t)
              (store_state (some (7, 9)) 5 (poll_read 10 (some 30) (RtrClient.new client_gate)));
        lives = true;
      }
        ∷ [])
      plain
    ≡ codes
        "version: rtrtr/1\nc unit_status: healthy\nc vrps: 3\nc last_update: N/A\nc since_last_update: -1\nc session_id: 7\nc serial: 9\nc since_last_rtr_update: 1\nc rtr_updated: 5\nc bytes_read: 20\nc bytes_written: 0\n"
unfolding RtrClient.source Gate.source store_state poll_read decimal decimal_onto assemble
    assemble_onto append_source append append_records append_record append_comments append_value
    append_metric_name new
client_output = refl
