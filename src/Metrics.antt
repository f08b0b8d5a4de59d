-- ===== src/Metrics.antt =====
-- src/metrics.rs: the output of metrics, and the collection of their sources. A value is its text,
-- by `Display`. The closure that gives the values of a metric is the sequence of its calls, and a
-- source is the sequence of metrics that it appends.
pub mod Lines
pub mod Blocks
pub mod Registered
pub mod Distinct
pub mod Names
mod Tests
use Prim.Native.Nat.Ordering.{lt, eq, gt}
use rtrtr.Base.{Bool, true, false, List, [], ◌∷◌, ◌++◌, Option, none, some, if◌then◌else◌}
use rtrtr.Text.{Text, codes}
use rtrtr.Text.Compare.{compare_text}

pub data OutputFormat : Type 0 where
  prometheus plain : OutputFormat

pub data MetricType : Type 0 where
  counter gauge histogram summary text : MetricType

pub data MetricUnit : Type 0 where
  second celsius meter byte ratio volt ampere joule gram total_unit info : MetricUnit

pub record Metric : Type 0 where
  pub name : Text
  pub help : Text
  pub metric_type : MetricType
  pub unit : MetricUnit

abbrev pub allows_text : OutputFormat → Bool
allows_text prometheus = false
allows_text plain = true

abbrev pub supports_type : OutputFormat → MetricType → Bool
supports_type prometheus text = false
supports_type _ _ = true

-- `Display` of the types
abbrev pub show_type : MetricType → Text
show_type counter = codes "counter"
show_type gauge = codes "gauge"
show_type histogram = codes "histogram"
show_type summary = codes "summary"
show_type text = codes "text"

abbrev pub show_unit : MetricUnit → Text
show_unit second = codes "seconds"
show_unit celsius = codes "celsius"
show_unit meter = codes "meters"
show_unit byte = codes "bytes"
show_unit ratio = codes "ratio"
show_unit volt = codes "volts"
show_unit ampere = codes "amperes"
show_unit joule = codes "joules"
show_unit gram = codes "grams"
show_unit total_unit = codes "total"
show_unit info = codes "info"

abbrev pub prometheus_prefix : Text
prometheus_prefix = codes "rtrtr"

pub record Target : Type 0 where
  pub format : OutputFormat
  pub target : Text

abbrev pub push_str : Target → Text → Target
push_str t s = record t { target = t.target ++ s }

abbrev pub is_plain : OutputFormat → Bool
is_plain prometheus = false
is_plain plain = true

-- `Target::new`. The crate's name and version stand in a file of the build, and are an argument.
unfoldable pub new : Text → OutputFormat → Target
new crate format =
    let target : Target = record { format = format; target = [] } in
    if is_plain format then push_str target (codes "version: " ++ (crate ++ codes "\n")) else target

unfoldable pub append_metric_name : Target → Metric → Option Text → Target
append_metric_name t metric unit_name = elim t.format [
  | prometheus ↦
      push_str t
        (prometheus_prefix ++ (codes "_" ++ (metric.name ++ (codes "_" ++ show_unit metric.unit))))
  | plain ↦ elim unit_name [
    | some unit ↦ push_str t (unit ++ (codes " " ++ metric.name))
    | none ↦ push_str t metric.name
  ]
]

-- A call of `Records`.
pub data Record : Type 0 where
  value : Text → Record
  label_value : List (Text × Text) → Text → Record

-- `Records::value`
unfoldable pub append_value : Target → Metric → Option Text → Text → Target
append_value t metric unit_name v = elim t.format [
  | prometheus ↦
      let named = append_metric_name t metric unit_name in
      let labelled : Target = elim unit_name [
        | some unit ↦ push_str named (codes "{component=\"" ++ (unit ++ codes "\"}"))
        | none ↦ named
      ] in
      push_str labelled (codes " " ++ (v ++ codes "\n"))
  | plain ↦ push_str (append_metric_name t metric unit_name) (codes ": " ++ (v ++ codes "\n"))
]

-- The loop over the labels, in each format. `comma` tells whether a label stands before.
unfoldable pub push_labels : Bool → List (Text × Text) → Target → Target
push_labels comma [] t = t
push_labels comma ((name, v) ∷ labels) t = push_labels true labels (
    push_str t ((if comma then codes ", " else []) ++ (name ++ (codes "=\"" ++ (v ++ codes "\"")))))

unfoldable pub push_plain_labels : List (Text × Text) → Target → Target
push_plain_labels [] t = t
push_plain_labels ((name, v) ∷ labels) t =
    push_plain_labels labels (push_str t (codes " " ++ (name ++ (codes "=" ++ v))))

-- `Records::label_value`
unfoldable pub append_label_value :
    Target → Metric → Option Text → List (Text × Text) → Text → Target
append_label_value t metric unit_name labels v = elim t.format [
  | prometheus ↦
      let open_brace = push_str (append_metric_name t metric unit_name) (codes "{") in
      let labelled : Target = elim unit_name [
        | some unit ↦
            push_labels true labels
              (push_str open_brace (codes "component=\"" ++ (unit ++ codes "\"")))
        | none ↦ push_labels false labels open_brace
      ] in
      push_str labelled (codes "} " ++ (v ++ codes "\n"))
  | plain ↦
      push_str (push_plain_labels labels (append_metric_name t metric unit_name))
        (codes ": " ++ (v ++ codes "\n"))
]

unfoldable pub append_record : Target → Metric → Option Text → Record → Target
append_record t metric unit_name (value v) = append_value t metric unit_name v
append_record t metric unit_name (label_value labels v) =
    append_label_value t metric unit_name labels v

unfoldable pub append_records : Target → Metric → Option Text → List Record → Target
append_records t metric unit_name [] = t
append_records t metric unit_name (r ∷ rs) =
    append_records (append_record t metric unit_name r) metric unit_name rs

-- The comments before the values of a metric.
unfoldable pub append_comments : Target → Metric → Option Text → Target
append_comments t metric unit_name = elim t.format [
  | plain ↦ t
  | prometheus ↦
      let help = append_metric_name (push_str t (codes "# HELP ")) metric unit_name in
      let helped = push_str (push_str (push_str help (codes " ")) metric.help) (codes "\n") in
      let type_of = append_metric_name (push_str helped (codes "# TYPE ")) metric unit_name in
      push_str type_of (codes " " ++ (show_type metric.metric_type ++ codes "\n"))
]

-- `Target::append`
unfoldable pub append : Target → Metric → Option Text → List Record → Target
append t metric unit_name values =
    if supports_type t.format metric.metric_type
    then append_records (append_comments t metric unit_name) metric unit_name values
    else t

abbrev pub append_simple : Target → Metric → Option Text → Text → Target
append_simple t metric unit_name v = append t metric unit_name (value v ∷ [])

-- What a source appends: its metrics with their values.
abbrev pub Source : Type 0
Source = List (Metric × List Record)

unfoldable pub append_source : Text → Source → Target → Target
append_source unit_name [] t = t
append_source unit_name ((metric, values) ∷ rest) t =
    append_source unit_name rest (append t metric (some unit_name) values)

-- A weak pointer is the source and whether its component still lives.
pub record RegisteredSource : Type 0 where
  pub name : Text
  pub source : Source
  pub lives : Bool

-- `if item.source.strong_count() > 0`
unfoldable pub live : List RegisteredSource → List RegisteredSource
live [] = []
live (item ∷ items) = elim item.lives [ true ↦ item ∷ live items | false ↦ live items ]

-- `sort_by`, which is stable, by the name.
unfoldable pub place : RegisteredSource → List RegisteredSource → List RegisteredSource
place item [] = item ∷ []
place item (other ∷ others) = elim (compare_text item.name other.name) [
  | gt ↦ other ∷ place item others
  | _ ↦ item ∷ other ∷ others
]

unfoldable pub sort : List RegisteredSource → List RegisteredSource
sort [] = []
sort (item ∷ items) = place item (sort items)

-- `Collection::register`
unfoldable pub register : List RegisteredSource → Text → Source → List RegisteredSource
register sources name source =
    sort (live sources ++ record { name = name; source = source; lives = true } ∷ [])

unfoldable pub assemble_onto : List RegisteredSource → Target → Target
assemble_onto [] t = t
assemble_onto (item ∷ items) t =
    assemble_onto items (if item.lives then append_source item.name item.source t else t)

-- `Collection::assemble`
unfoldable pub assemble : Text → List RegisteredSource → OutputFormat → Text
assemble crate sources format = (assemble_onto sources (new crate format)).target
