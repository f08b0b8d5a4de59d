-- ===== src/Metrics/Lines.antt =====
-- The lines that `Target` of src/metrics.rs writes for a metric.
use rtrtr.Base.{
  ◌≡◌, refl, sym, ap, ◌∙◌, Bool, true, false, List, [], ◌∷◌, ◌++◌, Option, none, some,
  if◌then◌else◌, append_assoc, append-nil,
}
use rtrtr.Text.{Text, codes}
use rtrtr.Metrics.{
  OutputFormat, prometheus, plain, Metric, supports_type, show_type, show_unit, prometheus_prefix,
  Target, append_metric_name, Record, value, label_value, append_value, push_labels,
  push_plain_labels, append_label_value, append_record, append_records, append_comments, append,
}

-- The name of a metric in a format.
unfoldable pub metric_name : OutputFormat → Metric → Option Text → Text
metric_name prometheus m u =
    prometheus_prefix ++ (codes "_" ++ (m.name ++ (codes "_" ++ show_unit m.unit)))
metric_name plain m (some unit) = unit ++ (codes " " ++ m.name)
metric_name plain m none = m.name

label_text : Text × Text → Text
label_text (name, v) = name ++ (codes "=\"" ++ (v ++ codes "\""))

-- Labels with commas between them, and each after a comma.
more_labels : List (Text × Text) → Text
unfolding label_text
more_labels [] = []
more_labels (l ∷ ls) = (codes ", " ++ label_text l) ++ more_labels ls

unfoldable pub joined_labels : List (Text × Text) → Text
unfolding label_text more_labels
joined_labels [] = []
joined_labels (l ∷ ls) = label_text l ++ more_labels ls

-- The component comes first among the labels.
unfoldable pub all_labels : Option Text → List (Text × Text) → List (Text × Text)
all_labels none ls = ls
all_labels (some unit) ls = (codes "component", unit) ∷ ls

unfoldable pub plain_labels : List (Text × Text) → Text
plain_labels [] = []
plain_labels ((name, v) ∷ ls) = (codes " " ++ (name ++ (codes "=" ++ v))) ++ plain_labels ls

braces : List (Text × Text) → Text
braces ls = codes "{" ++ (joined_labels ls ++ codes "}")

-- The line of a value.
unfoldable pub line : OutputFormat → Metric → Option Text → Record → Text
unfolding braces
line prometheus m none (value v) = metric_name prometheus m none ++ (codes " " ++ (v ++ codes "\n"))
line prometheus m (some unit) (value v) =
    metric_name prometheus m (some unit)
    ++ (braces (all_labels (some unit) []) ++ (codes " " ++ (v ++ codes "\n")))
line prometheus m u (label_value ls v) =
    metric_name prometheus m u ++ (braces (all_labels u ls) ++ (codes " " ++ (v ++ codes "\n")))
line plain m u (value v) = metric_name plain m u ++ (codes ": " ++ (v ++ codes "\n"))
line plain m u (label_value ls v) =
    metric_name plain m u ++ (plain_labels ls ++ (codes ": " ++ (v ++ codes "\n")))

unfoldable pub lines : OutputFormat → Metric → Option Text → List Record → Text
lines f m u [] = []
lines f m u (r ∷ rs) = line f m u r ++ lines f m u rs

unfoldable pub comments : OutputFormat → Metric → Option Text → Text
comments plain m u = []
comments prometheus m u =
    codes "# HELP "
    ++ (metric_name prometheus m u
        ++ (codes " "
            ++ (m.help
                ++ (codes "\n# TYPE "
                    ++ (metric_name prometheus m u
                        ++ (codes " " ++ (show_type m.metric_type ++ codes "\n")))))))

-- What a metric adds to the output.
unfoldable pub block : OutputFormat → Metric → Option Text → List Record → Text
block f m u rs = if supports_type f m.metric_type then comments f m u ++ lines f m u rs else []

-- A target with its format and its text.
abbrev pub holding : OutputFormat → Text → Target
holding f s = record { format = f; target = s }

append_metric_name_lem :
    (f : OutputFormat) (s : Text) (m : Metric) (u : Option Text)
    → append_metric_name (holding f s) m u ≡ holding f (s ++ metric_name f m u)
unfolding append_metric_name metric_name
append_metric_name_lem prometheus s m u = refl
append_metric_name_lem plain s m none = refl
append_metric_name_lem plain s m (some unit) = refl

push_labels-more :
    (f : OutputFormat) (s : Text) (ls : List (Text × Text))
    → push_labels true ls (holding f s) ≡ holding f (s ++ more_labels ls)
unfolding push_labels more_labels label_text
push_labels-more f s [] = ap (holding f) (sym (append-nil s))
push_labels-more f s ((name, v) ∷ ls) =
    push_labels-more f (s ++ (codes ", " ++ label_text (name, v))) ls
    ∙ ap (holding f) (append_assoc s (codes ", " ++ label_text (name, v)) (more_labels ls))

push_labels-joined :
    (f : OutputFormat) (s : Text) (ls : List (Text × Text))
    → push_labels false ls (holding f s) ≡ holding f (s ++ joined_labels ls)
unfolding push_labels joined_labels label_text
push_labels-joined f s [] = ap (holding f) (sym (append-nil s))
push_labels-joined f s ((name, v) ∷ ls) =
    push_labels-more f (s ++ label_text (name, v)) ls
    ∙ ap (holding f) (append_assoc s (label_text (name, v)) (more_labels ls))

push_plain_labels_lem :
    (f : OutputFormat) (s : Text) (ls : List (Text × Text))
    → push_plain_labels ls (holding f s) ≡ holding f (s ++ plain_labels ls)
unfolding push_plain_labels plain_labels
push_plain_labels_lem f s [] = ap (holding f) (sym (append-nil s))
push_plain_labels_lem f s ((name, v) ∷ ls) =
    push_plain_labels_lem f (s ++ (codes " " ++ (name ++ (codes "=" ++ v)))) ls
    ∙ ap (holding f) (append_assoc s (codes " " ++ (name ++ (codes "=" ++ v))) (plain_labels ls))

append_record_lem :
    (f : OutputFormat) (s : Text) (m : Metric) (u : Option Text) (r : Record)
    → append_record (holding f s) m u r ≡ holding f (s ++ line f m u r)
unfolding append_record append_value append_label_value line braces all_labels joined_labels
    more_labels label_text
append_record_lem prometheus s m none (value v) = simp (append_metric_name_lem, append_assoc)
append_record_lem prometheus s m (some unit) (value v) = simp (append_metric_name_lem, append_assoc)
append_record_lem prometheus s m none (label_value ls v) =
    simp (append_metric_name_lem, push_labels-joined, append_assoc)
append_record_lem prometheus s m (some unit) (label_value ls v) =
    simp (append_metric_name_lem, push_labels-more, append_assoc)
append_record_lem plain s m none (value v) = simp (append_metric_name_lem, append_assoc)
append_record_lem plain s m (some unit) (value v) = simp (append_metric_name_lem, append_assoc)
append_record_lem plain s m u (label_value ls v) =
    simp (append_metric_name_lem, push_plain_labels_lem, append_assoc)

append_records_lem :
    (f : OutputFormat) (s : Text) (m : Metric) (u : Option Text) (rs : List Record)
    → append_records (holding f s) m u rs ≡ holding f (s ++ lines f m u rs)
unfolding append_records lines
append_records_lem f s m u [] = ap (holding f) (sym (append-nil s))
append_records_lem f s m u (r ∷ rs) =
    ap (λ t. append_records t m u rs) (append_record_lem f s m u r)
    ∙ append_records_lem f (s ++ line f m u r) m u rs
    ∙ ap (holding f) (append_assoc s (line f m u r) (lines f m u rs))

append_comments_lem :
    (f : OutputFormat) (s : Text) (m : Metric) (u : Option Text)
    → append_comments (holding f s) m u ≡ holding f (s ++ comments f m u)
unfolding append_comments comments
append_comments_lem plain s m u = ap (holding plain) (sym (append-nil s))
append_comments_lem prometheus s m u = simp (append_metric_name_lem, append_assoc)

-- A metric is appended as its block, whatever stands before it.
pub append-block :
    (f : OutputFormat) (s : Text) (m : Metric) (u : Option Text) (rs : List Record)
    → append (holding f s) m u rs ≡ holding f (s ++ block f m u rs)
unfolding append block
append-block f s m u rs = go (supports_type f m.metric_type)
  where
    go :
        (b : Bool)
        → (if b then append_records (append_comments (holding f s) m u) m u rs else holding f s)
          ≡ holding f (s ++ (if b then comments f m u ++ lines f m u rs else []))
    go false = ap (holding f) (sym (append-nil s))
    go true =
        ap (λ t. append_records t m u rs) (append_comments_lem f s m u)
        ∙ append_records_lem f (s ++ comments f m u) m u rs
        ∙ ap (holding f) (append_assoc s (comments f m u) (lines f m u rs))
