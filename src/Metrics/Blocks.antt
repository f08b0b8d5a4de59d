-- ===== src/Metrics/Blocks.antt =====
-- The output of src/metrics.rs is made of one block for each metric.
use rtrtr.Base.{
  ◌≡◌, sym, ap, ◌∙◌, true, false, List, [], ◌∷◌, ◌++◌, some, if◌then◌else◌, append_assoc,
  append-nil,
}
use rtrtr.Text.{Text, codes}
use rtrtr.Metrics.{
  OutputFormat, prometheus, plain, new, Source, append_source, RegisteredSource, live,
  assemble_onto, assemble,
}
use rtrtr.Metrics.Lines.{block, holding, append-block}

-- The blocks of a source, and of the sources whose component lives.
unfoldable pub source_blocks : OutputFormat → Text → Source → Text
source_blocks f unit [] = []
source_blocks f unit ((m, rs) ∷ rest) = block f m (some unit) rs ++ source_blocks f unit rest

unfoldable pub all_blocks : OutputFormat → List RegisteredSource → Text
all_blocks f [] = []
all_blocks f (item ∷ items) = source_blocks f item.name item.source ++ all_blocks f items

append_source_lem :
    (f : OutputFormat) (s unit : Text) (source : Source)
    → append_source unit source (holding f s) ≡ holding f (s ++ source_blocks f unit source)
unfolding append_source source_blocks
append_source_lem f s unit [] = ap (holding f) (sym (append-nil s))
append_source_lem f s unit ((m, rs) ∷ rest) =
    ap (append_source unit rest) (append-block f s m (some unit) rs)
    ∙ append_source_lem f (s ++ block f m (some unit) rs) unit rest
    ∙ ap (holding f) (append_assoc s (block f m (some unit) rs) (source_blocks f unit rest))

assemble_onto_lem :
    (f : OutputFormat) (s : Text) (items : List RegisteredSource)
    → assemble_onto items (holding f s) ≡ holding f (s ++ all_blocks f (live items))
unfolding assemble_onto all_blocks live
assemble_onto_lem f s [] = ap (holding f) (sym (append-nil s))
assemble_onto_lem f s (item ∷ items) =
    elim item.lives
      as (λ b.
        assemble_onto items
          (if b then append_source item.name item.source (holding f s) else holding f s)
        ≡ holding f (
            s
            ++ all_blocks f (elim b as (λ _. List RegisteredSource) [
              | true ↦ item ∷ live items
              | false ↦ live items
            ]))) [
              | false ↦ assemble_onto_lem f s items
              | true ↦
                  ap (assemble_onto items) (append_source_lem f s item.name item.source)
                  ∙ assemble_onto_lem f (s ++ source_blocks f item.name item.source) items
                  ∙ ap (holding f) (
                      append_assoc s (source_blocks f item.name item.source)
                        (all_blocks f (live items)))
            ]

-- The line with the version, which only the plain format has.
abbrev pub version_line : Text → OutputFormat → Text
version_line crate prometheus = []
version_line crate plain = codes "version: " ++ (crate ++ codes "\n")

-- The output in a format is, after the version in the plain format, one block for each metric of the
-- sources whose component lives, in the order of the sources and of their metrics: none for a metric
-- of text in the Prometheus format, and otherwise the comments of that format, which name the metric,
-- and a line for each value with its labels, the component first among them.
pub assemble-blocks :
    (crate : Text) (sources : List RegisteredSource) (format : OutputFormat)
    → assemble crate sources format ≡ version_line crate format ++ all_blocks format (live sources)
unfolding assemble new
assemble-blocks crate sources prometheus =
    ap (λ t. t.target) (assemble_onto_lem prometheus [] sources)
assemble-blocks crate sources plain =
    ap (λ t. t.target) (assemble_onto_lem plain (version_line crate plain) sources)
