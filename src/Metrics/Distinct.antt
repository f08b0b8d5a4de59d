-- ===== src/Metrics/Distinct.antt =====
-- Names of metrics in the formats of src/metrics.rs, and when no two of them are the same.
use rtrtr.Base.{
  ◌≡◌, ◌≢◌, refl, sym, ap, subst, Bool, true, false, ◌&&◌, not, List, [], ◌∷◌, ◌++◌, none, arith,
  All,
}
use rtrtr.Text.{Text, same_text}
use rtrtr.Text.Trim.{same_text_iff}
use rtrtr.Units.Rtr.Metrics.{unless}
use rtrtr.Metrics.{Metric, Source, OutputFormat, append_metric_name}

-- The name of a metric in a format, without the name of its component.
abbrev pub metric_name : OutputFormat → Metric → Text
metric_name format metric =
    (append_metric_name (record { format = format; target = [] }) metric none).target

abbrev pub metric_names : OutputFormat → Source → List Text
metric_names format [] = []
metric_names format ((metric, values) ∷ rest) = metric_name format metric ∷ metric_names format rest

-- No name is there twice.
abbrev pub IsDistinct : List Text → Type 0
IsDistinct [] = Unit
IsDistinct (n ∷ ns) = All (λ k. n ≢ k) ns × IsDistinct ns

unfoldable pub is_other : Text → List Text → Bool
is_other n [] = true
is_other n (k ∷ ns) = not (same_text n k) && is_other n ns

unfoldable pub is_distinct : List Text → Bool
is_distinct [] = true
is_distinct (n ∷ ns) = is_other n ns && is_distinct ns

is_other_lem : (n : Text) (ns : List Text) → is_other n ns ≡ true → All (λ k. n ≢ k) ns
unfolding is_other
is_other_lem n [] h = tt
is_other_lem n (k ∷ ns) h =
    ((λ e. ground (arith, h, (same_text_iff n k).1 e)), is_other_lem n ns (ground (arith, h)))

pub is_distinct-IsDistinct : (ns : List Text) → is_distinct ns ≡ true → IsDistinct ns
unfolding is_distinct
is_distinct-IsDistinct [] h = tt
is_distinct-IsDistinct (n ∷ ns) h =
    (is_other_lem n ns (ground (arith, h)), is_distinct-IsDistinct ns (ground (arith, h)))

-- A list with some of the names, in the same order.
pub data IsPart : List Text → List Text → Type 0 where
  stop : IsPart [] []
  keep : {n : Text} {ns ks : List Text} → IsPart ns ks → IsPart (n ∷ ns) (n ∷ ks)
  skip : {k : Text} {ns ks : List Text} → IsPart ns ks → IsPart ns (k ∷ ks)

pub IsPart-refl : (ns : List Text) → IsPart ns ns
IsPart-refl [] = stop
IsPart-refl (n ∷ ns) = keep (IsPart-refl ns)

IsPart-All : (P : Text → Type 0) {ns ks : List Text} → IsPart ns ks → All P ks → All P ns
IsPart-All P stop a = a
IsPart-All P (keep p) a = (a.0, IsPart-All P p a.1)
IsPart-All P (skip p) a = IsPart-All P p a.1

pub IsPart-IsDistinct : {ns ks : List Text} → IsPart ns ks → IsDistinct ks → IsDistinct ns
IsPart-IsDistinct stop d = d
IsPart-IsDistinct (keep p) d = (IsPart-All _ p d.0, IsPart-IsDistinct p d.1)
IsPart-IsDistinct (skip p) d = IsPart-IsDistinct p d.1

pub none-IsPart : (ks : List Text) → IsPart [] ks
none-IsPart [] = stop
none-IsPart (k ∷ ks) = skip (none-IsPart ks)

pub unless-IsPart :
    (format : OutputFormat) (b : Bool) (s : Source) (ks : List Text)
    → IsPart (metric_names format s) ks
    → IsPart (metric_names format (unless b s)) ks
unless-IsPart format true s ks p = none-IsPart ks
unless-IsPart format false s ks p = p

pub append-IsPart :
    (format : OutputFormat) (a b : Source) (ks ls : List Text)
    → IsPart (metric_names format a) ks
    → IsPart (metric_names format b) ls
    → IsPart (metric_names format (a ++ b)) (ks ++ ls)
append-IsPart format a b ks ls p q = go (metric_names format a) ks p (names-append a)
  where
    names-append :
        (a : Source) → metric_names format (a ++ b) ≡ metric_names format a ++ metric_names format b
    names-append [] = refl
    names-append ((metric, values) ∷ a) = ap (λ ns. metric_name format metric ∷ ns) (names-append a)

    join : (ns ks : List Text) → IsPart ns ks → IsPart (ns ++ metric_names format b) (ks ++ ls)
    join _ _ stop = q
    join _ _ (keep p) = keep (join _ _ p)
    join _ _ (skip p) = skip (join _ _ p)

    go :
        (ns ks : List Text)
        → IsPart ns ks
        → metric_names format (a ++ b) ≡ ns ++ metric_names format b
        → IsPart (metric_names format (a ++ b)) (ks ++ ls)
    go ns ks p e = subst (λ x. IsPart x (ks ++ ls)) (sym e) (join ns ks p)
