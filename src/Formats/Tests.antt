-- ===== src/Formats/Tests.antt =====
-- Runs of src/formats/json.rs.
use rtrtr.Base.{ℕ, ◌≡◌, refl, List, [], ◌∷◌, map, none, some, ltb, leb, if◌then◌else◌, arith, slice}
use rtrtr.Order.{nat_order, elem, IsSorted}
use rtrtr.Text.{Text, codes, concat, decimal, decimal_onto}
use rtrtr.Payload.Set.{Set, flatten, IsWellFormed}
use rtrtr.Payload.Block.{contents}
use rtrtr.Payload.Tests.{left, whole-IsWellFormed}
use rtrtr.Formats.Json.{Rpki, Vrp, vrp_payload, into_payload, frames, new, entry}
use rtrtr.Formats.Json.Input.{into_payload-roas}
use rtrtr.Formats.Json.Origins.{document, origins, entries, more_entries}
use rtrtr.Formats.Json.Output.{frames-document}

-- Payload items are numbers here: those below 5 are route origins, of one AS.
abbrev numbers : Rpki ℕ
numbers = record {
  Prefix = ℕ;
  MaxLenPrefix = ℕ × ℕ;
  Asn = ℕ;
  RouteOrigin = (ℕ × ℕ) × ℕ;
  max_len_prefix = λ p m. if leb m 32 then some (p, m) else none;
  prefix = λ q. q.0;
  resolved_max_len = λ q. q.1;
  route_origin = λ q a. (q, a);
  origin_prefix = λ o. o.0;
  origin_asn = λ o. o.1;
  origin = λ o. o.0.0;
  as_origin = λ n. if ltb n 5 then some ((n, 24), 7) else none;
  show_asn = decimal;
  show_prefix = decimal;
}

abbrev vrp : ℕ → Vrp numbers
vrp n = record { payload = ((n, 24), 7) }

into_payload-roas_example :
    (s : Set ℕ) × (into_payload numbers (vrp 3 ∷ vrp 1 ∷ vrp 3 ∷ []) ≡ some s)
    × IsWellFormed s
    × IsSorted (flatten s.blocks)
    × ((a : ℕ)
        → elem a (flatten s.blocks)
          ≡ elem a (map (vrp_payload numbers) (vrp 3 ∷ vrp 1 ∷ vrp 3 ∷ [])))
into_payload-roas_example = into_payload-roas numbers (vrp 3 ∷ vrp 1 ∷ vrp 3 ∷ [])

frames-document_example :
    (ts : List Text) × (frames numbers 6 4 (new left) ≡ some ts)
    × (concat ts ≡ document numbers (origins numbers (flatten left.blocks)))
frames-document_example =
    frames-document numbers left 6 4 (whole-IsWellFormed (1 ∷ 3 ∷ 5 ∷ [])).in_range tt
      (unfold flatten contents slice in omega arith) (unfold flatten contents slice in omega arith)

document_example :
    document numbers (((3, 24), 7) ∷ ((1, 16), 70) ∷ [])
    ≡ codes
        "{\n  \"roas\": [\n    { \"asn\": \"7\", \"prefix\": \"3\", \"maxLength\": 24, \"ta\": \"N/A\" },\n    { \"asn\": \"70\", \"prefix\": \"1\", \"maxLength\": 16, \"ta\": \"N/A\" }\n  ]\n}"
unfolding entries more_entries entry decimal decimal_onto
document_example = refl
