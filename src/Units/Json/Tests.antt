-- ===== src/Units/Json/Tests.antt =====
-- Runs of src/units/json.rs.
use rtrtr.Base.{ℕ, ◌≡◌, refl, Bool, true, false, List, [], ◌∷◌, none, some, arith}
use rtrtr.Order.{nat_order}
use rtrtr.Text.{Text, codes, concat}
use rtrtr.Http.Response.{Hyper}
use rtrtr.Http.Etags.Listing.{strong}
use rtrtr.Payload.Update.{Update}
use rtrtr.Formats.Json.{Rpki, JsonVrp}
use rtrtr.Comms.Status.{UnitHealth}
use rtrtr.Comms.Gate.{Gate}
use rtrtr.Comms.Gate
use rtrtr.Units.JsonSource.{
  Outcome, finished, failed, SourceReader, response_reader, read, prepare_chunk, prepare_response,
  read_to_end,
}
use rtrtr.Units.Json.{
  parse_etag, HttpResponse, HttpSource, not_modified_response, http_round, http_rounds,
}
use rtrtr.Units.JsonSource.Reading.{complete, read_to_end-from}
use rtrtr.Units.Json.Fetching.{parse_etag-IsEtag, http_rounds-stay_stalled}

abbrev hyper : Hyper
hyper = record {
  HeaderValue = Text;
  to_str = λ v. some v;
  Time = ℕ;
  format_http_date = λ t. t ∷ [];
  parse_http_date = λ s. none;
  not_before = λ a b. true;
}

abbrev numbers : Rpki ℕ
numbers = record {
  Prefix = ℕ;
  MaxLenPrefix = ℕ;
  Asn = ℕ;
  RouteOrigin = ℕ;
  max_len_prefix = λ p m. some p;
  prefix = λ q. q;
  resolved_max_len = λ q. 24;
  route_origin = λ q a. q;
  origin_prefix = λ o. o;
  origin_asn = λ o. 7;
  origin = λ o. o;
  as_origin = λ n. some n;
  show_asn = λ n. n ∷ [];
  show_prefix = λ n. n ∷ [];
}

read_to_end-from_example :
    read_to_end 6 2 (record {
      reader = response_reader (finished (codes "abc") ∷ finished (codes "d") ∷ []);
      chunk = [];
    })
    ≡ some (finished (codes "abcd"))
unfolding concat
read_to_end-from_example =
    read_to_end-from 2 6 false true [] (codes "abc" ∷ codes "d" ∷ []) [] (omega arith)
      (omega arith, (omega arith, tt)) complete (omega arith)

-- A chunk without a byte ends the reading, although there is more to come.
read_empty :
    read_to_end 6 2
      (record { reader = response_reader (finished [] ∷ finished (codes "d") ∷ []); chunk = [] })
    ≡ some (finished [])
unfolding read_to_end read prepare_chunk prepare_response
read_empty = refl

parse_etag-IsEtag_example : parse_etag (codes "\"a\"" ∷ []) ≡ some (codes "\"a\"")
parse_etag-IsEtag_example = parse_etag-IsEtag (codes "\"a\"") (strong (codes "a") (refl, tt) refl)

abbrev source : HttpSource hyper
source = record { etag = some (codes "\"a\""); last_modified = none }

abbrev not_modified : HttpResponse hyper
not_modified = record { status = not_modified_response; etags = []; last_modified = []; body = [] }

abbrev same : Update ℕ → Update ℕ → Bool
same u v = false

abbrev len : Update ℕ → ℕ
len u = 0

abbrev parse : SourceReader → Outcome (List (JsonVrp numbers))
parse r = failed

abbrev gate : Gate (Update ℕ) ℕ
gate = Gate.new

http_rounds-stay_stalled_example :
    (g' : Gate (Update ℕ) ℕ) × (http_round hyper numbers same len
        (λ r. failed)
        parse
        (source, gate)
        1
      ≡ some (source, g'))
    × (g'.unit_status.health ≡ UnitHealth.stalled)
    × (http_rounds hyper numbers same len
          (λ r. finished not_modified)
          parse
          (source, g')
          (2 ∷ 3 ∷ [])
        ≡ some (source, g'))
http_rounds-stay_stalled_example =
    http_rounds-stay_stalled hyper numbers same len parse (λ r. failed) (λ r. finished not_modified)
      source gate 1 not_modified (2 ∷ 3 ∷ []) refl refl refl
