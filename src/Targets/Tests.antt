-- ===== src/Targets/Tests.antt =====
-- Runs of src/targets/rtr.rs.
use rtrtr.Base.{
  Option, true, List, none, leb, ◌*◌, if◌then◌else◌, ◌≡◌, slice, ℕ, suc, refl, [], ◌∷◌, some, ◌==◌,
  ==_iff, arith, inl,
}
use Prim.Native.Nat.{◌/◌}
use rtrtr.Order.{nat_order}
use rtrtr.Text.{Text, codes, same_text, is_whitespace, trim_start, trim_end}
use rtrtr.Http.Etags.Listing.{strong, last}
use rtrtr.Http.Response.{Hyper, Request, Response, get, json_type}
use rtrtr.Targets.Http.{SourceData, process, not_modified, full_response}
use rtrtr.Http.Resources.{register, process_request}
use rtrtr.Http.Server.{handle_request}
use rtrtr.Targets.Http.Ends.{process-Ends}
use rtrtr.Targets.Http.Served.{processor, handle_request-lists}
use rtrtr.Targets.Http.Listed.{lists}
use rtrtr.Targets.Http.Unchanged.{AllListings, listing, done}
use rtrtr.Payload.Set.{Set}
use rtrtr.Payload.Diff.{OwnedDiffIter}
use rtrtr.Payload.Diff
use rtrtr.Payload.Diff.{Diff}
use rtrtr.Payload.Set.{flatten}
use rtrtr.Payload.Block.{contents}
use rtrtr.Sorted.Without.{without, select}
use rtrtr.Payload.Update.{new}
use rtrtr.Payload.Tests.{
  left, right, whole-IsWellFormed, whole-IsSorted, left-IsSorted, right-IsSorted,
}
use rtrtr.Comms.Status.{payload}
use rtrtr.Targets.Rtr.{Protocol, Source, ListenerMetrics, update, diff, get_diff, find_diff}
use rtrtr.Targets.Rtr.History.{IsHistory, Updated, update-Updated}
use rtrtr.Targets.Rtr.Answer.{Answered, diff-IsDiff, diff-answers}

-- Sessions and serial numbers are numbers here.
abbrev numbers : Protocol
numbers = record {
  State = ℕ × ℕ;
  Session = ℕ;
  Serial = ℕ;
  Timing = Unit;
  session = λ s. s.0;
  serial = λ s. s.1;
  inc = λ s. (s.0, suc s.1);
  same_session = λ a b. a == b;
  same_serial = λ a b. a == b;
}

-- A source with its first data set.
abbrev source : Source numbers ℕ
source = record {
  source_data = record { state = (7, 0); current = some left; diffs = []; timing = tt };
  history_size = 2;
  timing = tt;
}

abbrev metrics : ListenerMetrics numbers
metrics = record { serial = 0; payload_size = 3 }

source-IsHistory : IsHistory numbers [] left source
source-IsHistory = record {
  loaded = refl;
  well_formed = whole-IsWellFormed (1 ∷ 3 ∷ 5 ∷ []);
  sorted = whole-IsSorted (1 ∷ 3 ∷ 5 ∷ []) left-IsSorted;
  past_sorted = tt;
  serves = tt;
  bounded = inl (omega arith);
  complete = inl refl;
}

update-Updated_example :
    Updated numbers [] left source metrics right
      (update numbers source metrics (payload (new right)))
update-Updated_example =
    update-Updated numbers [] left source metrics right source-IsHistory
      (whole-IsWellFormed (1 ∷ 3 ∷ 4 ∷ [])) (whole-IsSorted (1 ∷ 3 ∷ 4 ∷ []) right-IsSorted)

-- The diff that the source keeps after the data of `right` has come in.
abbrev kept : Diff ℕ
kept = record { announced = record { items = 4 ∷ [] }; withdrawn = record { items = 5 ∷ [] } }

abbrev later_source : Source numbers ℕ
later_source = record {
  source_data = record {
    state = (7, 1);
    current = some right;
    diffs = (0, kept) ∷ [];
    timing = tt;
  };
  history_size = 2;
  timing = tt;
}

later_source-IsHistory : IsHistory numbers ((0, flatten left.blocks) ∷ []) right later_source
later_source-IsHistory = record {
  loaded = refl;
  well_formed = whole-IsWellFormed (1 ∷ 3 ∷ 4 ∷ []);
  sorted = whole-IsSorted (1 ∷ 3 ∷ 4 ∷ []) right-IsSorted;
  past_sorted = (whole-IsSorted (1 ∷ 3 ∷ 5 ∷ []) left-IsSorted, tt);
  serves = (
    refl,
    unfold flatten contents slice without select in record { announces = refl; withdraws = refl },
    tt,
  );
  bounded = inl (omega arith);
  complete = inl refl;
}

diff-IsDiff_example :
    Answered numbers
      ((0, flatten left.blocks) ∷ [])
      right
      later_source
      (7, 0)
      (7, 1)
      (Diff.owned_iter kept)
diff-IsDiff_example =
    diff-IsDiff numbers ((0, flatten left.blocks) ∷ []) right later_source (7, 0) (7, 1)
      (Diff.owned_iter kept) (λ a b. (==_iff a b).0) later_source-IsHistory
      (unfold diff get_diff find_diff in refl)

diff-answers_example :
    (it : OwnedDiffIter ℕ) × (diff numbers later_source (7, 0) ≡ some ((7, 1), it))
diff-answers_example =
    diff-answers numbers ((0, flatten left.blocks) ∷ []) right later_source (7, 0) 0
      (flatten left.blocks) (λ a. (==_iff a a).1 refl) later_source-IsHistory refl refl
      (omega arith)

-- Times are milliseconds here, and a formatted date is its number of seconds.
abbrev hyper : Hyper
hyper = record {
  HeaderValue = Text;
  to_str = λ v. some v;
  Time = ℕ;
  format_http_date = λ t. (t / 1000) ∷ [];
  parse_http_date = λ s. elim s [ [] ↦ none | c ∷ cs ↦ some (c * 1000) ];
  not_before = λ a b. leb b a;
}

abbrev http_data : SourceData hyper ℕ
http_data = record { set = left; etag = codes "\"7-0\""; created = 5_250 }

abbrev no_frames : Set ℕ → List Text
no_frames s = []

abbrev if_none_match : Request hyper
if_none_match = record {
  method = get;
  path = codes "/json";
  if_none_match = codes " \"7-0\"" ∷ [];
  if_modified_since = none;
}

if_none_match-AllListings : AllListings hyper (codes " \"7-0\"" ∷ []) (codes "\"7-0\"" ∷ [])
unfolding trim_start trim_end is_whitespace
if_none_match-AllListings =
    listing (codes " \"7-0\"") (codes "\"7-0\"" ∷ []) refl
      (last [] (codes "\"7-0\"") [] tt (strong (codes "7-0") (refl, (refl, (refl, tt))) refl) tt
        refl)
      done refl

abbrev if_modified_since : Request hyper
if_modified_since = record {
  method = get;
  path = codes "/json";
  if_none_match = [];
  if_modified_since = some (5 ∷ []);
}

process-Ends_example :
    (answer : Option Response) × (process hyper
        (codes "/json")
        json_type
        no_frames
        (some http_data)
        if_none_match
      ≡ some answer)
process-Ends_example =
    process-Ends hyper (codes "/json") json_type no_frames (some http_data) if_none_match

handle_request-lists_example :
    handle_request
      (codes "rtrtr/1")
      []
      hyper
      (register [] (record {
        process = processor hyper (codes "/json") json_type no_frames (some http_data);
        lives = true;
      }))
      if_none_match
    ≡ (if lists http_data.etag (codes "\"7-0\"" ∷ [])
        then not_modified hyper http_data
        else full_response hyper json_type no_frames http_data)
unfolding same_text process_request
handle_request-lists_example =
    handle_request-lists hyper (codes "rtrtr/1") [] [] json_type no_frames http_data if_none_match
      (codes " \"7-0\"") [] (codes "\"7-0\"" ∷ []) refl refl refl refl refl
      if_none_match-AllListings
