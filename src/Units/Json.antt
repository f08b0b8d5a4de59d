-- ===== src/Units/Json.antt =====
-- src/units/json.rs: the JSON unit, which fetches its source and reads it. What the HTTP server, the
-- file system and `serde` give is an argument: a response with the header values and chunks of its
-- body, a file with its time and what reading it gives, and the parser of the text read. A unit that
-- is told to terminate while it waits is not modelled.
pub mod Fetching
mod Tests
use rtrtr.Base.{
  ℕ, Bool, true, false, not, ◌&&◌, List, [], ◌∷◌, Option, none, some, length, leb, if◌then◌else◌,
  ◌==◌,
}
use rtrtr.Order.{Order}
use rtrtr.Text.{Text, codes, starts_with}
use rtrtr.Http.Response.{Hyper}
use rtrtr.Payload.Update.{Update}
use rtrtr.Payload.Update
use rtrtr.Formats.Json.{Rpki, JsonVrp, read_vrps, into_payload}
use rtrtr.Comms.Status.{UnitUpdate}
use rtrtr.Comms.Gate.{Gate}
use rtrtr.Comms.Gate
use rtrtr.Units.JsonSource.{
  Outcome, finished, failed, file_reader, response_reader, SourceReader, new_reader,
}

pub data ResponseStatus : Type 0 where
  ok_response not_modified_response other_response : ResponseStatus

-- The last character is a quote.
unfoldable pub ends_quoted : Text → Bool
ends_quoted [] = false
ends_quoted (c ∷ []) = c == b'"'
ends_quoted (c ∷ d ∷ cs) = ends_quoted (d ∷ cs)

abbrev pub tag_start : Text → Option ℕ
tag_start etag =
    if starts_with etag (codes "W/\"")
    then some 3
    else if starts_with etag (codes "\"")
    then some 1
    else none

-- `SourceReader::parse_etag`, on the values of the header.
unfoldable pub parse_etag : List Text → Option Text
parse_etag [] = none
parse_etag (etag ∷ other ∷ etags) = none
parse_etag (etag ∷ []) = elim (tag_start etag) [
  | none ↦ none
  | some start ↦ if not (leb (length etag) start) && ends_quoted etag then some etag else none
]

module _ (h : Hyper) where
  -- `SourceReader::parse_last_modified`
  unfoldable pub parse_last_modified : List h.HeaderValue → Option h.Time
  parse_last_modified [] = none
  parse_last_modified (value ∷ other ∷ values) = none
  parse_last_modified (value ∷ []) = elim (h.to_str value) [
    | none ↦ none
    | some s ↦ h.parse_http_date s
  ]

  -- A response of a server, and the headers of a request.
  pub record HttpResponse : Type 0 where
    pub status : ResponseStatus
    pub etags : List Text
    pub last_modified : List h.HeaderValue
    pub body : List (Outcome Text)

  pub record HttpRequest : Type 0 where
    pub if_none_match : Option Text
    pub if_modified_since : Option Text

  -- The state of a source, without its address.
  pub record HttpSource : Type 0 where
    pub etag : Option Text
    pub last_modified : Option h.Time

  abbrev pub request_of : HttpSource → HttpRequest
  request_of s = record {
    if_none_match = s.etag;
    if_modified_since = elim s.last_modified [
      | none ↦ none
      | some ts ↦ some (h.format_http_date ts)
    ];
  }

  unfoldable pub open_response :
      HttpSource → HttpResponse → HttpSource × Outcome (Option SourceReader)
  open_response s response = elim response.status [
    | not_modified_response ↦ (s, finished none)
    | other_response ↦ (s, failed)
    | ok_response ↦ (
      record {
        etag = parse_etag response.etags;
        last_modified = parse_last_modified response.last_modified;
      },
      finished (some (new_reader (response_reader response.body))),
    )
  ]

  -- `SourceReader::open_http`, where `send` is the server with the network before it.
  unfoldable pub open_http :
      (HttpRequest → Outcome HttpResponse) → HttpSource → HttpSource × Outcome (Option SourceReader)
  open_http send s = elim (send (request_of s)) [
    | failed ↦ (s, failed)
    | finished response ↦ open_response s response
  ]

-- `if let (Some(modified), Some(last_modified))` with the comparison `>=`.
unfoldable pub is_current : {T : Type 0} → (T → T → Bool) → Option T → Option T → Bool
is_current not_before (some modified) (some last_modified) = not_before last_modified modified
is_current not_before modified last_modified = false

-- `SourceReader::open_file`
unfoldable pub open_file :
    {T : Type 0}
    → (T → T → Bool)
    → Option T
    → Outcome (List (Outcome Text))
    → Option T
    → Option T × Outcome (Option SourceReader)
open_file not_before modified opened last_modified =
    elim (is_current not_before modified last_modified) [
      | true ↦ (last_modified, finished none)
      | false ↦ elim opened [
        | failed ↦ (last_modified, failed)
        | finished results ↦ (modified, finished (some (new_reader (file_reader results))))
      ]
    ]

-- `Json::fetch_json`, once the source was opened: `parse` reads the source and parses it, and
-- `failed` is also a parser that panics.
unfoldable pub fetch_json :
    {A : Type 0} ⦃o : Order A⦄ (r : Rpki A)
    → (SourceReader → Outcome (List (JsonVrp r)))
    → Outcome (Option SourceReader)
    → Option (Outcome (Option (Update A)))
fetch_json r parse failed = some failed
fetch_json r parse (finished none) = some (finished none)
fetch_json r parse (finished (some reader)) = elim (parse reader) [
  | failed ↦ some failed
  | finished jsons ↦ elim (read_vrps r jsons) [
    | none ↦ some failed
    | some vrps ↦ elim (into_payload r vrps) [
      | none ↦ none
      | some set ↦ some (finished (some (Update.new set)))
    ]
  ]
]

-- `Json::step`, once the fetch has ended.
unfoldable pub step :
    {U Time : Type 0}
    → (U → U → Bool)
    → (U → ℕ)
    → Outcome (Option U)
    → Gate U Time
    → Time
    → Gate U Time
step same len (finished (some res)) gate now =
    (Gate.update same len gate (UnitUpdate.payload res) now).0
step same len (finished none) gate now = gate
step same len failed gate now = (Gate.update same len gate UnitUpdate.stalled now).0

-- What follows the opening of a source in a round. `none` is a panic.
unfoldable pub finish_round :
    {S A Time : Type 0} ⦃o : Order A⦄ (r : Rpki A)
    → (Update A → Update A → Bool)
    → (Update A → ℕ)
    → (SourceReader → Outcome (List (JsonVrp r)))
    → Gate (Update A) Time
    → Time
    → S × Outcome (Option SourceReader)
    → Option (S × Gate (Update A) Time)
finish_round r same len parse gate now (source, opened) = elim (fetch_json r parse opened) [
  | none ↦ none
  | some res ↦ some (source, step same len res gate now)
]

-- One round of the loop of `Json::run` with a source on an HTTP server.
unfoldable pub http_round :
    {A Time : Type 0} ⦃o : Order A⦄ (h : Hyper) (r : Rpki A)
    → (Update A → Update A → Bool)
    → (Update A → ℕ)
    → (HttpRequest h → Outcome (HttpResponse h))
    → (SourceReader → Outcome (List (JsonVrp r)))
    → HttpSource h × Gate (Update A) Time
    → Time
    → Option (HttpSource h × Gate (Update A) Time)
http_round h r same len send parse (source, gate) now =
    finish_round r same len parse gate now (open_http h send source)

-- The rounds one after the other, at these times.
unfoldable pub http_rounds :
    {A Time : Type 0} ⦃o : Order A⦄ (h : Hyper) (r : Rpki A)
    → (Update A → Update A → Bool)
    → (Update A → ℕ)
    → (HttpRequest h → Outcome (HttpResponse h))
    → (SourceReader → Outcome (List (JsonVrp r)))
    → HttpSource h × Gate (Update A) Time
    → List Time
    → Option (HttpSource h × Gate (Update A) Time)
http_rounds h r same len send parse state [] = some state
http_rounds h r same len send parse state (now ∷ times) =
    elim (http_round h r same len send parse state now) [
      | none ↦ none
      | some later ↦ http_rounds h r same len send parse later times
    ]
