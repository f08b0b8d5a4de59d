-- ===== src/Targets/Http.antt =====
-- src/targets/http.rs: the HTTP target. A loop over the tags of a header gets the length of the
-- header's value and one more as fuel; `none` is a loop that runs out of it.
pub mod Listed
pub mod Unchanged
pub mod Ends
pub mod Served
use rtrtr.Base.{
  ℕ, zero, suc, Bool, true, false, not, ◌||◌, List, [], ◌∷◌, ◌++◌, Option, none, some, length,
  ◌>>=◌, if◌then◌else◌,
}
use rtrtr.Text.{Text, codes, trim, same_text}
use rtrtr.Http.Etags.{EtagsIter}
use rtrtr.Http.Etags
use rtrtr.Http.Response.{Hyper, Method, get, other_method, Request, Response, text_type, body}
use rtrtr.Http.Response
use rtrtr.Payload.Set.{Set}
use rtrtr.Payload.Update.{Update}
use rtrtr.Comms.Status.{UnitUpdate, payload, stalled, gone}
use rtrtr.Targets.Rtr.{Protocol}

pub record SourceData (h : Hyper) (A : Type 0) : Type 0 where
  pub set : Set A
  pub etag : Text
  pub created : h.Time

-- `Source`
abbrev pub Source : Hyper → Type 0 → Type 0
Source h A = Option (SourceData h A)

-- `for tag in EtagsIter::new(value)`
unfoldable pub any_tag : ℕ → EtagsIter → Text → Option Bool
any_tag zero it etag = none
any_tag (suc f) it etag = elim (Etags.next it).1 [
  | none ↦ some false
  | some tag ↦ elim (same_text (trim tag) etag) [
    | true ↦ some true
    | false ↦ any_tag f (Etags.next it).0 etag
  ]
]

-- Whether a value of If-None-Match matches.
unfoldable pub value_matches : Text → Text → Option Bool
value_matches etag value =
    if same_text value (codes "*")
    then some true
    else any_tag (suc (length value)) (Etags.new value) etag

abbrev pub initial_response : Response
initial_response =
    body (Response.content_type Response.service_unavailable text_type)
      (codes "Initial validation ongoing. Please wait.")

abbrev pub is_get : Method → Bool
is_get get = true
is_get other_method = false

module _ (h : Hyper) where
  -- `for value in req.headers().get_all(IF_NONE_MATCH).iter()`
  unfoldable pub none_match : Text → List h.HeaderValue → Option Bool
  none_match etag [] = some false
  none_match etag (value ∷ values) = elim (h.to_str value) [
    | none ↦ none_match etag values
    | some s ↦ do
      hit ← value_matches etag (trim s)
      elim hit [ true ↦ some true | false ↦ none_match etag values ]
  ]

  -- The check of If-Modified-Since.
  unfoldable pub unmodified_since : h.Time → Option h.HeaderValue → Bool
  unmodified_since created none = false
  unmodified_since created (some value) = elim (h.to_str value) [
    | none ↦ false
    | some s ↦ elim (h.parse_http_date s) [ none ↦ false | some date ↦ h.not_before date created ]
  ]

  module _ {A : Type 0} where
    unfoldable pub is_not_modified : SourceData h A → Request h → Option Bool
    is_not_modified d request = elim request.if_none_match [
      | [] ↦ some (unmodified_since d.created request.if_modified_since)
      | value ∷ values ↦ none_match d.etag (value ∷ values)
    ]

    abbrev pub not_modified : SourceData h A → Response
    not_modified d =
        Response.empty
          (Response.last_modified h (Response.etag Response.not_modified d.etag) d.created)

    -- The frames that `format.stream` gives for a set, and the content type of the format, are
    -- arguments.
    unfoldable pub full_response : Text → (Set A → List Text) → SourceData h A → Response
    full_response content_type frames d =
        Response.stream
          (Response.last_modified h
            (Response.etag (Response.content_type Response.ok content_type) d.etag) d.created)
          (frames d.set)

    -- The closure `processor`. The outer option is the loop's fuel.
    unfoldable pub process :
        Text → Text → (Set A → List Text) → Source h A → Request h → Option (Option Response)
    process path content_type frames source request =
        if not (is_get request.method) || not (same_text request.path path)
        then some none
        else elim source [
          | none ↦ some (some initial_response)
          | some d ↦ do
            unchanged ← is_not_modified d request
            some (
                if unchanged
                then some (not_modified d)
                else some (full_response content_type frames d))
        ]

module _ (p : Protocol) (h : Hyper) (show : p.State → Text) {A : Type 0} where
  -- `SourceData::new`, and the state that it moves on. How a state's session and serial number are
  -- printed is an argument.
  unfoldable pub new : Update A → p.State → h.Time → SourceData h A × p.State
  new u state now =
      (record { set = u.set; etag = b'"' ∷ show state ++ b'"' ∷ []; created = now }, p.inc state)

  -- The loop of `run`: what the link gives becomes the source's data.
  unfoldable pub run_update :
      Source h A → p.State → UnitUpdate (Update A) → h.Time → Source h A × p.State
  run_update source state stalled now = (source, state)
  run_update source state gone now = (source, state)
  run_update source state (payload u) now = let (d, next) = new u state now in (some d, next)
