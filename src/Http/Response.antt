-- ===== src/Http/Response.antt =====
-- src/http.rs: `ResponseBuilder` and `ContentType`, and what the handlers read of a request.
-- `hyper::Request` and its header values, and the dates that `chrono` parses and formats for
-- src/utils/http.rs, are not part of this repository: they are parameters. No header value that the
-- program sets is refused, so `finalize` does not panic.
use rtrtr.Base.{Bool, List, [], ◌∷◌, ◌++◌, Option}
use rtrtr.Text.{Text, codes}

pub record Hyper : Type 1 where
  pub HeaderValue : Type 0
  pub to_str : HeaderValue → Option Text
  pub Time : Type 0
  pub format_http_date : Time → Text
  pub parse_http_date : Text → Option Time
  -- `>=` of the times.
  pub not_before : Time → Time → Bool

pub data Method : Type 0 where
  get other_method : Method

-- The headers that the program looks at: all values of If-None-Match, and the first one of
-- If-Modified-Since.
pub record Request (h : Hyper) : Type 0 where
  pub method : Method
  pub path : Text
  pub if_none_match : List h.HeaderValue
  pub if_modified_since : Option h.HeaderValue

pub data StatusCode : Type 0 where
  ok_status service_unavailable_status bad_request_status not_found_status : StatusCode
  not_modified_status method_not_allowed_status moved_permanently_status : StatusCode

-- The body is the sequence of its frames.
pub record Response : Type 0 where
  pub status : StatusCode
  pub headers : List (Text × Text)
  pub body : List Text

pub record ResponseBuilder : Type 0 where
  pub status : StatusCode
  pub headers : List (Text × Text)

abbrev pub new : StatusCode → ResponseBuilder
new status = record { status = status; headers = [] }

abbrev pub ok : ResponseBuilder
ok = new ok_status

abbrev pub service_unavailable : ResponseBuilder
service_unavailable = new service_unavailable_status

abbrev pub bad_request : ResponseBuilder
bad_request = new bad_request_status

abbrev pub not_found : ResponseBuilder
not_found = new not_found_status

abbrev pub not_modified : ResponseBuilder
not_modified = new not_modified_status

abbrev pub method_not_allowed : ResponseBuilder
method_not_allowed = new method_not_allowed_status

abbrev pub moved_permanently : ResponseBuilder
moved_permanently = new moved_permanently_status

-- `Builder::header`
abbrev pub header : ResponseBuilder → Text → Text → ResponseBuilder
header b name value = record b { headers = b.headers ++ (name, value) ∷ [] }

abbrev pub csv_type : Text
csv_type = codes "text/csv;charset=utf-8;header=present"

abbrev pub json_type : Text
json_type = codes "application/json"

abbrev pub text_type : Text
text_type = codes "text/plain;charset=utf-8"

abbrev pub prometheus_type : Text
prometheus_type = codes "text/plain; version=0.0.4"

abbrev pub content_type : ResponseBuilder → Text → ResponseBuilder
content_type b value = header b (codes "Content-Type") value

abbrev pub etag : ResponseBuilder → Text → ResponseBuilder
etag b value = header b (codes "ETag") value

module _ (h : Hyper) where
  abbrev pub last_modified : ResponseBuilder → h.Time → ResponseBuilder
  last_modified b time = header b (codes "Last-Modified") (h.format_http_date time)

abbrev pub location : ResponseBuilder → Text → ResponseBuilder
location b value = header b (codes "Location") value

abbrev pub finalize : ResponseBuilder → List Text → Response
finalize b frames = record { status = b.status; headers = b.headers; body = frames }

abbrev pub body : ResponseBuilder → Text → Response
body b content = finalize b (content ∷ [])

abbrev pub empty : ResponseBuilder → Response
empty b = finalize b []

abbrev pub stream : ResponseBuilder → List Text → Response
stream b frames = finalize b frames
