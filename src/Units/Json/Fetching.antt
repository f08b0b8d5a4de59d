-- ===== src/Units/Json/Fetching.antt =====
-- src/units/json.rs: what the unit sends to a server and keeps of its answers, and what becomes of
-- the state of its gate.
use rtrtr.Base.{
  ℕ, ◌≡◌, refl, ap, ◌∙◌, Bool, true, List, [], ◌∷◌, ◌++◌, Option, none, some, arith, length-append,
}
use rtrtr.Order.{Order}
use rtrtr.Text.{Text, starts_with}
use rtrtr.Http.Response.{Hyper}
use rtrtr.Http.Etags.{quote}
use rtrtr.Http.Etags.Listing.{IsEtag, strong, weak}
use rtrtr.Payload.Update.{Update}
use rtrtr.Formats.Json.{Rpki, JsonVrp}
use rtrtr.Comms.Status.{UnitHealth, UnitUpdate, apply}
use rtrtr.Comms.Gate.{Gate}
use rtrtr.Comms.Gate
use rtrtr.Units.JsonSource.{Outcome, finished, failed, SourceReader, new_reader, response_reader}
use rtrtr.Units.Json.{
  ok_response, not_modified_response, other_response, ends_quoted, parse_etag, parse_last_modified,
  HttpResponse, HttpRequest, HttpSource, request_of, open_response, open_http, fetch_json, step,
  finish_round, http_round, http_rounds,
}

ends_quoted-concat : (s : Text) → ends_quoted (s ++ quote ∷ []) ≡ true
unfolding ends_quoted
ends_quoted-concat [] = refl
ends_quoted-concat (c ∷ []) = refl
ends_quoted-concat (c ∷ d ∷ s) = ends_quoted-concat (d ∷ s)

-- An entity tag, weak or not, that is the only value of its header is kept as it is.
pub parse_etag-IsEtag : (tag : Text) → IsEtag tag → parse_etag (tag ∷ []) ≡ some tag
unfolding parse_etag starts_with
parse_etag-IsEtag tag (strong s q e) =
    rw e (ground (arith, ends_quoted-concat (quote ∷ s), length-append s (quote ∷ [])))
parse_etag-IsEtag tag (weak s q e) =
    rw e
      (ground (arith, ends_quoted-concat (b'W' ∷ b'/' ∷ quote ∷ s), length-append s (quote ∷ [])))

module _ (h : Hyper) where
  -- What `open_http` may do: nothing is kept unless the server answers with 200.
  pub data Opened (send : HttpRequest h → Outcome (HttpResponse h)) (s : HttpSource h)
      : HttpSource h × Outcome (Option SourceReader) → Type 0 where
    unreachable : send (request_of h s) ≡ failed → Opened send s (s, failed)
    refused :
        (response : HttpResponse h)
        → send (request_of h s) ≡ finished response
        → response.status ≡ other_response
        → Opened send s (s, failed)
    unmodified :
        (response : HttpResponse h)
        → send (request_of h s) ≡ finished response
        → response.status ≡ not_modified_response
        → Opened send s (s, finished none)
    renewed :
        (response : HttpResponse h)
        → send (request_of h s) ≡ finished response
        → response.status ≡ ok_response
        → Opened send s (
          record {
            etag = parse_etag response.etags;
            last_modified = parse_last_modified h response.last_modified;
          },
          finished (some (new_reader (response_reader response.body))),
        )

module _ {U Time : Type 0} (same : U → U → Bool) (len : U → ℕ) where
  with_health : UnitHealth → Gate U Time → Gate U Time
  with_health x g = record g { unit_status = record g.unit_status { health = x } }

  -- A gate is stalled after the update that says so, whatever it was before.
  update-stalled :
      (g : Gate U Time) (now : Time)
      → (Gate.update same len g UnitUpdate.stalled now).0.unit_status.health ≡ UnitHealth.stalled
  unfolding Gate.update apply with_health
  update-stalled g now = go g.unit_status.health g
    where
      go :
          (x : UnitHealth) (g : Gate U Time)
          → (Gate.update same len (with_health x g) UnitUpdate.stalled now).0.unit_status.health
            ≡ UnitHealth.stalled
      go UnitHealth.healthy g = refl
      go UnitHealth.stalled g = refl
      go UnitHealth.gone g = refl

module _ (h : Hyper) where
  open_http_failed :
      (send : HttpRequest h → Outcome (HttpResponse h)) (s : HttpSource h)
      → send (request_of h s) ≡ failed
      → open_http h send s ≡ (s, failed)
  unfolding open_http
  open_http_failed send s e = rw (e, open_http) refl

  open_http_unmodified :
      (send : HttpRequest h → Outcome (HttpResponse h)) (s : HttpSource h)
      (response : HttpResponse h)
      → send (request_of h s) ≡ finished response
      → response.status ≡ not_modified_response
      → open_http h send s ≡ (s, finished none)
  unfolding open_http open_response
  open_http_unmodified send s response e q = rw (e, open_http) (rw (q, open_response) refl)

module _ {A Time : Type 0} ⦃o : Order A⦄ (h : Hyper) (r : Rpki A)
    (same : Update A → Update A → Bool) (len : Update A → ℕ)
    (parse : SourceReader → Outcome (List (JsonVrp r))) where
  http_round-failed :
      (send : HttpRequest h → Outcome (HttpResponse h)) (s : HttpSource h)
      (g : Gate (Update A) Time) (now : Time)
      → send (request_of h s) ≡ failed
      → http_round h r same len send parse (s, g) now
        ≡ some (s, (Gate.update same len g UnitUpdate.stalled now).0)
  unfolding http_round finish_round fetch_json step
  http_round-failed send s g now e =
      ap (finish_round r same len parse g now) (open_http_failed h send s e)

  http_round-unmodified :
      (send : HttpRequest h → Outcome (HttpResponse h)) (s : HttpSource h)
      (g : Gate (Update A) Time) (now : Time) (response : HttpResponse h)
      → send (request_of h s) ≡ finished response
      → response.status ≡ not_modified_response
      → http_round h r same len send parse (s, g) now ≡ some (s, g)
  unfolding http_round finish_round fetch_json step
  http_round-unmodified send s g now response e q =
      ap (finish_round r same len parse g now) (open_http_unmodified h send s response e q)

  http_rounds-unmodified :
      (send : HttpRequest h → Outcome (HttpResponse h)) (s : HttpSource h)
      (g : Gate (Update A) Time) (response : HttpResponse h) (times : List Time)
      → send (request_of h s) ≡ finished response
      → response.status ≡ not_modified_response
      → http_rounds h r same len send parse (s, g) times ≡ some (s, g)
  unfolding http_rounds
  http_rounds-unmodified send s g response [] e q = refl
  http_rounds-unmodified send s g response (now ∷ times) e q =
      ap
        (λ m. elim m as (λ _. Option (HttpSource h × Gate (Update A) Time)) [
          | none ↦ none
          | some later ↦ http_rounds h r same len send parse later times
        ])
        (http_round-unmodified send s g now response e q)
      ∙ http_rounds-unmodified send s g response times e q

  -- A round in which the server cannot be reached leaves what is kept of the source and makes the
  -- unit stalled, and the rounds that follow it change nothing as long as the server answers the
  -- request with 304, so that the unit stays stalled.
  pub http_rounds-stay_stalled :
      (down send : HttpRequest h → Outcome (HttpResponse h)) (s : HttpSource h)
      (g : Gate (Update A) Time) (now : Time) (response : HttpResponse h) (times : List Time)
      → down (request_of h s) ≡ failed
      → send (request_of h s) ≡ finished response
      → response.status ≡ not_modified_response
      → (g' : Gate (Update A) Time) × (http_round h r same len down parse (s, g) now ≡ some (s, g'))
        × (g'.unit_status.health ≡ UnitHealth.stalled)
        × (http_rounds h r same len send parse (s, g') times ≡ some (s, g'))
  http_rounds-stay_stalled down send s g now response times d e q =
      let g' : Gate (Update A) Time = (Gate.update same len g UnitUpdate.stalled now).0 in
      (
        g',
        http_round-failed down s g now d,
        update-stalled same len g now,
        http_rounds-unmodified send s g' response times e q,
      )
