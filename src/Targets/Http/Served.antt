-- ===== src/Targets/Http/Served.antt =====
-- A request that comes in at the server of src/http.rs and is answered by the target of
-- src/targets/http.rs.
use rtrtr.Base.{
  ◌≡◌, refl, ap, ap₂, ◌∙◌, Bool, true, false, List, ◌∷◌, Option, none, some, if◌then◌else◌,
}
use rtrtr.Text.{Text, codes, same_text}
use rtrtr.Http.Response.{Hyper, Request, Response, get, other_method}
use rtrtr.Http.Resources.{
  RegisteredResource, register, process_request, process_request-register, or_else,
}
use rtrtr.Http.Server.{handle_request, or_not_found, method_not_allowed, metrics, status}
use rtrtr.Metrics.{RegisteredSource}
use rtrtr.Payload.Set.{Set}
use rtrtr.Targets.Http.{SourceData, Source, process, not_modified, full_response}
use rtrtr.Targets.Http.Listed.{lists}
use rtrtr.Targets.Http.Unchanged.{AllListings, process-lists}
use rtrtr.Targets.Http.Ends.{process-Ends}

module _ (h : Hyper) where
  handle_request-resource :
      (crate : Text) (sources : List RegisteredSource)
      (resources : List (RegisteredResource (Request h) Response)) (request : Request h)
      → request.method ≡ get
      → same_text request.path (codes "/metrics") ≡ false
      → same_text request.path (codes "/status") ≡ false
      → handle_request crate sources h resources request
        ≡ or_not_found crate sources h (process_request resources request)
  unfolding handle_request
  handle_request-resource crate sources resources request g m s =
      ap
        (λ t. elim t as (λ _. Response) [
          | other_method ↦ method_not_allowed
          | get ↦
              if same_text request.path (codes "/metrics")
              then metrics crate sources
              else if same_text request.path (codes "/status")
              then status crate sources
              else or_not_found crate sources h (process_request resources request)
        ])
        g
      ∙ rw (m) (rw s refl)

module _ (h : Hyper) {A : Type 0} where
  -- The closure that the target registers: what `process` answers, since it always does.
  abbrev pub processor :
      Text → Text → (Set A → List Text) → Source h A → Request h → Option Response
  processor path content_type frames source request =
      (process-Ends h path content_type frames source request).0

  processor-answer :
      (path content_type : Text) (frames : Set A → List Text) (source : Source h A)
      (request : Request h) (answer : Option Response)
      → process h path content_type frames source request ≡ some answer
      → processor path content_type frames source request ≡ answer
  processor-answer path content_type frames source request answer e =
      cc (e, (process-Ends h path content_type frames source request).1)

  -- A GET request to the server, for the path of an HTTP target that has data, where the path is not
  -- one of the server's own and no component that registered before the target answers, with at
  -- least one value of If-None-Match, all of which list entity tags, gets the response 304 of the
  -- target's data if the entity tag of the data is among the tags that they list, and otherwise the
  -- full response.
  pub handle_request-lists :
      (crate : Text) (sources : List RegisteredSource)
      (resources : List (RegisteredResource (Request h) Response)) (content_type : Text)
      (frames : Set A → List Text) (d : SourceData h A) (request : Request h) (v : h.HeaderValue)
      (vs : List h.HeaderValue) (tags : List Text)
      → request.method ≡ get
      → same_text request.path (codes "/metrics") ≡ false
      → same_text request.path (codes "/status") ≡ false
      → process_request resources request ≡ none
      → request.if_none_match ≡ v ∷ vs
      → AllListings h (v ∷ vs) tags
      → handle_request crate sources h
          (register resources (record {
            process = processor request.path content_type frames (some d);
            lives = true;
          }))
          request
        ≡ (if lists d.etag tags then not_modified h d else full_response h content_type frames d)
  handle_request-lists crate sources resources content_type frames d request v vs tags g m s n i l =
      handle_request-resource h crate sources
        (register resources
          (record { process = processor request.path content_type frames (some d); lives = true }))
        request g m s
      ∙ ap (or_not_found crate sources h) (
          process_request-register resources (processor request.path content_type frames (some d))
            request
          ∙ ap₂ or_else n (
              processor-answer request.path content_type frames (some d) request _
                (process-lists h request.path content_type frames d request v vs tags g refl i l)))
      ∙ chosen (lists d.etag tags)
    where
      chosen :
          (b : Bool)
          → or_not_found crate sources h
              (if b then some (not_modified h d) else some (full_response h content_type frames d))
            ≡ (if b then not_modified h d else full_response h content_type frames d)
      chosen true = refl
      chosen false = refl
