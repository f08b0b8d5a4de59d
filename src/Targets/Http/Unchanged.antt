-- ===== src/Targets/Http/Unchanged.antt =====
-- When the HTTP target of src/targets/http.rs answers that nothing was modified.
use rtrtr.Base.{
  ◌≡◌, refl, ap, ap₂, ◌∙◌, Bool, true, false, not, ◌||◌, List, [], ◌∷◌, ◌++◌, Option, none, some,
  arith, ◌>>=◌, if◌then◌else◌,
}
use rtrtr.Text.{Text, trim, same_text}
use rtrtr.Text.Trim.{same_text_iff}
use rtrtr.Http.Etags.Listing.{IsListing}
use rtrtr.Http.Response.{Hyper, Request, get, Response}
use rtrtr.Payload.Set.{Set}
use rtrtr.Targets.Http.{
  SourceData, value_matches, none_match, unmodified_since, is_not_modified, is_get, process,
  not_modified, full_response,
}
use rtrtr.Targets.Http.Listed.{lists, lists-append, value_matches-IsListing}

module _ (h : Hyper) where
  -- Values of If-None-Match that are text and list entity tags, with all their tags.
  pub data AllListings : List h.HeaderValue → List Text → Type 0 where
    done : AllListings [] []
    listing :
        {v : h.HeaderValue} {vs : List h.HeaderValue} (s : Text) (ts : List Text)
        {us tags : List Text}
        → h.to_str v ≡ some s
        → IsListing (trim s) ts
        → AllListings vs us
        → tags ≡ ts ++ us
        → AllListings (v ∷ vs) tags

  none_match-some :
      (etag : Text) (v : h.HeaderValue) (vs : List h.HeaderValue) (s : Text) (hit later : Bool)
      → h.to_str v ≡ some s
      → value_matches etag (trim s) ≡ some hit
      → none_match h etag vs ≡ some later
      → none_match h etag (v ∷ vs) ≡ some (hit || later)
  unfolding none_match
  none_match-some etag v vs s true later e m n = rw (e, none_match) (rw m refl)
  none_match-some etag v vs s false later e m n = rw (e, none_match) (rw m n)

  none_match-AllListings :
      (etag : Text) {vs : List h.HeaderValue} {tags : List Text}
      → AllListings vs tags
      → none_match h etag vs ≡ some (lists etag tags)
  unfolding none_match
  none_match-AllListings etag done = refl
  none_match-AllListings etag (listing {v} {vs} s ts {us} e l a g) =
      rw (g, lists-append etag ts us)
        (none_match-some etag v vs s (lists etag ts) (lists etag us) e
          (value_matches-IsListing etag l) (none_match-AllListings etag a))

  module _ {A : Type 0} where
    -- A request with at least one value of If-None-Match, all of which list entity tags, gets the
    -- answer that nothing was modified exactly if the entity tag of the data is among the tags that
    -- they list, whatever its If-Modified-Since is.
    pub is_not_modified-lists :
        (d : SourceData h A) (request : Request h) (v : h.HeaderValue) (vs : List h.HeaderValue)
        (tags : List Text)
        → request.if_none_match ≡ v ∷ vs
        → AllListings (v ∷ vs) tags
        → is_not_modified h d request ≡ some (lists d.etag tags)
    unfolding is_not_modified
    is_not_modified-lists d request v vs tags e l =
        ap
          (λ l. elim l as (λ _. Option Bool) [
            | [] ↦ some (unmodified_since h d.created request.if_modified_since)
            | v ∷ vs ↦ none_match h d.etag (v ∷ vs)
          ])
          e
        ∙ none_match-AllListings d.etag l

module _ (h : Hyper) {A : Type 0} where
  -- `process` on a request for the path of the target, by whether the data was modified.
  process-decided :
      (path content_type : Text) (frames : Set A → List Text) (d : SourceData h A)
      (request : Request h) (unchanged : Bool)
      → request.method ≡ get
      → request.path ≡ path
      → is_not_modified h d request ≡ some unchanged
      → process h path content_type frames (some d) request
        ≡ some (
            if unchanged
            then some (not_modified h d)
            else some (full_response h content_type frames d))
  unfolding process
  process-decided path content_type frames d request unchanged g e u =
      ap₂
        (λ (b : Bool) (r : Option Bool).
          if◌then◌else◌ {A = Option (Option Response)} b (some none) (
            r >>= λ u.
            some (
              if u then some (not_modified h d) else some (full_response h content_type frames d))))
        guard u
    where
      guard : not (is_get request.method) || not (same_text request.path path) ≡ false
      guard = ground (arith, ap is_get g, same_text_iff request.path path, e)

  -- A GET request for the path of a target that has data, with at least one value of If-None-Match,
  -- all of which list entity tags, is answered: with the response 304 of the data if the entity tag
  -- of the data is among the tags that they list, and otherwise with the full response, whatever
  -- If-Modified-Since says.
  pub process-lists :
      (path content_type : Text) (frames : Set A → List Text) (d : SourceData h A)
      (request : Request h) (v : h.HeaderValue) (vs : List h.HeaderValue) (tags : List Text)
      → request.method ≡ get
      → request.path ≡ path
      → request.if_none_match ≡ v ∷ vs
      → AllListings h (v ∷ vs) tags
      → process h path content_type frames (some d) request
        ≡ some (
            if lists d.etag tags
            then some (not_modified h d)
            else some (full_response h content_type frames d))
  process-lists path content_type frames d request v vs tags g e n l =
      process-decided path content_type frames d request (lists d.etag tags) g e
        (is_not_modified-lists h d request v vs tags n l)
