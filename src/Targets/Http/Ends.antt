-- ===== src/Targets/Http/Ends.antt =====
-- Every request gets through the handler of src/targets/http.rs: its loop over the tags of a header
-- ends, whatever the header's value is.
use rtrtr.Base.{
  ℕ, zero, suc, ◌<◌, ◌≡◌, refl, Bool, true, false, not, ◌||◌, List, [], ◌∷◌, Option, none, some,
  arith, length, if◌then◌else◌, ◌>>=◌,
}
use rtrtr.Text.{Text, codes, trim, same_text}
use rtrtr.Http.Etags.{EtagsIter, next}
use rtrtr.Http.Etags
use rtrtr.Http.Etags.Laws.{next-shorter}
use rtrtr.Http.Response.{Hyper, Request, Response}
use rtrtr.Payload.Set.{Set}
use rtrtr.Targets.Http.{
  SourceData, Source, any_tag, value_matches, none_match, unmodified_since, is_not_modified, is_get,
  process, not_modified, full_response, initial_response,
}

-- The loop is not out of fuel.
abbrev Ends {ℓ} : {A : Type ℓ} → Option A → Type ℓ
Ends {A = A} m = (a : A) × (m ≡ some a)

any_tag-round :
    (etag : Text) (m : Option Text) (rest : Option Bool)
    → ((tag : Text) → m ≡ some tag → Ends rest)
    → Ends (elim m as (λ _. Option Bool) [
      | none ↦ some false
      | some tag ↦ elim (same_text (trim tag) etag) [ true ↦ some true | false ↦ rest ]
    ])
any_tag-round etag none rest h = (false, refl)
any_tag-round etag (some tag) rest h = go (same_text (trim tag) etag) (h tag refl)
  where
    go :
        (b : Bool)
        → Ends rest
        → Ends (elim b as (λ _. Option Bool) [ true ↦ some true | false ↦ rest ])
    go true r = (true, refl)
    go false r = r

any_tag-Ends :
    (f : ℕ) (it : EtagsIter) (etag : Text) → length it.rest < f → Ends (any_tag f it etag)
unfolding any_tag
any_tag-Ends zero it etag h = absurd (omega arith)
any_tag-Ends (suc f) it etag h =
    any_tag-round etag (next it).1 (any_tag f (next it).0 etag)
      λ tag e. any_tag-Ends f (next it).0 etag (omega (arith, next-shorter it tag e))

value_matches-Ends : (etag value : Text) → Ends (value_matches etag value)
unfolding value_matches
value_matches-Ends etag value = go (same_text value (codes "*"))
  where
    go :
        (b : Bool)
        → Ends (if b then some true else any_tag (suc (length value)) (Etags.new value) etag)
    go true = (true, refl)
    go false = any_tag-Ends (suc (length value)) (Etags.new value) etag (omega arith)

module _ (h : Hyper) where
  none_match-Ends : (etag : Text) (vs : List h.HeaderValue) → Ends (none_match h etag vs)
  unfolding none_match
  none_match-Ends etag [] = (false, refl)
  none_match-Ends etag (v ∷ vs) = go (h.to_str v) (none_match-Ends etag vs)
    where
      hit :
          (m : Option Bool)
          → Ends m
          → Ends (none_match h etag vs)
          → Ends (
              m >>= λ hit. elim hit as (λ _. Option Bool) [
                | true ↦ some true
                | false ↦ none_match h etag vs
              ])
      hit none (b, e) r = cc e
      hit (some true) e r = (true, refl)
      hit (some false) e r = r

      go :
          (t : Option Text)
          → Ends (none_match h etag vs)
          → Ends (elim t as (λ _. Option Bool) [
            | none ↦ none_match h etag vs
            | some s ↦ value_matches etag (trim s) >>= λ hit. elim hit as (λ _. Option Bool) [
              | true ↦ some true
              | false ↦ none_match h etag vs
            ]
          ])
      go none r = r
      go (some s) r = hit (value_matches etag (trim s)) (value_matches-Ends etag (trim s)) r

  module _ {A : Type 0} where
    is_not_modified-Ends :
        (d : SourceData h A) (request : Request h) → Ends (is_not_modified h d request)
    unfolding is_not_modified
    is_not_modified-Ends d request = go request.if_none_match
      where
        go :
            (vs : List h.HeaderValue)
            → Ends (elim vs as (λ _. Option Bool) [
              | [] ↦ some (unmodified_since h d.created request.if_modified_since)
              | v ∷ vs ↦ none_match h d.etag (v ∷ vs)
            ])
        go [] = (unmodified_since h d.created request.if_modified_since, refl)
        go (v ∷ vs) = none_match-Ends d.etag (v ∷ vs)

    -- The handler of a target answers every request or passes it on: the fuel of its loop over the
    -- tags of a header is enough, whatever the values of the headers are.
    pub process-Ends :
        (path content_type : Text) (frames : Set A → List Text) (source : Source h A)
        (request : Request h)
        → (answer : Option Response) × (process h path content_type frames source request
            ≡ some answer)
    unfolding process
    process-Ends path content_type frames source request =
        go (not (is_get request.method) || not (same_text request.path path)) source
      where
        decided :
            (d : SourceData h A) (m : Option Bool)
            → Ends m
            → Ends (
                m >>= λ unchanged. some (
                  if unchanged
                  then some (not_modified h d)
                  else some (full_response h content_type frames d)))
        decided d none (b, e) = cc e
        decided d (some b) e = (_, refl)

        go :
            (b : Bool) (source : Source h A)
            → Ends (
                if◌then◌else◌ {A = Option (Option Response)} b (some none) (elim source [
                  | none ↦ some (some initial_response)
                  | some d ↦ is_not_modified h d request >>= λ unchanged. some (
                      if unchanged
                      then some (not_modified h d)
                      else some (full_response h content_type frames d))
                ]))
        go true source = (none, refl)
        go false none = (some initial_response, refl)
        go false (some d) = decided d (is_not_modified h d request) (is_not_modified-Ends d request)
