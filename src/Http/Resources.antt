-- ===== src/Http/Resources.antt =====
-- src/http.rs: `Resources`, the processors of requests that the components register. A weak pointer
-- is the processor and whether its component still lives.
use rtrtr.Base.{
  ◌≡◌, refl, ap₂, ◌∙◌, Bool, true, false, List, [], ◌∷◌, ◌++◌, Option, none, some, arith,
}

-- `ProcessRequest` is a function here.
pub record RegisteredResource (Request Response : Type 0) : Type 0 where
  pub process : Request → Option Response
  pub lives : Bool

abbrev pub or_else {ℓ} : {A : Type ℓ} → Option A → Option A → Option A
or_else (some r) s = some r
or_else none s = s

module _ {Request Response : Type 0} where
  -- `if item.process.strong_count() > 0`
  unfoldable pub live :
      List (RegisteredResource Request Response) → List (RegisteredResource Request Response)
  live [] = []
  live (item ∷ items) = elim item.lives [ true ↦ item ∷ live items | false ↦ live items ]

  unfoldable pub register :
      List (RegisteredResource Request Response)
      → RegisteredResource Request Response
      → List (RegisteredResource Request Response)
  register sources process = live sources ++ process ∷ []

  unfoldable pub process_request :
      List (RegisteredResource Request Response) → Request → Option Response
  process_request [] request = none
  process_request (item ∷ items) request =
      let rest = process_request items request in
      elim item.lives [
        | false ↦ rest
        | true ↦ elim (item.process request) [ some response ↦ some response | none ↦ rest ]
      ]

  process_request-live :
      (items : List (RegisteredResource Request Response)) (request : Request)
      → process_request (live items) request ≡ process_request items request
  unfolding process_request live
  process_request-live [] request = refl
  process_request-live (item ∷ items) request = ground (arith, process_request-live items request)

  process_request-append :
      (xs ys : List (RegisteredResource Request Response)) (request : Request)
      → process_request (xs ++ ys) request
        ≡ or_else (process_request xs request) (process_request ys request)
  unfolding process_request
  process_request-append [] ys request = refl
  process_request-append (x ∷ xs) ys request = ground (arith, process_request-append xs ys request)

  -- A processor that is registered while its component lives answers a request that no processor
  -- registered before it answers, and takes no request from one of those, although registering it
  -- drops the processors whose component is gone.
  pub process_request-register :
      (sources : List (RegisteredResource Request Response)) (process : Request → Option Response)
      (request : Request)
      → process_request (register sources (record { process = process; lives = true })) request
        ≡ or_else (process_request sources request) (process request)
  unfolding register process_request
  process_request-register sources process request =
      process_request-append (live sources) (record { process = process; lives = true } ∷ [])
        request
      ∙ ap₂ or_else (process_request-live sources request) (alone (process request))
    where
      alone :
          (answer : Option Response)
          → elim answer as (λ _. Option Response) [ some r ↦ some r | none ↦ none ] ≡ answer
      alone none = refl
      alone (some r) = refl
