-- ===== src/Http/Server.antt =====
-- src/http.rs: `Server`, how a request is handled and how the listeners are bound. The operating
-- system's `bind`, which also depends on the listeners that the server has already, and
-- `set_nonblocking` are arguments.
use rtrtr.Base.{
  ◌≡◌, refl, sym, ap, ◌∙◌, Bool, true, false, not, List, [], ◌∷◌, ◌++◌, Option, none, some, ◌⊎◌,
  inl, inr, append_assoc, append-nil, Option-cases, Bool-cases, if◌then◌else◌,
}
use rtrtr.Text.{Text, codes, same_text}
use rtrtr.Http.Response.{
  Hyper, Method, get, other_method, Request, Response, text_type, prometheus_type, body,
}
use rtrtr.Http.Response
use rtrtr.Http.Resources.{RegisteredResource, process_request}
use rtrtr.Metrics.{RegisteredSource, prometheus, plain, assemble}

-- A listener, or the error that ends the program.
pub data Bound (Listener : Type 0) : Type 0 where
  listeners : List Listener → Bound Listener
  exit_error : Bound Listener

-- The loop of `Server::run` over the addresses.
unfoldable pub bind_all :
    {Addr Listener : Type 0}
    → (List (Listener × Addr) → Addr → Option Listener)
    → (Listener → Bool)
    → List Addr
    → List (Listener × Addr)
    → Bound (Listener × Addr)
bind_all bind set_nonblocking [] bound = listeners bound
bind_all bind set_nonblocking (addr ∷ addrs) bound = elim (bind bound addr) [
  | none ↦ exit_error
  | some listener ↦ elim (set_nonblocking listener) [
    | false ↦ exit_error
    | true ↦ bind_all bind set_nonblocking addrs (bound ++ (listener, addr) ∷ [])
  ]
]

-- `Server::run`, up to the listeners that it spawns.
abbrev pub run :
    {Addr Listener : Type 0}
    → (List (Listener × Addr) → Addr → Option Listener)
    → (Listener → Bool)
    → List Addr
    → Bound (Listener × Addr)
run bind set_nonblocking addrs = bind_all bind set_nonblocking addrs []

abbrev pub method_not_allowed : Response
method_not_allowed =
    body (Response.content_type Response.method_not_allowed text_type) (codes "Method Not Allowed")

abbrev pub not_found : Response
not_found = body (Response.content_type Response.not_found text_type) (codes "Not Found")

module _ (crate : Text) (sources : List RegisteredSource) where
  abbrev pub metrics : Response
  metrics =
      body (Response.content_type Response.ok prometheus_type) (assemble crate sources prometheus)

  abbrev pub status : Response
  status = body (Response.content_type Response.ok text_type) (assemble crate sources plain)

  module _ (h : Hyper) where
    abbrev pub or_not_found : Option Response → Response
    or_not_found (some response) = response
    or_not_found none = not_found

    -- `Server::handle_request`
    unfoldable pub handle_request :
        List (RegisteredResource (Request h) Response) → Request h → Response
    handle_request resources req = elim req.method [
      | other_method ↦ method_not_allowed
      | get ↦
          if same_text req.path (codes "/metrics")
          then metrics
          else if same_text req.path (codes "/status")
          then status
          else or_not_found (process_request resources req)
    ]

module _ {Addr Listener : Type 0} (bind : List (Listener × Addr) → Addr → Option Listener)
    (set_nonblocking : Listener → Bool) where
  -- Binding an address fails, or its listener cannot be made non-blocking.
  unfoldable pub fails : List (Listener × Addr) → Addr → Bool
  fails bound addr = elim (bind bound addr) [ none ↦ true | some l ↦ not (set_nonblocking l) ]

  -- The listeners with the one for an address.
  unfoldable pub with_next : List (Listener × Addr) → Addr → List (Listener × Addr)
  with_next bound addr = elim (bind bound addr) [ none ↦ bound | some l ↦ bound ++ (l, addr) ∷ [] ]

  -- A listener for each of the addresses, in their order, behind those that the server has already.
  pub data BoundTo : List (Listener × Addr) → List (Listener × Addr) → List Addr → Type 0 where
    none_bound : {bound : List (Listener × Addr)} → BoundTo bound [] []
    one_bound :
        {bound ls : List (Listener × Addr)} {addrs : List Addr} (l : Listener) (a : Addr)
        → bind bound a ≡ some l
        → BoundTo (bound ++ (l, a) ∷ []) ls addrs
        → BoundTo bound ((l, a) ∷ ls) (a ∷ addrs)

  -- Whether binding one of the addresses fails, after those before it.
  unfoldable pub any_fails : List (Listener × Addr) → List Addr → Bool
  any_fails bound [] = false
  any_fails bound (a ∷ addrs) =
      let rest = any_fails (with_next bound a) addrs in if fails bound a then true else rest

  abbrev Outcome : List Addr → List (Listener × Addr) → Type 0
  Outcome addrs bound =
      ((any_fails bound addrs ≡ true) × (bind_all bind set_nonblocking addrs bound ≡ exit_error))
      ⊎ ((any_fails bound addrs ≡ false)
          × (ls : List (Listener × Addr)) × (bind_all bind set_nonblocking addrs bound
              ≡ listeners (bound ++ ls))
          × BoundTo bound ls addrs)

  Outcome-none :
      (a : Addr) (addrs : List Addr) (bound : List (Listener × Addr))
      → bind bound a ≡ none
      → Outcome (a ∷ addrs) bound
  unfolding bind_all any_fails fails with_next
  Outcome-none a addrs bound e = inl (rw (e, any_fails, fails, with_next) refl, rw (e, bind_all) refl)

  Outcome-blocking :
      (a : Addr) (addrs : List Addr) (bound : List (Listener × Addr)) (l : Listener)
      → bind bound a ≡ some l
      → set_nonblocking l ≡ false
      → Outcome (a ∷ addrs) bound
  unfolding bind_all any_fails fails with_next
  Outcome-blocking a addrs bound l e n =
      inl (rw (e, any_fails, fails, with_next) (rw n refl), rw (e, bind_all) (rw n refl))

  Outcome-cons :
      (a : Addr) (addrs : List Addr) (bound : List (Listener × Addr)) (l : Listener)
      → bind bound a ≡ some l
      → set_nonblocking l ≡ true
      → Outcome addrs (bound ++ (l, a) ∷ [])
      → Outcome (a ∷ addrs) bound
  unfolding bind_all any_fails fails with_next
  Outcome-cons a addrs bound l e n (inl (f, x)) =
      inl (rw (e, any_fails, fails, with_next) (rw n f), rw (e, bind_all) (rw n x))
  Outcome-cons a addrs bound l e n (inr (f, ls, x, b)) = inr (
    rw (e, any_fails, fails, with_next) (rw n f),
    (l, a) ∷ ls,
    rw (e, bind_all) (rw n (x ∙ ap listeners (append_assoc bound ((l, a) ∷ []) ls))),
    one_bound l a e b,
  )

  bind_all-Outcome : (addrs : List Addr) (bound : List (Listener × Addr)) → Outcome addrs bound
  unfolding bind_all any_fails
  bind_all-Outcome [] bound = inr (refl, [], ap listeners (sym (append-nil bound)), none_bound)
  bind_all-Outcome (a ∷ addrs) bound = elim (Option-cases (bind bound a)) [
    | inl e ↦ Outcome-none a addrs bound e
    | inr (l, e) ↦ elim (Bool-cases (set_nonblocking l)) [
      | inl n ↦ Outcome-cons a addrs bound l e n (bind_all-Outcome addrs (bound ++ (l, a) ∷ []))
      | inr n ↦ Outcome-blocking a addrs bound l e n
    ]
  ]

  -- The server ends the program with an error if binding any of its addresses fails, and otherwise
  -- has one listener for each address, in their order.
  pub run-outcome :
      (addrs : List Addr)
      → ((any_fails [] addrs ≡ true) × (run bind set_nonblocking addrs ≡ exit_error))
        ⊎ ((any_fails [] addrs ≡ false)
            × (ls : List (Listener × Addr)) × (run bind set_nonblocking addrs ≡ listeners ls)
            × BoundTo [] ls addrs)
  run-outcome addrs = bind_all-Outcome addrs []
