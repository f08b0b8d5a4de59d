-- ===== src/Formats/Json.antt =====
-- src/formats/json.rs and src/formats/output.rs: data sets in JSON. The types of rpki-rs are
-- parameters. What `serde` makes of a file is the list of `JsonVrp`. Waiting for a route origin
-- takes more fuel than there are items left; `none` is a loop that runs out of its fuel.
pub mod Input
pub mod Origins
pub mod Output
use rtrtr.Base.{ℕ, zero, suc, List, [], ◌∷◌, ◌++◌, Option, none, some, ◌>>=◌}
use rtrtr.Order.{Order}
use rtrtr.Text.{Text, codes, decimal}
use rtrtr.Http.Response.{json_type}
use rtrtr.Payload.Types.{Result, ok, err}
use rtrtr.Payload.Pack.{PackBuilder, insert}
use rtrtr.Payload.Pack
use rtrtr.Payload.Set.{Set, OwnedSetIter, owned_iter, owned_next}
use rtrtr.Payload.Set

-- What the module uses of rpki-rs. `origin` is `Payload::Origin`, and `as_origin` is the match on
-- it; `max_len_prefix` is `MaxLenPrefix::new` with a maximum length, `none` being its error.
pub record Rpki (A : Type 0) : Type 1 where
  pub Prefix : Type 0
  pub MaxLenPrefix : Type 0
  pub Asn : Type 0
  pub RouteOrigin : Type 0
  pub max_len_prefix : Prefix → ℕ → Option MaxLenPrefix
  pub prefix : MaxLenPrefix → Prefix
  pub resolved_max_len : MaxLenPrefix → ℕ
  pub route_origin : MaxLenPrefix → Asn → RouteOrigin
  pub origin_prefix : RouteOrigin → MaxLenPrefix
  pub origin_asn : RouteOrigin → Asn
  pub origin : RouteOrigin → A
  pub as_origin : A → Option RouteOrigin
  pub show_asn : Asn → Text
  pub show_prefix : Prefix → Text

module _ {A : Type 0} (r : Rpki A) where
  pub record JsonVrp : Type 0 where
    pub prefix : r.Prefix
    pub asn : r.Asn
    pub max_length : ℕ

  pub record Vrp : Type 0 where
    pub payload : r.RouteOrigin

  -- `TryFrom<JsonVrp>`
  unfoldable pub try_from : JsonVrp → Option Vrp
  try_from json = do
    prefix ← r.max_len_prefix json.prefix json.max_length
    some (record { payload = r.route_origin prefix json.asn })

  -- `From<Vrp>`
  unfoldable pub from_vrp : Vrp → JsonVrp
  from_vrp vrp = record {
    prefix = r.prefix (r.origin_prefix vrp.payload);
    asn = r.origin_asn vrp.payload;
    max_length = r.resolved_max_len (r.origin_prefix vrp.payload);
  }

  abbrev pub vrp_payload : Vrp → A
  vrp_payload vrp = r.origin vrp.payload

  -- How `serde` reads the list: one VRP that is refused makes the whole list fail.
  unfoldable pub read_vrps : List JsonVrp → Option (List Vrp)
  read_vrps [] = some []
  read_vrps (json ∷ jsons) = do vrp ← try_from json; vrps ← read_vrps jsons; some (vrp ∷ vrps)

  -- `let _ = res.insert(…)`: a duplicate is an error that is dropped.
  unfoldable pub insert_vrps : ⦃o : Order A⦄ → PackBuilder A → List Vrp → PackBuilder A
  insert_vrps b [] = b
  insert_vrps b (vrp ∷ vrps) = elim (insert b (vrp_payload vrp)) [
    | ok b' ↦ insert_vrps b' vrps
    | err e ↦ insert_vrps b vrps
  ]

  -- `Set::into_payload`
  unfoldable pub into_payload : ⦃o : Order A⦄ → List Vrp → Option (Set A)
  into_payload roas = Set.from_pack (Pack.finalize (insert_vrps Pack.empty roas))

pub data StreamState : Type 0 where
  header first body done : StreamState

pub record OutputStream (A : Type 0) : Type 0 where
  pub iter : OwnedSetIter A
  pub state : StreamState

abbrev pub new : {A : Type 0} → Set A → OutputStream A
new set = record { iter = owned_iter set; state = header }

abbrev pub header_text : Text
header_text = codes "{\n  \"roas\": [\n"

abbrev pub footer_text : Text
footer_text = codes "\n  ]\n}"

-- `Format`
pub data Format : Type 0 where
  json : Format

abbrev pub content_type : Format → Text
content_type json = json_type

module _ {A : Type 0} (r : Rpki A) where
  -- The loop of `OutputStream::next_origin`.
  unfoldable pub next_origin : ℕ → OwnedSetIter A → Option (OwnedSetIter A × Option r.RouteOrigin)
  next_origin zero it = none
  next_origin (suc f) it = elim (owned_next it).1 [
    | none ↦ some ((owned_next it).0, none)
    | some a ↦ elim (r.as_origin a) [
      | some value ↦ some ((owned_next it).0, some value)
      | none ↦ next_origin f (owned_next it).0
    ]
  ]

  unfoldable pub entry : r.RouteOrigin → Text
  entry payload =
      codes "    { \"asn\": \""
      ++ (r.show_asn (r.origin_asn payload)
          ++ (codes "\", \"prefix\": \""
              ++ (r.show_prefix (r.prefix (r.origin_prefix payload))
                  ++ (codes "\", \"maxLength\": "
                      ++ (decimal (r.resolved_max_len (r.origin_prefix payload))
                          ++ codes ", \"ta\": \"N/A\" }")))))

  -- The end of the list, or an entry with what stands before it.
  unfoldable pub next_entry : ℕ → Text → OwnedSetIter A → Option (OutputStream A × Option Text)
  next_entry f before it = do
    (later, found) ← next_origin f it
    some (elim found [
      | some payload ↦ (record { iter = later; state = body }, some (before ++ entry payload))
      | none ↦ (record { iter = later; state = done }, some footer_text)
    ])

  unfoldable pub next_in : StreamState → ℕ → OwnedSetIter A → Option (OutputStream A × Option Text)
  next_in header f it = some (record { iter = it; state = first }, some header_text)
  next_in first f it = next_entry f [] it
  next_in body f it = next_entry f (codes ",\n") it
  next_in done f it = some (record { iter = it; state = done }, none)

  -- `Iterator::next` of the stream
  abbrev pub next : ℕ → OutputStream A → Option (OutputStream A × Option Text)
  next f s = next_in s.state f s.iter

  -- The frames of the response: the stream is asked until it gives nothing, at most so many times.
  unfoldable pub frames : ℕ → ℕ → OutputStream A → Option (List Text)
  frames zero f s = none
  frames (suc n) f s = do
    (later, item) ← next f s
    elim item [ none ↦ some [] | some text ↦ do texts ← frames n f later; some (text ∷ texts) ]
