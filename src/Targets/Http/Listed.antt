-- ===== src/Targets/Http/Listed.antt =====
-- What src/targets/http.rs makes of the entity tags in a header, for a header that lists them.
use rtrtr.Base.{
  ℕ, zero, suc, ◌≤◌, ◌≡◌, refl, ap, ◌∙◌, Bool, true, false, ◌||◌, List, [], ◌∷◌, ◌++◌, Option, none,
  some, arith, length, All, ◌>>=◌, length-append,
}
use rtrtr.Text.{Text, codes, is_whitespace, trim, trim_start, same_text}
use rtrtr.Text.Trim.{AllSpace, trim_start-solid, trim_end-concat_solid}
use rtrtr.Http.Etags.{EtagsIter, collect, next, quote, comma}
use rtrtr.Http.Etags
use rtrtr.Http.Etags.Listing.{IsEtag, strong, weak, IsListing, space, last, more, collect-IsListing}
use rtrtr.Targets.Http.{any_tag, value_matches}

-- Whether a tag is among the tags.
abbrev pub lists : Text → List Text → Bool
lists etag [] = false
lists etag (tag ∷ tags) = same_text tag etag || lists etag tags

trim-IsEtag : (tag : Text) → IsEtag tag → trim tag ≡ tag
unfolding is_whitespace
trim-IsEtag tag (strong s q e) = rw e (
    ap trim_start (trim_end-concat_solid (quote ∷ s) quote refl)
    ∙ trim_start-solid quote (s ++ quote ∷ []) refl)
trim-IsEtag tag (weak s q e) = rw e (
    ap trim_start (trim_end-concat_solid (b'W' ∷ b'/' ∷ quote ∷ s) quote refl)
    ∙ trim_start-solid b'W' (b'/' ∷ quote ∷ s ++ quote ∷ []) refl)

IsListing-All : {s : Text} {tags : List Text} → IsListing s tags → All IsEtag tags
IsListing-All (space w) = tt
IsListing-All (last before tag after b t a e) = (t, tt)
IsListing-All (more before tag after b t a e l) = (t, IsListing-All l)

-- One round of the loop of `is_not_modified`, by what the iterator gives and what the rounds after
-- it give.
any_tag-round :
    (etag : Text) (m : Option Text) (c : Option (List Text)) (a : Option Bool)
    → ((ts : List Text) → c ≡ some ts → All IsEtag ts → a ≡ some (lists etag ts))
    → (tags : List Text)
    → elim m as (λ _. Option (List Text)) [
      | none ↦ some []
      | some tag ↦ c >>= λ ts. some (tag ∷ ts)
    ]
      ≡ some tags
    → All IsEtag tags
    → elim m as (λ _. Option Bool) [
      | none ↦ some false
      | some tag ↦ elim (same_text (trim tag) etag) [ true ↦ some true | false ↦ a ]
    ]
      ≡ some (lists etag tags)
any_tag-round etag none c a ih [] e w = refl
any_tag-round etag none c a ih (t ∷ us) e w = cc e
any_tag-round etag (some tag) none a ih tags e w = cc e
any_tag-round etag (some tag) (some ts) a ih [] e w = cc e
any_tag-round etag (some tag) (some ts) a ih (t ∷ us) e w =
    ground (arith, trim-IsEtag t w.0, tag_eq, ih us (cc e) w.1)
  where
    tag_eq : tag ≡ t
    tag_eq = cc e

any_tag-collect :
    (f : ℕ) (it : EtagsIter) (etag : Text) (tags : List Text)
    → collect f it ≡ some tags
    → All IsEtag tags
    → any_tag f it etag ≡ some (lists etag tags)
unfolding any_tag collect
any_tag-collect zero it etag tags c w = cc c
any_tag-collect (suc f) it etag tags c w =
    any_tag-round etag (next it).1 (collect f (next it).0) (any_tag f (next it).0 etag)
      (λ ts. any_tag-collect f (next it).0 etag ts) tags c w

length-two : (before tag after : Text) → IsEtag tag → 2 ≤ length (before ++ (tag ++ after))
length-two before tag after (strong s q e) = rw e (
    omega (
      arith,
      length-append before ((quote ∷ s ++ quote ∷ []) ++ after),
      length-append s (quote ∷ []),
      length-append (quote ∷ s ++ quote ∷ []) after,
    ))
length-two before tag after (weak s q e) = rw e (
    omega (
      arith,
      length-append before ((b'W' ∷ b'/' ∷ quote ∷ s ++ quote ∷ []) ++ after),
      length-append (b'W' ∷ b'/' ∷ quote ∷ s ++ quote ∷ []) after,
    ))

same_text-star_long : (s : Text) → 2 ≤ length s → same_text s (codes "*") ≡ false
unfolding same_text
same_text-star_long [] h = absurd (omega arith)
same_text-star_long (c ∷ []) h = absurd (omega arith)
same_text-star_long (c ∷ d ∷ s) h = ground arith

same_text-star_space : (s : Text) → AllSpace s → same_text s (codes "*") ≡ false
unfolding same_text is_whitespace
same_text-star_space [] h = refl
same_text-star_space (c ∷ s) h = ground (arith, h.0)

-- No list of entity tags is a star.
IsListing-not_star :
    {s : Text} {tags : List Text} → IsListing s tags → same_text s (codes "*") ≡ false
IsListing-not_star {s} (space w) = same_text-star_space s w
IsListing-not_star {s} (last before tag after b t a e) =
    same_text-star_long s (omega (arith, ap length e, length-two before tag after t))
IsListing-not_star {s} (more before tag after {rest} b t a e l) =
    same_text-star_long s
      (omega (arith, ap length e, length-two before tag (after ++ comma ∷ rest) t))

pub lists-append :
    (etag : Text) (ts us : List Text) → lists etag (ts ++ us) ≡ lists etag ts || lists etag us
lists-append etag [] us = refl
lists-append etag (t ∷ ts) us = ground (arith, lists-append etag ts us)

-- A value lists entity tags once the white space around it is cut off.
pub value_matches-IsListing :
    (etag : Text) {s : Text} {tags : List Text}
    → IsListing s tags
    → value_matches etag s ≡ some (lists etag tags)
unfolding value_matches
value_matches-IsListing etag {s} {tags} l = rw (IsListing-not_star l) (
    any_tag-collect (suc (length s)) (Etags.new s) etag tags
      (collect-IsListing (suc (length s)) l (omega arith)) (IsListing-All l))
