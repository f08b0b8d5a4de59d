-- ===== src/Http/Etags/Listing.antt =====
-- The values of the header If-None-Match by RFC 7232, and what the iterator of src/utils/http.rs
-- makes of them.
use rtrtr.Base.{
  ℕ, zero, suc, ◌<◌, ◌≡◌, refl, ap, ap₂, ◌∙◌, false, List, [], ◌∷◌, ◌++◌, none, some, ◌>>=◌, arith,
  length, All, ◌==◌, append_assoc, length-append,
}
use rtrtr.Text.{Text, is_whitespace, trim_start, starts_with}
use rtrtr.Text.Trim.{
  AllSpace, trim_start-append_space, trim_start_space, trim_start-solid, trim_start_idem,
  find-append, take-length-append, drop-length-append,
}
use rtrtr.Http.Etags.{
  new, quote, comma, prefix_len, tag_end, skip_comma, next_trimmed, next, collect,
}
use rtrtr.Http.Etags.Laws.{next_trimmed-some, collect-stop, collect-step}

abbrev pub NoQuote : Text → Type 0
NoQuote s = All (λ c. (c == quote) ≡ false) s

-- An entity tag: a quoted text, with `W/` before it if it is weak.
pub data IsEtag : Text → Type 0 where
  strong : (s : Text) {t : Text} → NoQuote s → t ≡ quote ∷ s ++ quote ∷ [] → IsEtag t
  weak : (s : Text) {t : Text} → NoQuote s → t ≡ b'W' ∷ b'/' ∷ quote ∷ s ++ quote ∷ [] → IsEtag t

-- Tags with commas between them, and space around the tags and the commas.
pub data IsListing : Text → List Text → Type 0 where
  space : {s : Text} → AllSpace s → IsListing s []
  last :
      (before tag after : Text) {s : Text}
      → AllSpace before
      → IsEtag tag
      → AllSpace after
      → s ≡ before ++ (tag ++ after)
      → IsListing s (tag ∷ [])
  more :
      (before tag after : Text) {rest s : Text} {tags : List Text}
      → AllSpace before
      → IsEtag tag
      → AllSpace after
      → s ≡ before ++ (tag ++ (after ++ comma ∷ rest))
      → IsListing rest tags
      → IsListing s (tag ∷ tags)

tag_end-quoted :
    (s r : Text)
    → NoQuote s
    → tag_end (quote ∷ (s ++ quote ∷ []) ++ r) ≡ some (length (quote ∷ s ++ quote ∷ []))
unfolding tag_end prefix_len starts_with
tag_end-quoted s r h =
    rw (append_assoc s (quote ∷ []) r, find-append quote s r h)
      (ap some (omega (arith, length-append s (quote ∷ []))))

tag_end-weak :
    (s r : Text)
    → NoQuote s
    → tag_end (b'W' ∷ b'/' ∷ quote ∷ (s ++ quote ∷ []) ++ r)
      ≡ some (length (b'W' ∷ b'/' ∷ quote ∷ s ++ quote ∷ []))
unfolding tag_end prefix_len starts_with
tag_end-weak s r h =
    rw (append_assoc s (quote ∷ []) r, find-append quote s r h)
      (ap some (omega (arith, length-append s (quote ∷ []))))

next-solid :
    (before : Text) (c : ℕ) (cs r : Text)
    → AllSpace before
    → is_whitespace c ≡ false
    → tag_end (c ∷ cs ++ r) ≡ some (length (c ∷ cs))
    → next (new (before ++ (c ∷ cs ++ r))) ≡ (new (skip_comma (trim_start r)), some (c ∷ cs))
unfolding next
next-solid before c cs r h w e =
    rw (trim_start-append_space before (c ∷ cs ++ r) h, trim_start-solid c (cs ++ r) w)
      (next_trimmed-some c (cs ++ r) (length (c ∷ cs)) e
        ∙ ap₂ (λ u v. (new (skip_comma (trim_start u)), some v)) (drop-length-append (c ∷ cs) r)
            (take-length-append (c ∷ cs) r))

-- What `next` does with a tag and what follows.
next-etag :
    (before tag r : Text)
    → AllSpace before
    → IsEtag tag
    → next (new (before ++ (tag ++ r))) ≡ (new (skip_comma (trim_start r)), some tag)
unfolding is_whitespace
next-etag before tag r h (strong s q e) =
    rw e (next-solid before quote (s ++ quote ∷ []) r h refl (tag_end-quoted s r q))
next-etag before tag r h (weak s q e) =
    rw e (next-solid before b'W' (b'/' ∷ quote ∷ s ++ quote ∷ []) r h refl (tag_end-weak s r q))

next-space : (s : Text) → AllSpace s → (next (new s)).1 ≡ none
unfolding next next_trimmed
next-space s h = rw (trim_start_space s h) refl

skip_comma-after :
    (after rest : Text)
    → AllSpace after
    → skip_comma (trim_start (after ++ comma ∷ rest)) ≡ trim_start rest
unfolding skip_comma starts_with is_whitespace
skip_comma-after after rest h =
    rw (trim_start-append_space after (comma ∷ rest) h, trim_start-solid comma rest refl) refl

skip_comma-space : (s : Text) → AllSpace s → skip_comma (trim_start s) ≡ []
unfolding skip_comma starts_with
skip_comma-space s h = rw (trim_start_space s h) refl

collect-trim_start : (f : ℕ) (s : Text) → collect f (new (trim_start s)) ≡ collect f (new s)
unfolding collect next
collect-trim_start zero s = refl
collect-trim_start (suc f) s =
    ap
      (λ t. elim (next_trimmed t).1 [
        | none ↦ some []
        | some tag ↦ collect f (next_trimmed t).0 >>= λ tags. some (tag ∷ tags)
      ])
      (trim_start_idem s)

length-more :
    (before tag after rest : Text)
    → length rest < length (before ++ (tag ++ (after ++ comma ∷ rest)))
length-more before tag after rest = omega (
  arith,
  length-append before (tag ++ (after ++ comma ∷ rest)),
  length-append tag (after ++ comma ∷ rest),
  length-append after (comma ∷ rest),
)

collect_empty : (f : ℕ) → 0 < f → collect f (new []) ≡ some []
collect_empty zero h = absurd (omega arith)
collect_empty (suc f) h = collect-stop f (new []) (next-space [] tt)

length-IsEtag-pos : (tag : Text) → IsEtag tag → 0 < length tag
length-IsEtag-pos tag (strong s q e) = rw e (omega arith)
length-IsEtag-pos tag (weak s q e) = rw e (omega arith)

length-last : (before tag after : Text) → IsEtag tag → 0 < length (before ++ (tag ++ after))
length-last before tag after t =
    omega
      (arith, length-append before (tag ++ after), length-append tag after, length-IsEtag-pos tag t)

-- In a value that lists entity tags, with commas between them and white space anywhere around, the
-- loop sees these tags in their order, with every fuel above the length of the value.
pub collect-IsListing :
    (f : ℕ) {s : Text} {tags : List Text}
    → IsListing s tags
    → length s < f
    → collect f (new s) ≡ some tags
collect-IsListing zero l h = absurd (omega arith)
collect-IsListing (suc f) {s} (space w) h = collect-stop f (new s) (next-space s w)
collect-IsListing (suc f) {s} (last before tag after b t a e) h =
    collect-step f (new s) tag [] (rw (e, next-etag before tag after b t) refl) (
      ap (λ n. collect f n.0) (ap (λ u. next (new u)) e ∙ next-etag before tag after b t)
      ∙ ap (λ u. collect f (new u)) (skip_comma-space after a)
      ∙ collect_empty f (omega (arith, ap length e, length-last before tag after t)))
collect-IsListing (suc f) {s} (more before tag after {rest} {tags = tags} b t a e l) h =
    collect-step f (new s) tag tags (rw (e, next-etag before tag _ b t) refl) (
      ap (λ n. collect f n.0)
        (ap (λ u. next (new u)) e ∙ next-etag before tag (after ++ comma ∷ rest) b t)
      ∙ ap (λ u. collect f (new u)) (skip_comma-after after rest a)
      ∙ collect-trim_start f rest
      ∙ collect-IsListing f l (omega (arith, ap length e, length-more before tag after rest)))
