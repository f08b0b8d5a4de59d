-- ===== src/Http/Etags/Laws.antt =====
-- The steps of the loop over the entity tags of src/utils/http.rs.
use rtrtr.Base.{
  ℕ, suc, ◌+◌, ◌≤◌, ◌<◌, ◌≡◌, refl, List, [], ◌∷◌, Option, none, some, arith, length, take, drop,
  ◌>>=◌, Option-cases, inl, inr,
}
use rtrtr.Text.{Text, trim_start, starts_with, find}
use rtrtr.Text.Trim.{length-trim_start-le, length-drop-le}
use rtrtr.Http.Etags.{
  EtagsIter, new, quote, prefix_len, tag_end, skip_comma, next_trimmed, next, collect,
}

length-skip_comma-le : (s : Text) → length (skip_comma s) ≤ length s
unfolding skip_comma starts_with
length-skip_comma-le [] = omega arith
length-skip_comma-le (c ∷ s) = ground (arith, length-trim_start-le s)

tag_end-pos : (s : Text) (e : ℕ) → tag_end s ≡ some e → (k : ℕ) × (e ≡ suc k)
unfolding tag_end
tag_end-pos s e h = at (prefix_len s) h
  where
    found : (n : ℕ) (m : Option ℕ) → (m >>= λ i. some (i + n + 1)) ≡ some e → (k : ℕ) × (e ≡ suc k)
    found n none g = cc g
    found n (some i) g = (i + n, ground arith)

    at :
        (m : Option ℕ)
        → (m >>= λ n. find quote (drop n s) >>= λ i. some (i + n + 1)) ≡ some e
        → (k : ℕ) × (e ≡ suc k)
    at none g = cc g
    at (some n) g = found n (find quote (drop n s)) g

-- What `next` does with a tag that ends before the index `n`.
pub next_trimmed-some :
    (c : ℕ) (s : Text) (n : ℕ)
    → tag_end (c ∷ s) ≡ some n
    → next_trimmed (c ∷ s) ≡ (new (skip_comma (trim_start (drop n (c ∷ s)))), some (take n (c ∷ s)))
unfolding next_trimmed
next_trimmed-some c s n e = rw (e, next_trimmed) refl

next_trimmed-none : (c : ℕ) (s : Text) → tag_end (c ∷ s) ≡ none → (next_trimmed (c ∷ s)).1 ≡ none
unfolding next_trimmed
next_trimmed-none c s e = rw (e, next_trimmed) refl

-- A tag makes what is left shorter.
next_trimmed-shorter :
    (s tag : Text) → (next_trimmed s).1 ≡ some tag → length (next_trimmed s).0.rest < length s
next_trimmed-shorter [] tag h = unfold next_trimmed in cc h
next_trimmed-shorter (c ∷ s) tag h = elim (Option-cases (tag_end (c ∷ s))) [
  | inl e ↦ cc (h, next_trimmed-none c s e)
  | inr (n, e) ↦ rw (next_trimmed-some c s n e) (shorter n (tag_end-pos (c ∷ s) n e))
]
  where
    shorter :
        (n : ℕ)
        → (k : ℕ) × (n ≡ suc k)
        → length (skip_comma (trim_start (drop n (c ∷ s)))) < length (c ∷ s)
    shorter n (k, e) = rw e (
        omega (
          arith,
          length-skip_comma-le (trim_start (drop k s)),
          length-trim_start-le (drop k s),
          length-drop-le k s,
        ))

pub next-shorter :
    (it : EtagsIter) (tag : Text)
    → (next it).1 ≡ some tag
    → length (next it).0.rest < length it.rest
unfolding next
next-shorter it tag h =
    omega (arith, next_trimmed-shorter (trim_start it.rest) tag h, length-trim_start-le it.rest)

pub collect-stop : (f : ℕ) (it : EtagsIter) → (next it).1 ≡ none → collect (suc f) it ≡ some []
unfolding collect
collect-stop f it e = rw (e, collect) refl

pub collect-step :
    (f : ℕ) (it : EtagsIter) (tag : Text) (tags : List Text)
    → (next it).1 ≡ some tag
    → collect f (next it).0 ≡ some tags
    → collect (suc f) it ≡ some (tag ∷ tags)
unfolding collect
collect-step f it tag tags e g = rw (e, collect) (rw g refl)
