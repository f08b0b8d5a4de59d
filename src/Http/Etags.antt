-- ===== src/Http/Etags.antt =====
-- src/utils/http.rs: `EtagsIter`, the iterator over the entity tags in an If-None-Match header.
pub mod Laws
pub mod Listing
use rtrtr.Base.{
  ℕ, zero, suc, ◌+◌, Bool, true, false, List, [], ◌∷◌, Option, none, some, take, drop,
  if◌then◌else◌, ◌>>=◌,
}
use rtrtr.Text.{Text, codes, trim_start, starts_with, find}

-- What is left of the header's value.
pub record EtagsIter : Type 0 where
  pub rest : Text

abbrev pub new : Text → EtagsIter
new value = record { rest = value }

abbrev pub quote : ℕ
quote = b'"'

abbrev pub comma : ℕ
comma = b','

unfoldable pub prefix_len : Text → Option ℕ
prefix_len s =
    if starts_with s (codes "\"")
    then some 1
    else if starts_with s (codes "W/\"")
    then some 3
    else none

-- The end of the tag, which is after the next quote.
unfoldable pub tag_end : Text → Option ℕ
tag_end s = do n ← prefix_len s; index ← find quote (drop n s); some (index + n + 1)

-- Past a comma and the space that follows it.
unfoldable pub skip_comma : Text → Text
skip_comma s = if starts_with s (codes ",") then trim_start (drop 1 s) else s

unfoldable pub next_trimmed : Text → EtagsIter × Option Text
next_trimmed [] = (new [], none)
next_trimmed (c ∷ s) = elim (tag_end (c ∷ s)) [
  | none ↦ (new (c ∷ s), none)
  | some end ↦ (new (skip_comma (trim_start (drop end (c ∷ s)))), some (take end (c ∷ s)))
]

unfoldable pub next : EtagsIter → EtagsIter × Option Text
next it = next_trimmed (trim_start it.rest)

-- The tags that a `for` loop sees. `none` is a loop that runs out of its fuel.
unfoldable pub collect : ℕ → EtagsIter → Option (List Text)
collect zero it = none
collect (suc f) it = elim (next it).1 [
  | none ↦ some []
  | some tag ↦ do tags ← collect f (next it).0; some (tag ∷ tags)
]
