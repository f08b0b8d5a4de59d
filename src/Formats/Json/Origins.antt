-- ===== src/Formats/Json/Origins.antt =====
-- The route origins among the items of a set, and the document with them, for
-- src/formats/json.rs.
use rtrtr.Base.{
  ℕ, zero, suc, ◌≤◌, ◌<◌, ◌≡◌, refl, List, [], ◌∷◌, ◌++◌, Option, none, some, arith, length,
  Option-cases, inl, inr,
}
use rtrtr.Text.{Text, codes}
use rtrtr.Payload.Set.{OwnedSetIter, owned_next}
use rtrtr.Payload.Set.Moves.{taken}
use rtrtr.Formats.Json.{Rpki, header_text, footer_text, next_origin, entry}

module _ {A : Type 0} where
  -- The iterator gives these items, one after the other, and then nothing.
  abbrev pub Gives : OwnedSetIter A → List A → Type 0
  Gives it xs = (n : ℕ) → length xs ≤ n → taken n it ≡ xs

  taken-head :
      (m : Option A) (later : List A) (x : A) (ys : List A)
      → elim m as (λ _. List A) [ none ↦ [] | some a ↦ a ∷ later ] ≡ x ∷ ys
      → (m ≡ some x) × (later ≡ ys)
  taken-head none later x ys e = cc e
  taken-head (some a) later x ys e = (cc e, cc e)

  taken-none :
      (m : Option A) (later : List A)
      → elim m as (λ _. List A) [ none ↦ [] | some a ↦ a ∷ later ] ≡ []
      → m ≡ none
  taken-none none later e = refl
  taken-none (some a) later e = cc e

  Gives-none : (it : OwnedSetIter A) → Gives it [] → (owned_next it).1 ≡ none
  unfolding taken
  Gives-none it g = taken-none (owned_next it).1 [] (g 1 (omega arith))

  Gives-some :
      (it : OwnedSetIter A) (x : A) (ys : List A)
      → Gives it (x ∷ ys)
      → ((owned_next it).1 ≡ some x) × Gives (owned_next it).0 ys
  unfolding taken
  Gives-some it x ys g = (
    (taken-head (owned_next it).1 (taken (length ys) (owned_next it).0) x ys
        (g (suc (length ys)) (omega arith))).0,
    λ n h.
        (taken-head (owned_next it).1 (taken n (owned_next it).0) x ys (g (suc n) (omega arith))).1,
  )

module _ {A : Type 0} (r : Rpki A) where
  -- The route origins among the items.
  unfoldable pub origins : List A → List r.RouteOrigin
  origins [] = []
  origins (x ∷ xs) = elim (r.as_origin x) [ none ↦ origins xs | some o ↦ o ∷ origins xs ]

  -- The entries, each after a comma.
  unfoldable pub more_entries : List r.RouteOrigin → Text
  more_entries [] = []
  more_entries (o ∷ os) = codes ",\n" ++ entry r o ++ more_entries os

  unfoldable pub entries : List r.RouteOrigin → Text
  entries [] = []
  entries (o ∷ os) = entry r o ++ more_entries os

  abbrev pub document : List r.RouteOrigin → Text
  document os = header_text ++ (entries os ++ footer_text)

  -- What `next_origin` finds: the first origin, or nothing.
  pub data Finds (f : ℕ) (it : OwnedSetIter A) (size : ℕ) : List r.RouteOrigin → Type 0 where
    nothing :
        (later : OwnedSetIter A) {os : List r.RouteOrigin}
        → next_origin r f it ≡ some (later, none)
        → os ≡ []
        → Finds f it size os
    found :
        (later : OwnedSetIter A) (ys : List A) (o : r.RouteOrigin) {os : List r.RouteOrigin}
        → next_origin r f it ≡ some (later, some o)
        → Gives later ys
        → length ys < size
        → os ≡ o ∷ origins ys
        → Finds f it size os

  pub next_origin-Finds :
      (f : ℕ) (it : OwnedSetIter A) (xs : List A)
      → Gives it xs
      → length xs < f
      → Finds f it (length xs) (origins xs)
  unfolding next_origin origins
  next_origin-Finds zero it xs g h = absurd (omega arith)
  next_origin-Finds (suc f) it [] g h =
      nothing (owned_next it).0 (rw (Gives-none it g, next_origin) refl) refl
  next_origin-Finds (suc f) it (x ∷ xs) g h =
      let (e, g') = Gives-some it x xs g in
      elim (Option-cases (r.as_origin x)) [
        | inl n ↦ skip e n (next_origin-Finds f (owned_next it).0 xs g' (omega arith))
        | inr (o, n) ↦
            found (owned_next it).0 xs o (rw (e, next_origin) (rw (n) refl)) g' (omega arith)
              (rw (n, origins) refl)
      ]
    where
      skip :
          (owned_next it).1 ≡ some x
          → r.as_origin x ≡ none
          → Finds f (owned_next it).0 (length xs) (origins xs)
          → Finds (suc f) it (length (x ∷ xs)) (origins (x ∷ xs))
      skip e n (nothing later p q) =
          nothing later (rw (e, next_origin) (rw n p)) (rw (n, origins) q)
      skip e n (found later ys o p k l q) =
          found later ys o (rw (e, next_origin) (rw n p)) k (omega arith) (rw (n, origins) q)
