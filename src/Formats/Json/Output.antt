-- ===== src/Formats/Json/Output.antt =====
-- The JSON document that the stream of src/formats/json.rs makes of a data set.
use rtrtr.Base.{
  ℕ, zero, suc, ◌+◌, ◌<◌, ◌≡◌, refl, sym, ap, ◌∙◌, subst, List, [], ◌∷◌, ◌++◌, none, some, arith,
  length, append_assoc,
}
use rtrtr.Text.{Text, codes, concat}
use rtrtr.Payload.Set.{Set, OwnedSetIter, owned_iter, flatten, AllInRange, TailNoneEmpty}
use rtrtr.Payload.Set.Walk.{taken-flatten}
use rtrtr.Formats.Json.{
  Rpki, OutputStream, first, body, done, new, header_text, footer_text, next_origin, entry,
  next_entry, next_in, frames,
}
use rtrtr.Formats.Json.Origins.{
  Gives, origins, more_entries, entries, document, Finds, nothing, found, next_origin-Finds,
}

module _ {A : Type 0} (r : Rpki A) where
  next_entry-none :
      (f : ℕ) (before : Text) (it later : OwnedSetIter A)
      → next_origin r f it ≡ some (later, none)
      → next_entry r f before it ≡ some (record { iter = later; state = done }, some footer_text)
  unfolding next_entry
  next_entry-none f before it later e = rw (e, next_entry) refl

  next_entry-some :
      (f : ℕ) (before : Text) (it later : OwnedSetIter A) (o : r.RouteOrigin)
      → next_origin r f it ≡ some (later, some o)
      → next_entry r f before it
        ≡ some (record { iter = later; state = body }, some (before ++ entry r o))
  unfolding next_entry
  next_entry-some f before it later o e = rw (e, next_entry) refl

  frames-cons :
      (n f : ℕ) (s later : OutputStream A) (text : Text) (ts : List Text)
      → next_in r s.state f s.iter ≡ some (later, some text)
      → frames r n f later ≡ some ts
      → frames r (suc n) f s ≡ some (text ∷ ts)
  unfolding frames
  frames-cons n f s later text ts e g = rw (e, frames) (rw g refl)

  frames-done :
      (n f : ℕ) (it : OwnedSetIter A)
      → 0 < n
      → frames r n f (record { iter = it; state = done }) ≡ some []
  unfolding frames next_in
  frames-done zero f it h = absurd (omega arith)
  frames-done (suc n) f it h = refl

  -- The frames are these, one after the other.
  abbrev Writes : ℕ → ℕ → OutputStream A → Text → Type 0
  Writes n f s text = (ts : List Text) × (frames r n f s ≡ some ts) × (concat ts ≡ text)

  Writes-footer :
      (n f : ℕ) (it later : OwnedSetIter A) (s : OutputStream A) (before : Text)
      → 1 < n
      → next_in r s.state f s.iter ≡ next_entry r f before it
      → next_origin r f it ≡ some (later, none)
      → Writes n f s footer_text
  unfolding concat
  Writes-footer zero f it later s before h k e = absurd (omega arith)
  Writes-footer (suc n) f it later s before h k e = (
    footer_text ∷ [],
    frames-cons n f s (record { iter = later; state = done }) footer_text []
        (k ∙ next_entry-none f before it later e) (frames-done n f later (omega arith)),
    refl,
  )

  Writes-entry :
      (n f : ℕ) (it later : OwnedSetIter A) (o : r.RouteOrigin) (s : OutputStream A)
      (before rest : Text)
      → next_in r s.state f s.iter ≡ next_entry r f before it
      → next_origin r f it ≡ some (later, some o)
      → Writes n f (record { iter = later; state = body }) rest
      → Writes (suc n) f s ((before ++ entry r o) ++ rest)
  unfolding concat
  Writes-entry n f it later o s before rest k e (ts, g, c) = (
    (before ++ entry r o) ∷ ts,
    frames-cons n f s (record { iter = later; state = body }) (before ++ entry r o) ts
        (k ∙ next_entry-some f before it later o e) g,
    ap (λ t. (before ++ entry r o) ++ t) c,
  )

  Writes-body :
      (n f : ℕ) (it : OwnedSetIter A) (xs : List A)
      → Gives it xs
      → length xs < f
      → length xs + 1 < n
      → Writes n f
          (record { iter = it; state = body })
          (more_entries r (origins r xs) ++ footer_text)
  unfolding next_in more_entries
  Writes-body zero f it xs g h k = absurd (omega arith)
  Writes-body (suc n) f it xs g h k = step (next_origin-Finds r f it xs g h) (Writes-body n f)
    where
      s : OutputStream A
      s = record { iter = it; state = body }

      step :
          {os : List r.RouteOrigin}
          → Finds r f it (length xs) os
          → ((later : OwnedSetIter A) (ys : List A)
              → Gives later ys
              → length ys < f
              → length ys + 1 < n
              → Writes n f
                  (record { iter = later; state = body })
                  (more_entries r (origins r ys) ++ footer_text))
          → Writes (suc n) f s (more_entries r os ++ footer_text)
      step (nothing later e q) rest =
          rw q (Writes-footer (suc n) f it later s (codes ",\n") (omega arith) refl e)
      step (found later ys o e g' l q) rest = rw q (
          subst (Writes (suc n) f s)
            (sym
              (append_assoc (codes ",\n" ++ entry r o) (more_entries r (origins r ys)) footer_text))
            (Writes-entry n f it later o s (codes ",\n")
              (more_entries r (origins r ys) ++ footer_text) refl e
              (rest later ys g' (omega arith) (omega arith))))

  Writes-first :
      (n f : ℕ) (it : OwnedSetIter A) (xs : List A)
      → Gives it xs
      → length xs < f
      → length xs + 1 < n
      → Writes n f (record { iter = it; state = first }) (entries r (origins r xs) ++ footer_text)
  unfolding next_in entries
  Writes-first zero f it xs g h k = absurd (omega arith)
  Writes-first (suc n) f it xs g h k = step (next_origin-Finds r f it xs g h)
    where
      s : OutputStream A
      s = record { iter = it; state = first }

      step :
          {os : List r.RouteOrigin}
          → Finds r f it (length xs) os
          → Writes (suc n) f s (entries r os ++ footer_text)
      step (nothing later e q) = rw q (Writes-footer (suc n) f it later s [] (omega arith) refl e)
      step (found later ys o e g' l q) = rw q (
          subst (Writes (suc n) f s)
            (sym (append_assoc (entry r o) (more_entries r (origins r ys)) footer_text))
            (Writes-entry n f it later o s [] (more_entries r (origins r ys) ++ footer_text) refl e
              (Writes-body n f later ys g' (omega arith) (omega arith))))

  -- For a set with its blocks in range, of which at most the first is empty, the stream ends, and
  -- its frames one after the other are the document with an entry for each route origin of the set,
  -- in the order of the set and with a comma between two entries: fuel above the number of items is
  -- enough for finding the next origin, and three more calls than items for the whole stream.
  pub frames-document :
      (s : Set A) (n f : ℕ)
      → AllInRange s.blocks
      → TailNoneEmpty s.blocks
      → length (flatten s.blocks) < f
      → length (flatten s.blocks) + 2 < n
      → (ts : List Text) × (frames r n f (new s) ≡ some ts)
        × (concat ts ≡ document r (origins r (flatten s.blocks)))
  unfolding next_in concat
  frames-document s zero f v t h k = absurd (omega arith)
  frames-document s (suc n) f v t h k = header_first (
      Writes-first n f (owned_iter s) (flatten s.blocks) (λ m l. taken-flatten s m v t l) h
        (omega arith))
    where
      header_first :
          Writes n f
            (record { iter = owned_iter s; state = first })
            (entries r (origins r (flatten s.blocks)) ++ footer_text)
          → Writes (suc n) f (new s) (document r (origins r (flatten s.blocks)))
      header_first (ts, g, c) = (
        header_text ∷ ts,
        frames-cons n f (new s) (record { iter = owned_iter s; state = first }) header_text ts refl
            g,
        ap (λ u. header_text ++ u) c,
      )
