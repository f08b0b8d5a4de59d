-- ===== src/Units/JsonSource/Reading.antt =====
-- src/units/json.rs: reading a source to its end gives the chunks of its body.
use Prim.Native.Nat.{min}
use rtrtr.Base.{
  ℕ, zero, suc, ◌+◌, ◌-◌, ◌<◌, ◌≡◌, refl, sym, ap, ◌∙◌, Bool, true, false, List, [], ◌∷◌, ◌++◌, map,
  Option, none, some, arith, length, take, drop, All, append_assoc, length-append, if◌then◌else◌,
}
use rtrtr.Text.{Text, concat}
use rtrtr.Text.Trim.{length-drop-le}
use rtrtr.Units.JsonSource.{
  Outcome, finished, failed, then_with, Reader, file_reader, response_reader, SourceReader,
  prepare_file, prepare_response, prepare_chunk, read, read_on, read_to_end,
}

-- The two kinds of readers.
abbrev pub reader_of : Bool → List (Outcome Text) → Reader
reader_of true results = file_reader results
reader_of false results = response_reader results

-- How the calls for more bytes end: with the end of the source, or with an error.
pub data IsEnd : Bool → List (Outcome Text) → Type 0 where
  complete : IsEnd true []
  broken : (rest : List (Outcome Text)) → IsEnd false (failed ∷ rest)

min-pos : (k n : ℕ) → 0 < n → (l : ℕ) × (min (suc k) n ≡ suc l)
min-pos k n h = (min (suc k) n - 1, omega arith)

take-append-drop {ℓ} : {A : Type ℓ} (n : ℕ) (xs : List A) → take n xs ++ drop n xs ≡ xs
take-append-drop zero xs = refl
take-append-drop (suc n) [] = refl
take-append-drop (suc n) (x ∷ xs) = ap (◌∷◌ x) (take-append-drop n xs)

module _ (n : ℕ) where
  -- A call with a chunk at hand.
  read-chunk :
      (r : Reader) (c : ℕ) (cs : Text)
      → 0 < n
      → (l : ℕ) × (read (record { reader = r; chunk = c ∷ cs }) n
          ≡ (record { reader = r; chunk = drop l cs }, finished (c ∷ take l cs)))
  unfolding read prepare_chunk
  read-chunk r c cs h =
      let (l, e) = min-pos (length cs) n h in
      (l, ap (λ k. (record { reader = r; chunk = drop k (c ∷ cs) }, finished (take k (c ∷ cs)))) e)

  -- A call without a chunk takes the next one.
  read-next :
      (b : Bool) (rest : List (Outcome Text)) (c : ℕ) (cs : Text)
      → read (record { reader = reader_of b (finished (c ∷ cs) ∷ rest); chunk = [] }) n
        ≡ read (record { reader = reader_of b rest; chunk = c ∷ cs }) n
  unfolding read prepare_chunk prepare_file prepare_response
  read-next true rest c cs = refl
  read-next false rest c cs = refl

  read-end :
      (b ok : Bool) (tail : List (Outcome Text))
      → IsEnd ok tail
      → (read (record { reader = reader_of b tail; chunk = [] }) n).1
        ≡ (if ok then finished [] else failed)
  unfolding read prepare_chunk prepare_file prepare_response
  read-end true true tail complete = refl
  read-end true false tail (broken rest) = refl
  read-end false true tail complete = refl
  read-end false false tail (broken rest) = refl

  read_to_end-step :
      (f : ℕ) (r r' : SourceReader) (c : ℕ) (t : Text) (out : Outcome Text)
      → read r n ≡ (r', finished (c ∷ t))
      → read_to_end f n r' ≡ some out
      → read_to_end (suc f) n r ≡ some (then_with out (λ s. finished (c ∷ t ++ s)))
  unfolding read_to_end
  read_to_end-step f r r' c t out e g =
      ap (read_on (read_to_end f n)) e
      ∙ ap
          (λ m. elim m as (λ _. Option (Outcome Text)) [
            | none ↦ none
            | some out ↦ some (then_with out (λ s. finished (c ∷ t ++ s)))
          ])
          g

  read_to_end-end :
      (f : ℕ) (b ok : Bool) (tail : List (Outcome Text))
      → IsEnd ok tail
      → read_to_end (suc f) n (record { reader = reader_of b tail; chunk = [] })
        ≡ some (if ok then finished [] else failed)
  unfolding read_to_end
  read_to_end-end f b ok tail e =
      last (read (record { reader = reader_of b tail; chunk = [] }) n) ok (read-end b ok tail e)
    where
      last :
          (m : SourceReader × Outcome Text) (ok : Bool)
          → m.1 ≡ (if ok then finished [] else failed)
          → read_on (read_to_end f n) m ≡ some (if ok then finished [] else failed)
      last (r, m) true e = ap (λ m. read_on (read_to_end f n) (r, m)) e
      last (r, m) false e = ap (λ m. read_on (read_to_end f n) (r, m)) e

  read_to_end-next :
      (f : ℕ) (b : Bool) (rest : List (Outcome Text)) (c : ℕ) (cs : Text)
      → read_to_end
          (suc f)
          n
          (record { reader = reader_of b (finished (c ∷ cs) ∷ rest); chunk = [] })
        ≡ read_to_end (suc f) n (record { reader = reader_of b rest; chunk = c ∷ cs })
  unfolding read_to_end
  read_to_end-next f b rest c cs = ap (read_on (read_to_end f n)) (read-next b rest c cs)

  joined :
      (ok : Bool) (c : ℕ) (t u s : Text)
      → then_with (if ok then finished (u ++ s) else failed) (λ s. finished (c ∷ t ++ s))
        ≡ (if ok then finished (c ∷ (t ++ u) ++ s) else failed)
  joined true c t u s = ap (λ w. finished (c ∷ w)) (sym (append_assoc t u s))
  joined false c t u s = refl

  -- The chunks to come, none of them empty, and how they end.
  abbrev results : List Text → List (Outcome Text) → List (Outcome Text)
  results chunks tail = map finished chunks ++ tail

  -- What reading gives with a chunk at hand, by what it gives with what is left of the chunk.
  from_chunk :
      (f : ℕ) (b ok : Bool) (c : ℕ) (cs : Text) (chunks : List Text) (tail : List (Outcome Text))
      → 0 < n
      → suc (length (cs ++ concat chunks)) < suc f
      → ((chunk : Text)
          → length chunk + length (concat chunks) < f
          → read_to_end f n (record { reader = reader_of b (results chunks tail); chunk = chunk })
            ≡ some (if ok then finished (chunk ++ concat chunks) else failed))
      → read_to_end
          (suc f)
          n
          (record { reader = reader_of b (results chunks tail); chunk = c ∷ cs })
        ≡ some (if ok then finished (c ∷ (cs ++ concat chunks)) else failed)
  from_chunk f b ok c cs chunks tail h k rest =
      let (l, e) = read-chunk (reader_of b (results chunks tail)) c cs h in
      read_to_end-step f (record { reader = reader_of b (results chunks tail); chunk = c ∷ cs })
        (record { reader = reader_of b (results chunks tail); chunk = drop l cs }) c (take l cs)
        (if ok then finished (drop l cs ++ concat chunks) else failed) e
        (rest (drop l cs) (omega (arith, length-append cs (concat chunks), length-drop-le l cs)))
      ∙ ap some (
          joined ok c (take l cs) (drop l cs) (concat chunks)
          ∙ ap (λ u. if ok then finished (c ∷ (u ++ concat chunks)) else failed)
              (take-append-drop l cs))

  -- Reading a source to its end, with a buffer that is not empty, where no chunk of the source is
  -- empty: fuel above the number of bytes is enough, and the result is the bytes of all chunks in
  -- their order if the source ends, and an error if one of the calls for more bytes fails.
  pub read_to_end-from :
      (f : ℕ) (b ok : Bool) (chunk : Text) (chunks : List Text) (tail : List (Outcome Text))
      → 0 < n
      → All (λ c. 0 < length c) chunks
      → IsEnd ok tail
      → length chunk + length (concat chunks) < f
      → read_to_end f n (record { reader = reader_of b (results chunks tail); chunk = chunk })
        ≡ some (if ok then finished (chunk ++ concat chunks) else failed)
  unfolding concat
  read_to_end-from zero b ok chunk chunks tail h w e k = absurd (omega arith)
  read_to_end-from (suc f) b ok [] [] tail h w e k = read_to_end-end f b ok tail e
  read_to_end-from (suc f) b ok [] ([] ∷ chunks) tail h w e k = absurd (omega (arith, w.0))
  read_to_end-from (suc f) b ok [] ((c ∷ cs) ∷ chunks) tail h w e k =
      read_to_end-next f b (results chunks tail) c cs
      ∙ from_chunk f b ok c cs chunks tail h (omega (arith, k))
          (λ chunk m. read_to_end-from f b ok chunk chunks tail h w.1 e m)
  read_to_end-from (suc f) b ok (c ∷ cs) chunks tail h w e k =
      from_chunk f b ok c cs chunks tail h (omega (arith, k, length-append cs (concat chunks)))
        (λ chunk m. read_to_end-from f b ok chunk chunks tail h w e m)
