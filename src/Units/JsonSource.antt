-- ===== src/Units/JsonSource.antt =====
-- src/units/json.rs: the source of the JSON unit, and how it is read. What the file system and a
-- response give is an argument: the results of the calls that read. A failure of reading is `failed`.
pub mod Reading
use Prim.Native.Nat.{min}
use rtrtr.Base.{
  ℕ, zero, suc, Bool, true, false, List, [], ◌∷◌, ◌++◌, Option, none, some, length, take, drop,
}
use rtrtr.Text.{Text, codes, starts_with}

-- A result, or the error `Failed` or an error of reading.
pub data Outcome {ℓ} (A : Type ℓ) : Type ℓ where
  finished : A → Outcome A
  failed : Outcome A

abbrev pub then_with {ℓ κ} : {A : Type ℓ} {B : Type κ} → Outcome A → (A → Outcome B) → Outcome B
then_with (finished a) f = f a
then_with failed f = failed

-- `SourceUri`, with the parsing of a URL as an argument.
pub data SourceUri (Url : Type 0) : Type 0 where
  http_uri : Url → SourceUri Url
  file_path : Text → SourceUri Url

unfoldable pub try_from : {Url : Type 0} → (Text → Option Url) → Text → Option (SourceUri Url)
try_from from_str src = elim (starts_with src (codes "file:")) [
  | true ↦ some (file_path (drop 5 src))
  | false ↦ elim (from_str src) [ none ↦ none | some url ↦ some (http_uri url) ]
]

-- What is still to be read: the results of the next calls, of which the last gives the end. A file
-- gives some bytes, and none at its end; a response gives a chunk. `failed` is an error.
pub data Reader : Type 0 where
  file_reader response_reader : List (Outcome Text) → Reader

pub record SourceReader : Type 0 where
  pub reader : Reader
  pub chunk : Text

abbrev pub new_reader : Reader → SourceReader
new_reader r = record { reader = r; chunk = [] }

-- What follows a call for the next bytes.
abbrev pub next_bytes : List (Outcome Text) → Outcome (Option Text) × List (Outcome Text)
next_bytes [] = (finished none, [])
next_bytes (failed ∷ rest) = (failed, rest)
next_bytes (finished s ∷ rest) = (finished (some s), rest)

unfoldable pub prepare_file : List (Outcome Text) → SourceReader × Outcome Bool
prepare_file [] = (new_reader (file_reader []), finished false)
prepare_file (failed ∷ rest) = (new_reader (file_reader rest), failed)
prepare_file (finished [] ∷ rest) = (new_reader (file_reader rest), finished false)
prepare_file (finished (c ∷ cs) ∷ rest) =
    (record { reader = file_reader rest; chunk = c ∷ cs }, finished true)

unfoldable pub prepare_response : List (Outcome Text) → SourceReader × Outcome Bool
prepare_response [] = (new_reader (response_reader []), finished false)
prepare_response (failed ∷ rest) = (new_reader (response_reader rest), failed)
prepare_response (finished s ∷ rest) =
    (record { reader = response_reader rest; chunk = s }, finished true)

-- `SourceReader::prepare_chunk`
unfoldable pub prepare_chunk : SourceReader → SourceReader × Outcome Bool
prepare_chunk r = elim r.chunk [
  | c ∷ cs ↦ (r, finished true)
  | [] ↦ elim r.reader [
    | file_reader results ↦ prepare_file results
    | response_reader results ↦ prepare_response results
  ]
]

-- `Read::read` into a buffer of a length.
unfoldable pub read : SourceReader → ℕ → SourceReader × Outcome Text
read r buf_len =
    let (r', ready) = prepare_chunk r in
    elim ready [
      | failed ↦ (r', failed)
      | finished false ↦ (r', finished [])
      | finished true ↦
          let len = min (length r'.chunk) buf_len in
          (record r' { chunk = drop len r'.chunk }, finished (take len r'.chunk))
    ]

-- What follows a call of `read` when a source is read to its end.
abbrev pub read_on :
    (SourceReader → Option (Outcome Text)) → SourceReader × Outcome Text → Option (Outcome Text)
read_on rest (r, failed) = some failed
read_on rest (r, finished []) = some (finished [])
read_on rest (r, finished (c ∷ cs)) = elim (rest r) [
  | none ↦ none
  | some out ↦ some (then_with out (λ s. finished (c ∷ cs ++ s)))
]

-- Reading to the end, as a parser does: a call that gives nothing is the end. `none` is a loop that
-- runs out of its fuel.
unfoldable pub read_to_end : ℕ → ℕ → SourceReader → Option (Outcome Text)
read_to_end zero buf_len r = none
read_to_end (suc f) buf_len r = read_on (read_to_end f buf_len) (read r buf_len)
