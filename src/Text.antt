-- ===== src/Text.antt =====
-- Texts as lists of code points, with the methods of `str` that src/utils/http.rs,
-- src/targets/http.rs and src/units/json.rs call.
pub mod Trim
pub mod Compare
use Prim.Native.Char.{code}
use Prim.Native.Nat.{◌/◌}
use Prim.Native.String.{String}
use rtrtr.Base.{
  ℕ, zero, suc, ◌+◌, ◌%◌, Bool, true, false, ◌&&◌, ◌||◌, List, [], ◌∷◌, ◌++◌, Option, none, some,
  ltb, leb, if◌then◌else◌, ◌==◌,
}

abbrev pub Text : Type 0
Text = List ℕ

-- The code points of a literal.
abbrev pub codes : String → Text
codes String.[] = []
codes (String.◌∷◌ c s) = code c ∷ codes s

-- `char::is_whitespace`: the property White_Space of Unicode.
unfoldable pub is_whitespace : ℕ → Bool
is_whitespace c =
    (leb 9 c && leb c 13)
    || c == 32
    || c == 133
    || c == 160
    || c == 5760
    || (leb 8192 c && leb c 8202)
    || c == 8232
    || c == 8233
    || c == 8239
    || c == 8287
    || c == 12288

unfoldable pub trim_start : Text → Text
trim_start [] = []
trim_start (c ∷ cs) = if is_whitespace c then trim_start cs else c ∷ cs

unfoldable pub trim_end : Text → Text
trim_end [] = []
trim_end (c ∷ cs) = elim (trim_end cs) [
  | [] ↦ if is_whitespace c then [] else c ∷ []
  | d ∷ ds ↦ c ∷ d ∷ ds
]

abbrev pub trim : Text → Text
trim s = trim_start (trim_end s)

unfoldable pub same_text : Text → Text → Bool
same_text [] [] = true
same_text (c ∷ cs) (d ∷ ds) = c == d && same_text cs ds
same_text _ _ = false

unfoldable pub starts_with : Text → Text → Bool
starts_with s [] = true
starts_with [] (p ∷ ps) = false
starts_with (c ∷ cs) (p ∷ ps) = c == p && starts_with cs ps

-- The index of the first occurrence of a character.
unfoldable pub find : ℕ → Text → Option ℕ
find q [] = none
find q (c ∷ cs) =
    if c == q then some 0 else elim (find q cs) [ none ↦ none | some i ↦ some (suc i) ]

-- `Display` of an unsigned number: its decimal digits, of which there are at most as many as its
-- fuel.
unfoldable pub decimal_onto : ℕ → ℕ → Text → Text
decimal_onto zero n rest = rest
decimal_onto (suc f) n rest = elim (ltb n 10) [
  | true ↦ (n + 48) ∷ rest
  | false ↦ decimal_onto f (n / 10) ((n % 10 + 48) ∷ rest)
]

unfoldable pub decimal : ℕ → Text
decimal n = decimal_onto (suc n) n []

-- The frames of a stream one after the other.
unfoldable pub concat : List Text → Text
concat [] = []
concat (s ∷ ss) = s ++ concat ss
