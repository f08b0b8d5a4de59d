-- ===== src/Http/Tests.antt =====
-- Runs of src/utils/http.rs and src/http.rs.
use rtrtr.Base.{
  ◌⊎◌, ◌+◌, ℕ, ◌≡◌, refl, List, [], ◌∷◌, none, some, arith, Option, ◌==◌, if◌then◌else◌, true,
  false,
}
use rtrtr.Text.{Text, codes, is_whitespace, trim_start, starts_with, find}
use rtrtr.Http.Etags.{new, next, next_trimmed, tag_end, prefix_len, skip_comma, collect}
use rtrtr.Http.Etags.Listing.{strong, weak, IsListing, last, more, collect-IsListing}
use rtrtr.Http.Server.{exit_error, listeners, run, any_fails, BoundTo, run-outcome}
use rtrtr.Http.Resources.{
  RegisteredResource, live, register, process_request, process_request-register, or_else,
}

abbrev value : Text
value = codes " \"a\" ,W/\"b\""

value-IsListing : IsListing value (codes "\"a\"" ∷ codes "W/\"b\"" ∷ [])
unfolding is_whitespace
value-IsListing =
    more (codes " ") (codes "\"a\"") (codes " ") (refl, tt) (strong (codes "a") (refl, tt) refl)
      (refl, tt) refl (last [] (codes "W/\"b\"") [] tt (weak (codes "b") (refl, tt) refl) tt refl)

collect-IsListing_example : collect 20 (new value) ≡ some (codes "\"a\"" ∷ codes "W/\"b\"" ∷ [])
collect-IsListing_example = collect-IsListing 20 value-IsListing (omega arith)

-- A tag that is followed by garbage is seen, and the garbage ends the loop.
collect_garbage : collect 20 (new (codes "\"a\" garbage \"b\"")) ≡ some (codes "\"a\"" ∷ [])
unfolding collect next next_trimmed tag_end prefix_len skip_comma trim_start is_whitespace
    starts_with find
collect_garbage = refl

abbrev zero_answer : ℕ → Option ℕ
zero_answer n = if n == 0 then some 10 else none

-- The first processor does not live any more.
abbrev sources : List (RegisteredResource ℕ ℕ)
sources = record { process = λ n. some 7; lives = false } ∷ []

process_request-register_example :
    process_request (register sources (record { process = zero_answer; lives = true })) 0
    ≡ or_else (process_request sources 0) (zero_answer 0)
process_request-register_example = process_request-register sources zero_answer 0

answers :
    process_request (register sources (record { process = zero_answer; lives = true })) 0 ≡ some 10
unfolding process_request register live
answers = refl

-- Binding the number 0 fails.
-- The port 0 cannot be bound, nor a second port.
abbrev bind : List (ℕ × ℕ) → ℕ → Option ℕ
bind [] n = if n == 0 then none else some (n + 100)
bind (l ∷ ls) n = none

run-outcome_example :
    ((any_fails bind (λ l. true) [] (1 ∷ 0 ∷ []) ≡ true)
      × (run bind (λ l. true) (1 ∷ 0 ∷ []) ≡ exit_error))
    ⊎ ((any_fails bind (λ l. true) [] (1 ∷ 0 ∷ []) ≡ false)
        × (ls : List (ℕ × ℕ)) × (run bind (λ l. true) (1 ∷ 0 ∷ []) ≡ listeners ls)
        × BoundTo bind (λ l. true) [] ls (1 ∷ 0 ∷ []))
run-outcome_example = run-outcome bind (λ l. true) (1 ∷ 0 ∷ [])
