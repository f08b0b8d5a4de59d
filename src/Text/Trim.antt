-- ===== src/Text/Trim.antt =====
-- Trimming and comparing the texts of Text.antt.
use rtrtr.Base.{
  ℕ, zero, suc, ◌≤◌, ◌≡◌, refl, ap, true, false, List, [], ◌∷◌, ◌++◌, some, arith, length, take,
  drop, All, ◌==◌, ==_iff, ◌↔◌,
}
use rtrtr.Text.{Text, is_whitespace, trim_start, trim_end, same_text, find}

abbrev pub AllSpace : Text → Type 0
AllSpace s = All (λ c. is_whitespace c ≡ true) s

pub trim_start-append_space : (ws s : Text) → AllSpace ws → trim_start (ws ++ s) ≡ trim_start s
unfolding trim_start
trim_start-append_space [] s h = refl
trim_start-append_space (c ∷ ws) s h = rw (h.0) (trim_start-append_space ws s h.1)

pub trim_start_space : (ws : Text) → AllSpace ws → trim_start ws ≡ []
unfolding trim_start
trim_start_space [] h = refl
trim_start_space (c ∷ ws) h = rw (h.0) (trim_start_space ws h.1)

pub length-trim_start-le : (s : Text) → length (trim_start s) ≤ length s
unfolding trim_start
length-trim_start-le [] = omega arith
length-trim_start-le (c ∷ s) = ground (arith, length-trim_start-le s)

pub trim_start_idem : (s : Text) → trim_start (trim_start s) ≡ trim_start s
unfolding trim_start
trim_start_idem [] = refl
trim_start_idem (c ∷ s) = ground (arith, trim_start_idem s)

pub trim_start-solid : (c : ℕ) (s : Text) → is_whitespace c ≡ false → trim_start (c ∷ s) ≡ c ∷ s
unfolding trim_start
trim_start-solid c s h = rw h

pub trim_end-concat_solid :
    (s : Text) (c : ℕ) → is_whitespace c ≡ false → trim_end (s ++ c ∷ []) ≡ s ++ c ∷ []
unfolding trim_end
trim_end-concat_solid [] c h = ground (arith, h)
trim_end-concat_solid (d ∷ []) c h = ground (arith, trim_end-concat_solid [] c h)
trim_end-concat_solid (d ∷ e ∷ s) c h = ground (arith, trim_end-concat_solid (e ∷ s) c h)

pub same_text_iff : (s t : Text) → (same_text s t ≡ true) ↔ (s ≡ t)
unfolding same_text
same_text_iff [] [] = (λ e. refl, λ e. refl)
same_text_iff [] (d ∷ t) = ground arith
same_text_iff (c ∷ s) [] = ground arith
same_text_iff (c ∷ s) (d ∷ t) = ground (arith, ==_iff c d, same_text_iff s t)

pub same_text_refl : (s : Text) → same_text s s ≡ true
same_text_refl s = (same_text_iff s s).1 refl

-- A text without the character, and then the character.
pub find-append :
    (q : ℕ) (s t : Text) → All (λ c. (c == q) ≡ false) s → find q (s ++ q ∷ t) ≡ some (length s)
unfolding find
find-append q [] t h = ground arith
find-append q (c ∷ s) t h = rw (h.0, find-append q s t h.1)

pub take-length-append {ℓ} : {A : Type ℓ} (s t : List A) → take (length s) (s ++ t) ≡ s
take-length-append [] t = ground arith
take-length-append (c ∷ s) t = ap (◌∷◌ c) (take-length-append s t)

pub drop-length-append {ℓ} : {A : Type ℓ} (s t : List A) → drop (length s) (s ++ t) ≡ t
drop-length-append [] t = refl
drop-length-append (c ∷ s) t = drop-length-append s t

pub length-drop-le {ℓ} : {A : Type ℓ} (n : ℕ) (s : List A) → length (drop n s) ≤ length s
length-drop-le zero s = omega arith
length-drop-le (suc n) [] = omega arith
length-drop-le (suc n) (c ∷ s) = omega (arith, length-drop-le n s)
