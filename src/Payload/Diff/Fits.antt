-- ===== src/Payload/Diff/Fits.antt =====
-- src/payload.rs: the changes of a diff between two lists, as `DiffIter` gives them.
use rtrtr.Base.{◌≡◌, refl, ◌∙◌, Bool, true, false, not, ◌&&◌, ◌||◌, List, [], ◌∷◌, arith}
use rtrtr.Order.{Order, is_eq, is_lt, elem}
use rtrtr.Sorted.Elem.{is_eq_self, eq_of_is_eq}
use rtrtr.Payload.Types.{Action, announce, withdraw}
use rtrtr.Payload.Pack.Laws.{Distinct}
use rtrtr.Payload.Diff.{changes}
use rtrtr.Payload.Diff.Tracks.{changed, after, AllFit}

module _ {ℓ} {A : Type ℓ} ⦃o : Order A⦄ where
  -- The changes fit, and lead to the test that they stand for.
  abbrev Good : (A → Bool) → List (A × Action) → List A → List A → Type ℓ
  Good m cs ns ws = AllFit m cs × ((z : A) → after m cs z ≡ elem z ns || (m z && not (elem z ws)))

  abbrev Apart : (A → Bool) → List A → Type ℓ
  Apart m ns = (z : A) → elem z ns && m z ≡ false

  abbrev Within : (A → Bool) → List A → Type ℓ
  Within m ws = (z : A) → elem z ws && not (m z) ≡ false

  announces_first :
      (m : A → Bool) (a : A) (ns ws : List A) (cs : List (A × Action))
      → Distinct (a ∷ ns)
      → Apart m (a ∷ ns)
      → Within m ws
      → (Apart (changed m a announce) ns
          → Within (changed m a announce) ws
          → Good (changed m a announce) cs ns ws)
      → Good m ((a, announce) ∷ cs) (a ∷ ns) ws
  announces_first m a ns ws cs d h k rec =
      let (f, g) =
        rec (λ z. apart (is_eq z a) (elem z ns) (m z) (h z) λ e. rw (eq_of_is_eq z a e) d.0)
          (λ z. within (is_eq z a) (elem z ws) (m z) (k z)) in
      (
        (head (is_eq a a) (elem a ns) (m a) (is_eq_self a) (h a), f),
        λ z. g z ∙ ends (is_eq z a) (elem z ns) (m z) (elem z ws) (h z) (k z),
      )
    where
      head : (p e v : Bool) → p ≡ true → (p || e) && v ≡ false → v ≡ false
      head p e v q h = ground arith

      apart :
          (p e v : Bool) → (p || e) && v ≡ false → (p ≡ true → e ≡ false) → e && (p || v) ≡ false
      apart true e v h q = rw (q refl) refl
      apart false e v h q = h

      within : (p e v : Bool) → e && not v ≡ false → e && not (p || v) ≡ false
      within p e v h = ground arith

      ends :
          (p e v w : Bool)
          → (p || e) && v ≡ false
          → w && not v ≡ false
          → e || ((p || v) && not w) ≡ (p || e) || (v && not w)
      ends p e v w h k = ground arith

  withdraws_first :
      (m : A → Bool) (w : A) (ns ws : List A) (cs : List (A × Action))
      → Distinct (w ∷ ws)
      → Apart m ns
      → Within m (w ∷ ws)
      → (Apart (changed m w withdraw) ns
          → Within (changed m w withdraw) ws
          → Good (changed m w withdraw) cs ns ws)
      → Good m ((w, withdraw) ∷ cs) ns (w ∷ ws)
  withdraws_first m w ns ws cs d h k rec =
      let (f, g) =
        rec (λ z. apart (is_eq z w) (elem z ns) (m z) (h z))
          (λ z. within (is_eq z w) (elem z ws) (m z) (k z) λ e. rw (eq_of_is_eq z w e) d.0) in
      (
        (head (is_eq w w) (elem w ws) (m w) (is_eq_self w) (k w), f),
        λ z. g z ∙ ends (is_eq z w) (elem z ns) (m z) (elem z ws),
      )
    where
      head : (p e v : Bool) → p ≡ true → (p || e) && not v ≡ false → v ≡ true
      head p e v q h = ground arith

      apart : (p e v : Bool) → e && v ≡ false → e && (not p && v) ≡ false
      apart p e v h = ground arith

      within :
          (p e v : Bool)
          → (p || e) && not v ≡ false
          → (p ≡ true → e ≡ false)
          → e && not (not p && v) ≡ false
      within true e v h q = rw (q refl) refl
      within false e v h q = h

      ends : (p e v w : Bool) → e || ((not p && v) && not w) ≡ e || (v && not (p || w))
      ends p e v w = ground arith

  pub changes-AllFit :
      (m : A → Bool) (ns ws : List A)
      → Distinct ns
      → Distinct ws
      → ((z : A) → elem z ns && m z ≡ false)
      → ((z : A) → elem z ws && not (m z) ≡ false)
      → AllFit m (changes ns ws)
        × ((z : A) → after m (changes ns ws) z ≡ elem z ns || (m z && not (elem z ws)))
  unfolding changes
  changes-AllFit m [] [] d e h k = (tt, λ z. and_true (m z))
    where
      and_true : (p : Bool) → p ≡ p && true
      and_true p = ground arith
  changes-AllFit m (a ∷ ns) [] d e h k =
      announces_first m a ns [] _ d h k (changes-AllFit (changed m a announce) ns [] d.1 e)
  changes-AllFit m [] (w ∷ ws) d e h k =
      withdraws_first m w [] ws _ e h k (changes-AllFit (changed m w withdraw) [] ws d e.1)
  changes-AllFit m (a ∷ ns) (w ∷ ws) d e h k =
      go (is_lt a w)
        (announces_first m a ns (w ∷ ws) _ d h k
          (changes-AllFit (changed m a announce) ns (w ∷ ws) d.1 e))
        (withdraws_first m w (a ∷ ns) ws _ e h k
          (changes-AllFit (changed m w withdraw) (a ∷ ns) ws d e.1))
    where
      go :
          (t : Bool)
          → Good m ((a, announce) ∷ changes ns (w ∷ ws)) (a ∷ ns) (w ∷ ws)
          → Good m ((w, withdraw) ∷ changes (a ∷ ns) ws) (a ∷ ns) (w ∷ ws)
          → Good m
              (elim t [
                | true ↦ (a, announce) ∷ changes ns (w ∷ ws)
                | false ↦ (w, withdraw) ∷ changes (a ∷ ns) ws
              ])
              (a ∷ ns)
              (w ∷ ws)
      go true g i = g
      go false g i = i
