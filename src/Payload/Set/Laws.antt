-- ===== src/Payload/Set/Laws.antt =====
-- Sequences of blocks and their items.
use rtrtr.Base.{
  ◌≡◌, Option, none, some, refl, ap, ◌∙◌, sym, List, [], ◌∷◌, ◌++◌, append_assoc, append-nil,
}
use rtrtr.Payload.Block.{Block, contents}
use rtrtr.Payload.Block.Laws.{as_slice-contents}
use rtrtr.Payload.Set.{flatten, collect, AllInRange}

module _ {ℓ} {A : Type ℓ} where
  pub flatten-append : (bs cs : List (Block A)) → flatten (bs ++ cs) ≡ flatten bs ++ flatten cs
  unfolding flatten
  flatten-append [] cs = refl
  flatten-append (b ∷ bs) cs =
      ap (◌++◌ (contents b)) (flatten-append bs cs)
      ∙ sym (append_assoc (contents b) (flatten bs) (flatten cs))

  pub flatten-single : (b : Block A) → flatten (b ∷ []) ≡ contents b
  unfolding flatten
  flatten-single b = append-nil _

  pub flatten-push :
      (bs : List (Block A)) (b : Block A) → flatten (bs ++ b ∷ []) ≡ flatten bs ++ contents b
  flatten-push bs b = flatten-append bs (b ∷ []) ∙ ap (◌++◌ (flatten bs)) (flatten-single b)

  -- The blocks of an iterator with its head taken out.
  abbrev pub listed : Option (Block A) → List (Block A) → List (Block A)
  listed none bs = bs
  listed (some b) bs = b ∷ bs

  pub collect-flatten : (bs : List (Block A)) → AllInRange bs → collect bs ≡ some (flatten bs)
  unfolding collect flatten
  collect-flatten [] v = refl
  collect-flatten (b ∷ bs) v = rw (as_slice-contents v.0) (rw (collect-flatten bs v.1))
