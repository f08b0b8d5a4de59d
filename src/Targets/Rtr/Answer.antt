-- ===== src/Targets/Rtr/Answer.antt =====
-- src/targets/rtr.rs: what a source answers to a client that asks for the changes since a version.
use mathlib.Core.List.{Memᴰ}
use mathlib.Core.List.Memᴰ.{head, tail}
use rtrtr.Base.{
  ℕ, zero, suc, ◌<◌, get_elem?, length, lt_of_get_elem?, arith, ◌≡◌, ◌⊎◌, refl, ap, ap₂, ◌∙◌, sym,
  subst, inl, inr, Bool, true, false, List, [], ◌∷◌, Option, none, some, if◌then◌else◌, ◌>>=◌,
}
use rtrtr.Order.{Order}
use rtrtr.Payload.Set.{Set, flatten}
use rtrtr.Payload.Diff.{Diff, OwnedDiffIter, diff_from, extend, no_items, is_empty}
use rtrtr.Payload.Diff
use rtrtr.Payload.Diff.From.{IsDiff}
use rtrtr.Targets.Rtr.{Protocol, Source, get_diff, find_diff, diff}
use rtrtr.Targets.Rtr.Serve.{Serve}
use rtrtr.Targets.Rtr.History.{without_self, IsHistory}

module _ (p : Protocol) {A : Type 0} ⦃o : Order A⦄ where
  -- A client's version: the current one under the current serial number, or one of the past.
  unfoldable pub Held : List (p.Serial × List A) → Set A → p.Serial → p.Serial → List A → Type 0
  Held past cur now n xs = ((n ≡ now) × (xs ≡ flatten cur.blocks)) ⊎ Memᴰ (n, xs) past

  find_diff_lem :
      (now : List A) (past : List (p.Serial × List A)) (ds : List (p.Serial × Diff A))
      (n : p.Serial) (it : OwnedDiffIter A)
      → ((a b : p.Serial) → p.same_serial a b ≡ true → a ≡ b)
      → Serve p now past ds
      → find_diff p n ds ≡ some it
      → (xs : List A) × (d : Diff A) × Memᴰ (n, xs) past
        × (it ≡ Diff.owned_iter d)
        × IsDiff xs now d
  unfolding find_diff
  find_diff_lem now past [] n it eqs v e = cc e
  find_diff_lem now [] ((k, d) ∷ ds) n it eqs v e = elim v [ ]
  find_diff_lem now ((m, xs) ∷ past) ((k, d) ∷ ds) n it eqs v e =
      go (p.same_serial k n) refl e (find_diff_lem now past ds n it eqs v.2)
    where
      go :
          (b : Bool)
          → p.same_serial k n ≡ b
          → (if b then some (Diff.owned_iter d) else find_diff p n ds) ≡ some it
          → (find_diff p n ds ≡ some it
              → (xs : List A) × (d : Diff A) × Memᴰ (n, xs) past
                × (it ≡ Diff.owned_iter d)
                × IsDiff xs now d)
          → (zs : List A) × (d : Diff A) × Memᴰ (n, zs) ((m, xs) ∷ past)
            × (it ≡ Diff.owned_iter d)
            × IsDiff zs now d
      go true q e rec = (xs, d, head (ap₂ (λ a b. (a, b)) (sym (v.0 ∙ eqs k n q)) refl), cc e, v.1)
      go false q e rec = let (zs, d', g, f, i) = rec e in (zs, d', tail g, f, i)

  -- The answer to a client: given under the source's own state and session, it iterates over a
  -- diff that leads to the current data from a version that had the client's serial number.
  abbrev pub Answered :
      List (p.Serial × List A) → Set A → Source p A → p.State → p.State → OwnedDiffIter A → Type 0
  Answered past cur s client now it =
      (now ≡ s.source_data.state)
      × (p.same_session (p.session client) (p.session now) ≡ true)
      × (xs : List A) × (d : Diff A) × Held past cur (p.serial now) (p.serial client) xs
      × (it ≡ Diff.owned_iter d)
      × IsDiff xs (flatten cur.blocks) d

  -- If a source with a history answers a client's query for the changes since a version by its
  -- serial number, then it does so under its own state and session, there is a version that had
  -- this number, and the answer iterates over a diff that leads from it to the current data. The
  -- comparison of serial numbers is taken to tell different ones apart.
  pub diff-IsDiff :
      (past : List (p.Serial × List A)) (cur : Set A) (s : Source p A) (client now : p.State)
      (it : OwnedDiffIter A)
      → ((a b : p.Serial) → p.same_serial a b ≡ true → a ≡ b)
      → IsHistory p past cur s
      → diff p s client ≡ some (now, it)
      → Answered past cur s client now it
  unfolding diff get_diff Held
  diff-IsDiff past cur s client now it eqs h e =
      go s.source_data.current h.loaded
        (p.same_session (p.session client) (p.session s.source_data.state)) refl
        (p.same_serial (p.serial client) (p.serial s.source_data.state)) refl e
    where
      answer :
          now ≡ s.source_data.state
          → p.same_session (p.session client) (p.session s.source_data.state) ≡ true
          → (xs : List A) → (d : Diff A)
          → Held past cur (p.serial s.source_data.state) (p.serial client) xs
          → it ≡ Diff.owned_iter d
          → IsDiff xs (flatten cur.blocks) d
          → Answered past cur s client now it
      answer q r xs d k f i = (
        q,
        ap (λ n. p.same_session (p.session client) (p.session n)) q ∙ r,
        xs,
        d,
        subst (λ n. Held past cur (p.serial n) (p.serial client) xs) (sym q) k,
        f,
        i,
      )

      split :
          (r : Option (OwnedDiffIter A))
          → ◌>>=◌ {B = p.State × OwnedDiffIter A} r (λ d. some (s.source_data.state, d))
            ≡ some (now, it)
          → (r ≡ some it) × (now ≡ s.source_data.state)
      split none e = cc e
      split (some d) e = (cc e, cc e)

      go :
          (c : Option (Set A))
          → c ≡ some cur
          → (b : Bool) → p.same_session (p.session client) (p.session s.source_data.state) ≡ b
          → (t : Bool) → p.same_serial (p.serial client) (p.serial s.source_data.state) ≡ t
          → elim c as (λ _. Option (p.State × OwnedDiffIter A)) [
            | none ↦ none
            | some current ↦ elim b [
              | false ↦ none
              | true ↦ do
                d ←
                    if t
                    then some (Diff.owned_iter Diff.default)
                    else find_diff p (p.serial client) s.source_data.diffs
                some (s.source_data.state, d)
            ]
          ]
            ≡ some (now, it)
          → Answered past cur s client now it
      go none l b q t r e = cc l
      go (some c) l false q t r e = cc e
      go (some c) l true q true r e =
          let (f, g) = split (some (Diff.owned_iter Diff.default)) e in
          answer g q (flatten cur.blocks) Diff.default
            (inl (eqs (p.serial client) (p.serial s.source_data.state) r, refl)) (cc f)
            (record {
              announces = sym (without_self p (flatten cur.blocks));
              withdraws = sym (without_self p (flatten cur.blocks));
            })
      go (some c) l true q false r e =
          let (f, g) = split (find_diff p (p.serial client) s.source_data.diffs) e in
          let (xs, d, k, j, i) =
            find_diff_lem (flatten cur.blocks) past s.source_data.diffs (p.serial client) it eqs
              h.serves f in
          answer g q xs d (inr k) j i

  find_diff-answers :
      (now : List A) (past : List (p.Serial × List A)) (ds : List (p.Serial × Diff A)) (i : ℕ)
      (n : p.Serial) (xs : List A)
      → ((a : p.Serial) → p.same_serial a a ≡ true)
      → Serve p now past ds
      → get_elem? past i ≡ some (n, xs)
      → i < length ds
      → (it : OwnedDiffIter A) × (find_diff p n ds ≡ some it)
  unfolding find_diff
  find_diff-answers now past [] i n xs same v e l = absurd (omega arith)
  find_diff-answers now [] ((k, d) ∷ ds) i n xs same v e l = elim v [ ]
  find_diff-answers now ((m, ys) ∷ past) ((k, d) ∷ ds) zero n xs same v e l = (
    Diff.owned_iter d,
    rw (subst (λ a. p.same_serial k a ≡ true) (sym v.0 ∙ first e) (same k)) refl,
  )
    where
      first : ◌≡◌ {A = Option (p.Serial × List A)} (some (m, ys)) (some (n, xs)) → m ≡ n
      first e = cc e
  find_diff-answers now ((m, ys) ∷ past) ((k, d) ∷ ds) (suc i) n xs same v e l =
      go (p.same_serial k n) (find_diff-answers now past ds i n xs same v.2 e (omega arith))
    where
      go :
          (b : Bool)
          → ((it : OwnedDiffIter A) × (find_diff p n ds ≡ some it))
          → (it : OwnedDiffIter A) × ((if b then some (Diff.owned_iter d) else find_diff p n ds)
              ≡ some it)
      go true r = (Diff.owned_iter d, refl)
      go false r = r

  -- A source with a history answers every client of its own session whose serial number is the one
  -- of a past version, as long as fewer versions than the size of the history came between that
  -- one and the current one. The comparison of serial numbers is taken to recognise equal ones.
  pub diff-answers :
      (past : List (p.Serial × List A)) (cur : Set A) (s : Source p A) (client : p.State) (i : ℕ)
      (xs : List A)
      → ((a : p.Serial) → p.same_serial a a ≡ true)
      → IsHistory p past cur s
      → p.same_session (p.session client) (p.session s.source_data.state) ≡ true
      → get_elem? past i ≡ some (p.serial client, xs)
      → i < s.history_size
      → (it : OwnedDiffIter A) × (diff p s client ≡ some (s.source_data.state, it))
  unfolding diff get_diff
  diff-answers past cur s client i xs same h q e l =
      let (it, f) =
        find_diff-answers (flatten cur.blocks) past s.source_data.diffs i (p.serial client) xs same
          h.serves e kept in
      go s.source_data.current h.loaded
        (p.same_session (p.session client) (p.session s.source_data.state)) q
        (p.same_serial (p.serial client) (p.serial s.source_data.state)) it f
    where
      kept : i < length s.source_data.diffs
      kept = elim h.complete [
        | inl z ↦ omega (arith, lt_of_get_elem? past i (p.serial client, xs) e)
        | inr z ↦ omega arith
      ]

      go :
          (c : Option (Set A))
          → c ≡ some cur
          → (b : Bool) → b ≡ true
          → (t : Bool) → (it : OwnedDiffIter A)
          → find_diff p (p.serial client) s.source_data.diffs ≡ some it
          → (r : OwnedDiffIter A) × (elim c as (λ _. Option (p.State × OwnedDiffIter A)) [
            | none ↦ none
            | some current ↦ elim b [
              | false ↦ none
              | true ↦ do
                d ←
                    if t
                    then some (Diff.owned_iter Diff.default)
                    else find_diff p (p.serial client) s.source_data.diffs
                some (s.source_data.state, d)
            ]
          ]
              ≡ some (s.source_data.state, r))
      go none l b q t it f = cc l
      go (some c) l false q t it f = cc q
      go (some c) l true q true it f = (Diff.owned_iter Diff.default, refl)
      go (some c) l true q false it f = (it, rw f refl)
