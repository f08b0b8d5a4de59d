-- ===== src/Manager/Resolving.antt =====
-- Whether loading a configuration succeeds in src/manager.rs, and what the manager has then.
use rtrtr.Base.{
  ℕ, ◌≡◌, refl, sym, ap, ◌∙◌, subst, Bool, true, false, List, [], ◌∷◌, some, arith, All,
  if◌then◌else◌, Bool-cases, inl, inr,
}
use rtrtr.Text.{Text, same_text}
use rtrtr.Text.Trim.{same_text_iff, same_text_refl}
use rtrtr.Manager.{
  lookup, has, Gates, Manager, Loaded, loaded, unresolved, new, load_link, load_links, resolve,
  loaded_or, load,
}
use rtrtr.Manager.Loading.{names_of, call_names, load_links-Connected, has-load_links}
use rtrtr.Manager.Pending.{all_in, is_nil, resolve-errors, pending-resolve}

-- The names of the links that are loaded are those of the calls.
unfoldable pub link_names : List (Text × ℕ) → List Text
link_names [] = []
link_names ((name, link) ∷ links) = name ∷ link_names links

module _ {Mark : Type 0} where
  link_names-load_links :
      (calls : List (Text × Mark)) (gates : Gates Mark)
      → link_names (load_links calls gates).1 ≡ call_names calls
  unfolding link_names call_names load_links load_link
  link_names-load_links [] gates = refl
  link_names-load_links ((name, mark) ∷ calls) gates =
      ap (◌∷◌ name) (link_names-load_links calls (load_link name mark gates).0)

all_in-has :
    (ns names : List Text) (n : Text)
    → all_in ns names ≡ true
    → has n ns ≡ true
    → has n names ≡ true
unfolding has
all_in-has [] names n h k = cc k
all_in-has (m ∷ ns) names n h k = elim (Bool-cases (same_text m n)) [
  | inl e ↦ subst (λ j. has j names ≡ true) ((same_text_iff m n).0 e) (first (has m names) h)
  | inr e ↦ all_in-has ns names n (rest (has m names) h) (rw e at k)
]
  where
    first : (b : Bool) → (if b then all_in ns names else false) ≡ true → b ≡ true
    first true h = refl
    first false h = cc h

    rest : (b : Bool) → (if b then all_in ns names else false) ≡ true → all_in ns names ≡ true
    rest true h = h
    rest false h = cc h

all_in_of_has :
    (ns names : List Text)
    → ((n : Text) → has n ns ≡ true → has n names ≡ true)
    → all_in ns names ≡ true
unfolding has
all_in_of_has [] names h = refl
all_in_of_has (m ∷ ns) names h =
    rw (h m (rw (same_text_refl m) refl)) (all_in_of_has ns names λ n k. h n (ground (arith, k)))

-- Two lists with the same members are both among the names or neither is.
all_in_same :
    (ns ms names : List Text)
    → ((n : Text) → has n ns ≡ has n ms)
    → all_in ns names ≡ all_in ms names
all_in_same ns ms names h = elim (Bool-cases (all_in ns names)) [
  | inl e ↦ e ∙ sym (all_in_of_has ms names λ n k. all_in-has ns names n e (h n ∙ k))
  | inr e ↦ elim (Bool-cases (all_in ms names)) [
    | inl f ↦ cc (sym e ∙ all_in_of_has ns names (λ n k. all_in-has ms names n f (sym (h n) ∙ k)))
    | inr f ↦ e ∙ sym f
  ]
]

pub all_in-All :
    (links : List (Text × ℕ)) (names : List Text)
    → all_in (link_names links) names ≡ true
    → All (λ l. has l.0 names ≡ true) links
unfolding link_names
all_in-All [] names h = tt
all_in-All ((n, id) ∷ links) names h = go (has n names) h (all_in-All links names)
  where
    go :
        (b : Bool)
        → (if b then all_in (link_names links) names else false) ≡ true
        → (all_in (link_names links) names ≡ true → All (λ l. has l.0 names ≡ true) links)
        → (b ≡ true) × All (λ l. has l.0 names ≡ true) links
    go true h rest = (refl, rest h)
    go false h rest = cc h

-- What loading a configuration may give.
pub data LoadOutcome {Mark : Type 0} (calls : List (Text × Mark)) (names : List Text)
    : Loaded Mark → Type 0 where
  connected :
      (m : Manager) (links : List (Text × ℕ))
      → all_in (call_names calls) names ≡ true
      → link_names links ≡ call_names calls
      → All (λ l. lookup l.0 m.pending ≡ some l.1) links
      → LoadOutcome calls names (loaded m links)
  missing :
      (err : Mark) (errs : List Mark)
      → all_in (call_names calls) names ≡ false
      → LoadOutcome calls names (unresolved err errs)

module _ {Mark : Type 0} (calls : List (Text × Mark)) (names : List Text) where
  abbrev start : Gates Mark
  start = record { units = []; next = 0 }

  resolved-errors :
      is_nil (resolve names (load_links calls start).0.units new []).1
      ≡ all_in (call_names calls) names
  unfolding names_of has
  resolved-errors =
      resolve-errors names (load_links calls start).0.units new []
        (load_links-Connected calls 0).all_new
      ∙ all_in_same (names_of (load_links calls start).0.units) (call_names calls) names
          (λ n. has-load_links calls start n ∙ same (has n (call_names calls)))
    where
      same : (b : Bool) → (if b then true else false) ≡ b
      same true = refl
      same false = refl

  -- Loading a configuration with the units of these names succeeds exactly if each link of it refers
  -- to one of them, and otherwise gives at least one error. If it succeeds, the links are those of
  -- the configuration in their order, and each is connected to the gate that waits for the unit with
  -- its name.
  pub load-LoadOutcome : LoadOutcome calls names (load calls (some names))
  unfolding load
  load-LoadOutcome = go (resolve names (load_links calls start).0.units new []).1 resolved-errors
    where
      go :
          (errs : List Mark)
          → is_nil errs ≡ all_in (call_names calls) names
          → LoadOutcome calls names (
              loaded_or
                (resolve names (load_links calls start).0.units new []).0
                errs
                (load_links calls start).1)
      go [] e =
          connected (resolve names (load_links calls start).0.units new []).0
            (load_links calls start).1 (sym e) (link_names-load_links calls start)
            (pending-resolve names (load_links calls start).0.units new []
              (load_links calls start).1 (load_links-Connected calls 0).all_new
              (load_links-Connected calls 0).distinct (load_links-Connected calls 0).agents
              (all_in-All (load_links calls start).1 names
                (ap (λ ns. all_in ns names) (link_names-load_links calls start) ∙ sym e)))
      go (err ∷ errs) e = missing err errs (sym e)
