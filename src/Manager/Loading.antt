-- ===== src/Manager/Loading.antt =====
-- What src/manager.rs knows of the units once the links of a configuration are loaded.
use rtrtr.Base.{
  ℕ, ◌≡◌, refl, Bool, true, false, List, [], ◌∷◌, Option, none, some, arith, All, if◌then◌else◌,
  length, ◌<◌, length-append,
}
use rtrtr.Text.{Text, same_text}
use rtrtr.Text.Trim.{same_text_iff, same_text_refl}
use rtrtr.Manager.{has, LoadUnit, Gates, default, push_link, enter, load_link, load_links}

-- The entry of a unit that is not started yet: its agent is one of its gate, and a link refers to it.
pub record IsNew {Mark : Type 0} (u : LoadUnit Mark) : Type 0 where
  pub own_gate : u.gate ≡ some u.agent
  pub linked : 0 < length u.links

module _ {Mark : Type 0} where
  -- The agent under a name.
  unfoldable pub agent_of : Text → List (Text × LoadUnit Mark) → Option ℕ
  agent_of name [] = none
  agent_of name ((n, u) ∷ rest) = if same_text n name then some u.agent else agent_of name rest

  unfoldable pub names_of : List (Text × LoadUnit Mark) → List Text
  names_of [] = []
  names_of ((n, u) ∷ rest) = n ∷ names_of rest

  abbrev pub AllNew : List (Text × LoadUnit Mark) → Type 0
  AllNew es = All (λ e. IsNew e.1) es

  -- No name has two entries.
  abbrev pub Distinct : List (Text × LoadUnit Mark) → Type 0
  Distinct [] = Unit
  Distinct ((n, u) ∷ rest) = (has n (names_of rest) ≡ false) × Distinct rest

  push_link-IsNew :
      (mark : Mark) (u : LoadUnit Mark) → u.gate ≡ some u.agent → IsNew (push_link mark u)
  push_link-IsNew mark u e = record {
    own_gate = e;
    linked = omega (arith, length-append u.links (mark ∷ []));
  }

module _ {Mark : Type 0} (name : Text) (mark : Mark) (next : ℕ) where
  enter-agent :
      (es : List (Text × LoadUnit Mark))
      → agent_of name (enter name mark next es).0 ≡ some (enter name mark next es).1
  unfolding enter agent_of
  enter-agent [] = rw (same_text_refl name) refl
  enter-agent ((n, u) ∷ rest) = ground (arith, enter-agent rest)

  enter-keeps :
      (es : List (Text × LoadUnit Mark)) (n : Text) (id : ℕ)
      → agent_of n es ≡ some id
      → agent_of n (enter name mark next es).0 ≡ some id
  unfolding enter agent_of
  enter-keeps [] n id e = cc e
  enter-keeps ((k, u) ∷ rest) n id e = ground (arith, e, enter-keeps rest n id)

  has-enter :
      (es : List (Text × LoadUnit Mark)) (n : Text)
      → has n (names_of (enter name mark next es).0)
        ≡ (if same_text name n then true else has n (names_of es))
  unfolding enter names_of has
  has-enter [] n = refl
  has-enter ((k, u) ∷ rest) n =
      ground
        (arith, has-enter rest n, same_text_iff k name, same_text_iff name n, same_text_iff k n)

  enter-AllNew : (es : List (Text × LoadUnit Mark)) → AllNew es → AllNew (enter name mark next es).0
  unfolding enter
  enter-AllNew [] h = (push_link-IsNew mark (default next) refl, tt)
  enter-AllNew ((k, u) ∷ rest) h = go (same_text k name) (enter-AllNew rest h.1)
    where
      go :
          (b : Bool)
          → AllNew (enter name mark next rest).0
          → AllNew
              (if◌then◌else◌ {A = List (Text × LoadUnit Mark) × ℕ × ℕ} b
                ((k, push_link mark u) ∷ rest, u.agent, next)
                (
                  (k, u) ∷ (enter name mark next rest).0,
                  (enter name mark next rest).1,
                  (enter name mark next rest).2,
                )).0
      go true r = (push_link-IsNew mark u h.0.own_gate, h.1)
      go false r = (h.0, r)

  enter-Distinct :
      (es : List (Text × LoadUnit Mark)) → Distinct es → Distinct (enter name mark next es).0
  unfolding enter names_of has
  enter-Distinct [] h = (refl, tt)
  enter-Distinct ((k, u) ∷ rest) h = ground (
    arith,
    h.0,
    h.1,
    enter-Distinct rest h.1,
    has-enter rest k,
    same_text_iff k name,
    same_text_iff name k,
  )

module _ {Mark : Type 0} where
  -- The gates once links were loaded, with their names and channels: every link belongs to the agent
  -- under its name, and the entries are those of the links.
  pub record Connected (es : List (Text × LoadUnit Mark)) (links : List (Text × ℕ)) : Type 0 where
    pub agents : All (λ l. agent_of l.0 es ≡ some l.1) links
    pub all_new : AllNew es
    pub distinct : Distinct es

  load_links-keeps :
      (calls : List (Text × Mark)) (gates : Gates Mark) (n : Text) (id : ℕ)
      → agent_of n gates.units ≡ some id
      → agent_of n (load_links calls gates).0.units ≡ some id
  unfolding load_links load_link
  load_links-keeps [] gates n id e = e
  load_links-keeps ((name, mark) ∷ calls) gates n id e =
      load_links-keeps calls (load_link name mark gates).0 n id
        (enter-keeps name mark gates.next gates.units n id e)

  load_links-AllNew :
      (calls : List (Text × Mark)) (gates : Gates Mark)
      → AllNew gates.units
      → AllNew (load_links calls gates).0.units
  unfolding load_links load_link
  load_links-AllNew [] gates h = h
  load_links-AllNew ((name, mark) ∷ calls) gates h =
      load_links-AllNew calls (load_link name mark gates).0
        (enter-AllNew name mark gates.next gates.units h)

  load_links-Distinct :
      (calls : List (Text × Mark)) (gates : Gates Mark)
      → Distinct gates.units
      → Distinct (load_links calls gates).0.units
  unfolding load_links load_link
  load_links-Distinct [] gates h = h
  load_links-Distinct ((name, mark) ∷ calls) gates h =
      load_links-Distinct calls (load_link name mark gates).0
        (enter-Distinct name mark gates.next gates.units h)

  load_links-agents :
      (calls : List (Text × Mark)) (gates : Gates Mark)
      → All
          (λ l. agent_of l.0 (load_links calls gates).0.units ≡ some l.1)
          (load_links calls gates).1
  unfolding load_links load_link
  load_links-agents [] gates = tt
  load_links-agents ((name, mark) ∷ calls) gates = (
    load_links-keeps calls (load_link name mark gates).0 name (load_link name mark gates).1
        (enter-agent name mark gates.next gates.units),
    load_links-agents calls (load_link name mark gates).0,
  )

  unfoldable pub call_names : List (Text × Mark) → List Text
  call_names [] = []
  call_names ((name, mark) ∷ calls) = name ∷ call_names calls

  pub has-load_links :
      (calls : List (Text × Mark)) (gates : Gates Mark) (n : Text)
      → has n (names_of (load_links calls gates).0.units)
        ≡ (if has n (call_names calls) then true else has n (names_of gates.units))
  unfolding load_links load_link has call_names
  has-load_links [] gates n = refl
  has-load_links ((name, mark) ∷ calls) gates n = ground (
    arith,
    has-load_links calls (load_link name mark gates).0 n,
    has-enter name mark gates.next gates.units n,
  )

  pub load_links-Connected :
      (calls : List (Text × Mark)) (next : ℕ)
      → Connected
          (load_links calls (record { units = []; next = next })).0.units
          (load_links calls (record { units = []; next = next })).1
  load_links-Connected calls next = record {
    agents = load_links-agents calls (record { units = []; next = next });
    all_new = load_links-AllNew calls (record { units = []; next = next }) tt;
    distinct = load_links-Distinct calls (record { units = []; next = next }) tt;
  }
