-- ===== src/Manager.antt =====
-- src/manager.rs: how the manager connects units, links and gates by their names. A gate and the
-- agents and links of it are one number, that of the channel between them. A hash map is a list of
-- its entries; in which order it is gone through is unspecified. The configuration is what reading
-- it does: the links that it loads, in order, and then the names of its units and targets, or an
-- error.
pub mod Loading
pub mod Pending
pub mod Resolving
pub mod Spawning
mod Tests
use rtrtr.Base.{ℕ, suc, Bool, true, false, List, [], ◌∷◌, ◌++◌, Option, none, some, if◌then◌else◌}
use rtrtr.Text.{Text, same_text}

-- Maps by name.
module _ {ℓ} {V : Type ℓ} where
  unfoldable pub lookup : Text → List (Text × V) → Option V
  lookup name [] = none
  lookup name ((n, v) ∷ rest) = if same_text n name then some v else lookup name rest

  unfoldable pub insert : Text → V → List (Text × V) → List (Text × V)
  insert name v [] = (name, v) ∷ []
  insert name v ((n, w) ∷ rest) =
      if same_text n name then (n, v) ∷ rest else (n, w) ∷ insert name v rest

  unfoldable pub remove : Text → List (Text × V) → List (Text × V)
  remove name [] = []
  remove name ((n, w) ∷ rest) = if same_text n name then rest else (n, w) ∷ remove name rest

-- `contains_key`
unfoldable pub has : Text → List Text → Bool
has name [] = false
has name (n ∷ names) = if same_text n name then true else has name names

pub record LoadUnit (Mark : Type 0) : Type 0 where
  pub gate : Option ℕ
  pub agent : ℕ
  pub links : List Mark

-- The thread-local map, and the number of the next channel.
pub record Gates (Mark : Type 0) : Type 0 where
  pub units : List (Text × LoadUnit Mark)
  pub next : ℕ

pub record Manager : Type 0 where
  pub units : List (Text × ℕ)
  pub pending : List (Text × ℕ)

-- What loading gives: the manager and the links of the configuration, or the errors.
pub data Loaded (Mark : Type 0) : Type 0 where
  loaded : Manager → List (Text × ℕ) → Loaded Mark
  config_error : Loaded Mark
  unresolved : Mark → List Mark → Loaded Mark

-- `Manager::new`
abbrev pub new : Manager
new = record { units = []; pending = [] }

module _ {Mark : Type 0} where
  -- `LoadUnit::default`, with a new gate.
  abbrev pub default : ℕ → LoadUnit Mark
  default channel = record { gate = some channel; agent = channel; links = [] }

  -- `From<GateAgent> for LoadUnit`
  abbrev pub from_agent : ℕ → LoadUnit Mark
  from_agent agent = record { gate = none; agent = agent; links = [] }

  abbrev pub push_link : Mark → LoadUnit Mark → LoadUnit Mark
  push_link mark unit = record unit { links = unit.links ++ mark ∷ [] }

  -- `gates.entry(name).or_default()` with the link pushed: the entries, the agent, and the number of
  -- the next channel.
  unfoldable pub enter :
      Text → Mark → ℕ → List (Text × LoadUnit Mark) → List (Text × LoadUnit Mark) × ℕ × ℕ
  enter name mark next [] = ((name, push_link mark (default next)) ∷ [], next, suc next)
  enter name mark next ((n, unit) ∷ rest) =
      let (rest', agent, next') = enter name mark next rest in
      if same_text n name
      then ((n, push_link mark unit) ∷ rest, unit.agent, next)
      else ((n, unit) ∷ rest', agent, next')

  -- `load_link`: the link is the channel of the agent.
  unfoldable pub load_link : Text → Mark → Gates Mark → Gates Mark × ℕ
  load_link name mark gates =
      let (units, agent, next) = enter name mark gates.next gates.units in
      (record { units = units; next = next }, agent)

  -- The links that are loaded one after the other, with their names.
  unfoldable pub load_links : List (Text × Mark) → Gates Mark → Gates Mark × List (Text × ℕ)
  load_links [] gates = (gates, [])
  load_links ((name, mark) ∷ calls) gates =
      let (gates', link) = load_link name mark gates in
      let (gates'', links) = load_links calls gates' in (gates'', (name, link) ∷ links)

  -- The loop over the entries: the units that links refer to are new, or unresolved.
  unfoldable pub resolve :
      List Text → List (Text × LoadUnit Mark) → Manager → List Mark → Manager × List Mark
  resolve names [] manager errs = (manager, errs)
  resolve names ((name, load) ∷ rest) manager errs = elim load.gate [
    | none ↦ resolve names rest manager errs
    | some gate ↦ elim (has name names) [
      | false ↦ resolve names rest manager (errs ++ load.links)
      | true ↦
          resolve names rest
            (record {
              units = insert name load.agent manager.units;
              pending = insert name gate manager.pending;
            })
            errs
    ]
  ]

  abbrev pub loaded_or : Manager → List Mark → List (Text × ℕ) → Loaded Mark
  loaded_or manager [] links = loaded manager links
  loaded_or manager (err ∷ errs) links = unresolved err errs

  -- `Manager::load`: the names of the units, or the error of the configuration, come after the links
  -- that it loads.
  unfoldable pub load : List (Text × Mark) → Option (List Text) → Loaded Mark
  load calls config = elim config [
    | none ↦ config_error
    | some names ↦
        let (gates, links) = load_links calls (record { units = []; next = 0 }) in
        let (manager, errs) = resolve names gates.units new [] in loaded_or manager errs links
  ]

  -- The entries with which `add_components` starts.
  unfoldable pub known_units : List (Text × ℕ) → List (Text × LoadUnit Mark)
  known_units [] = []
  known_units ((name, agent) ∷ rest) = (name, from_agent agent) ∷ known_units rest

  -- `Manager::add_components` up to `spawn`: the links that the closure creates, and the names of its
  -- units. `next` is the number of the next channel. The manager is changed also where links are
  -- unresolved.
  unfoldable pub add_components :
      Manager → ℕ → List (Text × Mark) → List Text → Manager × Loaded Mark
  add_components manager next calls names =
      let (gates, links) =
        load_links calls (record { units = known_units manager.units; next = next }) in
      let (manager', errs) = resolve names gates.units manager [] in
      (manager', loaded_or manager' errs links)

-- `Manager::spawn` over the units: those that are started with their gates, and the gates left.
unfoldable pub spawn_units : List Text → List (Text × ℕ) → List (Text × ℕ) × List (Text × ℕ)
spawn_units [] pending = ([], pending)
spawn_units (name ∷ names) pending = elim (lookup name pending) [
  | none ↦ spawn_units names pending
  | some gate ↦
      let (started, left) = spawn_units names (remove name pending) in
      ((name, gate) ∷ started, left)
]

-- `Manager::spawn`: the units started, all targets, and the manager after it.
unfoldable pub spawn : Manager → List Text → List Text → List (Text × ℕ) × List Text × Manager
spawn manager units targets =
    let (started, left) = spawn_units units manager.pending in
    (started, targets, record manager { pending = left })
