-- ===== src/Manager/Tests.antt =====
-- Runs of src/manager.rs.
use rtrtr.Base.{ℕ, ◌≡◌, refl, List, [], ◌∷◌, some, All}
use rtrtr.Text.{Text, codes, same_text}
use rtrtr.Manager.{
  lookup, insert, has, Manager, loaded, unresolved, load, load_links, load_link, enter, resolve,
  spawn, add_components, known_units,
}
use rtrtr.Manager.Loading.{call_names}
use rtrtr.Manager.Resolving.{LoadOutcome, link_names, load-LoadOutcome}
use rtrtr.Manager.Spawning.{spawn-load}

-- Two links to one unit, and one to another; a third unit has no link. The marks are line numbers.
abbrev calls : List (Text × ℕ)
calls = (codes "a", 10) ∷ (codes "b", 11) ∷ (codes "a", 12) ∷ []

abbrev names : List Text
names = codes "b" ∷ codes "a" ∷ codes "c" ∷ []

load-LoadOutcome_example : LoadOutcome calls names (load calls (some names))
load-LoadOutcome_example = load-LoadOutcome calls names

spawn-load_example :
    (m : Manager) × (links : List (Text × ℕ)) × (load calls (some names) ≡ loaded m links)
    × (link_names links ≡ call_names calls)
    × All (λ l. lookup l.0 (spawn m names []).0 ≡ some l.1) links
unfolding has same_text call_names
spawn-load_example = spawn-load calls names [] (refl, (refl, (refl, tt))) refl

missing_unit : load calls (some (codes "a" ∷ [])) ≡ unresolved 11 []
unfolding load load_links load_link enter resolve has same_text insert lookup
missing_unit = refl

-- The manager keeps what was resolved although the links are not all resolved.
changed_on_error :
    add_components (record { units = []; pending = [] }) 5 calls (codes "a" ∷ [])
    ≡ (record { units = (codes "a", 5) ∷ []; pending = (codes "a", 5) ∷ [] }, unresolved 11 [])
unfolding add_components known_units load_links load_link enter resolve has same_text insert lookup
changed_on_error = refl
