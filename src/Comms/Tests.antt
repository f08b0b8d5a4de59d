-- ===== src/Comms/Tests.antt =====
-- Runs of src/comms.rs.
use rtrtr.Base.{ℕ, ◌≡◌, ◌⊎◌, List, [], ◌∷◌, Option, Bool, true, false, some, ◌==◌}
use rtrtr.Comms.Status.{UnitHealth, UnitStatus, UnitUpdate, apply, to_update, from_update}
use rtrtr.Comms.Status.Laws.{apply-to_update}
use rtrtr.Comms.Gate.{
  Gate, GateCommand, new, subscribe, suspension, subscribe_slot, update, process_until,
}
use rtrtr.Comms.Gate.Until.{run_commands, process_until-run_commands}
use rtrtr.Comms.Gate.Sync.{Synced, Step, Steps, Steps-Synced}

abbrev same : ℕ → ℕ → Bool
same a b = a == b

abbrev status : UnitStatus ℕ
status = record { health = UnitHealth.stalled; payload = some 5 }

apply-to_update_example :
    ((apply same status (UnitUpdate.payload 5)).0.health
      ≡ from_update {U = ℕ} (UnitUpdate.payload 5))
    × (((apply same status (UnitUpdate.payload 5)).1 ≡ true
          × to_update (apply same status (UnitUpdate.payload 5)).0 ≡ some (UnitUpdate.payload 5))
        ⊎ ((apply same status (UnitUpdate.payload 5)).1 ≡ false
            × (apply same status (UnitUpdate.payload 5)).0 ≡ status))
apply-to_update_example = apply-to_update same status (UnitUpdate.payload 5)

-- A gate with one link in its slot 0.
abbrev gate : Gate ℕ ℕ
gate = new

abbrev updated_gate : Gate ℕ ℕ
updated_gate = (update same (λ n. n) (subscribe_slot gate 0 false true) (UnitUpdate.payload 5) 1).0

Steps-Synced_example : Synced same (λ n. n) 0 updated_gate gate.unit_status
Steps-Synced_example =
    Steps-Synced same (λ n. n) 0 gate updated_gate gate.unit_status
      (Steps.more Steps.stop (Step.updated (UnitUpdate.payload 5) 1))

-- The second command is dropped again, and the first and the last one change the status.
abbrev commands : List GateCommand
commands = subscribe 0 false true ∷ subscribe 1 false false ∷ suspension 0 true ∷ []

abbrev output : Option ℕ
output = some 7

process_until-run_commands_example :
    process_until gate commands output ≡ some (run_commands gate commands, output)
process_until-run_commands_example = process_until-run_commands gate commands output
