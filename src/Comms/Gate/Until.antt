-- ===== src/Comms/Gate/Until.antt =====
-- Running a gate in src/comms.rs until a future resolves.
use rtrtr.Base.{
  ℕ, zero, suc, ◌≡◌, refl, ap, ◌∙◌, Bool, true, false, List, [], ◌∷◌, Option, none, some, arith,
  length, ◌<◌, if◌then◌else◌,
}
use rtrtr.Comms.Gate.{
  Gate, GateStatus, GateCommand, Processing, pending, terminated, changed, never, same_status, gate_status, run_command, process_loop, process,
  process_until_loop, process_until,
}

never_none : {Output : Type 0} (end : Option Output) → never end ≡ true → none ≡ end
never_none none w = refl
never_none (some output) w = cc w

module _ {ℓ} {U : Type ℓ} {Time : Type 0} where
  -- The gate after all of the commands.
  abbrev pub run_commands : Gate U Time → List GateCommand → Gate U Time
  run_commands g [] = g
  run_commands g (c ∷ cs) = run_commands (run_command g c) cs

  -- How `process_until` ends.
  abbrev ended :
      {Output : Type 0} → Option Output → Gate U Time → Option (Gate U Time × Option Output)
  ended end g = some (g, end)

  -- What `process` gives: it waits or is terminated once all commands are handled, or leaves those
  -- behind a change of the status.
  data Processed (closed : Bool) (g : Gate U Time) (cs : List GateCommand)
      : Gate U Time × List GateCommand × Processing → Type ℓ where
    waits :
        (g' : Gate U Time)
        → closed ≡ false
        → g' ≡ run_commands g cs
        → Processed closed g cs (g', [], pending)
    terminates :
        (g' : Gate U Time)
        → closed ≡ true
        → g' ≡ run_commands g cs
        → Processed closed g cs (g', [], terminated)
    changes :
        (g' : Gate U Time) (left : List GateCommand) (status : GateStatus)
        → length left < length cs
        → run_commands g' left ≡ run_commands g cs
        → Processed closed g cs (g', left, changed status)

  process_loop-Processed :
      (closed : Bool) (status : GateStatus) (g : Gate U Time) (cs : List GateCommand)
      → Processed closed g cs (process_loop closed status g cs)
  unfolding process_loop
  process_loop-Processed false status g [] = waits g refl refl
  process_loop-Processed true status g [] = terminates g refl refl
  process_loop-Processed closed status g (c ∷ cs) =
      go (same_status (gate_status (run_command g c)) status)
        (later (process_loop-Processed closed status (run_command g c) cs))
    where
      later :
          {r : Gate U Time × List GateCommand × Processing}
          → Processed closed (run_command g c) cs r
          → Processed closed g (c ∷ cs) r
      later (waits g' w e) = waits g' w e
      later (terminates g' w e) = terminates g' w e
      later (changes g' left new lt e) = changes g' left new (omega (arith, lt)) e

      go :
          (b : Bool)
          → Processed closed g (c ∷ cs) (process_loop closed status (run_command g c) cs)
          → Processed closed g (c ∷ cs) (
              if b
              then process_loop closed status (run_command g c) cs
              else (run_command g c, cs, changed (gate_status (run_command g c))))
      go true r = r
      go false r = changes (run_command g c) cs (gate_status (run_command g c)) (omega arith) refl

  process_until_loop-run_commands :
      {Output : Type 0} (fuel : ℕ) (g : Gate U Time) (cs : List GateCommand) (end : Option Output)
      → length cs < fuel
      → process_until_loop fuel g cs end ≡ some (run_commands g cs, end)
  unfolding process_until_loop process
  process_until_loop-run_commands zero g cs end h = absurd (omega (arith, h))
  process_until_loop-run_commands {Output = Output} (suc fuel) g cs end h =
      go (λ g' left lt. process_until_loop-run_commands fuel g' left end lt)
        (process_loop (never end) (gate_status g) g cs)
        (process_loop-Processed (never end) (gate_status g) g cs)
    where
      go :
          ((g' : Gate U Time) (left : List GateCommand)
            → length left < fuel
            → process_until_loop fuel g' left end ≡ some (run_commands g' left, end))
          → (r : Gate U Time × List GateCommand × Processing) → Processed (never end) g cs r
          → ◌≡◌ {A = Option (Gate U Time × Option Output)}
              (elim r.2 [
                | pending ↦ some (r.0, end)
                | terminated ↦ some (r.0, none)
                | changed status ↦ process_until_loop fuel r.0 r.1 end
              ])
              (some (run_commands g cs, end))
      go again _ (waits g' w e) = ap (ended end) e
      go again _ (terminates g' w e) = ap (ended none) e ∙ ap (λ o. ended o (run_commands g cs)) (never_none end w)
      go again _ (changes g' left status lt e) =
          again g' left (omega (arith, lt, h)) ∙ ap (ended end) e

  -- Running a gate until a future resolves handles every command that comes in before, whether the
  -- status of the gate changes or not, and gives the output of the future; if all links and agents
  -- are gone first, it is terminated.
  pub process_until-run_commands :
      {Output : Type 0} (g : Gate U Time) (cs : List GateCommand) (end : Option Output)
      → process_until g cs end ≡ some (run_commands g cs, end)
  unfolding process_until
  process_until-run_commands g cs end =
      process_until_loop-run_commands (suc (length cs)) g cs end (omega arith)
