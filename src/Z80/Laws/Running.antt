-- ===== src/Z80/Laws/Running.antt =====
-- `runUntilStop` against the sequence of machines that single steps lead through.
use debug.Base.{ℕ, zero, suc, ◌≤◌, ◌≡◌, Bool, true, not, ◌&&◌, ◌||◌, none, some, if◌then◌else◌}
use debug.Z80.Hardware.{Machine}
use debug.Z80.Runtime.{RunResult, halt, breakpoint, step_runtime, run_until_stop}

-- The machine after a number of steps.
unfoldable pub after : ℕ → Machine → Machine
after zero m = m
after (suc n) m = after n (step_runtime m).1

-- Where a run has to stop.
unfoldable pub at_stop : (ℕ → Bool) → Machine → Bool
at_stop breakpoints m = m.cpu.halted || breakpoints m.cpu.pc

-- The first machines of the sequence are no stops.
unfoldable pub none_before : ℕ → (ℕ → Bool) → Machine → Bool
unfolding at_stop
none_before zero breakpoints m = true
none_before (suc n) breakpoints m =
    not (at_stop breakpoints m) && none_before n breakpoints (step_runtime m).1

-- The result says where the machine stands, and why: a halted processor counts before a
-- breakpoint. Cycles are not reported.
pub record Reports (breakpoints : ℕ → Bool) (result : RunResult) (m : Machine) : Type 0 where
  pub pc : result.pc ≡ m.cpu.pc
  pub halted : result.halted ≡ m.cpu.halted
  pub reason : result.reason ≡ (if m.cpu.halted then halt else breakpoint)
  pub cycles : result.cycles ≡ none
  pub stop : at_stop breakpoints m ≡ true

-- A step that reports a halt leaves the processor halted.
abbrev HaltsTruly : RunResult × Machine → Type 0
HaltsTruly run = (run.0.halted ≡ true → run.1.cpu.halted ≡ true)

-- What a run of a given fuel comes to: it stops after some of the steps, at the first stop, and
-- reports it.
abbrev pub StopsWithin : ℕ → (ℕ → Bool) → Machine → Type 0
StopsWithin n breakpoints m =
    (k : ℕ) × (result : RunResult) × (run_until_stop (suc n) breakpoints m
      ≡ some (result, after k m))
    × (k ≤ n)
    × (none_before k breakpoints m ≡ true)
    × Reports breakpoints result (after k m)
