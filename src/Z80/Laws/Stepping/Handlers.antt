-- ===== src/Z80/Laws/Stepping/Handlers.antt =====
-- The handlers of calls, returns and restarts keep the promise, and so do their opcodes.
use debug.Base.{
  refl, ◌∙◌, ◌*◌, ◌/◌, ◌%◌, ℕ, ◌+◌, ◌≡◌, ◌==◌, ap, subst, arith, Bool, true, false, not, word, some,
  none, All, ◌◂◌,
}
use debug.Z80.State.{Cpu, Flags}
use debug.Z80.Hardware.{Machine, Handler, mem_read, mem_write, on_cpu}
use debug.Z80.Stack.{push_word, push_byte, pop_word}
use debug.Z80.Jump.{
  call, return, add_cycles, do_conditional_call, do_conditional_return, do_reset, jump,
  operand_word,
}
use debug.Z80.Constants.{cycle_counts}
use debug.Z80.Decode.Operands.{inc_r}
use debug.Z80.Decode.Primary.{instructions, primary_operation, execute_primary_opcode}
use debug.Z80.Decode.Primary.High.{call_if, ret_if}
use debug.Z80.Processor.{take_delayed, finish_delayed}
use debug.Z80.StepOver.{ControlFlowKind, call_cases, ret_cases, rst_opcodes}
use debug.Z80.Laws.Opcodes.{run}
use debug.Z80.Laws.Stepping.Promise.{Pushes, Pops, Calls, Restarts, Follows}

-- The opcode's own cycles are added after its handler.
abbrev pub counted : ℕ → Handler → Handler
counted cycles handler m = on_cpu (add_cycles cycles) (handler m)

abbrev pub started : Cpu → Cpu
started cpu = inc_r (take_delayed cpu)

conditional_call :
    (cycles : ℕ) (condition : Bool) (m : Machine)
    → Follows ControlFlowKind.call condition
        (some (word (m.cpu.pc + 3)))
        m
        (run (counted cycles (do_conditional_call condition)) m)
unfolding run do_conditional_call call jump operand_word mem_read take_delayed finish_delayed inc_r
    push_word push_byte mem_write
conditional_call cycles true m = ground arith
conditional_call cycles false m = ground arith

pub taken_call :
    (cycles : ℕ) (m : Machine) → Calls (word (m.cpu.pc + 3)) m (run (counted cycles call) m)
unfolding run call jump operand_word mem_read take_delayed finish_delayed inc_r push_word push_byte
    mem_write
taken_call cycles m = ground arith

pub taken_return : (cycles : ℕ) (m : Machine) → Pops m (run (counted cycles return) m)
unfolding run return take_delayed finish_delayed inc_r pop_word mem_read
taken_return cycles m = ground arith

conditional_return :
    (cycles : ℕ) (condition : Bool) (m : Machine)
    → Follows ControlFlowKind.ret condition none m
        (run (counted cycles (do_conditional_return condition)) m)
unfolding run do_conditional_return return take_delayed finish_delayed inc_r pop_word mem_read
conditional_return cycles true m = ground arith
conditional_return cycles false m = ground arith

restart :
    (cycles address : ℕ) (m : Machine)
    → let m' = run (counted cycles (do_reset address)) m in
      Pushes (word (m.cpu.pc + 1)) m m' × (m'.cpu.pc ≡ word address)
unfolding run do_reset take_delayed finish_delayed inc_r push_word push_byte mem_write
restart cycles address m = ground arith

as_restart :
    (opcode address : ℕ) (m m' : Machine)
    → Pushes (word (m.cpu.pc + 1)) m m' × (m'.cpu.pc ≡ word address)
    → word address ≡ opcode / 8 % 8 * 8
    → Restarts (word (m.cpu.pc + 1)) opcode m m'
as_restart opcode address m m' (pushes, pc) e = record { pushes = pushes; pc = pc ∙ e }

-- The conditions look at the flags alone, which the start of an instruction leaves.
flags-started : (cpu : Cpu) → (started cpu).flags ≡ cpu.flags
unfolding inc_r take_delayed
flags-started cpu = ground arith

call-Follows :
    (cycles : ℕ) (condition : Flags → Bool) (m : Machine)
    → Follows ControlFlowKind.call
        (condition m.cpu.flags)
        (some (word (m.cpu.pc + 3)))
        m
        (run (counted cycles (call_if (λ cpu. condition cpu.flags))) m)
unfolding run
call-Follows cycles condition m =
    subst
      (λ taken.
        Follows ControlFlowKind.call taken (some (word (m.cpu.pc + 3))) m
          (run (counted cycles (call_if (λ cpu. condition cpu.flags))) m))
      (ap condition (flags-started m.cpu))
      (conditional_call cycles (condition (started m.cpu).flags) m)

return-Follows :
    (cycles : ℕ) (condition : Flags → Bool) (m : Machine)
    → Follows ControlFlowKind.ret
        (condition m.cpu.flags)
        none
        m
        (run (counted cycles (ret_if (λ cpu. condition cpu.flags))) m)
unfolding run
return-Follows cycles condition m =
    subst
      (λ taken.
        Follows ControlFlowKind.ret taken none m
          (run (counted cycles (ret_if (λ cpu. condition cpu.flags))) m))
      (ap condition (flags-started m.cpu))
      (conditional_return cycles (condition (started m.cpu).flags) m)

module _ (m : Machine) where
  abbrev pub CallAs : ℕ → Bool → Type 0
  CallAs opcode taken =
      Follows ControlFlowKind.call taken (some (word (m.cpu.pc + 3))) m
        (run (execute_primary_opcode opcode) m)

  abbrev pub ReturnAs : ℕ → Bool → Type 0
  ReturnAs opcode taken =
      Follows ControlFlowKind.ret taken none m (run (execute_primary_opcode opcode) m)

  pub calls_follow : All (λ c. CallAs c.0 c.1) (call_cases m.cpu)
  unfolding execute_primary_opcode primary_operation instructions cycle_counts
  calls_follow =
      taken_call 17 m
      ◂ call-Follows 10 (λ f. f.z == 0) m
      ◂ call-Follows 10 (λ f. not (f.z == 0)) m
      ◂ call-Follows 10 (λ f. f.c == 0) m
      ◂ call-Follows 10 (λ f. not (f.c == 0)) m
      ◂ call-Follows 10 (λ f. f.p == 0) m
      ◂ call-Follows 10 (λ f. not (f.p == 0)) m
      ◂ call-Follows 10 (λ f. f.s == 0) m
      ◂ call-Follows 10 (λ f. not (f.s == 0)) m
      ◂ tt

  pub returns_follow : All (λ c. ReturnAs c.0 c.1) (ret_cases m.cpu)
  unfolding execute_primary_opcode primary_operation instructions cycle_counts
  returns_follow =
      taken_return 10 m
      ◂ return-Follows 5 (λ f. f.z == 0) m
      ◂ return-Follows 5 (λ f. not (f.z == 0)) m
      ◂ return-Follows 5 (λ f. f.c == 0) m
      ◂ return-Follows 5 (λ f. not (f.c == 0)) m
      ◂ return-Follows 5 (λ f. f.p == 0) m
      ◂ return-Follows 5 (λ f. not (f.p == 0)) m
      ◂ return-Follows 5 (λ f. f.s == 0) m
      ◂ return-Follows 5 (λ f. not (f.s == 0)) m
      ◂ tt

  abbrev pub RestartAs : ℕ → Type 0
  RestartAs opcode = Restarts (word (m.cpu.pc + 1)) opcode m (run (execute_primary_opcode opcode) m)

  pub restarts_follow : All RestartAs rst_opcodes
  unfolding execute_primary_opcode primary_operation instructions cycle_counts
  restarts_follow =
      as_restart 0xc7 0x00 m _ (restart 11 0x00 m) refl
      ◂ as_restart 0xcf 0x08 m _ (restart 11 0x08 m) refl
      ◂ as_restart 0xd7 0x10 m _ (restart 11 0x10 m) refl
      ◂ as_restart 0xdf 0x18 m _ (restart 11 0x18 m) refl
      ◂ as_restart 0xe7 0x20 m _ (restart 11 0x20 m) refl
      ◂ as_restart 0xef 0x28 m _ (restart 11 0x28 m) refl
      ◂ as_restart 0xf7 0x30 m _ (restart 11 0x30 m) refl
      ◂ as_restart 0xff 0x38 m _ (restart 11 0x38 m) refl
      ◂ tt
