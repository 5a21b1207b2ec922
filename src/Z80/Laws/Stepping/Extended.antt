-- ===== src/Z80/Laws/Stepping/Extended.antt =====
-- RETN and RETI under the ED prefix keep the promise.
use debug.Base.{ℕ, ◌+◌, ◌≡◌, ap, arith, word, get_or, All, ◌◂◌}
use debug.Z80.Hardware.{Machine, Handler, mem_read, on_cpu}
use debug.Z80.Stack.{pop_word}
use debug.Z80.Jump.{return, add_cycles}
use debug.Z80.Constants.{cycle_counts, cycle_counts_ed}
use debug.Z80.Decode.Operands.{inc_r, noop, fetch}
use debug.Z80.Decode.Ed.{retn, ed_instructions, ed_handler}
use debug.Z80.Decode.Primary.{instructions, primary_operation, execute_primary_opcode}
use debug.Z80.Processor.{take_delayed, finish_delayed}
use debug.Z80.StepOver.{ed_ret_opcodes}
use debug.Z80.Laws.Opcodes.{run}
use debug.Z80.Laws.Stepping.Promise.{Pops}
use debug.Z80.Laws.Stepping.Handlers.{started}

-- The second byte of an ED opcode, and its instruction.
pub ed_opcode_read :
    (m : Machine) → (fetch (on_cpu inc_r (on_cpu started m))).0 ≡ mem_read m (word (m.cpu.pc + 1))
unfolding fetch inc_r take_delayed mem_read
ed_opcode_read m = ground arith

abbrev pub ed_instruction : ℕ → Handler
ed_instruction opcode1 m = on_cpu (add_cycles 0) (
    on_cpu (add_cycles (get_or cycle_counts_ed opcode1 (get_or cycle_counts 0 0)))
      (get_or ed_instructions opcode1 noop (fetch (on_cpu inc_r m)).1))

pub run-ed_instruction :
    (m : Machine)
    → run (execute_primary_opcode 0xed) m
      ≡ run (ed_instruction (mem_read m (word (m.cpu.pc + 1)))) m
unfolding run execute_primary_opcode primary_operation instructions cycle_counts ed_handler
run-ed_instruction m = ap (λ code. run (ed_instruction code) m) (ed_opcode_read m)

ed_return :
    (cycles : ℕ) (m : Machine)
    → Pops m (
        run
          (λ m'.
            on_cpu (add_cycles 0) (on_cpu (add_cycles cycles) (return (fetch (on_cpu inc_r m')).1)))
          m)
unfolding run fetch return take_delayed finish_delayed inc_r pop_word mem_read
ed_return cycles m = ground arith

ed_retn :
    (cycles : ℕ) (m : Machine)
    → Pops m (
        run
          (λ m'.
            on_cpu (add_cycles 0) (on_cpu (add_cycles cycles) (retn (fetch (on_cpu inc_r m')).1)))
          m)
unfolding run fetch retn return take_delayed finish_delayed inc_r pop_word mem_read
ed_retn cycles m = ground arith

pub ed_returns_follow :
    (m : Machine) → All (λ opcode1. Pops m (run (ed_instruction opcode1) m)) ed_ret_opcodes
unfolding ed_instructions cycle_counts_ed
ed_returns_follow m =
    ed_retn 14 m
    ◂ ed_retn 14 m
    ◂ ed_retn 14 m
    ◂ ed_retn 14 m
    ◂ ed_retn 14 m
    ◂ ed_retn 14 m
    ◂ ed_retn 14 m
    ◂ ed_return 14 m
    ◂ tt
