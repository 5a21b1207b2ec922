-- ===== src/Z80/Valid/Runtime.antt =====
-- Loading, stepping and running keep the ranges.
use debug.Base.{ℕ, zero, suc, ◌+◌, ◌<◌, ◌==◌, ◌||◌, ◌&&◌, arith, Bool, true, false}
use debug.Base.{Option, none, some, List, leb, word, if◌then◌else◌}
use debug.Z80.State.{init}
use debug.Z80.Hardware.{Machine, IoHandlers, Range, Interrupt, mem_read, on_cpu}
use debug.Z80.Runtime.{
  HexProgram, RunResult, entry_point, create_z80_runtime, reset_runtime, io_tick, or_else,
  take_interrupt, execute_and_tick, set_halted, step_loop, step_runtime,
  max_block_repeat_iterations, is_block_repeat_instruction, stopped,
}
use debug.Z80.Valid.{IsValidCpu, IsValid, Keeps}
use debug.Z80.Valid.Processor.{reset-IsValidCpu, execute-IsValid, interrupt-IsValid}

-- A program image holds bytes and starts in the address space.
pub record IsImage (program : HexProgram) : Type 0 where
  pub bytes : (addr : ℕ) → program.image addr < 256
  pub start : program.start_address < 0x10000

entry_point-lt :
    (program : HexProgram) (entry : Option ℕ)
    → IsImage program
    → entry_point program entry < 0x10000
unfolding entry_point
entry_point-lt program none h = h.start
entry_point-lt program (some entry) h = ground (arith, h.start)

init-IsValidCpu : IsValidCpu init
unfolding init
init-IsValidCpu = omega arith

-- A runtime made from an image of bytes that starts in the address space has its state in range,
-- whatever the entry, the platform and the ROM ranges.
pub create_z80_runtime-IsValid :
    (program : HexProgram) (entry : Option ℕ) (io : IoHandlers) (rom_ranges : List Range)
    → IsImage program
    → IsValid (create_z80_runtime program entry io rom_ranges)
unfolding create_z80_runtime
create_z80_runtime-IsValid program entry io rom_ranges h = record {
  cpu = omega (arith, entry_point-lt program entry h, init-IsValidCpu);
  memory = h.bytes;
}

-- From a state in range, a reset that loads an image of bytes that starts in the address space
-- leaves the state in range.
pub reset_runtime-IsValid :
    (program : HexProgram) (entry : Option ℕ) (m : Machine)
    → IsImage program
    → IsValid m
    → IsValid (reset_runtime (some (program, entry)) m)
unfolding reset_runtime
reset_runtime-IsValid program entry m h v =
    let fresh = reset-IsValidCpu m.cpu v.cpu in
    record { cpu = omega (arith, entry_point-lt program entry h, fresh); memory = h.bytes }

take_interrupt-Keeps : (irq : Option Interrupt) → Keeps (take_interrupt irq)
unfolding take_interrupt
take_interrupt-Keeps none m v = v
take_interrupt-Keeps (some irq) m v =
    interrupt-IsValid (or_else irq.non_maskable false) (or_else irq.bus 0) m v

pub execute_and_tick-IsValid : (m : Machine) → IsValid m → IsValid (execute_and_tick m).2
unfolding execute_and_tick io_tick
execute_and_tick-IsValid m v =
    let v' = execute-IsValid m v in
    take_interrupt-Keeps _ _ (record { cpu = v'.cpu; memory = v'.memory })

set_halted-IsValid : (m : Machine) → IsValid m → IsValid (on_cpu set_halted m)
set_halted-IsValid m v = record { cpu = omega (arith, v.cpu); memory = v.memory }

-- The machine that a test chooses out of two results.
if-IsValid_result :
    (test : Bool) (p q : RunResult × Machine)
    → IsValid p.1
    → IsValid q.1
    → IsValid (if test then p else q).1
if-IsValid_result true p q v v' = v
if-IsValid_result false p q v v' = v'

step_loop-IsValid :
    (left start total : ℕ) (m : Machine) → IsValid m → IsValid (step_loop left start total m).1
unfolding step_loop
step_loop-IsValid zero start total m v = v
step_loop-IsValid (suc left) start total m v =
    let v' = execute_and_tick-IsValid m v in
    let cycles = (execute_and_tick m).0 in
    let m' = (execute_and_tick m).2 in
    if-IsValid_result (execute_and_tick m).1 _ _ v' (
      if-IsValid_result (leb 0x10000 m'.cpu.pc || m'.cpu.halted) _ _ (set_halted-IsValid m' v') (
        if-IsValid_result
          (word m'.cpu.pc == start && is_block_repeat_instruction start (mem_read m')) _ _
          (step_loop-IsValid left start (total + cycles) m' v') v'))

-- A step of the debugger from a state in range, with its block repeats, ticks and interrupts, ends
-- in range.
pub step_runtime-IsValid : (m : Machine) → IsValid m → IsValid (step_runtime m).1
unfolding step_runtime
step_runtime-IsValid m v =
    if-IsValid_result m.cpu.halted (stopped true _ _ m)
      (step_loop max_block_repeat_iterations (word m.cpu.pc) 0 m) v
      (step_loop-IsValid max_block_repeat_iterations (word m.cpu.pc) 0 m v)
