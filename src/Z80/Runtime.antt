-- ===== src/Z80/Runtime.antt =====
-- runtime.ts: loading a program, stepping and running, and the snapshot of the registers.
use debug.Base.{ℕ, zero, suc, ◌+◌, ◌==◌, ◌&&◌, ◌||◌, Bool, true, false, leb, ltb}
use debug.Base.{Option, none, some, List, [], byte, word, if◌then◌else◌}
use debug.Z80.State.{Cpu, init}
use debug.Z80.Hardware.{
  Machine, Handler, IoHandlers, IoEvent, Range, Interrupt, TickResult, mem_read, record_event,
  on_cpu,
}
use debug.Z80.Processor.{reset, execute, interrupt}

-- loaders.ts: a program is a memory image and its lowest address.
pub record HexProgram : Type 0 where
  pub image : ℕ → ℕ
  pub start_address : ℕ

pub data Reason : Type 0 where
  halt breakpoint : Reason

pub record RunResult : Type 0 where
  pub halted : Bool
  pub pc : ℕ
  pub reason : Reason
  pub cycles : Option ℕ

-- An entry outside the address space is ignored.
unfoldable pub entry_point : HexProgram → Option ℕ → ℕ
entry_point program none = program.start_address
entry_point program (some entry) = if ltb entry 0x10000 then entry else program.start_address

unfoldable pub load_program : HexProgram → Option ℕ → Handler
unfolding entry_point
load_program program entry m = record {
  cpu = record (m.cpu) { pc = entry_point program entry; halted = false };
  hardware = record (m.hardware) { memory = program.image };
}

unfoldable pub create_z80_runtime : HexProgram → Option ℕ → IoHandlers → List Range → Machine
unfolding load_program init
create_z80_runtime program entry io rom_ranges = load_program program entry (record {
  cpu = init;
  hardware = record { memory = λ _. 0; rom_ranges = rom_ranges; io = io; history = [] };
})

unfoldable pub reset_runtime : Option (HexProgram × Option ℕ) → Handler
unfolding load_program reset
reset_runtime none m = on_cpu reset m
reset_runtime (some (program, entry)) m = load_program program entry (on_cpu reset m)

-- `hardware.ioTick()`: what the platform answers, and the machine after it.
unfoldable pub io_tick : Machine → Option TickResult × Machine
io_tick m = (m.hardware.io.on_tick m.hardware.history, record_event IoEvent.tick m)

abbrev pub or_else {ℓ} : {A : Type ℓ} → Option A → A → A
or_else none x = x
or_else (some v) x = v

unfoldable pub take_interrupt : Option Interrupt → Handler
take_interrupt none m = m
take_interrupt (some irq) m = interrupt (or_else irq.non_maskable false) (or_else irq.bus 0) m

unfoldable pub tick_interrupt : Option TickResult → Option Interrupt
tick_interrupt none = none
tick_interrupt (some result) = result.interrupt

unfoldable pub tick_stops : Option TickResult → Bool
tick_stops none = false
tick_stops (some result) = result.stop

-- LDIR, CPIR, INIR, OTIR, LDDR, CPDR, INDR and OTDR.
unfoldable pub is_block_repeat_instruction : ℕ → (ℕ → ℕ) → Bool
is_block_repeat_instruction pc read =
    let op1 = byte (read (word (word pc + 1))) in
    byte (read (word pc)) == 0xed && (leb 0xb0 op1 && leb op1 0xb3 || leb 0xb8 op1 && leb op1 0xbb)

abbrev pub max_block_repeat_iterations : ℕ
max_block_repeat_iterations = 0x110000

abbrev pub stopped : Bool → Reason → Option ℕ → Machine → RunResult × Machine
stopped at_halt reason cycles m =
    (record { halted = at_halt; pc = m.cpu.pc; reason = reason; cycles = cycles }, m)

abbrev pub set_halted : Cpu → Cpu
set_halted cpu = record cpu { halted = true }

-- One execution with the tick and the interrupt that follow it: the cycles, whether the platform
-- asks to stop, and the machine.
unfoldable pub execute_and_tick : Machine → ℕ × Bool × Machine
unfolding io_tick take_interrupt tick_interrupt tick_stops
execute_and_tick m =
    let (cycles, m1) = execute m in
    let (answer, m2) = io_tick m1 in
    (cycles, tick_stops answer, take_interrupt (tick_interrupt answer) m2)

-- The loop of `stepRuntime`, with the iterations that are left before the guard breaks it.
unfoldable pub step_loop : ℕ → ℕ → ℕ → Machine → RunResult × Machine
unfolding execute_and_tick is_block_repeat_instruction
step_loop zero start total m = stopped false breakpoint (some total) m
step_loop (suc left) start total m =
    let (cycles, stop, m') = execute_and_tick m in
    let again = step_loop left start (total + cycles) m' in
    if stop
    then stopped false breakpoint (some (total + cycles)) m'
    else if leb 0x10000 m'.cpu.pc || m'.cpu.halted
    then stopped true halt (some (total + cycles)) (on_cpu set_halted m')
    else if word m'.cpu.pc == start && is_block_repeat_instruction start (mem_read m')
    then again
    else stopped false breakpoint (some (total + cycles)) m'

unfoldable pub step_runtime : Machine → RunResult × Machine
unfolding step_loop
step_runtime m =
    let run = step_loop max_block_repeat_iterations (word m.cpu.pc) 0 m in
    if m.cpu.halted then stopped true halt (some 0) m else run

-- `runUntilStop`; `none` is the loop going on past its fuel.
unfoldable pub run_until_stop : ℕ → (ℕ → Bool) → Machine → Option (RunResult × Machine)
run_until_stop zero breakpoints m = none
run_until_stop (suc fuel) breakpoints m =
    let (result, m') = step_runtime m in
    let rest = run_until_stop fuel breakpoints m' in
    if m.cpu.halted
    then some (stopped true halt none m)
    else if breakpoints m.cpu.pc
    then some (stopped false breakpoint none m)
    else if result.halted
    then some (stopped true halt none m')
    else rest

unfoldable pub capture_cpu_state : Machine → Cpu
capture_cpu_state m = m.cpu

unfoldable pub restore_cpu_state : Cpu → Handler
restore_cpu_state snapshot m = record m { cpu = snapshot }
