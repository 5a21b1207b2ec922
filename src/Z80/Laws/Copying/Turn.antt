-- ===== src/Z80/Laws/Copying/Turn.antt =====
-- One turn of the loop of `step` at an LDIR.
use debug.Base.{
  ℕ, zero, suc, ◌+◌, ◌-◌, ◌<◌, ◌≡◌, ◌==◌, ◌∙◌, ap, sym, refl, subst, arith, Bool, true, false, none,
  some, word, byte, if◌then◌else◌, List, Option,
}
use debug.Z80.State.{Cpu}
use debug.Z80.Hardware.{
  Machine, Hardware, Range, TickResult, mem_read, mem_write, write_memory, store, is_rom_address,
}
use debug.Z80.Registers.{Pair, get_pair}
use debug.Z80.Processor.{execute}
use debug.Z80.Runtime.{execute_and_tick, io_tick, tick_stops, take_interrupt, tick_interrupt}
use debug.Z80.Valid.{IsValidCpu, IsValid}
use debug.Z80.Valid.Memory.{mem_read-lt}
use debug.Z80.Valid.Registers.{get_pair-lt}
use debug.Z80.Valid.Runtime.{execute_and_tick-IsValid}
use debug.Z80.Laws.Opcodes.{run, execute-run}
use debug.Z80.Laws.Stepping.Extended.{ed_instruction, run-ed_instruction}
use debug.Z80.Laws.Copying.Round.{round-Copies, round_pc}

-- A byte stored where there is no ROM.
unfoldable pub poke : List Range → ℕ → ℕ → (ℕ → ℕ) → ℕ → ℕ
poke rom addr value memory other =
    if is_rom_address rom addr then memory other else store memory addr value other

-- `n` bytes copied upwards, one after the other, both addresses wrapping around at 64K.
unfoldable pub copy_bytes : List Range → ℕ → ℕ → ℕ → (ℕ → ℕ) → ℕ → ℕ
unfolding poke
copy_bytes rom zero source target memory = memory
copy_bytes rom (suc n) source target memory =
    copy_bytes rom n (word (source + 1)) (word (target + 1))
      (poke rom target (memory source) memory)

-- A processor at an LDIR with `suc k` bytes to copy, none of them onto the instruction, and a
-- platform that does nothing at its ticks.
pub record Copying (k : ℕ) (m : Machine) : Type 0 where
  pub valid : IsValid m
  pub running : m.cpu.halted ≡ false
  pub bound : k < 65536
  pub count : get_pair Pair.bc m.cpu ≡ word (suc k)
  pub first : m.hardware.memory m.cpu.pc ≡ 0xed
  pub second : m.hardware.memory (word (m.cpu.pc + 1)) ≡ 0xb0
  pub first_apart : k < word (m.cpu.pc + 65536 - get_pair Pair.de m.cpu)
  pub second_apart : k < word (word (m.cpu.pc + 1) + 65536 - get_pair Pair.de m.cpu)
  pub quiet : m.hardware.io.on_tick ≡ (λ history. none)

reads : (m : Machine) (addr : ℕ) → addr < 65536 → mem_read m addr ≡ m.hardware.memory addr
unfolding mem_read
reads m addr h = let e : word addr ≡ addr = omega arith in ap m.hardware.memory e

execute-ldir : (k : ℕ) (m : Machine) → Copying k m → (execute m).1 ≡ run (ed_instruction 0xb0) m
execute-ldir k m c =
    execute-run 0xed m c.running (reads m m.cpu.pc c.valid.cpu.pc ∙ c.first)
    ∙ run-ed_instruction m
    ∙ ap (λ code. run (ed_instruction code) m)
        (reads m (word (m.cpu.pc + 1)) (omega arith) ∙ c.second)

no_answer :
    (answer : Option TickResult) (m : Machine)
    → answer ≡ none
    → (tick_stops answer ≡ false) × (take_interrupt (tick_interrupt answer) m ≡ m)
unfolding tick_stops take_interrupt tick_interrupt
no_answer none m e = (refl, refl)
no_answer (some result) m e = cc

tick_lem :
    (m : Machine)
    → (execute m).1.hardware.io.on_tick ≡ (λ history. none)
    → let (cycles, stop, m') = execute_and_tick m in
      (stop ≡ false)
      × (m'.cpu ≡ (execute m).1.cpu)
      × (m'.hardware.memory ≡ (execute m).1.hardware.memory)
      × (m'.hardware.rom_ranges ≡ (execute m).1.hardware.rom_ranges)
      × (m'.hardware.io ≡ (execute m).1.hardware.io)
unfolding execute_and_tick io_tick
tick_lem m quiet =
    let m1 = (execute m).1 in
    let idle = no_answer (io_tick m1).0 (io_tick m1).1 (ap (λ f. f m1.hardware.history) quiet) in
    (
      idle.0,
      ap (λ m'. m'.cpu) idle.1,
      ap (λ m'. m'.hardware.memory) idle.1,
      ap (λ m'. m'.hardware.rom_ranges) idle.1,
      ap (λ m'. m'.hardware.io) idle.1,
    )

if-poke :
    (test : Bool) (hardware : Hardware) (memory : ℕ → ℕ)
    → let after : Hardware = if test then hardware else record hardware { memory = memory } in
      (after.memory ≡ (λ other. if test then hardware.memory other else memory other))
      × (after.rom_ranges ≡ hardware.rom_ranges)
      × (after.io ≡ hardware.io)
if-poke true hardware memory = (refl, refl, refl)
if-poke false hardware memory = (refl, refl, refl)

-- A write of a byte, as the hardware masks it.
pub write_lem :
    (d v : ℕ) (m : Machine)
    → d < 65536
    → v < 256
    → let hardware = (mem_write d v m).hardware in
      (hardware.memory ≡ poke m.hardware.rom_ranges d v m.hardware.memory)
      × (hardware.rom_ranges ≡ m.hardware.rom_ranges)
      × (hardware.io ≡ m.hardware.io)
unfolding mem_write write_memory poke
write_lem d v m h b =
    let e : word (word d) ≡ d = omega arith in
    let e' : byte (byte v) ≡ v = omega arith in
    subst (λ addr. Written addr (byte (byte v))) (sym e)
      (subst (λ value. Written d value) (sym e')
        (if-poke (is_rom_address m.hardware.rom_ranges d) m.hardware (store m.hardware.memory d v)))
  where
    Written : ℕ → ℕ → Type 0
    Written addr value =
        let hardware : Hardware =
          if is_rom_address m.hardware.rom_ranges addr
          then m.hardware
          else record (m.hardware) { memory = store m.hardware.memory addr value } in
        (hardware.memory ≡ poke m.hardware.rom_ranges d v m.hardware.memory)
        × (hardware.rom_ranges ≡ m.hardware.rom_ranges)
        × (hardware.io ≡ m.hardware.io)

-- One turn of the loop of `step`, on the registers and the memory.
pub record Turns (k : ℕ) (m m' : Machine) : Type 0 where
  pub valid : IsValid m'
  pub running : m'.cpu.halted ≡ false
  pub count : get_pair Pair.bc m'.cpu ≡ word k
  pub source : get_pair Pair.hl m'.cpu ≡ word (get_pair Pair.hl m.cpu + 1)
  pub target : get_pair Pair.de m'.cpu ≡ word (get_pair Pair.de m.cpu + 1)
  pub pc : m'.cpu.pc ≡ (if k == 0 then word (m.cpu.pc + 2) else m.cpu.pc)
  pub memory :
      m'.hardware.memory
      ≡ poke m.hardware.rom_ranges
          (get_pair Pair.de m.cpu)
          (m.hardware.memory (get_pair Pair.hl m.cpu))
          m.hardware.memory
  pub rom_ranges : m'.hardware.rom_ranges ≡ m.hardware.rom_ranges
  pub io : m'.hardware.io ≡ m.hardware.io

pair-lt : (q : Pair) (cpu : Cpu) → IsValidCpu cpu → get_pair q cpu < 65536
pair-lt q cpu v = get_pair-lt q cpu v

Copying-quiet :
    (k : ℕ) (m : Machine) → Copying k m → (execute m).1.hardware.io.on_tick ≡ (λ history. none)
Copying-quiet k m c =
    let round = round-Copies m (execute m).1 c.valid.cpu (execute-ldir k m c) in
    let written =
      write_lem (get_pair Pair.de m.cpu) (mem_read m (get_pair Pair.hl m.cpu)) m
        (pair-lt Pair.de m.cpu c.valid.cpu) (mem_read-lt m _ c.valid) in
    ap (λ hardware. hardware.io.on_tick) round.hardware ∙ ap (λ io. io.on_tick) written.2 ∙ c.quiet

-- The tick after a turn asks for no stop.
pub Copying-goes_on : (k : ℕ) (m : Machine) → Copying k m → (execute_and_tick m).1 ≡ false
Copying-goes_on k m c = (tick_lem m (Copying-quiet k m c)).0

pub Copying-Turns : (k : ℕ) (m : Machine) → Copying k m → Turns k m (execute_and_tick m).2
Copying-Turns k m c =
    let round = round-Copies m (execute m).1 c.valid.cpu (execute-ldir k m c) in
    let pc = round_pc m (execute m).1 c.valid.cpu (execute-ldir k m c) in
    let hl = pair-lt Pair.hl m.cpu c.valid.cpu in
    let de = pair-lt Pair.de m.cpu c.valid.cpu in
    let written =
      write_lem (get_pair Pair.de m.cpu) (mem_read m (get_pair Pair.hl m.cpu)) m de
        (mem_read-lt m _ c.valid) in
    let read = reads m (get_pair Pair.hl m.cpu) hl in
    let tick = tick_lem m (Copying-quiet k m c) in
    record {
      valid = execute_and_tick-IsValid m c.valid;
      running = ap (λ cpu. cpu.halted) tick.1 ∙ round.halted ∙ c.running;
      count = ap (get_pair Pair.bc) tick.1 ∙ round.count ∙ wraps c.count;
      source = ap (get_pair Pair.hl) tick.1 ∙ round.source;
      target = ap (get_pair Pair.de) tick.1 ∙ round.target;
      pc =
          ap (λ cpu. cpu.pc) tick.1
          ∙ pc
          ∙ ap (λ test. if test then word (m.cpu.pc + 2) else m.cpu.pc) last;
      memory =
          tick.2
          ∙ ap (λ hardware. hardware.memory) round.hardware
          ∙ written.0
          ∙ ap (λ v. poke m.hardware.rom_ranges (get_pair Pair.de m.cpu) v m.hardware.memory) read;
      rom_ranges = tick.3 ∙ ap (λ hardware. hardware.rom_ranges) round.hardware ∙ written.1;
      io = tick.4 ∙ ap (λ hardware. hardware.io) round.hardware ∙ written.2;
    }
  where
    wraps : get_pair Pair.bc m.cpu ≡ word (suc k) → word (get_pair Pair.bc m.cpu + 65535) ≡ word k
    wraps e = omega arith

    last : (get_pair Pair.bc m.cpu == 1) ≡ (k == 0)
    last = ground (arith, c.count, c.bound)
