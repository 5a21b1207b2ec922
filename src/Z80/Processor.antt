-- ===== src/Z80/Processor.antt =====
-- cpu.ts: reset, the execution of one instruction, and interrupts.
use debug.Base.{ℕ, ◌*◌, ◌==◌, Bool, false, bit_or, if◌then◌else◌, not}
use debug.Z80.State.{Cpu}
use debug.Z80.Flags.{set_flags_register}
use debug.Z80.Hardware.{Machine, Handler, mem_read, on_cpu}
use debug.Z80.Stack.{push_word}
use debug.Z80.Jump.{set_pc, add_cycles, skip}
use debug.Z80.Decode.Operands.{inc_r, read_word}
use debug.Z80.Decode.Primary.{execute_primary_opcode}

unfoldable pub reset : Cpu → Cpu
unfolding set_flags_register
reset cpu = record (set_flags_register 0 cpu) {
  sp = 0xdff0;
  pc = 0x0000;
  a = 0x00;
  r = 0x00;
  imode = 0;
  iff1 = 0;
  iff2 = 0;
  halted = false;
  do_delayed_di = false;
  do_delayed_ei = false;
  cycle_counter = 0;
}

-- `decodeInstruction`: the decoder cached for the processor.
unfoldable pub decode_instruction : ℕ → Handler
decode_instruction = execute_primary_opcode

-- The pending DI, or else the pending EI, is taken off before the instruction runs.
unfoldable pub take_delayed : Cpu → Cpu
take_delayed cpu =
    if cpu.do_delayed_di
    then record cpu { do_delayed_di = false }
    else if cpu.do_delayed_ei
    then record cpu { do_delayed_ei = false }
    else cpu

-- What was pending before the instruction takes effect after it.
unfoldable pub finish_delayed : Bool → Bool → Cpu → Cpu
finish_delayed di ei cpu =
    if di
    then record cpu { iff1 = 0; iff2 = 0 }
    else if ei
    then record cpu { iff1 = 1; iff2 = 1 }
    else cpu

-- The cycles that the instruction took, and the machine after it.
unfoldable pub execute : Machine → ℕ × Machine
unfolding decode_instruction take_delayed finish_delayed inc_r
execute m =
    let m1 = on_cpu (λ cpu. inc_r (take_delayed cpu)) m in
    let m2 = skip 1 (decode_instruction (mem_read m1 m1.cpu.pc) m1) in
    let m3 = on_cpu (finish_delayed m.cpu.do_delayed_di m.cpu.do_delayed_ei) m2 in
    if m.cpu.halted
    then (1, m)
    else (m3.cpu.cycle_counter, on_cpu (λ cpu. record cpu { cycle_counter = 0 }) m3)

unfoldable pub non_maskable_interrupt : Handler
unfolding inc_r
non_maskable_interrupt m =
    let m1 = on_cpu (λ cpu. record (inc_r cpu) { halted = false; iff2 = cpu.iff1; iff1 = 0 }) m in
    on_cpu (λ cpu. add_cycles 11 (set_pc 0x66 cpu)) (push_word m1.cpu.pc m1)

-- Mode 2: the word at the vector that I and the bus name.
unfoldable pub vectored : ℕ → Handler
vectored bus m =
    let m1 = push_word m.cpu.pc m in
    on_cpu (λ cpu. add_cycles 19 (set_pc (read_word (bit_or (m1.cpu.i * 256) bus) m1) cpu)) m1

unfoldable pub maskable_interrupt : ℕ → Handler
unfolding inc_r decode_instruction vectored
maskable_interrupt bus m =
    let m1 = on_cpu (λ cpu. record (inc_r cpu) { halted = false; iff1 = 0; iff2 = 0 }) m in
    if m1.cpu.imode == 0
    then on_cpu (add_cycles 2) (decode_instruction bus m1)
    else if m1.cpu.imode == 1
    then on_cpu (λ cpu. add_cycles 13 (set_pc 0x38 cpu)) (push_word m1.cpu.pc m1)
    else if m1.cpu.imode == 2
    then vectored bus m1
    else m1

unfoldable pub interrupt : Bool → ℕ → Handler
unfolding non_maskable_interrupt maskable_interrupt
interrupt non_maskable bus m =
    if non_maskable
    then non_maskable_interrupt m
    else if not (m.cpu.iff1 == 0)
    then maskable_interrupt bus m
    else m
