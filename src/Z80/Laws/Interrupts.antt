-- ===== src/Z80/Laws/Interrupts.antt =====
-- Interrupts: the delay of EI, the returns from an NMI and from mode 1, and the instruction on the
-- bus in mode 0.
use debug.Base.{ℕ, ◌+◌, ◌<◌, ◌≡◌, ◌∙◌, ap, sym, subst, refl, arith, true, false, word}
use debug.Z80.Hardware.{Machine, mem_read, mem_write, write_memory, store}
use debug.Z80.Stack.{push_word, push_byte, pop_word}
use debug.Z80.Jump.{return, do_reset}
use debug.Z80.Constants.{cycle_counts, cycle_counts_ed}
use debug.Z80.Decode.Operands.{inc_r, fetch}
use debug.Z80.Decode.Ed.{retn, ed_instructions}
use debug.Z80.Decode.Primary.{instructions, primary_operation, execute_primary_opcode}
use debug.Z80.Processor.{
  execute, take_delayed, finish_delayed, decode_instruction, interrupt, non_maskable_interrupt,
  maskable_interrupt,
}
use debug.Z80.Laws.Opcodes.{run, execute-run}
use debug.Z80.Laws.Stacking.{HasRoom, IsPushed}
use debug.Z80.Laws.Stepping.Extended.{ed_instruction, run-ed_instruction}
use debug.Z80.Laws.Stepping.Promise.{Pushes, Pops}
use debug.Z80.Laws.Stepping.Handlers.{taken_return}
use debug.Z80.Laws.Returning.{return_runs, pop_word-IsPushed}

-- EI leaves the interrupts as they are, and the instruction after it enables them.
ei_waits :
    (m : Machine)
    → m.cpu.do_delayed_di ≡ false
    → m.cpu.do_delayed_ei ≡ false
    → let m' = run (execute_primary_opcode 0xfb) m in
      (m'.cpu.iff1 ≡ m.cpu.iff1)
      × (m'.cpu.halted ≡ m.cpu.halted)
      × (m'.cpu.do_delayed_ei ≡ true)
      × (m'.cpu.do_delayed_di ≡ false)
unfolding run execute_primary_opcode primary_operation instructions cycle_counts inc_r take_delayed
    finish_delayed
ei_waits m d e = ground arith

ei_enables :
    (m : Machine)
    → m.cpu.halted ≡ false
    → m.cpu.do_delayed_di ≡ false
    → m.cpu.do_delayed_ei ≡ true
    → ((execute m).1.cpu.iff1 ≡ 1) × ((execute m).1.cpu.iff2 ≡ 1)
unfolding execute finish_delayed
ei_enables m h d e = ground arith

-- For an EI at PC, with interrupts off, the processor not halted and no EI or DI pending: a
-- maskable interrupt right after it changes nothing, and the instruction that follows, whatever
-- it is, ends with IFF1 and IFF2 set.
pub ei_delayed :
    (bus : ℕ) (m : Machine)
    → m.cpu.halted ≡ false
    → m.cpu.do_delayed_di ≡ false
    → m.cpu.do_delayed_ei ≡ false
    → m.cpu.iff1 ≡ 0
    → mem_read m m.cpu.pc ≡ 0xfb
    → let m1 = (execute m).1 in
      let m2 = (execute m1).1 in
      (interrupt false bus m1 ≡ m1) × (m2.cpu.iff1 ≡ 1) × (m2.cpu.iff2 ≡ 1)
unfolding interrupt
ei_delayed bus m h d e off op =
    let waits = subst Waits (sym (execute-run 0xfb m h op)) (ei_waits m d e) in
    let on = ei_enables (execute m).1 (waits.1 ∙ h) waits.3 waits.2 in
    (rw (waits.0 ∙ off) refl, on.0, on.1)
  where
    Waits : Machine → Type 0
    Waits m' =
        (m'.cpu.iff1 ≡ m.cpu.iff1)
        × (m'.cpu.halted ≡ m.cpu.halted)
        × (m'.cpu.do_delayed_ei ≡ true)
        × (m'.cpu.do_delayed_di ≡ false)

-- In mode 0, with interrupts on and PC not the last address, an RST 38H on the bus pushes PC + 1
-- and goes on one short of 38H: the handler runs without the step of PC that `execute` makes
-- around it.
pub interrupt_mode_0_lem :
    (m : Machine)
    → m.cpu.imode ≡ 0
    → m.cpu.iff1 ≡ 1
    → m.cpu.pc < 65535
    → let m' = interrupt false 0xff m in Pushes (m.cpu.pc + 1) m m' × (m'.cpu.pc ≡ 0x37)
unfolding interrupt maskable_interrupt decode_instruction execute_primary_opcode primary_operation
    instructions cycle_counts inc_r do_reset push_word push_byte mem_write
interrupt_mode_0_lem m i e h = ground arith

-- The NMI's call of 0066H.
nmi_pushes :
    (m : Machine)
    → m.cpu.sp < 65536
    → m.cpu.pc < 65536
    → HasRoom m
    → let m' = interrupt true 0 m in
      IsPushed m.cpu.pc m m'
      × (m'.cpu.pc ≡ 0x66)
      × (m'.cpu.iff1 ≡ 0)
      × (m'.cpu.iff2 ≡ m.cpu.iff1)
      × (m'.cpu.halted ≡ false)
      × (m'.cpu.do_delayed_di ≡ m.cpu.do_delayed_di)
      × (m'.cpu.do_delayed_ei ≡ m.cpu.do_delayed_ei)
unfolding interrupt non_maskable_interrupt push_word push_byte mem_write write_memory store inc_r
nmi_pushes m s p room = ground (arith, room)

-- RETN, run as a whole instruction.
retn_restores :
    (w : ℕ) (m m1 : Machine)
    → w < 65536
    → m.cpu.sp < 65536
    → IsPushed w m m1
    → m1.cpu.do_delayed_di ≡ false
    → m1.cpu.do_delayed_ei ≡ false
    → let m2 = run (ed_instruction 0x45) m1 in
      (m2.cpu.pc ≡ w) × (m2.cpu.sp ≡ m.cpu.sp) × (m2.cpu.iff1 ≡ m1.cpu.iff2)
unfolding run ed_instructions cycle_counts_ed cycle_counts retn return pop_word fetch mem_read
    take_delayed finish_delayed inc_r
retn_restores w m m1 h s pushed d e = ground (arith, pushed)

-- With PC and SP words, the cells below SP RAM and no EI or DI pending: if after an NMI the
-- bytes at 0066H are a RETN, the NMI and the execution of that RETN put PC, SP and IFF1 back.
pub retn-interrupt :
    (m : Machine)
    → m.cpu.sp < 65536
    → m.cpu.pc < 65536
    → HasRoom m
    → m.cpu.do_delayed_di ≡ false
    → m.cpu.do_delayed_ei ≡ false
    → mem_read (interrupt true 0 m) 0x66 ≡ 0xed
    → mem_read (interrupt true 0 m) 0x67 ≡ 0x45
    → let m' = (execute (interrupt true 0 m)).1 in
      (m'.cpu.pc ≡ m.cpu.pc) × (m'.cpu.sp ≡ m.cpu.sp) × (m'.cpu.iff1 ≡ m.cpu.iff1)
retn-interrupt m s p room d e op op' =
    let m1 = interrupt true 0 m in
    let entered = nmi_pushes m s p room in
    let opcode : mem_read m1 m1.cpu.pc ≡ 0xed = ap (mem_read m1) entered.1 ∙ op in
    let second : mem_read m1 (word (m1.cpu.pc + 1)) ≡ 0x45 =
      ap (λ pc. mem_read m1 (word (pc + 1))) entered.1 ∙ op' in
    let runs : (execute m1).1 ≡ run (ed_instruction 0x45) m1 =
      execute-run 0xed m1 entered.4 opcode
      ∙ run-ed_instruction m1
      ∙ ap (λ code. run (ed_instruction code) m1) second in
    let restored = retn_restores m.cpu.pc m m1 p s entered.0 (entered.5 ∙ d) (entered.6 ∙ e) in
    (
      ap (λ m'. m'.cpu.pc) runs ∙ restored.0,
      ap (λ m'. m'.cpu.sp) runs ∙ restored.1,
      ap (λ m'. m'.cpu.iff1) runs ∙ restored.2 ∙ entered.3,
    )

read_from :
    (m m' : Machine) (address : ℕ)
    → m.hardware ≡ m'.hardware
    → mem_read m address ≡ mem_read m' address
unfolding mem_read
read_from m m' address e = ap (λ hw. hw.memory (word address)) e

-- The mode 1 call of 0038H.
mode_1_pushes :
    (bus : ℕ) (m : Machine)
    → m.cpu.iff1 ≡ 1
    → m.cpu.imode ≡ 1
    → m.cpu.sp < 65536
    → m.cpu.pc < 65536
    → HasRoom m
    → let m' = interrupt false bus m in
      IsPushed m.cpu.pc m m'
      × (m'.cpu.pc ≡ 0x38)
      × (m'.cpu.halted ≡ false)
      × (m'.cpu.do_delayed_di ≡ m.cpu.do_delayed_di)
      × (m'.cpu.do_delayed_ei ≡ m.cpu.do_delayed_ei)
unfolding interrupt maskable_interrupt push_word push_byte mem_write write_memory store inc_r
mode_1_pushes bus m on mode s p room = ground (arith, room)

-- EI steps over its byte, and does not touch memory or SP.
ei_keeps :
    (m : Machine)
    → let m' = run (execute_primary_opcode 0xfb) m in
      (m'.hardware ≡ m.hardware) × (m'.cpu.sp ≡ m.cpu.sp) × (m'.cpu.pc ≡ word (m.cpu.pc + 1))
unfolding run execute_primary_opcode primary_operation instructions cycle_counts inc_r take_delayed
    finish_delayed
ei_keeps m = ground arith

-- With PC and SP words, the cells below SP RAM, no EI or DI pending, interrupts on and mode 1: if
-- after a maskable interrupt the bytes at 0038H are EI and RET, then the interrupt and the execution
-- of both put PC and SP back, with IFF1 and IFF2 set and the processor not halted on the way.
pub return-ei-interrupt :
    (bus : ℕ) (m : Machine)
    → m.cpu.iff1 ≡ 1
    → m.cpu.imode ≡ 1
    → m.cpu.sp < 65536
    → m.cpu.pc < 65536
    → HasRoom m
    → m.cpu.do_delayed_di ≡ false
    → m.cpu.do_delayed_ei ≡ false
    → mem_read (interrupt false bus m) 0x38 ≡ 0xfb
    → mem_read (interrupt false bus m) 0x39 ≡ 0xc9
    → let m2 = (execute (interrupt false bus m)).1 in
      let m3 = (execute m2).1 in
      (m2.cpu.halted ≡ false)
      × (m3.cpu.pc ≡ m.cpu.pc)
      × (m3.cpu.sp ≡ m.cpu.sp)
      × (m3.cpu.iff1 ≡ 1)
      × (m3.cpu.iff2 ≡ 1)
return-ei-interrupt bus m on mode s p room d e op op' =
    let m1 = interrupt false bus m in
    let m2 = (execute m1).1 in
    let entered = mode_1_pushes bus m on mode s p room in
    let runs : m2 ≡ run (execute_primary_opcode 0xfb) m1 =
      execute-run 0xfb m1 entered.2 (ap (mem_read m1) entered.1 ∙ op) in
    let waits = ei_waits m1 (entered.3 ∙ d) (entered.4 ∙ e) in
    let keeps = ei_keeps m1 in
    let running : m2.cpu.halted ≡ false = ap (λ m'. m'.cpu.halted) runs ∙ waits.1 ∙ entered.2 in
    let hardware : m2.hardware ≡ m1.hardware = ap (λ m'. m'.hardware) runs ∙ keeps.0 in
    let pc : m2.cpu.pc ≡ 0x39 =
      ap (λ m'. m'.cpu.pc) runs ∙ keeps.2 ∙ ap (λ pc. word (pc + 1)) entered.1 in
    let pushed : IsPushed m.cpu.pc m m2 = record {
      sp = ap (λ m'. m'.cpu.sp) runs ∙ keeps.1 ∙ entered.0.sp;
      upper = ap (λ hw. hw.memory (word (m.cpu.sp + 65535))) hardware ∙ entered.0.upper;
      lower = ap (λ hw. hw.memory (word (m.cpu.sp + 65534))) hardware ∙ entered.0.lower;
    } in
    let opcode : mem_read m2 m2.cpu.pc ≡ 0xc9 =
      ap (mem_read m2) pc ∙ read_from m2 m1 0x39 hardware ∙ op' in
    let popped = pop_word-IsPushed m.cpu.pc m m2 p s pushed in
    let pops =
      subst (Pops m2) (sym (execute-run 0xc9 m2 running opcode ∙ return_runs m2))
        (taken_return 10 m2) in
    let enabled =
      ei_enables m2 running (ap (λ m'. m'.cpu.do_delayed_di) runs ∙ waits.3)
        (ap (λ m'. m'.cpu.do_delayed_ei) runs ∙ waits.2) in
    (running, pops.pc ∙ ap word popped.0 ∙ omega arith, pops.sp ∙ popped.1, enabled.0, enabled.1)
