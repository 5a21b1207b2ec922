-- ===== src/Z80/Tests/Flow.antt =====
-- Calls, interrupts and the stack at concrete programs.
use debug.Base.{◌<◌, ◌≡◌, refl, arith, [], ◌∷◌, none, true, false}
use debug.Z80.Hardware.{Machine, mem_read, is_rom_address, on_cpu, store, write_memory, mem_write}
use debug.Z80.Samples.{quiet_io, machine_of}
use debug.Z80.Runtime.{HexProgram, create_z80_runtime}
use debug.Z80.Stack.{push_word, push_byte, pop_word}
use debug.Z80.Processor.{execute, interrupt, non_maskable_interrupt, maskable_interrupt}
use debug.Z80.StepOver.{classify_step_over}
use debug.Z80.Laws.Stacking.{HasRoom, pop_word-push_word, push_word_frame}
use debug.Z80.Laws.Stepping.Promise.{IsAsClassified, Pushes}
use debug.Z80.Laws.Stepping.{classify_step_over-IsAsClassified}
use debug.Z80.Laws.Interrupts.{
  return-ei-interrupt, ei_delayed, retn-interrupt, interrupt_mode_0_lem,
}

-- A call of 0x1234, with RAM everywhere.
abbrev caller : Machine
caller = machine_of (0xcd ∷ 0x34 ∷ 0x12 ∷ [])

caller-HasRoom : HasRoom caller
unfolding machine_of is_rom_address
caller-HasRoom = record { upper = refl; lower = refl }

caller_sp : caller.cpu.sp < 65536
unfolding machine_of
caller_sp = omega arith

classify_step_over-IsAsClassified_example :
    IsAsClassified (classify_step_over caller.cpu (mem_read caller)) caller (execute caller).1
unfolding machine_of
classify_step_over-IsAsClassified_example =
    classify_step_over-IsAsClassified caller refl (omega arith)

pop_word-push_word_example :
    ((pop_word (push_word 0xbeef caller)).0 ≡ 0xbeef)
    × ((pop_word (push_word 0xbeef caller)).1.cpu ≡ caller.cpu)
pop_word-push_word_example = pop_word-push_word 0xbeef caller (omega arith) caller_sp caller-HasRoom

push_word_frame_example : (push_word 0xbeef caller).hardware.memory 0 ≡ caller.hardware.memory 0
unfolding machine_of
push_word_frame_example = push_word_frame 0xbeef 0 caller caller_sp refl refl

abbrev enabler : Machine
enabler = machine_of (0xfb ∷ 0xaf ∷ [])

ei_delayed_example :
    let m1 = (execute enabler).1 in
    let m2 = (execute m1).1 in
    (interrupt false 0xff m1 ≡ m1) × (m2.cpu.iff1 ≡ 1) × (m2.cpu.iff2 ≡ 1)
unfolding machine_of mem_read
ei_delayed_example = ei_delayed 0xff enabler refl refl refl refl refl

abbrev pub with_interrupts : Machine → Machine
with_interrupts m = on_cpu (λ cpu. record cpu { iff1 = 1; iff2 = 1 }) m

interrupt_mode_0_lem_example :
    let m' = interrupt false 0xff (with_interrupts caller) in
    Pushes 1 (with_interrupts caller) m' × (m'.cpu.pc ≡ 0x37)
unfolding machine_of
interrupt_mode_0_lem_example = interrupt_mode_0_lem (with_interrupts caller) refl refl (omega arith)

-- A handler at 0066H that is a RETN.
abbrev handler_program : HexProgram
handler_program = record {
  image = store (store (λ _. 0) 0x66 0xed) 0x67 0x45;
  start_address = 0x200;
}

abbrev interrupted : Machine
interrupted = with_interrupts (create_z80_runtime handler_program none quiet_io [])

retn-interrupt_example :
    let m' = (execute (interrupt true 0 interrupted)).1 in
    (m'.cpu.pc ≡ interrupted.cpu.pc)
    × (m'.cpu.sp ≡ interrupted.cpu.sp)
    × (m'.cpu.iff1 ≡ interrupted.cpu.iff1)
unfolding create_z80_runtime mem_read interrupt non_maskable_interrupt push_word push_byte mem_write
    write_memory store is_rom_address
retn-interrupt_example =
    retn-interrupt interrupted (omega arith) (omega arith) (record { upper = refl; lower = refl })
      refl refl refl refl

-- Mode 1, with a handler at 0038H that is EI and RET.
abbrev ei_program : HexProgram
ei_program = record { image = store (store (λ _. 0) 0x38 0xfb) 0x39 0xc9; start_address = 0x200 }

abbrev waiting : Machine
waiting =
    on_cpu (λ cpu. record cpu { imode = 1 })
      (with_interrupts (create_z80_runtime ei_program none quiet_io []))

return-ei-interrupt_example :
    let m2 = (execute (interrupt false 0xff waiting)).1 in
    let m3 = (execute m2).1 in
    (m2.cpu.halted ≡ false)
    × (m3.cpu.pc ≡ waiting.cpu.pc)
    × (m3.cpu.sp ≡ waiting.cpu.sp)
    × (m3.cpu.iff1 ≡ 1)
    × (m3.cpu.iff2 ≡ 1)
unfolding create_z80_runtime mem_read interrupt maskable_interrupt push_word push_byte mem_write
    write_memory store is_rom_address
return-ei-interrupt_example =
    return-ei-interrupt 0xff waiting refl refl (omega arith) (omega arith)
      (record { upper = refl; lower = refl }) refl refl refl refl
