-- ===== src/Z80/Laws/Opcodes.antt =====
-- What single opcodes do as whole instructions: the handler, the cycles, and PC past it.
use debug.Base.{ℕ, ◌≡◌, refl, ap, ◌∙◌, if◌then◌else◌, arith, Bool, false}
use debug.Z80.Hardware.{Machine, Handler, mem_read, on_cpu}
use debug.Z80.Jump.{skip}
use debug.Z80.Decode.Operands.{inc_r}
use debug.Z80.Decode.Primary.{execute_primary_opcode}
use debug.Z80.Processor.{execute, take_delayed, finish_delayed, decode_instruction}

-- An instruction as `execute` runs it, with the opcode's part left open.
unfoldable pub run : Handler → Handler
run handler m =
    let m2 = skip 1 (handler (on_cpu (λ cpu. inc_r (take_delayed cpu)) m)) in
    let m3 = on_cpu (finish_delayed m.cpu.do_delayed_di m.cpu.do_delayed_ei) m2 in
    on_cpu (λ cpu. record cpu { cycle_counter = 0 }) m3

-- Neither R nor a pending EI or DI changes the opcode that is read.
opcode_read :
    (m : Machine)
    → let m1 = on_cpu (λ cpu. inc_r (take_delayed cpu)) m in
      mem_read m1 m1.cpu.pc ≡ mem_read m m.cpu.pc
unfolding inc_r take_delayed mem_read
opcode_read m = ground arith

if_false : (test : Bool) (p q : ℕ × Machine) → test ≡ false → (if test then p else q).1 ≡ q.1
if_false test p q e = simp e refl

pub execute-run :
    (opcode : ℕ) (m : Machine)
    → m.cpu.halted ≡ false
    → mem_read m m.cpu.pc ≡ opcode
    → (execute m).1 ≡ run (execute_primary_opcode opcode) m
unfolding execute run decode_instruction
execute-run opcode m h e =
    if_false m.cpu.halted (1, m) _ h
    ∙ ap (λ code. run (execute_primary_opcode code) m) (opcode_read m ∙ e)
