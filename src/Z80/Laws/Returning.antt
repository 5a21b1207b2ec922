-- ===== src/Z80/Laws/Returning.antt =====
-- A call and the return that answers it, as whole instructions.
use debug.Base.{ℕ, ◌+◌, ◌<◌, ◌≡◌, ◌∙◌, ap, sym, subst, refl, arith, false, word}
use debug.Z80.Hardware.{Machine, mem_read, mem_write}
use debug.Z80.Stack.{push_word, push_byte, pop_word}
use debug.Z80.Jump.{call, return, jump}
use debug.Z80.Constants.{cycle_counts}
use debug.Z80.Decode.Operands.{inc_r}
use debug.Z80.Decode.Primary.{instructions, primary_operation, execute_primary_opcode}
use debug.Z80.Processor.{execute, take_delayed, finish_delayed}
use debug.Z80.Laws.Opcodes.{run, execute-run}
use debug.Z80.Laws.Stacking.{HasRoom, IsPushed, push_word-IsPushed}
use debug.Z80.Laws.Stepping.Promise.{Pushes, Pops}
use debug.Z80.Laws.Stepping.Handlers.{counted, taken_call, taken_return}

Pushes-IsPushed :
    (w : ℕ) (m m' : Machine) → Pushes w m m' → IsPushed w m (push_word w m) → IsPushed w m m'
Pushes-IsPushed w m m' p h = record {
  sp = p.sp ∙ h.sp;
  upper = ap (λ hardware. hardware.memory (word (m.cpu.sp + 65535))) p.hardware ∙ h.upper;
  lower = ap (λ hardware. hardware.memory (word (m.cpu.sp + 65534))) p.hardware ∙ h.lower;
}

pub pop_word-IsPushed :
    (w : ℕ) (m m' : Machine)
    → w < 65536
    → m.cpu.sp < 65536
    → IsPushed w m m'
    → ((pop_word m').0 ≡ w) × ((pop_word m').1.cpu.sp ≡ m.cpu.sp)
unfolding pop_word mem_read
pop_word-IsPushed w m m' h s p = ground (arith, p)

call_halted : (m : Machine) → (run (counted 17 call) m).cpu.halted ≡ m.cpu.halted
unfolding run call jump take_delayed finish_delayed inc_r push_word push_byte mem_write
call_halted m = ground arith

call_runs : (m : Machine) → run (execute_primary_opcode 0xcd) m ≡ run (counted 17 call) m
unfolding execute_primary_opcode primary_operation instructions cycle_counts
call_runs m = refl

pub return_runs : (m : Machine) → run (execute_primary_opcode 0xc9) m ≡ run (counted 10 return) m
unfolding execute_primary_opcode primary_operation instructions cycle_counts
return_runs m = refl

-- With SP a word, RAM below it and the processor not halted: if the byte at PC is a CALL, and the
-- byte where its execution goes on is a RET, the execution of both goes on after the call's three
-- bytes, with SP as it was.
pub return-call :
    (m : Machine)
    → m.cpu.halted ≡ false
    → m.cpu.sp < 65536
    → HasRoom m
    → mem_read m m.cpu.pc ≡ 0xcd
    → mem_read (execute m).1 (execute m).1.cpu.pc ≡ 0xc9
    → let m' = (execute (execute m).1).1 in
      (m'.cpu.pc ≡ word (m.cpu.pc + 3)) × (m'.cpu.sp ≡ m.cpu.sp)
return-call m h s room op op' =
    let m1 = (execute m).1 in
    let called : m1 ≡ run (counted 17 call) m = execute-run 0xcd m h op ∙ call_runs m in
    let w = word (m.cpu.pc + 3) in
    let pushes = subst (Pushes w m) (sym called) (taken_call 17 m).pushes in
    let pushed = Pushes-IsPushed w m m1 pushes (push_word-IsPushed w m (omega arith) s room) in
    let popped = pop_word-IsPushed w m m1 (omega arith) s pushed in
    let h1 = ap (λ m'. m'.cpu.halted) called ∙ call_halted m ∙ h in
    let pops =
      subst (Pops m1) (sym (execute-run 0xc9 m1 h1 op' ∙ return_runs m1)) (taken_return 10 m1) in
    (pops.pc ∙ ap word popped.0 ∙ omega arith, pops.sp ∙ popped.1)
