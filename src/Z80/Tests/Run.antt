-- ===== src/Z80/Tests/Run.antt =====
-- Running a program to its end.
use debug.Base.{ℕ, refl, Bool, false, [], ◌∷◌, ◌≡◌, arith}
use debug.Z80.Hardware.{Machine, mem_read}
use debug.Z80.Samples.{machine_of}
use debug.Z80.Processor.{execute, take_delayed, finish_delayed, decode_instruction}
use debug.Z80.Decode.Primary.{execute_primary_opcode, primary_operation, instructions}
use debug.Z80.Decode.Operands.{inc_r}
use debug.Z80.Constants.{cycle_counts}
use debug.Z80.Hardware.{mem_write, write_memory, store, is_rom_address}
use debug.Z80.Stack.{push_word, push_byte}
use debug.Z80.Jump.{call, jump, operand_word}
use debug.Z80.Laws.Returning.{return-call}

-- LD B,5; HALT
abbrev loader : Machine
loader = machine_of (0x06 ∷ 0x05 ∷ 0x76 ∷ [])

abbrev no_breakpoints : ℕ → Bool
no_breakpoints addr = false

-- CALL 5; HALT; NOP; RET
abbrev caller : Machine
caller = machine_of (0xcd ∷ 0x05 ∷ 0x00 ∷ 0x76 ∷ 0x00 ∷ 0xc9 ∷ [])

return-call_example :
    let m' = (execute (execute caller).1).1 in (m'.cpu.pc ≡ 3) × (m'.cpu.sp ≡ caller.cpu.sp)
unfolding machine_of execute take_delayed finish_delayed decode_instruction execute_primary_opcode
    primary_operation instructions inc_r cycle_counts mem_read call jump operand_word push_word
    push_byte mem_write write_memory store is_rom_address
return-call_example =
    return-call caller refl (omega arith) (record { upper = refl; lower = refl }) refl refl
