-- ===== src/Z80/Jump.antt =====
-- Jumps, calls, returns and restarts of decode-helpers.ts. Every handler leaves PC one short of
-- where the next instruction starts, since `execute` adds one.
use debug.Base.{ℕ, ◌+◌, Bool, pair, word, int_sub, if◌then◌else◌}
use debug.Z80.State.{Cpu}
use debug.Z80.Hardware.{Machine, Handler, mem_read, on_cpu}
use debug.Z80.Alu.{get_signed_offset_byte}
use debug.Z80.Stack.{push_word, pop_word}

abbrev pub set_pc : ℕ → Cpu → Cpu
set_pc v cpu = record cpu { pc = v }

abbrev pub add_cycles : ℕ → Cpu → Cpu
add_cycles k cpu = record cpu { cycle_counter = cpu.cycle_counter + k }

-- The word that follows the opcode.
unfoldable pub operand_word : Machine → ℕ
operand_word m = pair (mem_read m (word (m.cpu.pc + 2))) (mem_read m (word (m.cpu.pc + 1)))

abbrev pub skip : ℕ → Handler
skip k m = on_cpu (set_pc (word (m.cpu.pc + k))) m

-- `cpu.pc = (address - 1) & 0xffff`
abbrev pub land_at : ℕ → Handler
land_at address m = on_cpu (set_pc (word (int_sub address 1))) m

-- `cpu.pc = address; cpu.pc = (cpu.pc - 1) & 0xffff`, as in `JP nn`.
unfoldable pub jump : Handler
unfolding operand_word
jump m = land_at (operand_word m) m

unfoldable pub do_conditional_absolute_jump : Bool → Handler
unfolding jump
do_conditional_absolute_jump condition m = if condition then jump m else skip 2 m

unfoldable pub relative_jump : Handler
relative_jump m =
    let offset = get_signed_offset_byte (mem_read m (word (m.cpu.pc + 1))) in
    on_cpu (set_pc (word (m.cpu.pc + offset + 1))) m

unfoldable pub do_conditional_relative_jump : Bool → Handler
unfolding relative_jump
do_conditional_relative_jump condition m =
    if condition then relative_jump (on_cpu (add_cycles 5) m) else skip 1 m

-- The word is read after the push, which may overwrite it.
unfoldable pub call : Handler
unfolding jump
call m = jump (push_word (word (m.cpu.pc + 3)) m)

unfoldable pub do_conditional_call : Bool → Handler
unfolding call
do_conditional_call condition m = if condition then call (on_cpu (add_cycles 7) m) else skip 2 m

unfoldable pub return : Handler
return m = let (address, m') = pop_word m in land_at address m'

unfoldable pub do_conditional_return : Bool → Handler
unfolding return
do_conditional_return condition m = if condition then return (on_cpu (add_cycles 6) m) else m

unfoldable pub do_reset : ℕ → Handler
do_reset address m = land_at address (push_word (word (m.cpu.pc + 1)) m)
