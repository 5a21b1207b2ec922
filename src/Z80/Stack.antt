-- ===== src/Z80/Stack.antt =====
-- `pushWord` of core-helpers.ts and `pop_word` of decode-helpers.ts.
use debug.Base.{ℕ, ◌+◌, ◌*◌, byte, word, high, int_sub}
use debug.Z80.State.{Cpu}
use debug.Z80.Hardware.{Machine, Handler, mem_read, mem_write, on_cpu}

abbrev pub set_sp : ℕ → Cpu → Cpu
set_sp v cpu = record cpu { sp = v }

unfoldable pub push_byte : ℕ → Handler
push_byte value m =
    let m' = on_cpu (set_sp (word (int_sub m.cpu.sp 1))) m in mem_write m'.cpu.sp value m'

unfoldable pub push_word : ℕ → Handler
unfolding push_byte
push_word operand m = push_byte (byte operand) (push_byte (high operand) m)

-- The word read, and the machine with SP past it.
unfoldable pub pop_word : Machine → ℕ × Machine
pop_word m =
    let retval = byte (mem_read m m.cpu.sp) in
    let m1 = on_cpu (set_sp (word (m.cpu.sp + 1))) m in
    let m2 = on_cpu (set_sp (word (m1.cpu.sp + 1))) m1 in (retval + mem_read m1 m1.cpu.sp * 256, m2)
