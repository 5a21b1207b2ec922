-- ===== src/Z80/Decode/Operands.antt =====
-- What the opcode tables share: operand bytes and words, loads and stores, and the byte
-- operations on a register or on memory.
use debug.Base.{ℕ, ◌+◌, ◌*◌, ◌%◌, Option, none, some, List, [], ◌∷◌, get_or, pair, byte, word}
use debug.Base.{high, bit}
use debug.Z80.State.{Cpu}
use debug.Z80.Registers.{Reg, Pair, hi_reg, lo_reg, get_reg, set_reg, get_pair}
use debug.Z80.Hardware.{Machine, Handler, mem_read, mem_write, on_cpu}
use debug.Z80.Jump.{skip}
use debug.Z80.Rotate.{ByteOp}

abbrev pub noop : Handler
noop m = m

-- R counts in its low seven bits.
unfoldable pub inc_r : Cpu → Cpu
inc_r cpu = record cpu { r = bit 7 cpu.r * 128 + (cpu.r % 128 + 1) % 128 }

-- `cpu.pc = (cpu.pc + 1) & 0xffff; cb.mem_read(cpu.pc)`
unfoldable pub fetch : Machine → ℕ × Machine
fetch m = let m' = skip 1 m in (mem_read m' m'.cpu.pc, m')

-- Two bytes, the low one first.
unfoldable pub fetch_word : Machine → ℕ × Machine
unfolding fetch
fetch_word m = let (lo, m1) = fetch m in let (hi, m2) = fetch m1 in (pair hi lo, m2)

-- The register that three bits name; `none` is the byte at HL.
abbrev pub operand_regs : List (Option Reg)
operand_regs =
    some Reg.b
    ∷ some Reg.c
    ∷ some Reg.d
    ∷ some Reg.e
    ∷ some Reg.h
    ∷ some Reg.l
    ∷ none
    ∷ some Reg.a
    ∷ []

unfoldable pub operand_reg : ℕ → Option Reg
operand_reg code = get_or operand_regs code (some Reg.a)

unfoldable pub get_operand : Option Reg → Machine → ℕ
get_operand none m = mem_read m (get_pair Pair.hl m.cpu)
get_operand (some r) m = get_reg r m.cpu

unfoldable pub put_operand : Option Reg → ℕ → Handler
put_operand none v m = mem_write (get_pair Pair.hl m.cpu) v m
put_operand (some r) v m = on_cpu (set_reg r v) m

-- `cpu.b = op(cpu.b)`, or the same at HL.
unfoldable pub apply_op : ByteOp → Option Reg → Handler
unfolding get_operand put_operand
apply_op op target m =
    let (v, f) = op (get_operand target m) m.cpu.flags in
    put_operand target v (on_cpu (λ cpu. record cpu { flags = f }) m)

-- LD r, n and LD (HL), n
unfoldable pub ld_operand_n : Option Reg → Handler
unfolding fetch put_operand
ld_operand_n target m = let (v, m') = fetch m in put_operand target v m'

-- LD rr, nn: the low register is loaded first.
unfoldable pub ld_pair_nn : Pair → Handler
unfolding fetch
ld_pair_nn q m =
    let (lo, m1) = fetch m in
    let (hi, m2) = fetch (on_cpu (set_reg (lo_reg q) lo) m1) in on_cpu (set_reg (hi_reg q) hi) m2

-- `mem_write(address, value & 0xff); mem_write((address + 1) & 0xffff, (value >>> 8) & 0xff)`
unfoldable pub write_word : ℕ → ℕ → Handler
write_word address value m =
    mem_write (word (address + 1)) (high value) (mem_write address (byte value) m)

unfoldable pub read_word : ℕ → Machine → ℕ
read_word address m = pair (mem_read m (word (address + 1))) (mem_read m address)

-- LD (nn), rr
unfoldable pub ld_mem_pair : Pair → Handler
unfolding fetch_word
ld_mem_pair q m =
    let (address, m') = fetch_word m in
    mem_write (word (address + 1)) (get_reg (hi_reg q) m'.cpu)
      (mem_write address (get_reg (lo_reg q) m'.cpu) m')

-- LD rr, (nn)
unfoldable pub ld_pair_mem : Pair → Handler
unfolding fetch_word
ld_pair_mem q m =
    let (address, m') = fetch_word m in
    let m1 = on_cpu (set_reg (lo_reg q) (mem_read m' address)) m' in
    on_cpu (set_reg (hi_reg q) (mem_read m1 (word (address + 1)))) m1

-- `op(cb.mem_read(cpu.pc))` after the operand byte is fetched.
unfoldable pub alu_n : (ℕ → Cpu → Cpu) → Handler
unfolding fetch
alu_n op m = let (v, m') = fetch m in on_cpu (op v) m'
