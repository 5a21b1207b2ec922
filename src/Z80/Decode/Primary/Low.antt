-- ===== src/Z80/Decode/Primary/Low.antt =====
-- decode-primary.ts, 0x00-0x3F: loads, exchanges, rotates and relative jumps.
use debug.Base.{ℕ, ◌+◌, ◌-◌, ◌==◌, Option, none, some, List, [], ◌∷◌, not, flag, byte, word}
use debug.Base.{int_sub}
use debug.Z80.State.{Cpu}
use debug.Z80.Flags.{set_flags_from_byte, flags_to_byte, update_xy_flags}
use debug.Z80.Registers.{Reg, Pair, get_pair}
use debug.Z80.Hardware.{Handler, mem_read, mem_write, on_cpu}
use debug.Z80.Alu.{do_inc, do_dec, daa}
use debug.Z80.Alu16.{do_hl_add}
use debug.Z80.Rotate.{ByteOp, do_rlc, do_rrc, do_rl, do_rr}
use debug.Z80.Stack.{set_sp}
use debug.Z80.Jump.{operand_word, skip, relative_jump, do_conditional_relative_jump}
use debug.Z80.Block.{inc_pair, dec_pair}
use debug.Z80.Decode.Operands.{
  noop, fetch_word, apply_op, ld_operand_n, ld_pair_nn, ld_mem_pair, ld_pair_mem,
}

-- LD (rr), A and LD A, (rr)
unfoldable pub ld_at_pair_a : Pair → Handler
ld_at_pair_a q m = mem_write (get_pair q m.cpu) m.cpu.a m

unfoldable pub ld_a_at_pair : Pair → Handler
ld_a_at_pair q m = on_cpu (λ cpu. record cpu { a = mem_read m (get_pair q cpu) }) m

-- RLCA, RRCA, RLA and RRA keep S, Z and P.
unfoldable pub rotate_a : ByteOp → Cpu → Cpu
rotate_a op cpu =
    let (v, f) = op cpu.a cpu.flags in
    record cpu { a = v; flags = record f { s = cpu.flags.s; z = cpu.flags.z; p = cpu.flags.p } }

-- EX AF, AF'
unfoldable pub ex_af : Cpu → Cpu
unfolding set_flags_from_byte flags_to_byte
ex_af cpu = record cpu {
  a = cpu.a_prime;
  a_prime = cpu.a;
  flags = set_flags_from_byte (flags_to_byte cpu.flags_prime);
  flags_prime = set_flags_from_byte (flags_to_byte cpu.flags);
}

unfoldable pub djnz : Handler
djnz m =
    let m' = on_cpu (λ cpu. record cpu { b = byte (int_sub cpu.b 1) }) m in
    do_conditional_relative_jump (not (m'.cpu.b == 0)) m'

unfoldable pub cpl : Cpu → Cpu
unfolding update_xy_flags
cpl cpu =
    let result = 255 - cpu.a in
    record cpu { a = result; flags = update_xy_flags result (record (cpu.flags) { n = 1; h = 1 }) }

unfoldable pub scf : Cpu → Cpu
unfolding update_xy_flags
scf cpu = record cpu { flags = update_xy_flags cpu.a (record (cpu.flags) { n = 0; h = 0; c = 1 }) }

unfoldable pub ccf : Cpu → Cpu
unfolding update_xy_flags
ccf cpu = record cpu {
  flags =
      update_xy_flags cpu.a
        (record (cpu.flags) { n = 0; h = cpu.flags.c; c = flag (cpu.flags.c == 0) });
}

unfoldable pub ld_sp_nn : Handler
unfolding operand_word
ld_sp_nn m = skip 2 (on_cpu (set_sp (operand_word m)) m)

unfoldable pub ld_mem_a : Handler
unfolding fetch_word
ld_mem_a m = let (address, m') = fetch_word m in mem_write address m'.cpu.a m'

unfoldable pub ld_a_mem : Handler
unfolding fetch_word
ld_a_mem m =
    let (address, m') = fetch_word m in on_cpu (λ cpu. record cpu { a = mem_read m' address }) m'

abbrev pub inc : Option Reg → Handler
inc = apply_op do_inc

abbrev pub dec : Option Reg → Handler
dec = apply_op do_dec

abbrev pub add_hl : (Cpu → ℕ) → Handler
add_hl value = on_cpu λ cpu. do_hl_add (value cpu) cpu

abbrev pub row_0 : List Handler
row_0 =
    noop
    ∷ ld_pair_nn Pair.bc
    ∷ ld_at_pair_a Pair.bc
    ∷ on_cpu (inc_pair Pair.bc)
    ∷ inc (some Reg.b)
    ∷ dec (some Reg.b)
    ∷ ld_operand_n (some Reg.b)
    ∷ on_cpu (rotate_a do_rlc)
    ∷ on_cpu ex_af
    ∷ add_hl (get_pair Pair.bc)
    ∷ ld_a_at_pair Pair.bc
    ∷ on_cpu (dec_pair Pair.bc)
    ∷ inc (some Reg.c)
    ∷ dec (some Reg.c)
    ∷ ld_operand_n (some Reg.c)
    ∷ on_cpu (rotate_a do_rrc)
    ∷ []

abbrev pub row_1 : List Handler
row_1 =
    djnz
    ∷ ld_pair_nn Pair.de
    ∷ ld_at_pair_a Pair.de
    ∷ on_cpu (inc_pair Pair.de)
    ∷ inc (some Reg.d)
    ∷ dec (some Reg.d)
    ∷ ld_operand_n (some Reg.d)
    ∷ on_cpu (rotate_a do_rl)
    ∷ relative_jump
    ∷ add_hl (get_pair Pair.de)
    ∷ ld_a_at_pair Pair.de
    ∷ on_cpu (dec_pair Pair.de)
    ∷ inc (some Reg.e)
    ∷ dec (some Reg.e)
    ∷ ld_operand_n (some Reg.e)
    ∷ on_cpu (rotate_a do_rr)
    ∷ []

abbrev pub row_2 : List Handler
row_2 =
    (λ m. do_conditional_relative_jump (m.cpu.flags.z == 0) m)
    ∷ ld_pair_nn Pair.hl
    ∷ ld_mem_pair Pair.hl
    ∷ on_cpu (inc_pair Pair.hl)
    ∷ inc (some Reg.h)
    ∷ dec (some Reg.h)
    ∷ ld_operand_n (some Reg.h)
    ∷ on_cpu daa
    ∷ (λ m. do_conditional_relative_jump (not (m.cpu.flags.z == 0)) m)
    ∷ add_hl (get_pair Pair.hl)
    ∷ ld_pair_mem Pair.hl
    ∷ on_cpu (dec_pair Pair.hl)
    ∷ inc (some Reg.l)
    ∷ dec (some Reg.l)
    ∷ ld_operand_n (some Reg.l)
    ∷ on_cpu cpl
    ∷ []

abbrev pub row_3 : List Handler
row_3 =
    (λ m. do_conditional_relative_jump (m.cpu.flags.c == 0) m)
    ∷ ld_sp_nn
    ∷ ld_mem_a
    ∷ on_cpu (λ cpu. set_sp (word (cpu.sp + 1)) cpu)
    ∷ inc none
    ∷ dec none
    ∷ ld_operand_n none
    ∷ on_cpu scf
    ∷ (λ m. do_conditional_relative_jump (not (m.cpu.flags.c == 0)) m)
    ∷ add_hl (λ cpu. cpu.sp)
    ∷ ld_a_mem
    ∷ on_cpu (λ cpu. set_sp (word (int_sub cpu.sp 1)) cpu)
    ∷ inc (some Reg.a)
    ∷ dec (some Reg.a)
    ∷ ld_operand_n (some Reg.a)
    ∷ on_cpu ccf
    ∷ []
