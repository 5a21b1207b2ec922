-- ===== src/Z80/Valid/Primary/Low.antt =====
-- The handlers of 0x00-0x3F keep the ranges.
use debug.Base.{ℕ, ◌+◌, arith, All, ◌◂◌, Bool, none, some, Option, word, int_sub, ◌==◌, not}
use debug.Z80.State.{Cpu}
use debug.Z80.Registers.{Reg, Pair, get_pair}
use debug.Z80.Hardware.{on_cpu}
use debug.Z80.Alu.{do_inc, do_dec, daa}
use debug.Z80.Rotate.{ByteOp, do_rlc, do_rrc, do_rl, do_rr}
use debug.Z80.Jump.{do_conditional_relative_jump}
use debug.Z80.Block.{inc_pair, dec_pair}
use debug.Z80.Decode.Operands.{fetch_word}
use debug.Z80.Decode.Primary.Low.{
  ld_at_pair_a, ld_a_at_pair, rotate_a, ex_af, djnz, cpl, scf, ccf, ld_sp_nn, ld_mem_a, ld_a_mem,
  inc, dec, add_hl, row_0, row_1, row_2, row_3,
}
use debug.Z80.Valid.{Keeps, KeepsCpu}
use debug.Z80.Valid.Arithmetic.{
  KeepsByte, do_hl_add-IsValidCpu, do_inc-KeepsByte, do_dec-KeepsByte, do_rlc-KeepsByte,
  do_rrc-KeepsByte, do_rl-KeepsByte, do_rr-KeepsByte, daa-IsValidCpu,
}
use debug.Z80.Valid.Memory.{
  mem_read-lt, on_cpu-Keeps, mem_write-Keeps, fetch_word-IsValid, relative_jump-Keeps,
  operand_word-lt, do_conditional_relative_jump-Keeps,
}
use debug.Z80.Valid.Transfers.{
  apply_op-Keeps, ld_operand_n-Keeps, ld_pair_nn-Keeps, ld_mem_pair-Keeps, ld_pair_mem-Keeps,
}
use debug.Z80.Valid.Blocks.{inc_pair-KeepsMove, dec_pair-KeepsMove}
use debug.Z80.Valid.Extended.{noop-Keeps}

ld_at_pair_a-Keeps : (q : Pair) → Keeps (ld_at_pair_a q)
unfolding ld_at_pair_a
ld_at_pair_a-Keeps q m v = mem_write-Keeps _ _ m v

ld_a_at_pair-Keeps : (q : Pair) → Keeps (ld_a_at_pair q)
unfolding ld_a_at_pair
ld_a_at_pair-Keeps q m v = record {
  cpu = omega (arith, mem_read-lt m (get_pair q m.cpu) v, v.cpu);
  memory = v.memory;
}

rotate_a-IsValidCpu : (op : ByteOp) → KeepsByte op → KeepsCpu (rotate_a op)
unfolding rotate_a
rotate_a-IsValidCpu op keep cpu v = omega (arith, v, keep cpu.a cpu.flags v.a v.flags)

ex_af-IsValidCpu : KeepsCpu ex_af
unfolding ex_af
ex_af-IsValidCpu cpu v = omega (arith, v)

djnz-Keeps : Keeps djnz
unfolding djnz
djnz-Keeps m v =
    do_conditional_relative_jump-Keeps _ _
      (record { cpu = omega (arith, v.cpu); memory = v.memory })

cpl-IsValidCpu : KeepsCpu cpl
unfolding cpl
cpl-IsValidCpu cpu v = omega (arith, v)

scf-IsValidCpu : KeepsCpu scf
unfolding scf
scf-IsValidCpu cpu v = omega (arith, v)

ccf-IsValidCpu : KeepsCpu ccf
unfolding ccf
ccf-IsValidCpu cpu v = ground arith

ld_sp_nn-Keeps : Keeps ld_sp_nn
unfolding ld_sp_nn
ld_sp_nn-Keeps m v = record { cpu = omega (arith, operand_word-lt m v, v.cpu); memory = v.memory }

ld_mem_a-Keeps : Keeps ld_mem_a
unfolding ld_mem_a
ld_mem_a-Keeps m v = mem_write-Keeps _ _ _ (fetch_word-IsValid m v)

ld_a_mem-Keeps : Keeps ld_a_mem
unfolding ld_a_mem
ld_a_mem-Keeps m v =
    let v' = fetch_word-IsValid m v in
    let low = mem_read-lt (fetch_word m).1 (fetch_word m).0 v' in
    record { cpu = omega (arith, low, v'.cpu); memory = v'.memory }

inc-Keeps : (target : Option Reg) → Keeps (inc target)
inc-Keeps target = apply_op-Keeps do_inc target do_inc-KeepsByte

dec-Keeps : (target : Option Reg) → Keeps (dec target)
dec-Keeps target = apply_op-Keeps do_dec target do_dec-KeepsByte

add_hl-Keeps : (value : Cpu → ℕ) → Keeps (add_hl value)
add_hl-Keeps value m v = record {
  cpu = do_hl_add-IsValidCpu (value m.cpu) m.cpu v.cpu;
  memory = v.memory;
}

inc_pair-Keeps : (q : Pair) → Keeps (on_cpu (inc_pair q))
inc_pair-Keeps q = on_cpu-Keeps (inc_pair q) (inc_pair-KeepsMove q)

dec_pair-Keeps : (q : Pair) → Keeps (on_cpu (dec_pair q))
dec_pair-Keeps q = on_cpu-Keeps (dec_pair q) (dec_pair-KeepsMove q)

jr-Keeps : (test : Cpu → Bool) → Keeps (λ m. do_conditional_relative_jump (test m.cpu) m)
jr-Keeps test m = do_conditional_relative_jump-Keeps (test m.cpu) m

inc_sp-Keeps : Keeps (on_cpu (λ cpu. record cpu { sp = word (cpu.sp + 1) }))
inc_sp-Keeps m v = record { cpu = omega (arith, v.cpu); memory = v.memory }

dec_sp-Keeps : Keeps (on_cpu (λ cpu. record cpu { sp = word (int_sub cpu.sp 1) }))
dec_sp-Keeps m v = record { cpu = omega (arith, v.cpu); memory = v.memory }

pub row_0-Keeps : All Keeps row_0
row_0-Keeps =
    noop-Keeps
    ◂ ld_pair_nn-Keeps Pair.bc
    ◂ ld_at_pair_a-Keeps Pair.bc
    ◂ inc_pair-Keeps Pair.bc
    ◂ inc-Keeps (some Reg.b)
    ◂ dec-Keeps (some Reg.b)
    ◂ ld_operand_n-Keeps (some Reg.b)
    ◂ on_cpu-Keeps (rotate_a do_rlc) (rotate_a-IsValidCpu do_rlc do_rlc-KeepsByte)
    ◂ on_cpu-Keeps ex_af ex_af-IsValidCpu
    ◂ add_hl-Keeps (get_pair Pair.bc)
    ◂ ld_a_at_pair-Keeps Pair.bc
    ◂ dec_pair-Keeps Pair.bc
    ◂ inc-Keeps (some Reg.c)
    ◂ dec-Keeps (some Reg.c)
    ◂ ld_operand_n-Keeps (some Reg.c)
    ◂ on_cpu-Keeps (rotate_a do_rrc) (rotate_a-IsValidCpu do_rrc do_rrc-KeepsByte)
    ◂ tt

pub row_1-Keeps : All Keeps row_1
row_1-Keeps =
    djnz-Keeps
    ◂ ld_pair_nn-Keeps Pair.de
    ◂ ld_at_pair_a-Keeps Pair.de
    ◂ inc_pair-Keeps Pair.de
    ◂ inc-Keeps (some Reg.d)
    ◂ dec-Keeps (some Reg.d)
    ◂ ld_operand_n-Keeps (some Reg.d)
    ◂ on_cpu-Keeps (rotate_a do_rl) (rotate_a-IsValidCpu do_rl do_rl-KeepsByte)
    ◂ relative_jump-Keeps
    ◂ add_hl-Keeps (get_pair Pair.de)
    ◂ ld_a_at_pair-Keeps Pair.de
    ◂ dec_pair-Keeps Pair.de
    ◂ inc-Keeps (some Reg.e)
    ◂ dec-Keeps (some Reg.e)
    ◂ ld_operand_n-Keeps (some Reg.e)
    ◂ on_cpu-Keeps (rotate_a do_rr) (rotate_a-IsValidCpu do_rr do_rr-KeepsByte)
    ◂ tt

pub row_2-Keeps : All Keeps row_2
row_2-Keeps =
    jr-Keeps (λ cpu. cpu.flags.z == 0)
    ◂ ld_pair_nn-Keeps Pair.hl
    ◂ ld_mem_pair-Keeps Pair.hl
    ◂ inc_pair-Keeps Pair.hl
    ◂ inc-Keeps (some Reg.h)
    ◂ dec-Keeps (some Reg.h)
    ◂ ld_operand_n-Keeps (some Reg.h)
    ◂ on_cpu-Keeps daa daa-IsValidCpu
    ◂ jr-Keeps (λ cpu. not (cpu.flags.z == 0))
    ◂ add_hl-Keeps (get_pair Pair.hl)
    ◂ ld_pair_mem-Keeps Pair.hl
    ◂ dec_pair-Keeps Pair.hl
    ◂ inc-Keeps (some Reg.l)
    ◂ dec-Keeps (some Reg.l)
    ◂ ld_operand_n-Keeps (some Reg.l)
    ◂ on_cpu-Keeps cpl cpl-IsValidCpu
    ◂ tt

pub row_3-Keeps : All Keeps row_3
row_3-Keeps =
    jr-Keeps (λ cpu. cpu.flags.c == 0)
    ◂ ld_sp_nn-Keeps
    ◂ ld_mem_a-Keeps
    ◂ inc_sp-Keeps
    ◂ inc-Keeps none
    ◂ dec-Keeps none
    ◂ ld_operand_n-Keeps none
    ◂ on_cpu-Keeps scf scf-IsValidCpu
    ◂ jr-Keeps (λ cpu. not (cpu.flags.c == 0))
    ◂ add_hl-Keeps (λ cpu. cpu.sp)
    ◂ ld_a_mem-Keeps
    ◂ dec_sp-Keeps
    ◂ inc-Keeps (some Reg.a)
    ◂ dec-Keeps (some Reg.a)
    ◂ ld_operand_n-Keeps (some Reg.a)
    ◂ on_cpu-Keeps ccf ccf-IsValidCpu
    ◂ tt
