-- ===== src/Z80/Valid/Extended.antt =====
-- Every handler of the ED table keeps the ranges.
use debug.Base.{ℕ, ◌<◌, arith, All, All-concat, All-replicate, All-get_or, ◌◂◌, get_or, replicate}
use debug.Z80.Registers.{Reg, Pair, get_pair, get_reg}
use debug.Z80.Constants.{cycle_counts, cycle_counts_ed}
use debug.Z80.Hardware.{on_cpu}
use debug.Z80.Alu.{do_neg}
use debug.Z80.Alu16.{do_hl_adc, do_hl_sbc}
use debug.Z80.Block.{
  inc_pair, dec_pair, do_ldi, do_cpi, do_ini, do_outi, do_ldd, do_cpd, do_ind, do_outd, bc_left,
  bc_left_unequal, b_left,
}
use debug.Z80.Decode.Operands.{noop, inc_r, fetch}
use debug.Z80.Decode.Ed.{
  out_reg, set_imode, adc_pair, sbc_pair, neg, ld_a_i, ld_a_r, ed_row_4, ed_row_5, ed_row_6,
  ed_row_7, ed_row_a, ed_row_b, ed_rows, ed_instructions, ed_handler,
}
use debug.Z80.Valid.{Keeps}
use debug.Z80.Valid.Arithmetic.{do_neg-IsValidCpu, do_hl_adc-IsValidCpu, do_hl_sbc-IsValidCpu}
use debug.Z80.Valid.Memory.{
  on_cpu-Keeps, add_cycles-Keeps, fetch-IsValid, inc_r-IsValidCpu, return-Keeps,
}
use debug.Z80.Valid.Transfers.{ld_mem_pair-Keeps, ld_pair_mem-Keeps}
use debug.Z80.Valid.Blocks.{
  inc_pair-KeepsMove, dec_pair-KeepsMove, transfer-Keeps, compare_step-Keeps, input_step-Keeps,
  output_step-Keeps, repeat_while-Keeps, in_reg-Keeps, in_none-Keeps, out_value-Keeps, retn-Keeps,
  ld_a_i-IsValidCpu, ld_a_r-IsValidCpu, rrd-Keeps, rld-Keeps, ld_mem_sp-Keeps, ld_sp_mem-Keeps,
}

neg-Keeps : Keeps neg
neg-Keeps = on_cpu-Keeps do_neg do_neg-IsValidCpu

out_reg-Keeps : (r : Reg) → Keeps (out_reg r)
out_reg-Keeps r = out_value-Keeps (get_reg r)

adc_pair-Keeps : (q : Pair) → Keeps (adc_pair q)
adc_pair-Keeps q m v = record {
  cpu = do_hl_adc-IsValidCpu (get_pair q m.cpu) m.cpu v.cpu;
  memory = v.memory;
}

sbc_pair-Keeps : (q : Pair) → Keeps (sbc_pair q)
sbc_pair-Keeps q m v = record {
  cpu = do_hl_sbc-IsValidCpu (get_pair q m.cpu) m.cpu v.cpu;
  memory = v.memory;
}

set_imode-Keeps : (mode : ℕ) → mode < 3 → Keeps (set_imode mode)
set_imode-Keeps mode h m v = record { cpu = omega (arith, h, v.cpu); memory = v.memory }

ld_i_a-Keeps : Keeps (on_cpu (λ cpu. record cpu { i = cpu.a }))
ld_i_a-Keeps m v = record { cpu = omega (arith, v.cpu); memory = v.memory }

ld_r_a-Keeps : Keeps (on_cpu (λ cpu. record cpu { r = cpu.a }))
ld_r_a-Keeps m v = record { cpu = omega (arith, v.cpu); memory = v.memory }

pub noop-Keeps : Keeps noop
noop-Keeps m v = v

do_ldi-Keeps : Keeps do_ldi
unfolding do_ldi
do_ldi-Keeps = transfer-Keeps inc_pair inc_pair-KeepsMove

do_ldd-Keeps : Keeps do_ldd
unfolding do_ldd
do_ldd-Keeps = transfer-Keeps dec_pair dec_pair-KeepsMove

do_cpi-Keeps : Keeps do_cpi
unfolding do_cpi
do_cpi-Keeps = compare_step-Keeps inc_pair inc_pair-KeepsMove

do_cpd-Keeps : Keeps do_cpd
unfolding do_cpd
do_cpd-Keeps = compare_step-Keeps dec_pair dec_pair-KeepsMove

do_ini-Keeps : Keeps do_ini
unfolding do_ini
do_ini-Keeps = input_step-Keeps inc_pair inc_pair-KeepsMove

do_ind-Keeps : Keeps do_ind
unfolding do_ind
do_ind-Keeps = input_step-Keeps dec_pair dec_pair-KeepsMove

do_outi-Keeps : Keeps do_outi
unfolding do_outi
do_outi-Keeps = output_step-Keeps inc_pair inc_pair-KeepsMove

do_outd-Keeps : Keeps do_outd
unfolding do_outd
do_outd-Keeps = output_step-Keeps dec_pair dec_pair-KeepsMove

ed_row_4-Keeps : All Keeps ed_row_4
ed_row_4-Keeps =
    in_reg-Keeps Reg.b
    ◂ out_reg-Keeps Reg.b
    ◂ sbc_pair-Keeps Pair.bc
    ◂ ld_mem_pair-Keeps Pair.bc
    ◂ neg-Keeps
    ◂ retn-Keeps
    ◂ set_imode-Keeps 0 (omega arith)
    ◂ ld_i_a-Keeps
    ◂ in_reg-Keeps Reg.c
    ◂ out_reg-Keeps Reg.c
    ◂ adc_pair-Keeps Pair.bc
    ◂ ld_pair_mem-Keeps Pair.bc
    ◂ neg-Keeps
    ◂ return-Keeps
    ◂ set_imode-Keeps 0 (omega arith)
    ◂ ld_r_a-Keeps
    ◂ tt

ed_row_5-Keeps : All Keeps ed_row_5
ed_row_5-Keeps =
    in_reg-Keeps Reg.d
    ◂ out_reg-Keeps Reg.d
    ◂ sbc_pair-Keeps Pair.de
    ◂ ld_mem_pair-Keeps Pair.de
    ◂ neg-Keeps
    ◂ retn-Keeps
    ◂ set_imode-Keeps 1 (omega arith)
    ◂ on_cpu-Keeps ld_a_i ld_a_i-IsValidCpu
    ◂ in_reg-Keeps Reg.e
    ◂ out_reg-Keeps Reg.e
    ◂ adc_pair-Keeps Pair.de
    ◂ ld_pair_mem-Keeps Pair.de
    ◂ neg-Keeps
    ◂ retn-Keeps
    ◂ set_imode-Keeps 2 (omega arith)
    ◂ on_cpu-Keeps ld_a_r ld_a_r-IsValidCpu
    ◂ tt

ed_row_6-Keeps : All Keeps ed_row_6
ed_row_6-Keeps =
    in_reg-Keeps Reg.h
    ◂ out_reg-Keeps Reg.h
    ◂ sbc_pair-Keeps Pair.hl
    ◂ ld_mem_pair-Keeps Pair.hl
    ◂ neg-Keeps
    ◂ retn-Keeps
    ◂ set_imode-Keeps 0 (omega arith)
    ◂ rrd-Keeps
    ◂ in_reg-Keeps Reg.l
    ◂ out_reg-Keeps Reg.l
    ◂ adc_pair-Keeps Pair.hl
    ◂ ld_pair_mem-Keeps Pair.hl
    ◂ neg-Keeps
    ◂ retn-Keeps
    ◂ set_imode-Keeps 0 (omega arith)
    ◂ rld-Keeps
    ◂ tt

sbc_sp-Keeps : Keeps (on_cpu (λ cpu. do_hl_sbc cpu.sp cpu))
sbc_sp-Keeps m v = record { cpu = do_hl_sbc-IsValidCpu m.cpu.sp m.cpu v.cpu; memory = v.memory }

adc_sp-Keeps : Keeps (on_cpu (λ cpu. do_hl_adc cpu.sp cpu))
adc_sp-Keeps m v = record { cpu = do_hl_adc-IsValidCpu m.cpu.sp m.cpu v.cpu; memory = v.memory }

ed_row_7-Keeps : All Keeps ed_row_7
ed_row_7-Keeps =
    in_none-Keeps
    ◂ out_value-Keeps (λ _. 0)
    ◂ sbc_sp-Keeps
    ◂ ld_mem_sp-Keeps
    ◂ neg-Keeps
    ◂ retn-Keeps
    ◂ set_imode-Keeps 1 (omega arith)
    ◂ noop-Keeps
    ◂ in_reg-Keeps Reg.a
    ◂ out_reg-Keeps Reg.a
    ◂ adc_sp-Keeps
    ◂ ld_sp_mem-Keeps
    ◂ neg-Keeps
    ◂ retn-Keeps
    ◂ set_imode-Keeps 2 (omega arith)
    ◂ noop-Keeps
    ◂ tt

ed_row_a-Keeps : All Keeps ed_row_a
ed_row_a-Keeps =
    do_ldi-Keeps ◂ do_cpi-Keeps ◂ do_ini-Keeps ◂ do_outi-Keeps ◂ noop-Keeps ◂ noop-Keeps
    ◂ noop-Keeps ◂ noop-Keeps ◂ do_ldd-Keeps ◂ do_cpd-Keeps ◂ do_ind-Keeps ◂ do_outd-Keeps
    ◂ noop-Keeps ◂ noop-Keeps ◂ noop-Keeps ◂ noop-Keeps ◂ tt

ed_row_b-Keeps : All Keeps ed_row_b
ed_row_b-Keeps =
    repeat_while-Keeps bc_left _ do_ldi-Keeps
    ◂ repeat_while-Keeps bc_left_unequal _ do_cpi-Keeps
    ◂ repeat_while-Keeps b_left _ do_ini-Keeps
    ◂ repeat_while-Keeps b_left _ do_outi-Keeps
    ◂ noop-Keeps
    ◂ noop-Keeps
    ◂ noop-Keeps
    ◂ noop-Keeps
    ◂ repeat_while-Keeps bc_left _ do_ldd-Keeps
    ◂ repeat_while-Keeps bc_left_unequal _ do_cpd-Keeps
    ◂ repeat_while-Keeps b_left _ do_ind-Keeps
    ◂ repeat_while-Keeps b_left _ do_outd-Keeps
    ◂ noop-Keeps
    ◂ noop-Keeps
    ◂ noop-Keeps
    ◂ noop-Keeps
    ◂ tt

pub noops-Keeps : (n : ℕ) → All Keeps (replicate n noop)
noops-Keeps n = All-replicate Keeps n noop noop-Keeps

ed_instructions-Keeps : All Keeps ed_instructions
unfolding ed_instructions
ed_instructions-Keeps = All-concat Keeps ed_rows rows-Keeps
  where
    rows-Keeps : All (All Keeps) ed_rows
    rows-Keeps =
        noops-Keeps 0x40
        ◂ ed_row_4-Keeps
        ◂ ed_row_5-Keeps
        ◂ ed_row_6-Keeps
        ◂ ed_row_7-Keeps
        ◂ noops-Keeps 0x20
        ◂ ed_row_a-Keeps
        ◂ ed_row_b-Keeps
        ◂ noops-Keeps 0x40
        ◂ tt

pub ed_handler-Keeps : Keeps ed_handler
unfolding ed_handler
ed_handler-Keeps m v =
    let m1 = on_cpu inc_r m in
    let opcode1 = (fetch m1).0 in
    add_cycles-Keeps (get_or cycle_counts_ed opcode1 (get_or cycle_counts 0 0)) _ (
      All-get_or Keeps ed_instructions opcode1 noop ed_instructions-Keeps noop-Keeps (fetch m1).1
        (fetch-IsValid m1 (on_cpu-Keeps inc_r inc_r-IsValidCpu m v)))
