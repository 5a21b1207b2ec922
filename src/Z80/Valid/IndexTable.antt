-- ===== src/Z80/Valid/IndexTable.antt =====
-- Every handler of the DD table keeps the ranges, and so do the DD and FD prefixes.
use debug.Base.{
  ℕ, ◌+◌, arith, All, All-concat, All-get_or, ◌◂◌, [], ◌∷◌, ◌++◌, concat, replicate, get_or, high,
  byte, word, int_sub, ◌/◌,
}
use debug.Z80.State.{Cpu}
use debug.Z80.Registers.{Reg, Pair, get_pair}
use debug.Z80.Hardware.{Handler, on_cpu}
use debug.Z80.Alu.{do_add, do_adc, do_sub, do_sbc, do_and, do_xor, do_or, do_cp, do_inc, do_dec}
use debug.Z80.Decode.Operands.{noop, inc_r, fetch}
use debug.Z80.Decode.Ddcb.{ddcb_handler}
use debug.Z80.Decode.Dd.{
  set_ix, set_ixh, set_ixl, op_ixh, op_ixl, add_ix, ld_reg_ixh, ld_reg_ixl, ld_ixh_reg, ld_ixl_reg,
  alu_ixh, alu_ixl, alu_row, ld_row, dd_row_2, dd_row_3, dd_row_6, dd_row_7, dd_row_c, dd_row_e,
  dd_rows, dd_instructions, dd_cycles, dd_handler, fd_handler,
}
use debug.Z80.Valid.{IsValid, Keeps, KeepsCpu}
use debug.Z80.Valid.Registers.{get_reg-lt, set_reg-IsValidCpu}
use debug.Z80.Valid.Arithmetic.{
  do_add-IsValidCpu, do_adc-IsValidCpu, do_sub-IsValidCpu, do_sbc-IsValidCpu, do_and-IsValidCpu,
  do_xor-IsValidCpu, do_or-IsValidCpu, do_cp-IsValidCpu, do_ix_add-IsValidCpu, do_inc-KeepsByte,
  do_dec-KeepsByte,
}
use debug.Z80.Valid.Memory.{
  on_cpu-Keeps, add_cycles-Keeps, fetch-IsValid, inc_r-IsValidCpu, push_word-Keeps, land_at-Keeps,
}
use debug.Z80.Valid.Transfers.{ddcb_handler-Keeps}
use debug.Z80.Valid.Indexed.{
  ld_ix_nn-Keeps, ld_mem_ix-Keeps, ld_ix_mem-Keeps, op_ixh-IsValidCpu, op_ixl-IsValidCpu,
  ld_ixh_n-Keeps, ld_ixl_n-Keeps, op_indexed-Keeps, ld_indexed_n-Keeps, ld_reg_indexed-Keeps,
  ld_indexed_reg-Keeps, alu_indexed-Keeps, pop_ix-Keeps, ex_sp_ix-Keeps,
}
use debug.Z80.Valid.Extended.{noop-Keeps, noops-Keeps}

add_ix-Keeps : (value : Cpu → ℕ) → Keeps (add_ix value)
add_ix-Keeps value m v = record {
  cpu = do_ix_add-IsValidCpu (value m.cpu) m.cpu v.cpu;
  memory = v.memory;
}

ld_reg_ixh-Keeps : (r : Reg) → Keeps (ld_reg_ixh r)
ld_reg_ixh-Keeps r m v = record {
  cpu = set_reg-IsValidCpu r _ m.cpu (omega arith) v.cpu;
  memory = v.memory;
}

ld_reg_ixl-Keeps : (r : Reg) → Keeps (ld_reg_ixl r)
ld_reg_ixl-Keeps r m v = record {
  cpu = set_reg-IsValidCpu r _ m.cpu (omega arith) v.cpu;
  memory = v.memory;
}

ld_ixh_reg-Keeps : (r : Reg) → Keeps (ld_ixh_reg r)
ld_ixh_reg-Keeps r m v = record {
  cpu = omega (arith, get_reg-lt r m.cpu v.cpu, v.cpu);
  memory = v.memory;
}

ld_ixl_reg-Keeps : (r : Reg) → Keeps (ld_ixl_reg r)
ld_ixl_reg-Keeps r m v = record {
  cpu = omega (arith, get_reg-lt r m.cpu v.cpu, v.cpu);
  memory = v.memory;
}

module _ (op : ℕ → Cpu → Cpu) (keep : (n : ℕ) → KeepsCpu (op n)) where
  alu_ixh-Keeps : Keeps (alu_ixh op)
  alu_ixh-Keeps m v = record { cpu = keep (high m.cpu.ix) m.cpu v.cpu; memory = v.memory }

  alu_ixl-Keeps : Keeps (alu_ixl op)
  alu_ixl-Keeps m v = record { cpu = keep (byte m.cpu.ix) m.cpu v.cpu; memory = v.memory }

  alu_row-Keeps : All Keeps (alu_row op)
  alu_row-Keeps =
      noop-Keeps
      ◂ noop-Keeps
      ◂ noop-Keeps
      ◂ noop-Keeps
      ◂ alu_ixh-Keeps
      ◂ alu_ixl-Keeps
      ◂ alu_indexed-Keeps op keep
      ◂ noop-Keeps
      ◂ tt

ld_row-Keeps : (r : Reg) → All Keeps (ld_row r)
ld_row-Keeps r =
    noop-Keeps
    ◂ noop-Keeps
    ◂ noop-Keeps
    ◂ noop-Keeps
    ◂ ld_reg_ixh-Keeps r
    ◂ ld_reg_ixl-Keeps r
    ◂ ld_reg_indexed-Keeps r
    ◂ noop-Keeps
    ◂ tt

-- IX stepped by one, and its halves copied into one another.
inc_ix-Keeps : Keeps (on_cpu (λ cpu. set_ix (word (cpu.ix + 1)) cpu))
inc_ix-Keeps m v = record { cpu = omega (arith, v.cpu); memory = v.memory }

dec_ix-Keeps : Keeps (on_cpu (λ cpu. set_ix (word (int_sub cpu.ix 1)) cpu))
dec_ix-Keeps m v = record { cpu = omega (arith, v.cpu); memory = v.memory }

ld_ixh_ixl-Keeps : Keeps (on_cpu (λ cpu. set_ixh (byte cpu.ix) cpu))
ld_ixh_ixl-Keeps m v = record { cpu = omega (arith, v.cpu); memory = v.memory }

ld_ixl_ixh-Keeps : Keeps (on_cpu (λ cpu. set_ixl (cpu.ix / 256) cpu))
ld_ixl_ixh-Keeps m v = record { cpu = omega (arith, v.cpu); memory = v.memory }

ld_sp_ix-Keeps : Keeps (on_cpu (λ cpu. record cpu { sp = cpu.ix }))
ld_sp_ix-Keeps m v = record { cpu = omega (arith, v.cpu); memory = v.memory }

six_noops-Keeps : All Keeps (noop ∷ noop ∷ noop ∷ noop ∷ noop ∷ noop ∷ [])
six_noops-Keeps = noops-Keeps 6

nine_noops_then : (h : Handler) → Keeps h → All Keeps (replicate 9 noop ++ h ∷ replicate 6 noop)
nine_noops_then h keep =
    All-concat Keeps (replicate 9 noop ∷ (h ∷ replicate 6 noop) ∷ [])
      (noops-Keeps 9 ◂ (keep ◂ six_noops-Keeps) ◂ tt)

dd_row_2-Keeps : All Keeps dd_row_2
dd_row_2-Keeps =
    noop-Keeps
    ◂ ld_ix_nn-Keeps
    ◂ ld_mem_ix-Keeps
    ◂ inc_ix-Keeps
    ◂ on_cpu-Keeps (op_ixh do_inc) (op_ixh-IsValidCpu do_inc do_inc-KeepsByte)
    ◂ on_cpu-Keeps (op_ixh do_dec) (op_ixh-IsValidCpu do_dec do_dec-KeepsByte)
    ◂ ld_ixh_n-Keeps
    ◂ noop-Keeps
    ◂ noop-Keeps
    ◂ add_ix-Keeps (λ cpu. cpu.ix)
    ◂ ld_ix_mem-Keeps
    ◂ dec_ix-Keeps
    ◂ on_cpu-Keeps (op_ixl do_inc) (op_ixl-IsValidCpu do_inc do_inc-KeepsByte)
    ◂ on_cpu-Keeps (op_ixl do_dec) (op_ixl-IsValidCpu do_dec do_dec-KeepsByte)
    ◂ ld_ixl_n-Keeps
    ◂ noop-Keeps
    ◂ tt

dd_row_3-Keeps : All Keeps dd_row_3
dd_row_3-Keeps =
    noop-Keeps
    ◂ noop-Keeps
    ◂ noop-Keeps
    ◂ noop-Keeps
    ◂ op_indexed-Keeps do_inc do_inc-KeepsByte
    ◂ op_indexed-Keeps do_dec do_dec-KeepsByte
    ◂ ld_indexed_n-Keeps
    ◂ noop-Keeps
    ◂ noop-Keeps
    ◂ add_ix-Keeps (λ cpu. cpu.sp)
    ◂ six_noops-Keeps

dd_row_6-Keeps : All Keeps dd_row_6
dd_row_6-Keeps =
    ld_ixh_reg-Keeps Reg.b
    ◂ ld_ixh_reg-Keeps Reg.c
    ◂ ld_ixh_reg-Keeps Reg.d
    ◂ ld_ixh_reg-Keeps Reg.e
    ◂ noop-Keeps
    ◂ ld_ixh_ixl-Keeps
    ◂ ld_reg_indexed-Keeps Reg.h
    ◂ ld_ixh_reg-Keeps Reg.a
    ◂ ld_ixl_reg-Keeps Reg.b
    ◂ ld_ixl_reg-Keeps Reg.c
    ◂ ld_ixl_reg-Keeps Reg.d
    ◂ ld_ixl_reg-Keeps Reg.e
    ◂ ld_ixl_ixh-Keeps
    ◂ noop-Keeps
    ◂ ld_reg_indexed-Keeps Reg.l
    ◂ ld_ixl_reg-Keeps Reg.a
    ◂ tt

dd_row_7-Keeps : All Keeps dd_row_7
dd_row_7-Keeps =
    ld_indexed_reg-Keeps Reg.b
    ◂ ld_indexed_reg-Keeps Reg.c
    ◂ ld_indexed_reg-Keeps Reg.d
    ◂ ld_indexed_reg-Keeps Reg.e
    ◂ ld_indexed_reg-Keeps Reg.h
    ◂ ld_indexed_reg-Keeps Reg.l
    ◂ noop-Keeps
    ◂ ld_indexed_reg-Keeps Reg.a
    ◂ ld_row-Keeps Reg.a

dd_row_c-Keeps : All Keeps dd_row_c
dd_row_c-Keeps =
    All-concat Keeps (replicate 11 noop ∷ (ddcb_handler ∷ replicate 20 noop) ∷ [])
      (noops-Keeps 11 ◂ (ddcb_handler-Keeps ◂ noops-Keeps 20) ◂ tt)

dd_row_e-Keeps : All Keeps dd_row_e
dd_row_e-Keeps =
    noop-Keeps
    ◂ pop_ix-Keeps
    ◂ noop-Keeps
    ◂ ex_sp_ix-Keeps
    ◂ noop-Keeps
    ◂ (λ m. push_word-Keeps m.cpu.ix m)
    ◂ noop-Keeps
    ◂ noop-Keeps
    ◂ noop-Keeps
    ◂ (λ m. land_at-Keeps m.cpu.ix m)
    ◂ six_noops-Keeps

dd_rows-Keeps : All (All Keeps) dd_rows
dd_rows-Keeps =
    nine_noops_then _ (add_ix-Keeps (get_pair Pair.bc))
    ◂ nine_noops_then _ (add_ix-Keeps (get_pair Pair.de))
    ◂ dd_row_2-Keeps
    ◂ dd_row_3-Keeps
    ◂ ld_row-Keeps Reg.b
    ◂ ld_row-Keeps Reg.c
    ◂ ld_row-Keeps Reg.d
    ◂ ld_row-Keeps Reg.e
    ◂ dd_row_6-Keeps
    ◂ dd_row_7-Keeps
    ◂ alu_row-Keeps do_add do_add-IsValidCpu
    ◂ alu_row-Keeps do_adc do_adc-IsValidCpu
    ◂ alu_row-Keeps do_sub do_sub-IsValidCpu
    ◂ alu_row-Keeps do_sbc do_sbc-IsValidCpu
    ◂ alu_row-Keeps do_and do_and-IsValidCpu
    ◂ alu_row-Keeps do_xor do_xor-IsValidCpu
    ◂ alu_row-Keeps do_or do_or-IsValidCpu
    ◂ alu_row-Keeps do_cp do_cp-IsValidCpu
    ◂ dd_row_c-Keeps
    ◂ dd_row_e-Keeps
    ◂ nine_noops_then _ ld_sp_ix-Keeps
    ◂ tt

dd_entry-Keeps : (opcode1 : ℕ) → Keeps (get_or dd_instructions opcode1 noop)
unfolding dd_instructions
dd_entry-Keeps opcode1 =
    All-get_or Keeps (concat dd_rows) opcode1 noop (All-concat Keeps dd_rows dd_rows-Keeps)
      noop-Keeps

pub dd_handler-Keeps : Keeps dd_handler
unfolding dd_handler
dd_handler-Keeps m v =
    let m1 = on_cpu inc_r m in
    let opcode1 = (fetch m1).0 in
    add_cycles-Keeps (dd_cycles opcode1) _ (
      dd_entry-Keeps opcode1 (fetch m1).1
        (fetch-IsValid m1 (on_cpu-Keeps inc_r inc_r-IsValidCpu m v)))

pub fd_handler-Keeps : Keeps fd_handler
unfolding fd_handler
fd_handler-Keeps m v =
    let m1 = on_cpu inc_r m in
    let opcode1 = (fetch m1).0 in
    let v1 = fetch-IsValid m1 (on_cpu-Keeps inc_r inc_r-IsValidCpu m v) in
    let m2 = on_cpu (λ cpu. set_ix cpu.iy cpu) (fetch m1).1 in
    let v2 : IsValid m2 = record { cpu = omega (arith, v1.cpu); memory = v1.memory } in
    let v3 = dd_entry-Keeps opcode1 m2 v2 in
    record { cpu = omega (arith, v3.cpu, v1.cpu); memory = v3.memory }
