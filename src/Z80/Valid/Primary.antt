-- ===== src/Z80/Valid/Primary.antt =====
-- Every handler of the primary table keeps the ranges, and so does the direct decoder.
mod Low
mod High
use debug.Base.{
  ℕ, ◌+◌, ◌-◌, ◌/◌, ◌%◌, ◌<◌, arith, All, All-concat, All-get_or, ◌◂◌, Bool, true, none, some,
  Option, get_or, byte, word, high, pair, int_sub, ◌==◌, not, ltb, leb, ◌&&◌, List, [], ◌∷◌,
}
use debug.Z80.State.{Flags, Cpu}
use debug.Z80.Flags.{set_flags_from_byte, set_flags_register, flags_to_byte}
use debug.Z80.Registers.{Reg, Pair, get_pair, get_reg, set_reg, set_pair}
use debug.Z80.Constants.{cycle_counts}
use debug.Z80.Hardware.{Machine, Handler, mem_read, mem_write, io_read, on_cpu}
use debug.Z80.Alu.{
  do_add, do_adc, do_sub, do_sbc, do_and, do_xor, do_or, do_cp, do_inc, do_dec, daa,
}
use debug.Z80.Alu16.{do_hl_add}
use debug.Z80.Rotate.{ByteOp, do_rlc, do_rrc, do_rl, do_rr}
use debug.Z80.Stack.{pop_word}
use debug.Z80.Jump.{skip, do_conditional_relative_jump}
use debug.Z80.Block.{inc_pair, dec_pair}
use debug.Z80.Decode.Operands.{noop, operand_reg, get_operand, fetch, fetch_word}
use debug.Z80.Decode.Primary.{rows, instructions, alu_op, primary_operation, execute_primary_opcode}
use debug.Z80.Decode.Primary.Low.{
  ld_at_pair_a, ld_a_at_pair, rotate_a, ex_af, djnz, cpl, scf, ccf, ld_sp_nn, ld_mem_a, ld_a_mem,
  inc, dec, add_hl, row_0, row_1, row_2, row_3,
}
use debug.Z80.Decode.Primary.High.{
  pop_pair, push_pair, pop_af, push_af, out_n_a, in_a_n, exx, ex_sp_hl, ex_de_hl, jp, call_if,
  ret_if, if_nz, if_z, if_nc, if_c, if_po, if_pe, if_p, if_m, row_c, row_d, row_e, row_f,
}
use debug.Z80.Valid.{IsValidFlags, IsValidCpu, IsValid, Keeps, KeepsCpu}
use debug.Z80.Valid.Registers.{get_reg-lt, set_reg-IsValidCpu, get_pair-lt, set_pair-IsValidCpu}
use debug.Z80.Valid.Arithmetic.{
  KeepsByte, set_flags_from_byte-IsValidFlags, do_add-IsValidCpu, do_adc-IsValidCpu,
  do_sub-IsValidCpu, do_sbc-IsValidCpu, do_and-IsValidCpu, do_xor-IsValidCpu, do_or-IsValidCpu,
  do_cp-IsValidCpu, do_hl_add-IsValidCpu, do_inc-KeepsByte, do_dec-KeepsByte, do_rlc-KeepsByte,
  do_rrc-KeepsByte, do_rl-KeepsByte, do_rr-KeepsByte, daa-IsValidCpu,
}
use debug.Z80.Valid.Memory.{
  mem_read-lt, on_cpu-Keeps, mem_write-Keeps, io_read-IsValid, io_read-lt, io_write-Keeps,
  skip-Keeps, add_cycles-Keeps, fetch-IsValid, fetch_word-IsValid, push_word-Keeps,
  pop_word-IsValid, land_at-Keeps, jump-Keeps, relative_jump-Keeps, call-Keeps, return-Keeps,
  do_reset-Keeps, if-IsValid, operand_word-lt, do_conditional_absolute_jump-Keeps,
  do_conditional_relative_jump-Keeps, do_conditional_call-Keeps, do_conditional_return-Keeps,
}
use debug.Z80.Valid.Transfers.{
  set_flags-IsValid, set_reg-IsValid, get_operand-lt, put_operand-IsValid, apply_op-Keeps,
  ld_operand_n-Keeps, ld_pair_nn-Keeps, ld_mem_pair-Keeps, ld_pair_mem-Keeps, alu_n-Keeps,
  cb_handler-Keeps,
}
use debug.Z80.Valid.Blocks.{inc_pair-KeepsMove, dec_pair-KeepsMove}
use debug.Z80.Valid.Extended.{noop-Keeps, noops-Keeps, ed_handler-Keeps}
use debug.Z80.Valid.IndexTable.{dd_handler-Keeps, fd_handler-Keeps}
use debug.Z80.Valid.Primary.Low.{row_0-Keeps, row_1-Keeps, row_2-Keeps, row_3-Keeps}
use debug.Z80.Valid.Primary.High.{row_c-Keeps, row_d-Keeps, row_e-Keeps, row_f-Keeps}

rows-Keeps : All (All Keeps) rows
rows-Keeps =
    row_0-Keeps
    ◂ row_1-Keeps
    ◂ row_2-Keeps
    ◂ row_3-Keeps
    ◂ noops-Keeps 0x80
    ◂ row_c-Keeps
    ◂ row_d-Keeps
    ◂ row_e-Keeps
    ◂ row_f-Keeps
    ◂ tt

entry-Keeps : (opcode : ℕ) → Keeps (get_or instructions opcode noop)
unfolding instructions
entry-Keeps opcode =
    All-get_or Keeps instructions opcode noop (All-concat Keeps rows rows-Keeps) noop-Keeps

alu_op-Keeps : (i operand : ℕ) → KeepsCpu (alu_op i operand)
unfolding alu_op
alu_op-Keeps i operand =
    All-get_or (λ (op : ℕ → Cpu → Cpu). (n : ℕ) → KeepsCpu (op n))
      (do_add ∷ do_adc ∷ do_sub ∷ do_sbc ∷ do_and ∷ do_xor ∷ do_or ∷ do_cp ∷ []) i (λ n cpu. cpu)
      (do_add-IsValidCpu ◂ do_adc-IsValidCpu ◂ do_sub-IsValidCpu ◂ do_sbc-IsValidCpu
        ◂ do_and-IsValidCpu ◂ do_xor-IsValidCpu ◂ do_or-IsValidCpu ◂ do_cp-IsValidCpu ◂ tt)
      (λ n cpu v. v) operand

halt-Keeps : Keeps (on_cpu (λ cpu. record cpu { halted = true }))
halt-Keeps m v = record { cpu = omega (arith, v.cpu); memory = v.memory }

primary_operation-Keeps : (opcode : ℕ) → Keeps (primary_operation opcode)
unfolding primary_operation
primary_operation-Keeps opcode m v = if-IsValid (opcode == 0x76) (halt-Keeps m v) (
    if-IsValid (leb 0x40 opcode && ltb opcode 0x80)
      (put_operand-IsValid (operand_reg (opcode / 8 % 8)) _ m operand-lt v)
      (if-IsValid (leb 0x80 opcode && ltb opcode 0xc0)
        (on_cpu-Keeps _ (alu_op-Keeps (opcode / 8 % 8) operand) m v) (entry-Keeps opcode m v)))
  where
    operand : ℕ
    operand = get_operand (operand_reg (opcode % 8)) m

    operand-lt : operand < 256
    operand-lt = get_operand-lt (operand_reg (opcode % 8)) m v

pub execute_primary_opcode-Keeps : (opcode : ℕ) → Keeps (execute_primary_opcode opcode)
unfolding execute_primary_opcode
execute_primary_opcode-Keeps opcode m v =
    add_cycles-Keeps (get_or cycle_counts opcode 0) _ (primary_operation-Keeps opcode m v)
