-- ===== src/Azm/Laws/Meaning.antt =====
-- What an instruction does to the machine, read off its mnemonic and its operands.
pub mod Core
pub mod Indexed
pub mod Operations
pub mod Transfers
use debug.Base.{ℕ, ◌+◌, ◌==◌, Bool, true, not, Option, none, some, word, int_sub, inl, inr}
use debug.Z80.State.{Cpu}
use debug.Z80.Registers.{Reg, Pair, get_reg, set_reg, get_pair}
use debug.Z80.Hardware.{Machine, Handler, mem_read, mem_write, on_cpu}
use debug.Z80.Alu.{
  do_add, do_adc, do_sub, do_sbc, do_and, do_or, do_xor, do_cp, do_inc, do_dec, do_neg, daa,
}
use debug.Z80.Alu16.{do_hl_add, do_hl_adc, do_hl_sbc}
use debug.Z80.Rotate.{do_rlc, do_rrc, do_rl, do_rr}
use debug.Z80.Stack.{set_sp, push_word}
use debug.Z80.Jump.{
  jump, call, return, land_at, relative_jump, do_conditional_absolute_jump, do_conditional_call,
  do_conditional_return, do_conditional_relative_jump, do_reset,
}
use debug.Z80.Block.{
  do_ldi, do_ldd, do_cpi, do_cpd, do_ini, do_ind, do_outi, do_outd, repeat_while, bc_left,
  bc_left_unequal, b_left, inc_pair, dec_pair,
}
use debug.Z80.Decode.Operands.{
  noop, inc_r, fetch, get_operand, put_operand, apply_op, ld_operand_n, ld_pair_nn, ld_mem_pair,
  ld_pair_mem, alu_n,
}
use debug.Z80.Decode.Ed.{
  in_reg, in_none, out_value, out_reg, retn, set_imode, ld_a_i, ld_a_r, rrd, rld, ld_mem_sp,
  ld_sp_mem,
}
use debug.Z80.Decode.Primary.Low.{
  ld_at_pair_a, ld_a_at_pair, rotate_a, ex_af, djnz, cpl, scf, ccf, ld_sp_nn, ld_mem_a, ld_a_mem,
}
use debug.Z80.Decode.Primary.High.{
  pop_pair, push_pair, pop_af, push_af, out_n_a, in_a_n, exx, ex_sp_hl, ex_de_hl,
}
use debug.Azm.Instruction.{
  RelativeCondition, Condition, AluMnemonic, CoreMnemonic, HlAluMnemonic, IncDecMnemonic,
  StackMnemonic, Register8, Register16, SpecialRegister8, StackRegister16, RegisterIndirect,
  JumpIndirectRegister, ExchangeForm, InterruptMode, WordRegister, Operand, IncDecOperand, Port,
  OutSource, Instruction,
}
use debug.Azm.Encode.Codes.{as_condition}
use debug.Base.{inl, ltb, if◌then◌else◌}
use debug.Z80.Decode.Operands.{apply_op}
use debug.Z80.Decode.Dd.{op_indexed}
use debug.Azm.Instruction.{IndexRegister16, CbOperand, HlAluMnemonic}
use debug.Azm.Encode.Codes.{family}
use debug.Azm.Laws.Meaning.Indexed.{
  on_index, count_index, count_half, count_op, jump_index, add_index, rotate_op, bit_operation,
}
use debug.Azm.Laws.Meaning.Core.{extended, reg}
use debug.Azm.Laws.Meaning.Core.{
  reg, word_of, pair_of, holds, on_condition, alu_operation, extended, core_handler,
}
use debug.Azm.Laws.Meaning.Operations.{
  exchange_handler, mode_number, count_operation, count_word, stack_handler, alu_handler, add_words,
  input_handler, output_handler,
}
use debug.Azm.Laws.Meaning.Transfers.{transfer_handler}

-- What an instruction does; `none` for the bits and rotates of an indexed byte, whose opcode stands
-- behind the displacement, for those whose bit is an expression, and for two loads that are written
-- as one.
abbrev pub handler_of : Instruction → Option Handler
handler_of Instruction.nop = some noop
handler_of Instruction.ret = some return
handler_of (Instruction.ret_cc condition) = some (on_condition do_conditional_return condition)
handler_of (Instruction.core mnemonic) = some (core_handler mnemonic)
handler_of (Instruction.ex form) = exchange_handler form
handler_of (Instruction.im mode) = some (extended (set_imode (mode_number mode)))
handler_of (Instruction.rst vector) = some (do_reset vector)
handler_of (Instruction.inc_dec mnemonic (IncDecOperand.reg16 (WordRegister.reg16 register))) =
    some (on_cpu (count_word mnemonic register))
handler_of (Instruction.inc_dec mnemonic (IncDecOperand.reg16 (WordRegister.index16 register))) =
    some (on_index register (count_index mnemonic))
handler_of (Instruction.inc_dec mnemonic (IncDecOperand.reg_half_index register)) =
    some (on_index (family register) (count_half register (count_op mnemonic)))
handler_of (Instruction.inc_dec mnemonic (IncDecOperand.indexed register displacement)) =
    some (on_index register (op_indexed (count_op mnemonic)))
handler_of (Instruction.inc_dec mnemonic operand) = count_operation mnemonic operand
handler_of (Instruction.stack mnemonic register) = stack_handler mnemonic register
handler_of (Instruction.ld_a_imm value) = some (ld_operand_n (some Reg.a))
handler_of (Instruction.ld target source) = transfer_handler target source
handler_of (Instruction.input target port) = some (input_handler target port)
handler_of (Instruction.output port source) = some (output_handler port source)
handler_of (Instruction.alu mnemonic source) = alu_handler mnemonic source
handler_of (Instruction.alu16 HlAluMnemonic.add (WordRegister.index16 target) source) =
    add_index target source
handler_of (Instruction.rotate_shift mnemonic (CbOperand.reg8 register) none) =
    some (extended (apply_op (rotate_op mnemonic) (some (reg register))))
handler_of (Instruction.rotate_shift mnemonic CbOperand.hl_indirect none) =
    some (extended (apply_op (rotate_op mnemonic) none))
handler_of (Instruction.bit_like mnemonic (inl index) (CbOperand.reg8 register) none) =
    if ltb index 8
    then some (extended (bit_operation mnemonic index (some (reg register))))
    else none
handler_of (Instruction.bit_like mnemonic (inl index) CbOperand.hl_indirect none) =
    if ltb index 8 then some (extended (bit_operation mnemonic index none)) else none
handler_of
      (Instruction.alu16 mnemonic (WordRegister.reg16 Register16.hl) (WordRegister.reg16 source)) =
    some (add_words mnemonic source)
handler_of (Instruction.jp target) = some jump
handler_of (Instruction.jp_cc condition target) =
    some (on_condition do_conditional_absolute_jump condition)
handler_of (Instruction.jp_indirect JumpIndirectRegister.ix) =
    some (on_index IndexRegister16.ix jump_index)
handler_of (Instruction.jp_indirect JumpIndirectRegister.iy) =
    some (on_index IndexRegister16.iy jump_index)
handler_of (Instruction.jp_indirect JumpIndirectRegister.hl) =
    some (λ m. land_at (get_pair Pair.hl m.cpu) m)
handler_of (Instruction.call target) = some call
handler_of (Instruction.call_cc condition target) =
    some (on_condition do_conditional_call condition)
handler_of (Instruction.jr target) = some relative_jump
handler_of (Instruction.jr_cc condition target) =
    some (on_condition do_conditional_relative_jump (as_condition condition))
handler_of (Instruction.djnz target) = some djnz
handler_of instruction = none
