-- ===== src/Azm/Laws/Encoding.antt =====
-- Each instruction of the assembler, encoded and executed.
pub mod Obligation
pub mod Operations
pub mod Transfers
pub mod Bits
use debug.Base.{
  ℕ, ◌≡◌, ◌==◌, ==_iff, refl, sym, subst, if◌then◌else◌, true, false, Option, none, some, List, [],
  ◌∷◌,
}
use debug.Z80.Hardware.{Machine, Handler}
use debug.Z80.Jump.{do_reset}
use debug.Z80.Decode.Primary.{instructions, primary_operation}
use debug.Z80.Decode.Operands.{operand_reg, get_operand, put_operand}
use debug.Z80.Decode.Ed.{ed_instructions}
use debug.Z80.Decode.Dd.{dd_instructions}
use debug.Azm.Laws.Execution.{double_dd, double_fd}
use debug.Azm.Laws.Encoding.Bits.{rotate-IsMet, bit-IsMet}
use debug.Z80.Processor.{execute}
use debug.Z80.Laws.Opcodes.{run}
use debug.Azm.Instruction.{
  AluMnemonic, CoreMnemonic, HlAluMnemonic, IncDecMnemonic, StackMnemonic, Register8, Register16,
  SpecialRegister8, StackRegister16, RegisterIndirect, JumpIndirectRegister, ExchangeForm,
  InterruptMode, WordRegister, Operand, IncDecOperand, Port, OutSource, Fragment, Instruction,
  Encoded, Outcome,
}
use debug.Azm.Encode.{encode_z80_instruction}
use debug.Azm.Encode.Ld.{encode_ld, first_ld_encoding}
use debug.Azm.Encode.Words.{encode_rst}
use debug.Azm.Laws.Meaning.{handler_of}
use debug.Azm.Laws.Execution.{Executes, StoredAt, single, double}
use debug.Azm.Laws.Execution.Branches.{
  ret_cc-Performs, jp_cc-Performs, call_cc-Performs, jr_cc-Performs,
}
use debug.Azm.Laws.Execution.Bytes.{
  copy-Performs, load-Performs, store-Performs, load_n-Performs, operate-Performs,
  operate_hl-Performs, operate_n-Performs,
}
use debug.Azm.Laws.Encoding.Obligation.{leading_bytes, Meets, IsMet}
use debug.Azm.Laws.Encoding.Operations.{
  core-IsMet, exchange-IsMet, mode-IsMet, count-IsMet, stack-IsMet, input-IsMet, output-IsMet,
  add_words-IsMet, alu-IsMet, rst-IsMet,
}
use debug.Azm.Laws.Encoding.Transfers.{transfer-IsMet}

instruction-IsMet : (i : Instruction) → IsMet i
unfolding encode_z80_instruction primary_operation instructions ed_instructions dd_instructions
instruction-IsMet Instruction.nop = single _ _ refl
instruction-IsMet Instruction.ret = single _ _ refl
instruction-IsMet (Instruction.ret_cc condition) = single _ _ (ret_cc-Performs condition)
instruction-IsMet (Instruction.core mnemonic) = core-IsMet mnemonic
instruction-IsMet (Instruction.ex form) = exchange-IsMet form
instruction-IsMet (Instruction.im mode) = mode-IsMet mode
instruction-IsMet (Instruction.rst vector) = rst-IsMet vector
instruction-IsMet (Instruction.inc_dec mnemonic operand) = count-IsMet mnemonic operand
instruction-IsMet (Instruction.stack mnemonic register) = stack-IsMet mnemonic register
instruction-IsMet (Instruction.ld_a_imm value) = single _ _ refl
instruction-IsMet (Instruction.ld target source) = transfer-IsMet target source
instruction-IsMet (Instruction.input target port) = input-IsMet target port
instruction-IsMet (Instruction.output port source) = output-IsMet port source
instruction-IsMet (Instruction.alu mnemonic source) = alu-IsMet mnemonic source
instruction-IsMet (Instruction.alu16 mnemonic target source) =
    add_words-IsMet mnemonic target source
instruction-IsMet (Instruction.jp target) = single _ _ refl
instruction-IsMet (Instruction.jp_cc condition target) = single _ _ (jp_cc-Performs condition)
instruction-IsMet (Instruction.jp_indirect JumpIndirectRegister.hl) = single _ _ refl
instruction-IsMet (Instruction.jp_indirect JumpIndirectRegister.ix) = double_dd _ _ refl
instruction-IsMet (Instruction.jp_indirect JumpIndirectRegister.iy) = double_fd _ _ refl
instruction-IsMet (Instruction.rotate_shift mnemonic operand destination) =
    rotate-IsMet mnemonic operand destination
instruction-IsMet (Instruction.bit_like mnemonic index operand destination) =
    bit-IsMet mnemonic index operand destination
instruction-IsMet (Instruction.call target) = single _ _ refl
instruction-IsMet (Instruction.call_cc condition target) = single _ _ (call_cc-Performs condition)
instruction-IsMet (Instruction.jr target) = single _ _ refl
instruction-IsMet (Instruction.jr_cc condition target) = single _ _ (jr_cc-Performs condition)
instruction-IsMet (Instruction.djnz target) = single _ _ refl

-- Where the leading bytes of an encoded instruction lie at PC and the processor is not halted,
-- executing them is the handler of the instruction's meaning, for every instruction that has one:
-- those of the unprefixed opcodes, of the ED and CB pages, and of IX and IY after DD and FD, but not
-- the bits and rotates of an indexed byte.
pub encode_z80_instruction-execute :
    (i : Instruction) (handler : Handler) (encoded : Encoded) (m : Machine)
    → handler_of i ≡ some handler
    → encode_z80_instruction i ≡ Outcome.returned encoded
    → m.cpu.halted ≡ false
    → StoredAt m m.cpu.pc (leading_bytes encoded.fragments)
    → (execute m).1 ≡ run handler m
encode_z80_instruction-execute i handler encoded m meaning result =
    subst (λ o. Meets o (Outcome.returned encoded)) meaning
      (subst (Meets (handler_of i)) result (instruction-IsMet i)) m
