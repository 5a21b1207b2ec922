-- ===== src/Azm/Encode.antt =====
-- packages/azm/src/z80/encode.ts: `encodeZ80Instruction`, with its table of encoders by mnemonic.
pub mod Codes
pub mod Core
pub mod Ld
pub mod Words
pub mod Bytes
use debug.Base.{ℕ, none, List, [], ◌∷◌}
use debug.Azm.Expression.{Expression}
use debug.Azm.Instruction.{
  JumpIndirectRegister, BranchMnemonic, Fragment, Instruction, Encoded, Outcome,
}
use debug.Azm.Encode.Codes.{
  of_bytes, one_byte_instruction, opcode_then, ret_condition_opcode, jp_condition_opcode,
  call_condition_opcode, jr_condition_opcode,
}
use debug.Azm.Encode.Core.{encode_core}
use debug.Azm.Encode.Ld.{encode_ld}
use debug.Azm.Encode.Words.{
  encode_exchange, im_opcode, rst_opcode, encode_rst, encode_inc_dec, encode_stack,
  encode_16bit_alu,
}
use debug.Azm.Encode.Bytes.{encode_in, encode_out, encode_bit_like, encode_rotate_shift, encode_alu}

abbrev pub absolute_target : ℕ → Expression → Encoded
absolute_target opcode expression = opcode_then 3 (opcode ∷ []) (Fragment.abs16 expression)

abbrev pub jump_indirect : JumpIndirectRegister → Encoded
jump_indirect JumpIndirectRegister.hl = one_byte_instruction 0xe9
jump_indirect JumpIndirectRegister.ix = of_bytes (0xdd ∷ 0xe9 ∷ [])
jump_indirect JumpIndirectRegister.iy = of_bytes (0xfd ∷ 0xe9 ∷ [])

abbrev pub relative_target : ℕ → BranchMnemonic → Expression → Encoded
relative_target opcode mnemonic expression =
    opcode_then 2 (opcode ∷ []) (Fragment.rel8 expression mnemonic)

unfoldable pub encode_z80_instruction : Instruction → Outcome Encoded
encode_z80_instruction Instruction.nop = Outcome.returned (one_byte_instruction 0x00)
encode_z80_instruction Instruction.ret = Outcome.returned (one_byte_instruction 0xc9)
encode_z80_instruction (Instruction.ret_cc condition) =
    Outcome.returned (one_byte_instruction (ret_condition_opcode condition))
encode_z80_instruction (Instruction.core mnemonic) = Outcome.returned (encode_core mnemonic)
encode_z80_instruction (Instruction.ex form) = Outcome.returned (encode_exchange form)
encode_z80_instruction (Instruction.im mode) =
    Outcome.returned (of_bytes (0xed ∷ im_opcode mode ∷ []))
encode_z80_instruction (Instruction.rst vector) = encode_rst (rst_opcode vector)
encode_z80_instruction (Instruction.inc_dec mnemonic operand) =
    Outcome.returned (encode_inc_dec mnemonic operand)
encode_z80_instruction (Instruction.stack mnemonic register) =
    Outcome.returned (encode_stack mnemonic register)
encode_z80_instruction (Instruction.ld_a_imm expression) =
    Outcome.returned (opcode_then 2 (0x3e ∷ []) (Fragment.imm8 expression none))
encode_z80_instruction (Instruction.ld target source) = encode_ld target source
encode_z80_instruction (Instruction.input target port) = Outcome.returned (encode_in target port)
encode_z80_instruction (Instruction.output port source) = Outcome.returned (encode_out port source)
encode_z80_instruction (Instruction.bit_like mnemonic index operand destination) =
    Outcome.returned (encode_bit_like mnemonic index operand destination)
encode_z80_instruction (Instruction.rotate_shift mnemonic operand destination) =
    Outcome.returned (encode_rotate_shift mnemonic operand destination)
encode_z80_instruction (Instruction.alu mnemonic source) =
    Outcome.returned (encode_alu mnemonic source)
encode_z80_instruction (Instruction.alu16 mnemonic target source) =
    encode_16bit_alu mnemonic target source
encode_z80_instruction (Instruction.jp expression) =
    Outcome.returned (absolute_target 0xc3 expression)
encode_z80_instruction (Instruction.jp_cc condition expression) =
    Outcome.returned (absolute_target (jp_condition_opcode condition) expression)
encode_z80_instruction (Instruction.jp_indirect register) =
    Outcome.returned (jump_indirect register)
encode_z80_instruction (Instruction.call expression) =
    Outcome.returned (absolute_target 0xcd expression)
encode_z80_instruction (Instruction.call_cc condition expression) =
    Outcome.returned (absolute_target (call_condition_opcode condition) expression)
encode_z80_instruction (Instruction.jr expression) =
    Outcome.returned (relative_target 0x18 BranchMnemonic.jr expression)
encode_z80_instruction (Instruction.jr_cc condition expression) =
    Outcome.returned
      (relative_target (jr_condition_opcode condition) (BranchMnemonic.jr_cc condition) expression)
encode_z80_instruction (Instruction.djnz expression) =
    Outcome.returned (relative_target 0x10 BranchMnemonic.djnz expression)
