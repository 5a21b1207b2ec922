-- ===== src/Azm/Encode/Bytes.antt =====
-- packages/azm/src/z80/encode.ts: input and output, bits, rotates and shifts, and the ALU on
-- bytes.
use debug.Base.{ℕ, ◌+◌, ◌*◌, ◌⊎◌, inl, inr, Option, none, some, [], ◌∷◌}
use debug.Azm.Expression.{Expression}
use debug.Azm.Instruction.{
  Register8, IndexRegister16, RegisterIndirect, AluMnemonic, BitMnemonic, RotateShiftMnemonic,
  CbMnemonic, CbOperand, Operand, Port, OutSource, Message, Fragment, Encoded,
}
use debug.Azm.Encode.Codes.{
  register8_code, half_index_register_code, index_prefix, family, of_bytes, one_byte_instruction,
  opcode_then, unsupported,
}

abbrev pub encode_in : Option Register8 → Port → Encoded
encode_in (some target) Port.at_c = of_bytes (0xed ∷ (0x40 + register8_code target * 8) ∷ [])
encode_in none Port.at_c = of_bytes (0xed ∷ 0x70 ∷ [])
encode_in target (Port.imm expression) =
    opcode_then 2 (0xdb ∷ []) (Fragment.port8 expression Message.in_expects_imm8_port)

abbrev pub encode_out : Port → OutSource → Encoded
encode_out Port.at_c OutSource.zero_source = of_bytes (0xed ∷ 0x71 ∷ [])
encode_out Port.at_c (OutSource.reg8 source) =
    of_bytes (0xed ∷ (0x41 + register8_code source * 8) ∷ [])
encode_out (Port.imm expression) source =
    opcode_then 2 (0xd3 ∷ []) (Fragment.port8 expression Message.out_expects_imm8_port)

abbrev pub bit_like_opcode_base : BitMnemonic → ℕ
bit_like_opcode_base BitMnemonic.bit = 0x40
bit_like_opcode_base BitMnemonic.res = 0x80
bit_like_opcode_base BitMnemonic.set = 0xc0

-- `ROTATE_SHIFT_OPCODE_BASES[mnemonic]`
abbrev pub rotate_shift_opcode_base : RotateShiftMnemonic → ℕ
rotate_shift_opcode_base RotateShiftMnemonic.rlc = 0x00
rotate_shift_opcode_base RotateShiftMnemonic.rrc = 0x08
rotate_shift_opcode_base RotateShiftMnemonic.rl = 0x10
rotate_shift_opcode_base RotateShiftMnemonic.rr = 0x18
rotate_shift_opcode_base RotateShiftMnemonic.sla = 0x20
rotate_shift_opcode_base RotateShiftMnemonic.sra = 0x28
rotate_shift_opcode_base RotateShiftMnemonic.sll = 0x30
rotate_shift_opcode_base RotateShiftMnemonic.sls = 0x30
rotate_shift_opcode_base RotateShiftMnemonic.srl = 0x38

abbrev pub cb_operand_code : CbOperand → ℕ
cb_operand_code (CbOperand.reg8 register) = register8_code register
cb_operand_code CbOperand.hl_indirect = 0x06
cb_operand_code (CbOperand.indexed register displacement) = 0x06

-- `destination ? register8Code(destination.register) : cbOperandCode(operand)`
abbrev pub operand_code : CbOperand → Option Register8 → ℕ
operand_code operand none = cb_operand_code operand
operand_code operand (some destination) = register8_code destination

-- An opcode that is a number, or one whose bit index is an expression.
abbrev pub cb_instruction : ℕ ⊎ Fragment → Encoded
cb_instruction (inl opcode) = of_bytes (0xcb ∷ opcode ∷ [])
cb_instruction (inr opcode) = opcode_then 2 (0xcb ∷ []) opcode

abbrev pub opcode_fragment : ℕ ⊎ Fragment → Fragment
opcode_fragment (inl opcode) = Fragment.bytes (opcode ∷ [])
opcode_fragment (inr opcode) = opcode

abbrev pub indexed_cb_instruction :
    IndexRegister16 → Expression → ℕ ⊎ Fragment → CbMnemonic → Encoded
indexed_cb_instruction register displacement opcode mnemonic = record {
  size = 4;
  fragments =
      Fragment.bytes (index_prefix register ∷ 0xcb ∷ [])
      ∷ Fragment.disp8 displacement (some (Message.cb_expects_disp8 mnemonic))
      ∷ opcode_fragment opcode
      ∷ [];
}

abbrev pub encode_cb : CbOperand → ℕ ⊎ Fragment → CbMnemonic → Encoded
encode_cb (CbOperand.indexed register displacement) opcode mnemonic =
    indexed_cb_instruction register displacement opcode mnemonic
encode_cb (CbOperand.reg8 register) opcode mnemonic = cb_instruction opcode
encode_cb CbOperand.hl_indirect opcode mnemonic = cb_instruction opcode

abbrev pub bit_like_opcode : BitMnemonic → ℕ ⊎ Expression → ℕ → ℕ ⊎ Fragment
bit_like_opcode mnemonic (inl index) code = inl (bit_like_opcode_base mnemonic + index * 8 + code)
bit_like_opcode mnemonic (inr index) code = inr (Fragment.cb_bit_opcode mnemonic index code)

abbrev pub encode_bit_like : BitMnemonic → ℕ ⊎ Expression → CbOperand → Option Register8 → Encoded
encode_bit_like mnemonic index operand destination =
    encode_cb operand (bit_like_opcode mnemonic index (operand_code operand destination))
      (CbMnemonic.bits mnemonic)

abbrev pub encode_rotate_shift : RotateShiftMnemonic → CbOperand → Option Register8 → Encoded
encode_rotate_shift mnemonic operand destination =
    encode_cb operand (inl (rotate_shift_opcode_base mnemonic + operand_code operand destination))
      (CbMnemonic.rotates mnemonic)

pub record AluOpcodes : Type 0 where
  pub register_base : ℕ
  pub immediate : ℕ
  pub mem_hl : ℕ

abbrev pub alu_opcodes : AluMnemonic → AluOpcodes
alu_opcodes AluMnemonic.add = record { register_base = 0x80; immediate = 0xc6; mem_hl = 0x86 }
alu_opcodes AluMnemonic.adc = record { register_base = 0x88; immediate = 0xce; mem_hl = 0x8e }
alu_opcodes AluMnemonic.sub = record { register_base = 0x90; immediate = 0xd6; mem_hl = 0x96 }
alu_opcodes AluMnemonic.sbc = record { register_base = 0x98; immediate = 0xde; mem_hl = 0x9e }
alu_opcodes AluMnemonic.and = record { register_base = 0xa0; immediate = 0xe6; mem_hl = 0xa6 }
alu_opcodes AluMnemonic.or = record { register_base = 0xb0; immediate = 0xf6; mem_hl = 0xb6 }
alu_opcodes AluMnemonic.xor = record { register_base = 0xa8; immediate = 0xee; mem_hl = 0xae }
alu_opcodes AluMnemonic.cp = record { register_base = 0xb8; immediate = 0xfe; mem_hl = 0xbe }

abbrev pub encode_alu : AluMnemonic → Operand → Encoded
encode_alu mnemonic (Operand.reg8 source) =
    one_byte_instruction ((alu_opcodes mnemonic).register_base + register8_code source)
encode_alu mnemonic (Operand.reg_half_index source) = of_bytes (
    index_prefix (family source)
    ∷ ((alu_opcodes mnemonic).register_base + half_index_register_code source)
    ∷ [])
encode_alu mnemonic (Operand.reg_indirect RegisterIndirect.hl) =
    one_byte_instruction (alu_opcodes mnemonic).mem_hl
encode_alu mnemonic (Operand.indexed source displacement) =
    opcode_then 3 (index_prefix source ∷ (alu_opcodes mnemonic).mem_hl ∷ [])
      (Fragment.disp8 displacement none)
encode_alu mnemonic (Operand.imm expression) =
    opcode_then 2 ((alu_opcodes mnemonic).immediate ∷ []) (Fragment.imm8 expression none)
encode_alu mnemonic source = unsupported
