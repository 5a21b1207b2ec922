-- ===== src/Azm/Encode/Words.antt =====
-- packages/azm/src/z80/encode.ts: exchanges, the stack, the counting of registers, and the
-- addition of words.
use debug.Base.{length}
use debug.Base.{if◌then◌else◌, ◌==◌}
use debug.Base.{ℕ, ◌+◌, ◌*◌, none, List, [], ◌∷◌}
use debug.Azm.Instruction.{
  Register16, IndexRegister16, IndexHalfRegister, StackRegister16, WordRegister, HlAluMnemonic,
  IncDecMnemonic, IncDecOperand, StackMnemonic, ExchangeForm, InterruptMode, Fragment, Encoded,
  EncodeError, Outcome,
}
use debug.Azm.Encode.Codes.{
  register8_code, register16_code, index_prefix, of_bytes, one_byte_instruction, opcode_then,
  encode_bytes,
}

abbrev pub encode_exchange : ExchangeForm → Encoded
encode_exchange ExchangeForm.af_af = one_byte_instruction 0x08
encode_exchange ExchangeForm.de_hl = one_byte_instruction 0xeb
encode_exchange ExchangeForm.sp_hl = one_byte_instruction 0xe3
encode_exchange ExchangeForm.sp_ix = of_bytes (0xdd ∷ 0xe3 ∷ [])
encode_exchange ExchangeForm.sp_iy = of_bytes (0xfd ∷ 0xe3 ∷ [])

abbrev pub im_opcode : InterruptMode → ℕ
im_opcode InterruptMode.mode_0 = 0x46
im_opcode InterruptMode.mode_1 = 0x56
im_opcode InterruptMode.mode_2 = 0x5e

-- The opcodes of `switch (vector)`, which throws for any other number.
abbrev pub rst_opcode : ℕ → Outcome ℕ
rst_opcode vector =
    if vector == 0
    then Outcome.returned 0xc7
    else if vector == 8
    then Outcome.returned 0xcf
    else if vector == 16
    then Outcome.returned 0xd7
    else if vector == 24
    then Outcome.returned 0xdf
    else if vector == 32
    then Outcome.returned 0xe7
    else if vector == 40
    then Outcome.returned 0xef
    else if vector == 48
    then Outcome.returned 0xf7
    else if vector == 56
    then Outcome.returned 0xff
    else Outcome.thrown (EncodeError.invalid_rst_vector vector)

abbrev pub encode_rst : Outcome ℕ → Outcome Encoded
encode_rst (Outcome.returned opcode) = Outcome.returned (one_byte_instruction opcode)
encode_rst (Outcome.thrown error) = Outcome.thrown error

-- `incDecBase(mnemonic).reg8` and `.memHl`
abbrev pub inc_dec_reg8 : IncDecMnemonic → ℕ
inc_dec_reg8 IncDecMnemonic.inc = 0x04
inc_dec_reg8 IncDecMnemonic.dec = 0x05

abbrev pub inc_dec_mem_hl : IncDecMnemonic → ℕ
inc_dec_mem_hl IncDecMnemonic.inc = 0x34
inc_dec_mem_hl IncDecMnemonic.dec = 0x35

abbrev pub inc_dec_word_base : IncDecMnemonic → ℕ
inc_dec_word_base IncDecMnemonic.inc = 0x03
inc_dec_word_base IncDecMnemonic.dec = 0x0b

abbrev pub inc_dec_register16_opcode : IncDecMnemonic → WordRegister → List ℕ
inc_dec_register16_opcode mnemonic (WordRegister.reg16 Register16.bc) =
    inc_dec_word_base mnemonic ∷ []
inc_dec_register16_opcode mnemonic (WordRegister.reg16 Register16.de) =
    (inc_dec_word_base mnemonic + 0x10) ∷ []
inc_dec_register16_opcode mnemonic (WordRegister.reg16 Register16.hl) =
    (inc_dec_word_base mnemonic + 0x20) ∷ []
inc_dec_register16_opcode mnemonic (WordRegister.reg16 Register16.sp) =
    (inc_dec_word_base mnemonic + 0x30) ∷ []
inc_dec_register16_opcode mnemonic (WordRegister.index16 IndexRegister16.ix) =
    0xdd ∷ (inc_dec_word_base mnemonic + 0x20) ∷ []
inc_dec_register16_opcode mnemonic (WordRegister.index16 IndexRegister16.iy) =
    0xfd ∷ (inc_dec_word_base mnemonic + 0x20) ∷ []

abbrev pub inc_dec_low_opcode : IncDecMnemonic → ℕ
inc_dec_low_opcode IncDecMnemonic.inc = 0x2c
inc_dec_low_opcode IncDecMnemonic.dec = 0x2d

abbrev pub inc_dec_high_opcode : IncDecMnemonic → ℕ
inc_dec_high_opcode IncDecMnemonic.inc = 0x24
inc_dec_high_opcode IncDecMnemonic.dec = 0x25

abbrev pub inc_dec_half_index_opcode : IncDecMnemonic → IndexHalfRegister → List ℕ
inc_dec_half_index_opcode mnemonic IndexHalfRegister.ixh = 0xdd ∷ inc_dec_high_opcode mnemonic ∷ []
inc_dec_half_index_opcode mnemonic IndexHalfRegister.ixl = 0xdd ∷ inc_dec_low_opcode mnemonic ∷ []
inc_dec_half_index_opcode mnemonic IndexHalfRegister.iyh = 0xfd ∷ inc_dec_high_opcode mnemonic ∷ []
inc_dec_half_index_opcode mnemonic IndexHalfRegister.iyl = 0xfd ∷ inc_dec_low_opcode mnemonic ∷ []

abbrev pub encode_inc_dec : IncDecMnemonic → IncDecOperand → Encoded
encode_inc_dec mnemonic (IncDecOperand.reg8 register) =
    one_byte_instruction (inc_dec_reg8 mnemonic + register8_code register * 8)
encode_inc_dec mnemonic (IncDecOperand.reg16 register) =
    of_bytes (inc_dec_register16_opcode mnemonic register)
encode_inc_dec mnemonic (IncDecOperand.reg_half_index register) =
    of_bytes (inc_dec_half_index_opcode mnemonic register)
encode_inc_dec mnemonic (IncDecOperand.indexed register displacement) =
    opcode_then 3 (index_prefix register ∷ inc_dec_mem_hl mnemonic ∷ [])
      (Fragment.disp8 displacement none)
encode_inc_dec mnemonic IncDecOperand.hl_indirect = one_byte_instruction (inc_dec_mem_hl mnemonic)

abbrev pub stack_base : StackMnemonic → ℕ
stack_base StackMnemonic.push = 0xc5
stack_base StackMnemonic.pop = 0xc1

abbrev pub stack_opcode : StackMnemonic → StackRegister16 → List ℕ
stack_opcode mnemonic StackRegister16.bc = stack_base mnemonic ∷ []
stack_opcode mnemonic StackRegister16.de = (stack_base mnemonic + 0x10) ∷ []
stack_opcode mnemonic StackRegister16.hl = (stack_base mnemonic + 0x20) ∷ []
stack_opcode mnemonic StackRegister16.af = (stack_base mnemonic + 0x30) ∷ []
stack_opcode mnemonic StackRegister16.ix = 0xdd ∷ (stack_base mnemonic + 0x20) ∷ []
stack_opcode mnemonic StackRegister16.iy = 0xfd ∷ (stack_base mnemonic + 0x20) ∷ []

abbrev pub encode_stack : StackMnemonic → StackRegister16 → Encoded
encode_stack mnemonic register = of_bytes (stack_opcode mnemonic register)

abbrev pub indexed_add_opcode : IndexRegister16 → WordRegister → Outcome (List ℕ)
indexed_add_opcode target (WordRegister.reg16 Register16.bc) =
    Outcome.returned (index_prefix target ∷ 0x09 ∷ [])
indexed_add_opcode target (WordRegister.reg16 Register16.de) =
    Outcome.returned (index_prefix target ∷ 0x19 ∷ [])
indexed_add_opcode target (WordRegister.reg16 Register16.sp) =
    Outcome.returned (index_prefix target ∷ 0x39 ∷ [])
indexed_add_opcode IndexRegister16.ix (WordRegister.index16 IndexRegister16.ix) =
    Outcome.returned (index_prefix IndexRegister16.ix ∷ 0x29 ∷ [])
indexed_add_opcode IndexRegister16.iy (WordRegister.index16 IndexRegister16.iy) =
    Outcome.returned (index_prefix IndexRegister16.iy ∷ 0x29 ∷ [])
indexed_add_opcode target source = Outcome.thrown (EncodeError.unsupported_indexed_source source)

abbrev pub hl_alu_opcode : HlAluMnemonic → Register16 → List ℕ
hl_alu_opcode HlAluMnemonic.add source = (0x09 + register16_code source * 0x10) ∷ []
hl_alu_opcode HlAluMnemonic.adc source = 0xed ∷ (0x4a + register16_code source * 0x10) ∷ []
hl_alu_opcode HlAluMnemonic.sbc source = 0xed ∷ (0x42 + register16_code source * 0x10) ∷ []

-- `register16Code` has no case for IX and IY and gives undefined, so the opcode's last byte is NaN.
abbrev pub index_source_opcode : HlAluMnemonic → List ℕ
index_source_opcode HlAluMnemonic.add = []
index_source_opcode HlAluMnemonic.adc = 0xed ∷ []
index_source_opcode HlAluMnemonic.sbc = 0xed ∷ []

abbrev pub encode_16bit_alu : HlAluMnemonic → WordRegister → WordRegister → Outcome Encoded
encode_16bit_alu HlAluMnemonic.add (WordRegister.index16 target) source =
    encode_bytes (indexed_add_opcode target source)
encode_16bit_alu mnemonic (WordRegister.index16 target) source =
    Outcome.thrown (EncodeError.unsupported_indexed_target mnemonic target)
encode_16bit_alu mnemonic (WordRegister.reg16 target) (WordRegister.reg16 source) =
    Outcome.returned (of_bytes (hl_alu_opcode mnemonic source))
encode_16bit_alu mnemonic (WordRegister.reg16 target) (WordRegister.index16 source) =
    Outcome.returned record {
      size = length (index_source_opcode mnemonic) + 1;
      fragments = Fragment.bytes_before_nan (index_source_opcode mnemonic) ∷ [];
    }
