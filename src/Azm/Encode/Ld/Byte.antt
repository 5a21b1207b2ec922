-- ===== src/Azm/Encode/Ld/Byte.antt =====
-- packages/azm/src/z80/encode-ld.ts and encode-ld-helpers.ts: the forms of LD on bytes.
use debug.Base.{ℕ, ◌+◌, ◌*◌, Bool, true, false, ◌&&◌, not, Option, none, some, List, [], ◌∷◌}
use debug.Base.{if◌then◌else◌}
use debug.Azm.Instruction.{
  Register8, IndexRegister16, IndexHalfRegister, SpecialRegister8, RegisterIndirect, Operand,
  Message, Fragment, Outcome,
}
use debug.Azm.Encode.Codes.{
  register8_code, half_index_register_code, family, of_bytes, one_byte_instruction, opcode_then,
  half_index_prefix, encode_bytes,
}
use debug.Azm.Encode.Ld.Word.{Form, encoded_as, absolute_ld}

abbrev pub load_a_from_indirect_opcode : RegisterIndirect → ℕ
load_a_from_indirect_opcode RegisterIndirect.bc = 0x0a
load_a_from_indirect_opcode RegisterIndirect.de = 0x1a
load_a_from_indirect_opcode RegisterIndirect.hl = 0x7e

abbrev pub store_a_to_indirect_opcode : RegisterIndirect → ℕ
store_a_to_indirect_opcode RegisterIndirect.bc = 0x02
store_a_to_indirect_opcode RegisterIndirect.de = 0x12
store_a_to_indirect_opcode RegisterIndirect.hl = 0x77

-- `target.kind !== 'reg8' || source.kind !== 'imm'`, and so on for each form.
abbrev pub reg8_immediate : Operand → Operand → Form
reg8_immediate (Operand.reg8 target) (Operand.imm expression) = encoded_as (
    opcode_then 2 ((0x06 + register8_code target * 8) ∷ [])
      (Fragment.imm8 expression (some Message.ld_unsupported_form)))
reg8_immediate target source = none

abbrev pub reg8_register : Operand → Operand → Form
reg8_register (Operand.reg8 target) (Operand.reg8 source) =
    encoded_as (one_byte_instruction (0x40 + register8_code target * 8 + register8_code source))
reg8_register target source = none

abbrev pub load_a_from_absolute : Operand → Operand → Form
load_a_from_absolute (Operand.reg8 Register8.a) (Operand.mem_abs address) =
    encoded_as (absolute_ld 0x3a address)
load_a_from_absolute target source = none

abbrev pub store_a_to_absolute : Operand → Operand → Form
store_a_to_absolute (Operand.mem_abs address) (Operand.reg8 Register8.a) =
    encoded_as (absolute_ld 0x32 address)
store_a_to_absolute target source = none

-- Half registers: both sides in one of IX and IY, and no H or L beside them.
abbrev pub half_of : Operand → Option IndexHalfRegister
half_of (Operand.reg_half_index register) = some register
half_of operand = none

abbrev pub is_same_family : IndexRegister16 → IndexRegister16 → Bool
is_same_family IndexRegister16.ix IndexRegister16.ix = true
is_same_family IndexRegister16.iy IndexRegister16.iy = true
is_same_family target source = false

abbrev pub is_same_half_index_family : Operand → Operand → Bool
is_same_half_index_family (Operand.reg_half_index target) (Operand.reg_half_index source) =
    is_same_family (family target) (family source)
is_same_half_index_family target source = true

abbrev pub is_half_index_compatible_byte_operand : Operand → Bool
is_half_index_compatible_byte_operand (Operand.reg_half_index register) = true
is_half_index_compatible_byte_operand (Operand.reg8 Register8.h) = false
is_half_index_compatible_byte_operand (Operand.reg8 Register8.l) = false
is_half_index_compatible_byte_operand (Operand.reg8 register) = true
is_half_index_compatible_byte_operand operand = false

abbrev pub has_half_index : Operand → Operand → Bool
has_half_index (Operand.reg_half_index target) source = true
has_half_index target (Operand.reg_half_index source) = true
has_half_index target source = false

abbrev pub is_encodable_half_index_ld : Operand → Operand → Bool
is_encodable_half_index_ld target source =
    if not (has_half_index target source)
    then false
    else is_same_half_index_family target source
      && is_half_index_compatible_byte_operand target
      && is_half_index_compatible_byte_operand source

abbrev pub is_byte_operand : Operand → Bool
is_byte_operand (Operand.reg8 register) = true
is_byte_operand (Operand.reg_half_index register) = true
is_byte_operand operand = false

abbrev pub is_half_index_transfer_ld : Operand → Operand → Bool
is_half_index_transfer_ld target source =
    is_byte_operand target && is_byte_operand source && is_encodable_half_index_ld target source

-- `byteRegisterCode`, of the operands that `is_half_index_transfer_ld` lets through.
abbrev pub byte_register_code : Operand → ℕ
byte_register_code (Operand.reg8 register) = register8_code register
byte_register_code (Operand.reg_half_index register) = half_index_register_code register
byte_register_code operand = 0

abbrev pub half_index_transfer_bytes : Operand → Operand → Outcome ℕ → Outcome (List ℕ)
half_index_transfer_bytes target source (Outcome.returned prefix) =
    Outcome.returned
      (prefix ∷ (0x40 + byte_register_code target * 8 + byte_register_code source) ∷ [])
half_index_transfer_bytes target source (Outcome.thrown error) = Outcome.thrown error

abbrev pub half_index_transfer : Operand → Operand → Form
half_index_transfer target source =
    if is_half_index_transfer_ld target source
    then some (
        encode_bytes (
          half_index_transfer_bytes target source
            (half_index_prefix (half_of target) (half_of source))))
    else none

abbrev pub special_register : Operand → Operand → Form
special_register (Operand.special8 SpecialRegister8.i) (Operand.reg8 Register8.a) =
    encoded_as (of_bytes (0xed ∷ 0x47 ∷ []))
special_register (Operand.special8 SpecialRegister8.r) (Operand.reg8 Register8.a) =
    encoded_as (of_bytes (0xed ∷ 0x4f ∷ []))
special_register (Operand.reg8 Register8.a) (Operand.special8 SpecialRegister8.i) =
    encoded_as (of_bytes (0xed ∷ 0x57 ∷ []))
special_register (Operand.reg8 Register8.a) (Operand.special8 SpecialRegister8.r) =
    encoded_as (of_bytes (0xed ∷ 0x5f ∷ []))
special_register target source = none
