-- ===== src/Azm/Encode/Ld/Indirect.antt =====
-- packages/azm/src/z80/encode-ld.ts: the forms of LD through a register.
use debug.Base.{◌+◌, ◌*◌, none, some, [], ◌∷◌}
use debug.Azm.Expression.{Expression}
use debug.Azm.Instruction.{Register8, RegisterIndirect, Operand, Message, Fragment}
use debug.Azm.Encode.Codes.{register8_code, index_prefix, one_byte_instruction, opcode_then}
use debug.Azm.Encode.Ld.Word.{Form, encoded_as}
use debug.Azm.Encode.Ld.Byte.{load_a_from_indirect_opcode, store_a_to_indirect_opcode}

abbrev pub load_a_from_register_indirect : Operand → Operand → Form
load_a_from_register_indirect (Operand.reg8 Register8.a) (Operand.reg_indirect source) =
    encoded_as (one_byte_instruction (load_a_from_indirect_opcode source))
load_a_from_register_indirect target source = none

abbrev pub store_a_to_register_indirect : Operand → Operand → Form
store_a_to_register_indirect (Operand.reg_indirect target) (Operand.reg8 Register8.a) =
    encoded_as (one_byte_instruction (store_a_to_indirect_opcode target))
store_a_to_register_indirect target source = none

abbrev pub store_reg8_to_hl : Operand → Operand → Form
store_reg8_to_hl (Operand.reg_indirect RegisterIndirect.hl) (Operand.reg8 source) =
    encoded_as (one_byte_instruction (0x70 + register8_code source))
store_reg8_to_hl target source = none

abbrev pub store_imm_to_hl : Operand → Operand → Form
store_imm_to_hl (Operand.reg_indirect RegisterIndirect.hl) (Operand.imm expression) =
    encoded_as
      (opcode_then 2 (0x36 ∷ []) (Fragment.imm8 expression (some Message.ld_unsupported_form)))
store_imm_to_hl target source = none

abbrev pub load_reg8_from_hl : Operand → Operand → Form
load_reg8_from_hl (Operand.reg8 target) (Operand.reg_indirect RegisterIndirect.hl) =
    encoded_as (one_byte_instruction (0x46 + register8_code target * 8))
load_reg8_from_hl target source = none

abbrev pub displaced : Expression → Fragment
displaced displacement = Fragment.disp8 displacement (some Message.ld_expects_disp8)

abbrev pub load_reg8_from_indexed : Operand → Operand → Form
load_reg8_from_indexed (Operand.reg8 target) (Operand.indexed source displacement) = encoded_as (
    opcode_then 3 (index_prefix source ∷ (0x46 + register8_code target * 8) ∷ [])
      (displaced displacement))
load_reg8_from_indexed target source = none

abbrev pub store_reg8_to_indexed : Operand → Operand → Form
store_reg8_to_indexed (Operand.indexed target displacement) (Operand.reg8 source) = encoded_as (
    opcode_then 3 (index_prefix target ∷ (0x70 + register8_code source) ∷ [])
      (displaced displacement))
store_reg8_to_indexed target source = none

abbrev pub store_imm_to_indexed : Operand → Operand → Form
store_imm_to_indexed (Operand.indexed target displacement) (Operand.imm expression) =
    encoded_as record {
      size = 4;
      fragments =
          Fragment.bytes (index_prefix target ∷ 0x36 ∷ [])
          ∷ Fragment.disp8 displacement (some Message.ld_n_expects_disp8)
          ∷ Fragment.imm8 expression (some Message.ld_unsupported_form)
          ∷ [];
    }
store_imm_to_indexed target source = none
