-- ===== src/Azm/Encode/Ld/Word.antt =====
-- packages/azm/src/z80/encode-ld.ts and encode-ld-helpers.ts: the forms of LD on words, and the
-- absolute transfers.
use debug.Base.{ℕ, ◌+◌, ◌*◌, Bool, true, false, Option, none, some, List, [], ◌∷◌}
use debug.Base.{if◌then◌else◌}
use debug.Azm.Expression.{Expression}
use debug.Azm.Instruction.{
  Register16, IndexRegister16, WordRegister, Operand, Fragment, Encoded, EncodeError, Outcome,
}
use debug.Azm.Encode.Codes.{register16_code, index_prefix, of_bytes, opcode_then}

-- A form's answer: `none` leaves the operands to the next form.
abbrev pub Form : Type 0
Form = Option (Outcome Encoded)

abbrev pub encoded_as : Encoded → Form
encoded_as encoded = some (Outcome.returned encoded)

abbrev pub absolute_ld : ℕ → Expression → Encoded
absolute_ld opcode expression = opcode_then 3 (opcode ∷ []) (Fragment.abs16 expression)

abbrev pub prefixed_absolute_ld : ℕ → ℕ → Expression → Encoded
prefixed_absolute_ld prefix opcode expression =
    opcode_then 4 (prefix ∷ opcode ∷ []) (Fragment.abs16 expression)

abbrev pub absolute_register16_load : Register16 → Expression → Encoded
absolute_register16_load Register16.hl address = absolute_ld 0x2a address
absolute_register16_load Register16.bc address = prefixed_absolute_ld 0xed 0x4b address
absolute_register16_load Register16.de address = prefixed_absolute_ld 0xed 0x5b address
absolute_register16_load Register16.sp address = prefixed_absolute_ld 0xed 0x7b address

abbrev pub absolute_register16_store : Register16 → Expression → Encoded
absolute_register16_store Register16.hl address = absolute_ld 0x22 address
absolute_register16_store Register16.bc address = prefixed_absolute_ld 0xed 0x43 address
absolute_register16_store Register16.de address = prefixed_absolute_ld 0xed 0x53 address
absolute_register16_store Register16.sp address = prefixed_absolute_ld 0xed 0x73 address

abbrev pub reg16_immediate : Operand → Operand → Form
reg16_immediate (Operand.reg16 target) (Operand.imm expression) =
    encoded_as
      (opcode_then 3 ((0x01 + register16_code target * 0x10) ∷ []) (Fragment.abs16 expression))
reg16_immediate target source = none

abbrev pub index16_immediate : Operand → Operand → Form
index16_immediate (Operand.reg_index16 target) (Operand.imm expression) =
    encoded_as (opcode_then 4 (index_prefix target ∷ 0x21 ∷ []) (Fragment.abs16 expression))
index16_immediate target source = none

abbrev pub is_load_sp_from_word_register : Operand → Operand → Bool
is_load_sp_from_word_register (Operand.reg16 Register16.sp) (Operand.reg16 Register16.hl) = true
is_load_sp_from_word_register (Operand.reg16 Register16.sp) (Operand.reg_index16 source) = true
is_load_sp_from_word_register target source = false

abbrev pub load_sp_opcode : WordRegister → Outcome (List ℕ)
load_sp_opcode (WordRegister.reg16 Register16.hl) = Outcome.returned (0xf9 ∷ [])
load_sp_opcode (WordRegister.index16 IndexRegister16.ix) = Outcome.returned (0xdd ∷ 0xf9 ∷ [])
load_sp_opcode (WordRegister.index16 IndexRegister16.iy) = Outcome.returned (0xfd ∷ 0xf9 ∷ [])
load_sp_opcode register = Outcome.thrown (EncodeError.unsupported_ld_sp_source register)

-- The size is given apart from the bytes.
abbrev pub sized : ℕ → Outcome (List ℕ) → Outcome Encoded
sized size (Outcome.returned opcode) =
    Outcome.returned (record { size = size; fragments = Fragment.bytes opcode ∷ [] })
sized size (Outcome.thrown error) = Outcome.thrown error

-- `source as LoadSpSourceOperand`
abbrev pub load_sp_from : Operand → Form
load_sp_from (Operand.reg16 source) = some (sized 1 (load_sp_opcode (WordRegister.reg16 source)))
load_sp_from (Operand.reg_index16 source) =
    some (sized 2 (load_sp_opcode (WordRegister.index16 source)))
load_sp_from source = none

abbrev pub load_sp_from_word_register : Operand → Operand → Form
load_sp_from_word_register target source =
    if is_load_sp_from_word_register target source then load_sp_from source else none

abbrev pub absolute_register16_load_form : Operand → Operand → Form
absolute_register16_load_form (Operand.reg16 target) (Operand.mem_abs address) =
    encoded_as (absolute_register16_load target address)
absolute_register16_load_form target source = none

abbrev pub absolute_index16_load : Operand → Operand → Form
absolute_index16_load (Operand.reg_index16 target) (Operand.mem_abs address) =
    encoded_as (prefixed_absolute_ld (index_prefix target) 0x2a address)
absolute_index16_load target source = none

abbrev pub absolute_register16_store_form : Operand → Operand → Form
absolute_register16_store_form (Operand.mem_abs address) (Operand.reg16 source) =
    encoded_as (absolute_register16_store source address)
absolute_register16_store_form target source = none

abbrev pub absolute_index16_store : Operand → Operand → Form
absolute_index16_store (Operand.mem_abs address) (Operand.reg_index16 source) =
    encoded_as (prefixed_absolute_ld (index_prefix source) 0x22 address)
absolute_index16_store target source = none

-- `LD HL, DE` and `LD BC, DE` are two byte loads.
abbrev pub legacy_reg16_byte_transfer_opcodes : Register16 → Register16 → Option (List ℕ)
legacy_reg16_byte_transfer_opcodes Register16.hl Register16.de = some (0x62 ∷ 0x6b ∷ [])
legacy_reg16_byte_transfer_opcodes Register16.bc Register16.de = some (0x42 ∷ 0x4b ∷ [])
legacy_reg16_byte_transfer_opcodes target source = none

abbrev pub legacy_reg16_byte_transfer : Operand → Operand → Form
legacy_reg16_byte_transfer (Operand.reg16 target) (Operand.reg16 source) =
    elim (legacy_reg16_byte_transfer_opcodes target source) [
      | none ↦ none
      | some transfers ↦ encoded_as (of_bytes transfers)
    ]
legacy_reg16_byte_transfer target source = none
