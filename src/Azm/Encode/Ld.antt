-- ===== src/Azm/Encode/Ld.antt =====
-- packages/azm/src/z80/encode-ld.ts: LD is encoded by the first form that accepts its operands.
pub mod Word
pub mod Byte
pub mod Indirect
use debug.Base.{none, some, List, [], ◌∷◌, ◌++◌}
use debug.Azm.Instruction.{Operand, Encoded, Outcome}
use debug.Azm.Encode.Codes.{unsupported}
use debug.Azm.Encode.Ld.Word.{
  Form, reg16_immediate, index16_immediate, load_sp_from_word_register,
  absolute_register16_load_form, absolute_index16_load, absolute_register16_store_form,
  absolute_index16_store, legacy_reg16_byte_transfer,
}
use debug.Azm.Encode.Ld.Byte.{
  reg8_immediate, reg8_register, load_a_from_absolute, store_a_to_absolute, half_index_transfer,
  special_register,
}
use debug.Azm.Encode.Ld.Indirect.{
  load_a_from_register_indirect, store_a_to_register_indirect, store_reg8_to_hl, store_imm_to_hl,
  load_reg8_from_hl, load_reg8_from_indexed, store_reg8_to_indexed, store_imm_to_indexed,
}

abbrev pub LdEncoder : Type 0
LdEncoder = Operand → Operand → Form

abbrev pub byte_register_ld_encoders : List LdEncoder
byte_register_ld_encoders =
    reg8_immediate ∷ reg8_register ∷ load_a_from_absolute ∷ store_a_to_absolute
    ∷ half_index_transfer ∷ []

abbrev pub word_register_ld_encoders : List LdEncoder
word_register_ld_encoders =
    reg16_immediate ∷ index16_immediate ∷ load_sp_from_word_register ∷ absolute_register16_load_form
    ∷ absolute_index16_load ∷ absolute_register16_store_form ∷ absolute_index16_store ∷ []

abbrev pub hl_indirect_ld_encoders : List LdEncoder
hl_indirect_ld_encoders = store_reg8_to_hl ∷ store_imm_to_hl ∷ load_reg8_from_hl ∷ []

-- `encodeAccumulatorIndirectLd`
abbrev pub accumulator_indirect_ld_encoders : List LdEncoder
accumulator_indirect_ld_encoders = load_a_from_register_indirect ∷ store_a_to_register_indirect ∷ []

-- `encodeIndexedLd`
abbrev pub indexed_ld_encoders : List LdEncoder
indexed_ld_encoders = load_reg8_from_indexed ∷ store_reg8_to_indexed ∷ store_imm_to_indexed ∷ []

-- `firstLdEncoding`, and `??` between two encoders.
unfoldable pub first_ld_encoding : List LdEncoder → Operand → Operand → Form
first_ld_encoding [] target source = none
first_ld_encoding (encoder ∷ encoders) target source = elim (encoder target source) [
  | some encoded ↦ some encoded
  | none ↦ first_ld_encoding encoders target source
]

abbrev pub ld_encoders : List LdEncoder
ld_encoders =
    (legacy_reg16_byte_transfer ∷ special_register ∷ [])
    ++ byte_register_ld_encoders
    ++ word_register_ld_encoders
    ++ accumulator_indirect_ld_encoders
    ++ hl_indirect_ld_encoders
    ++ indexed_ld_encoders

-- Operands that no form accepts give an instruction of size 0.
unfoldable pub encode_ld : Operand → Operand → Outcome Encoded
unfolding first_ld_encoding
encode_ld target source = elim (first_ld_encoding ld_encoders target source) [
  | some encoded ↦ encoded
  | none ↦ Outcome.returned unsupported
]
