-- ===== src/Azm/LdSupport.antt =====
-- packages/azm/src/z80/ld-support.ts: which forms of LD the parser lets through, and what it says
-- of the others.
use debug.Base.{Bool, true, false, ◌&&◌, ◌||◌, not, Option, none, some, List, [], ◌∷◌}
use debug.Base.{if◌then◌else◌}
use debug.Azm.Instruction.{Register8, Register16, IndexRegister16, RegisterIndirect, Operand}
use debug.Azm.Encode.Codes.{family}

-- Tests of an operand by its `kind`, and of a register by its name.
abbrev pub is_reg8 : Operand → Bool
is_reg8 (Operand.reg8 register) = true
is_reg8 operand = false

abbrev pub is_a : Operand → Bool
is_a (Operand.reg8 Register8.a) = true
is_a operand = false

abbrev pub is_reg16 : Operand → Bool
is_reg16 (Operand.reg16 register) = true
is_reg16 operand = false

abbrev pub is_reg_index16 : Operand → Bool
is_reg_index16 (Operand.reg_index16 register) = true
is_reg_index16 operand = false

abbrev pub is_half_index : Operand → Bool
is_half_index (Operand.reg_half_index register) = true
is_half_index operand = false

abbrev pub is_special8 : Operand → Bool
is_special8 (Operand.special8 register) = true
is_special8 operand = false

abbrev pub is_reg_indirect : Operand → Bool
is_reg_indirect (Operand.reg_indirect register) = true
is_reg_indirect operand = false

abbrev pub is_hl_indirect : Operand → Bool
is_hl_indirect (Operand.reg_indirect RegisterIndirect.hl) = true
is_hl_indirect operand = false

abbrev pub is_mem_abs : Operand → Bool
is_mem_abs (Operand.mem_abs expression) = true
is_mem_abs operand = false

abbrev pub is_indexed : Operand → Bool
is_indexed (Operand.indexed register displacement) = true
is_indexed operand = false

abbrev pub is_imm : Operand → Bool
is_imm (Operand.imm expression) = true
is_imm operand = false

abbrev pub is_sp : Operand → Bool
is_sp (Operand.reg16 Register16.sp) = true
is_sp operand = false

abbrev pub is_hl : Operand → Bool
is_hl (Operand.reg16 Register16.hl) = true
is_hl operand = false

abbrev pub is_reg8_ld : Operand → Operand → Bool
is_reg8_ld target source = is_reg8 target && (is_reg8 source || is_imm source)

abbrev pub is_indexed_byte_ld : Operand → Operand → Bool
is_indexed_byte_ld target source =
    is_reg8 target && is_indexed source || is_indexed target && (is_reg8 source || is_imm source)

abbrev pub is_reg16_immediate_ld : Operand → Operand → Bool
is_reg16_immediate_ld target source = is_reg16 target && is_imm source

abbrev pub is_legacy_reg16_byte_transfer_pair : Register16 → Register16 → Bool
is_legacy_reg16_byte_transfer_pair Register16.hl Register16.de = true
is_legacy_reg16_byte_transfer_pair Register16.bc Register16.de = true
is_legacy_reg16_byte_transfer_pair target source = false

abbrev pub is_legacy_reg16_ld : Operand → Operand → Bool
is_legacy_reg16_ld (Operand.reg16 target) (Operand.reg16 source) =
    is_legacy_reg16_byte_transfer_pair target source
is_legacy_reg16_ld target source = false

abbrev pub is_index16_immediate_ld : Operand → Operand → Bool
is_index16_immediate_ld target source = is_reg_index16 target && is_imm source

-- The source is HL, IX or IY.
abbrev pub is_stack_pointer_register_ld : Operand → Operand → Bool
is_stack_pointer_register_ld target source = is_sp target && (is_hl source || is_reg_index16 source)

abbrev pub is_register_from_absolute_memory_ld : Operand → Operand → Bool
is_register_from_absolute_memory_ld target source =
    (is_reg8 target || is_reg16 target || is_reg_index16 target)
    && is_mem_abs source
    && (not (is_reg8 target) || is_a target)

abbrev pub is_absolute_memory_from_register_ld : Operand → Operand → Bool
is_absolute_memory_from_register_ld target source =
    is_mem_abs target && (is_reg16 source || is_reg_index16 source || is_a source)

abbrev pub is_accumulator_from_register_indirect_ld : Operand → Operand → Bool
is_accumulator_from_register_indirect_ld target source = is_a target && is_reg_indirect source

abbrev pub is_register_indirect_from_accumulator_ld : Operand → Operand → Bool
is_register_indirect_from_accumulator_ld target source = is_reg_indirect target && is_a source

abbrev pub is_hl_indirect_byte_ld : Operand → Operand → Bool
is_hl_indirect_byte_ld target source = is_hl_indirect target && (is_reg8 source || is_imm source)

abbrev pub is_byte_from_hl_indirect_ld : Operand → Operand → Bool
is_byte_from_hl_indirect_ld target source = is_reg8 target && is_hl_indirect source

abbrev pub is_supported_special_register_ld : Operand → Operand → Bool
is_supported_special_register_ld target source =
    is_special8 target && is_a source || is_a target && is_special8 source

abbrev pub is_memory_operand : Operand → Bool
is_memory_operand operand = is_reg_indirect operand || is_indexed operand || is_mem_abs operand

abbrev pub has_half_index_register : Operand → Operand → Bool
has_half_index_register target source = is_half_index target || is_half_index source

abbrev pub index_half_family : Operand → Option IndexRegister16
index_half_family (Operand.reg_half_index register) = some (family register)
index_half_family operand = none

-- `!targetFamily || !sourceFamily || targetFamily === sourceFamily`
abbrev pub families_agree : Option IndexRegister16 → Option IndexRegister16 → Bool
families_agree (some IndexRegister16.ix) (some IndexRegister16.iy) = false
families_agree (some IndexRegister16.iy) (some IndexRegister16.ix) = false
families_agree target source = true

abbrev pub is_same_index_half_family : Operand → Operand → Bool
is_same_index_half_family target source =
    families_agree (index_half_family target) (index_half_family source)

abbrev pub is_plain_hl_reg8 : Operand → Bool
is_plain_hl_reg8 (Operand.reg8 Register8.h) = true
is_plain_hl_reg8 (Operand.reg8 Register8.l) = true
is_plain_hl_reg8 operand = false

abbrev pub uses_plain_hl_counterpart : Operand → Operand → Bool
uses_plain_hl_counterpart target source =
    is_half_index target && is_plain_hl_reg8 source
    || is_half_index source && is_plain_hl_reg8 target

abbrev pub is_compatible_byte_operand : Operand → Bool
is_compatible_byte_operand operand =
    is_half_index operand || is_reg8 operand && not (is_plain_hl_reg8 operand)

abbrev pub is_supported_half_index_ld : Operand → Operand → Bool
is_supported_half_index_ld target source =
    has_half_index_register target source
    && is_same_index_half_family target source
    && not (uses_plain_hl_counterpart target source)
    && is_compatible_byte_operand target
    && is_compatible_byte_operand source

abbrev pub ld_support_predicates : List (Operand → Operand → Bool)
ld_support_predicates =
    is_supported_special_register_ld ∷ is_supported_half_index_ld ∷ is_reg8_ld ∷ is_indexed_byte_ld
    ∷ is_reg16_immediate_ld ∷ is_legacy_reg16_ld ∷ is_index16_immediate_ld
    ∷ is_stack_pointer_register_ld ∷ is_register_from_absolute_memory_ld
    ∷ is_absolute_memory_from_register_ld ∷ is_accumulator_from_register_indirect_ld
    ∷ is_register_indirect_from_accumulator_ld ∷ is_hl_indirect_byte_ld
    ∷ is_byte_from_hl_indirect_ld ∷ []

-- `predicates.some((predicate) => predicate(target, source))`
unfoldable pub some_predicate : List (Operand → Operand → Bool) → Operand → Operand → Bool
some_predicate [] target source = false
some_predicate (predicate ∷ predicates) target source =
    predicate target source || some_predicate predicates target source

unfoldable pub is_supported_ld : Operand → Operand → Bool
unfolding some_predicate
is_supported_ld target source = some_predicate ld_support_predicates target source

-- The texts of `unsupportedLdReason`.
pub data LdReason : Type 0 where
  memory_to_memory : LdReason
  between_ix_and_iy : LdReason
  plain_hl_counterpart : LdReason
  register_pairs_only_to_sp : LdReason

abbrev pub unsupported_half_index_ld_reason : Operand → Operand → Option LdReason
unsupported_half_index_ld_reason target source =
    if not (has_half_index_register target source)
    then none
    else if not (is_same_index_half_family target source)
    then some LdReason.between_ix_and_iy
    else if uses_plain_hl_counterpart target source
    then some LdReason.plain_hl_counterpart
    else none

abbrev pub is_unsupported_index_pair_ld : Operand → Operand → Bool
is_unsupported_index_pair_ld (Operand.reg_index16 IndexRegister16.ix)
      (Operand.reg_index16 IndexRegister16.iy) =
    true
is_unsupported_index_pair_ld (Operand.reg_index16 IndexRegister16.iy)
      (Operand.reg_index16 IndexRegister16.ix) =
    true
is_unsupported_index_pair_ld target source = false

abbrev pub is_register_pair_ld_reason_candidate : Operand → Operand → Bool
is_register_pair_ld_reason_candidate target source =
    is_reg16 target && not (is_imm source) && (is_reg16 source || is_reg_index16 source)

abbrev pub is_supported_register_pair_ld : Operand → Operand → Bool
is_supported_register_pair_ld target source =
    is_stack_pointer_register_ld target source || is_legacy_reg16_ld target source

abbrev pub unsupported_register_pair_ld_reason : Operand → Operand → Option LdReason
unsupported_register_pair_ld_reason target source =
    if is_unsupported_index_pair_ld target source
    then some LdReason.register_pairs_only_to_sp
    else if not (is_register_pair_ld_reason_candidate target source)
    then none
    else if is_supported_register_pair_ld target source
    then none
    else some LdReason.register_pairs_only_to_sp

abbrev pub unsupported_ld_reason : Operand → Operand → Option LdReason
unsupported_ld_reason target source =
    if is_memory_operand target && is_memory_operand source
    then some LdReason.memory_to_memory
    else elim (unsupported_half_index_ld_reason target source) [
      | some reason ↦ some reason
      | none ↦ unsupported_register_pair_ld_reason target source
    ]
