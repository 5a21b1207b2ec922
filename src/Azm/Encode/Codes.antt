-- ===== src/Azm/Encode/Codes.antt =====
-- packages/azm/src/z80/encode.ts and encode-ld-helpers.ts: the codes of registers and conditions,
-- and the small instructions that both files build from.
use debug.Base.{ℕ, ◌+◌, ◌*◌, Option, none, some, List, [], ◌∷◌, length}
use debug.Azm.Instruction.{
  RelativeCondition, Condition, Register8, Register16, IndexRegister16, IndexHalfRegister, Fragment,
  Encoded, Outcome, EncodeError,
}

abbrev pub register8_code : Register8 → ℕ
register8_code Register8.b = 0
register8_code Register8.c = 1
register8_code Register8.d = 2
register8_code Register8.e = 3
register8_code Register8.h = 4
register8_code Register8.l = 5
register8_code Register8.a = 7

abbrev pub register16_code : Register16 → ℕ
register16_code Register16.bc = 0
register16_code Register16.de = 1
register16_code Register16.hl = 2
register16_code Register16.sp = 3

abbrev pub half_index_register_code : IndexHalfRegister → ℕ
half_index_register_code IndexHalfRegister.ixh = 4
half_index_register_code IndexHalfRegister.iyh = 4
half_index_register_code IndexHalfRegister.ixl = 5
half_index_register_code IndexHalfRegister.iyl = 5

abbrev pub index_prefix : IndexRegister16 → ℕ
index_prefix IndexRegister16.ix = 0xdd
index_prefix IndexRegister16.iy = 0xfd

-- `register.startsWith('ix') ? 'ix' : 'iy'`
abbrev pub family : IndexHalfRegister → IndexRegister16
family IndexHalfRegister.ixh = IndexRegister16.ix
family IndexHalfRegister.ixl = IndexRegister16.ix
family IndexHalfRegister.iyh = IndexRegister16.iy
family IndexHalfRegister.iyl = IndexRegister16.iy

abbrev pub condition_code : Condition → ℕ
condition_code Condition.nz = 0
condition_code Condition.z = 1
condition_code Condition.nc = 2
condition_code Condition.c = 3
condition_code Condition.po = 4
condition_code Condition.pe = 5
condition_code Condition.p = 6
condition_code Condition.m = 7

-- A relative condition is one of the first four.
abbrev pub as_condition : RelativeCondition → Condition
as_condition RelativeCondition.nz = Condition.nz
as_condition RelativeCondition.z = Condition.z
as_condition RelativeCondition.nc = Condition.nc
as_condition RelativeCondition.c = Condition.c

abbrev pub ret_condition_opcode : Condition → ℕ
ret_condition_opcode condition = 0xc0 + condition_code condition * 8

abbrev pub jp_condition_opcode : Condition → ℕ
jp_condition_opcode condition = 0xc2 + condition_code condition * 8

abbrev pub call_condition_opcode : Condition → ℕ
call_condition_opcode condition = 0xc4 + condition_code condition * 8

abbrev pub jr_condition_opcode : RelativeCondition → ℕ
jr_condition_opcode condition = 0x20 + condition_code (as_condition condition) * 8

-- `{ size, fragments: [{ kind: 'bytes', bytes }] }` where the size is the number of the bytes.
abbrev pub of_bytes : List ℕ → Encoded
of_bytes opcode = record { size = length opcode; fragments = Fragment.bytes opcode ∷ [] }

abbrev pub one_byte_instruction : ℕ → Encoded
one_byte_instruction opcode = record { size = 1; fragments = Fragment.bytes (opcode ∷ []) ∷ [] }

-- An opcode followed by one expression.
abbrev pub opcode_then : ℕ → List ℕ → Fragment → Encoded
opcode_then size opcode operand = record {
  size = size;
  fragments = Fragment.bytes opcode ∷ operand ∷ [];
}

abbrev pub unsupported : Encoded
unsupported = record { size = 0; fragments = [] }

-- `Outcome` of the bytes that an opcode function gives or throws for.
abbrev pub encode_bytes : Outcome (List ℕ) → Outcome Encoded
encode_bytes (Outcome.returned opcode) = Outcome.returned (of_bytes opcode)
encode_bytes (Outcome.thrown error) = Outcome.thrown error

-- The prefix of the half register among a target and a source.
abbrev pub half_index_prefix : Option IndexHalfRegister → Option IndexHalfRegister → Outcome ℕ
half_index_prefix (some register) source = Outcome.returned (index_prefix (family register))
half_index_prefix none (some register) = Outcome.returned (index_prefix (family register))
half_index_prefix none none = Outcome.thrown EncodeError.expected_half_index_register
