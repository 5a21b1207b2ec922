-- ===== src/Azm/Tests.antt =====
-- The assembler at concrete instructions.
use debug.Base.{◌≡◌, refl, inl, none, some, ◌∷◌, [], true, negsuc}
use debug.Base.{ℕ, byte, arith}
use debug.Z80.Loaders.{ParsedHex, HexResult, parse_intel_hex}
use debug.Azm.Outputs.WriteHex.{EmittedByteMap, get, or_zero, write_hex}
use debug.Azm.Outputs.Laws.Lines.{LineEnding, ending}
use debug.Azm.Outputs.Laws.RoundTrip.{parse_intel_hex-write_hex}
use debug.Z80.Hardware.{Machine, mem_read}
use debug.Z80.Samples.{machine_of}
use debug.Z80.Processor.{execute}
use debug.Z80.Laws.Opcodes.{run}
use debug.Z80.Decode.Ed.{rld}
use debug.Azm.Expression.{Expression}
use debug.Azm.Instruction.{
  Register8, IndexRegister16, BitMnemonic, CoreMnemonic, RegisterIndirect, Operand, CbOperand,
  Instruction, Encoded, Fragment, Message, CbMnemonic, HlAluMnemonic, WordRegister, Register16,
}
use debug.Azm.Encode.{encode_z80_instruction}
use debug.Azm.Encode.Ld.{encode_ld}
use debug.Azm.Laws.Sizes.{IsWellFormed, encode_z80_instruction-IsWellFormed}
use debug.Azm.Laws.Errors.{returns, returns_nan, encode_z80_instruction-returns}
use debug.Azm.Laws.Transfers.{encodes, encode_ld-is_supported_ld}
use debug.Azm.LdSupport.{is_supported_ld}
use debug.Azm.Laws.Encoding.{encode_z80_instruction-execute}
use debug.Azm.Laws.Meaning.Core.{extended}

-- RES 3, (IX - 2)
abbrev res_indexed : Instruction
res_indexed =
    Instruction.bit_like BitMnemonic.res (inl 3)
      (CbOperand.indexed IndexRegister16.ix (Expression.number (negsuc 1))) none

abbrev res_encoded : Encoded
res_encoded = record {
  size = 4;
  fragments =
      Fragment.bytes (0xdd ∷ 0xcb ∷ [])
      ∷ Fragment.disp8 (Expression.number (negsuc 1))
          (some (Message.cb_expects_disp8 (CbMnemonic.bits BitMnemonic.res)))
      ∷ Fragment.bytes (0x9e ∷ [])
      ∷ [];
}

encode_z80_instruction-IsWellFormed_example : IsWellFormed res_encoded
unfolding encode_z80_instruction
encode_z80_instruction-IsWellFormed_example =
    encode_z80_instruction-IsWellFormed res_indexed res_encoded refl refl

-- ADD HL, IX
abbrev add_hl_ix : Instruction
add_hl_ix =
    Instruction.alu16 HlAluMnemonic.add (WordRegister.reg16 Register16.hl)
      (WordRegister.index16 IndexRegister16.ix)

encode_z80_instruction-returns_example :
    (returns (encode_z80_instruction add_hl_ix) ≡ true)
    × (returns_nan (encode_z80_instruction add_hl_ix) ≡ true)
encode_z80_instruction-returns_example = encode_z80_instruction-returns add_hl_ix

encode_ld-is_supported_ld_example :
    is_supported_ld (Operand.reg_indirect RegisterIndirect.bc) (Operand.reg8 Register8.a)
    ≡ encodes (encode_ld (Operand.reg_indirect RegisterIndirect.bc) (Operand.reg8 Register8.a))
encode_ld-is_supported_ld_example =
    encode_ld-is_supported_ld (Operand.reg_indirect RegisterIndirect.bc) (Operand.reg8 Register8.a)

abbrev rotating : Machine
rotating = machine_of (0xed ∷ 0x6f ∷ [])

abbrev rld_encoded : Encoded
rld_encoded = record { size = 2; fragments = Fragment.bytes (0xed ∷ 0x6f ∷ []) ∷ [] }

encode_z80_instruction-execute_example : (execute rotating).1 ≡ run (extended rld) rotating
unfolding machine_of mem_read encode_z80_instruction
encode_z80_instruction-execute_example =
    encode_z80_instruction-execute (Instruction.core CoreMnemonic.rld) (extended rld) rld_encoded
      rotating refl refl refl (refl, (refl, tt))

-- Two bytes at 0x8000, one at 0x7fff and one at 5.
abbrev emitted : EmittedByteMap
emitted = (0x8000, 0x12) ∷ (5, 0xc9) ∷ (0x7fff, 0xff) ∷ (0x8001, 0x34) ∷ []

parse_intel_hex-write_hex_example :
    (program : ParsedHex) × ((parse_intel_hex (write_hex emitted (ending LineEnding.crlf))
        ≡ HexResult.parsed program)
      × ((x : ℕ) → program.memory x ≡ byte (or_zero (get emitted x))))
parse_intel_hex-write_hex_example =
    parse_intel_hex-write_hex emitted LineEnding.crlf
      (omega arith, (omega arith, (omega arith, (omega arith, tt))))
