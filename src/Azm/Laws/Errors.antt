-- ===== src/Azm/Laws/Errors.antt =====
-- The instructions that the encoder throws an error for.
use debug.Base.{List, [], ◌∷◌, ◌≡◌, arith, Bool, true, false, ◌&&◌, ◌%◌, ◌==◌, ltb}
use debug.Azm.Instruction.{
  HlAluMnemonic, WordRegister, Register16, IndexRegister16, Instruction, Fragment, Encoded, Outcome,
}
use debug.Azm.Encode.{encode_z80_instruction}
use debug.Azm.Encode.Ld.{encode_ld, first_ld_encoding}

-- With BC, DE, HL or SP as the target no source is refused, and IX and IY take BC, DE, SP and
-- themselves in an ADD.
abbrev pub can_add : HlAluMnemonic → WordRegister → WordRegister → Bool
can_add mnemonic (WordRegister.reg16 target) source = true
can_add HlAluMnemonic.add (WordRegister.index16 target) (WordRegister.reg16 Register16.hl) = false
can_add HlAluMnemonic.add (WordRegister.index16 target) (WordRegister.reg16 source) = true
can_add HlAluMnemonic.add (WordRegister.index16 IndexRegister16.ix)
      (WordRegister.index16 IndexRegister16.ix) =
    true
can_add HlAluMnemonic.add (WordRegister.index16 IndexRegister16.iy)
      (WordRegister.index16 IndexRegister16.iy) =
    true
can_add mnemonic target source = false

-- A restart is at a multiple of 8 below 64; everything else but the additions is accepted.
abbrev pub is_accepted : Instruction → Bool
is_accepted (Instruction.rst vector) = vector % 8 == 0 && ltb vector 64
is_accepted (Instruction.alu16 mnemonic target source) = can_add mnemonic target source
is_accepted instruction = true

abbrev pub returns : Outcome Encoded → Bool
returns (Outcome.returned encoded) = true
returns (Outcome.thrown error) = false

-- Whether a byte that is NaN stands in what is returned.
abbrev pub holds_nan : List Fragment → Bool
holds_nan [] = false
holds_nan (Fragment.bytes_before_nan opcode ∷ fragments) = true
holds_nan (fragment ∷ fragments) = holds_nan fragments

abbrev pub returns_nan : Outcome Encoded → Bool
returns_nan (Outcome.returned encoded) = holds_nan encoded.fragments
returns_nan (Outcome.thrown error) = false

-- A pair as the target and IX or IY as the source.
abbrev pub adds_index_to_pair : Instruction → Bool
adds_index_to_pair
      (Instruction.alu16 mnemonic (WordRegister.reg16 target) (WordRegister.index16 source)) =
    true
adds_index_to_pair instruction = false

-- The encoder throws exactly for a restart that is not at a multiple of 8 below 64, for an ADC or
-- SBC with IX or IY as the target, and for an ADD of HL or of the other index register to IX or IY.
-- A byte that is NaN is in what it returns exactly for an ADD, ADC or SBC with a register pair as
-- the target and IX or IY as the source.
pub encode_z80_instruction-returns :
    (i : Instruction)
    → (returns (encode_z80_instruction i) ≡ is_accepted i)
      × (returns_nan (encode_z80_instruction i) ≡ adds_index_to_pair i)
unfolding encode_z80_instruction encode_ld first_ld_encoding
encode_z80_instruction-returns i = (ground arith, ground arith)
