-- ===== src/Azm/Laws/Sizes.antt =====
-- An encoded instruction is as long as it says, and made of bytes.
use debug.Base.{subst, ℕ, ◌+◌, ◌≤◌, ◌<◌, ◌≡◌, Bool, true, false, ltb, arith, List, [], ◌∷◌, length}
use debug.Base.{All, inl}
use debug.Azm.Instruction.{Fragment, WordRegister, Instruction, Encoded, Outcome}
use debug.Azm.Encode.{encode_z80_instruction}
use debug.Azm.Encode.Ld.{encode_ld, first_ld_encoding}

-- The bytes that a fragment stands for.
abbrev pub fragment_size : Fragment → ℕ
fragment_size (Fragment.bytes opcode) = length opcode
fragment_size (Fragment.bytes_before_nan opcode) = length opcode + 1
fragment_size (Fragment.cb_bit_opcode mnemonic index code) = 1
fragment_size (Fragment.imm8 expression message) = 1
fragment_size (Fragment.port8 expression message) = 1
fragment_size (Fragment.disp8 expression message) = 1
fragment_size (Fragment.abs16 expression) = 2
fragment_size (Fragment.rel8 expression mnemonic) = 1

abbrev pub total_size : List Fragment → ℕ
total_size [] = 0
total_size (fragment ∷ fragments) = fragment_size fragment + total_size fragments

abbrev pub IsByteFragment : Fragment → Type 0
IsByteFragment (Fragment.bytes opcode) = All (λ code. code < 256) opcode
IsByteFragment (Fragment.bytes_before_nan opcode) = ⊥
IsByteFragment (Fragment.cb_bit_opcode mnemonic index code) = code < 8
IsByteFragment fragment = Unit

pub record IsWellFormed (encoded : Encoded) : Type 0 where
  pub size_is_total : encoded.size ≡ total_size encoded.fragments
  pub at_most_4 : encoded.size ≤ 4
  pub made_of_bytes : All IsByteFragment encoded.fragments

-- What holds of an instruction that is returned.
abbrev pub Returning : (Encoded → Type 0) → Outcome Encoded → Type 0
Returning P (Outcome.returned encoded) = P encoded
Returning P (Outcome.thrown error) = Unit

-- `Z80BitIndex`, where the bit is a number, and no IX or IY as the source beside a register pair.
abbrev pub has_codes : Instruction → Bool
has_codes (Instruction.bit_like mnemonic (inl index) operand destination) = ltb index 8
has_codes (Instruction.alu16 mnemonic (WordRegister.reg16 target) (WordRegister.index16 source)) =
    false
has_codes instruction = true

module _ (i : Instruction) where
  pub size_is_total : Returning (λ e. e.size ≡ total_size e.fragments) (encode_z80_instruction i)
  unfolding encode_z80_instruction encode_ld first_ld_encoding
  size_is_total = ground arith

  at_most_4 : Returning (λ e. e.size ≤ 4) (encode_z80_instruction i)
  unfolding encode_z80_instruction encode_ld first_ld_encoding
  at_most_4 = ground arith

  made_of_bytes :
      has_codes i ≡ true
      → Returning (λ e. All IsByteFragment e.fragments) (encode_z80_instruction i)
  unfolding encode_z80_instruction encode_ld first_ld_encoding
  made_of_bytes h = ground arith

returned-IsWellFormed :
    (outcome : Outcome Encoded)
    → Returning (λ e. e.size ≡ total_size e.fragments) outcome
    → Returning (λ e. e.size ≤ 4) outcome
    → Returning (λ e. All IsByteFragment e.fragments) outcome
    → Returning IsWellFormed outcome
returned-IsWellFormed (Outcome.returned encoded) p q r = record {
  size_is_total = p;
  at_most_4 = q;
  made_of_bytes = r;
}
returned-IsWellFormed (Outcome.thrown error) p q r = tt

-- What the encoder returns has as many bytes as its size says, at most four, and all of them below
-- 256, for an instruction whose bit index, where it is a number, is one of 0 to 7, and which does
-- not add IX or IY to, or subtract it from, one of BC, DE, HL and SP.
pub encode_z80_instruction-IsWellFormed :
    (i : Instruction) (encoded : Encoded)
    → has_codes i ≡ true
    → encode_z80_instruction i ≡ Outcome.returned encoded
    → IsWellFormed encoded
encode_z80_instruction-IsWellFormed i encoded h e = subst (Returning IsWellFormed) e (
    returned-IsWellFormed (encode_z80_instruction i) (size_is_total i) (at_most_4 i)
      (made_of_bytes i h))
