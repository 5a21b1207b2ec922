-- ===== src/Azm/Instruction.antt =====
-- packages/azm/src/z80/instruction.ts: instructions with their operands, and the fragments that
-- an encoded instruction is made of.
use debug.Base.{ℕ, Option, List, ◌⊎◌}
use debug.Azm.Expression.{Expression}

pub data RelativeCondition : Type 0 where
  nz z nc c : RelativeCondition

pub data Condition : Type 0 where
  nz z nc c po pe p m : Condition

pub data AluMnemonic : Type 0 where
  add adc sub sbc and or xor cp : AluMnemonic

pub data CoreMnemonic : Type 0 where
  di ei scf ccf cpl daa exx halt rlca rrca rla rra neg rrd rld ldi ldir ldd lddr : CoreMnemonic
  cpi cpir cpd cpdr ini inir ind indr outi otir outd otdr reti retn : CoreMnemonic

pub data HlAluMnemonic : Type 0 where
  add adc sbc : HlAluMnemonic

pub data BitMnemonic : Type 0 where
  bit res set : BitMnemonic

pub data RotateShiftMnemonic : Type 0 where
  rlc rrc rl rr sla sra sll sls srl : RotateShiftMnemonic

pub data IncDecMnemonic : Type 0 where
  inc dec : IncDecMnemonic

pub data StackMnemonic : Type 0 where
  push pop : StackMnemonic

pub data Register8 : Type 0 where
  a b c d e h l : Register8

pub data Register16 : Type 0 where
  bc de hl sp : Register16

pub data IndexRegister16 : Type 0 where
  ix iy : IndexRegister16

pub data IndexHalfRegister : Type 0 where
  ixh ixl iyh iyl : IndexHalfRegister

pub data SpecialRegister8 : Type 0 where
  i r : SpecialRegister8

pub data StackRegister16 : Type 0 where
  bc de hl af ix iy : StackRegister16

pub data RegisterIndirect : Type 0 where
  bc de hl : RegisterIndirect

pub data JumpIndirectRegister : Type 0 where
  hl ix iy : JumpIndirectRegister

pub data ExchangeForm : Type 0 where
  af_af de_hl sp_hl sp_ix sp_iy : ExchangeForm

pub data InterruptMode : Type 0 where
  mode_0 mode_1 mode_2 : InterruptMode

-- `Z80Register16 | Z80IndexRegister16`
pub data WordRegister : Type 0 where
  reg16 : Register16 → WordRegister
  index16 : IndexRegister16 → WordRegister

pub data Operand : Type 0 where
  reg8 : Register8 → Operand
  reg16 : Register16 → Operand
  reg_index16 : IndexRegister16 → Operand
  reg_half_index : IndexHalfRegister → Operand
  special8 : SpecialRegister8 → Operand
  reg_indirect : RegisterIndirect → Operand
  mem_abs : Expression → Operand
  indexed : IndexRegister16 → Expression → Operand
  imm : Expression → Operand

pub data IncDecOperand : Type 0 where
  reg8 : Register8 → IncDecOperand
  reg16 : WordRegister → IncDecOperand
  reg_half_index : IndexHalfRegister → IncDecOperand
  hl_indirect : IncDecOperand
  indexed : IndexRegister16 → Expression → IncDecOperand

-- The operand of a bit, rotate or shift instruction.
pub data CbOperand : Type 0 where
  reg8 : Register8 → CbOperand
  hl_indirect : CbOperand
  indexed : IndexRegister16 → Expression → CbOperand

pub data Port : Type 0 where
  at_c : Port
  imm : Expression → Port

pub data OutSource : Type 0 where
  reg8 : Register8 → OutSource
  zero_source : OutSource

-- The vector of RST and the bit index are the numbers of the source; its types allow eight of
-- each, see IsTyped.
pub data Instruction : Type 0 where
  nop ret : Instruction
  ret_cc : Condition → Instruction
  core : CoreMnemonic → Instruction
  ex : ExchangeForm → Instruction
  im : InterruptMode → Instruction
  rst : ℕ → Instruction
  inc_dec : IncDecMnemonic → IncDecOperand → Instruction
  stack : StackMnemonic → StackRegister16 → Instruction
  ld_a_imm : Expression → Instruction
  ld : Operand → Operand → Instruction
  input : Option Register8 → Port → Instruction
  output : Port → OutSource → Instruction
  bit_like : BitMnemonic → ℕ ⊎ Expression → CbOperand → Option Register8 → Instruction
  rotate_shift : RotateShiftMnemonic → CbOperand → Option Register8 → Instruction
  alu : AluMnemonic → Operand → Instruction
  alu16 : HlAluMnemonic → WordRegister → WordRegister → Instruction
  jp : Expression → Instruction
  jp_cc : Condition → Expression → Instruction
  jp_indirect : JumpIndirectRegister → Instruction
  call : Expression → Instruction
  call_cc : Condition → Expression → Instruction
  jr : Expression → Instruction
  jr_cc : RelativeCondition → Expression → Instruction
  djnz : Expression → Instruction

pub data CbMnemonic : Type 0 where
  bits : BitMnemonic → CbMnemonic
  rotates : RotateShiftMnemonic → CbMnemonic

pub data BranchMnemonic : Type 0 where
  jr djnz : BranchMnemonic
  jr_cc : RelativeCondition → BranchMnemonic

-- The texts of the diagnostics that a fragment carries.
pub data Message : Type 0 where
  in_expects_imm8_port out_expects_imm8_port : Message
  ld_unsupported_form ld_expects_disp8 ld_n_expects_disp8 : Message
  cb_expects_disp8 : CbMnemonic → Message

-- `bytes_before_nan` is a fragment of kind `bytes` whose last byte is NaN, with the bytes before it.
pub data Fragment : Type 0 where
  bytes : List ℕ → Fragment
  bytes_before_nan : List ℕ → Fragment
  cb_bit_opcode : BitMnemonic → Expression → ℕ → Fragment
  imm8 : Expression → Option Message → Fragment
  port8 : Expression → Message → Fragment
  disp8 : Expression → Option Message → Fragment
  abs16 : Expression → Fragment
  rel8 : Expression → BranchMnemonic → Fragment

pub record Encoded : Type 0 where
  pub size : ℕ
  pub fragments : List Fragment

-- The errors that the encoder throws.
pub data EncodeError : Type 0 where
  invalid_rst_vector : ℕ → EncodeError
  unsupported_indexed_target : HlAluMnemonic → IndexRegister16 → EncodeError
  unsupported_indexed_source : WordRegister → EncodeError
  unsupported_ld_sp_source : WordRegister → EncodeError
  expected_half_index_register : EncodeError

-- What a call gives: its value, or an error that it throws.
pub data Outcome {ℓ} (A : Type ℓ) : Type ℓ where
  returned : A → Outcome A
  thrown : EncodeError → Outcome A
