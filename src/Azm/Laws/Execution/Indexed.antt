-- ===== src/Azm/Laws/Execution/Indexed.antt =====
-- Opcodes after DD and FD, and after CB.
use debug.Base.{ℕ, zero, suc, arith, ◌+◌, ◌*◌, ◌≡◌, refl, ltb, true, some, none, [], ◌∷◌, get_or}
use debug.Z80.Hardware.{Handler}
use debug.Z80.Rotate.{get_byte_op}
use debug.Z80.Decode.Operands.{noop, operand_reg, get_operand, put_operand, apply_op}
use debug.Z80.Decode.Dd.{dd_instructions, alu_indexed, ld_reg_indexed, ld_indexed_reg}
use debug.Z80.Decode.Cb.{cb_operation}
use debug.Azm.Instruction.{
  Register8, IndexRegister16, IndexHalfRegister, AluMnemonic, BitMnemonic, RotateShiftMnemonic,
}
use debug.Azm.Encode.Codes.{register8_code, half_index_register_code, index_prefix}
use debug.Azm.Encode.Bytes.{alu_opcodes, rotate_shift_opcode_base, bit_like_opcode_base}
use debug.Azm.Laws.Meaning.Core.{reg, alu_operation}
use debug.Azm.Laws.Meaning.Indexed.{on_index, operate_half, rotate_op, bit_operation}
use debug.Azm.Laws.Execution.{Executes, double_dd, double_fd}

-- The handler on IX that an opcode after DD stands for.
abbrev pub OnIndex : ℕ → Handler → Type 0
OnIndex code handler = get_or dd_instructions code noop ≡ handler

pub double_index :
    (register : IndexRegister16) (code : ℕ) (handler : Handler)
    → OnIndex code handler
    → Executes (index_prefix register ∷ code ∷ []) (on_index register handler)
double_index IndexRegister16.ix = double_dd
double_index IndexRegister16.iy = double_fd

pub operate_half-OnIndex :
    (mnemonic : AluMnemonic) (source : IndexHalfRegister)
    → OnIndex
        ((alu_opcodes mnemonic).register_base + half_index_register_code source)
        (operate_half source (alu_operation mnemonic))
unfolding dd_instructions
operate_half-OnIndex AluMnemonic.add IndexHalfRegister.ixh = refl
operate_half-OnIndex AluMnemonic.adc IndexHalfRegister.ixh = refl
operate_half-OnIndex AluMnemonic.sub IndexHalfRegister.ixh = refl
operate_half-OnIndex AluMnemonic.sbc IndexHalfRegister.ixh = refl
operate_half-OnIndex AluMnemonic.and IndexHalfRegister.ixh = refl
operate_half-OnIndex AluMnemonic.or IndexHalfRegister.ixh = refl
operate_half-OnIndex AluMnemonic.xor IndexHalfRegister.ixh = refl
operate_half-OnIndex AluMnemonic.cp IndexHalfRegister.ixh = refl
operate_half-OnIndex _ _ = refl

pub alu_indexed-OnIndex :
    (mnemonic : AluMnemonic)
    → OnIndex (alu_opcodes mnemonic).mem_hl (alu_indexed (alu_operation mnemonic))
unfolding dd_instructions
alu_indexed-OnIndex AluMnemonic.add = refl
alu_indexed-OnIndex _ = refl

pub load_indexed-OnIndex :
    (target : Register8) → OnIndex (0x46 + register8_code target * 8) (ld_reg_indexed (reg target))
unfolding dd_instructions
load_indexed-OnIndex Register8.a = refl
load_indexed-OnIndex _ = refl

pub store_indexed-OnIndex :
    (source : Register8) → OnIndex (0x70 + register8_code source) (ld_indexed_reg (reg source))
unfolding dd_instructions
store_indexed-OnIndex Register8.a = refl
store_indexed-OnIndex _ = refl

-- The handler that an opcode after CB stands for.
abbrev pub AfterCb : ℕ → Handler → Type 0
AfterCb code handler = cb_operation code ≡ handler

pub rotate-AfterCb :
    (mnemonic : RotateShiftMnemonic) (register : Register8)
    → AfterCb
        (rotate_shift_opcode_base mnemonic + register8_code register)
        (apply_op (rotate_op mnemonic) (some (reg register)))
unfolding cb_operation get_byte_op apply_op operand_reg get_operand put_operand
rotate-AfterCb RotateShiftMnemonic.rlc Register8.a = refl
rotate-AfterCb RotateShiftMnemonic.rrc Register8.a = refl
rotate-AfterCb RotateShiftMnemonic.rl Register8.a = refl
rotate-AfterCb RotateShiftMnemonic.rr Register8.a = refl
rotate-AfterCb RotateShiftMnemonic.sla Register8.a = refl
rotate-AfterCb RotateShiftMnemonic.sra Register8.a = refl
rotate-AfterCb RotateShiftMnemonic.sll Register8.a = refl
rotate-AfterCb RotateShiftMnemonic.sls Register8.a = refl
rotate-AfterCb RotateShiftMnemonic.srl Register8.a = refl
rotate-AfterCb _ _ = refl

pub rotate_hl-AfterCb :
    (mnemonic : RotateShiftMnemonic)
    → AfterCb (rotate_shift_opcode_base mnemonic + 6) (apply_op (rotate_op mnemonic) none)
unfolding cb_operation get_byte_op apply_op operand_reg get_operand put_operand
rotate_hl-AfterCb RotateShiftMnemonic.rlc = refl
rotate_hl-AfterCb _ = refl

-- Each bit of a byte, by its number.
each_bit :
    (P : ℕ → Type 0)
    → P 0
    → P 1
    → P 2
    → P 3
    → P 4
    → P 5
    → P 6
    → P 7
    → (index : ℕ) → ltb index 8 ≡ true
    → P index
each_bit P p0 p1 p2 p3 p4 p5 p6 p7 zero e = p0
each_bit P p0 p1 p2 p3 p4 p5 p6 p7 (suc zero) e = p1
each_bit P p0 p1 p2 p3 p4 p5 p6 p7 (suc (suc zero)) e = p2
each_bit P p0 p1 p2 p3 p4 p5 p6 p7 (suc (suc (suc zero))) e = p3
each_bit P p0 p1 p2 p3 p4 p5 p6 p7 (suc (suc (suc (suc zero)))) e = p4
each_bit P p0 p1 p2 p3 p4 p5 p6 p7 (suc (suc (suc (suc (suc zero))))) e = p5
each_bit P p0 p1 p2 p3 p4 p5 p6 p7 (suc (suc (suc (suc (suc (suc zero)))))) e = p6
each_bit P p0 p1 p2 p3 p4 p5 p6 p7 (suc (suc (suc (suc (suc (suc (suc zero))))))) e = p7
each_bit P p0 p1 p2 p3 p4 p5 p6 p7 (suc (suc (suc (suc (suc (suc (suc (suc index)))))))) e =
    ground arith

pub bit-AfterCb :
    (mnemonic : BitMnemonic) (register : Register8) (index : ℕ)
    → ltb index 8 ≡ true
    → AfterCb
        (bit_like_opcode_base mnemonic + index * 8 + register8_code register)
        (bit_operation mnemonic index (some (reg register)))
unfolding cb_operation apply_op operand_reg get_operand put_operand
bit-AfterCb BitMnemonic.bit Register8.a = each_bit _ refl refl refl refl refl refl refl refl
bit-AfterCb BitMnemonic.res Register8.a = each_bit _ refl refl refl refl refl refl refl refl
bit-AfterCb BitMnemonic.set Register8.a = each_bit _ refl refl refl refl refl refl refl refl
bit-AfterCb _ _ = each_bit _ refl refl refl refl refl refl refl refl

pub bit_hl-AfterCb :
    (mnemonic : BitMnemonic) (index : ℕ)
    → ltb index 8 ≡ true
    → AfterCb (bit_like_opcode_base mnemonic + index * 8 + 6) (bit_operation mnemonic index none)
unfolding cb_operation apply_op operand_reg get_operand put_operand
bit_hl-AfterCb BitMnemonic.bit = each_bit _ refl refl refl refl refl refl refl refl
bit_hl-AfterCb _ = each_bit _ refl refl refl refl refl refl refl refl
