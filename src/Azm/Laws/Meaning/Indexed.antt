-- ===== src/Azm/Laws/Meaning/Indexed.antt =====
-- What the instructions on IX and IY do, and those after the prefix CB.
use debug.Base.{ℕ, ◌+◌, ◌/◌, Option, none, some, word, byte, int_sub}
use debug.Z80.State.{Cpu}
use debug.Z80.Registers.{Reg}
use debug.Z80.Hardware.{Handler, on_cpu}
use debug.Z80.Alu.{do_inc, do_dec}
use debug.Z80.Rotate.{ByteOp, do_rlc, do_rrc, do_rl, do_rr, do_sla, do_sra, do_sll, do_srl}
use debug.Z80.Stack.{set_sp, push_word}
use debug.Z80.Jump.{land_at}
use debug.Z80.Decode.Operands.{noop, get_operand, put_operand}
use debug.Z80.Decode.Cb.{bit_flags, reset_bit, set_bit}
use debug.Z80.Decode.Dd.{
  set_ix, set_ixh, set_ixl, op_ixh, op_ixl, pop_ix, add_ix, ld_reg_ixh, ld_reg_ixl, ld_ixh_reg,
  ld_ixl_reg, alu_ixh, alu_ixl,
}
use debug.Azm.Instruction.{
  IncDecMnemonic, StackMnemonic, BitMnemonic, RotateShiftMnemonic, Register8, Register16,
  IndexRegister16, IndexHalfRegister, WordRegister,
}
use debug.Azm.Laws.Meaning.Core.{word_of, extended, with_iy}

-- A handler of IX under the prefix DD, or with IY in its place under FD.
abbrev pub on_index : IndexRegister16 → Handler → Handler
on_index IndexRegister16.ix handler = extended handler
on_index IndexRegister16.iy handler = extended (with_iy handler)

abbrev pub count_index : IncDecMnemonic → Handler
count_index IncDecMnemonic.inc = on_cpu λ cpu. set_ix (word (cpu.ix + 1)) cpu
count_index IncDecMnemonic.dec = on_cpu λ cpu. set_ix (word (int_sub cpu.ix 1)) cpu

abbrev pub count_op : IncDecMnemonic → ByteOp
count_op IncDecMnemonic.inc = do_inc
count_op IncDecMnemonic.dec = do_dec

abbrev pub count_half : IndexHalfRegister → ByteOp → Handler
count_half IndexHalfRegister.ixh op = on_cpu (op_ixh op)
count_half IndexHalfRegister.ixl op = on_cpu (op_ixl op)
count_half IndexHalfRegister.iyh op = on_cpu (op_ixh op)
count_half IndexHalfRegister.iyl op = on_cpu (op_ixl op)

abbrev pub stack_index : StackMnemonic → Handler
stack_index StackMnemonic.push = λ m. push_word m.cpu.ix m
stack_index StackMnemonic.pop = pop_ix

abbrev pub jump_index : Handler
jump_index m = land_at m.cpu.ix m

abbrev pub sp_from_index : Handler
sp_from_index = on_cpu λ cpu. set_sp cpu.ix cpu

abbrev pub operate_half : IndexHalfRegister → (ℕ → Cpu → Cpu) → Handler
operate_half IndexHalfRegister.ixh = alu_ixh
operate_half IndexHalfRegister.ixl = alu_ixl
operate_half IndexHalfRegister.iyh = alu_ixh
operate_half IndexHalfRegister.iyl = alu_ixl

-- LD of a half register to a register and back. H and L do not stand beside one.
abbrev pub load_half : IndexHalfRegister → Reg → Handler
load_half IndexHalfRegister.ixh = ld_reg_ixh
load_half IndexHalfRegister.ixl = ld_reg_ixl
load_half IndexHalfRegister.iyh = ld_reg_ixh
load_half IndexHalfRegister.iyl = ld_reg_ixl

abbrev pub store_half : IndexHalfRegister → Reg → Handler
store_half IndexHalfRegister.ixh = ld_ixh_reg
store_half IndexHalfRegister.ixl = ld_ixl_reg
store_half IndexHalfRegister.iyh = ld_ixh_reg
store_half IndexHalfRegister.iyl = ld_ixl_reg

abbrev pub beside_half : Register8 → Handler → Option Handler
beside_half Register8.h transfer = none
beside_half Register8.l transfer = none
beside_half register transfer = some transfer

abbrev pub copy_half : IndexHalfRegister → IndexHalfRegister → Option Handler
copy_half IndexHalfRegister.ixh IndexHalfRegister.ixh = some (on_index IndexRegister16.ix noop)
copy_half IndexHalfRegister.ixl IndexHalfRegister.ixl = some (on_index IndexRegister16.ix noop)
copy_half IndexHalfRegister.iyh IndexHalfRegister.iyh = some (on_index IndexRegister16.iy noop)
copy_half IndexHalfRegister.iyl IndexHalfRegister.iyl = some (on_index IndexRegister16.iy noop)
copy_half IndexHalfRegister.ixh IndexHalfRegister.ixl =
    some (on_index IndexRegister16.ix (on_cpu λ cpu. set_ixh (byte cpu.ix) cpu))
copy_half IndexHalfRegister.ixl IndexHalfRegister.ixh =
    some (on_index IndexRegister16.ix (on_cpu λ cpu. set_ixl (cpu.ix / 256) cpu))
copy_half IndexHalfRegister.iyh IndexHalfRegister.iyl =
    some (on_index IndexRegister16.iy (on_cpu λ cpu. set_ixh (byte cpu.ix) cpu))
copy_half IndexHalfRegister.iyl IndexHalfRegister.iyh =
    some (on_index IndexRegister16.iy (on_cpu λ cpu. set_ixl (cpu.ix / 256) cpu))
copy_half target source = none

-- ADD IX with BC, DE, SP or itself; HL has no such opcode.
abbrev pub add_index : IndexRegister16 → WordRegister → Option Handler
add_index target (WordRegister.reg16 Register16.bc) =
    some (on_index target (add_ix (word_of Register16.bc)))
add_index target (WordRegister.reg16 Register16.de) =
    some (on_index target (add_ix (word_of Register16.de)))
add_index target (WordRegister.reg16 Register16.sp) =
    some (on_index target (add_ix (word_of Register16.sp)))
add_index IndexRegister16.ix (WordRegister.index16 IndexRegister16.ix) =
    some (on_index IndexRegister16.ix (add_ix λ cpu. cpu.ix))
add_index IndexRegister16.iy (WordRegister.index16 IndexRegister16.iy) =
    some (on_index IndexRegister16.iy (add_ix λ cpu. cpu.ix))
add_index target source = none

abbrev pub rotate_op : RotateShiftMnemonic → ByteOp
rotate_op RotateShiftMnemonic.rlc = do_rlc
rotate_op RotateShiftMnemonic.rrc = do_rrc
rotate_op RotateShiftMnemonic.rl = do_rl
rotate_op RotateShiftMnemonic.rr = do_rr
rotate_op RotateShiftMnemonic.sla = do_sla
rotate_op RotateShiftMnemonic.sra = do_sra
rotate_op RotateShiftMnemonic.sll = do_sll
rotate_op RotateShiftMnemonic.sls = do_sll
rotate_op RotateShiftMnemonic.srl = do_srl

-- BIT, RES and SET on a register, or on the byte at HL.
abbrev pub bit_operation : BitMnemonic → ℕ → Option Reg → Handler
bit_operation BitMnemonic.bit index target m =
    on_cpu (λ cpu. record cpu { flags = bit_flags index (get_operand target m) cpu.flags }) m
bit_operation BitMnemonic.res index target m =
    put_operand target (reset_bit index (get_operand target m)) m
bit_operation BitMnemonic.set index target m =
    put_operand target (set_bit index (get_operand target m)) m
