-- ===== src/Azm/Laws/Meaning/Transfers.antt =====
-- What each form of LD does.
use debug.Base.{Option, none, some}
use debug.Z80.Registers.{Reg, Pair, get_pair}
use debug.Z80.Hardware.{Handler, on_cpu}
use debug.Z80.Stack.{set_sp}
use debug.Z80.Decode.Operands.{
  get_operand, put_operand, ld_operand_n, ld_pair_nn, ld_mem_pair, ld_pair_mem,
}
use debug.Z80.Decode.Ed.{ld_a_i, ld_a_r, ld_mem_sp, ld_sp_mem}
use debug.Z80.Decode.Primary.Low.{ld_at_pair_a, ld_a_at_pair, ld_sp_nn, ld_mem_a, ld_a_mem}
use debug.Azm.Instruction.{Register8, Register16, SpecialRegister8, RegisterIndirect, Operand}
use debug.Z80.Decode.Dd.{
  ld_reg_indexed, ld_indexed_reg, ld_indexed_n, ld_ix_nn, ld_ix_mem, ld_mem_ix,
}
use debug.Azm.Encode.Codes.{family}
use debug.Azm.Laws.Meaning.Indexed.{
  on_index, beside_half, load_half, store_half, copy_half, sp_from_index,
}
use debug.Azm.Laws.Meaning.Core.{reg, pair_of, extended}

-- LD of a byte: what is read, and where it goes. `none` is the byte at HL.
abbrev pub copy_operand : Option Reg → Option Reg → Handler
copy_operand target source m = put_operand target (get_operand source m) m

-- LD, but for the two loads of words that are written as two of bytes.
abbrev pub transfer_handler : Operand → Operand → Option Handler
transfer_handler (Operand.reg8 target) (Operand.reg8 source) =
    some (copy_operand (some (reg target)) (some (reg source)))
transfer_handler (Operand.reg8 target) (Operand.reg_indirect RegisterIndirect.hl) =
    some (copy_operand (some (reg target)) none)
transfer_handler (Operand.reg_indirect RegisterIndirect.hl) (Operand.reg8 source) =
    some (copy_operand none (some (reg source)))
transfer_handler (Operand.reg8 Register8.a) (Operand.reg_indirect source) =
    some (ld_a_at_pair (pair_of source))
transfer_handler (Operand.reg_indirect target) (Operand.reg8 Register8.a) =
    some (ld_at_pair_a (pair_of target))
transfer_handler (Operand.reg8 target) (Operand.imm value) = some (ld_operand_n (some (reg target)))
transfer_handler (Operand.reg_indirect RegisterIndirect.hl) (Operand.imm value) =
    some (ld_operand_n none)
transfer_handler (Operand.reg8 Register8.a) (Operand.mem_abs address) = some ld_a_mem
transfer_handler (Operand.mem_abs address) (Operand.reg8 Register8.a) = some ld_mem_a
transfer_handler (Operand.reg16 Register16.bc) (Operand.imm value) = some (ld_pair_nn Pair.bc)
transfer_handler (Operand.reg16 Register16.de) (Operand.imm value) = some (ld_pair_nn Pair.de)
transfer_handler (Operand.reg16 Register16.hl) (Operand.imm value) = some (ld_pair_nn Pair.hl)
transfer_handler (Operand.reg16 Register16.sp) (Operand.imm value) = some ld_sp_nn
transfer_handler (Operand.reg16 Register16.bc) (Operand.mem_abs address) =
    some (extended (ld_pair_mem Pair.bc))
transfer_handler (Operand.reg16 Register16.de) (Operand.mem_abs address) =
    some (extended (ld_pair_mem Pair.de))
transfer_handler (Operand.reg16 Register16.hl) (Operand.mem_abs address) =
    some (ld_pair_mem Pair.hl)
transfer_handler (Operand.reg16 Register16.sp) (Operand.mem_abs address) = some (extended ld_sp_mem)
transfer_handler (Operand.mem_abs address) (Operand.reg16 Register16.bc) =
    some (extended (ld_mem_pair Pair.bc))
transfer_handler (Operand.mem_abs address) (Operand.reg16 Register16.de) =
    some (extended (ld_mem_pair Pair.de))
transfer_handler (Operand.mem_abs address) (Operand.reg16 Register16.hl) =
    some (ld_mem_pair Pair.hl)
transfer_handler (Operand.mem_abs address) (Operand.reg16 Register16.sp) = some (extended ld_mem_sp)
transfer_handler (Operand.reg16 Register16.sp) (Operand.reg16 Register16.hl) =
    some (on_cpu λ cpu. set_sp (get_pair Pair.hl cpu) cpu)
transfer_handler (Operand.special8 SpecialRegister8.i) (Operand.reg8 Register8.a) =
    some (extended (on_cpu λ cpu. record cpu { i = cpu.a }))
transfer_handler (Operand.special8 SpecialRegister8.r) (Operand.reg8 Register8.a) =
    some (extended (on_cpu λ cpu. record cpu { r = cpu.a }))
transfer_handler (Operand.reg8 Register8.a) (Operand.special8 SpecialRegister8.i) =
    some (extended (on_cpu ld_a_i))
transfer_handler (Operand.reg8 Register8.a) (Operand.special8 SpecialRegister8.r) =
    some (extended (on_cpu ld_a_r))
transfer_handler (Operand.reg8 target) (Operand.reg_half_index source) =
    beside_half target (on_index (family source) (load_half source (reg target)))
transfer_handler (Operand.reg_half_index target) (Operand.reg8 source) =
    beside_half source (on_index (family target) (store_half target (reg source)))
transfer_handler (Operand.reg_half_index target) (Operand.reg_half_index source) =
    copy_half target source
transfer_handler (Operand.reg8 target) (Operand.indexed source displacement) =
    some (on_index source (ld_reg_indexed (reg target)))
transfer_handler (Operand.indexed target displacement) (Operand.reg8 source) =
    some (on_index target (ld_indexed_reg (reg source)))
transfer_handler (Operand.indexed target displacement) (Operand.imm value) =
    some (on_index target ld_indexed_n)
transfer_handler (Operand.reg_index16 target) (Operand.imm value) = some (on_index target ld_ix_nn)
transfer_handler (Operand.reg_index16 target) (Operand.mem_abs address) =
    some (on_index target ld_ix_mem)
transfer_handler (Operand.mem_abs address) (Operand.reg_index16 source) =
    some (on_index source ld_mem_ix)
transfer_handler (Operand.reg16 Register16.sp) (Operand.reg_index16 source) =
    some (on_index source sp_from_index)
transfer_handler target source = none
