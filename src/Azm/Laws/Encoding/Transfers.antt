-- ===== src/Azm/Laws/Encoding/Transfers.antt =====
-- Each form of LD, encoded and executed.
use debug.Base.{refl}
use debug.Z80.Decode.Primary.{instructions, primary_operation}
use debug.Z80.Decode.Operands.{operand_reg, get_operand, put_operand}
use debug.Z80.Decode.Ed.{ed_instructions}
use debug.Azm.Instruction.{
  Register8, Register16, SpecialRegister8, RegisterIndirect, Operand, Instruction,
}
use debug.Azm.Encode.{encode_z80_instruction}
use debug.Azm.Encode.Ld.{encode_ld, first_ld_encoding}
use debug.Azm.Laws.Execution.{single, double, double_dd, double_fd}
use debug.Azm.Laws.Execution.Indexed.{double_index, load_indexed-OnIndex, store_indexed-OnIndex}
use debug.Z80.Decode.Dd.{dd_instructions}
use debug.Azm.Instruction.{IndexRegister16, IndexHalfRegister}
use debug.Azm.Laws.Execution.Bytes.{copy-Performs, load-Performs, store-Performs, load_n-Performs}
use debug.Azm.Laws.Encoding.Obligation.{IsMet}

pub transfer-IsMet : (target source : Operand) → IsMet (Instruction.ld target source)
unfolding encode_z80_instruction encode_ld first_ld_encoding primary_operation instructions
    ed_instructions dd_instructions operand_reg get_operand put_operand
transfer-IsMet (Operand.reg8 Register8.a) (Operand.reg8 source) =
    single _ _ (copy-Performs Register8.a source)
transfer-IsMet (Operand.reg8 Register8.b) (Operand.reg8 source) =
    single _ _ (copy-Performs Register8.b source)
transfer-IsMet (Operand.reg8 Register8.c) (Operand.reg8 source) =
    single _ _ (copy-Performs Register8.c source)
transfer-IsMet (Operand.reg8 Register8.d) (Operand.reg8 source) =
    single _ _ (copy-Performs Register8.d source)
transfer-IsMet (Operand.reg8 Register8.e) (Operand.reg8 source) =
    single _ _ (copy-Performs Register8.e source)
transfer-IsMet (Operand.reg8 Register8.h) (Operand.reg8 source) =
    single _ _ (copy-Performs Register8.h source)
transfer-IsMet (Operand.reg8 Register8.l) (Operand.reg8 source) =
    single _ _ (copy-Performs Register8.l source)
transfer-IsMet (Operand.reg8 Register8.a) (Operand.reg_indirect RegisterIndirect.hl) =
    single _ _ (load-Performs Register8.a)
transfer-IsMet (Operand.reg8 Register8.b) (Operand.reg_indirect RegisterIndirect.hl) =
    single _ _ (load-Performs Register8.b)
transfer-IsMet (Operand.reg8 Register8.c) (Operand.reg_indirect RegisterIndirect.hl) =
    single _ _ (load-Performs Register8.c)
transfer-IsMet (Operand.reg8 Register8.d) (Operand.reg_indirect RegisterIndirect.hl) =
    single _ _ (load-Performs Register8.d)
transfer-IsMet (Operand.reg8 Register8.e) (Operand.reg_indirect RegisterIndirect.hl) =
    single _ _ (load-Performs Register8.e)
transfer-IsMet (Operand.reg8 Register8.h) (Operand.reg_indirect RegisterIndirect.hl) =
    single _ _ (load-Performs Register8.h)
transfer-IsMet (Operand.reg8 Register8.l) (Operand.reg_indirect RegisterIndirect.hl) =
    single _ _ (load-Performs Register8.l)
transfer-IsMet (Operand.reg_indirect RegisterIndirect.hl) (Operand.reg8 Register8.a) =
    single _ _ (store-Performs Register8.a)
transfer-IsMet (Operand.reg_indirect RegisterIndirect.hl) (Operand.reg8 Register8.b) =
    single _ _ (store-Performs Register8.b)
transfer-IsMet (Operand.reg_indirect RegisterIndirect.hl) (Operand.reg8 Register8.c) =
    single _ _ (store-Performs Register8.c)
transfer-IsMet (Operand.reg_indirect RegisterIndirect.hl) (Operand.reg8 Register8.d) =
    single _ _ (store-Performs Register8.d)
transfer-IsMet (Operand.reg_indirect RegisterIndirect.hl) (Operand.reg8 Register8.e) =
    single _ _ (store-Performs Register8.e)
transfer-IsMet (Operand.reg_indirect RegisterIndirect.hl) (Operand.reg8 Register8.h) =
    single _ _ (store-Performs Register8.h)
transfer-IsMet (Operand.reg_indirect RegisterIndirect.hl) (Operand.reg8 Register8.l) =
    single _ _ (store-Performs Register8.l)
transfer-IsMet (Operand.reg8 Register8.a) (Operand.reg_indirect RegisterIndirect.bc) =
    single _ _ refl
transfer-IsMet (Operand.reg_indirect RegisterIndirect.bc) (Operand.reg8 Register8.a) =
    single _ _ refl
transfer-IsMet (Operand.reg8 Register8.a) (Operand.reg_indirect RegisterIndirect.de) =
    single _ _ refl
transfer-IsMet (Operand.reg_indirect RegisterIndirect.de) (Operand.reg8 Register8.a) =
    single _ _ refl
transfer-IsMet (Operand.reg8 target) (Operand.imm value) = single _ _ (load_n-Performs target)
transfer-IsMet (Operand.reg_indirect RegisterIndirect.hl) (Operand.imm value) = single _ _ refl
transfer-IsMet (Operand.reg8 Register8.a) (Operand.mem_abs address) = single _ _ refl
transfer-IsMet (Operand.mem_abs address) (Operand.reg8 Register8.a) = single _ _ refl
transfer-IsMet (Operand.reg16 Register16.bc) (Operand.imm value) = single _ _ refl
transfer-IsMet (Operand.reg16 Register16.de) (Operand.imm value) = single _ _ refl
transfer-IsMet (Operand.reg16 Register16.hl) (Operand.imm value) = single _ _ refl
transfer-IsMet (Operand.reg16 Register16.sp) (Operand.imm value) = single _ _ refl
transfer-IsMet (Operand.reg16 Register16.bc) (Operand.mem_abs address) = double _ _ refl
transfer-IsMet (Operand.mem_abs address) (Operand.reg16 Register16.bc) = double _ _ refl
transfer-IsMet (Operand.reg16 Register16.de) (Operand.mem_abs address) = double _ _ refl
transfer-IsMet (Operand.mem_abs address) (Operand.reg16 Register16.de) = double _ _ refl
transfer-IsMet (Operand.reg16 Register16.hl) (Operand.mem_abs address) = single _ _ refl
transfer-IsMet (Operand.mem_abs address) (Operand.reg16 Register16.hl) = single _ _ refl
transfer-IsMet (Operand.reg16 Register16.sp) (Operand.mem_abs address) = double _ _ refl
transfer-IsMet (Operand.mem_abs address) (Operand.reg16 Register16.sp) = double _ _ refl
transfer-IsMet (Operand.reg16 Register16.sp) (Operand.reg16 Register16.hl) = single _ _ refl
transfer-IsMet (Operand.special8 SpecialRegister8.i) (Operand.reg8 Register8.a) = double _ _ refl
transfer-IsMet (Operand.reg8 Register8.a) (Operand.special8 SpecialRegister8.i) = double _ _ refl
transfer-IsMet (Operand.special8 SpecialRegister8.r) (Operand.reg8 Register8.a) = double _ _ refl
transfer-IsMet (Operand.reg8 Register8.a) (Operand.special8 SpecialRegister8.r) = double _ _ refl
transfer-IsMet (Operand.reg8 Register8.a) (Operand.reg_half_index IndexHalfRegister.ixh) =
    double_dd _ _ refl
transfer-IsMet (Operand.reg_half_index IndexHalfRegister.ixh) (Operand.reg8 Register8.a) =
    double_dd _ _ refl
transfer-IsMet (Operand.reg8 Register8.a) (Operand.reg_half_index IndexHalfRegister.ixl) =
    double_dd _ _ refl
transfer-IsMet (Operand.reg_half_index IndexHalfRegister.ixl) (Operand.reg8 Register8.a) =
    double_dd _ _ refl
transfer-IsMet (Operand.reg8 Register8.a) (Operand.reg_half_index IndexHalfRegister.iyh) =
    double_fd _ _ refl
transfer-IsMet (Operand.reg_half_index IndexHalfRegister.iyh) (Operand.reg8 Register8.a) =
    double_fd _ _ refl
transfer-IsMet (Operand.reg8 Register8.a) (Operand.reg_half_index IndexHalfRegister.iyl) =
    double_fd _ _ refl
transfer-IsMet (Operand.reg_half_index IndexHalfRegister.iyl) (Operand.reg8 Register8.a) =
    double_fd _ _ refl
transfer-IsMet (Operand.reg8 Register8.b) (Operand.reg_half_index IndexHalfRegister.ixh) =
    double_dd _ _ refl
transfer-IsMet (Operand.reg_half_index IndexHalfRegister.ixh) (Operand.reg8 Register8.b) =
    double_dd _ _ refl
transfer-IsMet (Operand.reg8 Register8.b) (Operand.reg_half_index IndexHalfRegister.ixl) =
    double_dd _ _ refl
transfer-IsMet (Operand.reg_half_index IndexHalfRegister.ixl) (Operand.reg8 Register8.b) =
    double_dd _ _ refl
transfer-IsMet (Operand.reg8 Register8.b) (Operand.reg_half_index IndexHalfRegister.iyh) =
    double_fd _ _ refl
transfer-IsMet (Operand.reg_half_index IndexHalfRegister.iyh) (Operand.reg8 Register8.b) =
    double_fd _ _ refl
transfer-IsMet (Operand.reg8 Register8.b) (Operand.reg_half_index IndexHalfRegister.iyl) =
    double_fd _ _ refl
transfer-IsMet (Operand.reg_half_index IndexHalfRegister.iyl) (Operand.reg8 Register8.b) =
    double_fd _ _ refl
transfer-IsMet (Operand.reg8 Register8.c) (Operand.reg_half_index IndexHalfRegister.ixh) =
    double_dd _ _ refl
transfer-IsMet (Operand.reg_half_index IndexHalfRegister.ixh) (Operand.reg8 Register8.c) =
    double_dd _ _ refl
transfer-IsMet (Operand.reg8 Register8.c) (Operand.reg_half_index IndexHalfRegister.ixl) =
    double_dd _ _ refl
transfer-IsMet (Operand.reg_half_index IndexHalfRegister.ixl) (Operand.reg8 Register8.c) =
    double_dd _ _ refl
transfer-IsMet (Operand.reg8 Register8.c) (Operand.reg_half_index IndexHalfRegister.iyh) =
    double_fd _ _ refl
transfer-IsMet (Operand.reg_half_index IndexHalfRegister.iyh) (Operand.reg8 Register8.c) =
    double_fd _ _ refl
transfer-IsMet (Operand.reg8 Register8.c) (Operand.reg_half_index IndexHalfRegister.iyl) =
    double_fd _ _ refl
transfer-IsMet (Operand.reg_half_index IndexHalfRegister.iyl) (Operand.reg8 Register8.c) =
    double_fd _ _ refl
transfer-IsMet (Operand.reg8 Register8.d) (Operand.reg_half_index IndexHalfRegister.ixh) =
    double_dd _ _ refl
transfer-IsMet (Operand.reg_half_index IndexHalfRegister.ixh) (Operand.reg8 Register8.d) =
    double_dd _ _ refl
transfer-IsMet (Operand.reg8 Register8.d) (Operand.reg_half_index IndexHalfRegister.ixl) =
    double_dd _ _ refl
transfer-IsMet (Operand.reg_half_index IndexHalfRegister.ixl) (Operand.reg8 Register8.d) =
    double_dd _ _ refl
transfer-IsMet (Operand.reg8 Register8.d) (Operand.reg_half_index IndexHalfRegister.iyh) =
    double_fd _ _ refl
transfer-IsMet (Operand.reg_half_index IndexHalfRegister.iyh) (Operand.reg8 Register8.d) =
    double_fd _ _ refl
transfer-IsMet (Operand.reg8 Register8.d) (Operand.reg_half_index IndexHalfRegister.iyl) =
    double_fd _ _ refl
transfer-IsMet (Operand.reg_half_index IndexHalfRegister.iyl) (Operand.reg8 Register8.d) =
    double_fd _ _ refl
transfer-IsMet (Operand.reg8 Register8.e) (Operand.reg_half_index IndexHalfRegister.ixh) =
    double_dd _ _ refl
transfer-IsMet (Operand.reg_half_index IndexHalfRegister.ixh) (Operand.reg8 Register8.e) =
    double_dd _ _ refl
transfer-IsMet (Operand.reg8 Register8.e) (Operand.reg_half_index IndexHalfRegister.ixl) =
    double_dd _ _ refl
transfer-IsMet (Operand.reg_half_index IndexHalfRegister.ixl) (Operand.reg8 Register8.e) =
    double_dd _ _ refl
transfer-IsMet (Operand.reg8 Register8.e) (Operand.reg_half_index IndexHalfRegister.iyh) =
    double_fd _ _ refl
transfer-IsMet (Operand.reg_half_index IndexHalfRegister.iyh) (Operand.reg8 Register8.e) =
    double_fd _ _ refl
transfer-IsMet (Operand.reg8 Register8.e) (Operand.reg_half_index IndexHalfRegister.iyl) =
    double_fd _ _ refl
transfer-IsMet (Operand.reg_half_index IndexHalfRegister.iyl) (Operand.reg8 Register8.e) =
    double_fd _ _ refl
transfer-IsMet (Operand.reg_half_index IndexHalfRegister.ixh)
      (Operand.reg_half_index IndexHalfRegister.ixh) =
    double_dd _ _ refl
transfer-IsMet (Operand.reg_half_index IndexHalfRegister.ixh)
      (Operand.reg_half_index IndexHalfRegister.ixl) =
    double_dd _ _ refl
transfer-IsMet (Operand.reg_half_index IndexHalfRegister.ixl)
      (Operand.reg_half_index IndexHalfRegister.ixh) =
    double_dd _ _ refl
transfer-IsMet (Operand.reg_half_index IndexHalfRegister.ixl)
      (Operand.reg_half_index IndexHalfRegister.ixl) =
    double_dd _ _ refl
transfer-IsMet (Operand.reg_half_index IndexHalfRegister.iyh)
      (Operand.reg_half_index IndexHalfRegister.iyh) =
    double_fd _ _ refl
transfer-IsMet (Operand.reg_half_index IndexHalfRegister.iyh)
      (Operand.reg_half_index IndexHalfRegister.iyl) =
    double_fd _ _ refl
transfer-IsMet (Operand.reg_half_index IndexHalfRegister.iyl)
      (Operand.reg_half_index IndexHalfRegister.iyh) =
    double_fd _ _ refl
transfer-IsMet (Operand.reg_half_index IndexHalfRegister.iyl)
      (Operand.reg_half_index IndexHalfRegister.iyl) =
    double_fd _ _ refl
transfer-IsMet (Operand.reg8 Register8.a) (Operand.indexed source displacement) =
    double_index source _ _ (load_indexed-OnIndex Register8.a)
transfer-IsMet (Operand.indexed target displacement) (Operand.reg8 Register8.a) =
    double_index target _ _ (store_indexed-OnIndex Register8.a)
transfer-IsMet (Operand.reg8 Register8.b) (Operand.indexed source displacement) =
    double_index source _ _ (load_indexed-OnIndex Register8.b)
transfer-IsMet (Operand.indexed target displacement) (Operand.reg8 Register8.b) =
    double_index target _ _ (store_indexed-OnIndex Register8.b)
transfer-IsMet (Operand.reg8 Register8.c) (Operand.indexed source displacement) =
    double_index source _ _ (load_indexed-OnIndex Register8.c)
transfer-IsMet (Operand.indexed target displacement) (Operand.reg8 Register8.c) =
    double_index target _ _ (store_indexed-OnIndex Register8.c)
transfer-IsMet (Operand.reg8 Register8.d) (Operand.indexed source displacement) =
    double_index source _ _ (load_indexed-OnIndex Register8.d)
transfer-IsMet (Operand.indexed target displacement) (Operand.reg8 Register8.d) =
    double_index target _ _ (store_indexed-OnIndex Register8.d)
transfer-IsMet (Operand.reg8 Register8.e) (Operand.indexed source displacement) =
    double_index source _ _ (load_indexed-OnIndex Register8.e)
transfer-IsMet (Operand.indexed target displacement) (Operand.reg8 Register8.e) =
    double_index target _ _ (store_indexed-OnIndex Register8.e)
transfer-IsMet (Operand.reg8 Register8.h) (Operand.indexed source displacement) =
    double_index source _ _ (load_indexed-OnIndex Register8.h)
transfer-IsMet (Operand.indexed target displacement) (Operand.reg8 Register8.h) =
    double_index target _ _ (store_indexed-OnIndex Register8.h)
transfer-IsMet (Operand.reg8 Register8.l) (Operand.indexed source displacement) =
    double_index source _ _ (load_indexed-OnIndex Register8.l)
transfer-IsMet (Operand.indexed target displacement) (Operand.reg8 Register8.l) =
    double_index target _ _ (store_indexed-OnIndex Register8.l)
transfer-IsMet (Operand.indexed target displacement) (Operand.imm value) =
    double_index target _ _ refl
transfer-IsMet (Operand.reg_index16 target) (Operand.imm value) = double_index target _ _ refl
transfer-IsMet (Operand.reg_index16 target) (Operand.mem_abs address) = double_index target _ _ refl
transfer-IsMet (Operand.mem_abs address) (Operand.reg_index16 source) = double_index source _ _ refl
transfer-IsMet (Operand.reg16 Register16.sp) (Operand.reg_index16 IndexRegister16.ix) =
    double_dd _ _ refl
transfer-IsMet (Operand.reg16 Register16.sp) (Operand.reg_index16 IndexRegister16.iy) =
    double_fd _ _ refl
transfer-IsMet _ _ = tt
