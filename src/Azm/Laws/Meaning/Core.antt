-- ===== src/Azm/Laws/Meaning/Core.antt =====
-- Registers, conditions and the instructions without operands.
use debug.Base.{ℕ, ◌==◌, Bool, true, not}
use debug.Z80.State.{Cpu}
use debug.Z80.Registers.{Reg, Pair, get_pair}
use debug.Z80.Hardware.{Handler, on_cpu}
use debug.Z80.Alu.{do_add, do_adc, do_sub, do_sbc, do_and, do_or, do_xor, do_cp, do_neg, daa}
use debug.Z80.Rotate.{do_rlc, do_rrc, do_rl, do_rr}
use debug.Z80.Jump.{return}
use debug.Z80.Block.{
  do_ldi, do_ldd, do_cpi, do_cpd, do_ini, do_ind, do_outi, do_outd, repeat_while, bc_left,
  bc_left_unequal, b_left,
}
use debug.Z80.Decode.Operands.{inc_r, fetch}
use debug.Z80.Decode.Ed.{retn, rrd, rld}
use debug.Z80.Decode.Primary.Low.{rotate_a, cpl, scf, ccf}
use debug.Z80.Decode.Primary.High.{exx}
use debug.Azm.Instruction.{
  Condition, AluMnemonic, CoreMnemonic, Register8, Register16, RegisterIndirect,
}

abbrev pub reg : Register8 → Reg
reg Register8.a = Reg.a
reg Register8.b = Reg.b
reg Register8.c = Reg.c
reg Register8.d = Reg.d
reg Register8.e = Reg.e
reg Register8.h = Reg.h
reg Register8.l = Reg.l

abbrev pub word_of : Register16 → Cpu → ℕ
word_of Register16.bc cpu = get_pair Pair.bc cpu
word_of Register16.de cpu = get_pair Pair.de cpu
word_of Register16.hl cpu = get_pair Pair.hl cpu
word_of Register16.sp cpu = cpu.sp

abbrev pub pair_of : RegisterIndirect → Pair
pair_of RegisterIndirect.bc = Pair.bc
pair_of RegisterIndirect.de = Pair.de
pair_of RegisterIndirect.hl = Pair.hl

abbrev pub holds : Condition → Cpu → Bool
holds Condition.nz cpu = cpu.flags.z == 0
holds Condition.z cpu = not (cpu.flags.z == 0)
holds Condition.nc cpu = cpu.flags.c == 0
holds Condition.c cpu = not (cpu.flags.c == 0)
holds Condition.po cpu = cpu.flags.p == 0
holds Condition.pe cpu = not (cpu.flags.p == 0)
holds Condition.p cpu = cpu.flags.s == 0
holds Condition.m cpu = not (cpu.flags.s == 0)

abbrev pub on_condition : (Bool → Handler) → Condition → Handler
on_condition branch condition m = branch (holds condition m.cpu) m

abbrev pub alu_operation : AluMnemonic → ℕ → Cpu → Cpu
alu_operation AluMnemonic.add = do_add
alu_operation AluMnemonic.adc = do_adc
alu_operation AluMnemonic.sub = do_sub
alu_operation AluMnemonic.sbc = do_sbc
alu_operation AluMnemonic.and = do_and
alu_operation AluMnemonic.or = do_or
alu_operation AluMnemonic.xor = do_xor
alu_operation AluMnemonic.cp = do_cp

-- What follows an ED prefix: R counts once more, and PC stands on the second byte.
unfoldable pub extended : Handler → Handler
extended handler m = handler (fetch (on_cpu inc_r m)).1

-- IY stands in for IX while a handler of IX runs.
unfoldable pub with_iy : Handler → Handler
with_iy handler m =
    let m' = handler (on_cpu (λ cpu. record cpu { ix = cpu.iy }) m) in
    on_cpu (λ cpu. record cpu { iy = cpu.ix; ix = m.cpu.ix }) m'

abbrev pub core_handler : CoreMnemonic → Handler
core_handler CoreMnemonic.di = on_cpu λ cpu. record cpu { do_delayed_di = true }
core_handler CoreMnemonic.ei = on_cpu λ cpu. record cpu { do_delayed_ei = true }
core_handler CoreMnemonic.scf = on_cpu scf
core_handler CoreMnemonic.ccf = on_cpu ccf
core_handler CoreMnemonic.cpl = on_cpu cpl
core_handler CoreMnemonic.daa = on_cpu daa
core_handler CoreMnemonic.exx = on_cpu exx
core_handler CoreMnemonic.halt = on_cpu λ cpu. record cpu { halted = true }
core_handler CoreMnemonic.rlca = on_cpu (rotate_a do_rlc)
core_handler CoreMnemonic.rrca = on_cpu (rotate_a do_rrc)
core_handler CoreMnemonic.rla = on_cpu (rotate_a do_rl)
core_handler CoreMnemonic.rra = on_cpu (rotate_a do_rr)
core_handler CoreMnemonic.neg = extended (on_cpu do_neg)
core_handler CoreMnemonic.rrd = extended rrd
core_handler CoreMnemonic.rld = extended rld
core_handler CoreMnemonic.ldi = extended do_ldi
core_handler CoreMnemonic.ldir = extended (repeat_while bc_left do_ldi)
core_handler CoreMnemonic.ldd = extended do_ldd
core_handler CoreMnemonic.lddr = extended (repeat_while bc_left do_ldd)
core_handler CoreMnemonic.cpi = extended do_cpi
core_handler CoreMnemonic.cpir = extended (repeat_while bc_left_unequal do_cpi)
core_handler CoreMnemonic.cpd = extended do_cpd
core_handler CoreMnemonic.cpdr = extended (repeat_while bc_left_unequal do_cpd)
core_handler CoreMnemonic.ini = extended do_ini
core_handler CoreMnemonic.inir = extended (repeat_while b_left do_ini)
core_handler CoreMnemonic.ind = extended do_ind
core_handler CoreMnemonic.indr = extended (repeat_while b_left do_ind)
core_handler CoreMnemonic.outi = extended do_outi
core_handler CoreMnemonic.otir = extended (repeat_while b_left do_outi)
core_handler CoreMnemonic.outd = extended do_outd
core_handler CoreMnemonic.otdr = extended (repeat_while b_left do_outd)
core_handler CoreMnemonic.reti = extended return
core_handler CoreMnemonic.retn = extended retn
