-- ===== src/Z80/Valid/Primary/High.antt =====
-- The handlers of 0xC0-0xFF keep the ranges.
use debug.Base.{arith, All, ◌◂◌, Bool, true, byte}
use debug.Z80.State.{Cpu}
use debug.Z80.Registers.{Reg, Pair, get_pair, set_reg}
use debug.Z80.Hardware.{on_cpu}
use debug.Z80.Alu.{do_add, do_adc, do_sub, do_sbc, do_and, do_xor, do_or, do_cp}
use debug.Z80.Stack.{pop_word}
use debug.Z80.Decode.Primary.High.{
  pop_pair, push_pair, pop_af, push_af, out_n_a, in_a_n, exx, ex_sp_hl, ex_de_hl, jp, call_if,
  ret_if, if_nz, if_z, if_nc, if_c, if_po, if_pe, if_p, if_m, row_c, row_d, row_e, row_f,
}
use debug.Z80.Valid.{Keeps, KeepsCpu}
use debug.Z80.Valid.Registers.{get_pair-lt, set_pair-IsValidCpu}
use debug.Z80.Valid.Arithmetic.{
  set_flags_from_byte-IsValidFlags, do_add-IsValidCpu, do_adc-IsValidCpu, do_sub-IsValidCpu,
  do_sbc-IsValidCpu, do_and-IsValidCpu, do_xor-IsValidCpu, do_or-IsValidCpu, do_cp-IsValidCpu,
}
use debug.Z80.Valid.Memory.{
  mem_read-lt, on_cpu-Keeps, mem_write-Keeps, io_read-IsValid, io_read-lt, io_write-Keeps,
  fetch-IsValid, push_word-Keeps, pop_word-IsValid, land_at-Keeps, jump-Keeps, call-Keeps,
  return-Keeps, do_reset-Keeps, do_conditional_absolute_jump-Keeps, do_conditional_call-Keeps,
  do_conditional_return-Keeps,
}
use debug.Z80.Valid.Transfers.{set_reg-IsValid, alu_n-Keeps, cb_handler-Keeps}
use debug.Z80.Valid.Extended.{ed_handler-Keeps}
use debug.Z80.Valid.IndexTable.{dd_handler-Keeps, fd_handler-Keeps}

pop_pair-Keeps : (q : Pair) → Keeps (pop_pair q)
unfolding pop_pair
pop_pair-Keeps q m v =
    let v' = pop_word-IsValid m v in
    record { cpu = set_pair-IsValidCpu q _ _ v'.cpu; memory = v'.memory }

push_pair-Keeps : (q : Pair) → Keeps (push_pair q)
push_pair-Keeps q m v = push_word-Keeps _ m v

pop_af-Keeps : Keeps pop_af
unfolding pop_af set_reg
pop_af-Keeps m v =
    let v' = pop_word-IsValid m v in
    let f = set_flags_from_byte-IsValidFlags (byte (pop_word m).0) in
    record { cpu = omega (arith, f, v'.cpu); memory = v'.memory }

push_af-Keeps : Keeps push_af
unfolding push_af
push_af-Keeps m v = push_word-Keeps _ m v

out_n_a-Keeps : Keeps out_n_a
unfolding out_n_a
out_n_a-Keeps m v = io_write-Keeps _ _ _ (fetch-IsValid m v)

in_a_n-Keeps : Keeps in_a_n
unfolding in_a_n
in_a_n-Keeps m v =
    set_reg-IsValid Reg.a _ _ (io_read-lt _ _) (io_read-IsValid _ _ (fetch-IsValid m v))

exx-IsValidCpu : KeepsCpu exx
unfolding exx
exx-IsValidCpu cpu v = omega (arith, v)

ex_de_hl-IsValidCpu : KeepsCpu ex_de_hl
unfolding ex_de_hl
ex_de_hl-IsValidCpu cpu v = omega (arith, v)

ex_sp_hl-Keeps : Keeps ex_sp_hl
unfolding ex_sp_hl
ex_sp_hl-Keeps m v =
    let v1 =
      set_reg-IsValid Reg.l _ _ (mem_read-lt m m.cpu.sp v) (mem_write-Keeps m.cpu.sp m.cpu.l m v) in
    set_reg-IsValid Reg.h _ _ (mem_read-lt _ _ v1) (mem_write-Keeps _ _ _ v1)

jp-Keeps : (test : Cpu → Bool) → Keeps (jp test)
jp-Keeps test m = do_conditional_absolute_jump-Keeps (test m.cpu) m

call_if-Keeps : (test : Cpu → Bool) → Keeps (call_if test)
call_if-Keeps test m = do_conditional_call-Keeps (test m.cpu) m

ret_if-Keeps : (test : Cpu → Bool) → Keeps (ret_if test)
ret_if-Keeps test m = do_conditional_return-Keeps (test m.cpu) m

di-Keeps : Keeps (on_cpu (λ cpu. record cpu { do_delayed_di = true }))
di-Keeps m v = record { cpu = omega (arith, v.cpu); memory = v.memory }

ei-Keeps : Keeps (on_cpu (λ cpu. record cpu { do_delayed_ei = true }))
ei-Keeps m v = record { cpu = omega (arith, v.cpu); memory = v.memory }

ld_sp_hl-Keeps : Keeps (on_cpu (λ cpu. record cpu { sp = get_pair Pair.hl cpu }))
ld_sp_hl-Keeps m v = record {
  cpu = omega (arith, get_pair-lt Pair.hl m.cpu v.cpu, v.cpu);
  memory = v.memory;
}

pub row_c-Keeps : All Keeps row_c
row_c-Keeps =
    ret_if-Keeps if_nz
    ◂ pop_pair-Keeps Pair.bc
    ◂ jp-Keeps if_nz
    ◂ jump-Keeps
    ◂ call_if-Keeps if_nz
    ◂ push_pair-Keeps Pair.bc
    ◂ alu_n-Keeps do_add do_add-IsValidCpu
    ◂ do_reset-Keeps 0x00
    ◂ ret_if-Keeps if_z
    ◂ return-Keeps
    ◂ jp-Keeps if_z
    ◂ cb_handler-Keeps
    ◂ call_if-Keeps if_z
    ◂ call-Keeps
    ◂ alu_n-Keeps do_adc do_adc-IsValidCpu
    ◂ do_reset-Keeps 0x08
    ◂ tt

pub row_d-Keeps : All Keeps row_d
row_d-Keeps =
    ret_if-Keeps if_nc
    ◂ pop_pair-Keeps Pair.de
    ◂ jp-Keeps if_nc
    ◂ out_n_a-Keeps
    ◂ call_if-Keeps if_nc
    ◂ push_pair-Keeps Pair.de
    ◂ alu_n-Keeps do_sub do_sub-IsValidCpu
    ◂ do_reset-Keeps 0x10
    ◂ ret_if-Keeps if_c
    ◂ on_cpu-Keeps exx exx-IsValidCpu
    ◂ jp-Keeps if_c
    ◂ in_a_n-Keeps
    ◂ call_if-Keeps if_c
    ◂ dd_handler-Keeps
    ◂ alu_n-Keeps do_sbc do_sbc-IsValidCpu
    ◂ do_reset-Keeps 0x18
    ◂ tt

pub row_e-Keeps : All Keeps row_e
row_e-Keeps =
    ret_if-Keeps if_po
    ◂ pop_pair-Keeps Pair.hl
    ◂ jp-Keeps if_po
    ◂ ex_sp_hl-Keeps
    ◂ call_if-Keeps if_po
    ◂ push_pair-Keeps Pair.hl
    ◂ alu_n-Keeps do_and do_and-IsValidCpu
    ◂ do_reset-Keeps 0x20
    ◂ ret_if-Keeps if_pe
    ◂ (λ m. land_at-Keeps (get_pair Pair.hl m.cpu) m)
    ◂ jp-Keeps if_pe
    ◂ on_cpu-Keeps ex_de_hl ex_de_hl-IsValidCpu
    ◂ call_if-Keeps if_pe
    ◂ ed_handler-Keeps
    ◂ alu_n-Keeps do_xor do_xor-IsValidCpu
    ◂ do_reset-Keeps 0x28
    ◂ tt

pub row_f-Keeps : All Keeps row_f
row_f-Keeps =
    ret_if-Keeps if_p
    ◂ pop_af-Keeps
    ◂ jp-Keeps if_p
    ◂ di-Keeps
    ◂ call_if-Keeps if_p
    ◂ push_af-Keeps
    ◂ alu_n-Keeps do_or do_or-IsValidCpu
    ◂ do_reset-Keeps 0x30
    ◂ ret_if-Keeps if_m
    ◂ ld_sp_hl-Keeps
    ◂ jp-Keeps if_m
    ◂ ei-Keeps
    ◂ call_if-Keeps if_m
    ◂ fd_handler-Keeps
    ◂ alu_n-Keeps do_cp do_cp-IsValidCpu
    ◂ do_reset-Keeps 0x38
    ◂ tt
