-- ===== src/Z80/Decode/Primary/High.antt =====
-- decode-primary.ts, 0xC0-0xFF: control flow, stack, prefixes and immediate operands.
use debug.Base.{◌+◌, ◌==◌, Bool, true, List, [], ◌∷◌, not, byte, word, high, pair}
use debug.Z80.State.{Cpu}
use debug.Z80.Flags.{set_flags_register, flags_to_byte}
use debug.Z80.Registers.{Reg, Pair, set_reg, get_pair, set_pair}
use debug.Z80.Hardware.{Handler, mem_read, mem_write, io_read, io_write, on_cpu}
use debug.Z80.Alu.{do_add, do_adc, do_sub, do_sbc, do_and, do_xor, do_or, do_cp}
use debug.Z80.Stack.{set_sp, push_word, pop_word}
use debug.Z80.Jump.{
  land_at, jump, call, return, do_conditional_absolute_jump, do_conditional_call,
  do_conditional_return, do_reset,
}
use debug.Z80.Decode.Operands.{fetch, alu_n}
use debug.Z80.Decode.Cb.{cb_handler}
use debug.Z80.Decode.Ed.{ed_handler}
use debug.Z80.Decode.Dd.{dd_handler, fd_handler}

unfoldable pub pop_pair : Pair → Handler
pop_pair q m = let (result, m') = pop_word m in on_cpu (set_pair q result) m'

abbrev pub push_pair : Pair → Handler
push_pair q m = push_word (get_pair q m.cpu) m

unfoldable pub pop_af : Handler
unfolding set_flags_register
pop_af m =
    let (result, m') = pop_word m in
    on_cpu (λ cpu. set_reg Reg.a (high result) (set_flags_register (byte result) cpu)) m'

unfoldable pub push_af : Handler
unfolding flags_to_byte
push_af m = push_word (pair m.cpu.a (flags_to_byte m.cpu.flags)) m

-- OUT (n), A and IN A, (n): A stands on the high half of the port.
unfoldable pub out_n_a : Handler
unfolding fetch
out_n_a m = let (port, m') = fetch m in io_write (pair m'.cpu.a port) m'.cpu.a m'

unfoldable pub in_a_n : Handler
unfolding fetch
in_a_n m =
    let (port, m1) = fetch m in
    let (value, m2) = io_read (pair m1.cpu.a port) m1 in on_cpu (set_reg Reg.a value) m2

unfoldable pub exx : Cpu → Cpu
exx cpu = record cpu {
  b = cpu.b_prime;
  c = cpu.c_prime;
  d = cpu.d_prime;
  e = cpu.e_prime;
  h = cpu.h_prime;
  l = cpu.l_prime;
  b_prime = cpu.b;
  c_prime = cpu.c;
  d_prime = cpu.d;
  e_prime = cpu.e;
  h_prime = cpu.h;
  l_prime = cpu.l;
}

unfoldable pub ex_sp_hl : Handler
ex_sp_hl m =
    let low = mem_read m m.cpu.sp in
    let m1 = on_cpu (set_reg Reg.l low) (mem_write m.cpu.sp m.cpu.l m) in
    let top = mem_read m1 (word (m1.cpu.sp + 1)) in
    on_cpu (set_reg Reg.h top) (mem_write (word (m1.cpu.sp + 1)) m1.cpu.h m1)

unfoldable pub ex_de_hl : Cpu → Cpu
ex_de_hl cpu = record cpu { d = cpu.h; e = cpu.l; h = cpu.d; l = cpu.e }

-- The eight conditions of the jumps, calls and returns.
abbrev pub if_nz : Cpu → Bool
if_nz cpu = cpu.flags.z == 0

abbrev pub if_z : Cpu → Bool
if_z cpu = not (cpu.flags.z == 0)

abbrev pub if_nc : Cpu → Bool
if_nc cpu = cpu.flags.c == 0

abbrev pub if_c : Cpu → Bool
if_c cpu = not (cpu.flags.c == 0)

abbrev pub if_po : Cpu → Bool
if_po cpu = cpu.flags.p == 0

abbrev pub if_pe : Cpu → Bool
if_pe cpu = not (cpu.flags.p == 0)

abbrev pub if_p : Cpu → Bool
if_p cpu = cpu.flags.s == 0

abbrev pub if_m : Cpu → Bool
if_m cpu = not (cpu.flags.s == 0)

abbrev pub jp : (Cpu → Bool) → Handler
jp condition m = do_conditional_absolute_jump (condition m.cpu) m

abbrev pub call_if : (Cpu → Bool) → Handler
call_if condition m = do_conditional_call (condition m.cpu) m

abbrev pub ret_if : (Cpu → Bool) → Handler
ret_if condition m = do_conditional_return (condition m.cpu) m

abbrev pub row_c : List Handler
row_c =
    ret_if if_nz
    ∷ pop_pair Pair.bc
    ∷ jp if_nz
    ∷ jump
    ∷ call_if if_nz
    ∷ push_pair Pair.bc
    ∷ alu_n do_add
    ∷ do_reset 0x00
    ∷ ret_if if_z
    ∷ return
    ∷ jp if_z
    ∷ cb_handler
    ∷ call_if if_z
    ∷ call
    ∷ alu_n do_adc
    ∷ do_reset 0x08
    ∷ []

abbrev pub row_d : List Handler
row_d =
    ret_if if_nc
    ∷ pop_pair Pair.de
    ∷ jp if_nc
    ∷ out_n_a
    ∷ call_if if_nc
    ∷ push_pair Pair.de
    ∷ alu_n do_sub
    ∷ do_reset 0x10
    ∷ ret_if if_c
    ∷ on_cpu exx
    ∷ jp if_c
    ∷ in_a_n
    ∷ call_if if_c
    ∷ dd_handler
    ∷ alu_n do_sbc
    ∷ do_reset 0x18
    ∷ []

abbrev pub row_e : List Handler
row_e =
    ret_if if_po
    ∷ pop_pair Pair.hl
    ∷ jp if_po
    ∷ ex_sp_hl
    ∷ call_if if_po
    ∷ push_pair Pair.hl
    ∷ alu_n do_and
    ∷ do_reset 0x20
    ∷ ret_if if_pe
    ∷ (λ m. land_at (get_pair Pair.hl m.cpu) m)
    ∷ jp if_pe
    ∷ on_cpu ex_de_hl
    ∷ call_if if_pe
    ∷ ed_handler
    ∷ alu_n do_xor
    ∷ do_reset 0x28
    ∷ []

abbrev pub row_f : List Handler
row_f =
    ret_if if_p
    ∷ pop_af
    ∷ jp if_p
    ∷ on_cpu (λ cpu. record cpu { do_delayed_di = true })
    ∷ call_if if_p
    ∷ push_af
    ∷ alu_n do_or
    ∷ do_reset 0x30
    ∷ ret_if if_m
    ∷ on_cpu (λ cpu. set_sp (get_pair Pair.hl cpu) cpu)
    ∷ jp if_m
    ∷ on_cpu (λ cpu. record cpu { do_delayed_ei = true })
    ∷ call_if if_m
    ∷ fd_handler
    ∷ alu_n do_cp
    ∷ do_reset 0x38
    ∷ []
