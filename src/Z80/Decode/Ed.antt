-- ===== src/Z80/Decode/Ed.antt =====
-- decode-ed.ts: the table of the ED opcodes, a row for each sixteen.
use debug.Base.{ℕ, ◌+◌, ◌*◌, ◌/◌, ◌%◌, ◌==◌, List, [], ◌∷◌, concat}
use debug.Base.{flag, bit, get_or, replicate}
use debug.Z80.State.{Flags, Cpu}
use debug.Z80.Flags.{update_xy_flags}
use debug.Z80.Constants.{cycle_counts, cycle_counts_ed}
use debug.Z80.Registers.{Reg, Pair, get_reg, set_reg, get_pair}
use debug.Z80.Hardware.{Machine, Handler, mem_read, mem_write, io_read, io_write, on_cpu}
use debug.Z80.Alu.{parity, do_neg}
use debug.Z80.Alu16.{do_hl_adc, do_hl_sbc}
use debug.Z80.Stack.{set_sp}
use debug.Z80.Jump.{add_cycles, return}
use debug.Z80.Block.{
  do_ldi, do_cpi, do_ini, do_outi, do_ldd, do_cpd, do_ind, do_outd, repeat_while, bc_left,
  bc_left_unequal, b_left,
}
use debug.Z80.Decode.Operands.{
  noop, inc_r, fetch, fetch_word, write_word, read_word, ld_mem_pair, ld_pair_mem,
}

-- `do_in`: the flags of the byte that came in.
unfoldable pub in_flags : ℕ → Flags → Flags
unfolding update_xy_flags
in_flags result f = update_xy_flags result (record f {
  s = bit 7 result;
  z = flag (result == 0);
  h = 0;
  p = flag (parity result == 1);
  n = 0;
})

-- The byte from port BC and the machine with its flags.
unfoldable pub do_in : ℕ → Machine → ℕ × Machine
unfolding in_flags
do_in port m =
    let (v, m') = io_read port m in
    (v, on_cpu (λ cpu. record cpu { flags = in_flags v cpu.flags }) m')

-- IN r, (C)
unfoldable pub in_reg : Reg → Handler
unfolding do_in
in_reg r m = let (v, m') = do_in (get_pair Pair.bc m.cpu) m in on_cpu (set_reg r v) m'

-- IN (C): the flags only.
unfoldable pub in_none : Handler
unfolding do_in
in_none m = (do_in (get_pair Pair.bc m.cpu) m).1

unfoldable pub out_value : (Cpu → ℕ) → Handler
out_value value m = io_write (get_pair Pair.bc m.cpu) (value m.cpu) m

abbrev pub out_reg : Reg → Handler
out_reg r = out_value (get_reg r)

unfoldable pub retn : Handler
retn m = let m' = return m in on_cpu (λ cpu. record cpu { iff1 = cpu.iff2 }) m'

abbrev pub set_imode : ℕ → Handler
set_imode mode = on_cpu λ cpu. record cpu { imode = mode }

unfoldable pub ld_a_i : Cpu → Cpu
ld_a_i cpu = record cpu {
  a = cpu.i;
  flags = record (cpu.flags) { s = bit 7 cpu.i; z = flag (cpu.i == 0); h = 0; p = cpu.iff2; n = 0 };
}

unfoldable pub ld_a_r : Cpu → Cpu
ld_a_r cpu = record cpu { a = cpu.r; flags = record (cpu.flags) { p = cpu.iff2 } }

-- The flags after RRD and RLD, from the new A.
unfoldable pub digit_flags : Cpu → Cpu
unfolding in_flags
digit_flags cpu = record cpu { flags = in_flags cpu.a cpu.flags }

-- RRD: the low digit of (HL) goes to A, and A's to the high digit of (HL).
unfoldable pub rrd : Handler
unfolding digit_flags
rrd m =
    let v = mem_read m (get_pair Pair.hl m.cpu) in
    let a' = m.cpu.a / 16 % 16 * 16 + v % 16 in
    let m' =
      mem_write (get_pair Pair.hl m.cpu) (v / 16 % 16 + m.cpu.a % 16 * 16)
        (on_cpu (set_reg Reg.a a') m) in
    on_cpu digit_flags m'

unfoldable pub rld : Handler
unfolding digit_flags
rld m =
    let v = mem_read m (get_pair Pair.hl m.cpu) in
    let a' = m.cpu.a / 16 % 16 * 16 + v / 16 % 16 in
    let m' =
      mem_write (get_pair Pair.hl m.cpu) (v % 16 * 16 + m.cpu.a % 16)
        (on_cpu (set_reg Reg.a a') m) in
    on_cpu digit_flags m'

-- LD (nn), SP and LD SP, (nn)
unfoldable pub ld_mem_sp : Handler
unfolding fetch_word write_word
ld_mem_sp m = let (address, m') = fetch_word m in write_word address m'.cpu.sp m'

unfoldable pub ld_sp_mem : Handler
unfolding fetch_word read_word
ld_sp_mem m = let (address, m') = fetch_word m in on_cpu (set_sp (read_word address m')) m'

abbrev pub adc_pair : Pair → Handler
adc_pair q = on_cpu λ cpu. do_hl_adc (get_pair q cpu) cpu

abbrev pub sbc_pair : Pair → Handler
sbc_pair q = on_cpu λ cpu. do_hl_sbc (get_pair q cpu) cpu

abbrev pub neg : Handler
neg = on_cpu do_neg

abbrev pub ed_row_4 : List Handler
ed_row_4 =
    in_reg Reg.b
    ∷ out_reg Reg.b
    ∷ sbc_pair Pair.bc
    ∷ ld_mem_pair Pair.bc
    ∷ neg
    ∷ retn
    ∷ set_imode 0
    ∷ on_cpu (λ cpu. record cpu { i = cpu.a })
    ∷ in_reg Reg.c
    ∷ out_reg Reg.c
    ∷ adc_pair Pair.bc
    ∷ ld_pair_mem Pair.bc
    ∷ neg
    ∷ return
    ∷ set_imode 0
    ∷ on_cpu (λ cpu. record cpu { r = cpu.a })
    ∷ []

abbrev pub ed_row_5 : List Handler
ed_row_5 =
    in_reg Reg.d
    ∷ out_reg Reg.d
    ∷ sbc_pair Pair.de
    ∷ ld_mem_pair Pair.de
    ∷ neg
    ∷ retn
    ∷ set_imode 1
    ∷ on_cpu ld_a_i
    ∷ in_reg Reg.e
    ∷ out_reg Reg.e
    ∷ adc_pair Pair.de
    ∷ ld_pair_mem Pair.de
    ∷ neg
    ∷ retn
    ∷ set_imode 2
    ∷ on_cpu ld_a_r
    ∷ []

abbrev pub ed_row_6 : List Handler
ed_row_6 =
    in_reg Reg.h
    ∷ out_reg Reg.h
    ∷ sbc_pair Pair.hl
    ∷ ld_mem_pair Pair.hl
    ∷ neg
    ∷ retn
    ∷ set_imode 0
    ∷ rrd
    ∷ in_reg Reg.l
    ∷ out_reg Reg.l
    ∷ adc_pair Pair.hl
    ∷ ld_pair_mem Pair.hl
    ∷ neg
    ∷ retn
    ∷ set_imode 0
    ∷ rld
    ∷ []

abbrev pub ed_row_7 : List Handler
ed_row_7 =
    in_none
    ∷ out_value (λ _. 0)
    ∷ on_cpu (λ cpu. do_hl_sbc cpu.sp cpu)
    ∷ ld_mem_sp
    ∷ neg
    ∷ retn
    ∷ set_imode 1
    ∷ noop
    ∷ in_reg Reg.a
    ∷ out_reg Reg.a
    ∷ on_cpu (λ cpu. do_hl_adc cpu.sp cpu)
    ∷ ld_sp_mem
    ∷ neg
    ∷ retn
    ∷ set_imode 2
    ∷ noop
    ∷ []

abbrev pub ed_row_a : List Handler
ed_row_a =
    do_ldi ∷ do_cpi ∷ do_ini ∷ do_outi ∷ noop ∷ noop ∷ noop ∷ noop ∷ do_ldd ∷ do_cpd ∷ do_ind
    ∷ do_outd ∷ noop ∷ noop ∷ noop ∷ noop ∷ []

abbrev pub ed_row_b : List Handler
ed_row_b =
    repeat_while bc_left do_ldi
    ∷ repeat_while bc_left_unequal do_cpi
    ∷ repeat_while b_left do_ini
    ∷ repeat_while b_left do_outi
    ∷ noop
    ∷ noop
    ∷ noop
    ∷ noop
    ∷ repeat_while bc_left do_ldd
    ∷ repeat_while bc_left_unequal do_cpd
    ∷ repeat_while b_left do_ind
    ∷ repeat_while b_left do_outd
    ∷ noop
    ∷ noop
    ∷ noop
    ∷ noop
    ∷ []

abbrev pub ed_rows : List (List Handler)
ed_rows =
    replicate 0x40 noop
    ∷ ed_row_4
    ∷ ed_row_5
    ∷ ed_row_6
    ∷ ed_row_7
    ∷ replicate 0x20 noop
    ∷ ed_row_a
    ∷ ed_row_b
    ∷ replicate 0x40 noop
    ∷ []

unfoldable pub ed_instructions : List Handler
ed_instructions = concat ed_rows

unfoldable pub ed_handler : Handler
unfolding ed_instructions fetch inc_r
ed_handler m =
    let (opcode1, m1) = fetch (on_cpu inc_r m) in
    on_cpu (add_cycles (get_or cycle_counts_ed opcode1 (get_or cycle_counts 0 0)))
      (get_or ed_instructions opcode1 noop m1)
