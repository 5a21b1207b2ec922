-- ===== src/Z80/Block.antt =====
-- The block transfers, searches and port operations of decode-helpers.ts, and their repeating
-- forms of decode-ed.ts.
use debug.Base.{ℕ, ◌+◌, ◌==◌, ◌&&◌, ◌||◌, Bool, not, flag, bit, word, int_sub, if◌then◌else◌}
use debug.Z80.State.{Cpu}
use debug.Z80.Registers.{Pair, get_pair, set_pair}
use debug.Z80.Hardware.{Handler, mem_read, mem_write, io_read, io_write, on_cpu}
use debug.Z80.Alu.{do_cp, do_dec}
use debug.Z80.Jump.{set_pc, add_cycles}

-- `result = pair + 1`, and the pair set from it; in the same way down by one.
abbrev pub inc_pair : Pair → Cpu → Cpu
inc_pair q cpu = set_pair q (get_pair q cpu + 1) cpu

abbrev pub dec_pair : Pair → Cpu → Cpu
dec_pair q cpu = set_pair q (int_sub (get_pair q cpu) 1) cpu

-- H, N, P and the undocumented bits after LDI and LDD.
unfoldable pub transfer_flags : ℕ → Cpu → Cpu
transfer_flags read_value cpu = record cpu {
  flags = record (cpu.flags) {
    h = 0;
    p = flag (not (cpu.c == 0) || not (cpu.b == 0));
    n = 0;
    y = bit 1 (cpu.a + read_value);
    x = bit 3 (cpu.a + read_value);
  };
}

-- One transfer, with the way DE and HL go.
unfoldable pub transfer : (Pair → Cpu → Cpu) → Handler
unfolding transfer_flags
transfer move m =
    let read_value = mem_read m (get_pair Pair.hl m.cpu) in
    let m1 = mem_write (get_pair Pair.de m.cpu) read_value m in
    on_cpu (λ cpu. transfer_flags read_value (dec_pair Pair.bc (move Pair.hl (move Pair.de cpu))))
      m1

unfoldable pub do_ldi : Handler
unfolding transfer
do_ldi = transfer inc_pair

unfoldable pub do_ldd : Handler
unfolding transfer
do_ldd = transfer dec_pair

-- A compare that keeps the carry; P says whether BC is not yet zero.
unfoldable pub search_flags : ℕ → Cpu → Cpu
search_flags read_value cpu =
    let after = do_cp read_value cpu in
    let left = int_sub (int_sub after.a read_value) after.flags.h in
    record after {
      flags = record (after.flags) { c = cpu.flags.c; y = bit 1 left; x = bit 3 left };
    }

unfoldable pub set_p : ℕ → Cpu → Cpu
set_p result cpu = record cpu { flags = record (cpu.flags) { p = flag (not (result == 0)) } }

unfoldable pub compare_step : (Pair → Cpu → Cpu) → Handler
unfolding search_flags set_p
compare_step move m =
    on_cpu
      (λ cpu.
        let cpu1 = move Pair.hl (search_flags (mem_read m (get_pair Pair.hl cpu)) cpu) in
        let result = int_sub (get_pair Pair.bc cpu1) 1 in set_p result (dec_pair Pair.bc cpu1))
      m

unfoldable pub do_cpi : Handler
unfolding compare_step
do_cpi = compare_step inc_pair

unfoldable pub do_cpd : Handler
unfolding compare_step
do_cpd = compare_step dec_pair

-- `cpu.b = do_dec(cpu.b)`
unfoldable pub dec_b : Cpu → Cpu
dec_b cpu = let (v, f) = do_dec cpu.b cpu.flags in record cpu { b = v; flags = f }

abbrev pub set_n : Cpu → Cpu
set_n cpu = record cpu { flags = record (cpu.flags) { n = 1 } }

-- B falls before the port is read.
unfoldable pub input_step : (Pair → Cpu → Cpu) → Handler
unfolding dec_b
input_step move m =
    let m1 = on_cpu dec_b m in
    let (value, m2) = io_read (get_pair Pair.bc m1.cpu) m1 in
    on_cpu (λ cpu. set_n (move Pair.hl cpu)) (mem_write (get_pair Pair.hl m2.cpu) value m2)

unfoldable pub do_ini : Handler
unfolding input_step
do_ini = input_step inc_pair

unfoldable pub do_ind : Handler
unfolding input_step
do_ind = input_step dec_pair

-- The port is written before B falls.
unfoldable pub output_step : (Pair → Cpu → Cpu) → Handler
unfolding dec_b
output_step move m =
    on_cpu (λ cpu. set_n (dec_b (move Pair.hl cpu)))
      (io_write (get_pair Pair.bc m.cpu) (mem_read m (get_pair Pair.hl m.cpu)) m)

unfoldable pub do_outi : Handler
unfolding output_step
do_outi = output_step inc_pair

unfoldable pub do_outd : Handler
unfolding output_step
do_outd = output_step dec_pair

-- `if (…) { cpu.cycle_counter += 5; cpu.pc = (cpu.pc - 2) & 0xffff; }` after a step.
unfoldable pub repeat_while : (Cpu → Bool) → Handler → Handler
repeat_while more step m =
    let m' = step m in
    if more m'.cpu
    then on_cpu (λ cpu. set_pc (word (int_sub cpu.pc 2)) (add_cycles 5 cpu)) m'
    else m'

abbrev pub bc_left : Cpu → Bool
bc_left cpu = not (cpu.b == 0) || not (cpu.c == 0)

abbrev pub bc_left_unequal : Cpu → Bool
bc_left_unequal cpu = cpu.flags.z == 0 && bc_left cpu

abbrev pub b_left : Cpu → Bool
b_left cpu = not (cpu.b == 0)
