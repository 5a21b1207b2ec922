-- ===== src/Z80/Alu16.antt =====
-- The sixteen-bit arithmetic of decode-helpers.ts on HL and IX.
use debug.Base.{ℕ, ◌+◌, ◌%◌, ◌==◌, ◌&&◌, not, flag, bit, word, high, int_sub}
use debug.Z80.State.{Flags, Cpu}
use debug.Z80.Flags.{update_xy_flags}
use debug.Z80.Registers.{Pair, get_pair, set_pair}

unfoldable pub do_hl_add : ℕ → Cpu → Cpu
unfolding update_xy_flags get_pair set_pair
do_hl_add operand cpu =
    let hl = get_pair Pair.hl cpu in
    let result = hl + operand in
    let f : Flags = record (cpu.flags) {
      n = 0;
      c = bit 16 result;
      h = bit 12 (hl % 4096 + operand % 4096);
    } in
    set_pair Pair.hl result (record cpu { flags = update_xy_flags (high result) f })

-- The carry is added to the operand before anything else, also for H and P.
unfoldable pub do_hl_adc : ℕ → Cpu → Cpu
unfolding update_xy_flags get_pair set_pair
do_hl_adc value cpu =
    let operand = value + cpu.flags.c in
    let hl = get_pair Pair.hl cpu in
    let result = hl + operand in
    let f : Flags = record (cpu.flags) {
      s = bit 15 result;
      z = flag (word result == 0);
      h = bit 12 (hl % 4096 + operand % 4096);
      p = flag (bit 15 hl == bit 15 operand && not (bit 15 result == bit 15 hl));
      n = 0;
      c = bit 16 result;
    } in
    set_pair Pair.hl result (record cpu { flags = update_xy_flags (high result) f })

unfoldable pub do_hl_sbc : ℕ → Cpu → Cpu
unfolding update_xy_flags get_pair set_pair
do_hl_sbc value cpu =
    let operand = value + cpu.flags.c in
    let hl = get_pair Pair.hl cpu in
    let result = int_sub hl operand in
    let f : Flags = record (cpu.flags) {
      s = bit 15 result;
      z = flag (word result == 0);
      h = bit 12 (int_sub (hl % 4096) (operand % 4096));
      p = flag (not (bit 15 hl == bit 15 operand) && not (bit 15 result == bit 15 hl));
      n = 1;
      c = bit 16 result;
    } in
    set_pair Pair.hl result (record cpu { flags = update_xy_flags (high result) f })

unfoldable pub do_ix_add : ℕ → Cpu → Cpu
unfolding update_xy_flags
do_ix_add operand cpu =
    let result = cpu.ix + operand in
    let f : Flags = record (cpu.flags) {
      n = 0;
      c = bit 16 result;
      h = bit 12 (cpu.ix % 4096 + operand % 4096);
    } in
    record cpu { ix = word result; flags = update_xy_flags (high result) f }
