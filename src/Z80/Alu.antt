-- ===== src/Z80/Alu.antt =====
-- The eight-bit arithmetic and logic of decode-helpers.ts, on the processor's state.
-- A difference is a 32-bit pattern (`int_sub`), so that its bits are those of the source's.
use debug.Base.{
  ℕ, ◌+◌, ◌%◌, ◌==◌, ◌&&◌, ◌||◌, not, ltb, flag, bit, byte, int_sub, get_or, if◌then◌else◌,
}
use debug.Base.{bit_and, bit_or, bit_xor, Bool}
use debug.Z80.State.{Flags, Cpu}
use debug.Z80.Flags.{update_xy_flags}
use debug.Z80.Constants.{parity_bits}

-- `parity_bits[n] ?? 0`
unfoldable pub parity : ℕ → ℕ
parity n = get_or parity_bits n 0

-- The 32-bit pattern of a byte read as a signed offset.
unfoldable pub get_signed_offset_byte : ℕ → ℕ
get_signed_offset_byte value =
    let v = byte value in if bit 7 v == 1 then int_sub 0 (int_sub 255 v + 1) else v

-- The tail of each operation on A: `cpu.a = result & 0xff; update_xy_flags(cpu.a)`.
abbrev pub write_a : Flags → ℕ → Cpu → Cpu
write_a f value cpu = record cpu { a = value; flags = update_xy_flags value f }

unfoldable pub do_add : ℕ → Cpu → Cpu
unfolding update_xy_flags
do_add operand cpu =
    let result = cpu.a + operand in
    let f : Flags = record (cpu.flags) {
      s = bit 7 result;
      z = flag (byte result == 0);
      h = bit 4 (operand % 16 + cpu.a % 16);
      p = flag (bit 7 cpu.a == bit 7 operand && not (bit 7 cpu.a == bit 7 result));
      n = 0;
      c = bit 8 result;
    } in
    write_a f (byte result) cpu

unfoldable pub do_adc : ℕ → Cpu → Cpu
unfolding update_xy_flags
do_adc operand cpu =
    let result = cpu.a + operand + cpu.flags.c in
    let f : Flags = record (cpu.flags) {
      s = bit 7 result;
      z = flag (byte result == 0);
      h = bit 4 (operand % 16 + cpu.a % 16 + cpu.flags.c);
      p = flag (bit 7 cpu.a == bit 7 operand && not (bit 7 cpu.a == bit 7 result));
      n = 0;
      c = bit 8 result;
    } in
    write_a f (byte result) cpu

unfoldable pub do_sub : ℕ → Cpu → Cpu
unfolding update_xy_flags
do_sub operand cpu =
    let result = int_sub cpu.a operand in
    let f : Flags = record (cpu.flags) {
      s = bit 7 result;
      z = flag (byte result == 0);
      h = bit 4 (int_sub (cpu.a % 16) (operand % 16));
      p = flag (not (bit 7 cpu.a == bit 7 operand) && not (bit 7 cpu.a == bit 7 result));
      n = 1;
      c = bit 8 result;
    } in
    write_a f (byte result) cpu

unfoldable pub do_sbc : ℕ → Cpu → Cpu
unfolding update_xy_flags
do_sbc operand cpu =
    let result = int_sub (int_sub cpu.a operand) cpu.flags.c in
    let f : Flags = record (cpu.flags) {
      s = bit 7 result;
      z = flag (byte result == 0);
      h = bit 4 (int_sub (int_sub (cpu.a % 16) (operand % 16)) cpu.flags.c);
      p = flag (not (bit 7 cpu.a == bit 7 operand) && not (bit 7 cpu.a == bit 7 result));
      n = 1;
      c = bit 8 result;
    } in
    write_a f (byte result) cpu

-- `do_sub`, with A put back.
unfoldable pub do_cp : ℕ → Cpu → Cpu
unfolding do_sub
do_cp operand cpu = record (do_sub operand cpu) { a = cpu.a }

-- The flags that the three logic operations leave, for a result in A.
abbrev pub logic_flags : ℕ → ℕ → Flags → Flags
logic_flags half result f = record f {
  s = bit 7 result;
  z = flag (result == 0);
  h = half;
  p = parity result;
  n = 0;
  c = 0;
}

unfoldable pub do_and : ℕ → Cpu → Cpu
unfolding update_xy_flags
do_and operand cpu =
    let result = bit_and cpu.a (byte operand) in write_a (logic_flags 1 result cpu.flags) result cpu

unfoldable pub do_or : ℕ → Cpu → Cpu
unfolding update_xy_flags
do_or operand cpu =
    let result = byte (bit_or operand cpu.a) in write_a (logic_flags 0 result cpu.flags) result cpu

unfoldable pub do_xor : ℕ → Cpu → Cpu
unfolding update_xy_flags
do_xor operand cpu =
    let result = byte (bit_xor operand cpu.a) in write_a (logic_flags 0 result cpu.flags) result cpu

-- `do_inc` and `do_dec` return the result and leave it to the caller to store it.
unfoldable pub do_inc : ℕ → Flags → ℕ × Flags
unfolding update_xy_flags
do_inc operand f = (
  byte (operand + 1),
  update_xy_flags (byte (operand + 1)) (record f {
    s = bit 7 (operand + 1);
    z = flag (byte (operand + 1) == 0);
    h = flag (operand % 16 == 0x0f);
    p = flag (operand == 0x7f);
    n = 0;
  }),
)

unfoldable pub do_dec : ℕ → Flags → ℕ × Flags
unfolding update_xy_flags
do_dec operand f = (
  byte (int_sub operand 1),
  update_xy_flags (byte (int_sub operand 1)) (record f {
    s = bit 7 (int_sub operand 1);
    z = flag (byte (int_sub operand 1) == 0);
    h = flag (operand % 16 == 0x00);
    p = flag (operand == 0x80);
    n = 1;
  }),
)

unfoldable pub do_neg : Cpu → Cpu
unfolding update_xy_flags get_signed_offset_byte
do_neg cpu =
    let result = if cpu.a == 0x80 then cpu.a else byte (int_sub 0 (get_signed_offset_byte cpu.a)) in
    let f : Flags = record (cpu.flags) {
      s = bit 7 result;
      z = flag (result == 0);
      h = flag (ltb 0 (int_sub 0 result % 16));
      p = flag (result == 0x80);
      n = 1;
      c = flag (not (result == 0));
    } in
    write_a f result cpu

-- DAA, 0x27 of decode-primary.ts: the tests, and `temp` after the corrections.
unfoldable pub daa_low : Cpu → Bool
daa_low cpu = not (cpu.flags.h == 0) || ltb 9 (cpu.a % 16)

unfoldable pub daa_high : Cpu → Bool
daa_high cpu = not (cpu.flags.c == 0) || ltb 0x99 cpu.a

unfoldable pub daa_result : Cpu → ℕ
unfolding daa_low daa_high
daa_result cpu =
    let added = if daa_low cpu then cpu.a + 0x06 else cpu.a in
    let taken = if daa_low cpu then int_sub cpu.a 0x06 else cpu.a in
    if cpu.flags.n == 0
    then (if daa_high cpu then added + 0x60 else added)
    else (if daa_high cpu then int_sub taken 0x60 else taken)

unfoldable pub daa : Cpu → Cpu
unfolding update_xy_flags
daa cpu =
    let temp = daa_result cpu in
    let f : Flags = record (cpu.flags) {
      s = bit 7 temp;
      z = flag (byte temp == 0);
      h = flag (not (bit 4 cpu.a == bit 4 temp));
      p = parity (byte temp);
      c = flag (daa_high cpu);
    } in
    write_a f (byte temp) cpu
