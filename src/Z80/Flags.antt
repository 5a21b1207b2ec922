-- ===== src/Z80/Flags.antt =====
-- core-helpers.ts: the flags as a byte, and the flags taken from a result.
use debug.Base.{ℕ, ◌+◌, ◌*◌, ◌==◌, bit, byte, flag}
use debug.Z80.State.{Flags, Cpu}

unfoldable pub set_flags_from_byte : ℕ → Flags
set_flags_from_byte operand = record {
  s = bit 7 operand;
  z = bit 6 operand;
  y = bit 5 operand;
  h = bit 4 operand;
  x = bit 3 operand;
  p = bit 2 operand;
  n = bit 1 operand;
  c = bit 0 operand;
}

unfoldable pub set_flags_register : ℕ → Cpu → Cpu
unfolding set_flags_from_byte
set_flags_register operand cpu = record cpu { flags = set_flags_from_byte operand }

-- The bits stand apart, so that `|` is `+`.
unfoldable pub flags_to_byte : Flags → ℕ
flags_to_byte f = f.s * 128 + f.z * 64 + f.y * 32 + f.h * 16 + f.x * 8 + f.p * 4 + f.n * 2 + f.c

unfoldable pub set_szxy_flags : ℕ → Flags → Flags
set_szxy_flags value f = record f {
  s = bit 7 (byte value);
  z = flag (byte value == 0);
  y = bit 5 (byte value);
  x = bit 3 (byte value);
}

unfoldable pub update_xy_flags : ℕ → Flags → Flags
update_xy_flags result f = record f { y = bit 5 result; x = bit 3 result }
