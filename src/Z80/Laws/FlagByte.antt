-- ===== src/Z80/Laws/FlagByte.antt =====
-- The flags as the byte F, and the exchange of AF.
use debug.Base.{ℕ, ◌<◌, ◌≡◌, arith}
use debug.Z80.State.{Flags, Cpu}
use debug.Z80.Flags.{set_flags_from_byte, flags_to_byte}
use debug.Z80.Decode.Primary.Low.{ex_af}
use debug.Z80.Valid.{IsValidFlags}

-- Every byte comes back from the flags that it sets, and flags that are 0 or 1 come back from
-- their byte.
pub flags_to_byte-set_flags_from_byte :
    (n : ℕ) (f : Flags)
    → n < 256
    → IsValidFlags f
    → (flags_to_byte (set_flags_from_byte n) ≡ n) × (set_flags_from_byte (flags_to_byte f) ≡ f)
unfolding flags_to_byte set_flags_from_byte
flags_to_byte-set_flags_from_byte n f h v = ground arith

set_flags_from_byte-flags_to_byte :
    (f : Flags) → IsValidFlags f → set_flags_from_byte (flags_to_byte f) ≡ f
set_flags_from_byte-flags_to_byte f v = (flags_to_byte-set_flags_from_byte 0 f (omega arith) v).1

-- The exchange as it would be without the byte between: A and the flags, each with its shadow.
abbrev pub swap_af : Cpu → Cpu
swap_af cpu = record cpu {
  a = cpu.a_prime;
  a_prime = cpu.a;
  flags = cpu.flags_prime;
  flags_prime = cpu.flags;
}

-- With the flags and their shadows 0 or 1, EX AF,AF', which takes the flags through the byte F, is
-- the exchange of A and of each flag with its shadow, and leaves every other register as it is.
pub ex_af-swap_af :
    (cpu : Cpu) → IsValidFlags cpu.flags → IsValidFlags cpu.flags_prime → ex_af cpu ≡ swap_af cpu
unfolding ex_af
ex_af-swap_af cpu v v' = λ i. record cpu {
  a = cpu.a_prime;
  a_prime = cpu.a;
  flags = set_flags_from_byte-flags_to_byte cpu.flags_prime v' i;
  flags_prime = set_flags_from_byte-flags_to_byte cpu.flags v i;
}
