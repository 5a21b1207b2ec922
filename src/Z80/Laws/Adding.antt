-- ===== src/Z80/Laws/Adding.antt =====
-- The eight-bit and sixteen-bit additions and subtractions against arithmetic on numbers.
use debug.Base.{ℕ, ◌+◌, ◌*◌, ◌%◌, ◌<◌, ◌≡◌, arith, not, ◌&&◌, ◌==◌, ltb, leb}
use debug.Base.{flag, bit}
use debug.Z80.State.{Flags, Cpu}
use debug.Z80.Alu.{do_adc, do_sbc}

-- A byte as a signed number, 128 added: the order of the offsets is that of the signed numbers.
abbrev pub offset : ℕ → ℕ
offset n = (n + 128) % 256

-- `a' = a + n + carry` with the flags of the result: the ninth bit in C, the carry out of the
-- low digit in H, and in P whether the signed sum leaves -128 .. 127.
pub record IsSum (a n carry a' : ℕ) (f : Flags) : Type 0 where
  pub sum : a' + 256 * f.c ≡ a + n + carry
  pub digit : a' % 16 + 16 * f.h ≡ a % 16 + n % 16 + carry
  pub overflow :
      f.p
      ≡ flag (
          not
            (leb 256 (offset a + offset n + carry + 128) && ltb (offset a + offset n + carry) 384))
  pub sign : f.s ≡ flag (leb 128 a')
  pub zero : f.z ≡ flag (a' == 0)
  pub undocumented : (f.y ≡ bit 5 a') × (f.x ≡ bit 3 a')
  pub negative : f.n ≡ 0

-- `a' = a - n - borrow` in the same way, with borrows in C and H.
pub record IsDifference (a n borrow a' : ℕ) (f : Flags) : Type 0 where
  pub difference : a' + n + borrow ≡ a + 256 * f.c
  pub digit : a' % 16 + n % 16 + borrow ≡ a % 16 + 16 * f.h
  pub overflow :
      f.p
      ≡ flag (
          not
            (leb (offset n + borrow) (offset a + 128) && ltb (offset a) (offset n + borrow + 128)))
  pub sign : f.s ≡ flag (leb 128 a')
  pub zero : f.z ≡ flag (a' == 0)
  pub undocumented : (f.y ≡ bit 5 a') × (f.x ≡ bit 3 a')
  pub negative : f.n ≡ 1

-- For a byte operand, A a byte and a carry of 0 or 1, ADC leaves the sum modulo 256 in A with
-- the carry out in C, the carry out of the low digit in H, the signed overflow in P, N clear,
-- and S, Z, X and Y from the result.
pub do_adc-IsSum :
    (n : ℕ) (cpu : Cpu)
    → n < 256
    → cpu.a < 256
    → cpu.flags.c < 2
    → let cpu' = do_adc n cpu in IsSum cpu.a n cpu.flags.c cpu'.a cpu'.flags
unfolding do_adc
do_adc-IsSum n cpu h v c = ground arith

-- For a byte operand, A a byte and a borrow of 0 or 1, SBC leaves the difference modulo 256 in A
-- with the borrow in C, the borrow of the low digit in H, the signed overflow in P, N set, and
-- S, Z, X and Y from the result.
pub do_sbc-IsDifference :
    (n : ℕ) (cpu : Cpu)
    → n < 256
    → cpu.a < 256
    → cpu.flags.c < 2
    → let cpu' = do_sbc n cpu in IsDifference cpu.a n cpu.flags.c cpu'.a cpu'.flags
unfolding do_sbc
do_sbc-IsDifference n cpu h v c = ground arith
