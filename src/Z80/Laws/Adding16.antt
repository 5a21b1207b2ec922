-- ===== src/Z80/Laws/Adding16.antt =====
-- The sixteen-bit additions and subtractions against arithmetic on numbers.
use debug.Base.{ℕ, ◌+◌, ◌*◌, ◌%◌, ◌≤◌, ◌<◌, ◌≡◌, arith, not, ◌&&◌, ◌==◌, ltb, leb}
use debug.Base.{flag, bit}
use debug.Z80.State.{Flags, Cpu}
use debug.Z80.Registers.{Pair, get_pair, set_pair}
use debug.Z80.Alu16.{do_hl_add, do_hl_adc, do_hl_sbc}
use debug.Z80.Valid.{IsValidCpu}

-- A word as a signed number, 32768 added.
abbrev pub offset16 : ℕ → ℕ
offset16 n = (n + 32768) % 65536

-- The part of a sixteen-bit sum that C, S and Z tell.
pub record IsWordSum (hl n carry hl' : ℕ) (f : Flags) : Type 0 where
  pub sum : hl' + 65536 * f.c ≡ hl + n + carry
  pub sign : f.s ≡ flag (leb 32768 hl')
  pub zero : f.z ≡ flag (hl' == 0)
  pub undocumented : (f.y ≡ bit 13 hl') × (f.x ≡ bit 11 hl')
  pub negative : f.n ≡ 0

pub record IsWordDifference (hl n borrow hl' : ℕ) (f : Flags) : Type 0 where
  pub difference : hl' + n + borrow ≡ hl + 65536 * f.c
  pub sign : f.s ≡ flag (leb 32768 hl')
  pub zero : f.z ≡ flag (hl' == 0)
  pub undocumented : (f.y ≡ bit 13 hl') × (f.x ≡ bit 11 hl')
  pub negative : f.n ≡ 1

-- The carry out of bit 11 in H, and in P whether the signed sum leaves its range.
pub record HasSumCarries (hl n carry hl' : ℕ) (f : Flags) : Type 0 where
  pub half : hl' % 4096 + 4096 * f.h ≡ hl % 4096 + n % 4096 + carry
  pub overflow :
      f.p
      ≡ flag (
          not (
            leb 65536 (offset16 hl + offset16 n + carry + 32768)
            && ltb (offset16 hl + offset16 n + carry) 98304))

pub record HasDifferenceBorrows (hl n borrow hl' : ℕ) (f : Flags) : Type 0 where
  pub half : hl' % 4096 + n % 4096 + borrow ≡ hl % 4096 + 4096 * f.h
  pub overflow :
      f.p
      ≡ flag (
          not (
            leb (offset16 n + borrow) (offset16 hl + 32768)
            && ltb (offset16 hl) (offset16 n + borrow + 32768)))

-- For a word and registers in range ADD HL adds modulo 65536 with the carry in C and the carry out of bit 11 in H, and leaves S, Z
-- and P as they were.
pub do_hl_add_lem :
    (n : ℕ) (cpu : Cpu)
    → n < 65536
    → IsValidCpu cpu
    → let cpu' = do_hl_add n cpu in
      let hl = get_pair Pair.hl cpu in
      let hl' = get_pair Pair.hl cpu' in
      (hl' + 65536 * cpu'.flags.c ≡ hl + n)
      × (hl' % 4096 + 4096 * cpu'.flags.h ≡ hl % 4096 + n % 4096)
      × (cpu'.flags.s ≡ cpu.flags.s)
      × (cpu'.flags.z ≡ cpu.flags.z)
      × (cpu'.flags.p ≡ cpu.flags.p)
unfolding do_hl_add get_pair set_pair
do_hl_add_lem n cpu h v = ground arith

-- For every word, with registers in range, ADC HL and SBC HL have the right sum and difference, and the right C,
-- S, Z and N.
pub do_hl_adc-IsWordSum :
    (n : ℕ) (cpu : Cpu)
    → n < 65536
    → IsValidCpu cpu
    → let sum = do_hl_adc n cpu in
      let difference = do_hl_sbc n cpu in
      IsWordSum (get_pair Pair.hl cpu) n cpu.flags.c (get_pair Pair.hl sum) sum.flags
      × IsWordDifference
          (get_pair Pair.hl cpu)
          n
          cpu.flags.c
          (get_pair Pair.hl difference)
          difference.flags
unfolding do_hl_adc do_hl_sbc get_pair set_pair
do_hl_adc-IsWordSum n cpu h v = (ground arith, ground arith)

-- Where the operand and the carry together stay in the operand's low twelve bits, with registers in
-- range, H and P of ADC HL and SBC HL are right too.
pub do_hl_adc-HasSumCarries :
    (n : ℕ) (cpu : Cpu)
    → n < 65536
    → n % 4096 + cpu.flags.c < 4096
    → IsValidCpu cpu
    → let sum = do_hl_adc n cpu in
      let difference = do_hl_sbc n cpu in
      HasSumCarries (get_pair Pair.hl cpu) n cpu.flags.c (get_pair Pair.hl sum) sum.flags
      × HasDifferenceBorrows
          (get_pair Pair.hl cpu)
          n
          cpu.flags.c
          (get_pair Pair.hl difference)
          difference.flags
unfolding do_hl_adc do_hl_sbc get_pair set_pair
do_hl_adc-HasSumCarries n cpu h less v = (ground arith, ground arith)

-- For a word whose low twelve bits are all ones, with the carry set and the registers in range,
-- ADC HL and SBC HL clear H, though the low twelve bits of HL, the operand and the carry add up
-- to at least 4096, and those of HL are below those of the operand and the borrow.
pub do_hl_adc_half_lost :
    (n : ℕ) (cpu : Cpu)
    → n < 65536
    → n % 4096 ≡ 4095
    → cpu.flags.c ≡ 1
    → IsValidCpu cpu
    → ((do_hl_adc n cpu).flags.h ≡ 0)
      × ((do_hl_sbc n cpu).flags.h ≡ 0)
      × (4096 ≤ get_pair Pair.hl cpu % 4096 + n % 4096 + cpu.flags.c)
      × (get_pair Pair.hl cpu % 4096 < n % 4096 + cpu.flags.c)
unfolding do_hl_adc do_hl_sbc get_pair set_pair
do_hl_adc_half_lost n cpu h full set v = ground arith
