-- ===== src/Z80/Tests/Values.antt =====
-- The arithmetic at concrete registers.
use debug.Base.{◌+◌, ◌*◌, ◌<◌, ◌≤◌, ◌≡◌, ◌%◌, ◌==◌, refl, arith, flag}
use debug.Z80.State.{Flags, Cpu, init, flags_clear}
use debug.Z80.Flags.{set_flags_from_byte, flags_to_byte}
use debug.Z80.Registers.{Pair, get_pair}
use debug.Z80.Alu.{parity, do_add, do_adc, do_sub, do_sbc, do_neg, daa}
use debug.Z80.Alu16.{do_hl_add, do_hl_adc, do_hl_sbc}
use debug.Z80.Rotate.{do_rlc, do_rrc, do_rl, do_rr, do_sla, do_sll, do_srl, do_sra}
use debug.Z80.Decode.Primary.Low.{ex_af}
use debug.Z80.Valid.{IsValidFlags, IsValidCpu}
use debug.Z80.Laws.Parity.{ones, parity_even}
use debug.Z80.Laws.Adding.{offset, IsSum, IsDifference, do_adc-IsSum, do_sbc-IsDifference}
use debug.Z80.Laws.Adding16.{
  IsWordSum, IsWordDifference, HasSumCarries, HasDifferenceBorrows, do_hl_add_lem,
  do_hl_adc-IsWordSum, do_hl_adc-HasSumCarries, do_hl_adc_half_lost,
}
use debug.Z80.Laws.Decimal.{daa-do_adc, daa-do_sbc}
use debug.Z80.Laws.Rotating.{rotates_undone, shifts_lem}
use debug.Z80.Laws.FlagByte.{flags_to_byte-set_flags_from_byte, swap_af, ex_af-swap_af}
use debug.Z80.Laws.Agreement.{carry_clear, do_neg-do_sub}

abbrev carry_set : Flags
carry_set = record flags_clear { c = 1 }

-- A holds the digits 58, HL holds 1234H, and the carry is set.
abbrev loaded : Cpu
loaded = record init { a = 0x58; h = 0x12; l = 0x34; flags = carry_set; a_prime = 0x7f }

abbrev carry_reset : Cpu
carry_reset = record loaded { flags = flags_clear }

loaded-IsValidCpu : IsValidCpu loaded
unfolding init
loaded-IsValidCpu = omega arith

carry_set-IsValidFlags : IsValidFlags carry_set
carry_set-IsValidFlags = omega arith

do_adc-IsSum_example : let cpu' = do_adc 0x67 loaded in IsSum 0x58 0x67 1 cpu'.a cpu'.flags
do_adc-IsSum_example = do_adc-IsSum 0x67 loaded (omega arith) (omega arith) (omega arith)

do_sbc-IsDifference_example :
    let cpu' = do_sbc 0x67 loaded in IsDifference 0x58 0x67 1 cpu'.a cpu'.flags
do_sbc-IsDifference_example =
    do_sbc-IsDifference 0x67 loaded (omega arith) (omega arith) (omega arith)

-- 58 + 67 + 1 = 126
daa-do_adc_example : let cpu' = daa (do_adc 0x67 loaded) in (cpu'.a ≡ 0x26) × (cpu'.flags.c ≡ 1)
daa-do_adc_example = daa-do_adc 58 67 loaded (omega arith) (omega arith) refl (omega arith)

-- 58 - 67 - 1 = -10
daa-do_sbc_example : let cpu' = daa (do_sbc 0x67 loaded) in (cpu'.a ≡ 0x90) × (cpu'.flags.c ≡ 1)
daa-do_sbc_example = daa-do_sbc 58 67 loaded (omega arith) (omega arith) refl (omega arith)

do_hl_add_lem_example :
    let cpu' = do_hl_add 0xf000 loaded in
    (get_pair Pair.hl cpu' + 65536 * cpu'.flags.c ≡ get_pair Pair.hl loaded + 0xf000)
    × (get_pair Pair.hl cpu' % 4096 + 4096 * cpu'.flags.h
        ≡ get_pair Pair.hl loaded % 4096 + 0xf000 % 4096)
    × (cpu'.flags.s ≡ 0)
    × (cpu'.flags.z ≡ 0)
    × (cpu'.flags.p ≡ 0)
do_hl_add_lem_example = do_hl_add_lem 0xf000 loaded (omega arith) loaded-IsValidCpu

do_hl_adc-IsWordSum_example :
    let sum = do_hl_adc 0xfedc loaded in
    let difference = do_hl_sbc 0xfedc loaded in
    IsWordSum (get_pair Pair.hl loaded) 0xfedc 1 (get_pair Pair.hl sum) sum.flags
    × IsWordDifference
        (get_pair Pair.hl loaded)
        0xfedc
        1
        (get_pair Pair.hl difference)
        difference.flags
do_hl_adc-IsWordSum_example = do_hl_adc-IsWordSum 0xfedc loaded (omega arith) loaded-IsValidCpu

do_hl_adc-HasSumCarries_example :
    let sum = do_hl_adc 0x7edc loaded in
    let difference = do_hl_sbc 0x7edc loaded in
    HasSumCarries (get_pair Pair.hl loaded) 0x7edc 1 (get_pair Pair.hl sum) sum.flags
    × HasDifferenceBorrows
        (get_pair Pair.hl loaded)
        0x7edc
        1
        (get_pair Pair.hl difference)
        difference.flags
do_hl_adc-HasSumCarries_example =
    do_hl_adc-HasSumCarries 0x7edc loaded (omega arith) (omega arith) loaded-IsValidCpu

do_hl_adc_half_lost_example :
    ((do_hl_adc 0x0fff loaded).flags.h ≡ 0)
    × ((do_hl_sbc 0x0fff loaded).flags.h ≡ 0)
    × (4096 ≤ get_pair Pair.hl loaded % 4096 + 0x0fff % 4096 + 1)
    × (get_pair Pair.hl loaded % 4096 < 0x0fff % 4096 + 1)
do_hl_adc_half_lost_example =
    do_hl_adc_half_lost 0x0fff loaded (omega arith) refl refl loaded-IsValidCpu

rotates_undone_example :
    let (left_circular, f1) = do_rlc 0x81 carry_set in
    let (right_circular, f2) = do_rrc 0x81 carry_set in
    let (left, f3) = do_rl 0x81 carry_set in
    let (right, f4) = do_rr 0x81 carry_set in
    ((do_rrc left_circular f1).0 ≡ 0x81)
    × ((do_rlc right_circular f2).0 ≡ 0x81)
    × ((do_rr left f3).0 ≡ 0x81)
    × ((do_rr left f3).1.c ≡ 1)
    × ((do_rl right f4).0 ≡ 0x81)
    × ((do_rl right f4).1.c ≡ 1)
rotates_undone_example = rotates_undone 0x81 carry_set (omega arith) (omega arith)

shifts_lem_example :
    let (sla, f1) = do_sla 0x81 carry_set in
    let (sll, f2) = do_sll 0x81 carry_set in
    let (srl, f3) = do_srl 0x81 carry_set in
    let (sra, f4) = do_sra 0x81 carry_set in
    (sla + 256 * f1.c ≡ 2 * 0x81)
    × (sll + 256 * f2.c ≡ 2 * 0x81 + 1)
    × (2 * srl + f3.c ≡ 0x81)
    × (2 * offset sra + f4.c ≡ offset 0x81 + 128)
shifts_lem_example = shifts_lem 0x81 carry_set (omega arith)

flags_to_byte-set_flags_from_byte_example :
    (flags_to_byte (set_flags_from_byte 0xa5) ≡ 0xa5)
    × (set_flags_from_byte (flags_to_byte carry_set) ≡ carry_set)
flags_to_byte-set_flags_from_byte_example =
    flags_to_byte-set_flags_from_byte 0xa5 carry_set (omega arith) carry_set-IsValidFlags

ex_af-swap_af_example : ex_af loaded ≡ swap_af loaded
ex_af-swap_af_example = ex_af-swap_af loaded loaded-IsValidCpu.flags loaded-IsValidCpu.flags_prime

carry_clear_example :
    (do_adc 0x67 carry_reset ≡ do_add 0x67 carry_reset)
    × (do_sbc 0x67 carry_reset ≡ do_sub 0x67 carry_reset)
carry_clear_example = carry_clear 0x67 carry_reset refl (omega arith) (omega arith)

do_neg-do_sub_example : do_neg loaded ≡ do_sub 0x58 (record loaded { a = 0 })
do_neg-do_sub_example = do_neg-do_sub loaded (omega arith)

parity_even_example : parity 0x58 ≡ flag (ones 8 0x58 % 2 == 0)
parity_even_example = parity_even 0x58 (omega arith)
