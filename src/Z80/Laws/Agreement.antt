-- ===== src/Z80/Laws/Agreement.antt =====
-- How the operations on A stand to each other.
use debug.Base.{ℕ, ◌≡◌, arith, ◌<◌}
use debug.Z80.State.{Cpu}
use debug.Z80.Alu.{do_add, do_adc, do_sub, do_sbc, do_neg, get_signed_offset_byte}

-- With the carry clear, on bytes, ADC is ADD and SBC is SUB, on the whole processor.
pub carry_clear :
    (n : ℕ) (cpu : Cpu)
    → cpu.flags.c ≡ 0
    → n < 256
    → cpu.a < 256
    → (do_adc n cpu ≡ do_add n cpu) × (do_sbc n cpu ≡ do_sub n cpu)
unfolding do_adc do_add do_sbc do_sub
carry_clear n cpu e h v = (simp e (ground arith), ground arith)

-- With A a byte NEG is the subtraction of A from 0, on the whole processor.
pub do_neg-do_sub : (cpu : Cpu) → cpu.a < 256 → do_neg cpu ≡ do_sub cpu.a (record cpu { a = 0 })
unfolding do_neg do_sub get_signed_offset_byte
do_neg-do_sub cpu v = ground arith
