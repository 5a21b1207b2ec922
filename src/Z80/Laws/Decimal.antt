-- ===== src/Z80/Laws/Decimal.antt =====
-- DAA after additions and subtractions of packed decimal digits.
use debug.Base.{
  ℕ, if◌then◌else◌, ◌<◌, ◌≡◌, refl, subst, arith, ◌+◌, ◌*◌, ◌/◌, ◌%◌, byte, flag, ltb, ◌-◌,
}
use debug.Z80.State.{Cpu}
use debug.Z80.Alu.{do_adc, do_sbc, daa, daa_low, daa_high, daa_result}

-- Two decimal digits in a byte.
abbrev pub packed : ℕ → ℕ
packed n = n / 10 * 16 + n % 10

-- What DAA adds after an addition, from its two tests.
daa_added :
    (cpu : Cpu)
    → cpu.flags.n ≡ 0
    → (daa cpu).a
      ≡ byte (
          cpu.a
          + (if◌then◌else◌ {A = ℕ} (daa_low cpu) 6 0)
          + (if◌then◌else◌ {A = ℕ} (daa_high cpu) 96 0))
unfolding daa daa_result
daa_added cpu e = ground arith

daa_taken :
    (cpu : Cpu)
    → cpu.flags.n ≡ 1
    → cpu.a < 256
    → (daa cpu).a
      ≡ byte (
          cpu.a
          + 256
          - (if◌then◌else◌ {A = ℕ} (daa_low cpu) 6 0)
          - (if◌then◌else◌ {A = ℕ} (daa_high cpu) 96 0))
unfolding daa daa_result
daa_taken cpu e h = ground arith

daa_carry : (cpu : Cpu) → (daa cpu).flags.c ≡ flag (daa_high cpu)
unfolding daa
daa_carry cpu = refl

module _ (x1 x0 y1 y0 : ℕ) (cpu : Cpu) (p : x1 < 10) (q : x0 < 10) (r : y1 < 10) (s : y0 < 10)
    (e : cpu.a ≡ x1 * 16 + x0) (v : cpu.flags.c < 2) where
  daa_low-do_adc : daa_low (do_adc (y1 * 16 + y0) cpu) ≡ ltb 9 (x0 + y0 + cpu.flags.c)
  unfolding do_adc daa_low
  daa_low-do_adc = ground arith

  daa_high-do_adc :
      daa_high (do_adc (y1 * 16 + y0) cpu) ≡ ltb 99 (x1 * 10 + x0 + y1 * 10 + y0 + cpu.flags.c)
  unfolding do_adc daa_high
  daa_high-do_adc = ground arith

  do_adc-byte :
      ((do_adc (y1 * 16 + y0) cpu).a ≡ byte (cpu.a + (y1 * 16 + y0) + cpu.flags.c))
      × ((do_adc (y1 * 16 + y0) cpu).flags.n ≡ 0)
  unfolding do_adc
  do_adc-byte = (refl, refl)

  do_sbc-byte :
      let cpu' = do_sbc (y1 * 16 + y0) cpu in
      (cpu'.a ≡ byte (cpu.a + 256 - (y1 * 16 + y0) - cpu.flags.c + 256))
      × (cpu'.flags.n ≡ 1)
      × (cpu'.a < 256)
  unfolding do_sbc
  do_sbc-byte = (omega arith, refl, omega arith)

  daa_low-do_sbc : daa_low (do_sbc (y1 * 16 + y0) cpu) ≡ ltb x0 (y0 + cpu.flags.c)
  unfolding do_sbc daa_low
  daa_low-do_sbc = ground arith

  daa_high-do_sbc :
      daa_high (do_sbc (y1 * 16 + y0) cpu) ≡ ltb (x1 * 10 + x0) (y1 * 10 + y0 + cpu.flags.c)
  unfolding do_sbc daa_high
  daa_high-do_sbc = ground arith

-- On digits: the sum's digits, and the carry out of the second.
daa-do_adc_digits :
    (x1 x0 y1 y0 : ℕ) (cpu : Cpu)
    → x1 < 10
    → x0 < 10
    → y1 < 10
    → y0 < 10
    → cpu.a ≡ x1 * 16 + x0
    → cpu.flags.c < 2
    → let cpu' = daa (do_adc (y1 * 16 + y0) cpu) in
      let sum = x1 * 10 + x0 + y1 * 10 + y0 + cpu.flags.c in
      (cpu'.a ≡ packed (sum % 100)) × (cpu'.flags.c ≡ sum / 100)
daa-do_adc_digits x1 x0 y1 y0 cpu p q r s e v =
    let low = daa_low-do_adc x1 x0 y1 y0 cpu p q r s e v in
    let hi = daa_high-do_adc x1 x0 y1 y0 cpu p q r s e v in
    let b = do_adc-byte x1 x0 y1 y0 cpu p q r s e v in
    let t = daa_added (do_adc (y1 * 16 + y0) cpu) b.1 in
    let k = daa_carry (do_adc (y1 * 16 + y0) cpu) in
    (simp (t, low, hi, b.0, e) (ground arith), simp (k, hi) (ground arith))

daa-do_sbc_digits :
    (x1 x0 y1 y0 : ℕ) (cpu : Cpu)
    → x1 < 10
    → x0 < 10
    → y1 < 10
    → y0 < 10
    → cpu.a ≡ x1 * 16 + x0
    → cpu.flags.c < 2
    → let cpu' = daa (do_sbc (y1 * 16 + y0) cpu) in
      let x = x1 * 10 + x0 in
      let y = y1 * 10 + y0 + cpu.flags.c in
      (cpu'.a ≡ packed ((x + 100 - y) % 100)) × (cpu'.flags.c ≡ flag (ltb x y))
daa-do_sbc_digits x1 x0 y1 y0 cpu p q r s e v =
    let low = daa_low-do_sbc x1 x0 y1 y0 cpu p q r s e v in
    let hi = daa_high-do_sbc x1 x0 y1 y0 cpu p q r s e v in
    let b = do_sbc-byte x1 x0 y1 y0 cpu p q r s e v in
    let t = daa_taken (do_sbc (y1 * 16 + y0) cpu) b.1 b.2 in
    let k = daa_carry (do_sbc (y1 * 16 + y0) cpu) in
    (simp (t, low, hi, b.0, e) (ground arith), simp (k, hi) (ground arith))

-- With a carry of 0 or 1 DAA after an ADC of two packed decimal numbers below 100 gives the packed sum, with the carry in C.
pub daa-do_adc :
    (x y : ℕ) (cpu : Cpu)
    → x < 100
    → y < 100
    → cpu.a ≡ packed x
    → cpu.flags.c < 2
    → let cpu' = daa (do_adc (packed y) cpu) in
      let sum = x + y + cpu.flags.c in (cpu'.a ≡ packed (sum % 100)) × (cpu'.flags.c ≡ sum / 100)
daa-do_adc x y cpu p q e v =
    let digits =
      daa-do_adc_digits (x / 10) (x % 10) (y / 10) (y % 10) cpu (omega arith) (omega arith)
        (omega arith) (omega arith) e v in
    let t : x / 10 * 10 + x % 10 + y / 10 * 10 + y % 10 + cpu.flags.c ≡ x + y + cpu.flags.c =
      omega arith in
    subst
      (λ sum.
        ((daa (do_adc (packed y) cpu)).a ≡ packed (sum % 100))
        × ((daa (do_adc (packed y) cpu)).flags.c ≡ sum / 100))
      t digits

-- With a borrow of 0 or 1 DAA after an SBC of two packed decimal numbers below 100 gives the packed difference modulo 100, with the
-- borrow in C.
pub daa-do_sbc :
    (x y : ℕ) (cpu : Cpu)
    → x < 100
    → y < 100
    → cpu.a ≡ packed x
    → cpu.flags.c < 2
    → let cpu' = daa (do_sbc (packed y) cpu) in
      let taken = y + cpu.flags.c in
      (cpu'.a ≡ packed ((x + 100 - taken) % 100)) × (cpu'.flags.c ≡ flag (ltb x taken))
daa-do_sbc x y cpu p q e v =
    let digits =
      daa-do_sbc_digits (x / 10) (x % 10) (y / 10) (y % 10) cpu (omega arith) (omega arith)
        (omega arith) (omega arith) e v in
    let t : x / 10 * 10 + x % 10 ≡ x = omega arith in
    let t' : y / 10 * 10 + y % 10 + cpu.flags.c ≡ y + cpu.flags.c = omega arith in
    let cpu' = daa (do_sbc (packed y) cpu) in
    subst
      (λ n.
        (cpu'.a ≡ packed ((n + 100 - (y + cpu.flags.c)) % 100))
        × (cpu'.flags.c ≡ flag (ltb n (y + cpu.flags.c))))
      t
      (subst
        (λ taken.
          (cpu'.a ≡ packed ((x / 10 * 10 + x % 10 + 100 - taken) % 100))
          × (cpu'.flags.c ≡ flag (ltb (x / 10 * 10 + x % 10) taken)))
        t' digits)
