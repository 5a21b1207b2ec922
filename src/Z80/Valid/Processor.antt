-- ===== src/Z80/Valid/Processor.antt =====
-- One instruction, a reset and an interrupt keep the ranges.
use debug.Base.{ℕ, ◌*◌, ◌==◌, arith, Bool, true, false, not, bit_or, if◌then◌else◌}
use debug.Z80.Hardware.{Machine, mem_read, on_cpu}
use debug.Z80.Stack.{push_word}
use debug.Z80.Jump.{skip}
use debug.Z80.Decode.Operands.{inc_r}
use debug.Z80.Processor.{
  reset, decode_instruction, take_delayed, finish_delayed, execute, non_maskable_interrupt,
  vectored, maskable_interrupt, interrupt,
}
use debug.Z80.Valid.{IsValid, Keeps, KeepsCpu}
use debug.Z80.Valid.Memory.{
  skip-Keeps, add_cycles-Keeps, push_word-Keeps, read_word-lt, inc_r-IsValidCpu, if-IsValid,
}
use debug.Z80.Valid.Primary.{execute_primary_opcode-Keeps}

pub reset-IsValidCpu : KeepsCpu reset
unfolding reset
reset-IsValidCpu cpu v = omega (arith, v)

decode_instruction-Keeps : (opcode : ℕ) → Keeps (decode_instruction opcode)
unfolding decode_instruction
decode_instruction-Keeps opcode = execute_primary_opcode-Keeps opcode

take_delayed-IsValidCpu : KeepsCpu take_delayed
unfolding take_delayed
take_delayed-IsValidCpu cpu v = ground arith

finish_delayed-IsValidCpu : (di ei : Bool) → KeepsCpu (finish_delayed di ei)
unfolding finish_delayed
finish_delayed-IsValidCpu di ei cpu v = ground arith

-- The machine of a pair that a test chooses.
if-IsValid_pair :
    (test : Bool) (p q : ℕ × Machine)
    → IsValid p.1
    → IsValid q.1
    → IsValid (if test then p else q).1
if-IsValid_pair true p q v v' = v
if-IsValid_pair false p q v v' = v'

-- Executing an instruction, whatever its opcode and prefixes, from a state in range leaves every
-- register, flag and memory cell in range.
pub execute-IsValid : (m : Machine) → IsValid m → IsValid (execute m).1
unfolding execute
execute-IsValid m v = if-IsValid_pair m.cpu.halted (1, m) _ v v4
  where
    m1 : Machine
    m1 = on_cpu (λ cpu. inc_r (take_delayed cpu)) m

    v1 : IsValid m1
    v1 = record {
      cpu = inc_r-IsValidCpu _ (take_delayed-IsValidCpu m.cpu v.cpu);
      memory = v.memory;
    }

    opcode : ℕ
    opcode = mem_read m1 m1.cpu.pc

    v2 : IsValid (skip 1 (decode_instruction opcode m1))
    v2 = skip-Keeps 1 _ (decode_instruction-Keeps opcode m1 v1)

    m3 : Machine
    m3 =
        on_cpu (finish_delayed m.cpu.do_delayed_di m.cpu.do_delayed_ei)
          (skip 1 (decode_instruction opcode m1))

    v3 : IsValid m3
    v3 = record { cpu = finish_delayed-IsValidCpu _ _ _ v2.cpu; memory = v2.memory }

    v4 : IsValid (on_cpu (λ cpu. record cpu { cycle_counter = 0 }) m3)
    v4 = record { cpu = omega (arith, v3.cpu); memory = v3.memory }

non_maskable_interrupt-Keeps : Keeps non_maskable_interrupt
unfolding non_maskable_interrupt
non_maskable_interrupt-Keeps m v =
    let v2 = push_word-Keeps m.cpu.pc _ (entered m v) in
    record { cpu = omega (arith, v2.cpu); memory = v2.memory }
  where
    entered :
        Keeps (on_cpu (λ cpu. record (inc_r cpu) { halted = false; iff2 = cpu.iff1; iff1 = 0 }))
    entered m v = record {
      cpu = omega (arith, v.cpu, inc_r-IsValidCpu m.cpu v.cpu);
      memory = v.memory;
    }

vectored-Keeps : (bus : ℕ) → Keeps (vectored bus)
unfolding vectored
vectored-Keeps bus m v =
    let v1 = push_word-Keeps m.cpu.pc m v in
    let m1 = push_word m.cpu.pc m in
    let low = read_word-lt (bit_or (m1.cpu.i * 256) bus) m1 v1 in
    record { cpu = omega (arith, low, v1.cpu); memory = v1.memory }

maskable_interrupt-Keeps : (bus : ℕ) → Keeps (maskable_interrupt bus)
unfolding maskable_interrupt
maskable_interrupt-Keeps bus m v =
    if-IsValid (m.cpu.imode == 0) (add_cycles-Keeps 2 _ (decode_instruction-Keeps bus m1 v1)) (
      if-IsValid (m.cpu.imode == 1) (record { cpu = omega (arith, v2.cpu); memory = v2.memory })
        (if-IsValid (m.cpu.imode == 2) (vectored-Keeps bus m1 v1) v1))
  where
    m1 : Machine
    m1 = on_cpu (λ cpu. record (inc_r cpu) { halted = false; iff1 = 0; iff2 = 0 }) m

    v1 : IsValid m1
    v1 = record { cpu = omega (arith, v.cpu, inc_r-IsValidCpu m.cpu v.cpu); memory = v.memory }

    v2 : IsValid (push_word m1.cpu.pc m1)
    v2 = push_word-Keeps m1.cpu.pc m1 v1

-- An interrupt, maskable or not, in every mode and for every value on the bus, from a state in
-- range leaves the state in range.
pub interrupt-IsValid :
    (non_maskable : Bool) (bus : ℕ) (m : Machine)
    → IsValid m
    → IsValid (interrupt non_maskable bus m)
unfolding interrupt
interrupt-IsValid non_maskable bus m v =
    if-IsValid non_maskable (non_maskable_interrupt-Keeps m v)
      (if-IsValid (not (m.cpu.iff1 == 0)) (maskable_interrupt-Keeps bus m v) v)
