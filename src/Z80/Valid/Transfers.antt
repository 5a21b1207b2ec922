-- ===== src/Z80/Valid/Transfers.antt =====
-- The handlers that the opcode tables share, and those of decode-cb.ts and decode-ddcb.ts.
use debug.Base.{holds_below, test-holds_below, ltb→lt, true, refl, ◌≡◌, word}
use debug.Z80.Constants.{cycle_counts_cb}
use debug.Base.{
  ℕ, ◌+◌, ◌-◌, ◌/◌, ◌%◌, ◌^◌, ◌<◌, arith, Option, none, some, ltb, get_or, bit_and-le, bit_or-lt,
}
use debug.Z80.State.{Flags, Cpu}
use debug.Z80.Registers.{Reg, Pair, set_reg, hi_reg, lo_reg}
use debug.Z80.Hardware.{Machine, mem_read, on_cpu}
use debug.Z80.Alu.{get_signed_offset_byte}
use debug.Z80.Rotate.{ByteOp, get_byte_op}
use debug.Z80.Decode.Operands.{
  operand_reg, get_operand, put_operand, apply_op, ld_operand_n, ld_pair_nn, ld_mem_pair,
  ld_pair_mem, alu_n, fetch, inc_r,
}
use debug.Z80.Decode.Cb.{bit_flags, reset_bit, set_bit, cb_operation, cb_handler}
use debug.Z80.Decode.Ddcb.{
  indexed_bit_flags, copy_result, write_result, ddcb_operation, ddcb_handler,
}
use debug.Z80.Valid.{IsValidFlags, IsValidCpu, IsValid, Keeps, KeepsCpu}
use debug.Z80.Valid.Registers.{get_reg-lt, set_reg-IsValidCpu}
use debug.Z80.Valid.Arithmetic.{KeepsByte, get_byte_op-KeepsByte}
use debug.Z80.Valid.Memory.{
  mem_read-lt, on_cpu-Keeps, mem_write-Keeps, add_cycles-Keeps, fetch-IsValid, fetch-lt,
  fetch_word-IsValid, inc_r-IsValidCpu, if-IsValid,
}

pub set_flags-IsValid :
    (f : Flags) (m : Machine)
    → IsValidFlags f
    → IsValid m
    → IsValid (on_cpu (λ cpu. record cpu { flags = f }) m)
set_flags-IsValid f m h v = record { cpu = omega (arith, h, v.cpu); memory = v.memory }

pub set_reg-IsValid :
    (r : Reg) (n : ℕ) (m : Machine)
    → n < 256
    → IsValid m
    → IsValid (on_cpu (λ cpu. set_reg r n cpu) m)
set_reg-IsValid r n m h v = record { cpu = set_reg-IsValidCpu r n m.cpu h v.cpu; memory = v.memory }

pub get_operand-lt : (target : Option Reg) (m : Machine) → IsValid m → get_operand target m < 256
unfolding get_operand
get_operand-lt none m v = mem_read-lt m _ v
get_operand-lt (some r) m v = get_reg-lt r m.cpu v.cpu

pub put_operand-IsValid :
    (target : Option Reg) (n : ℕ) (m : Machine)
    → n < 256
    → IsValid m
    → IsValid (put_operand target n m)
unfolding put_operand
put_operand-IsValid none n m h v = mem_write-Keeps _ n m v
put_operand-IsValid (some r) n m h v = set_reg-IsValid r n m h v

pub apply_op-Keeps : (op : ByteOp) (target : Option Reg) → KeepsByte op → Keeps (apply_op op target)
unfolding apply_op
apply_op-Keeps op target keep m v =
    let kept = keep (get_operand target m) m.cpu.flags (get_operand-lt target m v) v.cpu.flags in
    put_operand-IsValid target _ _ kept.0 (set_flags-IsValid _ m kept.1 v)

pub ld_operand_n-Keeps : (target : Option Reg) → Keeps (ld_operand_n target)
unfolding ld_operand_n
ld_operand_n-Keeps target m v = put_operand-IsValid target _ _ (fetch-lt m v) (fetch-IsValid m v)

pub ld_pair_nn-Keeps : (q : Pair) → Keeps (ld_pair_nn q)
unfolding ld_pair_nn
ld_pair_nn-Keeps q m v =
    let v1 = set_reg-IsValid (lo_reg q) _ _ (fetch-lt m v) (fetch-IsValid m v) in
    set_reg-IsValid (hi_reg q) _ _ (fetch-lt _ v1) (fetch-IsValid _ v1)

pub ld_mem_pair-Keeps : (q : Pair) → Keeps (ld_mem_pair q)
unfolding ld_mem_pair
ld_mem_pair-Keeps q m v = mem_write-Keeps _ _ _ (mem_write-Keeps _ _ _ (fetch_word-IsValid m v))

pub ld_pair_mem-Keeps : (q : Pair) → Keeps (ld_pair_mem q)
unfolding ld_pair_mem
ld_pair_mem-Keeps q m v =
    let v1 = fetch_word-IsValid m v in
    let v2 = set_reg-IsValid (lo_reg q) _ _ (mem_read-lt _ _ v1) v1 in
    set_reg-IsValid (hi_reg q) _ _ (mem_read-lt _ _ v2) v2

pub alu_n-Keeps : (op : ℕ → Cpu → Cpu) → ((n : ℕ) → KeepsCpu (op n)) → Keeps (alu_n op)
unfolding alu_n
alu_n-Keeps op keep m v = on_cpu-Keeps _ (keep _) _ (fetch-IsValid m v)

bit_flags-IsValidFlags : (k n : ℕ) (f : Flags) → IsValidFlags f → IsValidFlags (bit_flags k n f)
unfolding bit_flags
bit_flags-IsValidFlags k n f v = ground arith

indexed_bit_flags-IsValidFlags :
    (k n : ℕ) (f : Flags) → IsValidFlags f → IsValidFlags (indexed_bit_flags k n f)
unfolding indexed_bit_flags
indexed_bit_flags-IsValidFlags k n f v = ground arith

reset_bit-lt : (k n : ℕ) → n < 256 → reset_bit k n < 256
unfolding reset_bit
reset_bit-lt k n h = omega (arith, bit_and-le n (255 - 2 ^ k))

two_pow-lt_table : holds_below (λ k. ltb (2 ^ k) 256) 8 ≡ true
unfolding holds_below
two_pow-lt_table = refl

-- The bit number is taken from three bits of the opcode.
two_pow-lt : (k : ℕ) → k < 8 → 2 ^ k < 256
two_pow-lt k h = ltb→lt (2 ^ k) 256 (test-holds_below (λ k. ltb (2 ^ k) 256) 8 k h two_pow-lt_table)

set_bit-lt : (k n : ℕ) → k < 8 → n < 256 → set_bit k n < 256
unfolding set_bit
set_bit-lt k n h h' = bit_or-lt 8 n (2 ^ k) h' (two_pow-lt k h)

cb_operation-Keeps : (opcode1 : ℕ) → Keeps (cb_operation opcode1)
unfolding cb_operation
cb_operation-Keeps opcode1 m v =
    if-IsValid (ltb opcode1 0x40) (apply_op-Keeps _ target (get_byte_op-KeepsByte k) m v) (
      if-IsValid (ltb opcode1 0x80)
        (set_flags-IsValid _ m (bit_flags-IsValidFlags k _ _ v.cpu.flags) v)
        (if-IsValid (ltb opcode1 0xc0)
          (put_operand-IsValid target _ m (reset_bit-lt k _ (get_operand-lt target m v)) v)
          (put_operand-IsValid target _ m (set_bit-lt k _ (omega arith) (get_operand-lt target m v))
            v)))
  where
    k : ℕ
    k = opcode1 / 8 % 8

    target : Option Reg
    target = operand_reg (opcode1 % 8)

pub cb_handler-Keeps : Keeps cb_handler
unfolding cb_handler
cb_handler-Keeps m v =
    let m1 = on_cpu inc_r m in
    let opcode1 = (fetch m1).0 in
    add_cycles-Keeps (get_or cycle_counts_cb opcode1 0) _
      (cb_operation-Keeps opcode1 _ (fetch-IsValid m1 (on_cpu-Keeps inc_r inc_r-IsValidCpu m v)))

copy_result-IsValidCpu :
    (code n : ℕ) (cpu : Cpu) → n < 256 → IsValidCpu cpu → IsValidCpu (copy_result code n cpu)
unfolding copy_result
copy_result-IsValidCpu code n cpu h v = go (operand_reg code)
  where
    go : (o : Option Reg) → IsValidCpu (elim o [ none ↦ cpu | some r ↦ set_reg r n cpu ])
    go none = v
    go (some r) = set_reg-IsValidCpu r n cpu h v

write_result-IsValid :
    (address code n : ℕ) (m : Machine)
    → n < 256
    → IsValid m
    → IsValid (write_result address code n m)
write_result-IsValid address code n m h v =
    let v1 = mem_write-Keeps address n m v in
    record { cpu = copy_result-IsValidCpu code n _ h v1.cpu; memory = v1.memory }

ddcb_operation-Keeps : (address opcode1 : ℕ) → Keeps (ddcb_operation address opcode1)
unfolding ddcb_operation
ddcb_operation-Keeps address opcode1 m v =
    if-IsValid (ltb opcode1 0x40)
      (write_result-IsValid address _ _ _ turned.0 (set_flags-IsValid _ m turned.1 v))
      (if-IsValid (ltb opcode1 0x80)
        (set_flags-IsValid _ m (indexed_bit_flags-IsValidFlags k _ _ v.cpu.flags) v)
        (if-IsValid (ltb opcode1 0xc0)
          (write_result-IsValid address _ _ m (reset_bit-lt k _ (mem_read-lt m address v)) v)
          (write_result-IsValid address _ _ m
            (set_bit-lt k _ (omega arith) (mem_read-lt m address v)) v)))
  where
    k : ℕ
    k = opcode1 / 8 % 8

    turned :
        (get_byte_op k (mem_read m address) m.cpu.flags).0 < 256
        × IsValidFlags (get_byte_op k (mem_read m address) m.cpu.flags).1
    turned = get_byte_op-KeepsByte k _ _ (mem_read-lt m address v) v.cpu.flags

pub ddcb_handler-Keeps : Keeps ddcb_handler
unfolding ddcb_handler
ddcb_handler-Keeps m v =
    let m2 = (fetch (fetch m).1).1 in
    let opcode1 = (fetch (fetch m).1).0 in
    let address = word (m2.cpu.ix + get_signed_offset_byte (fetch m).0) in
    add_cycles-Keeps (get_or cycle_counts_cb opcode1 0 + 8) _
      (ddcb_operation-Keeps address opcode1 m2 (fetch-IsValid _ (fetch-IsValid m v)))
