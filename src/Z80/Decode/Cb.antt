-- ===== src/Z80/Decode/Cb.antt =====
-- decode-cb.ts: rotates and shifts, BIT, RES and SET on a register or on the byte at HL.
use debug.Base.{ℕ, ◌-◌, ◌/◌, ◌%◌, ◌^◌, ◌==◌, ◌&&◌, ltb, flag, bit, get_or}
use debug.Base.{bit_and, bit_or, if◌then◌else◌}
use debug.Z80.State.{Flags}
use debug.Z80.Hardware.{Handler, on_cpu}
use debug.Z80.Constants.{cycle_counts_cb}
use debug.Z80.Jump.{add_cycles}
use debug.Z80.Rotate.{get_byte_op}
use debug.Z80.Decode.Operands.{inc_r, fetch, operand_reg, get_operand, put_operand, apply_op}

-- BIT n: Z says that the bit is clear, and S, Y and X that it is the set bit 7, 5 or 3.
unfoldable pub bit_flags : ℕ → ℕ → Flags → Flags
bit_flags bit_number value f =
    let z' = flag (bit bit_number value == 0) in
    record f {
      z = z';
      n = 0;
      h = 1;
      p = z';
      s = flag (bit_number == 7 && z' == 0);
      y = flag (bit_number == 5 && z' == 0);
      x = flag (bit_number == 3 && z' == 0);
    }

-- `value & 0xff & ~(1 << bit_number)`
unfoldable pub reset_bit : ℕ → ℕ → ℕ
reset_bit bit_number value = bit_and value (255 - 2 ^ bit_number)

-- `value | (1 << bit_number)`
unfoldable pub set_bit : ℕ → ℕ → ℕ
set_bit bit_number value = bit_or value (2 ^ bit_number)

unfoldable pub cb_operation : ℕ → Handler
unfolding bit_flags reset_bit set_bit get_byte_op apply_op get_operand put_operand operand_reg
cb_operation opcode1 m =
    let bit_number = opcode1 / 8 % 8 in
    let target = operand_reg (opcode1 % 8) in
    let value = get_operand target m in
    if ltb opcode1 0x40
    then apply_op (get_byte_op bit_number) target m
    else if ltb opcode1 0x80
    then on_cpu (λ cpu. record cpu { flags = bit_flags bit_number value cpu.flags }) m
    else if ltb opcode1 0xc0
    then put_operand target (reset_bit bit_number value) m
    else put_operand target (set_bit bit_number value) m

unfoldable pub cb_handler : Handler
unfolding cb_operation fetch inc_r
cb_handler m =
    let (opcode1, m1) = fetch (on_cpu inc_r m) in
    on_cpu (add_cycles (get_or cycle_counts_cb opcode1 0)) (cb_operation opcode1 m1)
