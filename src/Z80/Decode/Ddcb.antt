-- ===== src/Z80/Decode/Ddcb.antt =====
-- decode-ddcb.ts: rotates, BIT, RES and SET on the byte at IX + d. All but BIT also leave their
-- result in the register that the low three bits name, unless these are 6.
use debug.Base.{ℕ, ◌+◌, ◌/◌, ◌%◌, ◌==◌, ◌&&◌, none, some, ltb, flag, bit, get_or, word}
use debug.Base.{if◌then◌else◌}
use debug.Z80.State.{Flags, Cpu}
use debug.Z80.Registers.{set_reg}
use debug.Z80.Hardware.{Handler, mem_read, mem_write, on_cpu}
use debug.Z80.Constants.{cycle_counts_cb}
use debug.Z80.Alu.{get_signed_offset_byte}
use debug.Z80.Jump.{add_cycles}
use debug.Z80.Rotate.{get_byte_op}
use debug.Z80.Decode.Operands.{fetch, operand_reg}
use debug.Z80.Decode.Cb.{reset_bit, set_bit}

unfoldable pub indexed_bit_flags : ℕ → ℕ → Flags → Flags
indexed_bit_flags bit_number value f =
    let z' = flag (bit bit_number value == 0) in
    record f { n = 0; h = 1; z = z'; p = z'; s = flag (bit_number == 7 && z' == 0) }

-- `if (value !== undefined)` on: a copy of the result in a register.
unfoldable pub copy_result : ℕ → ℕ → Cpu → Cpu
unfolding operand_reg
copy_result code value cpu = elim (operand_reg code) [ none ↦ cpu | some r ↦ set_reg r value cpu ]

abbrev pub write_result : ℕ → ℕ → ℕ → Handler
write_result address code value m = on_cpu (copy_result code value) (mem_write address value m)

unfoldable pub ddcb_operation : ℕ → ℕ → Handler
unfolding indexed_bit_flags copy_result reset_bit set_bit get_byte_op
ddcb_operation address opcode1 m =
    let bit_number = opcode1 / 8 % 8 in
    let code = opcode1 % 8 in
    let value = mem_read m address in
    let (turned, f) = get_byte_op bit_number value m.cpu.flags in
    if ltb opcode1 0x40
    then write_result address code turned (on_cpu (λ cpu. record cpu { flags = f }) m)
    else if ltb opcode1 0x80
    then on_cpu (λ cpu. record cpu { flags = indexed_bit_flags bit_number value cpu.flags }) m
    else if ltb opcode1 0xc0
    then write_result address code (reset_bit bit_number value) m
    else write_result address code (set_bit bit_number value) m

unfoldable pub ddcb_handler : Handler
unfolding ddcb_operation fetch
ddcb_handler m =
    let (displacement, m1) = fetch m in
    let offset = get_signed_offset_byte displacement in
    let (opcode1, m2) = fetch m1 in
    let m3 = ddcb_operation (word (m2.cpu.ix + offset)) opcode1 m2 in
    on_cpu (add_cycles (get_or cycle_counts_cb opcode1 0 + 8)) m3
