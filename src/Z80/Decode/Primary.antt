-- ===== src/Z80/Decode/Primary.antt =====
-- decode-primary.ts: the table of the unprefixed opcodes, and the direct decoder of the loads and
-- the ALU operations on registers.
pub mod Low
pub mod High
use debug.Base.{ℕ, ◌+◌, ◌/◌, ◌%◌, ◌==◌, ◌&&◌, true, List, [], ◌∷◌, concat, get_or, replicate}
use debug.Base.{ltb, leb, if◌then◌else◌}
use debug.Z80.State.{Cpu}
use debug.Z80.Constants.{cycle_counts}
use debug.Z80.Hardware.{Handler, on_cpu}
use debug.Z80.Alu.{do_add, do_adc, do_sub, do_sbc, do_and, do_xor, do_or, do_cp}
use debug.Z80.Jump.{add_cycles}
use debug.Z80.Decode.Operands.{noop, operand_reg, get_operand, put_operand}
use debug.Z80.Decode.Primary.Low.{row_0, row_1, row_2, row_3}
use debug.Z80.Decode.Primary.High.{row_c, row_d, row_e, row_f}

abbrev pub rows : List (List Handler)
rows = row_0 ∷ row_1 ∷ row_2 ∷ row_3 ∷ replicate 0x80 noop ∷ row_c ∷ row_d ∷ row_e ∷ row_f ∷ []

unfoldable pub instructions : List Handler
instructions = concat rows

-- `getVoidOp(op_array, …)`
unfoldable pub alu_op : ℕ → ℕ → Cpu → Cpu
alu_op i =
    get_or (do_add ∷ do_adc ∷ do_sub ∷ do_sbc ∷ do_and ∷ do_xor ∷ do_or ∷ do_cp ∷ []) i
      (λ v cpu. cpu)

unfoldable pub primary_operation : ℕ → Handler
unfolding instructions alu_op operand_reg get_operand put_operand
primary_operation opcode m =
    let operand = get_operand (operand_reg (opcode % 8)) m in
    if opcode == 0x76
    then on_cpu (λ cpu. record cpu { halted = true }) m
    else if leb 0x40 opcode && ltb opcode 0x80
    then put_operand (operand_reg (opcode / 8 % 8)) operand m
    else if leb 0x80 opcode && ltb opcode 0xc0
    then on_cpu (alu_op (opcode / 8 % 8) operand) m
    else get_or instructions opcode noop m

unfoldable pub execute_primary_opcode : ℕ → Handler
unfolding primary_operation
execute_primary_opcode opcode m =
    on_cpu (add_cycles (get_or cycle_counts opcode 0)) (primary_operation opcode m)
