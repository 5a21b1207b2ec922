-- ===== src/Azm/Laws/Meaning/Operations.antt =====
-- What each operation does with its operands.
use debug.Base.{ℕ, ◌+◌, Option, none, some, word, int_sub}
use debug.Z80.State.{Cpu}
use debug.Z80.Registers.{Reg, Pair}
use debug.Z80.Hardware.{Handler, on_cpu}
use debug.Z80.Alu.{do_inc, do_dec}
use debug.Z80.Alu16.{do_hl_add, do_hl_adc, do_hl_sbc}
use debug.Z80.Stack.{set_sp}
use debug.Z80.Block.{inc_pair, dec_pair}
use debug.Z80.Decode.Operands.{get_operand, apply_op, alu_n}
use debug.Z80.Decode.Ed.{in_reg, in_none, out_value, out_reg}
use debug.Z80.Decode.Primary.Low.{ex_af}
use debug.Z80.Decode.Primary.High.{
  pop_pair, push_pair, pop_af, push_af, out_n_a, in_a_n, ex_sp_hl, ex_de_hl,
}
use debug.Azm.Instruction.{
  AluMnemonic, HlAluMnemonic, IncDecMnemonic, StackMnemonic, Register8, Register16, StackRegister16,
  RegisterIndirect, ExchangeForm, InterruptMode, Operand, IncDecOperand, Port, OutSource,
}
use debug.Z80.Decode.Dd.{ex_sp_ix, alu_indexed}
use debug.Azm.Instruction.{IndexRegister16}
use debug.Azm.Encode.Codes.{family}
use debug.Azm.Laws.Meaning.Indexed.{on_index, stack_index, operate_half}
use debug.Azm.Laws.Meaning.Core.{reg, word_of, alu_operation, extended}

abbrev pub exchange_handler : ExchangeForm → Option Handler
exchange_handler ExchangeForm.af_af = some (on_cpu ex_af)
exchange_handler ExchangeForm.de_hl = some (on_cpu ex_de_hl)
exchange_handler ExchangeForm.sp_hl = some ex_sp_hl
exchange_handler ExchangeForm.sp_ix = some (on_index IndexRegister16.ix ex_sp_ix)
exchange_handler ExchangeForm.sp_iy = some (on_index IndexRegister16.iy ex_sp_ix)

abbrev pub mode_number : InterruptMode → ℕ
mode_number InterruptMode.mode_0 = 0
mode_number InterruptMode.mode_1 = 1
mode_number InterruptMode.mode_2 = 2

abbrev pub count_operation : IncDecMnemonic → IncDecOperand → Option Handler
count_operation IncDecMnemonic.inc (IncDecOperand.reg8 r) = some (apply_op do_inc (some (reg r)))
count_operation IncDecMnemonic.dec (IncDecOperand.reg8 r) = some (apply_op do_dec (some (reg r)))
count_operation IncDecMnemonic.inc IncDecOperand.hl_indirect = some (apply_op do_inc none)
count_operation IncDecMnemonic.dec IncDecOperand.hl_indirect = some (apply_op do_dec none)
count_operation mnemonic operand = none

abbrev pub count_word : IncDecMnemonic → Register16 → Cpu → Cpu
count_word IncDecMnemonic.inc Register16.bc = inc_pair Pair.bc
count_word IncDecMnemonic.inc Register16.de = inc_pair Pair.de
count_word IncDecMnemonic.inc Register16.hl = inc_pair Pair.hl
count_word IncDecMnemonic.inc Register16.sp = λ cpu. set_sp (word (cpu.sp + 1)) cpu
count_word IncDecMnemonic.dec Register16.bc = dec_pair Pair.bc
count_word IncDecMnemonic.dec Register16.de = dec_pair Pair.de
count_word IncDecMnemonic.dec Register16.hl = dec_pair Pair.hl
count_word IncDecMnemonic.dec Register16.sp = λ cpu. set_sp (word (int_sub cpu.sp 1)) cpu

abbrev pub stack_handler : StackMnemonic → StackRegister16 → Option Handler
stack_handler StackMnemonic.push StackRegister16.bc = some (push_pair Pair.bc)
stack_handler StackMnemonic.push StackRegister16.de = some (push_pair Pair.de)
stack_handler StackMnemonic.push StackRegister16.hl = some (push_pair Pair.hl)
stack_handler StackMnemonic.push StackRegister16.af = some push_af
stack_handler StackMnemonic.pop StackRegister16.bc = some (pop_pair Pair.bc)
stack_handler StackMnemonic.pop StackRegister16.de = some (pop_pair Pair.de)
stack_handler StackMnemonic.pop StackRegister16.hl = some (pop_pair Pair.hl)
stack_handler StackMnemonic.pop StackRegister16.af = some pop_af
stack_handler mnemonic StackRegister16.ix =
    some (on_index IndexRegister16.ix (stack_index mnemonic))
stack_handler mnemonic StackRegister16.iy =
    some (on_index IndexRegister16.iy (stack_index mnemonic))

abbrev pub operate : AluMnemonic → Option Reg → Handler
operate mnemonic source m = on_cpu (alu_operation mnemonic (get_operand source m)) m

abbrev pub alu_handler : AluMnemonic → Operand → Option Handler
alu_handler mnemonic (Operand.reg8 source) = some (operate mnemonic (some (reg source)))
alu_handler mnemonic (Operand.reg_indirect RegisterIndirect.hl) = some (operate mnemonic none)
alu_handler mnemonic (Operand.reg_half_index source) =
    some (on_index (family source) (operate_half source (alu_operation mnemonic)))
alu_handler mnemonic (Operand.indexed source displacement) =
    some (on_index source (alu_indexed (alu_operation mnemonic)))
alu_handler mnemonic (Operand.imm value) = some (alu_n (alu_operation mnemonic))
alu_handler mnemonic source = none

abbrev pub add_words : HlAluMnemonic → Register16 → Handler
add_words HlAluMnemonic.add source = on_cpu λ cpu. do_hl_add (word_of source cpu) cpu
add_words HlAluMnemonic.adc source = extended (on_cpu λ cpu. do_hl_adc (word_of source cpu) cpu)
add_words HlAluMnemonic.sbc source = extended (on_cpu λ cpu. do_hl_sbc (word_of source cpu) cpu)

abbrev pub input_handler : Option Register8 → Port → Handler
input_handler (some target) Port.at_c = extended (in_reg (reg target))
input_handler none Port.at_c = extended in_none
input_handler target (Port.imm port) = in_a_n

abbrev pub output_handler : Port → OutSource → Handler
output_handler Port.at_c (OutSource.reg8 source) = extended (out_reg (reg source))
output_handler Port.at_c OutSource.zero_source = extended (out_value λ _. 0)
output_handler (Port.imm port) source = out_n_a
