-- ===== src/Azm/EmissionTests.antt =====
-- The assembler's emission at concrete instructions.
use debug.Base.{◌≡◌, ◌+◌, refl, arith, none, some, ◌∷◌, [], Option, length, pos, negsuc, ℤ, word}
use debug.Z80.Hardware.{Machine, mem_read}
use debug.Z80.Samples.{machine_of}
use debug.Z80.Processor.{execute}
use debug.Azm.Expression.{Name, Expression}
use debug.Azm.Instruction.{
  Register8, IndexRegister16, Operand, Instruction, Message, BranchMnemonic,
}
use debug.Azm.Encode.{encode_z80_instruction}
use debug.Azm.Encode.Ld.{encode_ld, first_ld_encoding}
use debug.Azm.Patching.{patch_fixup, patch_fixups}
use debug.Azm.Emission.{
  DiagnosticText, Emission, Evaluator, emit_instruction, emit_fragments, emit_z80_fragment,
  emit_disp8_expression, emit_rel8_expression, emit_rel8_displacement, store_or_push, store_at,
}
use debug.Azm.Emission.Fixups.{SourceSpan, Fixup}
use debug.Azm.Laws.Emission.{length-emit_instruction}
use debug.Azm.Laws.Branching.{empty, emit_instruction-relative_jump}

-- An evaluator of numbers alone.
abbrev number_value : Evaluator
number_value (Expression.number value) span address report_unknown = (some value, [])
number_value expression span address report_unknown = (none, [])

abbrev here : SourceSpan
here = record { source_name = []; line = 1; column = 1 }

-- LD (IX - 200), B
abbrev far_store : Instruction
far_store =
    Instruction.ld (Operand.indexed IndexRegister16.ix (Expression.number (negsuc 199)))
      (Operand.reg8 Register8.b)

abbrev far_store_emitted : Emission
far_store_emitted = record {
  bytes = some 0xdd ∷ some 0x70 ∷ some 0 ∷ [];
  fixups = [];
  diagnostics = record { span = here; text = DiagnosticText.carried Message.ld_expects_disp8 } ∷ [];
}

length-emit_instruction_example : length far_store_emitted.bytes ≡ length empty.bytes + 3
unfolding encode_z80_instruction encode_ld first_ld_encoding emit_instruction emit_fragments
    emit_z80_fragment emit_disp8_expression
length-emit_instruction_example =
    length-emit_instruction number_value here 0 far_store empty far_store_emitted 3
      (tt, (λ p. ground arith, tt)) refl

-- JR over three bytes, to the symbol 'A' at 5.
abbrev target_name : Name
target_name = 65 ∷ []

abbrev all_at_5 : Name → Option ℤ
all_at_5 name = some (pos 5)

abbrev jumping : Machine
jumping = machine_of (0x18 ∷ 0x03 ∷ [])

abbrev jump_emitted : Emission
jump_emitted = record {
  bytes = some 0x18 ∷ some 0 ∷ [];
  fixups =
      Fixup.rel8 1 2 (record { symbol = target_name; addend = pos 0 }) BranchMnemonic.jr here ∷ [];
  diagnostics = [];
}

emit_instruction-relative_jump_example : (execute jumping).1.cpu.pc ≡ word 5
unfolding machine_of mem_read encode_z80_instruction emit_instruction emit_fragments
    emit_z80_fragment emit_rel8_expression emit_rel8_displacement patch_fixup patch_fixups
    store_or_push store_at
emit_instruction-relative_jump_example =
    emit_instruction-relative_jump number_value all_at_5 here target_name jumping 5 2 jump_emitted
      refl refl refl refl (refl, (refl, tt))
