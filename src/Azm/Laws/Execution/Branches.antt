-- ===== src/Azm/Laws/Execution/Branches.antt =====
-- Opcodes without a prefix: branches, words and the stack.
use debug.Base.{refl}
use debug.Z80.Decode.Primary.{instructions, primary_operation}
use debug.Z80.Jump.{
  do_conditional_absolute_jump, do_conditional_call, do_conditional_return,
  do_conditional_relative_jump,
}
use debug.Azm.Laws.Execution.{Performs}
use debug.Azm.Instruction.{RelativeCondition, Condition}
use debug.Azm.Encode.Codes.{
  ret_condition_opcode, jp_condition_opcode, call_condition_opcode, jr_condition_opcode,
  as_condition,
}
use debug.Azm.Laws.Meaning.Core.{on_condition}

pub ret_cc-Performs :
    (condition : Condition)
    → Performs (ret_condition_opcode condition) (on_condition do_conditional_return condition)
unfolding primary_operation instructions
ret_cc-Performs Condition.nz = refl
ret_cc-Performs _ = refl

pub jp_cc-Performs :
    (condition : Condition)
    → Performs (jp_condition_opcode condition) (on_condition do_conditional_absolute_jump condition)
unfolding primary_operation instructions
jp_cc-Performs Condition.nz = refl
jp_cc-Performs _ = refl

pub call_cc-Performs :
    (condition : Condition)
    → Performs (call_condition_opcode condition) (on_condition do_conditional_call condition)
unfolding primary_operation instructions
call_cc-Performs Condition.nz = refl
call_cc-Performs _ = refl

pub jr_cc-Performs :
    (condition : RelativeCondition)
    → Performs
        (jr_condition_opcode condition)
        (on_condition do_conditional_relative_jump (as_condition condition))
unfolding primary_operation instructions
jr_cc-Performs RelativeCondition.nz = refl
jr_cc-Performs _ = refl
