-- ===== src/Azm/Laws/Execution/Bytes.antt =====
-- Opcodes without a prefix: the transfers and the arithmetic of bytes.
use debug.Base.{refl}
use debug.Base.{◌+◌, ◌*◌, some, none}
use debug.Z80.Decode.Primary.{instructions, primary_operation}
use debug.Z80.Decode.Operands.{get_operand, put_operand, operand_reg, alu_n, ld_operand_n}
use debug.Azm.Laws.Execution.{Performs}
use debug.Z80.Decode.Primary.{alu_op}
use debug.Azm.Instruction.{Register8, AluMnemonic}
use debug.Azm.Encode.Codes.{register8_code}
use debug.Azm.Encode.Bytes.{alu_opcodes}
use debug.Azm.Laws.Meaning.Core.{reg, alu_operation}
use debug.Azm.Laws.Meaning.Transfers.{copy_operand}
use debug.Azm.Laws.Meaning.Operations.{operate}

pub copy-Performs :
    (target source : Register8)
    → Performs
        (0x40 + register8_code target * 8 + register8_code source)
        (copy_operand (some (reg target)) (some (reg source)))
unfolding primary_operation instructions operand_reg get_operand put_operand
copy-Performs Register8.a Register8.a = refl
copy-Performs Register8.b Register8.a = refl
copy-Performs Register8.c Register8.a = refl
copy-Performs Register8.d Register8.a = refl
copy-Performs Register8.e Register8.a = refl
copy-Performs Register8.h Register8.a = refl
copy-Performs Register8.l Register8.a = refl
copy-Performs _ _ = refl

pub load-Performs :
    (target : Register8)
    → Performs (0x46 + register8_code target * 8) (copy_operand (some (reg target)) none)
unfolding primary_operation instructions operand_reg get_operand put_operand
load-Performs Register8.a = refl
load-Performs _ = refl

pub store-Performs :
    (source : Register8)
    → Performs (0x70 + register8_code source) (copy_operand none (some (reg source)))
unfolding primary_operation instructions operand_reg get_operand put_operand
store-Performs Register8.a = refl
store-Performs _ = refl

pub load_n-Performs :
    (target : Register8)
    → Performs (0x06 + register8_code target * 8) (ld_operand_n (some (reg target)))
unfolding primary_operation instructions
load_n-Performs Register8.a = refl
load_n-Performs _ = refl

pub operate-Performs :
    (mnemonic : AluMnemonic) (source : Register8)
    → Performs
        ((alu_opcodes mnemonic).register_base + register8_code source)
        (operate mnemonic (some (reg source)))
unfolding primary_operation instructions operand_reg get_operand put_operand alu_op
operate-Performs AluMnemonic.add Register8.a = refl
operate-Performs AluMnemonic.adc Register8.a = refl
operate-Performs AluMnemonic.sub Register8.a = refl
operate-Performs AluMnemonic.sbc Register8.a = refl
operate-Performs AluMnemonic.and Register8.a = refl
operate-Performs AluMnemonic.or Register8.a = refl
operate-Performs AluMnemonic.xor Register8.a = refl
operate-Performs AluMnemonic.cp Register8.a = refl
operate-Performs _ _ = refl

pub operate_hl-Performs :
    (mnemonic : AluMnemonic) → Performs (alu_opcodes mnemonic).mem_hl (operate mnemonic none)
unfolding primary_operation instructions operand_reg get_operand put_operand alu_op
operate_hl-Performs AluMnemonic.add = refl
operate_hl-Performs _ = refl

pub operate_n-Performs :
    (mnemonic : AluMnemonic)
    → Performs (alu_opcodes mnemonic).immediate (alu_n (alu_operation mnemonic))
unfolding primary_operation instructions
operate_n-Performs AluMnemonic.add = refl
operate_n-Performs _ = refl
