-- ===== src/Azm/Laws/Encoding/Operations.antt =====
-- Each operation, encoded and executed.
use debug.Base.{
  ℕ, ◌≡◌, ◌==◌, ==_iff, refl, sym, subst, if◌then◌else◌, true, false, Option, none, some, [], ◌∷◌,
}
use debug.Z80.Jump.{do_reset}
use debug.Z80.Decode.Primary.{instructions, primary_operation}
use debug.Z80.Decode.Ed.{ed_instructions}
use debug.Z80.Decode.Dd.{dd_instructions}
use debug.Azm.Encode.Codes.{family}
use debug.Azm.Laws.Execution.{double_dd, double_fd}
use debug.Azm.Laws.Execution.Indexed.{double_index, operate_half-OnIndex, alu_indexed-OnIndex}
use debug.Azm.Instruction.{IndexRegister16, IndexHalfRegister}
use debug.Azm.Instruction.{
  AluMnemonic, CoreMnemonic, HlAluMnemonic, IncDecMnemonic, StackMnemonic, Register8, Register16,
  StackRegister16, RegisterIndirect, ExchangeForm, InterruptMode, WordRegister, Operand,
  IncDecOperand, Port, OutSource, Instruction, Outcome,
}
use debug.Azm.Encode.{encode_z80_instruction}
use debug.Azm.Encode.Ld.{encode_ld, first_ld_encoding}
use debug.Azm.Encode.Words.{encode_rst}
use debug.Azm.Laws.Execution.{Executes, single, double}
use debug.Azm.Laws.Execution.Bytes.{operate-Performs, operate_hl-Performs, operate_n-Performs}
use debug.Azm.Laws.Encoding.Obligation.{Meets, IsMet}

pub core-IsMet : (mnemonic : CoreMnemonic) → IsMet (Instruction.core mnemonic)
unfolding encode_z80_instruction encode_ld first_ld_encoding primary_operation instructions
    ed_instructions
core-IsMet CoreMnemonic.di = single _ _ refl
core-IsMet CoreMnemonic.ei = single _ _ refl
core-IsMet CoreMnemonic.scf = single _ _ refl
core-IsMet CoreMnemonic.ccf = single _ _ refl
core-IsMet CoreMnemonic.cpl = single _ _ refl
core-IsMet CoreMnemonic.daa = single _ _ refl
core-IsMet CoreMnemonic.exx = single _ _ refl
core-IsMet CoreMnemonic.halt = single _ _ refl
core-IsMet CoreMnemonic.rlca = single _ _ refl
core-IsMet CoreMnemonic.rrca = single _ _ refl
core-IsMet CoreMnemonic.rla = single _ _ refl
core-IsMet CoreMnemonic.rra = single _ _ refl
core-IsMet _ = double _ _ refl

pub exchange-IsMet : (form : ExchangeForm) → IsMet (Instruction.ex form)
unfolding encode_z80_instruction encode_ld first_ld_encoding primary_operation instructions
    ed_instructions dd_instructions
exchange-IsMet ExchangeForm.af_af = single _ _ refl
exchange-IsMet ExchangeForm.de_hl = single _ _ refl
exchange-IsMet ExchangeForm.sp_hl = single _ _ refl
exchange-IsMet ExchangeForm.sp_ix = double_dd _ _ refl
exchange-IsMet ExchangeForm.sp_iy = double_fd _ _ refl

pub mode-IsMet : (mode : InterruptMode) → IsMet (Instruction.im mode)
unfolding encode_z80_instruction encode_ld first_ld_encoding primary_operation instructions
    ed_instructions
mode-IsMet InterruptMode.mode_0 = double _ _ refl
mode-IsMet _ = double _ _ refl

pub count-IsMet :
    (mnemonic : IncDecMnemonic) (operand : IncDecOperand)
    → IsMet (Instruction.inc_dec mnemonic operand)
unfolding encode_z80_instruction encode_ld first_ld_encoding primary_operation instructions
    ed_instructions dd_instructions
count-IsMet IncDecMnemonic.inc (IncDecOperand.reg8 Register8.a) = single _ _ refl
count-IsMet IncDecMnemonic.inc (IncDecOperand.reg8 _) = single _ _ refl
count-IsMet IncDecMnemonic.inc (IncDecOperand.reg16 (WordRegister.reg16 Register16.bc)) =
    single _ _ refl
count-IsMet IncDecMnemonic.inc (IncDecOperand.reg16 (WordRegister.reg16 _)) = single _ _ refl
count-IsMet IncDecMnemonic.inc IncDecOperand.hl_indirect = single _ _ refl
count-IsMet IncDecMnemonic.dec (IncDecOperand.reg8 Register8.a) = single _ _ refl
count-IsMet IncDecMnemonic.dec (IncDecOperand.reg8 _) = single _ _ refl
count-IsMet IncDecMnemonic.dec (IncDecOperand.reg16 (WordRegister.reg16 Register16.bc)) =
    single _ _ refl
count-IsMet IncDecMnemonic.dec (IncDecOperand.reg16 (WordRegister.reg16 _)) = single _ _ refl
count-IsMet IncDecMnemonic.dec IncDecOperand.hl_indirect = single _ _ refl
count-IsMet IncDecMnemonic.inc (IncDecOperand.reg16 (WordRegister.index16 IndexRegister16.ix)) =
    double_dd _ _ refl
count-IsMet IncDecMnemonic.inc (IncDecOperand.reg16 (WordRegister.index16 IndexRegister16.iy)) =
    double_fd _ _ refl
count-IsMet IncDecMnemonic.dec (IncDecOperand.reg16 (WordRegister.index16 IndexRegister16.ix)) =
    double_dd _ _ refl
count-IsMet IncDecMnemonic.dec (IncDecOperand.reg16 (WordRegister.index16 IndexRegister16.iy)) =
    double_fd _ _ refl
count-IsMet IncDecMnemonic.inc (IncDecOperand.reg_half_index IndexHalfRegister.ixh) =
    double_dd _ _ refl
count-IsMet IncDecMnemonic.inc (IncDecOperand.reg_half_index IndexHalfRegister.ixl) =
    double_dd _ _ refl
count-IsMet IncDecMnemonic.inc (IncDecOperand.reg_half_index IndexHalfRegister.iyh) =
    double_fd _ _ refl
count-IsMet IncDecMnemonic.inc (IncDecOperand.reg_half_index IndexHalfRegister.iyl) =
    double_fd _ _ refl
count-IsMet IncDecMnemonic.dec (IncDecOperand.reg_half_index IndexHalfRegister.ixh) =
    double_dd _ _ refl
count-IsMet IncDecMnemonic.dec (IncDecOperand.reg_half_index IndexHalfRegister.ixl) =
    double_dd _ _ refl
count-IsMet IncDecMnemonic.dec (IncDecOperand.reg_half_index IndexHalfRegister.iyh) =
    double_fd _ _ refl
count-IsMet IncDecMnemonic.dec (IncDecOperand.reg_half_index IndexHalfRegister.iyl) =
    double_fd _ _ refl
count-IsMet IncDecMnemonic.inc (IncDecOperand.indexed register displacement) =
    double_index register _ _ refl
count-IsMet IncDecMnemonic.dec (IncDecOperand.indexed register displacement) =
    double_index register _ _ refl

pub stack-IsMet :
    (mnemonic : StackMnemonic) (register : StackRegister16)
    → IsMet (Instruction.stack mnemonic register)
unfolding encode_z80_instruction encode_ld first_ld_encoding primary_operation instructions
    ed_instructions dd_instructions
stack-IsMet StackMnemonic.push StackRegister16.bc = single _ _ refl
stack-IsMet StackMnemonic.push StackRegister16.de = single _ _ refl
stack-IsMet StackMnemonic.push StackRegister16.hl = single _ _ refl
stack-IsMet StackMnemonic.push StackRegister16.af = single _ _ refl
stack-IsMet StackMnemonic.pop StackRegister16.bc = single _ _ refl
stack-IsMet StackMnemonic.pop StackRegister16.de = single _ _ refl
stack-IsMet StackMnemonic.pop StackRegister16.hl = single _ _ refl
stack-IsMet StackMnemonic.pop StackRegister16.af = single _ _ refl
stack-IsMet StackMnemonic.push StackRegister16.ix = double_dd _ _ refl
stack-IsMet StackMnemonic.push StackRegister16.iy = double_fd _ _ refl
stack-IsMet StackMnemonic.pop StackRegister16.ix = double_dd _ _ refl
stack-IsMet StackMnemonic.pop StackRegister16.iy = double_fd _ _ refl

pub input-IsMet : (target : Option Register8) (port : Port) → IsMet (Instruction.input target port)
unfolding encode_z80_instruction encode_ld first_ld_encoding primary_operation instructions
    ed_instructions
input-IsMet none Port.at_c = double _ _ refl
input-IsMet (some Register8.a) Port.at_c = double _ _ refl
input-IsMet (some _) Port.at_c = double _ _ refl
input-IsMet none (Port.imm port) = single _ _ refl
input-IsMet (some _) (Port.imm port) = single _ _ refl

pub output-IsMet : (port : Port) (source : OutSource) → IsMet (Instruction.output port source)
unfolding encode_z80_instruction encode_ld first_ld_encoding primary_operation instructions
    ed_instructions
output-IsMet Port.at_c OutSource.zero_source = double _ _ refl
output-IsMet Port.at_c (OutSource.reg8 Register8.a) = double _ _ refl
output-IsMet Port.at_c (OutSource.reg8 _) = double _ _ refl
output-IsMet (Port.imm port) source = single _ _ refl

pub add_words-IsMet :
    (mnemonic : HlAluMnemonic) (target source : WordRegister)
    → IsMet (Instruction.alu16 mnemonic target source)
unfolding encode_z80_instruction encode_ld first_ld_encoding primary_operation instructions
    ed_instructions dd_instructions
add_words-IsMet HlAluMnemonic.add (WordRegister.reg16 Register16.hl)
      (WordRegister.reg16 Register16.bc) =
    single _ _ refl
add_words-IsMet HlAluMnemonic.add (WordRegister.reg16 Register16.hl)
      (WordRegister.reg16 Register16.de) =
    single _ _ refl
add_words-IsMet HlAluMnemonic.add (WordRegister.reg16 Register16.hl)
      (WordRegister.reg16 Register16.hl) =
    single _ _ refl
add_words-IsMet HlAluMnemonic.add (WordRegister.reg16 Register16.hl)
      (WordRegister.reg16 Register16.sp) =
    single _ _ refl
add_words-IsMet HlAluMnemonic.adc (WordRegister.reg16 Register16.hl)
      (WordRegister.reg16 Register16.bc) =
    double _ _ refl
add_words-IsMet HlAluMnemonic.adc (WordRegister.reg16 Register16.hl)
      (WordRegister.reg16 Register16.de) =
    double _ _ refl
add_words-IsMet HlAluMnemonic.adc (WordRegister.reg16 Register16.hl)
      (WordRegister.reg16 Register16.hl) =
    double _ _ refl
add_words-IsMet HlAluMnemonic.adc (WordRegister.reg16 Register16.hl)
      (WordRegister.reg16 Register16.sp) =
    double _ _ refl
add_words-IsMet HlAluMnemonic.sbc (WordRegister.reg16 Register16.hl)
      (WordRegister.reg16 Register16.bc) =
    double _ _ refl
add_words-IsMet HlAluMnemonic.sbc (WordRegister.reg16 Register16.hl)
      (WordRegister.reg16 Register16.de) =
    double _ _ refl
add_words-IsMet HlAluMnemonic.sbc (WordRegister.reg16 Register16.hl)
      (WordRegister.reg16 Register16.hl) =
    double _ _ refl
add_words-IsMet HlAluMnemonic.sbc (WordRegister.reg16 Register16.hl)
      (WordRegister.reg16 Register16.sp) =
    double _ _ refl
add_words-IsMet HlAluMnemonic.add (WordRegister.index16 target) (WordRegister.reg16 Register16.bc) =
    double_index target _ _ refl
add_words-IsMet HlAluMnemonic.add (WordRegister.index16 target) (WordRegister.reg16 Register16.de) =
    double_index target _ _ refl
add_words-IsMet HlAluMnemonic.add (WordRegister.index16 target) (WordRegister.reg16 Register16.sp) =
    double_index target _ _ refl
add_words-IsMet HlAluMnemonic.add (WordRegister.index16 IndexRegister16.ix)
      (WordRegister.index16 IndexRegister16.ix) =
    double_dd _ _ refl
add_words-IsMet HlAluMnemonic.add (WordRegister.index16 IndexRegister16.iy)
      (WordRegister.index16 IndexRegister16.iy) =
    double_fd _ _ refl
add_words-IsMet _ _ _ = tt

pub alu-IsMet :
    (mnemonic : AluMnemonic) (source : Operand) → IsMet (Instruction.alu mnemonic source)
unfolding encode_z80_instruction encode_ld first_ld_encoding
alu-IsMet mnemonic (Operand.reg8 source) = single _ _ (operate-Performs mnemonic source)
alu-IsMet mnemonic (Operand.reg_indirect RegisterIndirect.hl) =
    single _ _ (operate_hl-Performs mnemonic)
alu-IsMet mnemonic (Operand.reg_half_index source) =
    double_index (family source) _ _ (operate_half-OnIndex mnemonic source)
alu-IsMet mnemonic (Operand.indexed source displacement) =
    double_index source _ _ (alu_indexed-OnIndex mnemonic)
alu-IsMet mnemonic (Operand.imm value) = single _ _ (operate_n-Performs mnemonic)
alu-IsMet mnemonic _ = tt

-- The vectors are tried one after the other.
vector_met :
    (vector known opcode : ℕ) (rest : Outcome ℕ)
    → Executes (opcode ∷ []) (do_reset known)
    → Meets (some (do_reset vector)) (encode_rst rest)
    → Meets
        (some (do_reset vector))
        (encode_rst (if vector == known then Outcome.returned opcode else rest))
vector_met vector known opcode rest p q =
    elim (vector == known)
        as (λ test.
          ((vector == known) ≡ test)
          → Meets (some (do_reset vector))
              (encode_rst (if test then Outcome.returned opcode else rest))) [
                | true ↦ λ e.
                    subst (λ v. Executes (opcode ∷ []) (do_reset v))
                      (sym ((==_iff vector known).0 e)) p
                | false ↦ λ _. q
              ]
      refl

pub rst-IsMet : (vector : ℕ) → IsMet (Instruction.rst vector)
unfolding encode_z80_instruction encode_ld first_ld_encoding primary_operation instructions
    ed_instructions
rst-IsMet vector = vector_met vector 0 199 _ (single _ _ refl) (
    vector_met vector 8 207 _ (single _ _ refl) (
      vector_met vector 16 215 _ (single _ _ refl) (
        vector_met vector 24 223 _ (single _ _ refl) (
          vector_met vector 32 231 _ (single _ _ refl) (
            vector_met vector 40 239 _ (single _ _ refl) (
              vector_met vector 48 247 _ (single _ _ refl)
                (vector_met vector 56 255 _ (single _ _ refl) tt)))))))
