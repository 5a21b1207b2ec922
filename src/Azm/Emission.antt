-- ===== src/Azm/Emission.antt =====
-- packages/azm/src/assembly/fixup-emission.ts: the bytes of an instruction, and the fixups that
-- wait for the addresses of symbols.
pub mod Fixups
use debug.Base.{
  ℕ, zero, suc, ◌+◌, ◌*◌, ◌==◌, ltb, leb, if◌then◌else◌, not, Bool, true, false, Option, none, some,
  List, [], ◌∷◌, ◌++◌, length, ℤ, pos, negsuc,
}
use debug.Azm.Expression.{Name, Expression}
use debug.Azm.Instruction.{
  BitMnemonic, BranchMnemonic, Message, Fragment, Instruction, Encoded, Outcome,
}
use debug.Azm.Encode.{encode_z80_instruction}
use debug.Azm.Encode.Bytes.{bit_like_opcode_base}
use debug.Azm.Operators.{add_integers, negate, magnitude, low_byte, high_byte}
use debug.Azm.Emission.Fixups.{SourceSpan, FixupTarget, Fixup, fixup_target_from_expression}

-- The texts of the diagnostics; those of the evaluation of an expression are its own.
pub data DiagnosticText : Type 0 where
  evaluation : Name → DiagnosticText
  carried : Message → DiagnosticText
  expects_bit_index : BitMnemonic → DiagnosticText
  word_out_of_range byte_out_of_range displacement_out_of_range : ℤ → DiagnosticText
  unresolved_symbol : Fixup → DiagnosticText
  address_out_of_range : FixupTarget → ℤ → DiagnosticText
  target_out_of_range : BranchMnemonic → ℤ → DiagnosticText

pub record Diagnostic : Type 0 where
  pub span : SourceSpan
  pub text : DiagnosticText

-- What emission appends to: `bytes`, `fixups` and `diagnostics`. A byte that is no number, NaN or a
-- place that was left out, is `none`.
pub record Emission : Type 0 where
  pub bytes : List (Option ℕ)
  pub fixups : List Fixup
  pub diagnostics : List Diagnostic

abbrev pub numbers : List ℕ → List (Option ℕ)
numbers [] = []
numbers (code ∷ codes) = some code ∷ numbers codes

abbrev pub push : List ℕ → Emission → Emission
push codes e = record e { bytes = e.bytes ++ numbers codes }

abbrev pub push_fixup : Fixup → Emission → Emission
push_fixup fixup e = record e { fixups = e.fixups ++ (fixup ∷ []) }

abbrev pub report : SourceSpan → DiagnosticText → Emission → Emission
report span text e = record e {
  diagnostics = e.diagnostics ++ (record { span = span; text = text } ∷ []);
}

-- The value is at least minus `low` and at most `high`.
abbrev pub is_within : ℕ → ℕ → ℤ → Bool
is_within low high (pos n) = leb n high
is_within low high (negsuc n) = ltb n low

abbrev pub is_abs16_value : ℤ → Bool
is_abs16_value = is_within 0x8000 0xffff

abbrev pub is_imm8_value : ℤ → Bool
is_imm8_value = is_within 128 0xff

-- `bytes[offset] = value`, which leaves the places between the end and the offset without a number.
unfoldable pub store_at : ℕ → ℕ → List (Option ℕ) → List (Option ℕ)
store_at zero value [] = some value ∷ []
store_at zero value (code ∷ codes) = some value ∷ codes
store_at (suc offset) value [] = none ∷ store_at offset value []
store_at (suc offset) value (code ∷ codes) = code ∷ store_at offset value codes

-- `bytes[offset] = value; if (offset === bytes.length) bytes.push(value);`
unfoldable pub store_or_push : ℕ → ℕ → List (Option ℕ) → List (Option ℕ)
unfolding store_at
store_or_push offset value codes =
    let stored = store_at offset value codes in
    if offset == length stored then stored ++ (some value ∷ []) else stored

unfoldable pub emit_rel8_displacement :
    ℤ → ℕ → BranchMnemonic → SourceSpan → ℕ → Emission → Emission
unfolding store_or_push
emit_rel8_displacement target origin mnemonic span offset e =
    let displacement = add_integers target (negate (pos origin)) in
    if is_within 128 127 displacement
    then record e { bytes = store_or_push offset (low_byte displacement) e.bytes }
    else record (report span (DiagnosticText.target_out_of_range mnemonic displacement) e) {
      bytes = store_or_push offset 0 e.bytes;
    }

-- `evaluateExpression` with its symbols, layouts and case: at a span, an address and with unknown
-- symbols reported or not, a value or none, and the diagnostics that it adds.
abbrev pub Evaluator : Type 0
Evaluator = Expression → SourceSpan → ℕ → Bool → Option ℤ × List Diagnostic

abbrev pub with_diagnostics : List Diagnostic → Emission → Emission
with_diagnostics added e = record e { diagnostics = e.diagnostics ++ added }

abbrev pub is_none : Option Message → Bool
is_none none = true
is_none (some message) = false

abbrev pub displacement_text : Option Message → ℤ → DiagnosticText
displacement_text none value = DiagnosticText.displacement_out_of_range value
displacement_text (some message) value = DiagnosticText.carried message

module _ (evaluate : Evaluator) (span : SourceSpan) (current_address : ℕ) where
  unfoldable pub emit_cb_bit_opcode : BitMnemonic → Expression → ℕ → Emission → Emission
  emit_cb_bit_opcode mnemonic expression operand_code e =
      let (value, added) = evaluate expression span current_address true in
      let e' = with_diagnostics added e in
      elim value [
        | none ↦ e'
        | some v ↦
            if is_within 0 7 v
            then push ((bit_like_opcode_base mnemonic + magnitude v * 8 + operand_code) ∷ []) e'
            else push (0 ∷ []) (report span (DiagnosticText.expects_bit_index mnemonic) e')
      ]

  unfoldable pub emit_port8_expression : Expression → Message → Emission → Emission
  emit_port8_expression expression message e =
      let (value, added) = evaluate expression span current_address true in
      let e' = with_diagnostics added e in
      elim value [
        | none ↦ e'
        | some v ↦
            if is_imm8_value v
            then push (low_byte v ∷ []) e'
            else push (0 ∷ []) (report span (DiagnosticText.carried message) e')
      ]

  -- An unknown symbol is reported by the failure message, where there is one.
  abbrev pub imm8_failed : Option Message → Emission → Emission
  imm8_failed none e = e
  imm8_failed (some message) e = push (0 ∷ []) (report span (DiagnosticText.carried message) e)

  unfoldable pub emit_imm8_expression : Expression → Option Message → Emission → Emission
  emit_imm8_expression expression failure e =
      let (value, added) = evaluate expression span current_address (is_none failure) in
      let e' = with_diagnostics added e in
      elim value [
        | none ↦ imm8_failed failure e'
        | some v ↦
            if is_imm8_value v
            then push (low_byte v ∷ []) e'
            else push (0 ∷ []) (report span (DiagnosticText.byte_out_of_range v) e')
      ]

  unfoldable pub emit_disp8_expression : Expression → Option Message → Emission → Emission
  emit_disp8_expression expression message e =
      let (value, added) = evaluate expression span current_address true in
      let e' = with_diagnostics added e in
      elim value [
        | none ↦ e'
        | some v ↦
            if is_within 128 127 v
            then push (low_byte v ∷ []) e'
            else push (0 ∷ []) (report span (displacement_text message v) e')
      ]

  unfoldable pub emit_abs16_expression : Expression → Emission → Emission
  emit_abs16_expression expression e = elim (fixup_target_from_expression expression) [
    | some target ↦ push (0 ∷ 0 ∷ []) (push_fixup (Fixup.abs16 (length e.bytes) target span) e)
    | none ↦
        let (value, added) = evaluate expression span current_address true in
        let e' = with_diagnostics added e in
        elim value [
          | none ↦ e'
          | some v ↦
              if is_abs16_value v
              then push (low_byte v ∷ high_byte v ∷ []) e'
              else push (0 ∷ 0 ∷ []) (report span (DiagnosticText.word_out_of_range v) e')
        ]
  ]

  unfoldable pub emit_rel8_expression : Expression → BranchMnemonic → ℕ → Emission → Emission
  unfolding emit_rel8_displacement
  emit_rel8_expression expression mnemonic origin e =
      elim (fixup_target_from_expression expression) [
        | some target ↦
            push (0 ∷ []) (push_fixup (Fixup.rel8 (length e.bytes) origin target mnemonic span) e)
        | none ↦
            let (value, added) = evaluate expression span current_address true in
            let e' = with_diagnostics added e in
            elim value [
              | none ↦ e'
              | some v ↦ emit_rel8_displacement v origin mnemonic span (length e'.bytes) e'
            ]
      ]

  unfoldable pub emit_z80_fragment : ℕ → Fragment → Emission → Emission
  unfolding emit_cb_bit_opcode emit_port8_expression emit_imm8_expression emit_disp8_expression
      emit_abs16_expression emit_rel8_expression
  emit_z80_fragment size (Fragment.bytes codes) e = push codes e
  emit_z80_fragment size (Fragment.bytes_before_nan codes) e = record e {
    bytes = e.bytes ++ (numbers codes ++ (none ∷ []));
  }
  emit_z80_fragment size (Fragment.cb_bit_opcode mnemonic bit code) e =
      emit_cb_bit_opcode mnemonic bit code e
  emit_z80_fragment size (Fragment.imm8 expression failure) e =
      emit_imm8_expression expression failure e
  emit_z80_fragment size (Fragment.port8 expression message) e =
      emit_port8_expression expression message e
  emit_z80_fragment size (Fragment.disp8 expression message) e =
      emit_disp8_expression expression message e
  emit_z80_fragment size (Fragment.abs16 expression) e = emit_abs16_expression expression e
  emit_z80_fragment size (Fragment.rel8 expression mnemonic) e =
      emit_rel8_expression expression mnemonic (current_address + size) e

  unfoldable pub emit_fragments : ℕ → List Fragment → Emission → Emission
  unfolding emit_z80_fragment
  emit_fragments size [] e = e
  emit_fragments size (fragment ∷ fragments) e =
      emit_fragments size fragments (emit_z80_fragment size fragment e)

  -- The size of the instruction, and what is emitted; or the encoder throws.
  unfoldable pub emit_instruction : Instruction → Emission → Outcome (ℕ × Emission)
  unfolding emit_fragments encode_z80_instruction
  emit_instruction i e = elim (encode_z80_instruction i) [
    | Outcome.returned encoded ↦
        Outcome.returned (encoded.size, emit_fragments encoded.size encoded.fragments e)
    | Outcome.thrown error ↦ Outcome.thrown error
  ]

unfoldable pub instruction_size : Instruction → Outcome ℕ
unfolding encode_z80_instruction
instruction_size i = elim (encode_z80_instruction i) [
  | Outcome.returned encoded ↦ Outcome.returned encoded.size
  | Outcome.thrown error ↦ Outcome.thrown error
]
