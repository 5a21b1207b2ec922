-- ===== src/Azm/Laws/Emission.antt =====
-- What is emitted is as long as the instruction says.
use debug.Base.{
  suc, ap, ◌∙◌, Option, ℕ, ◌+◌, ◌≡◌, ◌++◌, refl, subst, arith, true, none, some, List, [], ◌∷◌,
  length, All, ◌⊎◌, ◌≢◌,
}
use debug.Azm.Expression.{Expression}
use debug.Azm.Instruction.{Fragment, Instruction, Outcome}
use debug.Azm.Encode.{encode_z80_instruction}
use debug.Azm.Emission.{
  Emission, Evaluator, numbers, emit_z80_fragment, emit_fragments, emit_instruction,
  emit_cb_bit_opcode, emit_port8_expression, emit_imm8_expression, emit_disp8_expression,
  emit_abs16_expression, emit_rel8_expression, emit_rel8_displacement, store_or_push, store_at,
}
use debug.Azm.Emission.Fixups.{SourceSpan, fixup_target_from_expression}
use debug.Azm.Laws.Sizes.{fragment_size, total_size, Returning, size_is_total}

length-append : (xs ys : List (Option ℕ)) → length (xs ++ ys) ≡ length xs + length ys
length-append [] ys = omega arith
length-append (x ∷ xs) ys = let h = length-append xs ys in ground arith

length-numbers : (codes : List ℕ) → length (numbers codes) ≡ length codes
length-numbers [] = refl
length-numbers (code ∷ codes) = ap suc (length-numbers codes)

length-store_at :
    (xs : List (Option ℕ)) (value : ℕ) → length (store_at (length xs) value xs) ≡ length xs + 1
unfolding store_at
length-store_at [] value = refl
length-store_at (x ∷ xs) value = let h = length-store_at xs value in ground arith

length-store_or_push :
    (xs : List (Option ℕ)) (value : ℕ) → length (store_or_push (length xs) value xs) ≡ length xs + 1
unfolding store_or_push
length-store_or_push xs value = let h = length-store_at xs value in ground arith

module _ (evaluate : Evaluator) (span : SourceSpan) (current_address : ℕ) where
  -- The expression has a value, or waits for a symbol.
  abbrev pub IsResolved : Expression → Type 0
  IsResolved expression =
      (fixup_target_from_expression expression ≢ none)
      ⊎ ((evaluate expression span current_address true).0 ≢ none)

  -- Emission of the fragment does not leave its bytes out.
  abbrev pub HasValue : Fragment → Type 0
  HasValue (Fragment.bytes codes) = Unit
  HasValue (Fragment.bytes_before_nan codes) = Unit
  HasValue (Fragment.cb_bit_opcode mnemonic bit code) =
      (evaluate bit span current_address true).0 ≢ none
  HasValue (Fragment.imm8 expression none) =
      (evaluate expression span current_address true).0 ≢ none
  HasValue (Fragment.imm8 expression (some message)) = Unit
  HasValue (Fragment.port8 expression message) =
      (evaluate expression span current_address true).0 ≢ none
  HasValue (Fragment.disp8 expression message) =
      (evaluate expression span current_address true).0 ≢ none
  HasValue (Fragment.abs16 expression) = IsResolved expression
  HasValue (Fragment.rel8 expression mnemonic) = IsResolved expression

  length-emit_z80_fragment :
      (size : ℕ) (fragment : Fragment) (e : Emission)
      → HasValue fragment
      → length (emit_z80_fragment evaluate span current_address size fragment e).bytes
        ≡ length e.bytes + fragment_size fragment
  unfolding emit_z80_fragment emit_cb_bit_opcode emit_port8_expression emit_imm8_expression
      emit_disp8_expression emit_abs16_expression emit_rel8_expression emit_rel8_displacement
  length-emit_z80_fragment size (Fragment.bytes codes) e h =
      length-append e.bytes (numbers codes) ∙ ap (λ n. length e.bytes + n) (length-numbers codes)
  length-emit_z80_fragment size (Fragment.bytes_before_nan codes) e h =
      length-append e.bytes (numbers codes ++ (none ∷ []))
      ∙ ap (λ n. length e.bytes + n)
          (length-append (numbers codes) (none ∷ []) ∙ ap (λ n. n + 1) (length-numbers codes))
  length-emit_z80_fragment size (Fragment.cb_bit_opcode mnemonic bit code) e h =
      grind (arith, length-append)
  length-emit_z80_fragment size (Fragment.imm8 expression none) e h = grind (arith, length-append)
  length-emit_z80_fragment size (Fragment.imm8 expression (some message)) e h =
      grind (arith, length-append)
  length-emit_z80_fragment size (Fragment.port8 expression message) e h =
      grind (arith, length-append)
  length-emit_z80_fragment size (Fragment.disp8 expression message) e h =
      grind (arith, length-append)
  length-emit_z80_fragment size (Fragment.abs16 expression) e h = grind (arith, length-append)
  length-emit_z80_fragment size (Fragment.rel8 expression mnemonic) e h =
      grind (arith, length-append, length-store_or_push)

  length-emit_fragments :
      (size : ℕ) (fragments : List Fragment) (e : Emission)
      → All HasValue fragments
      → length (emit_fragments evaluate span current_address size fragments e).bytes
        ≡ length e.bytes + total_size fragments
  unfolding emit_fragments
  length-emit_fragments size [] e h = omega arith
  length-emit_fragments size (fragment ∷ fragments) e (h, hs) =
      let e' = emit_z80_fragment evaluate span current_address size fragment e in
      omega (
        arith,
        length-emit_z80_fragment size fragment e h,
        length-emit_fragments size fragments e' hs,
      )

  -- The bytes have grown by the size.
  abbrev pub Grows : Emission → Outcome (ℕ × Emission) → Type 0
  Grows e (Outcome.returned (size, e')) = length e'.bytes ≡ length e.bytes + size
  Grows e (Outcome.thrown error) = Unit

  emit_instruction-Grows :
      (i : Instruction) (e : Emission)
      → Returning (λ encoded. All HasValue encoded.fragments) (encode_z80_instruction i)
      → Grows e (emit_instruction evaluate span current_address i e)
  unfolding emit_instruction
  emit_instruction-Grows i e h =
      elim (encode_z80_instruction i)
          as (λ outcome.
            Returning (λ encoded. encoded.size ≡ total_size encoded.fragments) outcome
            → Returning (λ encoded. All HasValue encoded.fragments) outcome
            → Grows e (elim outcome [
              | Outcome.returned encoded ↦ Outcome.returned (
                encoded.size,
                emit_fragments evaluate span current_address encoded.size encoded.fragments e,
              )
              | Outcome.thrown error ↦ Outcome.thrown error
            ])) [
              | Outcome.returned encoded ↦ λ p hs.
                  omega (arith, p, length-emit_fragments encoded.size encoded.fragments e hs)
              | Outcome.thrown error ↦ λ p hs. tt
            ]
        (size_is_total i) h

-- Where every expression of an instruction that does not wait for a symbol has a value, the bytes
-- grow by exactly the size that emission returns, with a range error or without.
pub length-emit_instruction :
    (evaluate : Evaluator) (span : SourceSpan) (current_address : ℕ) (i : Instruction)
    (e e' : Emission) (size : ℕ)
    → Returning
        (λ encoded. All (HasValue evaluate span current_address) encoded.fragments)
        (encode_z80_instruction i)
    → emit_instruction evaluate span current_address i e ≡ Outcome.returned (size, e')
    → length e'.bytes ≡ length e.bytes + size
length-emit_instruction evaluate span current_address i e e' size h result =
    subst (Grows evaluate span current_address e) result
      (emit_instruction-Grows evaluate span current_address i e h)
