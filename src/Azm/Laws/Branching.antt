-- ===== src/Azm/Laws/Branching.antt =====
-- A branch whose address was patched in lands on the symbol.
use debug.Base.{
  ℕ, zero, suc, ◌+◌, ◌%◌, ◌≡◌, refl, ap, ◌∙◌, subst, arith, true, false, Bool, Option, none, some,
  List, [], ◌∷◌, ℤ, pos, word,
}
use debug.Z80.Alu.{get_signed_offset_byte}
use debug.Azm.Operators.{add_integers, negate, low_byte}
use debug.Azm.Expression.{Name, Expression}
use debug.Azm.Instruction.{BranchMnemonic, Instruction, Outcome}
use debug.Azm.Encode.{encode_z80_instruction}
use debug.Azm.Laws.Encoding.{encode_z80_instruction-execute}
use debug.Azm.Laws.Execution.{mem_read-word}
use debug.Azm.Patching.{patch_fixup, patch_fixups}
use debug.Azm.Emission.{
  is_within, store_at, store_or_push, Emission, Evaluator, emit_rel8_displacement, emit_instruction,
  emit_fragments, emit_z80_fragment, emit_rel8_expression,
}
use debug.Azm.Emission.Fixups.{SourceSpan, Fixup}
use debug.Z80.Hardware.{Machine, mem_read}
use debug.Z80.Jump.{relative_jump}
use debug.Z80.Laws.Opcodes.{run}
use debug.Z80.State.{Cpu}
use debug.Z80.Processor.{execute, finish_delayed, take_delayed}
use debug.Z80.Decode.Operands.{inc_r}

-- The displacement, read back as a signed byte, leads from the origin to the address.
signed_displacement :
    (address origin : ℕ)
    → is_within 128 127 (add_integers (pos address) (negate (pos origin))) ≡ true
    → (origin
          + get_signed_offset_byte (low_byte (add_integers (pos address) (negate (pos origin)))))
        % 65536
      ≡ address % 65536
unfolding get_signed_offset_byte
signed_displacement address zero h = ground arith
signed_displacement address (suc origin) h = ground arith

finish_delayed-pc : (di ei : Bool) (cpu : Cpu) → (finish_delayed di ei cpu).pc ≡ cpu.pc
unfolding finish_delayed
finish_delayed-pc true true cpu = refl
finish_delayed-pc true false cpu = refl
finish_delayed-pc false true cpu = refl
finish_delayed-pc false false cpu = refl

pc-relative_jump :
    (m : Machine)
    → (run relative_jump m).cpu.pc
      ≡ word (word (m.cpu.pc + get_signed_offset_byte (mem_read m (word (m.cpu.pc + 1))) + 1) + 1)
unfolding run relative_jump inc_r take_delayed mem_read
pc-relative_jump m = finish_delayed-pc m.cpu.do_delayed_di m.cpu.do_delayed_ei _ ∙ ground arith

landed :
    (pc offset address : ℕ)
    → (pc + 2 + offset) % 65536 ≡ address % 65536
    → word (word (pc + offset + 1) + 1) ≡ word address
landed pc offset address h = ground arith

run-relative_jump :
    (m : Machine) (address : ℕ)
    → is_within 128 127 (add_integers (pos address) (negate (pos (m.cpu.pc + 2)))) ≡ true
    → mem_read m (word (m.cpu.pc + 1))
      ≡ low_byte (add_integers (pos address) (negate (pos (m.cpu.pc + 2))))
    → (run relative_jump m).cpu.pc ≡ word address
run-relative_jump m address near stored =
    pc-relative_jump m
    ∙ ap (λ code. word (word (m.cpu.pc + get_signed_offset_byte code + 1) + 1)) stored
    ∙ landed m.cpu.pc _ address (signed_displacement address (m.cpu.pc + 2) near)

-- What `assemble` begins with: no bytes, no fixups and no diagnostics.
abbrev pub empty : Emission
empty = record { bytes = []; fixups = []; diagnostics = [] }

-- The emitted bytes that are numbers lie one behind the other from an address on.
abbrev pub EmittedAt : Machine → ℕ → List (Option ℕ) → Type 0
EmittedAt m address [] = Unit
EmittedAt m address (none ∷ codes) = EmittedAt m (address + 1) codes
EmittedAt m address (some code ∷ codes) =
    (mem_read m address ≡ code) × EmittedAt m (address + 1) codes

module _ (symbols : Name → Option ℤ) (span : SourceSpan) (name : Name) (m : Machine)
    (address : ℕ) where
  displacement : ℤ
  displacement = add_integers (pos address) (negate (pos (m.cpu.pc + 2)))

  patched_branch :
      (fixups : List Fixup)
      → symbols name ≡ some (pos address)
      → is_within 128 127 displacement ≡ true
      → (patch_fixup symbols
          (Fixup.rel8 1
            (m.cpu.pc + 2)
            (record { symbol = name; addend = pos 0 })
            BranchMnemonic.jr
            span)
          (record { bytes = some 0x18 ∷ some 0 ∷ []; fixups = fixups; diagnostics = [] })).bytes
        ≡ some 0x18 ∷ some (low_byte displacement) ∷ []
  unfolding patch_fixup emit_rel8_displacement store_or_push store_at displacement
  patched_branch fixups found near = ground arith

  -- Where what was emitted and patched lies at PC, the processor goes to the address.
  abbrev pub Lands : Outcome (ℕ × Emission) → Type 0
  Lands (Outcome.returned (size, e)) =
      EmittedAt m m.cpu.pc (patch_fixups symbols e.fixups e).bytes
      → (execute m).1.cpu.pc ≡ word address
  Lands (Outcome.thrown error) = Unit

  jump-Lands :
      (evaluate : Evaluator)
      → symbols name ≡ some (pos address)
      → is_within 128 127 displacement ≡ true
      → m.cpu.halted ≡ false
      → Lands
          (emit_instruction evaluate span m.cpu.pc (Instruction.jr (Expression.symbol name)) empty)
  unfolding emit_instruction emit_fragments emit_z80_fragment emit_rel8_expression
      encode_z80_instruction patch_fixups displacement
  jump-Lands evaluate found near running stored =
      let (opcode, branch) = subst (EmittedAt m m.cpu.pc) (patched_branch _ found near) stored in
      ap (λ m'. m'.cpu.pc)
        (encode_z80_instruction-execute (Instruction.jr (Expression.symbol name)) _ _ m refl refl
          running (opcode, tt))
      ∙ run-relative_jump m address near (mem_read-word m (m.cpu.pc + 1) ∙ branch.0)

-- `JR name`, assembled at PC and patched with the symbol's address, which is at most 128 before and
-- 127 behind the next instruction, takes a processor that is not halted to that address.
pub emit_instruction-relative_jump :
    (evaluate : Evaluator) (symbols : Name → Option ℤ) (span : SourceSpan) (name : Name)
    (m : Machine) (address size : ℕ) (e : Emission)
    → symbols name ≡ some (pos address)
    → is_within 128 127 (add_integers (pos address) (negate (pos (m.cpu.pc + 2)))) ≡ true
    → m.cpu.halted ≡ false
    → emit_instruction evaluate span m.cpu.pc (Instruction.jr (Expression.symbol name)) empty
      ≡ Outcome.returned (size, e)
    → EmittedAt m m.cpu.pc (patch_fixups symbols e.fixups e).bytes
    → (execute m).1.cpu.pc ≡ word address
unfolding displacement
emit_instruction-relative_jump evaluate symbols span name m address size e found near running
      result =
    subst (Lands symbols span name m address) result
      (jump-Lands symbols span name m address evaluate found near running)
