-- ===== src/Azm/Patching.antt =====
-- packages/azm/src/assembly/fixup-emission.ts: the addresses of the symbols are patched in.
use debug.Base.{ℕ, ◌+◌, if◌then◌else◌, Option, none, some, List, [], ◌∷◌, ℤ}
use debug.Azm.Expression.{Name}
use debug.Azm.Operators.{add_integers, low_byte, high_byte}
use debug.Azm.Emission.Fixups.{SourceSpan, FixupTarget, Fixup}
use debug.Azm.Emission.{
  DiagnosticText, Emission, report, is_abs16_value, store_at, emit_rel8_displacement,
}

unfoldable pub patch_abs16 : ℕ → FixupTarget → SourceSpan → ℤ → Emission → Emission
unfolding store_at
patch_abs16 offset target span address e =
    if is_abs16_value address
    then record e {
      bytes =
          store_at (offset + 1) (high_byte address) (store_at offset (low_byte address) e.bytes);
    }
    else report span (DiagnosticText.address_out_of_range target address) e

-- One round of the loop over the fixups.
unfoldable pub patch_fixup : (Name → Option ℤ) → Fixup → Emission → Emission
unfolding patch_abs16 emit_rel8_displacement
patch_fixup symbols (Fixup.abs16 offset target span) e = elim (symbols target.symbol) [
  | none ↦ report span (DiagnosticText.unresolved_symbol (Fixup.abs16 offset target span)) e
  | some base ↦ patch_abs16 offset target span (add_integers base target.addend) e
]
patch_fixup symbols (Fixup.rel8 offset origin target mnemonic span) e =
    elim (symbols target.symbol) [
      | none ↦
          report span
            (DiagnosticText.unresolved_symbol (Fixup.rel8 offset origin target mnemonic span)) e
      | some base ↦
          emit_rel8_displacement (add_integers base target.addend) origin mnemonic span offset e
    ]

unfoldable pub patch_fixups : (Name → Option ℤ) → List Fixup → Emission → Emission
unfolding patch_fixup
patch_fixups symbols [] e = e
patch_fixups symbols (fixup ∷ fixups) e = patch_fixups symbols fixups (patch_fixup symbols fixup e)
