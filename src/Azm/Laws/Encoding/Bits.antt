-- ===== src/Azm/Laws/Encoding/Bits.antt =====
-- The rotates, the shifts and the operations on bits, encoded and executed.
use debug.Base.{
  ℕ, ◌≡◌, ◌⊎◌, inl, refl, ltb, if◌then◌else◌, Bool, true, false, Option, none, some, [], ◌∷◌,
}
use debug.Z80.Hardware.{Handler}
use debug.Azm.Expression.{Expression}
use debug.Azm.Instruction.{
  Register8, BitMnemonic, RotateShiftMnemonic, CbOperand, Instruction, Outcome,
}
use debug.Azm.Encode.{encode_z80_instruction}
use debug.Azm.Encode.Codes.{of_bytes}
use debug.Azm.Laws.Meaning.Core.{extended}
use debug.Azm.Laws.Execution.{double_cb}
use debug.Azm.Laws.Execution.Indexed.{
  AfterCb, rotate-AfterCb, rotate_hl-AfterCb, bit-AfterCb, bit_hl-AfterCb,
}
use debug.Azm.Laws.Encoding.Obligation.{Meets, IsMet}

pub rotate-IsMet :
    (mnemonic : RotateShiftMnemonic) (operand : CbOperand) (destination : Option Register8)
    → IsMet (Instruction.rotate_shift mnemonic operand destination)
unfolding encode_z80_instruction
rotate-IsMet mnemonic (CbOperand.reg8 register) none =
    double_cb _ _ (rotate-AfterCb mnemonic register)
rotate-IsMet mnemonic CbOperand.hl_indirect none = double_cb _ _ (rotate_hl-AfterCb mnemonic)
rotate-IsMet _ _ _ = tt

-- A handler that is given only for the bits of a byte.
bit_met :
    (test : Bool) (code : ℕ) (handler : Handler)
    → (test ≡ true → AfterCb code handler)
    → Meets
        (if test then some (extended handler) else none)
        (Outcome.returned (of_bytes (0xcb ∷ code ∷ [])))
bit_met true code handler p = double_cb code handler (p refl)
bit_met false code handler p = tt

pub bit-IsMet :
    (mnemonic : BitMnemonic) (index : ℕ ⊎ Expression) (operand : CbOperand)
    (destination : Option Register8)
    → IsMet (Instruction.bit_like mnemonic index operand destination)
unfolding encode_z80_instruction
bit-IsMet mnemonic (inl index) (CbOperand.reg8 register) none =
    bit_met (ltb index 8) _ _ (bit-AfterCb mnemonic register index)
bit-IsMet mnemonic (inl index) CbOperand.hl_indirect none =
    bit_met (ltb index 8) _ _ (bit_hl-AfterCb mnemonic index)
bit-IsMet _ _ _ _ = tt
