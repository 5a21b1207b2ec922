-- ===== src/Azm/Laws/Encoding/Obligation.antt =====
-- What it is that the bytes of an instruction meet its meaning.
use debug.Base.{ℕ, Option, some, List, [], ◌∷◌}
use debug.Z80.Hardware.{Handler}
use debug.Azm.Instruction.{Fragment, Instruction, Encoded, Outcome}
use debug.Azm.Encode.{encode_z80_instruction}
use debug.Azm.Laws.Meaning.{handler_of}
use debug.Azm.Laws.Execution.{Executes}

-- The constant bytes that an instruction starts with.
abbrev pub leading_bytes : List Fragment → List ℕ
leading_bytes (Fragment.bytes opcode ∷ fragments) = opcode
leading_bytes fragments = []

-- Executing the leading bytes of what was returned is the handler.
abbrev pub Meets : Option Handler → Outcome Encoded → Type 0
Meets (some handler) (Outcome.returned encoded) = Executes (leading_bytes encoded.fragments) handler
Meets handler outcome = Unit

abbrev pub IsMet : Instruction → Type 0
IsMet i = Meets (handler_of i) (encode_z80_instruction i)
