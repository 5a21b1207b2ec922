-- ===== src/Azm/Encode/Core.antt =====
-- packages/azm/src/z80/encode-core.ts: the instructions without operands.
use debug.Base.{ℕ, List, [], ◌∷◌}
use debug.Azm.Instruction.{CoreMnemonic, Encoded}
use debug.Azm.Encode.Codes.{of_bytes}

abbrev pub core_opcodes : CoreMnemonic → List ℕ
core_opcodes CoreMnemonic.di = 0xf3 ∷ []
core_opcodes CoreMnemonic.ei = 0xfb ∷ []
core_opcodes CoreMnemonic.scf = 0x37 ∷ []
core_opcodes CoreMnemonic.ccf = 0x3f ∷ []
core_opcodes CoreMnemonic.cpl = 0x2f ∷ []
core_opcodes CoreMnemonic.daa = 0x27 ∷ []
core_opcodes CoreMnemonic.exx = 0xd9 ∷ []
core_opcodes CoreMnemonic.halt = 0x76 ∷ []
core_opcodes CoreMnemonic.rlca = 0x07 ∷ []
core_opcodes CoreMnemonic.rrca = 0x0f ∷ []
core_opcodes CoreMnemonic.rla = 0x17 ∷ []
core_opcodes CoreMnemonic.rra = 0x1f ∷ []
core_opcodes CoreMnemonic.neg = 0xed ∷ 0x44 ∷ []
core_opcodes CoreMnemonic.rrd = 0xed ∷ 0x67 ∷ []
core_opcodes CoreMnemonic.rld = 0xed ∷ 0x6f ∷ []
core_opcodes CoreMnemonic.ldi = 0xed ∷ 0xa0 ∷ []
core_opcodes CoreMnemonic.ldir = 0xed ∷ 0xb0 ∷ []
core_opcodes CoreMnemonic.ldd = 0xed ∷ 0xa8 ∷ []
core_opcodes CoreMnemonic.lddr = 0xed ∷ 0xb8 ∷ []
core_opcodes CoreMnemonic.cpi = 0xed ∷ 0xa1 ∷ []
core_opcodes CoreMnemonic.cpir = 0xed ∷ 0xb1 ∷ []
core_opcodes CoreMnemonic.cpd = 0xed ∷ 0xa9 ∷ []
core_opcodes CoreMnemonic.cpdr = 0xed ∷ 0xb9 ∷ []
core_opcodes CoreMnemonic.ini = 0xed ∷ 0xa2 ∷ []
core_opcodes CoreMnemonic.inir = 0xed ∷ 0xb2 ∷ []
core_opcodes CoreMnemonic.ind = 0xed ∷ 0xaa ∷ []
core_opcodes CoreMnemonic.indr = 0xed ∷ 0xba ∷ []
core_opcodes CoreMnemonic.outi = 0xed ∷ 0xa3 ∷ []
core_opcodes CoreMnemonic.otir = 0xed ∷ 0xb3 ∷ []
core_opcodes CoreMnemonic.outd = 0xed ∷ 0xab ∷ []
core_opcodes CoreMnemonic.otdr = 0xed ∷ 0xbb ∷ []
core_opcodes CoreMnemonic.reti = 0xed ∷ 0x4d ∷ []
core_opcodes CoreMnemonic.retn = 0xed ∷ 0x45 ∷ []

abbrev pub encode_core : CoreMnemonic → Encoded
encode_core mnemonic = of_bytes (core_opcodes mnemonic)
