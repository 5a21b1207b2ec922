-- ===== src/Z80/Registers.antt =====
-- The eight-bit registers by name, and the sixteen-bit pairs that the handlers read and write.
use debug.Base.{ℕ, pair, byte, high}
use debug.Z80.State.{Cpu}

pub data Reg : Type 0 where
  b c d e h l a : Reg

unfoldable pub get_reg : Reg → Cpu → ℕ
get_reg b cpu = cpu.b
get_reg c cpu = cpu.c
get_reg d cpu = cpu.d
get_reg e cpu = cpu.e
get_reg h cpu = cpu.h
get_reg l cpu = cpu.l
get_reg a cpu = cpu.a

unfoldable pub set_reg : Reg → ℕ → Cpu → Cpu
set_reg b v cpu = record cpu { b = v }
set_reg c v cpu = record cpu { c = v }
set_reg d v cpu = record cpu { d = v }
set_reg e v cpu = record cpu { e = v }
set_reg h v cpu = record cpu { h = v }
set_reg l v cpu = record cpu { l = v }
set_reg a v cpu = record cpu { a = v }

pub data Pair : Type 0 where
  bc de hl : Pair

abbrev pub hi_reg : Pair → Reg
hi_reg bc = b
hi_reg de = d
hi_reg hl = h

abbrev pub lo_reg : Pair → Reg
lo_reg bc = c
lo_reg de = e
lo_reg hl = l

-- `cpu.l | (cpu.h << 8)`
unfoldable pub get_pair : Pair → Cpu → ℕ
unfolding get_reg
get_pair q cpu = pair (get_reg (hi_reg q) cpu) (get_reg (lo_reg q) cpu)

-- `cpu.l = result & 0xff; cpu.h = (result & 0xff00) >>> 8;`
unfoldable pub set_pair : Pair → ℕ → Cpu → Cpu
unfolding set_reg
set_pair q result cpu = set_reg (hi_reg q) (high result) (set_reg (lo_reg q) (byte result) cpu)
