-- ===== src/Z80/Valid/Registers.antt =====
-- The registers by name, and the pairs.
use debug.Base.{ℕ, ◌<◌, arith}
use debug.Z80.State.{Cpu}
use debug.Z80.Registers.{Reg, Pair, get_reg, set_reg, get_pair, set_pair, hi_reg, lo_reg}
use debug.Z80.Valid.{IsValidCpu}

pub get_reg-lt : (r : Reg) (cpu : Cpu) → IsValidCpu cpu → get_reg r cpu < 256
unfolding get_reg
get_reg-lt Reg.b cpu v = v.b
get_reg-lt Reg.c cpu v = v.c
get_reg-lt Reg.d cpu v = v.d
get_reg-lt Reg.e cpu v = v.e
get_reg-lt Reg.h cpu v = v.h
get_reg-lt Reg.l cpu v = v.l
get_reg-lt Reg.a cpu v = v.a

pub set_reg-IsValidCpu :
    (r : Reg) (n : ℕ) (cpu : Cpu) → n < 256 → IsValidCpu cpu → IsValidCpu (set_reg r n cpu)
unfolding set_reg
set_reg-IsValidCpu Reg.b n cpu h v = omega arith
set_reg-IsValidCpu _ n cpu h v = omega arith

pub get_pair-lt : (q : Pair) (cpu : Cpu) → IsValidCpu cpu → get_pair q cpu < 65536
unfolding get_pair
get_pair-lt q cpu v = omega (arith, get_reg-lt (hi_reg q) cpu v, get_reg-lt (lo_reg q) cpu v)

pub set_pair-IsValidCpu :
    (q : Pair) (n : ℕ) (cpu : Cpu) → IsValidCpu cpu → IsValidCpu (set_pair q n cpu)
unfolding set_pair
set_pair-IsValidCpu Pair.bc n cpu v = omega arith
set_pair-IsValidCpu _ n cpu v = omega arith
