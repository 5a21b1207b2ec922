-- ===== src/Z80/Valid.antt =====
-- The ranges of the machine's state: flags are 0 or 1, registers are bytes or words, memory holds
-- bytes. The children prove that the operations keep them.
pub mod Registers
pub mod Arithmetic
pub mod Memory
pub mod Transfers
pub mod Blocks
pub mod Indexed
pub mod Extended
pub mod IndexTable
pub mod Primary
pub mod Processor
pub mod Runtime
use debug.Base.{ℕ, ◌≤◌, ◌<◌}
use debug.Z80.State.{Flags, Cpu}
use debug.Z80.Hardware.{Machine, Handler}

pub record IsValidFlags (f : Flags) : Type 0 where
  pub s : f.s < 2
  pub z : f.z < 2
  pub y : f.y < 2
  pub h : f.h < 2
  pub x : f.x < 2
  pub p : f.p < 2
  pub n : f.n < 2
  pub c : f.c < 2

pub record IsValidCpu (cpu : Cpu) : Type 0 where
  pub a : cpu.a < 256
  pub b : cpu.b < 256
  pub c : cpu.c < 256
  pub d : cpu.d < 256
  pub e : cpu.e < 256
  pub h : cpu.h < 256
  pub l : cpu.l < 256
  pub a_prime : cpu.a_prime < 256
  pub b_prime : cpu.b_prime < 256
  pub c_prime : cpu.c_prime < 256
  pub d_prime : cpu.d_prime < 256
  pub e_prime : cpu.e_prime < 256
  pub h_prime : cpu.h_prime < 256
  pub l_prime : cpu.l_prime < 256
  pub ix : cpu.ix < 65536
  pub iy : cpu.iy < 65536
  pub i : cpu.i < 256
  pub r : cpu.r < 256
  pub sp : cpu.sp < 65536
  pub pc : cpu.pc < 65536
  pub flags : IsValidFlags cpu.flags
  pub flags_prime : IsValidFlags cpu.flags_prime
  pub imode : cpu.imode < 3
  pub iff1 : cpu.iff1 < 2
  pub iff2 : cpu.iff2 < 2

pub record IsValid (m : Machine) : Type 0 where
  pub cpu : IsValidCpu m.cpu
  pub memory : (addr : ℕ) → m.hardware.memory addr < 256

-- What keeps the ranges, of the processor alone and of the machine.
abbrev pub KeepsCpu : (Cpu → Cpu) → Type 0
KeepsCpu f = (cpu : Cpu) → IsValidCpu cpu → IsValidCpu (f cpu)

abbrev pub Keeps : Handler → Type 0
Keeps f = (m : Machine) → IsValid m → IsValid (f m)
