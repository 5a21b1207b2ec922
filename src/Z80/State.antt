-- ===== src/Z80/State.antt =====
-- The processor's registers: types.ts, with `init` of cpu.ts.
use debug.Base.{ℕ, Bool, false}

pub record Flags : Type 0 where
  pub s : ℕ
  pub z : ℕ
  pub y : ℕ
  pub h : ℕ
  pub x : ℕ
  pub p : ℕ
  pub n : ℕ
  pub c : ℕ

pub record Cpu : Type 0 where
  pub a : ℕ
  pub b : ℕ
  pub c : ℕ
  pub d : ℕ
  pub e : ℕ
  pub h : ℕ
  pub l : ℕ
  pub a_prime : ℕ
  pub b_prime : ℕ
  pub c_prime : ℕ
  pub d_prime : ℕ
  pub e_prime : ℕ
  pub h_prime : ℕ
  pub l_prime : ℕ
  pub ix : ℕ
  pub iy : ℕ
  pub i : ℕ
  pub r : ℕ
  pub sp : ℕ
  pub pc : ℕ
  pub flags : Flags
  pub flags_prime : Flags
  pub imode : ℕ
  pub iff1 : ℕ
  pub iff2 : ℕ
  pub halted : Bool
  pub do_delayed_di : Bool
  pub do_delayed_ei : Bool
  pub cycle_counter : ℕ

abbrev pub flags_clear : Flags
flags_clear = record { s = 0; z = 0; y = 0; h = 0; x = 0; p = 0; n = 0; c = 0 }

unfoldable pub init : Cpu
init = record {
  a = 0x00;
  b = 0x00;
  c = 0x00;
  d = 0x00;
  e = 0x00;
  h = 0x00;
  l = 0x00;
  a_prime = 0x00;
  b_prime = 0x00;
  c_prime = 0x00;
  d_prime = 0x00;
  e_prime = 0x00;
  h_prime = 0x00;
  l_prime = 0x00;
  ix = 0x0000;
  iy = 0x0000;
  i = 0x00;
  r = 0x00;
  sp = 0xdff0;
  pc = 0x0000;
  flags = flags_clear;
  flags_prime = flags_clear;
  imode = 0;
  iff1 = 0;
  iff2 = 0;
  halted = false;
  do_delayed_di = false;
  do_delayed_ei = false;
  cycle_counter = 0;
}
