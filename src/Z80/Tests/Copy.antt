-- ===== src/Z80/Tests/Copy.antt =====
-- A block of three bytes moved by LDIR.
use debug.Base.{◌<◌, ◌≡◌, refl, arith, All-get_or, [], ◌∷◌}
use debug.Z80.Hardware.{Machine, on_cpu, is_rom_address}
use debug.Z80.Registers.{get_pair}
use debug.Z80.Runtime.{step_runtime}
use debug.Z80.Valid.{IsValid}
use debug.Z80.Samples.{machine_of}
use debug.Z80.Laws.Copying.Turn.{Copying}
use debug.Z80.Laws.Copying.Next.{IsCopied}
use debug.Z80.Laws.Copying.{step_runtime-IsCopied, step_runtime_copies}

-- LDIR from 4 to 0x2000, with BC = 3.
abbrev mover : Machine
mover =
    on_cpu (λ cpu. record cpu { b = 0; c = 3; d = 0x20; e = 0; h = 0; l = 4 })
      (machine_of (0xed ∷ 0xb0 ∷ 0x76 ∷ 0 ∷ 0x11 ∷ 0x22 ∷ 0x33 ∷ []))

mover-IsValid : IsValid mover
unfolding machine_of
mover-IsValid = record {
  cpu = omega arith;
  memory = λ addr.
      All-get_or (λ n. n < 256) (0xed ∷ 0xb0 ∷ 0x76 ∷ 0 ∷ 0x11 ∷ 0x22 ∷ 0x33 ∷ []) addr 0
        (omega arith) (omega arith);
}

mover-Copying : Copying 2 mover
unfolding machine_of get_pair
mover-Copying = record {
  valid = mover-IsValid;
  running = refl;
  bound = omega arith;
  count = refl;
  first = refl;
  second = refl;
  first_apart = omega arith;
  second_apart = omega arith;
  quiet = refl;
}

step_runtime-IsCopied_example : IsCopied 2 mover (step_runtime mover).1
step_runtime-IsCopied_example = step_runtime-IsCopied 2 mover mover-Copying

step_runtime_copies_example : (step_runtime mover).1.hardware.memory 0x2002 ≡ 0x33
unfolding machine_of get_pair is_rom_address
step_runtime_copies_example =
    step_runtime_copies 2 2 mover mover-Copying (omega arith) (omega arith) refl
