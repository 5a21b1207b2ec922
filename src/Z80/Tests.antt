-- ===== src/Z80/Tests.antt =====
-- The theorems at concrete programs and register values.
mod Flow
mod Run
mod Copy
mod Values
use debug.Base.{
  ℕ, ◌<◌, ◌≡◌, refl, arith, List, [], ◌∷◌, All, All-get_or, none, some, true, false, word,
}
use debug.Z80.State.{Flags, Cpu, init, flags_clear}
use debug.Z80.Hardware.{Machine, mem_read}
use debug.Z80.Samples.{quiet_io, image_of, machine_of}
use debug.Z80.Runtime.{HexProgram, create_z80_runtime, reset_runtime, step_runtime}
use debug.Z80.Processor.{execute, interrupt}
use debug.Z80.Valid.{IsValidFlags, IsValidCpu, IsValid}
use debug.Z80.Valid.Processor.{execute-IsValid, interrupt-IsValid}
use debug.Z80.Valid.Runtime.{
  IsImage, create_z80_runtime-IsValid, reset_runtime-IsValid, step_runtime-IsValid,
}

-- LD BC,3; LDIR; CALL 9; HALT; RET
abbrev pub copy_program : List ℕ
copy_program = 0x01 ∷ 0x03 ∷ 0x00 ∷ 0xed ∷ 0xb0 ∷ 0xcd ∷ 0x09 ∷ 0x00 ∷ 0x76 ∷ 0xc9 ∷ []

abbrev copier : Machine
copier = create_z80_runtime (image_of copy_program) none quiet_io []

copy_program-IsImage : IsImage (image_of copy_program)
copy_program-IsImage = record {
  bytes = λ addr. All-get_or (λ n. n < 256) copy_program addr 0 (omega arith) (omega arith);
  start = omega arith;
}

copier-IsValid : IsValid copier
copier-IsValid =
    create_z80_runtime-IsValid (image_of copy_program) none quiet_io [] copy_program-IsImage

create_z80_runtime-IsValid_example : IsValid copier
create_z80_runtime-IsValid_example =
    create_z80_runtime-IsValid (image_of copy_program) none quiet_io [] copy_program-IsImage

reset_runtime-IsValid_example :
    IsValid (reset_runtime (some (image_of copy_program, some 5)) (execute copier).1)
reset_runtime-IsValid_example =
    reset_runtime-IsValid (image_of copy_program) (some 5) (execute copier).1 copy_program-IsImage
      (execute-IsValid copier copier-IsValid)

execute-IsValid_example : IsValid (execute (execute copier).1).1
execute-IsValid_example = execute-IsValid (execute copier).1 (execute-IsValid copier copier-IsValid)

interrupt-IsValid_example : IsValid (interrupt true 0 copier)
interrupt-IsValid_example = interrupt-IsValid true 0 copier copier-IsValid

step_runtime-IsValid_example : IsValid (step_runtime copier).1
step_runtime-IsValid_example = step_runtime-IsValid copier copier-IsValid
