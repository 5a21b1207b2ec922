-- ===== src/Z80/Samples.antt =====
-- Small programs for the tests and the witnesses.
use debug.Base.{ℕ, List, [], get_or, none}
use debug.Z80.Hardware.{Machine, IoHandlers}
use debug.Z80.Runtime.{HexProgram, create_z80_runtime}

-- Ports that read 0 and a platform that never interrupts.
abbrev pub quiet_io : IoHandlers
quiet_io = record { on_read = λ history port. 0; on_tick = λ history. none }

abbrev pub image_of : List ℕ → HexProgram
image_of bytes = record { image = λ addr. get_or bytes addr 0; start_address = 0 }

unfoldable pub machine_of : List ℕ → Machine
unfolding create_z80_runtime
machine_of bytes = create_z80_runtime (image_of bytes) none quiet_io []
