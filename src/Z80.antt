-- ===== src/Z80.antt =====
-- The Z80 emulator core, packages/debug80-runtime/src/z80: the processor's state, the machine
-- around it, and one child for each file of the source.
pub mod State
pub mod Registers
pub mod Hardware
pub mod Flags
pub mod Constants
pub mod Alu
pub mod Alu16
pub mod Rotate
pub mod Stack
pub mod Jump
pub mod Block
pub mod Decode
pub mod Processor
pub mod Loaders
pub mod Runtime
pub mod StepOver
pub mod Valid
pub mod Laws
pub mod Samples
mod Tests
