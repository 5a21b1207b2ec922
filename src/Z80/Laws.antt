-- ===== src/Z80/Laws.antt =====
-- What the operations of the processor mean, against descriptions that do not use their code.
pub mod Parity
pub mod Adding
pub mod Decimal
pub mod Rotating
pub mod FlagByte
pub mod Agreement
pub mod Adding16
pub mod Stacking
pub mod Opcodes
pub mod Stepping
pub mod Interrupts
pub mod Running
pub mod Copying
pub mod Returning
