-- ===== src/Azm/Laws.antt =====
-- What holds of the assembler.
pub mod Transfers
pub mod Sizes
pub mod Errors
pub mod Meaning
pub mod Execution
pub mod Encoding
pub mod Emission
pub mod Branching
