-- ===== src/Azm.antt =====
-- The assembler azm: its instructions and their encoding.
pub mod Expression
pub mod Instruction
pub mod Encode
pub mod LdSupport
pub mod Operators
pub mod Emission
pub mod Patching
pub mod Laws
pub mod Tests
pub mod EmissionTests
pub mod Outputs
