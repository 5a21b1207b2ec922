-- ===== src/Azm/Outputs.antt =====
-- packages/azm/src/outputs.
pub mod WriteHex
pub mod Laws
