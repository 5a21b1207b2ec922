-- ===== src/Z80/Decode.antt =====
-- The opcode decoders, decode.ts and decode-*.ts.
pub mod Operands
pub mod Cb
pub mod Ed
pub mod Ddcb
pub mod Dd
pub mod Primary
