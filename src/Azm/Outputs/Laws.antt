-- ===== src/Azm/Outputs/Laws.antt =====
-- What is written is what is read.
pub mod Digits
pub mod Records
pub mod Rows
pub mod Segments
pub mod Lines
pub mod RoundTrip
