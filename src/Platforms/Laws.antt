-- ===== src/Platforms/Laws.antt =====
-- What holds of the platform side.
pub mod Sorted
pub mod Due
pub mod Running
pub mod Cancelling
