-- ===== src/Tests.antt =====
-- Runs of the model at concrete inputs, and the theorems applied to them.
pub mod Samples
mod Rules
mod Writes
mod Services
mod Network
mod Paging
mod Reads
