-- ===== src/Tests.antt =====
-- Runs of the development at concrete inputs.
pub mod Samples
mod Search
mod Parts
mod Files
mod Commands
mod Changes
mod Engines
mod Systems
mod Pools
mod Programs
mod Graphs
