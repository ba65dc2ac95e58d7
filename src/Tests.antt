-- ===== src/Tests.antt =====
-- A small program, and the theorems at inputs from it.
pub mod Sample
pub mod Graphs
pub mod States
pub mod Blocks
pub mod Guards
pub mod Calls
pub mod Cycles
mod Reporter
mod Facts
mod Directives
mod Run
