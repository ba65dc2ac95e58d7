-- ===== src/Walk.antt =====
-- pkg/analyzer/ssawalk.go: the walk of a function's blocks that tracks the locks held.
pub mod Locks
pub mod Fields
pub mod Instrs
pub mod Blocks
pub mod Observed
pub mod Universe
