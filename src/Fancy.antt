-- ===== src/Fancy.antt =====
-- python/segment-tree-2.py: a growing sequence with lazy "add to all" and "multiply all", modulo a
-- prime. Values are naturals, as the problem's are.
pub mod Tree
pub mod Print
pub mod Modular
pub mod Value
pub mod Append
pub mod Sequence
pub mod Grow
pub mod Holds
pub mod Refines
pub mod Update
mod Tests
