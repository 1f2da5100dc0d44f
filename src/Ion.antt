-- ===== src/Ion.antt =====
-- Passes of the allocator proper (src/ion).
pub mod Requirement
pub mod RedundantMoves
pub mod Ranges
pub mod Spill
pub mod Bundle
pub mod Merge
pub mod RegTraversal
