-- ===== src/Collections.antt =====
-- The standard collections that the core stores its state in.
pub mod Map
pub mod BinaryHeap
