-- ===== src/Index.antt =====
-- The index: the pages of the B+ tree.
pub mod Arrays
pub mod Leaf
pub mod Internal
pub mod Tree
