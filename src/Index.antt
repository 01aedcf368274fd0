-- ===== src/Index.antt =====
-- memory_index.py: the full-text file of a machine, which is a copy of the memory store, and the
-- passes that keep it in step.
pub mod Fts
pub mod Sync
pub mod Vectors
