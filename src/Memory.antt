-- ===== src/Memory.antt =====
-- memory_store.py: the canonical store of memories, over the tables of sql/memory/001_initial.sql.
-- A transaction is a function of the tables, for it locks the rows that it reads; one that raises
-- leaves them as they are. PostgreSQL's own work (locks, retries after a lost race) is not modelled.
pub mod Record
pub mod Sorted
pub mod Select
pub mod Change
pub mod Writes
pub mod Wrapped
pub mod Acks
pub mod Dump
pub mod Listing
