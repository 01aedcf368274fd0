-- ===== src/Timeline.antt =====
-- The bounded collectors of rag_engine.py.
pub mod Collector
