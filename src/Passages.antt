-- ===== src/Passages.antt =====
-- passages.py: the overlapping windows of a long turn, and the doc_ids of its passages.
-- A text is the list of its code points.
pub mod Spans
pub mod DocId
