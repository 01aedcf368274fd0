-- ===== src/Embedding.antt =====
-- embedding_control.py: the cooldown between embed batches and the budget of a backfill run.
-- Times are microseconds on the process clock; the source's float seconds are these over 10^6.
pub mod Throttle
pub mod Budget
pub mod Batches
