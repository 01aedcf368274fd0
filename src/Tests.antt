-- ===== src/Tests.antt =====
-- Runs of the models at concrete inputs.
mod Embedding
mod Ingest
mod Ingestion
mod Passages
mod ProjectScope
mod Redaction
mod Timeline
mod Backfill
mod Memory
mod Dump
mod Index
mod Sessions
mod Watcher
mod Listing
