-- ===== src/Lib.antt =====
-- SessionFlow indexes the transcripts of coding assistants for search, and keeps memories beside them.
-- This library models parts of it that keep state or decide something, in the files named after
-- the modules below. A definition bears the name that the code gives to the thing.
--
-- Backfill (backfill_manager.py). A process queues jobs that index the history of a provider, hands
-- them out by priority and crosses them off; it can be paused, and comes back after a restart.
-- Backfill/Defs has the state of `BackfillManager` as a record, the state file among its fields, with
-- a function for each method; Backfill/Calls runs a list of method calls; Backfill/Tracking, Durability,
-- Order and Dedupe are about the counters, the state file, the order of `status`, and second calls.
-- The digest in a job id (`hashlib.sha256` of a JSON text) is the parameter `digest`. The lock
-- makes each method one step. A failed write of the state file is not modelled.
--
-- Embedding (embedding_control.py). Embedding/Throttle is `EmbedThrottle`, and Embedding/Throttle/Loop
-- its `batch` on one event loop, as a step relation; Embedding/Budget is `EmbeddingBudget` with
-- `before_batch` and `after_batch`, and Embedding/Batches its `split_batches`. Times
-- are exact numbers of microseconds where the code has floats of seconds, and one reading of the clock stands for the readings
-- of a call, so at the very end of a cooldown the code may still answer otherwise by a rounding.
-- Settings from the environment and the status report are not modelled.
--
-- Ingest (`add_turns` of rag_engine.py). The units of a turn and its passages go through the budget
-- in batches, and what was embedded is cut back to whole units. The embedding model and the clock are
-- the parameters `embed` and `env`. The filters before and the inserts after are not modelled.
--
-- Passages (passages.py). Passages/Spans has the windows of a long turn; their loop has fuel, as many
-- rounds as there are tokens, since each round moves 386 tokens on. Passages/DocId has the doc_ids, over
-- code points. Titles are not modelled.
--
-- Timeline (`_OldestN` and `_NewestN` of rag_engine.py). One collector over an order stands for both
-- classes; its heap is a list in that order.
--
-- Memory (memory_store.py over sql/memory/001_initial.sql). Memory/Record has the rows, requests and
-- errors, Memory/Select the rows that a transaction picks, Memory/Change the change of one row with its
-- snapshot and its acks, Memory/Writes `add`, `update` and `delete`, and Memory/Acks what the index
-- consumers hold. The index workers read `pending` and write acks; a write takes the acks of its row
-- away. Memory/Listing has the pages of `list`; Memory/Dump is the state of the
-- nightly dump; the zone is a parameter. The clock and a drawn UUID are parameters. A UUID
-- in a request is in its canonical spelling. A transaction
-- runs by itself, for it locks the rows that it reads; the retries after a lost race of two inserts are not modelled, nor are lineage
-- and the index model.
--
-- Index (memory_index.py). Index/Fts is the full-text file of a machine, `MemoryFTS`, its tables the state,
-- and Index/Sync the passes of `MemoryIndex` over it: `_apply_fts`, the full-text half of `tick` and of
-- `reconcile`, and `_rebuild_fts`. They read `canonical`, `pending` and `index_state` of the store and write
-- its acks, so their state is the store's tables with the file. Which call raises is an argument,
-- and a pass runs by itself: calls of two passes between each other are not modelled.
-- Index/Sync/Steps is a step relation of the machine and the writes of the store. The values that `_extra`
-- reads out of a JSON text are the parameter `field`. Index/Vectors is `_apply_milvus` with `_milvus_write`, over
-- the rounds of reads that the store gives it; the other passes over the vectors are not modelled.
--
-- Sessions (`list_sessions` of session_listing.py). The chunk loop over the rows of rag_engine.py, with the
-- answers of the memory store as an argument; Memory/Wrapped is what the store answers. Titles are an
-- argument too. Sessions/Scan is `list_sessions` of rag_engine.py, which makes those rows out of the turns.
--
-- Watcher (file_watcher.py). `GlobalTranscriptWatcher` on one event loop: changes go through a queue to the
-- pending files, each sets the debounce timer anew, and a task that the timer starts takes the pending
-- files as a batch. Watcher is the state with its steps; Watcher/Batch is the loop over the files of a batch
-- with their offsets in the index state of transcript_parser.py, which a lookup of a root that raises cuts short; the file system, the parser and the index are
-- parameters.
--
-- Ingestion (provider_ingestion.py). The service that drains the queue of Backfill: it takes `status`, runs each
-- job through the adapter of its provider, and calls `complete_job`. The adapters, the index, the clock and the save of
-- the index state are parameters, and no other task touches the manager meanwhile.
--
-- ProjectScope (project_scope.py). The indexed roots that a search covers. The lower case of a text is the
-- parameter `lower`; `posixpath.normpath` is written out for an absolute path.
--
-- Redaction (secret_redaction.py). A text is a list of code points. Redaction/Detect and Redaction/Collect
-- have the candidates of a text, Redaction/Mask their aggregation and the masking of `redact`, and
-- Redaction/Spans the spans of an audit with their snippets; Redaction/Text reads the patterns of a bracketed span.
-- The patterns of key blocks, keywords and assignments, detect-secrets, the entropy and the UUID test are the
-- record `Detectors`. The loops that find a value again have as fuel the length of the text, of which each round takes some.
--
-- Base has what these share: Python's tests and dicts, lists over the native numbers, orders, texts of code
-- points. Tests has runs at concrete
-- inputs. Not modelled are the search itself, the readers of the providers'
-- formats, the start of the watcher and its backfill, the servers, the roots of a client and the clean-up scripts.
pub mod Base
pub mod Backfill
pub mod Embedding
pub mod Index
pub mod Ingest
pub mod Ingestion
pub mod Memory
pub mod Passages
pub mod ProjectScope
pub mod Redaction
pub mod Sessions
pub mod Timeline
pub mod Watcher
pub mod Tests
