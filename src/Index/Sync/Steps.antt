-- ===== src/Index/Sync/Steps.antt =====
-- The steps of a machine and of the store that it follows.
use mathlib.Core.Path.{subst}
use session_flow.Base.{
  ℕ, ◌≡◌, ◌≢◌, ◌<◌, refl, sym, ◌∙◌, String, not, Option, none, some, List, [], ◌∷◌, keep, nat_eq,
  string_eq, arith, Bool-cases, Option-cases, inl, inr, ℕ_discrete,
}
use session_flow.Base.Dict
use session_flow.Base.Dict.{Dict, lookup-insert}
use session_flow.Memory.Record.{MemoryRow, IndexAck, Changes, Outcome}
use session_flow.Memory.Change.{apply_change, changed_row, put_row, reset_row_acks}
use session_flow.Memory.Select.{is_live, wrong_project}
use session_flow.Memory.Writes.{delete_tx, committed}
use session_flow.Memory.Acks.{
  ack, find_ack, is_selected, reset_acks, index_state, pending, bump_generation,
}
use session_flow.Memory.Acks.Laws.{find-reset, find-reset_other}
use session_flow.Index.Fts.{FtsRow, Watermark, no_fts}
use session_flow.Index.Fts.Latest.{entries}
use session_flow.Index.Sync.{
  Machine, Fault, apply_fts, ids_of, tick_batch, tick_fts, rebuild_fts, reconcile_fts,
  ReconcileFault, reset_raises,
}
use session_flow.Index.Sync.Reconcile.{reconcile_fts-IsSynced}
use session_flow.Index.Sync.Tick.{apply_batch-IsSynced}
use session_flow.Index.Sync.Laws.{IsSynced, Accounted}
use session_flow.Index.Sync.Passes.{ack-IsSynced, apply_fts-IsSynced}

there_after :
    (r : MemoryRow) (i : ℕ) (rows : Dict ℕ MemoryRow)
    → i ≡ r.memory_id
    → Dict.lookup i (Dict.insert r.memory_id r rows) ≡ some r
there_after r i rows e = ground (arith, lookup-insert i r.memory_id r rows)

there_still :
    (r : MemoryRow) (i : ℕ) (rows : Dict ℕ MemoryRow)
    → i ≢ r.memory_id
    → Dict.lookup i (Dict.insert r.memory_id r rows) ≡ Dict.lookup i rows
there_still r i rows n = ground (arith, lookup-insert i r.memory_id r rows)

find-reset_consumer :
    (consumer : String) (i : ℕ) (acks : List IndexAck)
    → find_ack consumer i (keep (λ (a : IndexAck). not (is_selected none (some consumer) a)) acks)
      ≡ none
unfolding find_ack
find-reset_consumer consumer i [] = refl
find-reset_consumer consumer i (a ∷ acks) = ground (arith, find-reset_consumer consumer i acks)

module _ (field : String → String → Option String) (consumer : String) where
  Accounted-empty : (o : Option MemoryRow) → Accounted field o none none []
  Accounted-empty none = (refl, refl, refl)
  Accounted-empty (some r) = (tt, tt)

  -- The first version of a record.
  Accounted-first :
      (r : MemoryRow) (mark : Option Watermark) (a : Option IndexAck) (held : List FtsRow)
      → Accounted field none mark a held
      → Accounted field (some r) mark a held
  Accounted-first r mark a held (unmarked, unacked, empty) = rw (unmarked, unacked) (tt, tt)

  -- A later version of a record, with its acks taken back.
  Accounted-later :
      (r r' : MemoryRow) (mark : Option Watermark) (a : Option IndexAck) (held : List FtsRow)
      → r.version < r'.version
      → Accounted field (some r) mark a held
      → Accounted field (some r') mark none held
  Accounted-later r r' none a held lt h = (tt, tt)
  Accounted-later r r' (some m) a held lt ((le, at_version), acked) =
      ((omega (arith, le), λ e. absurd (omega (arith, le, e))), tt)

  -- The machine after a record got a new row and its acks were taken back.
  replace-IsSynced :
      (k : ℕ) (r r' : MemoryRow) (m : Machine)
      → Dict.lookup k m.tables.memories ≡ some r
      → r'.memory_id ≡ k
      → r.version < r'.version
      → IsSynced field consumer m
      → IsSynced field consumer (record m { tables = reset_row_acks k (put_row r' m.tables) })
  unfolding reset_row_acks put_row
  replace-IsSynced k r r' m there same later h = record {
    keyed = λ i x e.
        ground (arith, lookup-insert i r'.memory_id r' m.tables.memories, h.keyed i x, same);
    accounted = λ i. elim (ℕ_discrete i k) [
      | yes e ↦
          rw
            (
              e,
              there_after r' k m.tables.memories (sym same),
              find-reset consumer k m.tables.memory_index_acks,
            )
            (Accounted-later r r' (Dict.lookup k m.fts.watermarks)
              (find_ack consumer k m.tables.memory_index_acks) (entries k m.fts) later
              (subst
                (λ o.
                  Accounted field o (Dict.lookup k m.fts.watermarks)
                    (find_ack consumer k m.tables.memory_index_acks) (entries k m.fts))
                there (h.accounted k)))
      | no n ↦
          rw
            (
              there_still r' i m.tables.memories (λ p. n (p ∙ same)),
              find-reset_other consumer k i m.tables.memory_index_acks n,
            )
            (h.accounted i)
    ];
  }

  insert-IsSynced :
      (r : MemoryRow) (m : Machine)
      → Dict.lookup r.memory_id m.tables.memories ≡ none
      → IsSynced field consumer m
      → IsSynced field consumer (record m { tables = put_row r m.tables })
  unfolding put_row
  insert-IsSynced r m fresh h = record {
    keyed = λ i x e. ground (arith, lookup-insert i r.memory_id r m.tables.memories, h.keyed i x);
    accounted = λ i. elim (ℕ_discrete i r.memory_id) [
      | yes e ↦
          rw (e, there_after r r.memory_id m.tables.memories refl)
            (Accounted-first r (Dict.lookup r.memory_id m.fts.watermarks)
              (find_ack consumer r.memory_id m.tables.memory_index_acks) (entries r.memory_id m.fts)
              (subst
                (λ o.
                  Accounted field o (Dict.lookup r.memory_id m.fts.watermarks)
                    (find_ack consumer r.memory_id m.tables.memory_index_acks)
                    (entries r.memory_id m.fts))
                fresh (h.accounted r.memory_id)))
      | no n ↦ rw (there_still r i m.tables.memories n) (h.accounted i)
    ];
  }

  apply_change-IsSynced :
      (clock : ℕ → ℕ) (outcome : Outcome) (c : Changes) (r : MemoryRow) (m : Machine)
      → Dict.lookup r.memory_id m.tables.memories ≡ some r
      → IsSynced field consumer m
      → IsSynced field consumer (record m { tables = (apply_change clock outcome c r m.tables).1 })
  unfolding apply_change changed_row
  apply_change-IsSynced clock outcome c r m there h =
      let r' = changed_row clock c r m.tables in
      ground (arith, replace-IsSynced r.memory_id r r' m there refl (omega arith) h, h)

  delete_tx-IsSynced :
      (clock : ℕ → ℕ) (memory_id : Option ℕ) (expect_project : Option String) (m : Machine)
      → IsSynced field consumer m
      → IsSynced field consumer (record m {
        tables = committed m.tables (delete_tx clock memory_id expect_project m.tables);
      })
  unfolding delete_tx
  delete_tx-IsSynced clock none expect_project m h = h
  delete_tx-IsSynced clock (some memory_id) expect_project m h =
      elim (Option-cases (Dict.lookup memory_id m.tables.memories)) [
        | inl gone ↦ rw (gone, delete_tx) h
        | inr (r, there) ↦ elim (Bool-cases (is_live r)) [
          | inr dead ↦ rw (there, dead, delete_tx) h
          | inl live ↦ elim (Bool-cases (wrong_project expect_project r)) [
            | inl wrong ↦ rw (there, live, wrong, delete_tx) h
            | inr right ↦
                rw (there, live, right, delete_tx)
                  (replace-IsSynced memory_id r _ m there (h.keyed memory_id r there) (omega arith)
                    h)
          ]
        ]
      ]

  -- A machine whose file was emptied, with its acks.
  emptied-IsSynced :
      (m : Machine)
      → IsSynced field consumer m
      → IsSynced field consumer
          (record { tables = (reset_acks none (some consumer) m.tables).1; fts = no_fts })
  unfolding reset_acks Dict.lookup
  emptied-IsSynced m h = record {
    keyed = h.keyed;
    accounted = λ i.
        rw (find-reset_consumer consumer i m.tables.memory_index_acks)
          (Accounted-empty (Dict.lookup i m.tables.memories));
  }

  rebuild_fts-IsSynced :
      (faults : ℕ → Fault) (m : Machine)
      → IsSynced field consumer m
      → IsSynced field consumer (rebuild_fts field consumer faults m)
  unfolding rebuild_fts
  rebuild_fts-IsSynced faults m h =
      apply_batch-IsSynced field consumer faults
        (ids_of (index_state (reset_acks none (some consumer) m.tables).1)) _ (emptied-IsSynced m h)

  -- What may happen to the tables and to a machine's file, one after the other: a pass over a memory, a tick or
  -- the passes of a rebuild, any of whose calls may raise; a reconcile, of whose calls any but the reset of
  -- the acks may; an ack of another consumer; a change, a deletion or an insertion of a memory; a new generation.
  pub data Step (m : Machine) : Machine → Type 0 where
    pass : (memory_id : ℕ) (fault : Fault) → Step m (apply_fts field consumer memory_id fault m).1
    tick : (faults : ℕ → Fault) → Step m (tick_fts field consumer faults m).1
    rebuild : (faults : ℕ → Fault) → Step m (rebuild_fts field consumer faults m)
    reconcile :
        (fault : ReconcileFault) → fault ≢ reset_raises → Step m (reconcile_fts consumer fault m).1
    other_ack :
        (new : IndexAck)
        → consumer ≢ new.consumer
        → Step m (record m { tables = (ack new m.tables).1 })
    change :
        (clock : ℕ → ℕ) (outcome : Outcome) (c : Changes) (r : MemoryRow)
        → Dict.lookup r.memory_id m.tables.memories ≡ some r
        → Step m (record m { tables = (apply_change clock outcome c r m.tables).1 })
    delete :
        (clock : ℕ → ℕ) (memory_id : Option ℕ) (expect_project : Option String)
        → Step m (record m {
          tables = committed m.tables (delete_tx clock memory_id expect_project m.tables);
        })
    insert :
        (r : MemoryRow)
        → Dict.lookup r.memory_id m.tables.memories ≡ none
        → Step m (record m { tables = put_row r m.tables })
    bump : Step m (record m { tables = (bump_generation m.tables).1 })

  pub data Reach (m : Machine) : Machine → Type 0 where
    here : Reach m m
    next : {k n : Machine} → Reach m k → Step k n → Reach m n

  Step-IsSynced : (m n : Machine) → Step m n → IsSynced field consumer m → IsSynced field consumer n
  unfolding tick_fts bump_generation
  Step-IsSynced m _ (pass memory_id fault) h = apply_fts-IsSynced field consumer memory_id fault m h
  Step-IsSynced m _ (tick faults) h =
      apply_batch-IsSynced field consumer faults
        (ids_of (pending consumer (some tick_batch) m.tables)) m h
  Step-IsSynced m _ (rebuild faults) h = rebuild_fts-IsSynced faults m h
  Step-IsSynced m _ (reconcile fault n) h = reconcile_fts-IsSynced field consumer fault m n h
  Step-IsSynced m _ (other_ack new other) h =
      ack-IsSynced field consumer new m (λ same. absurd (other same)) h
  Step-IsSynced m _ (change clock outcome c r there) h =
      apply_change-IsSynced clock outcome c r m there h
  Step-IsSynced m _ (delete clock memory_id expect_project) h =
      delete_tx-IsSynced clock memory_id expect_project m h
  Step-IsSynced m _ (insert r fresh) h = insert-IsSynced r m fresh h
  Step-IsSynced m _ bump h = record { keyed = h.keyed; accounted = h.accounted }

  -- Where the passes of a machine, its reconciles and its rebuilds run one after the other, with the writes of the
  -- store between them, and no reconcile or rebuild fails between its call on the file and its reset of the acks, a
  -- machine whose file is accounted for stays so, whichever other calls raise: no memory is acked beyond what the file
  -- has of it, the file has no version that the store does not have, and what it has of a record's own version is
  -- what that record has to show.
  pub Reach-IsSynced :
      (m n : Machine) → Reach m n → IsSynced field consumer m → IsSynced field consumer n
  Reach-IsSynced m _ here h = h
  Reach-IsSynced m n (next {k} reach step) h = Step-IsSynced k n step (Reach-IsSynced m k reach h)
