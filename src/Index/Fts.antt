-- ===== src/Index/Fts.antt =====
-- `MemoryFTS` of memory_index.py. Each method commits one transaction of SQLite, whose tables are
-- the state here; the text match and its ranking are SQLite's. The values that `_extra` reads out of
-- a JSON text are the parameter `field`, and a time stands for its ISO text.
pub mod Latest
use Prim.Native.String.{◌++◌ as ◌<>◌}
use session_flow.Base.{
  ℕ, String, Bool, true, false, not, Option, none, some, List, [], ◌∷◌, ◌++◌, map, leb, contains,
  keep, ◌==◌, nat_eq, if◌then◌else◌,
}
use mathlib.Core.Option
use session_flow.Base.Dict
use session_flow.Base.Dict.{Dict}
use session_flow.Memory.Record.{MemoryRow}
use session_flow.Memory.Select.{is_live}

-- A row of `memories_fts`.
pub record FtsRow : Type 0 where
  pub text : String
  pub memory_id : ℕ
  pub version : ℕ
  pub content_hash : String
  pub user_id : String
  pub agent_id : String
  pub project : String
  pub type : String
  pub status : String
  pub issue_ids : String
  pub source : String
  pub category : String
  pub created_at : ℕ

-- A row of `memories_fts_watermark`, beside its memory_id.
pub record Watermark : Type 0 where
  pub version : ℕ
  pub deleted : Bool

pub record MemoryFts : Type 0 where
  pub rows : List FtsRow
  pub watermarks : Dict ℕ Watermark

abbrev pub no_fts : MemoryFts
no_fts = record { rows = []; watermarks = [] }

-- `",".join(ids)`
unfoldable pub comma_join : List String → String
comma_join [] = ""
comma_join (x ∷ []) = x
comma_join (x ∷ y ∷ l) = x <> "," <> comma_join (y ∷ l)

unfoldable pub wrapped_ids : List String → String
unfolding comma_join
wrapped_ids [] = ""
wrapped_ids (x ∷ l) = "," <> comma_join (x ∷ l) <> ","

abbrev pub delete_rows : ℕ → List FtsRow → List FtsRow
delete_rows memory_id = keep (λ (r : FtsRow). not (r.memory_id == memory_id))

abbrev pub or_empty : Option String → String
or_empty none = ""
or_empty (some v) = v

-- `reset`
abbrev pub reset : MemoryFts → MemoryFts
reset f = no_fts

unfoldable pub watermark : ℕ → MemoryFts → Option ℕ
watermark memory_id f =
    Option.map (λ (m : Watermark). m.version) (Dict.lookup memory_id f.watermarks)

unfoldable pub forget : List ℕ → MemoryFts → MemoryFts
forget [] f = f
forget (memory_id ∷ ids) f =
    forget ids (record {
      rows = delete_rows memory_id f.rows;
      watermarks = Dict.erase memory_id f.watermarks;
    })

-- The keys of the dict that `rows` returns, each with the version and the hash of its last row.
unfoldable pub rows_by_id : List FtsRow → Dict ℕ (ℕ × String) → Dict ℕ (ℕ × String)
rows_by_id [] d = d
rows_by_id (r ∷ rows) d = rows_by_id rows (Dict.insert r.memory_id (r.version, r.content_hash) d)

-- Whether the version of a row is below its watermark's or is it.
abbrev pub is_marked : Option Watermark → ℕ → Bool
is_marked none version = false
is_marked (some m) version = leb version m.version

module _ (field : String → String → Option String) where
  unfoldable pub fts_row : MemoryRow → FtsRow
  fts_row r = record {
    text = r.text;
    memory_id = r.memory_id;
    version = r.version;
    content_hash = r.content_hash;
    user_id = r.user_id;
    agent_id = r.agent_id;
    project = r.project;
    type = r.type;
    status = r.status;
    issue_ids = wrapped_ids r.issue_ids;
    source = or_empty (field r.extra "source");
    category = or_empty (field r.extra "category");
    created_at = r.created_at;
  }

  -- What the file should hold of a record.
  abbrev pub view : MemoryRow → List FtsRow
  view r = if is_live r then fts_row r ∷ [] else []

  -- What it should hold under an id.
  abbrev pub shown : Option MemoryRow → List FtsRow
  shown none = []
  shown (some r) = view r

  unfoldable pub apply : MemoryRow → MemoryFts → Bool × MemoryFts
  unfolding fts_row
  apply r f = if is_marked (Dict.lookup r.memory_id f.watermarks) r.version then (false, f) else (
    true,
    record {
      rows = delete_rows r.memory_id f.rows ++ view r;
      watermarks =
          Dict.insert r.memory_id (record { version = r.version; deleted = not (is_live r) })
            f.watermarks;
    },
  )
