-- ===== src/Sessions/Scan.antt =====
-- `list_sessions` of rag_engine.py: one aggregate for each session and provider. The rows are those that the
-- query gives, in its order; a stamp is the text that is stored, code point by code point, and `none`
-- where it is empty: the code compares stamps as texts, whose order need not be that of the times. The doc_ids
-- are of any type with an order, as their texts have one. `heapq` is a list in falling order, so the
-- heap's first item is its last. `branches` is a set here, whose order the code sorts out at the end.
pub mod First
pub mod Laws
use session_flow.Base.{
  ℕ, suc, ◌+◌, String, Bool, true, false, not, ◌&&◌, Option, none, some, List, [], ◌∷◌, ◌++◌, map,
  ltb, max, min, length, contains, ◌==◌, Eq, string_eq, pair_eq, if◌then◌else◌,
}
use session_flow.Base.Dict
use session_flow.Base.Dict.{Dict}
use session_flow.Base.Texts.{Text, text_order}
use session_flow.Base.Order.{Order, flip, pair_order, nat_order}

pub record TurnRow (D : Type 0) : Type 0 where
  pub session_id : String
  pub provider : String
  pub project_root : String
  pub git_branch : String
  pub timestamp : Option Text
  pub turn_index : ℕ
  pub doc_id : D

-- An entry of `_first`, `(-turn_index, doc_id)`: the order turns the index round.
abbrev pub Entry : Type 0 → Type 0
Entry D = ℕ × D

pub record Aggregate (D : Type 0) : Type 0 where
  pub session_id : String
  pub provider : String
  pub project_root : String
  pub turns : ℕ
  pub branches : List String
  pub min_ts : Option Text
  pub max_ts : Option Text
  pub last_turn_index : Option ℕ
  pub first : List (Entry D)

abbrev pub session_title_candidates : ℕ
session_title_candidates = 8

-- `s["branches"].add(branch)`
abbrev pub add_branch : String → List String → List String
add_branch branch branches =
    if branch == ""
    then branches
    else if contains branches branch
    then branches
    else branches ++ branch ∷ []

module _ {A : Type 0} (o : Order A) where
  abbrev pub smaller : Option A → Option A → Option A
  smaller none new = new
  smaller (some old) none = some old
  smaller (some old) (some new) = if o.lt new old then some new else some old

  abbrev pub greater : Option A → Option A → Option A
  greater none new = new
  greater (some old) none = some old
  greater (some old) (some new) = if o.lt old new then some new else some old

module _ {D : Type 0} where
  abbrev pub key_of : TurnRow D → String × String
  key_of r = (r.session_id, r.provider)

  abbrev pub new_aggregate : TurnRow D → Aggregate D
  new_aggregate r = record {
    session_id = r.session_id;
    provider = r.provider;
    project_root = r.project_root;
    turns = 0;
    branches = [];
    min_ts = none;
    max_ts = none;
    last_turn_index = none;
    first = [];
  }

-- `result.sort(key=lambda s: s["max_ts"], reverse=True)`, which keeps the order of equal stamps.
abbrev pub is_newer : Option Text → Option Text → Bool
is_newer none other = false
is_newer (some t) none = true
is_newer (some t) (some u) = text_order.lt u t

module _ {D : Type 0} where
  unfoldable pub insert_aggregate : Aggregate D → List (Aggregate D) → List (Aggregate D)
  insert_aggregate s [] = s ∷ []
  insert_aggregate s (x ∷ l) =
      let rest = insert_aggregate s l in if is_newer x.max_ts s.max_ts then x ∷ rest else s ∷ x ∷ l

  unfoldable pub newest_last_turn_first : List (Aggregate D) → List (Aggregate D)
  unfolding insert_aggregate
  newest_last_turn_first [] = []
  newest_last_turn_first (s ∷ l) = insert_aggregate s (newest_last_turn_first l)

module _ {ℓ} {A : Type ℓ} (o : Order A) where
  -- `heapq.heappush`
  unfoldable pub heap_push : A → List A → List A
  heap_push e [] = e ∷ []
  heap_push e (x ∷ l) = if o.lt x e then e ∷ x ∷ l else x ∷ heap_push e l

  -- The heap's first item, and the others.
  unfoldable pub heap_first : A → List A → A × List A
  heap_first x [] = (x, [])
  heap_first x (y ∷ l) = let (first, others) = heap_first y l in (first, x ∷ others)

  unfoldable pub add_first : ℕ → A → List A → List A
  unfolding heap_push heap_first
  add_first n e [] = e ∷ []
  add_first n e (x ∷ l) =
      let (first, others) = heap_first x l in
      if ltb (length (x ∷ l)) n
      then heap_push e (x ∷ l)
      else if o.lt first e
      then heap_push e others
      else x ∷ l

module _ {D : Type 0} (texts : Order D) where
  abbrev pub entries : Order (Entry D)
  entries = pair_order (flip nat_order) texts

  -- What a row adds to its session.
  unfoldable pub absorb : Aggregate D → TurnRow D → Aggregate D
  unfolding add_first
  absorb s r = record s {
    turns = s.turns + 1;
    branches = add_branch r.git_branch s.branches;
    min_ts = smaller text_order s.min_ts r.timestamp;
    max_ts = greater text_order s.max_ts r.timestamp;
    last_turn_index = greater nat_order s.last_turn_index (some r.turn_index);
    first = add_first entries session_title_candidates (r.turn_index, r.doc_id) s.first;
  }

  -- The session of a row, with what the row adds.
  unfoldable pub absorbed : Option (Aggregate D) → TurnRow D → Aggregate D
  unfolding absorb
  absorbed none r = absorb (new_aggregate r) r
  absorbed (some s) r = absorb s r

  unfoldable pub scan_row :
      TurnRow D → Dict (String × String) (Aggregate D) → Dict (String × String) (Aggregate D)
  unfolding absorbed
  scan_row r d =
      if r.session_id == ""
      then d
      else Dict.insert (key_of r) (absorbed (Dict.lookup (key_of r) d) r) d

  unfoldable pub scan :
      List (TurnRow D) → Dict (String × String) (Aggregate D) → Dict (String × String) (Aggregate D)
  unfolding scan_row
  scan [] d = d
  scan (r ∷ rows) d = scan rows (scan_row r d)

  unfoldable pub session_aggregates : List (TurnRow D) → List (Aggregate D)
  unfolding scan newest_last_turn_first
  session_aggregates rows = newest_last_turn_first (Dict.values (scan rows []))

module _ {D : Type 0} where
  abbrev pub first_doc_ids : Aggregate D → List D
  first_doc_ids s = map (λ (_, doc_id). doc_id) s.first
