-- ===== src/Sessions/Scan/Laws.antt =====
-- What the scan knows of a session.
use mathlib.Core.Path.{subst}
use session_flow.Base.{
  ◌+◌, ◌≡◌, refl, sym, ap, ◌∙◌, String, Bool, true, false, not, ◌&&◌, ◌||◌, Option, none, some,
  List, [], ◌∷◌, map, length, keep, keep-cons_true, keep-cons_false, take, contains,
  contains-append, ◌==◌, string_eq, pair_eq, arith, Bool-cases, inl, inr,
}
use session_flow.Base.Dict
use session_flow.Base.Dict.{Dict, lookup-insert, lookup-insert_self, lookup-insert_other}
use session_flow.Base.Order.{Order, nat_order}
use session_flow.Base.Texts.{text_order}
use session_flow.Sessions.Scan.{
  TurnRow, Aggregate, session_title_candidates, add_branch, smaller, greater, key_of, new_aggregate,
  entries, absorb, absorbed, scan_row, scan,
}
use session_flow.Sessions.Scan.First.{sorted_onto, add_all_first, add_all_first-take}

-- The least and the greatest of what is there.
module _ {A : Type 0} (o : Order A) where
  unfoldable pub least : List (Option A) → Option A
  least [] = none
  least (t ∷ l) = smaller o t (least l)

  unfoldable pub greatest : List (Option A) → Option A
  greatest [] = none
  greatest (t ∷ l) = greater o t (greatest l)

  smaller_assoc : (a b c : Option A) → smaller o (smaller o a b) c ≡ smaller o a (smaller o b c)
  smaller_assoc none b c = refl
  smaller_assoc (some a) none c = refl
  smaller_assoc (some a) (some b) none = ground arith
  smaller_assoc (some a) (some b) (some c) = ground (
    arith,
    o.lt_trans a b c,
    o.lt_trans c b a,
    o.lt_trans b a c,
    o.lt_trans c a b,
    o.lt_trans a c b,
    o.lt_trans b c a,
    o.lt_total a b,
    o.lt_total b c,
    o.lt_total a c,
    o.lt_irrefl a,
    o.lt_irrefl b,
    o.lt_irrefl c,
  )

  greater_assoc : (a b c : Option A) → greater o (greater o a b) c ≡ greater o a (greater o b c)
  greater_assoc none b c = refl
  greater_assoc (some a) none c = refl
  greater_assoc (some a) (some b) none = ground arith
  greater_assoc (some a) (some b) (some c) = ground (
    arith,
    o.lt_trans a b c,
    o.lt_trans c b a,
    o.lt_trans b a c,
    o.lt_trans c a b,
    o.lt_trans a c b,
    o.lt_trans b c a,
    o.lt_total a b,
    o.lt_total b c,
    o.lt_total a c,
    o.lt_irrefl a,
    o.lt_irrefl b,
    o.lt_irrefl c,
  )

abbrev pub is_of_session : {D : Type 0} → String × String → TurnRow D → Bool
is_of_session key r = not (r.session_id == "") && key_of r == key

module _ {D : Type 0} (texts : Order D) where
  -- The aggregate of a session from the one there is, if any, and its rows.
  unfoldable summary : Option (Aggregate D) → List (TurnRow D) → Option (Aggregate D)
  summary known [] = known
  summary known (r ∷ rows) = summary (some (absorbed texts known r)) rows

  lookup-scan_row_self :
      (r : TurnRow D) (d : Dict (String × String) (Aggregate D))
      → (r.session_id == "") ≡ false
      → Dict.lookup (key_of r) (scan_row texts r d)
        ≡ some (absorbed texts (Dict.lookup (key_of r) d) r)
  unfolding scan_row
  lookup-scan_row_self r d named = rw (named, scan_row) (lookup-insert_self (key_of r) _ d)

  lookup-scan_row_own :
      (key : String × String) (r : TurnRow D) (d : Dict (String × String) (Aggregate D))
      → is_of_session key r ≡ true
      → Dict.lookup key (scan_row texts r d) ≡ some (absorbed texts (Dict.lookup key d) r)
  lookup-scan_row_own key r d own = elim (pair_eq.dec (key_of r) key) [
    | no n ↦ absurd (ground (arith, own, n))
    | yes same ↦
        subst (λ k. Dict.lookup k (scan_row texts r d) ≡ some (absorbed texts (Dict.lookup k d) r))
          same (lookup-scan_row_self r d (ground (arith, own)))
  ]

  lookup-scan_row_other :
      (key : String × String) (r : TurnRow D) (d : Dict (String × String) (Aggregate D))
      → is_of_session key r ≡ false
      → Dict.lookup key (scan_row texts r d) ≡ Dict.lookup key d
  unfolding scan_row
  lookup-scan_row_other key r d other = elim (Bool-cases (r.session_id == "")) [
    | inl e ↦ rw (e, scan_row) refl
    | inr named ↦ elim (pair_eq.dec (key_of r) key) [
      | yes same ↦ absurd (ground (arith, other, named, same))
      | no n ↦ rw (named, scan_row) (lookup-insert_other key (key_of r) _ d (λ s. n (sym s)))
    ]
  ]

  lookup-scan :
      (key : String × String) (rows : List (TurnRow D)) (d : Dict (String × String) (Aggregate D))
      → Dict.lookup key (scan texts rows d)
        ≡ summary (Dict.lookup key d) (keep (is_of_session key) rows)
  unfolding scan summary
  lookup-scan key [] d = refl
  lookup-scan key (r ∷ rows) d =
      lookup-scan key rows (scan_row texts r d) ∙ elim (Bool-cases (is_of_session key r)) [
        | inl own ↦
            ap (λ o. summary o (keep (is_of_session key) rows)) (lookup-scan_row_own key r d own)
            ∙ ap (summary (Dict.lookup key d)) (sym (keep-cons_true (is_of_session key) r rows own))
        | inr other ↦
            ap (λ o. summary o (keep (is_of_session key) rows))
              (lookup-scan_row_other key r d other)
            ∙ ap (summary (Dict.lookup key d))
                (sym (keep-cons_false (is_of_session key) r rows other))
      ]

  -- What the fields of an aggregate come to over rows.
  record Sums (s : Aggregate D) (rows : List (TurnRow D)) (a : Aggregate D) : Type 0 where
    turns : a.turns ≡ s.turns + length rows
    project_root : a.project_root ≡ s.project_root
    branches :
        (b : String)
        → contains a.branches b ≡ (
            contains s.branches b
            || (not (b == "") && contains (map (λ (r : TurnRow D). r.git_branch) rows) b))
    min_ts :
        a.min_ts
        ≡ smaller text_order s.min_ts (least text_order (map (λ (r : TurnRow D). r.timestamp) rows))
    max_ts :
        a.max_ts
        ≡ greater text_order s.max_ts
            (greatest text_order (map (λ (r : TurnRow D). r.timestamp) rows))
    last_turn_index :
        a.last_turn_index
        ≡ greater nat_order s.last_turn_index
            (greatest nat_order (map (λ (r : TurnRow D). some r.turn_index) rows))
    first :
        a.first
        ≡ add_all_first
            (entries texts)
            session_title_candidates
            s.first
            (map (λ (r : TurnRow D). (r.turn_index, r.doc_id)) rows)

  contains-add_branch :
      (b branch : String) (branches : List String)
      → contains (add_branch branch branches) b
        ≡ (contains branches b || (not (b == "") && b == branch))
  contains-add_branch b branch branches = elim (string_eq.dec b branch) [
    | yes same ↦ rw same (ground (arith, contains-append branches (branch ∷ []) branch))
    | no n ↦ ground (arith, contains-append branches (branch ∷ []) b, n)
  ]

  summary-Sums :
      (s : Aggregate D) (rows : List (TurnRow D))
      → (a : Aggregate D) × ((summary (some s) rows ≡ some a) × Sums s rows a)
  unfolding summary absorbed absorb least greatest add_all_first
  summary-Sums s [] = (
    s,
    (
      refl,
      record {
        turns = omega arith;
        project_root = refl;
        branches = λ b. ground arith;
        min_ts = ground arith;
        max_ts = ground arith;
        last_turn_index = ground arith;
        first = refl;
      },
    ),
  )
  summary-Sums s (r ∷ rows) =
      let (a, (e, h)) = summary-Sums (absorb texts s r) rows in
      (
        a,
        (
          e,
          record {
            turns = omega (arith, h.turns);
            project_root = h.project_root;
            branches =
                λ b. ground (arith, h.branches b, contains-add_branch b r.git_branch s.branches);
            min_ts = h.min_ts ∙ smaller_assoc text_order s.min_ts r.timestamp _;
            max_ts = h.max_ts ∙ greater_assoc text_order s.max_ts r.timestamp _;
            last_turn_index =
                h.last_turn_index ∙ greater_assoc nat_order s.last_turn_index (some r.turn_index) _;
            first = h.first;
          },
        ),
      )

  -- The fields of the aggregate of some rows: their number, their branches, the least and the greatest
  -- stamp as texts, the last index, and the first eight entries by rising index.
  pub record Describes (rows : List (TurnRow D)) (a : Aggregate D) : Type 0 where
    pub turns : a.turns ≡ length rows
    pub branches :
        (b : String)
        → contains a.branches b
          ≡ (not (b == "") && contains (map (λ (r : TurnRow D). r.git_branch) rows) b)
    pub min_ts : a.min_ts ≡ least text_order (map (λ (r : TurnRow D). r.timestamp) rows)
    pub max_ts : a.max_ts ≡ greatest text_order (map (λ (r : TurnRow D). r.timestamp) rows)
    pub last_turn_index :
        a.last_turn_index ≡ greatest nat_order (map (λ (r : TurnRow D). some r.turn_index) rows)
    pub first :
        a.first
        ≡ take session_title_candidates (
            sorted_onto (entries texts) [] (map (λ (r : TurnRow D). (r.turn_index, r.doc_id)) rows))

  abbrev pub Described : List (TurnRow D) → Option (Aggregate D) → Type 0
  Described [] o = o ≡ none
  Described (r ∷ rows) o =
      (a : Aggregate D) × ((o ≡ some a)
        × ((a.project_root ≡ r.project_root) × Describes (r ∷ rows) a))

  summary-Described : (rows : List (TurnRow D)) → Described rows (summary none rows)
  unfolding summary absorbed
  summary-Described [] = refl
  summary-Described (r ∷ rows) =
      let (a, (e, h)) = summary-Sums (new_aggregate r) (r ∷ rows) in
      (
        a,
        (
          e,
          (
            h.project_root,
            record {
              turns = omega (arith, h.turns);
              branches = h.branches;
              min_ts = h.min_ts;
              max_ts = h.max_ts;
              last_turn_index = h.last_turn_index;
              first =
                  h.first
                  ∙ add_all_first-take (entries texts) session_title_candidates []
                      (map (λ (x : TurnRow D). (x.turn_index, x.doc_id)) (r ∷ rows)) (omega arith)
                      tt;
            },
          ),
        ),
      )

  -- In one pass over the rows of all sessions, every session and provider gets the aggregate of its own
  -- rows, wherever they stand among the others: how many they are, their branches, the least and the
  -- greatest of their stamps as texts, their last index, the root of the first, and the eight turns of the lowest indices as candidates for
  -- the title. A session without a row has none, and rows without a session are left out.
  pub scan-Described :
      (key : String × String) (rows : List (TurnRow D))
      → Described (keep (is_of_session key) rows) (Dict.lookup key (scan texts rows []))
  unfolding Dict.lookup
  scan-Described key rows =
      subst (Described (keep (is_of_session key) rows)) (sym (lookup-scan key rows []))
        (summary-Described (keep (is_of_session key) rows))
