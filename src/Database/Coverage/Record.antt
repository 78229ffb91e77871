-- ===== src/Database/Coverage/Record.antt =====
-- Recording a range: what is covered afterwards, that the rows stay apart, and what a failure leaves.
use mathlib.Core.Path.{subst}
use omacalendar.Base.{
  All-sort_by, All-sort_by_inv, Any-sort_by, sort_by, ℕ, ◌≤◌, ◌<◌, String, ◌≡◌, refl, ◌≢◌, ◌↔◌, ◌⊎◌,
  inl, inr, true, false, some, List, [], ◌∷◌, ◌++◌, arith, le_cases, lt_cases, All, Any, All-append,
  select, delete_where, All-select, All-delete_where, All-Any, Any-mono, All-zip, Any-select,
  All-select_inv, Any-delete_where, Any-delete_where_inv, Any-snoc, Any-snoc_left, Any-snoc_right,
  All-map, str_eq, str_eq_iff, is_empty,
}
use omacalendar.Database.{SyncCoverage, Store, ok, Sql}
use omacalendar.Database.Coverage.{
  starts_before, is_sync_range_covered, touches, loads, merged_bounds, merged_row, loaded_rows,
  remaining_rows, merge_sync_coverage_internal, record_sync_coverage,
}
use omacalendar.Database.Coverage.Ranges.{
  instant, IsProper, Contains, IsOf, Covers, IsApart, IsSeparated, any-Covers, Covers-any,
}
use omacalendar.Database.Coverage.Merge.{IsHull, merged_bounds-IsHull}

module _ (calendar_id : String) (rows : List SyncCoverage) (start end from to : ℕ)
    (sep : IsSeparated calendar_id rows) (lt : start < end)
    (hull : IsHull
      (sort_by starts_before (select (loads calendar_id (some start) (some end)) rows))
      start
      end
      from
      to) where
  -- A bound that is not the range's own is that of a loaded row.
  loaded :
      (R P : SyncCoverage → Type 0)
      → All R rows
      → Any P (sort_by starts_before (select (loads calendar_id (some start) (some end)) rows))
      → (q : SyncCoverage) × (IsProper q × R q)
        × (P q × (loads calendar_id (some start) (some end) q ≡ true))
  loaded R P h a =
      All-Any (λ q. IsProper q × R q)
        (λ q. P q × (loads calendar_id (some start) (some end) q ≡ true)) rows
        (All-zip IsProper R rows sep.0 h)
        (Any-select P (loads calendar_id (some start) (some end)) rows
          (Any-sort_by starts_before P (select (loads calendar_id (some start) (some end)) rows) a))

  -- The loaded rows lie inside of the merged range.
  inside :
      All
        (λ r.
          loads calendar_id (some start) (some end) r ≡ true
          → (from ≤ instant r.start_utc) × (instant r.end_utc ≤ to))
        rows
  inside =
      All-select_inv (λ r. (from ≤ instant r.start_utc) × (instant r.end_utc ≤ to))
        (loads calendar_id (some start) (some end)) rows
        (All-sort_by_inv starts_before
          (λ r. (from ≤ instant r.start_utc) × (instant r.end_utc ≤ to))
          (select (loads calendar_id (some start) (some end)) rows) hull.inside)

  -- An instant of the merged range outside of the recorded one was covered before.
  earlier : (t : ℕ) → from ≤ t → t < start → Covers calendar_id t rows
  earlier t f l = elim hull.from_is [
    | inl e ↦ absurd (omega arith)
    | inr a ↦
        Any-mono
          (λ q. (instant q.start_utc ≡ from) × (loads calendar_id (some start) (some end) q ≡ true))
          (λ q. IsOf calendar_id q × Contains t q) IsProper (λ q p h. ground arith) rows sep.0
          (Any-select (λ q. instant q.start_utc ≡ from) (loads calendar_id (some start) (some end))
            rows
            (Any-sort_by starts_before (λ q. instant q.start_utc ≡ from)
              (select (loads calendar_id (some start) (some end)) rows) a))
  ]

  later : (t : ℕ) → end ≤ t → t < to → Covers calendar_id t rows
  later t f l = elim hull.to_is [
    | inl e ↦ absurd (omega arith)
    | inr a ↦
        Any-mono
          (λ q. (instant q.end_utc ≡ to) × (loads calendar_id (some start) (some end) q ≡ true))
          (λ q. IsOf calendar_id q × Contains t q) IsProper (λ q p h. ground arith) rows sep.0
          (Any-select (λ q. instant q.end_utc ≡ to) (loads calendar_id (some start) (some end)) rows
            (Any-sort_by starts_before (λ q. instant q.end_utc ≡ to)
              (select (loads calendar_id (some start) (some end)) rows) a))
  ]

  -- Only rows that the recorded range meets are deleted: a row that meets the merged range alone would meet a
  -- loaded row, from which it stands apart.
  touched-loads :
      (r : SyncCoverage)
      → IsProper r
      → All (IsApart calendar_id r) rows
      → touches calendar_id (some from) (some to) r ≡ true
      → loads calendar_id (some start) (some end) r ≡ true
  touched-loads r p apart e = elim (le_cases start (instant r.end_utc)) [
    | inl a ↦ elim (le_cases (instant r.start_utc) end) [
      | inl b ↦ ground arith
      | inr b ↦ elim hull.to_is [
        | inl h ↦ ground arith
        | inr h ↦
            let (q, (pq, rq), (hq, lq)) =
              loaded (IsApart calendar_id r) (λ q. instant q.end_utc ≡ to) apart h in
            ground (arith, rq)
      ]
    ]
    | inr a ↦ elim hull.from_is [
      | inl h ↦ ground arith
      | inr h ↦
          let (q, (pq, rq), (hq, lq)) =
            loaded (IsApart calendar_id r) (λ q. instant q.start_utc ≡ from) apart h in
          ground (arith, rq)
    ]
  ]

  -- What the merge leaves, at any time `now` of writing.
  module _ (now : ℕ) (same : str_eq calendar_id calendar_id ≡ true) where
    abbrev new_row : SyncCoverage
    new_row = merged_row now calendar_id (some from, some to)

    abbrev kept : List SyncCoverage
    kept = delete_where (touches calendar_id (some from) (some to)) rows

    abbrev after : List SyncCoverage
    after = kept ++ new_row ∷ []

    after_sound :
        (t : ℕ) → Covers calendar_id t after → Covers calendar_id t rows ⊎ ((start ≤ t) × (t < end))
    after_sound t a = elim (Any-snoc (λ r. IsOf calendar_id r × Contains t r) kept new_row a) [
      | inl k ↦ inl (
          Any-delete_where_inv (λ r. IsOf calendar_id r × Contains t r)
            (touches calendar_id (some from) (some to)) rows k)
      | inr (o, (f, l)) ↦ elim (lt_cases t start) [
        | inl b ↦ inl (earlier t f b)
        | inr b ↦ elim (lt_cases t end) [ inl d ↦ inr (b, d) | inr d ↦ inl (later t d l) ]
      ]
    ]

    after_complete :
        (t : ℕ) → Covers calendar_id t rows ⊎ ((start ≤ t) × (t < end)) → Covers calendar_id t after
    after_complete t (inr b) =
        Any-snoc_right (λ r. IsOf calendar_id r × Contains t r) kept new_row
          (same, (omega (arith, hull.below), omega (arith, hull.above)))
    after_complete t (inl a) =
        elim (Any-delete_where (λ r. IsOf calendar_id r × Contains t r)
          (touches calendar_id (some from) (some to)) rows a) [
            | inl k ↦ Any-snoc_left (λ r. IsOf calendar_id r × Contains t r) kept new_row k
            | inr d ↦
                let (q, ((pq, aq), iq), ((oq, cq), tq)) =
                  All-Any
                    (λ r.
                      (IsProper r × All (IsApart calendar_id r) rows)
                      × (loads calendar_id (some start) (some end) r ≡ true
                          → (from ≤ instant r.start_utc) × (instant r.end_utc ≤ to)))
                    (λ r.
                      (IsOf calendar_id r × Contains t r)
                      × (touches calendar_id (some from) (some to) r ≡ true))
                    rows
                    (All-zip (λ r. IsProper r × All (IsApart calendar_id r) rows)
                      (λ r.
                        loads calendar_id (some start) (some end) r ≡ true
                        → (from ≤ instant r.start_utc) × (instant r.end_utc ≤ to))
                      rows
                      (All-zip IsProper (λ r. All (IsApart calendar_id r) rows) rows sep.0 sep.1)
                      inside)
                    d in
                let bounds = iq (touched-loads q pq aq tq) in
                Any-snoc_right (λ r. IsOf calendar_id r × Contains t r) kept new_row
                  (same, (omega (arith, bounds.0, cq.0), omega (arith, bounds.1, cq.1)))
          ]

    new-IsApart :
        (r : SyncCoverage)
        → IsProper r
        → touches calendar_id (some from) (some to) r ≡ false
        → IsApart calendar_id r new_row × IsApart calendar_id new_row r
    new-IsApart r p e = ((λ a b c d. ground arith), (λ a b c d. ground arith))

    new-IsProper : IsProper new_row
    new-IsProper = (refl, refl, omega (arith, hull.below, hull.above), refl)

    kept-IsApart : All (λ r. IsApart calendar_id r new_row × IsApart calendar_id new_row r) kept
    kept-IsApart =
        All-delete_where IsProper
          (λ r. IsApart calendar_id r new_row × IsApart calendar_id new_row r)
          (touches calendar_id (some from) (some to)) (λ r p e. new-IsApart r p e) rows sep.0

    after-IsSeparated : IsSeparated calendar_id after
    after-IsSeparated = (
      All-append IsProper kept (new_row ∷ [])
          (All-delete_where IsProper IsProper (touches calendar_id (some from) (some to))
            (λ r p e. p) rows sep.0)
          (new-IsProper, tt),
      All-append (λ r. All (IsApart calendar_id r) after) kept (new_row ∷ [])
          (All-map
            (λ r.
              All (IsApart calendar_id r) kept
              × (IsApart calendar_id r new_row × IsApart calendar_id new_row r))
            (λ r. All (IsApart calendar_id r) after)
            (λ r h. All-append (IsApart calendar_id r) kept (new_row ∷ []) h.0 (h.1.0, tt)) kept
            (All-zip (λ r. All (IsApart calendar_id r) kept)
              (λ r. IsApart calendar_id r new_row × IsApart calendar_id new_row r) kept
              (All-delete_where (λ r. All (IsApart calendar_id r) rows)
                (λ r. All (IsApart calendar_id r) kept) (touches calendar_id (some from) (some to))
                (λ r h e.
                  All-delete_where (IsApart calendar_id r) (IsApart calendar_id r)
                    (touches calendar_id (some from) (some to)) (λ q a e. a) rows h)
                rows sep.1)
              kept-IsApart))
          (
            All-append (IsApart calendar_id new_row) kept (new_row ∷ [])
                (All-map (λ r. IsApart calendar_id r new_row × IsApart calendar_id new_row r)
                  (IsApart calendar_id new_row) (λ r h. h.1) kept kept-IsApart)
                ((λ a b c d. (refl, refl)), tt),
            tt,
          ),
    )

-- Afterwards an instant is covered exactly when it was before or lies in the recorded range, and the rows
-- still stand apart.
abbrev pub IsRecorded : String → ℕ → ℕ → List SyncCoverage → List SyncCoverage → Type 0
IsRecorded calendar_id start end rows rows' =
    ((t : ℕ) → Covers calendar_id t rows' ↔ (Covers calendar_id t rows ⊎ ((start ≤ t) × (t < end))))
    × IsSeparated calendar_id rows'

merged-IsRecorded :
    (s : Store) (now : ℕ) (calendar_id : String) (start end : ℕ)
    → IsSeparated calendar_id s.sync_coverage
    → start < end
    → let bounds =
        merged_bounds (loaded_rows s calendar_id (some start) (some end)) (some start) (some end) in
      IsRecorded calendar_id start end s.sync_coverage
        (remaining_rows s calendar_id bounds ++ merged_row now calendar_id bounds ∷ [])
merged-IsRecorded s now calendar_id start end sep lt =
    let (from, to, e, hull) =
      merged_bounds-IsHull (loaded_rows s calendar_id (some start) (some end)) start end (
        All-sort_by starts_before IsProper
          (select (loads calendar_id (some start) (some end)) s.sync_coverage)
          (All-select IsProper IsProper (loads calendar_id (some start) (some end)) (λ r p e. p)
            s.sync_coverage sep.0)) in
    let same = (str_eq_iff calendar_id calendar_id).1 refl in
    rw e (
      (λ t. (
        after_sound calendar_id s.sync_coverage start end from to sep lt hull now same t,
        after_complete calendar_id s.sync_coverage start end from to sep lt hull now same t,
      )),
      after-IsSeparated calendar_id s.sync_coverage start end from to sep lt hull now same,
    )

record_ok :
    (sql : Sql) (s : Store) (now : ℕ) (calendar_id : String) (start end : ℕ)
    → let bounds =
        merged_bounds (loaded_rows s calendar_id (some start) (some end)) (some start) (some end) in
      let r = record_sync_coverage sql s now calendar_id (some start) (some end) in
      (r.1 ≡ ok tt
        → (start < end)
          × (remaining_rows s calendar_id bounds ++ merged_row now calendar_id bounds ∷ []
              ≡ r.0.sync_coverage))
      × (r.1 ≢ ok tt → r.0 ≡ s)
unfolding record_sync_coverage merge_sync_coverage_internal
record_ok sql s now calendar_id start end = ground arith

-- On proper rows that stand apart: a recording that succeeds leaves covered exactly what was covered before
-- and the recorded range, and rows that stand apart; one that fails, for its bounds or at any of its
-- statements, leaves the store as it was.
pub record_sync_coverage_lem :
    (sql : Sql) (s : Store) (now : ℕ) (calendar_id : String) (start end : ℕ)
    → IsSeparated calendar_id s.sync_coverage
    → let r = record_sync_coverage sql s now calendar_id (some start) (some end) in
      (r.1 ≡ ok tt → IsRecorded calendar_id start end s.sync_coverage r.0.sync_coverage)
      × (r.1 ≢ ok tt → r.0 ≡ s)
record_sync_coverage_lem sql s now calendar_id start end sep =
    let (done, undone) = record_ok sql s now calendar_id start end in
    (
      (λ e.
          let (lt, rows) = done e in
          subst (IsRecorded calendar_id start end s.sync_coverage) rows
            (merged-IsRecorded s now calendar_id start end sep lt)),
      undone,
    )

-- On proper rows that stand apart, for a range with valid bounds and a statement that runs: the query says
-- "covered" exactly when every instant of the range is.
pub is_sync_range_covered_iff :
    (s : Store) (calendar_id : String) (start end : ℕ)
    → IsSeparated calendar_id s.sync_coverage
    → is_empty calendar_id ≡ false
    → start < end
    → (is_sync_range_covered true s calendar_id (some start) (some end) ≡ ok true)
      ↔ ((t : ℕ) → start ≤ t → t < end → Covers calendar_id t s.sync_coverage)
unfolding is_sync_range_covered
is_sync_range_covered_iff s calendar_id start end sep n lt = (
  (λ e t a b. any-Covers calendar_id s.sync_coverage start end t sep.0 (ground arith) a b),
  (λ c. ground (arith, Covers-any calendar_id s.sync_coverage start end sep lt c)),
)
