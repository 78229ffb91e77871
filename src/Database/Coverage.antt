-- ===== src/Database/Coverage.antt =====
-- The ranges of a calendar that were synced completely: `syncCoverage`, `isSyncRangeCovered`,
-- `mergeSyncCoverageInternal` and `recordSyncCoverage` of src/core/database.cpp.
pub mod Ranges
pub mod Merge
pub mod Record
mod Tests
use omacalendar.Base.{
  sort_by, ℕ, ◌+◌, String, Bool, true, not, ◌&&◌, ◌||◌, some, List, [], ◌∷◌, ◌++◌, if◌then◌else◌,
  select, delete_where, any, str_eq, is_empty, Stamp, is_valid, stamp_le, stamp_lt, stamp_eq,
}
use omacalendar.Database.{
  SyncCoverage, Store, Failure, sql_error, rejected, Result, ok, failed, Sql, bump_change_revision,
}

abbrev pub in_calendar_rows : String → SyncCoverage → Bool
in_calendar_rows calendar_id r = str_eq r.calendar_id calendar_id

-- ORDER BY start_utc,end_utc.
abbrev pub starts_before : SyncCoverage → SyncCoverage → Bool
starts_before r q =
    stamp_lt r.start_utc q.start_utc
    || (stamp_eq r.start_utc q.start_utc && stamp_lt r.end_utc q.end_utc)

unfoldable pub sync_coverage_of : Bool → Store → String → Result (List SyncCoverage)
sync_coverage_of runs s calendar_id =
    if runs
    then ok (
        sort_by starts_before
          (select (λ r. in_calendar_rows calendar_id r && r.complete) s.sync_coverage))
    else failed (sql_error "list sync coverage")

-- The check that the functions begin with; its failure is `bad_bounds`.
abbrev pub has_bad_bounds : String → Stamp → Stamp → Bool
has_bad_bounds calendar_id start_utc end_utc =
    is_empty calendar_id
    || not (is_valid start_utc)
    || not (is_valid end_utc)
    || stamp_le end_utc start_utc

abbrev pub bad_bounds : Failure
bad_bounds = rejected "Sync coverage needs a calendar and valid bounds"

abbrev pub spans : String → Stamp → Stamp → SyncCoverage → Bool
spans calendar_id start_utc end_utc r =
    in_calendar_rows calendar_id r
    && r.complete
    && stamp_le r.start_utc start_utc
    && stamp_le end_utc r.end_utc

unfoldable pub is_sync_range_covered : Bool → Store → String → Stamp → Stamp → Result Bool
is_sync_range_covered runs s calendar_id start_utc end_utc =
    if has_bad_bounds calendar_id start_utc end_utc
    then failed bad_bounds
    else if runs
    then ok (any (spans calendar_id start_utc end_utc) s.sync_coverage)
    else failed (sql_error "check sync coverage")

-- The rows that the range meets or touches: those loaded are complete, those deleted need not be.
abbrev pub touches : String → Stamp → Stamp → SyncCoverage → Bool
touches calendar_id start_utc end_utc r =
    in_calendar_rows calendar_id r && stamp_le start_utc r.end_utc && stamp_le r.start_utc end_utc

abbrev pub loads : String → Stamp → Stamp → SyncCoverage → Bool
loads calendar_id start_utc end_utc r = touches calendar_id start_utc end_utc r && r.complete

-- The body of the loop over the loaded rows, and the loop.
abbrev pub widen_start : Stamp → Stamp → Stamp
widen_start existing merged =
    if is_valid existing && stamp_lt existing merged then existing else merged

abbrev pub widen_end : Stamp → Stamp → Stamp
widen_end existing merged =
    if is_valid existing && stamp_lt merged existing then existing else merged

pub merged_bounds : List SyncCoverage → Stamp → Stamp → Stamp × Stamp
merged_bounds [] start end = (start, end)
merged_bounds (r ∷ rs) start end =
    merged_bounds rs (widen_start r.start_utc start) (widen_end r.end_utc end)

abbrev pub merged_row : ℕ → String → Stamp × Stamp → SyncCoverage
merged_row now calendar_id (start, end) = record {
  calendar_id = calendar_id;
  start_utc = start;
  end_utc = end;
  complete = true;
  updated_at = some now;
}

abbrev pub set_coverage : List SyncCoverage → Store → Store
set_coverage rows s = record s { sync_coverage = rows }

abbrev pub loaded_rows : Store → String → Stamp → Stamp → List SyncCoverage
loaded_rows s calendar_id start_utc end_utc =
    sort_by starts_before (select (loads calendar_id start_utc end_utc) s.sync_coverage)

abbrev pub remaining_rows : Store → String → Stamp × Stamp → List SyncCoverage
remaining_rows s calendar_id (start, end) =
    delete_where (touches calendar_id start end) s.sync_coverage

-- Statements k, k + 1 and k + 2 load, delete and insert; the state of the last statement that
-- ran is left.
unfoldable pub merge_sync_coverage_internal :
    Sql → ℕ → Store → ℕ → String → Stamp → Stamp → Store × Result (Unit {0})
merge_sync_coverage_internal sql k s now calendar_id start_utc end_utc =
    let bounds = merged_bounds (loaded_rows s calendar_id start_utc end_utc) start_utc end_utc in
    if has_bad_bounds calendar_id start_utc end_utc
    then (s, failed bad_bounds)
    else if not (sql k)
    then (s, failed (sql_error "load overlapping coverage"))
    else if not (sql (k + 1))
    then (s, failed (sql_error "merge overlapping coverage"))
    else if not (sql (k + 2))
    then (
      set_coverage (remaining_rows s calendar_id bounds) s,
      failed (sql_error "record sync coverage"),
    )
    else (
      set_coverage (remaining_rows s calendar_id bounds ++ merged_row now calendar_id bounds ∷ [])
          s,
      ok tt,
    )

-- Statement 0 opens the savepoint, 1 to 3 merge, 4 advances the revision and 5 commits; a failure
-- after 0 goes back to the savepoint.
unfoldable pub record_sync_coverage :
    Sql → Store → ℕ → String → Stamp → Stamp → Store × Result (Unit {0})
unfolding bump_change_revision
record_sync_coverage sql s now calendar_id start_utc end_utc =
    if not (sql 0)
    then (s, failed (sql_error "start coverage update"))
    else let (merged, r) = merge_sync_coverage_internal sql 1 s now calendar_id start_utc end_utc in
      elim r [
        | failed e ↦ (s, failed e)
        | ok u ↦
            if not (sql 4)
            then (s, failed (sql_error "advance change revision"))
            else if not (sql 5)
            then (s, failed (sql_error "commit coverage update"))
            else bump_change_revision true tt merged
      ]
