-- ===== src/Sync/Coordinator/Backfill.antt =====
-- `SyncCoordinator::runOlderHistoryBackfill` of src/sync/synccoordinator.cpp: at each tick of a timer,
-- one year of older history of one calendar, in turn. `addYears(-1)` and the stamp of 1970 are
-- arguments.
use omacalendar.Base.{
  ℕ, zero, suc, ◌+◌, ◌%◌, String, not, ◌||◌, Option, none, some, List, [], ◌∷◌, if◌then◌else◌,
  length, Stamp, is_valid, stamp_le, stamp_lt,
}
use omacalendar.Database.{SyncCoverage, CalendarRow, AccountRow, Store, Result, ok, failed, Sql}
use omacalendar.Database.Coverage.{sync_coverage_of}
use omacalendar.Sync.Coordinator.{
  ProviderKind, unknown, RangeSyncRequest, Providers, find_account, all_calendars, kind_of,
  is_ranged, takes,
}

-- What the body of the loop does with a calendar: `continue`, `return`, or a request and `return`.
pub data Decision : Type 0 where
  skips ends : Decision
  schedules : RangeSyncRequest → Decision

abbrev pub later_of : Stamp → Stamp → Stamp
later_of a b = if stamp_lt a b then b else a

abbrev pub decide_range :
    (Stamp → Stamp) → Stamp → Providers → ProviderKind → String → Stamp → Decision
decide_range year_before floor ps kind id end =
    let request : RangeSyncRequest = record {
      calendar_id = id;
      start_utc = later_of (year_before end) floor;
      end_utc = end;
    } in
    if not (is_valid (year_before end)) || stamp_le end floor
    then skips
    else if takes ps kind request
    then schedules request
    else skips

abbrev pub decide_coverage :
    (Stamp → Stamp)
    → Stamp
    → Providers
    → ProviderKind
    → String
    → Result (List SyncCoverage)
    → Decision
decide_coverage year_before floor ps kind id (failed f) = ends
decide_coverage year_before floor ps kind id (ok []) = ends
decide_coverage year_before floor ps kind id (ok (r ∷ rs)) =
    decide_range year_before floor ps kind id r.start_utc

-- An account that is not found has no provider.
abbrev pub kind_found : Providers → Result AccountRow → ProviderKind
kind_found ps (failed f) = unknown
kind_found ps (ok a) = kind_of ps a

unfoldable pub decide : Sql → (Stamp → Stamp) → Stamp → Providers → Store → CalendarRow → Decision
unfolding sync_coverage_of
decide sql year_before floor ps s c =
    let kind = kind_found ps (find_account (sql 1) s c.account_id) in
    if not c.enabled || not (is_ranged kind)
    then skips
    else decide_coverage year_before floor ps kind c.id (sync_coverage_of (sql 2) s c.id)

-- `calendars.at(index)`; no calendar is outside of the list.
abbrev pub decide_at : (CalendarRow → Decision) → List CalendarRow → ℕ → Decision
decide_at decides [] index = ends
decide_at decides (c ∷ cs) zero = decides c
decide_at decides (c ∷ cs) (suc index) = decide_at decides cs index

-- The loop, from `checked` on: the index of the calendar that is scheduled.
unfoldable pub search : (ℕ → Decision) → ℕ → ℕ → ℕ → ℕ → Option (ℕ × RangeSyncRequest)
search decides n cursor zero checked = none
search decides n cursor (suc left) checked = elim (decides ((cursor + checked) % n)) [
  | skips ↦ search decides n cursor left (suc checked)
  | ends ↦ none
  | schedules request ↦ some ((cursor + checked) % n, request)
]

pub record Tick : Type 0 where
  pub cursor : ℕ
  pub scheduled : Option (ℕ × RangeSyncRequest)

abbrev pub advance : ℕ → ℕ → Option (ℕ × RangeSyncRequest) → Tick
advance n cursor none = record { cursor = cursor; scheduled = none }
advance n cursor (some (index, request)) = record {
  cursor = (index + 1) % n;
  scheduled = some (index, request);
}

-- A tick over `n` calendars.
unfoldable pub tick : (ℕ → Decision) → ℕ → ℕ → Tick
unfolding search
tick decides n cursor = advance n cursor (search decides n cursor n 0)

abbrev pub backfill_found : (CalendarRow → Decision) → ℕ → Result (List CalendarRow) → Tick
backfill_found decides cursor (failed f) = record { cursor = cursor; scheduled = none }
backfill_found decides cursor (ok calendars) =
    tick (decide_at decides calendars) (length calendars) cursor

unfoldable pub run_older_history_backfill :
    Sql → (Stamp → Stamp) → Stamp → Providers → Store → ℕ → Tick
unfolding decide tick
run_older_history_backfill sql year_before floor ps s cursor =
    backfill_found (decide sql year_before floor ps s) cursor (all_calendars (sql 0) ps s)
