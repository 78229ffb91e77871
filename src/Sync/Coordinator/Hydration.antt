-- ===== src/Sync/Coordinator/Hydration.antt =====
-- `SyncCoordinator::ensureRangeHydrated` of src/sync/synccoordinator.cpp: the calendars whose copy does
-- not cover a range, and the requests for it.
use omacalendar.Base.{
  ℕ, suc, ◌-◌, ◌*◌, ◌/◌, String, Bool, true, false, not, ◌||◌, Option, none, some, List, [], ◌∷◌,
  ◌++◌, ltb, if◌then◌else◌, any, Stamp, is_valid, stamp_le,
}
use omacalendar.Database.{
  CalendarRow, AccountRow, Store, Failure, rejected, Result, ok, failed, and_then, Sql,
}
use omacalendar.Database.Coverage.{is_sync_range_covered}
use omacalendar.Sync.Coordinator.{
  ProviderKind, RangeSyncRequest, Providers, find_account, find_calendar, all_calendars, kind_of,
  is_ranged, takes,
}

pub record Hydration : Type 0 where
  pub complete : Bool
  pub hydration_scheduled : Bool
  pub range_too_large : Bool
  pub uncovered : List String
  pub requests : List RangeSyncRequest
  pub error : Option Failure

-- Which statements run: the list of the calendars, the k-th calendar of those asked for, and the k-th
-- account and range of the loop.
pub record Reads : Type 0 where
  pub list : Bool
  pub calendar : Sql
  pub account : Sql
  pub covered : Sql

abbrev pub refused : Option Failure → Hydration
refused error = record {
  complete = false;
  hydration_scheduled = false;
  range_too_large = false;
  uncovered = [];
  requests = [];
  error = error;
}

abbrev pub nothing_yet : Hydration
nothing_yet = refused none

-- `QDateTime::daysTo` of two times in UTC; the origin of a stamp is a midnight.
abbrev pub days_to : Stamp → Stamp → ℕ
days_to (some t) (some u) = u / 86400000 - t / 86400000
days_to _ _ = 0

-- The loop over the ids that were asked for.
abbrev pub find_calendars : Sql → Store → ℕ → List String → Result (List CalendarRow)
find_calendars sql s k [] = ok []
find_calendars sql s k (id ∷ ids) =
    and_then (find_calendar (sql k) s id)
      (λ c. and_then (find_calendars sql s (suc k) ids) (λ cs. ok (c ∷ cs)))

abbrev pub calendars_asked : Reads → Providers → Store → List String → Result (List CalendarRow)
calendars_asked reads ps s [] = all_calendars reads.list ps s
calendars_asked reads ps s (id ∷ ids) = find_calendars reads.calendar s 0 (id ∷ ids)

-- How the body of the loop over the calendars ends: with `continue` or at its end, or with `break`.
pub data Step : Type 0 where
  continues breaks : Hydration → Step

-- The rest of the loop after a step.
abbrev pub run_step : Step → (Hydration → Hydration) → Hydration
run_step (continues h) rest = rest h
run_step (breaks h) rest = h

abbrev pub breaks_with : Failure → Hydration → Step
breaks_with f h = breaks (record h { error = some f })

abbrev pub add_uncovered : Bool → RangeSyncRequest → Hydration → Hydration
add_uncovered taken request h = record h {
  uncovered = h.uncovered ++ request.calendar_id ∷ [];
  requests = if taken then h.requests ++ request ∷ [] else h.requests;
  hydration_scheduled = taken || h.hydration_scheduled;
}

module _ (reads : Reads) (ps : Providers) (s : Store) (start end : Stamp) where
  unfoldable pub check_coverage : Result Bool → ProviderKind → CalendarRow → Hydration → Step
  check_coverage (failed f) kind c h = breaks_with f h
  check_coverage (ok true) kind c h = continues h
  check_coverage (ok false) kind c h =
      let request : RangeSyncRequest = record {
        calendar_id = c.id;
        start_utc = start;
        end_utc = end;
      } in
      continues (add_uncovered (takes ps kind request) request h)

  unfoldable pub check_account : ℕ → Result AccountRow → CalendarRow → Hydration → Step
  unfolding check_coverage
  check_account k (failed f) c h = breaks_with f h
  check_account k (ok a) c h =
      if is_ranged (kind_of ps a)
      then check_coverage (is_sync_range_covered (reads.covered k) s c.id start end) (kind_of ps a)
          c h
      else continues h

  unfoldable pub hydrate_calendar : ℕ → CalendarRow → Hydration → Step
  unfolding check_account
  hydrate_calendar k c h =
      if c.enabled
      then check_account k (find_account (reads.account k) s c.account_id) c h
      else continues h

  unfoldable pub hydrate_all : ℕ → List CalendarRow → Hydration → Hydration
  unfolding hydrate_calendar
  hydrate_all k [] h = h
  hydrate_all k (c ∷ cs) h = run_step (hydrate_calendar k c h) (λ h'. hydrate_all (suc k) cs h')

  unfoldable pub hydrate_found : Result (List CalendarRow) → Hydration
  unfolding hydrate_all
  hydrate_found (failed f) = refused (some f)
  hydrate_found (ok calendars) =
      let h = hydrate_all 0 calendars nothing_yet in
      record h { complete = not (any (λ id. true) h.uncovered) }

  unfoldable pub ensure_range_hydrated : List String → Hydration
  unfolding hydrate_found
  ensure_range_hydrated ids =
      if not (is_valid start) || not (is_valid end) || stamp_le end start
      then refused (some (rejected "Range hydration needs valid UTC bounds"))
      else if ltb (5 * 366) (days_to start end)
      then record (refused none) { range_too_large = true }
      else hydrate_found (calendars_asked reads ps s ids)
