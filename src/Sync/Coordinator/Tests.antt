-- ===== src/Sync/Coordinator/Tests.antt =====
-- Two calendars of a provider, one of which is covered.
use omacalendar.Base.{
  sort_by, String, ◌≡◌, refl, true, false, none, some, [], ◌∷◌, arith, All, Any, str_eq, str_lt,
}
use omacalendar.Database.{SyncCoverage, CalendarRow, Store, empty_store, Sql}
use omacalendar.Database.Coverage.{sync_coverage_of, is_sync_range_covered}
use omacalendar.Sync.Coordinator.{google, Providers}
use omacalendar.Sync.Coordinator.Hydration.{Reads, ensure_range_hydrated}
use omacalendar.Sync.Coordinator.Covered.{IsCovered, ensure_range_hydrated-IsCovered}
use omacalendar.Sync.Coordinator.Backfill.{decide, run_older_history_backfill}
use omacalendar.Sync.Coordinator.Rounds.{IsAt}
use omacalendar.Sync.Coordinator.Fair.{Moment, backfills, backfills-Any}

abbrev runs : Sql
runs k = true

abbrev reads : Reads
reads = record { list = true; calendar = runs; account = runs; covered = runs }

abbrev providers : Providers
providers = record {
  kinds = google ∷ [];
  same_text = str_eq;
  accepts = λ p q. true;
  calendars_before = λ c d. str_lt c.id d.id;
}

abbrev calendar : String → CalendarRow
calendar id = record { id = id; account_id = "a"; enabled = true; ignore_alerts = false }

abbrev covered : String → SyncCoverage
covered id = record {
  calendar_id = id;
  start_utc = some 1000;
  end_utc = some 9000;
  complete = true;
  updated_at = none;
}

abbrev store : Store
store = record empty_store {
  accounts = record { id = "a"; provider = "google" } ∷ [];
  calendars = calendar "home" ∷ calendar "work" ∷ [];
  sync_coverage = covered "home" ∷ [];
}

ensure_range_hydrated-IsCovered_example :
    All (IsCovered reads providers store (some 2000) (some 3000)) (calendar "home" ∷ [])
unfolding ensure_range_hydrated is_sync_range_covered
ensure_range_hydrated-IsCovered_example =
    ensure_range_hydrated-IsCovered reads providers store (some 2000) (some 3000) ("home" ∷ [])
      (calendar "home" ∷ []) refl refl refl

uncovered_test :
    (ensure_range_hydrated reads providers store (some 2000) (some 3000) []).uncovered ≡ "work" ∷ []
unfolding ensure_range_hydrated is_sync_range_covered sort_by
uncovered_test = refl

-- The first statement on the coverage fails: nothing is found uncovered, and the answer is complete.
failed_read_test :
    (ensure_range_hydrated
      (record reads { covered = λ k. false })
      providers
      store
      (some 2000)
      (some 3000)
      []).complete
    ≡ true
unfolding ensure_range_hydrated is_sync_range_covered sort_by
failed_read_test = refl

-- Both calendars have coverage. The first is asked for at the first tick.
abbrev both : Store
both = record store { sync_coverage = covered "home" ∷ covered "work" ∷ [] }

abbrev moment : Moment
moment = record { sql = runs; store = both }

backfills-Any_example :
    Any
      (λ t. IsAt 1 t.scheduled)
      (backfills (λ e. some 500) (some 0) providers (moment ∷ moment ∷ []) 0)
unfolding decide sync_coverage_of sort_by
backfills-Any_example =
    backfills-Any (λ e. some 500) (some 0) providers (calendar "home" ∷ calendar "work" ∷ []) 1 0
      (moment ∷ moment ∷ []) (omega arith) (omega arith) (omega arith)
      ((refl, tt, ((λ e. cc), ((λ e. cc), tt))), ((refl, tt, ((λ e. cc), ((λ e. cc), tt))), tt))

backfill_test :
    (run_older_history_backfill runs (λ e. some 500) (some 0) providers store 0).scheduled
    ≡ some (0, record { calendar_id = "home"; start_utc = some 500; end_utc = some 1000 })
unfolding run_older_history_backfill sync_coverage_of sort_by
backfill_test = refl
