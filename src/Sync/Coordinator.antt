-- ===== src/Sync/Coordinator.antt =====
-- `SyncCoordinator` of src/sync/synccoordinator.cpp: which provider serves an account, the hydration of
-- a range that a client looks at, and the backfill of older history. A provider is known by its kind;
-- whether its `syncRange` accepts a request is an argument, and so are the calendar arithmetic of
-- QDateTime and the collation by which SQLite orders calendars.
pub mod Hydration
pub mod Covered
pub mod Backfill
pub mod Rounds
pub mod Fair
mod Tests
use omacalendar.Base.{
  sort_by, String, Bool, true, false, not, Option, none, some, List, if◌then◌else◌, select, first,
  str_eq, Stamp,
}
use omacalendar.Database.{
  CalendarRow, AccountRow, Store, sql_error, rejected, Result, ok, failed, and_then, Sql,
}

pub data ProviderKind : Type 0 where
  local caldav google ics unknown : ProviderKind

-- `QString::compare` with Qt::CaseInsensitive is the first argument.
abbrev pub provider_kind_from_string : (String → String → Bool) → String → ProviderKind
provider_kind_from_string same value =
    if same value "local"
    then local
    else if same value "caldav"
    then caldav
    else if same value "google"
    then google
    else if same value "ics"
    then ics
    else unknown

abbrev pub same_kind : ProviderKind → ProviderKind → Bool
same_kind local local = true
same_kind caldav caldav = true
same_kind google google = true
same_kind ics ics = true
same_kind unknown unknown = true
same_kind _ _ = false

-- `m_providers`, without the null pointers.
abbrev pub provider_for_kind : List ProviderKind → ProviderKind → Option ProviderKind
provider_for_kind providers kind = first (select (λ p. same_kind p kind) providers)

pub record RangeSyncRequest : Type 0 where
  pub calendar_id : String
  pub start_utc : Stamp
  pub end_utc : Stamp

-- What is outside: the kinds of the providers that there are, and what they accept.
pub record Providers : Type 0 where
  pub kinds : List ProviderKind
  pub same_text : String → String → Bool
  pub accepts : ProviderKind → RangeSyncRequest → Bool
  pub calendars_before : CalendarRow → CalendarRow → Bool

abbrev pub find_account : Bool → Store → String → Result AccountRow
find_account runs s id =
    if runs
    then (elim (first (select (λ (a : AccountRow). str_eq a.id id) s.accounts)) [
      | none ↦ failed (rejected "Account not found")
      | some a ↦ ok a
    ])
    else failed (sql_error "get account")

abbrev pub find_calendar : Bool → Store → String → Result CalendarRow
find_calendar runs s id =
    if runs
    then (elim (first (select (λ (c : CalendarRow). str_eq c.id id) s.calendars)) [
      | none ↦ failed (rejected "Calendar not found")
      | some c ↦ ok c
    ])
    else failed (sql_error "get calendar")

-- `calendars({})`.
abbrev pub all_calendars : Bool → Providers → Store → Result (List CalendarRow)
all_calendars runs ps s =
    if runs
    then ok (sort_by ps.calendars_before s.calendars)
    else failed (sql_error "list calendars")

abbrev pub kind_of : Providers → AccountRow → ProviderKind
kind_of ps a = provider_kind_from_string ps.same_text a.provider

-- The providers that can be asked for a range.
abbrev pub is_ranged : ProviderKind → Bool
is_ranged google = true
is_ranged caldav = true
is_ranged _ = false

abbrev pub takes : Providers → ProviderKind → RangeSyncRequest → Bool
takes ps kind request = elim (provider_for_kind ps.kinds kind) [
  | none ↦ false
  | some p ↦ ps.accepts p request
]

-- `syncAccount` and `syncCalendar`: the provider that is asked to synchronise the account.
unfoldable pub sync_account : Sql → Providers → Store → String → Result (ProviderKind × String)
sync_account sql ps s account_id = and_then (find_account (sql 0) s account_id) (λ a.
    elim (provider_for_kind ps.kinds (kind_of ps a)) [
      | none ↦ failed (rejected "Unsupported account provider")
      | some p ↦ ok (p, account_id)
    ])

unfoldable pub sync_calendar : Sql → Providers → Store → String → Result (ProviderKind × String)
unfolding sync_account
sync_calendar sql ps s calendar_id =
    and_then (find_calendar (sql 1) s calendar_id) (λ c. sync_account sql ps s c.account_id)
