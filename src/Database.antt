-- ===== src/Database.antt =====
-- The store of src/core/database.h and database.cpp: a table is a list of rows, a column that holds a
-- time is a `Stamp`, and a statement is a function on the store. SQLite itself is not modelled:
-- whether the k-th statement that an operation executes runs is an argument of the operation. A
-- statement that does not run changes nothing. Of a row only the columns are kept that a modelled
-- statement reads or writes.
pub mod Reminders
pub mod Notifications
pub mod Coverage
pub mod Tasks
pub mod Outbox
pub mod Transactions
use omacalendar.Base.Int.{ℤ}
use omacalendar.Base.{
  ℕ, suc, String, Bool, true, false, Option, none, List, [], if◌then◌else◌, Stamp,
}

pub data ReminderState : Type 0 where
  pending snoozed claimed delivered dismissed : ReminderState

-- A row of `reminder_jobs`.
pub record ReminderJob : Type 0 where
  pub id : ℕ
  pub event_id : String
  pub occurrence_id : String
  pub fingerprint : String
  pub fire_at : Stamp
  pub snoozed_until : Stamp
  pub state : ReminderState
  pub claimed_at : Stamp
  pub claim_token : String
  pub lease_expires_at : Stamp
  pub delivered_at : Stamp

pub data DeliveryState : Type 0 where
  claimed delivered retry_pending : DeliveryState

-- A row of `notification_deliveries`; its key is the fingerprint.
pub record NotificationDelivery : Type 0 where
  pub fingerprint : String
  pub kind : String
  pub event_id : String
  pub event_revision : ℕ
  pub state : DeliveryState
  pub claimed_at : Stamp
  pub delivered_at : Stamp

-- A row of `sync_coverage`.
pub record SyncCoverage : Type 0 where
  pub calendar_id : String
  pub start_utc : Stamp
  pub end_utc : Stamp
  pub complete : Bool
  pub updated_at : Stamp

-- The rows of `events`, `calendars` and `event_instances`, of which the columns are kept that a
-- modelled statement reads or writes. A date column is a day number, or empty.
pub record EventRow : Type 0 where
  pub id : String
  pub calendar_id : String
  pub uid : String
  pub recurrence_id : String
  pub remote_id : String
  pub etag : String
  pub raw_payload : String
  pub raw_format : String
  pub dirty : Bool
  pub deleted : Bool
  pub sync_state : String
  pub status : String
  pub local_revision : ℕ
  pub created_at : Stamp
  pub updated_at : Stamp

abbrev pub empty_event : EventRow
empty_event = record {
  id = "";
  calendar_id = "";
  uid = "";
  recurrence_id = "";
  remote_id = "";
  etag = "";
  raw_payload = "";
  raw_format = "";
  dirty = false;
  deleted = false;
  sync_state = "clean";
  status = "";
  local_revision = 0;
  created_at = none;
  updated_at = none;
}

pub record CalendarRow : Type 0 where
  pub id : String
  pub account_id : String
  pub enabled : Bool
  pub ignore_alerts : Bool

pub record EventInstance : Type 0 where
  pub event_id : String
  pub recurrence_id : String
  pub start_utc : Stamp
  pub start_date : Option ℕ

pub data PendingOperation : Type 0 where
  no_operation create update remove : PendingOperation

-- A row of `tasks`, and the struct `Task` of src/core/tasks.h, which has the same fields.
pub record Task : Type 0 where
  pub id : String
  pub list_id : String
  pub remote_id : String
  pub uid : String
  pub etag : String
  pub title : String
  pub notes : String
  pub due_date : Option ℕ
  pub due_utc : Stamp
  pub completed : Bool
  pub completed_at : Stamp
  pub priority : ℤ
  pub parent_id : String
  pub position : String
  pub raw_payload : String
  pub raw_format : String
  pub dirty : Bool
  pub deleted : Bool
  pub pending_operation : PendingOperation
  pub local_revision : ℕ
  pub created_at : Stamp
  pub updated_at : Stamp

-- A row of `task_lists`, and the struct `TaskList`. The members of `capabilities` are kept as pairs
-- of a key and a text.
pub record TaskList : Type 0 where
  pub id : String
  pub account_id : String
  pub remote_id : String
  pub name : String
  pub color : String
  pub read_only : Bool
  pub enabled : Bool
  pub position : ℤ
  pub sync_token : String
  pub capabilities : List (String × String)
  pub last_sync_at : Stamp

pub record AccountRow : Type 0 where
  pub id : String
  pub provider : String

pub data OutboxOperation : Type 0 where
  create update move remove : OutboxOperation

pub data OutboxState : Type 0 where
  pending sending retry_wait blocked done : OutboxState

-- A row of `outbox`. The dependency is the id of a row, whose text the column holds, or empty.
pub record OutboxItem : Type 0 where
  pub id : ℕ
  pub account_id : String
  pub calendar_id : String
  pub event_id : String
  pub operation : OutboxOperation
  pub state : OutboxState
  pub dependency_id : Option ℕ
  pub expected_revision : String
  pub recurrence_scope : String
  pub payload_json : String
  pub attempts : ℕ
  pub next_attempt_at : Stamp
  pub not_before : Stamp
  pub lease_until : Stamp
  pub error_code : String
  pub error_message : String
  pub updated_at : Stamp

pub record Store : Type 0 where
  pub accounts : List AccountRow
  pub task_lists : List TaskList
  pub tasks : List Task
  pub reminder_jobs : List ReminderJob
  pub notification_deliveries : List NotificationDelivery
  pub sync_coverage : List SyncCoverage
  pub events : List EventRow
  pub calendars : List CalendarRow
  pub event_instances : List EventInstance
  pub outbox : List OutboxItem
  pub change_revision : ℕ

abbrev pub empty_store : Store
empty_store = record {
  accounts = [];
  task_lists = [];
  tasks = [];
  reminder_jobs = [];
  notification_deliveries = [];
  sync_coverage = [];
  events = [];
  calendars = [];
  event_instances = [];
  outbox = [];
  change_revision = 0;
}

-- Why an operation returns false: the statement with this context did not run, or the input or the
-- state was refused with this message.
pub data Failure : Type 0 where
  sql_error rejected : String → Failure

pub data Result {ℓ} (A : Type ℓ) : Type ℓ where
  ok : A → Result A
  failed : Failure → Result A

-- What follows a step that succeeds.
abbrev pub and_then {ℓ κ} : {A : Type ℓ} {B : Type κ} → Result A → (A → Result B) → Result B
and_then (ok a) next = next a
and_then (failed f) next = failed f

-- A statement, with the context of its error.
abbrev pub statement : Bool → String → Store → Result Store
statement true text s = ok s
statement false text s = failed (sql_error text)

-- A transaction or a savepoint around the steps: what they changed is rolled back if one fails.
abbrev pub atomically : Store → Result Store → Store × Result (Unit {0})
atomically s (ok s') = (s', ok tt)
atomically s (failed f) = (s, failed f)

-- Whether the k-th statement of an operation runs.
abbrev pub Sql : Type 0
Sql = ℕ → Bool

-- `bumpChangeRevision`. A missing row counts as 0.
unfoldable pub bump_change_revision {ℓ} : {A : Type ℓ} → Bool → A → Store → Store × Result A
bump_change_revision true a s = (record s { change_revision = suc s.change_revision }, ok a)
bump_change_revision false a s = (s, failed (sql_error "advance change revision"))

-- `!changed || bumpChangeRevision(...)`.
unfoldable pub bump_if_changed {ℓ} : {A : Type ℓ} → Bool → Bool → A → Store → Store × Result A
unfolding bump_change_revision
bump_if_changed changed runs a s = if changed then bump_change_revision runs a s else (s, ok a)
