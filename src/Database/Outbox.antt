-- ===== src/Database/Outbox.antt =====
-- The queue of mutations that are owed to a provider: `readyOutbox`, `outboxItems`,
-- `recoverExpiredOutbox`, `updateOutboxState`, `completeOutbox` and `discardOutbox` of
-- src/core/database.cpp. The columns of an event's recurrence bounds are left out.
pub mod Complete
pub mod Discard
pub mod Ready
pub mod Leases
pub mod Rows
pub mod Finish
pub mod Steps
mod Tests
use omacalendar.Base.{
  sort_by, ℕ, suc, ◌+◌, ◌*◌, min, max, String, ◌≡◌, Bool, true, false, not, ◌&&◌, ◌||◌, Option,
  none, some, List, ltb, ◌==◌, if◌then◌else◌, take, select, update_where, any, first, str_eq,
  is_empty, Stamp, stamp_le,
}
use omacalendar.Database.{
  pending, EventRow, update, remove, OutboxOperation, OutboxState, sending, retry_wait, done,
  OutboxItem, Store, sql_error, rejected, Result, ok, failed, statement, Sql, bump_change_revision,
  bump_if_changed,
}

abbrev pub is_waiting : OutboxState → Bool
is_waiting pending = true
is_waiting retry_wait = true
is_waiting _ = false

abbrev pub is_sending : OutboxState → Bool
is_sending sending = true
is_sending _ = false

abbrev pub is_remove : OutboxOperation → Bool
is_remove remove = true
is_remove _ = false

abbrev pub is_done : OutboxState → Bool
is_done done = true
is_done _ = false

-- A row that stands between another and its turn: it has the id that the other depends on, and is not
-- done.
abbrev pub holds_up : ℕ → OutboxItem → Bool
holds_up dependency r = (r.id == dependency) && not (is_done r.state)

abbrev pub is_held_up : List OutboxItem → Option ℕ → Bool
is_held_up rows none = false
is_held_up rows (some dependency) = any (holds_up dependency) rows

unfoldable pub is_ready : List OutboxItem → Stamp → OutboxItem → Bool
is_ready rows now item =
    is_waiting item.state
    && stamp_le item.next_attempt_at now
    && stamp_le item.not_before now
    && not (is_held_up rows item.dependency_id)

-- `qBound(1, limit, 1000)`.
abbrev pub page : ℕ → ℕ
page limit = max 1 (min limit 1000)

abbrev pub comes_before : OutboxItem → OutboxItem → Bool
comes_before r q = ltb r.id q.id

unfoldable pub ready_outbox : Bool → Store → Stamp → ℕ → Result (List OutboxItem)
unfolding is_ready
ready_outbox runs s now limit =
    if runs
    then ok (take (page limit) (sort_by comes_before (select (is_ready s.outbox now) s.outbox)))
    else failed (sql_error "list outbox")

unfoldable pub outbox_items : Bool → Store → ℕ → Result (List OutboxItem)
outbox_items runs s limit =
    if runs
    then ok (take (page limit) (sort_by (λ r q. comes_before q r) s.outbox))
    else failed (sql_error "list operations")

abbrev pub recover_item : Stamp → OutboxItem → OutboxItem
recover_item now r = record r {
  state = pending;
  lease_until = none;
  next_attempt_at = now;
  error_code = "recovered_after_restart";
  error_message = "Recovered an interrupted send lease";
  updated_at = now;
}

unfoldable pub recover_expired_outbox : Sql → Store → Stamp → Store × Result (Unit {0})
unfolding bump_if_changed
recover_expired_outbox sql s now =
    if sql 0
    then bump_if_changed (any (λ r. is_sending r.state) s.outbox) (sql 1) tt
        (record s { outbox = update_where (λ r. is_sending r.state) (recover_item now) s.outbox })
    else (s, failed (sql_error "recover mutation leases"))

-- `addSecs` on a time.
abbrev pub add_secs : ℕ → Stamp → Stamp
add_secs n none = none
add_secs n (some t) = some (t + n * 1000)

-- What a caller of `updateOutboxState` asks for; `message` is cut to 512 characters.
pub record Change : Type 0 where
  pub state : OutboxState
  pub attempts : ℕ
  pub next_attempt_at : Stamp
  pub error_code : String
  pub error_message : String

abbrev pub change_item : (String → String) → Change → Stamp → OutboxItem → OutboxItem
change_item left512 c now r = record r {
  state = c.state;
  attempts = c.attempts;
  next_attempt_at = c.next_attempt_at;
  lease_until = if is_sending c.state then add_secs 120 now else none;
  error_code = c.error_code;
  error_message = left512 c.error_message;
  updated_at = now;
}

abbrev pub has_id : ℕ → OutboxItem → Bool
has_id id r = r.id == id

unfoldable pub update_outbox_state :
    (String → String) → Sql → Store → ℕ → Change → Stamp → Store × Result (Unit {0})
unfolding bump_change_revision
update_outbox_state left512 sql s id c now =
    if sql 0
    then (if any (has_id id) s.outbox
        then bump_change_revision (sql 1) tt
            (record s { outbox = update_where (has_id id) (change_item left512 c now) s.outbox })
        else (s, failed (rejected "")))
    else (s, failed (sql_error "update outbox"))

-- The last statement of both transactions.
abbrev pub bump : Bool → Store → Result Store
bump runs s =
    statement runs "advance change revision" (record s { change_revision = suc s.change_revision })

abbrev pub find_item : ℕ → List OutboxItem → Option OutboxItem
find_item id rows = first (select (has_id id) rows)

abbrev pub has_event_id : String → EventRow → Bool
has_event_id id e = str_eq e.id id

abbrev pub find_event : String → List EventRow → Option EventRow
find_event id rows = first (select (has_event_id id) rows)

-- `hasPendingSeriesRemoval`.
abbrev pub removes_series : List EventRow → String → String → OutboxItem → Bool
removes_series events calendar_id uid o =
    is_remove o.operation
    && str_eq o.recurrence_scope "series"
    && not (is_done o.state)
    && any
        (λ (master : EventRow).
          str_eq master.id o.event_id
          && str_eq master.calendar_id calendar_id
          && str_eq master.uid uid
          && is_empty master.recurrence_id)
        events

unfoldable pub has_pending_series_removal : Bool → Store → String → String → Result Bool
has_pending_series_removal runs s calendar_id uid =
    if is_empty calendar_id || is_empty uid
    then ok false
    else if runs
    then ok (any (removes_series s.events calendar_id uid) s.outbox)
    else failed (sql_error "inspect pending series removal")

-- What these operations use of `upsertEventRecord`, `removeOrphanedProviderResources` and
-- `eventFromJson`: none of them writes to the outbox or to the revision.
pub record EventWriter : Type 0 where
  pub source_event : String → EventRow
  pub upsert : EventRow → Store → Result Store
  pub remove_orphans : String → Store → Result Store
  pub outbox-upsert : (e : EventRow) (s s' : Store) → upsert e s ≡ ok s' → s'.outbox ≡ s.outbox
  pub outbox-remove_orphans :
      (calendar : String) (s s' : Store) → remove_orphans calendar s ≡ ok s' → s'.outbox ≡ s.outbox
