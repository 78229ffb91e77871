-- ===== src/Database/Outbox/Complete.antt =====
-- `Database::completeOutboxInternal` of src/core/database.cpp: a mutation that the provider has
-- acknowledged.
use omacalendar.Base.{
  ℕ, String, Bool, true, false, not, ◌&&◌, Option, none, some, List, map, ◌==◌, if◌then◌else◌,
  select, update_where, delete_where, any, str_eq, is_empty, Stamp, is_valid,
}
use omacalendar.Database.{
  EventRow, empty_event, done, OutboxItem, Store, rejected, Result, ok, failed, and_then, statement,
  atomically, Sql,
}
use omacalendar.Database.Outbox.{
  is_waiting, is_remove, is_done, has_id, bump, find_item, has_event_id, find_event, EventWriter,
}

abbrev pub finish_item : Stamp → OutboxItem → OutboxItem
finish_item now r = record r {
  state = done;
  lease_until = none;
  error_code = "";
  error_message = "";
  updated_at = now;
}

-- A mutation of the same event that is still queued.
abbrev pub is_later : String → ℕ → OutboxItem → Bool
is_later event_id id r = str_eq r.event_id event_id && not (r.id == id) && not (is_done r.state)

abbrev pub has_later : String → ℕ → Store → Bool
has_later event_id id s = any (is_later event_id id) s.outbox

-- DELETE FROM events, with the rows that the foreign keys delete as well.
abbrev pub ids_of : (EventRow → Bool) → Store → List String
ids_of test s = map (λ e. e.id) (select test s.events)

abbrev pub is_among : List String → String → Bool
is_among ids id = any (λ i. str_eq i id) ids

unfoldable pub delete_events : (EventRow → Bool) → Store → Store
delete_events test s =
    let gone = ids_of test s in
    record s {
      events = delete_where test s.events;
      outbox = delete_where (λ r. is_among gone r.event_id) s.outbox;
      reminder_jobs = delete_where (λ j. is_among gone j.event_id) s.reminder_jobs;
      notification_deliveries =
          delete_where (λ d. is_among gone d.event_id) s.notification_deliveries;
      event_instances = delete_where (λ i. is_among gone i.event_id) s.event_instances;
    }

abbrev pub keep_tombstone : Stamp → EventRow → EventRow
keep_tombstone now e = record e {
  dirty = false;
  deleted = true;
  sync_state = "clean";
  updated_at = now;
}

abbrev pub in_series : EventRow → EventRow → Bool
in_series e r = str_eq r.calendar_id e.calendar_id && str_eq r.uid e.uid

-- The row of the event, by the LEFT JOIN: empty columns if there is none.
abbrev pub joined_event : Option EventRow → EventRow
joined_event none = empty_event
joined_event (some e) = e

unfoldable pub remove_rows : String → EventRow → Stamp → Store → Store
unfolding delete_events
remove_rows event_id e now s =
    if not (is_empty e.recurrence_id)
    then record s { events = update_where (has_event_id event_id) (keep_tombstone now) s.events }
    else if not (is_empty e.calendar_id) && not (is_empty e.uid)
    then delete_events (in_series e) s
    else delete_events (has_event_id event_id) s

unfoldable pub finish_removal : EventWriter → Sql → String → EventRow → Stamp → Store → Result Store
unfolding remove_rows
finish_removal ev sql event_id e now s =
    and_then (statement (sql 3) "finish removal" (remove_rows event_id e now s)) (λ s.
      if not (is_empty e.calendar_id) && not (is_empty e.remote_id)
      then ev.remove_orphans e.calendar_id s
      else ok s)

abbrev pub advance_event : EventRow → EventRow → EventRow
advance_event remote e = record e {
  remote_id = remote.remote_id;
  etag = remote.etag;
  recurrence_id = remote.recurrence_id;
  raw_payload = remote.raw_payload;
  raw_format = remote.raw_format;
  dirty = true;
}

abbrev pub expects_next : String → ℕ → OutboxItem → Bool
expects_next event_id id r = str_eq r.event_id event_id && not (r.id == id) && is_waiting r.state

-- A newer edit is queued: only the remote identity and revision are taken over.
unfoldable pub advance_revision :
    Sql → String → ℕ → EventRow → Option EventRow → Store → Result Store
advance_revision sql event_id id remote none s = failed (rejected "Event not found")
advance_revision sql event_id id remote (some current) s =
    and_then (statement (sql 3) "get event" s) (λ s.
      and_then
        (statement (sql 4) "update remote revision" (record s {
          events = update_where (has_event_id event_id) (advance_event remote) s.events;
        }))
        (λ s. statement (sql 5) "advance queued revision" (record s {
          outbox =
              update_where (expects_next event_id id)
                (λ r. record r { expected_revision = remote.etag }) s.outbox;
        })))

abbrev pub created_at_of : Option EventRow → Stamp
created_at_of none = none
created_at_of (some e) = e.created_at

abbrev pub acknowledged : String → EventRow → Option EventRow → Stamp → EventRow
acknowledged event_id remote existing now = record remote {
  id = event_id;
  dirty = false;
  deleted = false;
  created_at = if is_valid remote.created_at then remote.created_at else created_at_of existing;
  updated_at = now;
}

-- What is done on the event, by whether the provider returned it and whether a newer mutation is
-- queued.
unfoldable pub acknowledge :
    EventWriter → Sql → String → ℕ → Option EventRow → Bool → Stamp → Store → Result Store
unfolding advance_revision
acknowledge ev sql event_id id none true now s = ok s
acknowledge ev sql event_id id none false now s = statement (sql 3) "clean event" (record s {
  events = update_where (has_event_id event_id) (λ e. record e { dirty = false }) s.events;
})
acknowledge ev sql event_id id (some remote) true now s =
    advance_revision sql event_id id remote (find_event event_id s.events) s
acknowledge ev sql event_id id (some remote) false now s =
    ev.upsert (acknowledged event_id remote (find_event event_id s.events) now) s

unfoldable pub complete_on_event :
    EventWriter → Sql → OutboxItem → ℕ → Option EventRow → Stamp → Store → Result Store
unfolding finish_removal acknowledge
complete_on_event ev sql item id remote now s =
    if is_remove item.operation && not (has_later item.event_id id s)
    then finish_removal ev sql item.event_id (joined_event (find_event item.event_id s.events)) now
        s
    else acknowledge ev sql item.event_id id remote (has_later item.event_id id s) now s

unfoldable pub complete_found :
    EventWriter → Sql → Option OutboxItem → ℕ → Option EventRow → Stamp → Store → Result Store
unfolding complete_on_event
complete_found ev sql none id remote now s = failed (rejected "Outbox item not found")
complete_found ev sql (some item) id remote now s =
    and_then
      (statement (sql 1) "finish outbox"
        (record s { outbox = update_where (has_id id) (finish_item now) s.outbox }))
      (λ s.
        and_then (statement (sql 2) "check later outbox" s)
          (λ s. and_then (complete_on_event ev sql item id remote now s) (λ s. bump (sql 6) s)))

unfoldable pub complete_outbox :
    EventWriter → Sql → ℕ → Option EventRow → Stamp → Store → Store × Result (Unit {0})
unfolding complete_found
complete_outbox ev sql id remote now s = atomically s (
    and_then (statement (sql 7) "begin" s) (λ s.
      and_then (statement (sql 0) "load operation" s) (λ s.
        and_then (complete_found ev sql (find_item id s.outbox) id remote now s)
          (λ s. statement (sql 8) "commit" s))))
