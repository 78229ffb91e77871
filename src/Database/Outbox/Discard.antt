-- ===== src/Database/Outbox/Discard.antt =====
-- `Database::discardOutbox` of src/core/database.cpp: a queued mutation that the user gives up.
use omacalendar.Base.{
  ℕ, ◌+◌, max, Bool, true, false, not, ◌&&◌, ◌||◌, Option, none, some, List, ◌==◌, if◌then◌else◌,
  update_where, str_eq, is_empty, Stamp,
}
use omacalendar.Database.{
  pending, EventRow, remove, OutboxOperation, move, OutboxState, retry_wait, blocked, done,
  OutboxItem, Store, sql_error, rejected, Result, ok, failed, and_then, statement, atomically, Sql,
}
use omacalendar.Database.Outbox.{
  is_sending, has_id, bump, find_item, has_event_id, find_event, EventWriter,
}

abbrev pub discard_item : Stamp → OutboxItem → OutboxItem
discard_item now r = record r {
  state = done;
  error_code = "discarded";
  error_message = "";
  lease_until = none;
  updated_at = now;
}

abbrev pub can_block : OutboxState → Bool
can_block pending = true
can_block retry_wait = true
can_block blocked = true
can_block _ = false

abbrev pub depends_on : ℕ → OutboxItem → Bool
depends_on id r = elim r.dependency_id [ none ↦ false | some d ↦ d == id ]

abbrev pub block_item : Stamp → OutboxItem → OutboxItem
block_item now r = record r {
  state = blocked;
  lease_until = none;
  next_attempt_at = none;
  error_code = "dependency_discarded";
  error_message = "A prerequisite operation was discarded";
  updated_at = now;
}

-- The two statements on the queue.
abbrev pub discard_rows : ℕ → Stamp → List OutboxItem → List OutboxItem
discard_rows id now rows =
    update_where (λ r. depends_on id r && can_block r.state) (block_item now)
      (update_where (has_id id) (discard_item now) rows)

abbrev pub undo_removal : Stamp → EventRow → EventRow
undo_removal now e = record e {
  deleted = false;
  dirty = false;
  sync_state = "clean";
  updated_at = now;
}

abbrev pub revision_of_event : Option EventRow → ℕ
revision_of_event none = 0
revision_of_event (some e) = e.local_revision

-- The event as it was before the move.
abbrev pub restored : EventRow → Option EventRow → Stamp → EventRow
restored source current now = record source {
  dirty = false;
  deleted = false;
  sync_state = "clean";
  local_revision = max source.local_revision (revision_of_event current) + 1;
  updated_at = now;
}

unfoldable pub undo_move : EventWriter → OutboxItem → Stamp → Store → Result Store
undo_move ev item now s =
    let source = ev.source_event item.payload_json in
    if is_empty source.id || not (str_eq source.id item.event_id) || is_empty source.calendar_id
    then failed (rejected "The move source snapshot is unavailable")
    else ev.upsert (restored source (find_event item.event_id s.events) now) s

unfoldable pub undo_on_event :
    EventWriter → Bool → OutboxOperation → OutboxItem → Stamp → Store → Result Store
unfolding undo_move
undo_on_event ev runs remove item now s =
    statement runs "undo event deletion"
      (record s { events = update_where (has_event_id item.event_id) (undo_removal now) s.events })
undo_on_event ev runs move item now s = undo_move ev item now s
undo_on_event ev runs _ item now s = ok s

-- The steps after the savepoint.
unfoldable pub discard_steps : EventWriter → Sql → OutboxItem → ℕ → Stamp → Store → Result Store
unfolding undo_on_event
discard_steps ev sql item id now s = and_then (statement (sql 1) "start discard" s) (λ s.
    and_then (statement (sql 2) "discard operation" s) (λ s.
      and_then
        (statement (sql 3) "block discarded dependents"
          (record s { outbox = discard_rows id now s.outbox }))
        (λ s.
          and_then (undo_on_event ev (sql 4) item.operation item now s)
            (λ s. and_then (bump (sql 5) s) (λ s. statement (sql 6) "commit discard" s)))))

unfoldable pub discard_found :
    EventWriter → Sql → Option OutboxItem → ℕ → Stamp → Store → Store × Result (Unit {0})
unfolding discard_steps
discard_found ev sql none id now s = (s, failed (rejected "Operation not found"))
discard_found ev sql (some item) id now s =
    if is_sending item.state
    then (s, failed (rejected "An operation already being sent cannot be discarded"))
    else atomically s (discard_steps ev sql item id now s)

unfoldable pub discard_outbox : EventWriter → Sql → ℕ → Stamp → Store → Store × Result (Unit {0})
unfolding discard_found
discard_outbox ev sql id now s =
    if sql 0
    then discard_found ev sql (find_item id s.outbox) id now s
    else (s, failed (sql_error "load operation"))
