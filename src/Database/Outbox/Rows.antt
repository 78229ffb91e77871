-- ===== src/Database/Outbox/Rows.antt =====
-- What an acknowledgement leaves of the other rows of the queue: a property of a row that the
-- expected revision has no part in.
use mathlib.Core.Path.{subst}
use omacalendar.Base.{
  ℕ, String, sym, inl, inr, Bool, true, false, not, ◌&&◌, Option, none, some, Bool-cases, All,
  All-update_where, All-delete_where, is_empty, Stamp,
}
use omacalendar.Database.{EventRow, OutboxItem, Store, Result, Sql}
use omacalendar.Database.Transactions.{
  IfOk, IfOk-and_then, IfOk-statement, IfOk-equation, IfOk-mono,
}
use omacalendar.Database.Outbox.{is_remove, has_event_id, find_event, EventWriter}
use omacalendar.Database.Outbox.Complete.{
  has_later, delete_events, in_series, joined_event, remove_rows, finish_removal, expects_next,
  advance_revision, acknowledge, complete_on_event,
}
use omacalendar.Database.Outbox.Ready.{HasOutbox, upsert-HasOutbox}

module _ (P : OutboxItem → Type 0)
    (stays : (r : OutboxItem) (e : String) → P r → P (record r { expected_revision = e })) where
  abbrev AllRows : Store → Type 0
  AllRows s = All P s.outbox

  delete_events-AllRows :
      (test : EventRow → Bool) (s : Store) → AllRows s → AllRows (delete_events test s)
  unfolding delete_events
  delete_events-AllRows test s h = All-delete_where P P _ (λ r p _. p) s.outbox h

  remove_rows-AllRows :
      (event_id : String) (e : EventRow) (now : Stamp) (s : Store)
      → AllRows s
      → AllRows (remove_rows event_id e now s)
  unfolding remove_rows
  remove_rows-AllRows event_id e now s h = elim (Bool-cases (not (is_empty e.recurrence_id))) [
    | inl a ↦ rw a h
    | inr a ↦ elim (Bool-cases (not (is_empty e.calendar_id) && not (is_empty e.uid))) [
      | inl b ↦ rw (a, b) (delete_events-AllRows (in_series e) s h)
      | inr b ↦ rw (a, b) (delete_events-AllRows (has_event_id event_id) s h)
    ]
  ]

  module _ (ev : EventWriter) (sql : Sql) where
    from_outbox :
        (s : Store) (r : Result Store) → AllRows s → IfOk (HasOutbox s.outbox) r → IfOk AllRows r
    from_outbox s r h = IfOk-mono (HasOutbox s.outbox) AllRows r (λ s' e. subst (All P) (sym e) h)

    finish_removal-AllRows :
        (event_id : String) (e : EventRow) (now : Stamp) (s : Store)
        → AllRows s
        → IfOk AllRows (finish_removal ev sql event_id e now s)
    unfolding finish_removal
    finish_removal-AllRows event_id e now s h =
        IfOk-and_then AllRows AllRows _ _
          (IfOk-statement AllRows (sql 3) _ _ (remove_rows-AllRows event_id e now s h))
          (λ a p. elim (Bool-cases (not (is_empty e.calendar_id) && not (is_empty e.remote_id))) [
            | inl b ↦ rw b (
                from_outbox a _ p (
                  IfOk-equation (HasOutbox a.outbox) _
                    (λ s' q. ev.outbox-remove_orphans e.calendar_id a s' q)))
            | inr b ↦ rw b p
          ])

    advance_revision-AllRows :
        (event_id : String) (id : ℕ) (remote : EventRow) (current : Option EventRow) (s : Store)
        → AllRows s
        → IfOk AllRows (advance_revision sql event_id id remote current s)
    unfolding advance_revision
    advance_revision-AllRows event_id id remote none s h = tt
    advance_revision-AllRows event_id id remote (some current) s h =
        IfOk-and_then AllRows AllRows _ _ (IfOk-statement AllRows (sql 3) _ s h) (λ a p.
          IfOk-and_then AllRows AllRows _ _ (IfOk-statement AllRows (sql 4) _ _ p) (λ b q.
            IfOk-statement AllRows (sql 5) _ _ (
              All-update_where P P (expects_next event_id id)
                (λ r. record r { expected_revision = remote.etag }) (λ r p _. stays r remote.etag p)
                (λ r p _. p) b.outbox q)))

    acknowledge-AllRows :
        (event_id : String) (id : ℕ) (remote : Option EventRow) (later : Bool) (now : Stamp)
        (s : Store)
        → AllRows s
        → IfOk AllRows (acknowledge ev sql event_id id remote later now s)
    unfolding acknowledge
    acknowledge-AllRows event_id id none true now s h = h
    acknowledge-AllRows event_id id none false now s h = IfOk-statement AllRows (sql 3) _ _ h
    acknowledge-AllRows event_id id (some remote) true now s h =
        advance_revision-AllRows event_id id remote (find_event event_id s.events) s h
    acknowledge-AllRows event_id id (some remote) false now s h =
        from_outbox s _ h (upsert-HasOutbox ev _ s)

    pub complete_on_event-AllRows :
        (item : OutboxItem) (id : ℕ) (remote : Option EventRow) (now : Stamp) (s : Store)
        → AllRows s
        → IfOk AllRows (complete_on_event ev sql item id remote now s)
    unfolding complete_on_event
    complete_on_event-AllRows item id remote now s h =
        elim (Bool-cases (is_remove item.operation && not (has_later item.event_id id s))) [
          | inl b ↦ rw b (
              finish_removal-AllRows item.event_id
                (joined_event (find_event item.event_id s.events)) now s h)
          | inr b ↦
              rw b
                (acknowledge-AllRows item.event_id id remote (has_later item.event_id id s) now s h)
        ]
