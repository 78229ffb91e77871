-- ===== src/Database/Tasks/Remote.antt =====
-- The provider's side of src/core/databasetasks.cpp: `applyRemoteTasks` and `completeTaskWrite`.
use omacalendar.Base.{
  ℕ, suc, ◌+◌, String, Bool, true, false, not, ◌&&◌, ◌||◌, Option, none, some, List, [], ◌∷◌, ◌++◌,
  map, ltb, ◌==◌, if◌then◌else◌, length, select, update_where, delete_where, any, first, str_eq,
  is_empty, Stamp, is_valid,
}
use omacalendar.Database.{
  PendingOperation, no_operation, update, remove, Task, Store, sql_error, Result, ok, failed, Sql,
  bump_change_revision, bump_if_changed,
}
use omacalendar.Database.Tasks.{is_owed, is_remove, has_id, set_tasks, update_tasks, delete_tasks}

-- The statements of `applyRemoteTasks`; those in a loop have the number of the round.
pub data ApplyStatement : Type 0 where
  begins lists_stale bumps commits : ApplyStatement
  finds writes removes : ℕ → ApplyStatement

abbrev pub ApplySql : Type 0
ApplySql = ApplyStatement → Bool

abbrev pub is_remote : String → String → Task → Bool
is_remote list_id remote_id t = str_eq t.list_id list_id && str_eq t.remote_id remote_id

-- A local write is still owed, or nothing changed.
abbrev pub is_kept : Task → Task → Bool
is_kept incoming r =
    is_owed r.pending_operation || (not (is_empty incoming.etag) && str_eq r.etag incoming.etag)

abbrev pub time_or : ℕ → Stamp → Stamp
time_or now at = if is_valid at then at else some now

abbrev pub overwrite_remote : ℕ → Task → Task → Task
overwrite_remote now incoming r = record r {
  uid = incoming.uid;
  etag = incoming.etag;
  title = incoming.title;
  notes = incoming.notes;
  due_date = incoming.due_date;
  due_utc = incoming.due_utc;
  completed = incoming.completed;
  completed_at = incoming.completed_at;
  priority = incoming.priority;
  parent_id = incoming.parent_id;
  position = incoming.position;
  raw_payload = incoming.raw_payload;
  raw_format = incoming.raw_format;
  dirty = false;
  deleted = false;
  local_revision = r.local_revision + 1;
  updated_at = time_or now incoming.updated_at;
}

-- The columns that the INSERT does not name have their defaults.
abbrev pub new_remote : ℕ → String → String → Task → Task
new_remote now id list_id incoming = record incoming {
  id = id;
  list_id = list_id;
  dirty = false;
  deleted = false;
  pending_operation = no_operation;
  local_revision = 1;
  created_at = time_or now incoming.created_at;
  updated_at = time_or now incoming.updated_at;
}

-- One round of the loop, the k-th: the rows after it and whether it wrote; `none` where a
-- statement did not run. An INSERT under an id that is in use, the primary key refuses.
unfoldable pub apply_incoming :
    ApplySql → ℕ → (ℕ → String) → String → ℕ → Task → List Task → Option (List Task × Bool)
apply_incoming sql now fresh list_id k incoming rows =
    if is_empty incoming.remote_id
    then some (rows, false)
    else if not (sql (finds k))
    then none
    else elim (first (select (is_remote list_id incoming.remote_id) rows)) [
      | none ↦
          if sql (writes k) && not (any (has_id (fresh k)) rows)
          then some (rows ++ new_remote now (fresh k) list_id incoming ∷ [], true)
          else none
      | some r ↦
          if is_kept incoming r
          then some (rows, false)
          else if sql (writes k)
          then some (update_where (has_id r.id) (overwrite_remote now incoming) rows, true)
          else none
    ]

unfoldable pub apply_all :
    ApplySql
    → ℕ
    → (ℕ → String)
    → String
    → ℕ
    → List Task
    → List Task
    → Bool
    → Option (List Task × Bool)
unfolding apply_incoming
apply_all sql now fresh list_id k [] rows changed = some (rows, changed)
apply_all sql now fresh list_id k (i ∷ is) rows changed =
    elim (apply_incoming sql now fresh list_id k i rows) [
      | none ↦ none
      | some (rows', c) ↦ apply_all sql now fresh list_id (suc k) is rows' (changed || c)
    ]

-- `seen` after the loop.
abbrev pub seen_ids : List Task → List String
seen_ids remote = map (λ t. t.remote_id) (select (λ t. not (is_empty t.remote_id)) remote)

-- A row that a complete batch does not hold, and that owes no write.
abbrev pub is_stale_task : String → List String → Task → Bool
is_stale_task list_id seen t =
    str_eq t.list_id list_id
    && not (is_empty t.remote_id)
    && not (is_owed t.pending_operation)
    && not (any (str_eq t.remote_id) seen)

abbrev pub stale_ids : String → List String → List Task → List String
stale_ids list_id seen rows = map (λ t. t.id) (select (is_stale_task list_id seen) rows)

unfoldable pub remove_all : ApplySql → ℕ → List String → List Task → Option (List Task)
remove_all sql k [] rows = some rows
remove_all sql k (id ∷ ids) rows =
    let rest = remove_all sql (suc k) ids (delete_where (has_id id) rows) in
    if sql (removes k) then rest else none

-- The rows after both loops.
unfoldable pub apply_batch :
    ApplySql → ℕ → (ℕ → String) → String → List Task → Bool → List Task → Option (List Task × Bool)
unfolding apply_all remove_all
apply_batch sql now fresh list_id remote complete rows =
    elim (apply_all sql now fresh list_id 0 remote rows false) [
      | none ↦ none
      | some (applied, changed) ↦
          let stale = stale_ids list_id (seen_ids remote) applied in
          if not complete
          then some (applied, changed)
          else if not (sql lists_stale)
          then none
          else elim (remove_all sql 0 stale applied) [
            | none ↦ none
            | some kept ↦ some (kept, changed || ltb 0 (length stale))
          ]
    ]

-- The result is `changed`. The statements of the two loops share one failure, where the code names the
-- one that failed. A batch that fails is rolled back, but not after a commit that fails: the
-- transaction stays open, with what it changed.
unfoldable pub apply_remote_tasks :
    ApplySql → Store → ℕ → (ℕ → String) → String → List Task → Bool → Store × Result Bool
unfolding apply_batch bump_if_changed
apply_remote_tasks sql s now fresh list_id remote complete =
    if not (sql begins)
    then (s, failed (sql_error "transaction"))
    else elim (apply_batch sql now fresh list_id remote complete s.tasks) [
      | none ↦ (s, failed (sql_error "store remote task"))
      | some (rows, changed) ↦
          if changed && not (sql bumps)
          then (s, failed (sql_error "advance change revision"))
          else if not (sql commits)
          then (
            (bump_if_changed changed true changed (set_tasks rows s)).0,
            failed (sql_error "commit"),
          )
          else bump_if_changed changed true changed (set_tasks rows s)
    ]

-- The operation that is owed after a write was sent.
abbrev pub still_owed : Bool → PendingOperation → PendingOperation
still_owed edited_since operation =
    if edited_since then if is_remove operation then remove else update else no_operation

abbrev pub record_sent : Bool → PendingOperation → String → String → String → String → Task → Task
record_sent edited_since operation remote_id etag raw_payload raw_format r = record r {
  remote_id = remote_id;
  etag = etag;
  raw_payload = raw_payload;
  raw_format = raw_format;
  dirty = edited_since;
  pending_operation = still_owed edited_since operation;
}

abbrev pub record_uploaded : Task → Task → Task
record_uploaded uploaded r = record r {
  title = uploaded.title;
  notes = uploaded.notes;
  due_date = uploaded.due_date;
  due_utc = uploaded.due_utc;
  completed = uploaded.completed;
  completed_at = uploaded.completed_at;
  priority = uploaded.priority;
}

abbrev pub overwrite_uploaded : Option Task → Task → Task
overwrite_uploaded none r = r
overwrite_uploaded (some uploaded) r = record_uploaded uploaded r

-- What the provider answered to a write.
pub record Sent : Type 0 where
  pub revision : ℕ
  pub remote_id : String
  pub etag : String
  pub raw_payload : String
  pub raw_format : String
  pub uploaded : Option Task

abbrev pub was_edited : Sent → Task → Bool
was_edited sent t = not (t.local_revision == sent.revision)

-- The first write: the row goes, or records what was sent.
abbrev pub write_sent : String → Sent → Task → Store → Store
write_sent task_id sent t s =
    if is_remove t.pending_operation && not (was_edited sent t)
    then delete_tasks (has_id task_id) s
    else update_tasks (has_id task_id)
        (record_sent (was_edited sent t) t.pending_operation sent.remote_id sent.etag
          sent.raw_payload sent.raw_format)
        s

abbrev pub has_upload : Option Task → Bool
has_upload none = false
has_upload (some u) = true

abbrev pub takes_upload : Sent → Task → Bool
takes_upload sent t =
    has_upload sent.uploaded && not (was_edited sent t) && not (is_remove t.pending_operation)

-- What follows once the row is read.
unfoldable pub complete_found :
    Sql → Store → String → Sent → Option Task → Store × Result (Unit {0})
unfolding bump_change_revision
complete_found sql s task_id sent none = (s, ok tt)
complete_found sql s task_id sent (some t) =
    if not (sql 1)
    then (s, failed (sql_error "record task write"))
    else if not (takes_upload sent t)
    then bump_change_revision (sql 3) tt (write_sent task_id sent t s)
    else if not (sql 2)
    then (write_sent task_id sent t s, failed (sql_error "record uploaded task"))
    else bump_change_revision (sql 3) tt (
        update_tasks (has_id task_id) (overwrite_uploaded sent.uploaded)
          (write_sent task_id sent t s))

-- Statement 0 reads, 1 writes, 2 writes the uploaded fields, 3 advances the revision; there is no
-- transaction.
unfoldable pub complete_task_write : Sql → Store → String → Sent → Store × Result (Unit {0})
unfolding complete_found
complete_task_write sql s task_id sent =
    if not (sql 0)
    then (s, failed (sql_error "find sent task"))
    else complete_found sql s task_id sent (first (select (has_id task_id) s.tasks))
