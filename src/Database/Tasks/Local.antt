-- ===== src/Database/Tasks/Local.antt =====
-- The writes of a client in src/core/databasetasks.cpp: `saveLocalTask` and `removeLocalTask`.
use omacalendar.Base.Int.{ℤ, pos, negsuc}
use omacalendar.Base.{
  ℕ, ◌+◌, String, Bool, true, false, not, Option, none, some, [], ◌∷◌, ◌++◌, ◌==◌, if◌then◌else◌,
  select, any, first, str_eq, is_empty, Stamp, is_valid,
}
use omacalendar.Database.{
  PendingOperation, no_operation, create, update, remove, Task, TaskList, Store, sql_error,
  rejected, Result, ok, failed, Sql, bump_change_revision,
}
use omacalendar.Database.Tasks.{
  QtText, Fresh, validate_task, is_create, has_id, set_tasks, update_tasks, delete_tasks, is_live,
  task_of,
}
use omacalendar.Database.Tasks.Lists.{provider_of, task_list}

-- What `saveLocalTask` finds of the task: its row, or none for a new task. An error other than
-- "Task not found" ends the save.
unfoldable pub existing_task : Bool → Store → String → Result (Option Task)
existing_task runs s id =
    if is_empty id
    then ok none
    else if not runs
    then failed (sql_error "get task")
    else ok (first (select (is_live id) s.tasks))

-- The tests on an existing row; a negative expected revision is not compared.
abbrev pub is_outdated : ℤ → Task → Bool
is_outdated (pos r) existing = not (existing.local_revision == r)
is_outdated (negsuc n) existing = false

abbrev pub refuse_edit : ℤ → Task → Option Task → Option String
refuse_edit expected task none = none
refuse_edit expected task (some existing) =
    if is_outdated expected existing
    then some "The task changed; reload it and try again"
    else if not (str_eq existing.list_id task.list_id)
    then some "Moving a task to another list is not supported yet"
    else none

-- The identity and the provider's part of the task: from the row, or new.
abbrev pub identify : Fresh → ℕ → Option Task → Task → Task
identify fresh now (some existing) task = record task {
  remote_id = existing.remote_id;
  uid = existing.uid;
  etag = existing.etag;
  raw_payload = existing.raw_payload;
  raw_format = existing.raw_format;
  parent_id = existing.parent_id;
  position = existing.position;
  created_at = existing.created_at;
}
identify fresh now none task = record task {
  id = if is_empty task.id then fresh.id else task.id;
  remote_id = "";
  etag = "";
  raw_payload = "";
  raw_format = "";
  uid = if is_empty task.uid then fresh.uid else task.uid;
  created_at = some now;
}

abbrev pub completion_time : ℕ → Task → Stamp
completion_time now task =
    if not task.completed
    then none
    else if is_valid task.completed_at
    then task.completed_at
    else some now

abbrev pub revision_of : Option Task → ℕ
revision_of none = 0
revision_of (some existing) = existing.local_revision

-- A create that has not reached the provider stays a create.
abbrev pub owed_operation : Option Task → PendingOperation
owed_operation none = create
owed_operation (some existing) = if is_create existing.pending_operation then create else update

-- The task as it is stored.
abbrev pub prepare_task : QtText → Bool → ℕ → Option Task → Task → Task
prepare_task qt local now existing task = record task {
  title = qt.trimmed task.title;
  completed_at = completion_time now task;
  deleted = false;
  updated_at = some now;
  local_revision = revision_of existing + 1;
  dirty = not local;
  pending_operation = if local then no_operation else owed_operation existing;
}

-- The columns of the ON CONFLICT clause.
abbrev pub overwrite_task : Task → Task → Task
overwrite_task t r = record r {
  title = t.title;
  notes = t.notes;
  due_date = t.due_date;
  due_utc = t.due_utc;
  completed = t.completed;
  completed_at = t.completed_at;
  priority = t.priority;
  dirty = t.dirty;
  deleted = t.deleted;
  pending_operation = t.pending_operation;
  local_revision = t.local_revision;
  updated_at = t.updated_at;
}

abbrev pub upsert_task : Task → Store → Store
upsert_task t s =
    if any (has_id t.id) s.tasks
    then update_tasks (has_id t.id) (overwrite_task t) s
    else set_tasks (s.tasks ++ t ∷ []) s

abbrev pub is_local : TaskList → Bool
is_local l = str_eq (provider_of l.capabilities) "local"

-- The write of a task that was not refused.
unfoldable pub store_accepted : Sql → Store → Task → Option String → Store × Result Task
unfolding bump_change_revision
store_accepted sql s t (some message) = (s, failed (rejected message))
store_accepted sql s t none =
    if not (sql 2)
    then (s, failed (sql_error "save task"))
    else bump_change_revision (sql 3) t (upsert_task t s)

-- What follows once the list and the row are read.
unfoldable pub store_task :
    QtText → Sql → Store → ℕ → Fresh → ℤ → Task → TaskList → Option Task → Store × Result Task
unfolding store_accepted
store_task qt sql s now fresh expected task list existing =
    store_accepted sql s
      (prepare_task qt (is_local list) now existing (identify fresh now existing task))
      (refuse_edit expected task existing)

-- What follows once the list is read, by what was found of it and of the row.
unfoldable pub store_found :
    QtText
    → Sql
    → Store
    → ℕ
    → Fresh
    → ℤ
    → Task
    → TaskList
    → Result (Option Task)
    → Store × Result Task
unfolding store_task
store_found qt sql s now fresh expected task list (failed e) = (s, failed e)
store_found qt sql s now fresh expected task list (ok existing) =
    store_task qt sql s now fresh expected task list existing

unfoldable pub save_in_list :
    QtText → Sql → Store → ℕ → Fresh → ℤ → Task → Result TaskList → Store × Result Task
unfolding existing_task store_found
save_in_list qt sql s now fresh expected task (failed e) = (s, failed e)
save_in_list qt sql s now fresh expected task (ok list) =
    if is_empty list.id
    then (s, failed (rejected ""))
    else if list.read_only
    then (s, failed (rejected "This task list is read-only"))
    else store_found qt sql s now fresh expected task list (existing_task (sql 1) s task.id)

-- Statements 0 and 1 read the list and the row, 2 writes, 3 advances the revision. The result is the
-- task as the caller's pointer has it after a success.
unfoldable pub save_local_task : QtText → Sql → Store → ℕ → Fresh → ℤ → Task → Store × Result Task
unfolding validate_task task_list save_in_list
save_local_task qt sql s now fresh expected task =
    if not (is_empty (validate_task qt task))
    then (s, failed (rejected (validate_task qt task)))
    else save_in_list qt sql s now fresh expected task (task_list (sql 0) s task.list_id)

abbrev pub bury_task : ℕ → Task → Task
bury_task now t = record t {
  deleted = true;
  dirty = true;
  pending_operation = remove;
  local_revision = t.local_revision + 1;
  updated_at = some now;
}

-- `readOnly` and the provider of the list that was read; one that was not found is the default
-- list, which is neither read-only nor local.
abbrev pub is_read_only_result : Result TaskList → Bool
is_read_only_result (ok l) = l.read_only
is_read_only_result (failed e) = false

abbrev pub is_local_result : Result TaskList → Bool
is_local_result (ok l) = is_local l
is_local_result (failed e) = false

-- What follows once the row is read; `list` is what was found of its list.
unfoldable pub remove_from : Sql → Store → ℕ → String → Result TaskList → Store × Result (Unit {0})
unfolding bump_change_revision
remove_from sql s now task_id list =
    if is_read_only_result list
    then (s, failed (rejected "This task list is read-only"))
    else if not (sql 2)
    then (s, failed (sql_error "remove task"))
    else bump_change_revision (sql 3) tt (
        if is_local_result list
        then delete_tasks (has_id task_id) s
        else update_tasks (has_id task_id) (bury_task now) s)

unfoldable pub remove_found : Sql → Store → ℕ → String → Result Task → Store × Result (Unit {0})
unfolding task_list remove_from
remove_found sql s now task_id (failed e) = (s, failed e)
remove_found sql s now task_id (ok existing) =
    if is_empty existing.id
    then (s, failed (rejected ""))
    else remove_from sql s now task_id (task_list (sql 1) s existing.list_id)

unfoldable pub remove_local_task : Sql → Store → ℕ → String → Store × Result (Unit {0})
unfolding task_of remove_found
remove_local_task sql s now task_id = remove_found sql s now task_id (task_of (sql 0) s task_id)
