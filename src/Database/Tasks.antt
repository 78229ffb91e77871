-- ===== src/Database/Tasks.antt =====
-- The task store of src/core/databasetasks.cpp, and `validateTask` of src/core/tasks.cpp. A write that
-- is owed to the provider is kept on the row, as its pending operation. `isoUtc` of the clock is an
-- argument, and so are the identifiers of `newUuid` and the parts of QString that the code calls. A
-- statement that a foreign key or a unique index refuses is one that does not run.
pub mod Lists
pub mod Local
pub mod Remote
pub mod Rows
pub mod Owed
pub mod Mirror
pub mod Edits
pub mod Consistency
pub mod Steps
mod Tests
use omacalendar.Base.Int.{ℤ, pos, pos_part, ltb_ℤ}
use omacalendar.Base.{
  sort_by, ℕ, ◌*◌, min, max, String, Bool, true, false, not, ◌&&◌, ◌||◌, Option, none, some, List,
  map, ltb, if◌then◌else◌, length, take, drop, select, update_where, delete_where, any, first,
  str_eq, is_empty, str_lt, Stamp, is_valid, stamp_le, stamp_lt,
}
use omacalendar.Database.{
  pending, PendingOperation, no_operation, create, remove, Task, Store, sql_error, rejected, Result,
  ok, failed,
}

-- `trimmed` and `size` of QString.
pub record QtText : Type 0 where
  pub trimmed : String → String
  pub size : String → ℕ

-- The texts that `newUuid` yields.
pub record Fresh : Type 0 where
  pub id : String
  pub uid : String

abbrev maximum_title_length : ℕ
maximum_title_length = 1024

abbrev maximum_notes_length : ℕ
maximum_notes_length = 16 * 1024

-- The empty text when the task can be saved.
unfoldable pub validate_task : QtText → Task → String
validate_task qt task =
    if is_empty (qt.trimmed task.title)
    then "A task needs a title"
    else if ltb maximum_title_length (qt.size task.title)
    then "The task title is too long"
    else if ltb maximum_notes_length (qt.size task.notes)
    then "The task notes are too long"
    else if ltb_ℤ task.priority (pos 0) || ltb_ℤ (pos 9) task.priority
    then "Priority must be between 0 and 9"
    else if is_valid task.due_utc && not (is_valid task.due_date)
    then "A due time needs a due day"
    else ""

abbrev pub is_owed : PendingOperation → Bool
is_owed no_operation = false
is_owed _ = true

abbrev pub is_create : PendingOperation → Bool
is_create create = true
is_create _ = false

abbrev pub is_remove : PendingOperation → Bool
is_remove remove = true
is_remove _ = false

abbrev pub has_id : String → Task → Bool
has_id id t = str_eq t.id id

abbrev pub set_tasks : List Task → Store → Store
set_tasks rows s = record s { tasks = rows }

abbrev pub update_tasks : (Task → Bool) → (Task → Task) → Store → Store
update_tasks test f s = set_tasks (update_where test f s.tasks) s

abbrev pub delete_tasks : (Task → Bool) → Store → Store
delete_tasks test s = set_tasks (delete_where test s.tasks) s

pub record TaskQuery : Type 0 where
  pub list_ids : List String
  pub include_completed : Bool
  pub due_start : Option ℕ
  pub due_end : Option ℕ
  pub limit : ℤ
  pub offset : ℤ

-- `due_date>=?` and `due_date<=?`, where the filter has the bound; an empty column fails both.
abbrev pub is_due_from : Option ℕ → Task → Bool
is_due_from none t = true
is_due_from (some d) t = is_valid t.due_date && stamp_le (some d) t.due_date

abbrev pub is_due_until : Option ℕ → Task → Bool
is_due_until none t = true
is_due_until (some d) t = is_valid t.due_date && stamp_le t.due_date (some d)

abbrev pub in_query : TaskQuery → Task → Bool
in_query q t =
    not t.deleted
    && (not (ltb 0 (length q.list_ids)) || any (str_eq t.list_id) q.list_ids)
    && (q.include_completed || not t.completed)
    && is_due_from q.due_start t
    && is_due_until q.due_end t

-- ORDER BY: one column after the other, the later ones where the earlier are equal.
abbrev pub then_by : Bool → Bool → Bool → Bool
then_by below above rest = below || (not above && rest)

abbrev pub stamp_then : Stamp → Stamp → Bool → Bool
stamp_then a b rest = then_by (stamp_lt a b) (stamp_lt b a) rest

abbrev pub bool_then : Bool → Bool → Bool → Bool
bool_then a b rest = then_by (not a && b) (not b && a) rest

abbrev pub lists_before : Task → Task → Bool
lists_before t u = bool_then t.completed u.completed (
    bool_then (not (is_valid t.due_date)) (not (is_valid u.due_date)) (
      stamp_then t.due_date u.due_date
        (stamp_then t.due_utc u.due_utc (stamp_then t.created_at u.created_at (str_lt t.id u.id)))))

abbrev maximum_task_query_limit : ℕ
maximum_task_query_limit = 5000

unfoldable pub tasks_of : Bool → Store → TaskQuery → Result (List Task)
tasks_of runs s q =
    if runs
    then ok (
        take (max 1 (min (pos_part q.limit) maximum_task_query_limit))
          (drop (pos_part q.offset) (sort_by lists_before (select (in_query q) s.tasks))))
    else failed (sql_error "list tasks")

-- The row that `task` reads: one that is not a tombstone.
abbrev pub is_live : String → Task → Bool
is_live id t = has_id id t && not t.deleted

unfoldable pub task_of : Bool → Store → String → Result Task
task_of runs s task_id =
    if not runs
    then failed (sql_error "get task")
    else elim (first (select (is_live task_id) s.tasks)) [
      | none ↦ failed (rejected "Task not found")
      | some t ↦ ok t
    ]

unfoldable pub pending_task_writes : Bool → Store → String → Result (List Task)
pending_task_writes runs s list_id =
    if runs
    then ok (
        sort_by (λ t u. stamp_then t.updated_at u.updated_at (str_lt t.id u.id))
          (select (λ t. str_eq t.list_id list_id && is_owed t.pending_operation) s.tasks))
    else failed (sql_error "list pending tasks")

-- A set of texts, as the list of them in the order of the rows.
unfoldable pub task_remote_ids : Bool → Store → String → Result (List String)
task_remote_ids runs s list_id =
    if runs
    then ok (
        map (λ t. t.remote_id)
          (select (λ t. str_eq t.list_id list_id && not (is_empty t.remote_id)) s.tasks))
    else failed (sql_error "list task remote ids")
