-- ===== src/Database/Tasks/Lists.antt =====
-- The task lists of src/core/databasetasks.cpp. A list is read with the provider of its account.
use omacalendar.Base.{
  String, Bool, not, ◌&&◌, ◌||◌, Option, none, some, List, [], ◌∷◌, ◌++◌, if◌then◌else◌, select,
  update_where, delete_where, any, first, str_eq, is_empty,
}
use omacalendar.Database.{
  TaskList, AccountRow, Store, sql_error, rejected, Result, ok, failed, Sql, bump_change_revision,
}

-- `capabilities.value("provider")`, `insert` and `remove` on the members of an object.
abbrev pub provider_key : String
provider_key = "provider"

abbrev pub without_provider : List (String × String) → List (String × String)
without_provider = delete_where (λ m. str_eq m.0 provider_key)

abbrev pub provider_of : List (String × String) → String
provider_of [] = ""
provider_of ((k, v) ∷ ms) = let rest = provider_of ms in if str_eq k provider_key then v else rest

-- `taskListFromQuery` on a row and the provider of its account.
abbrev pub task_list_from_query : TaskList → AccountRow → TaskList
task_list_from_query l a = record l {
  capabilities = (provider_key, a.provider) ∷ without_provider l.capabilities;
}

-- The JOIN of a list with the accounts.
abbrev pub joined_list : Store → TaskList → Option TaskList
joined_list s l = elim (first (select (λ a. str_eq a.id l.account_id) s.accounts)) [
  | none ↦ none
  | some a ↦ some (task_list_from_query l a)
]

abbrev pub find_list : (TaskList → Bool) → Store → Option TaskList
find_list test s = elim (first (select test s.task_lists)) [
  | none ↦ none
  | some l ↦ joined_list s l
]

unfoldable pub task_list : Bool → Store → String → Result TaskList
task_list runs s list_id =
    if not runs
    then failed (sql_error "get task list")
    else elim (find_list (λ l. str_eq l.id list_id) s) [
      | none ↦ failed (rejected "Task list not found")
      | some l ↦ ok l
    ]

-- `none` stands for the empty list that is returned where there is no row.
unfoldable pub task_list_by_remote_id : Bool → Store → String → String → Result (Option TaskList)
task_list_by_remote_id runs s account_id remote_id =
    if not runs
    then failed (sql_error "find task list")
    else ok (find_list (λ l. str_eq l.account_id account_id && str_eq l.remote_id remote_id) s)

-- The columns of the ON CONFLICT clause; the account stays.
abbrev pub overwrite_list : TaskList → TaskList → TaskList
overwrite_list l r = record l { account_id = r.account_id }

unfoldable pub upsert_task_list : Sql → Store → TaskList → Store × Result (Unit {0})
unfolding bump_change_revision
upsert_task_list sql s list =
    let l : TaskList = record list { capabilities = without_provider list.capabilities } in
    if is_empty list.id || is_empty list.account_id || is_empty list.name
    then (s, failed (rejected "A task list needs an id, account and name"))
    else if not (sql 0)
    then (s, failed (sql_error "save task list"))
    else bump_change_revision (sql 1) tt (record s {
      task_lists =
          if any (λ r. str_eq r.id l.id) s.task_lists
          then update_where (λ r. str_eq r.id l.id) (overwrite_list l) s.task_lists
          else s.task_lists ++ l ∷ [];
    })

unfoldable pub set_task_list_enabled : Sql → Store → String → Bool → Store × Result (Unit {0})
unfolding bump_change_revision
set_task_list_enabled sql s list_id enabled =
    if not (sql 0)
    then (s, failed (sql_error "update task list"))
    else if not (any (λ r. str_eq r.id list_id) s.task_lists)
    then (s, failed (rejected "Task list not found"))
    else bump_change_revision (sql 1) tt (record s {
      task_lists =
          update_where (λ r. str_eq r.id list_id) (λ r. record r { enabled = enabled })
            s.task_lists;
    })

-- The tasks of the list go with it: ON DELETE CASCADE.
unfoldable pub remove_task_list : Sql → Store → String → Store × Result (Unit {0})
unfolding bump_change_revision
remove_task_list sql s list_id =
    if not (sql 0)
    then (s, failed (sql_error "remove task list"))
    else bump_change_revision (sql 1) tt (record s {
      task_lists = delete_where (λ r. str_eq r.id list_id) s.task_lists;
      tasks = delete_where (λ t. str_eq t.list_id list_id) s.tasks;
    })
