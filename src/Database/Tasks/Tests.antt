-- ===== src/Database/Tasks/Tests.antt =====
-- Tests of the task store, and its theorems at concrete inputs.
use omacalendar.Base.Int.{pos}
use omacalendar.Base.{String, ◌≡◌, refl, Bool, true, false, none, some, [], ◌∷◌, map, arith, All}
use omacalendar.Database.{no_operation, update, Task, TaskList, Store, empty_store, Result, ok, Sql}
use omacalendar.Database.Reminders.{succeeded}
use omacalendar.Database.Tasks.{QtText, Fresh}
use omacalendar.Database.Tasks.Rows.{rows_of}
use omacalendar.Database.Tasks.Remote.{
  ApplySql, seen_ids, apply_remote_tasks, Sent, complete_task_write,
}
use omacalendar.Database.Tasks.Local.{save_local_task}
use omacalendar.Database.Tasks.Owed.{apply_remote_tasks-owed}
use omacalendar.Database.Tasks.Mirror.{IsKnown, apply_remote_tasks_complete}
use omacalendar.Database.Tasks.Edits.{save_local_task-once, IsEditOf, complete_task_write-save}
use omacalendar.Database.Tasks.Consistency.{AreSound, append-AreSound}
use omacalendar.Database.Tasks.Steps.{removes_task, call_tasks, call_tasks-AreSound}

abbrev runs : Sql
runs k = true

abbrev all_run : ApplySql
all_run k = true

abbrev plain_text : QtText
plain_text = record { trimmed = λ s. s; size = λ s. 7 }

abbrev fresh_ids : Fresh
fresh_ids = record { id = "new-id"; uid = "new-uid" }

-- A task that was synced at revision 1.
abbrev synced : String → String → Task
synced id remote_id = record {
  id = id;
  list_id = "work";
  remote_id = remote_id;
  uid = "uid";
  etag = "etag-1";
  title = "Write";
  notes = "";
  due_date = none;
  due_utc = none;
  completed = false;
  completed_at = none;
  priority = pos 0;
  parent_id = "";
  position = "";
  raw_payload = "";
  raw_format = "";
  dirty = false;
  deleted = false;
  pending_operation = no_operation;
  local_revision = 1;
  created_at = some 1;
  updated_at = some 1;
}

abbrev edited_task : Task
edited_task = record (synced "a" "remote-a") {
  title = "Rewrite";
  dirty = true;
  pending_operation = update;
  local_revision = 2;
}

abbrev work_list : TaskList
work_list = record {
  id = "work";
  account_id = "google";
  remote_id = "list";
  name = "Work";
  color = "";
  read_only = false;
  enabled = true;
  position = pos 0;
  sync_token = "";
  capabilities = [];
  last_sync_at = none;
}

-- One task that is edited, and one that is as the provider has it.
abbrev work : Store
work = record empty_store {
  accounts = record { id = "google"; provider = "google" } ∷ [];
  task_lists = work_list ∷ [];
  tasks = edited_task ∷ synced "b" "remote-b" ∷ [];
}

abbrev remote_edit : Task
remote_edit = record (synced "" "remote-a") { etag = "etag-2"; title = "Elsewhere" }

abbrev remote_new : Task
remote_new = record (synced "" "remote-c") { title = "Other" }

abbrev sync : Store × Result Bool
sync = apply_remote_tasks all_run work 9 (λ k. "fresh") "work" (remote_edit ∷ remote_new ∷ []) true

-- The edit stays, the task that the provider lost is removed, the one that it has is new.
sync_titles : map (λ t. t.title) sync.0.tasks ≡ "Rewrite" ∷ "Other" ∷ []
unfolding apply_remote_tasks
sync_titles = refl

sync_changed : sync.1 ≡ ok true
unfolding apply_remote_tasks
sync_changed = refl

abbrev save_synced : Store × Result Task
save_synced =
    save_local_task plain_text runs work 9 fresh_ids (pos 1)
      (record (synced "b" "") { title = "Again" })

saved_revision : map (λ t. t.local_revision) save_synced.0.tasks ≡ 2 ∷ 2 ∷ []
unfolding save_local_task
saved_revision = refl

abbrev again : Task
again = record (synced "b" "remote-b") {
  title = "Again";
  dirty = true;
  pending_operation = update;
  local_revision = 2;
  updated_at = some 9;
}

abbrev sent_b : Sent
sent_b = record {
  revision = 1;
  remote_id = "remote-b";
  etag = "etag-3";
  raw_payload = "";
  raw_format = "";
  uploaded = none;
}

apply_remote_tasks-owed_example : rows_of "a" sync.0.tasks ≡ edited_task ∷ []
apply_remote_tasks-owed_example =
    apply_remote_tasks-owed all_run work 9 (λ k. "fresh") "work" (remote_edit ∷ remote_new ∷ [])
      true "a" edited_task refl refl

apply_remote_tasks_complete_example :
    All (IsKnown "work" (seen_ids (remote_edit ∷ remote_new ∷ []))) sync.0.tasks
unfolding apply_remote_tasks
apply_remote_tasks_complete_example =
    apply_remote_tasks_complete all_run work 9 (λ k. "fresh") "work" (remote_edit ∷ remote_new ∷ [])
      true refl

save_local_task-once_example :
    let r =
      save_local_task plain_text runs save_synced.0 10 fresh_ids
        (pos 1)
        (record (synced "b" "") { title = "Late" }) in
    (r.0 ≡ save_synced.0) × (succeeded r.1 ≡ false)
unfolding save_local_task
save_local_task-once_example =
    save_local_task-once plain_text runs runs work 9 10 fresh_ids fresh_ids 1
      (record (synced "b" "") { title = "Again" }) (record (synced "b" "") { title = "Late" }) again
      (synced "b" "remote-b") refl refl refl refl refl

complete_task_write-save_example :
    (row : Task) × (rows_of "b" (complete_task_write runs save_synced.0 "b" sent_b).0.tasks
      ≡ row ∷ [])
    × IsEditOf again sent_b row
unfolding save_local_task complete_task_write
complete_task_write-save_example =
    complete_task_write-save plain_text runs runs work 9 fresh_ids (pos 1)
      (record (synced "b" "") { title = "Again" }) again (synced "b" "remote-b") sent_b refl refl
      refl refl refl refl refl

work-AreSound : AreSound work.tasks
work-AreSound =
    append-AreSound (synced "b" "remote-b") (edited_task ∷ []) refl (refl, refl)
      (append-AreSound edited_task [] refl (refl, refl) (tt, (λ id. omega arith)))

call_tasks-AreSound_example : AreSound (call_tasks work (removes_task runs 9 "b")).tasks
call_tasks-AreSound_example = call_tasks-AreSound work (removes_task runs 9 "b") work-AreSound
