-- ===== src/Database/Tasks/Edits.antt =====
-- Edits of a task that meet other edits, or an upload under way.
use omacalendar.Base.Int.{ℤ, pos}
use omacalendar.Base.{
  ℕ, String, ◌≡◌, refl, sym, ap, ◌∙◌, ◌⊎◌, inl, inr, Bool, true, false, not, ◌&&◌, ◌||◌, some, List,
  [], ◌∷◌, map, arith, if◌then◌else◌, Bool-cases, select, update_where, first, is_empty,
}
use omacalendar.Database.{
  update, Task, TaskList, Store, sql_error, Result, ok, failed, Sql, bump_change_revision,
}
use omacalendar.Database.Reminders.{succeeded}
use omacalendar.Database.Tasks.{QtText, Fresh, validate_task, is_owed, has_id, is_live}
use omacalendar.Database.Tasks.Rows.{rows_of, rows_of-update_own, any-rows_of}
use omacalendar.Database.Tasks.Local.{
  existing_task, is_outdated, identify, prepare_task, overwrite_task, upsert_task, is_local,
  store_accepted, store_task, store_found, save_in_list, save_local_task,
}
use omacalendar.Database.Tasks.Lists.{task_list}
use omacalendar.Database.Tasks.Lists.{task_list}
use omacalendar.Database.Tasks.Lists.{task_list}
use omacalendar.Database.Tasks.Remote.{
  still_owed, record_sent, Sent, was_edited, complete_found, complete_task_write,
}

select-and :
    (test more : Task → Bool) (rows : List Task)
    → select (λ t. test t && more t) rows ≡ select more (select test rows)
select-and test more [] = refl
select-and test more (r ∷ rows) = ground (arith, select-and test more rows)

-- The row that `task` finds of a task with one row that is no tombstone.
first-live :
    (id : String) (t : Task) (rows : List Task)
    → rows_of id rows ≡ t ∷ []
    → t.deleted ≡ false
    → first (select (is_live id) rows) ≡ some t
first-live id t rows e d =
    rw (select-and (has_id id) (λ t. not t.deleted) rows, e) (ground (arith, d))

module _ (qt : QtText) (sql : Sql) (s : Store) (now : ℕ) (fresh : Fresh) (expected : ℤ)
    (task t : Task) where
  abbrev edited : TaskList → Task
  edited list = prepare_task qt (is_local list) now (some t) (identify fresh now (some t) task)

  store_task-refused :
      (list : TaskList)
      → is_outdated expected t ≡ true
      → ((store_task qt sql s now fresh expected task list (some t)).0 ≡ s)
        × (succeeded (store_task qt sql s now fresh expected task list (some t)).1 ≡ false)
  unfolding store_task store_accepted
  store_task-refused list o = ground arith

  store_task-stored :
      (list : TaskList) (task' : Task)
      → (store_task qt sql s now fresh expected task list (some t)).1 ≡ ok task'
      → (is_outdated expected t ≡ false)
        × (task' ≡ edited list)
        × ((store_task qt sql s now fresh expected task list (some t)).0.tasks
            ≡ (upsert_task (edited list) s).tasks)
  unfolding store_task store_accepted bump_change_revision
  store_task-stored list task' e = ground arith

  -- With one row that is no tombstone, a save looks at that row.
  module _ (named : is_empty task.id ≡ false) (row : rows_of task.id s.tasks ≡ t ∷ [])
      (live : t.deleted ≡ false) where
    existing_found :
        (runs : Bool)
        → existing_task runs s task.id
          ≡ (if runs then ok (some t) else failed (sql_error "get task"))
    unfolding existing_task
    existing_found runs = rw (named, first-live task.id t s.tasks row live) (ground arith)

    abbrev IsSaveOf : Store × Result Task → Type 0
    IsSaveOf r =
        ((r.0 ≡ s) × (succeeded r.1 ≡ false))
        ⊎ ((list : TaskList) × (r ≡ store_task qt sql s now fresh expected task list (some t)))

    save_in_list-IsSaveOf :
        (l : Result TaskList) → IsSaveOf (save_in_list qt sql s now fresh expected task l)
    unfolding save_in_list store_found
    save_in_list-IsSaveOf (failed e) = inl (refl, refl)
    save_in_list-IsSaveOf (ok list) =
        rw (existing_found (sql 1))
          (elim (Bool-cases (is_empty list.id || list.read_only || not (sql 1))) [
            | inl b ↦ inl (ground arith)
            | inr b ↦ inr (list, ground arith)
          ])

    save-IsSaveOf : IsSaveOf (save_local_task qt sql s now fresh expected task)
    unfolding save_local_task
    save-IsSaveOf = elim (Bool-cases (is_empty (validate_task qt task))) [
      | inl v ↦ rw v (save_in_list-IsSaveOf (task_list (sql 0) s task.list_id))
      | inr v ↦ rw v (inl (refl, refl))
    ]

    -- A save against another revision than that of the row changes nothing.
    save_refused :
        is_outdated expected t ≡ true
        → let r = save_local_task qt sql s now fresh expected task in
          (r.0 ≡ s) × (succeeded r.1 ≡ false)
    save_refused o = elim save-IsSaveOf [
      | inl e ↦ e
      | inr (list, e) ↦ rw e (store_task-refused list o)
    ]

    save_stored :
        (task' : Task)
        → let r = save_local_task qt sql s now fresh expected task in
          r.1 ≡ ok task'
          → (is_outdated expected t ≡ false)
            × (list : TaskList) × (task' ≡ edited list)
            × (rows_of task.id r.0.tasks ≡ overwrite_task task' t ∷ [])
    save_stored task' e = elim save-IsSaveOf [
      | inl (same, f) ↦ absurd (cc (f, ap succeeded e))
      | inr (list, f) ↦
          let (o, t', rows) = store_task-stored list task' (ap (λ r. r.1) (sym f) ∙ e) in
          let stored : rows_of task.id (upsert_task (edited list) s).tasks
              ≡ overwrite_task (edited list) t ∷ [] =
            rw (any-rows_of task.id t s.tasks row) (
              rows_of-update_own task.id (overwrite_task (edited list)) s.tasks (λ r. refl)
              ∙ ap (map (overwrite_task (edited list))) row) in
          (
            o,
            list,
            t',
            ap (λ r. rows_of task.id r.0.tasks) f
                ∙ ap (rows_of task.id) rows
                ∙ stored
                ∙ ap (λ x. overwrite_task x t ∷ []) (sym t'),
          )
    ]

-- Of two saves of a task that expect the same revision only one succeeds: once the first one did, on a
-- task with one row that is no tombstone, the second one fails and leaves the store as it is, whatever it
-- carries and whichever statements run.
pub save_local_task-once :
    (qt : QtText) (sql sql' : Sql) (s : Store) (now now' : ℕ) (fresh fresh' : Fresh) (revision : ℕ)
    (task other saved t : Task)
    → is_empty task.id ≡ false
    → rows_of task.id s.tasks ≡ t ∷ []
    → t.deleted ≡ false
    → other.id ≡ task.id
    → let s' = (save_local_task qt sql s now fresh (pos revision) task).0 in
      (save_local_task qt sql s now fresh (pos revision) task).1 ≡ ok saved
      → let r = save_local_task qt sql' s' now' fresh' (pos revision) other in
        (r.0 ≡ s') × (succeeded r.1 ≡ false)
save_local_task-once qt sql sql' s now now' fresh fresh' revision task other saved t named row live
      same e =
    let s' = (save_local_task qt sql s now fresh (pos revision) task).0 in
    let (o, list, saved_is, row') =
      save_stored qt sql s now fresh (pos revision) task t named row live saved e in
    save_refused qt sql' s' now' fresh' (pos revision) other (overwrite_task saved t)
      (ap is_empty same ∙ named) (rw (same) row') (rw saved_is refl)
      (rw saved_is (ground (arith, o)))

-- What a row holds of an edit once an upload that began before the edit has completed.
pub record IsEditOf (edit : Task) (sent : Sent) (row : Task) : Type 0 where
  pub owes : row.pending_operation ≡ update
  pub is_dirty : row.dirty ≡ true
  pub found : row.remote_id ≡ sent.remote_id
  pub title : row.title ≡ edit.title
  pub notes : row.notes ≡ edit.notes
  pub due_date : row.due_date ≡ edit.due_date
  pub due_utc : row.due_utc ≡ edit.due_utc
  pub completed : row.completed ≡ edit.completed
  pub priority : row.priority ≡ edit.priority
  pub local_revision : row.local_revision ≡ edit.local_revision

module _ (sql : Sql) (s : Store) (id : String) (sent : Sent) (t : Task)
    (row : rows_of id s.tasks ≡ t ∷ []) where
  abbrev sent_row : Task
  sent_row =
      record_sent true t.pending_operation sent.remote_id sent.etag sent.raw_payload sent.raw_format
        t

  complete-edited :
      was_edited sent t ≡ true
      → (complete_task_write sql s id sent).1 ≡ ok tt
      → (complete_task_write sql s id sent).0.tasks
        ≡ update_where
            (has_id id)
            (record_sent true t.pending_operation sent.remote_id sent.etag sent.raw_payload
              sent.raw_format)
            s.tasks
  unfolding complete_task_write complete_found bump_change_revision
  complete-edited edited = rw row (λ e. ground (arith, e, edited))

  rows_of-complete_edited :
      was_edited sent t ≡ true
      → (complete_task_write sql s id sent).1 ≡ ok tt
      → rows_of id (complete_task_write sql s id sent).0.tasks ≡ sent_row ∷ []
  rows_of-complete_edited edited e =
      let f =
        record_sent true t.pending_operation sent.remote_id sent.etag sent.raw_payload
          sent.raw_format in
      ap (rows_of id) (complete-edited edited e)
      ∙ rows_of-update_own id f s.tasks (λ r. refl)
      ∙ ap (map f) row

-- An edit of a task that is saved while an upload of the task is under way, on a list that owes its writes to
-- a provider: once the upload completes, the row has the identity that the provider gave, holds the
-- edit, and owes it as an update. The task has one row, that is no tombstone, and the upload was of
-- the row as it stood before the edit.
pub complete_task_write-save :
    (qt : QtText) (sql sql' : Sql) (s : Store) (now : ℕ) (fresh : Fresh) (expected : ℤ)
    (task edit t : Task) (sent : Sent)
    → is_empty task.id ≡ false
    → rows_of task.id s.tasks ≡ t ∷ []
    → t.deleted ≡ false
    → sent.revision ≡ t.local_revision
    → let s' = (save_local_task qt sql s now fresh expected task).0 in
      (save_local_task qt sql s now fresh expected task).1 ≡ ok edit
      → is_owed edit.pending_operation ≡ true
      → (complete_task_write sql' s' task.id sent).1 ≡ ok tt
      → (row : Task) × (rows_of task.id (complete_task_write sql' s' task.id sent).0.tasks
          ≡ row ∷ [])
        × IsEditOf edit sent row
complete_task_write-save qt sql sql' s now fresh expected task edit t sent named row live at e owes
      settled =
    let s' = (save_local_task qt sql s now fresh expected task).0 in
    let (o, list, edit_is, row') =
      save_stored qt sql s now fresh expected task t named row live edit e in
    let edited : was_edited sent (overwrite_task edit t) ≡ true = rw edit_is (ground (arith, at)) in
    let op : still_owed true edit.pending_operation ≡ update = rw edit_is (ground arith) in
    (
      sent_row sql' s' task.id sent (overwrite_task edit t) row',
      rows_of-complete_edited sql' s' task.id sent (overwrite_task edit t) row' edited settled,
      record {
        owes = op;
        is_dirty = refl;
        found = refl;
        title = refl;
        notes = refl;
        due_date = refl;
        due_utc = refl;
        completed = refl;
        priority = refl;
        local_revision = refl;
      },
    )
