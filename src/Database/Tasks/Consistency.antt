-- ===== src/Database/Tasks/Consistency.antt =====
-- What every row of `tasks` satisfies, whatever operations run.
use mathlib.Core.Path.{subst}
use omacalendar.Base.Int.{ℤ}
use omacalendar.Base.{
  ℕ, ◌+◌, ◌≤◌, String, ◌≡◌, refl, ap, inl, inr, Bool, true, false, not, ◌&&◌, ◌||◌, Option, none,
  some, List, [], ◌∷◌, ◌++◌, arith, if◌then◌else◌, Bool-cases, All, All-append, update_where,
  delete_where, count_where, any, All-update_where, All-delete_where, first, All-zip, str_eq,
  str_eq_iff, is_empty,
}
use omacalendar.Database.{Task, TaskList, Store, Result, ok, failed, Sql, bump_change_revision}
use omacalendar.Database.Tasks.{QtText, Fresh, validate_task, is_owed, is_remove, has_id}
use omacalendar.Database.Tasks.Rows.{rows_of, only_row}
use omacalendar.Database.Tasks.Local.{
  existing_task, refuse_edit, identify, prepare_task, overwrite_task, upsert_task, is_local,
  store_accepted, store_task, store_found, save_in_list, save_local_task, bury_task,
  is_read_only_result, is_local_result, remove_from, remove_found,
}
use omacalendar.Database.Tasks.Lists.{task_list, remove_task_list}
use omacalendar.Database.Tasks.Lists.{task_list, remove_task_list}
use omacalendar.Database.Tasks.Remote.{
  record_sent, overwrite_uploaded, Sent, was_edited, write_sent, takes_upload, complete_found,
}

-- A row is dirty where it owes a write, and a tombstone where it owes a removal.
abbrev pub IsTidy : Task → Type 0
IsTidy t = (t.dirty ≡ is_owed t.pending_operation) × (t.deleted ≡ is_remove t.pending_operation)

-- Every row is tidy, and no two rows have the same id.
abbrev pub AreSound : List Task → Type 0
AreSound rows = All IsTidy rows × ((id : String) → count_where (has_id id) rows ≤ 1)

pub count-update :
    (id : String) (test : Task → Bool) (f : Task → Task) (rows : List Task)
    → ((r : Task) → (f r).id ≡ r.id)
    → count_where (has_id id) (update_where test f rows) ≡ count_where (has_id id) rows
count-update id test f [] k = refl
count-update id test f (r ∷ rows) k = ground (arith, k r, count-update id test f rows k)

count-delete :
    (id : String) (test : Task → Bool) (rows : List Task)
    → count_where (has_id id) (delete_where test rows) ≤ count_where (has_id id) rows
count-delete id test [] = omega arith
count-delete id test (r ∷ rows) = ground (arith, count-delete id test rows)

pub count-none :
    (id : String) (rows : List Task)
    → any (has_id id) rows ≡ false
    → count_where (has_id id) rows ≡ 0
count-none id [] n = refl
count-none id (r ∷ rows) n = ground (arith, count-none id rows)

count-snoc :
    (id : String) (t : Task) (rows : List Task)
    → count_where (has_id id) (rows ++ t ∷ [])
      ≡ count_where (has_id id) rows + (if has_id id t then 1 else 0)
count-snoc id t [] = ground arith
count-snoc id t (r ∷ rows) = ground (arith, count-snoc id t rows)

count-append :
    (id : String) (t : Task) (rows : List Task)
    → any (has_id t.id) rows ≡ false
    → count_where (has_id id) rows ≤ 1
    → count_where (has_id id) (rows ++ t ∷ []) ≤ 1
count-append id t rows n c = elim (Bool-cases (has_id id t)) [
  | inl e ↦
      let same : t.id ≡ id = ground (arith, str_eq_iff t.id id) in
      let none_yet = count-none id rows (rw same at n) in
      ground (arith, count-snoc id t rows, none_yet, e)
  | inr e ↦ ground (arith, count-snoc id t rows, c, e)
]

pub update-AreSound :
    (test : Task → Bool) (f : Task → Task) (rows : List Task)
    → ((r : Task) → (f r).id ≡ r.id)
    → ((r : Task) → IsTidy r → test r ≡ true → IsTidy (f r))
    → AreSound rows
    → AreSound (update_where test f rows)
update-AreSound test f rows k t h = (
  All-update_where IsTidy IsTidy test f t (λ r p e. p) rows h.0,
  (λ id. omega (arith, count-update id test f rows k, h.1 id)),
)

pub delete-AreSound :
    (test : Task → Bool) (rows : List Task) → AreSound rows → AreSound (delete_where test rows)
delete-AreSound test rows h = (
  All-delete_where IsTidy IsTidy test (λ r p e. p) rows h.0,
  (λ id. omega (arith, count-delete id test rows, h.1 id)),
)

pub append-AreSound :
    (t : Task) (rows : List Task)
    → any (has_id t.id) rows ≡ false
    → IsTidy t
    → AreSound rows
    → AreSound (rows ++ t ∷ [])
append-AreSound t rows n i h =
    (All-append IsTidy rows (t ∷ []) h.0 (i, tt), (λ id. count-append id t rows n (h.1 id)))

select-none :
    (id : String) (rows : List Task) → count_where (has_id id) rows ≡ 0 → rows_of id rows ≡ []
select-none id [] c = refl
select-none id (r ∷ rows) c = ground (arith, select-none id rows)

-- A task that a SELECT by the id returns is its one row.
pub one_row :
    (id : String) (t : Task) (rows : List Task)
    → count_where (has_id id) rows ≤ 1
    → first (rows_of id rows) ≡ some t
    → rows_of id rows ≡ t ∷ []
one_row id t [] c e = cc
one_row id t (r ∷ rows) c e = ground (arith, select-none id rows, one_row id t rows)

upsert-AreSound :
    (t : Task) (s : Store) → IsTidy t → AreSound s.tasks → AreSound (upsert_task t s).tasks
upsert-AreSound t s i h = elim (Bool-cases (any (has_id t.id) s.tasks)) [
  | inl e ↦
      rw e (update-AreSound (has_id t.id) (overwrite_task t) s.tasks (λ r. refl) (λ r p m. i) h)
  | inr e ↦ rw e (append-AreSound t s.tasks e i h)
]

store_accepted-AreSound :
    (sql : Sql) (s : Store) (t : Task) (refused : Option String)
    → IsTidy t
    → AreSound s.tasks
    → AreSound (store_accepted sql s t refused).0.tasks
unfolding store_accepted bump_change_revision
store_accepted-AreSound sql s t (some m) i h = h
store_accepted-AreSound sql s t none i h = elim (Bool-cases (sql 2)) [
  | inr b ↦ rw b h
  | inl b ↦ rw b (elim (Bool-cases (sql 3)) [
    | inl c ↦ rw c (upsert-AreSound t s i h)
    | inr c ↦ rw c (upsert-AreSound t s i h)
  ])
]

prepare_task-IsTidy :
    (qt : QtText) (local : Bool) (now : ℕ) (existing : Option Task) (task : Task)
    → IsTidy (prepare_task qt local now existing task)
prepare_task-IsTidy qt local now none task = ground arith
prepare_task-IsTidy qt local now (some existing) task = ground arith

store_task-AreSound :
    (qt : QtText) (sql : Sql) (s : Store) (now : ℕ) (fresh : Fresh) (expected : ℤ) (task : Task)
    (list : TaskList) (existing : Option Task)
    → AreSound s.tasks
    → AreSound (store_task qt sql s now fresh expected task list existing).0.tasks
unfolding store_task
store_task-AreSound qt sql s now fresh expected task list existing h =
    let t = identify fresh now existing task in
    store_accepted-AreSound sql s (prepare_task qt (is_local list) now existing t)
      (refuse_edit expected task existing) (prepare_task-IsTidy qt (is_local list) now existing t) h

store_found-AreSound :
    (qt : QtText) (sql : Sql) (s : Store) (now : ℕ) (fresh : Fresh) (expected : ℤ) (task : Task)
    (list : TaskList) (found : Result (Option Task))
    → AreSound s.tasks
    → AreSound (store_found qt sql s now fresh expected task list found).0.tasks
unfolding store_found
store_found-AreSound qt sql s now fresh expected task list (failed e) h = h
store_found-AreSound qt sql s now fresh expected task list (ok existing) h =
    store_task-AreSound qt sql s now fresh expected task list existing h

save_in_list-AreSound :
    (qt : QtText) (sql : Sql) (s : Store) (now : ℕ) (fresh : Fresh) (expected : ℤ) (task : Task)
    (list : Result TaskList)
    → AreSound s.tasks
    → AreSound (save_in_list qt sql s now fresh expected task list).0.tasks
unfolding save_in_list
save_in_list-AreSound qt sql s now fresh expected task (failed e) h = h
save_in_list-AreSound qt sql s now fresh expected task (ok list) h =
    elim (Bool-cases (is_empty list.id)) [
      | inl e ↦ rw e h
      | inr e ↦ rw e (elim (Bool-cases list.read_only) [
        | inl r ↦ rw r h
        | inr r ↦ rw r (
            store_found-AreSound qt sql s now fresh expected task list
              (existing_task (sql 1) s task.id) h)
      ])
    ]

pub save-AreSound :
    (qt : QtText) (sql : Sql) (s : Store) (now : ℕ) (fresh : Fresh) (expected : ℤ) (task : Task)
    → AreSound s.tasks
    → AreSound (save_local_task qt sql s now fresh expected task).0.tasks
unfolding save_local_task
save-AreSound qt sql s now fresh expected task h =
    elim (Bool-cases (is_empty (validate_task qt task))) [
      | inl v ↦ rw v (
          save_in_list-AreSound qt sql s now fresh expected task (task_list (sql 0) s task.list_id)
            h)
      | inr v ↦ rw v h
    ]

remove_from-AreSound :
    (sql : Sql) (s : Store) (now : ℕ) (id : String) (list : Result TaskList)
    → AreSound s.tasks
    → AreSound (remove_from sql s now id list).0.tasks
unfolding remove_from bump_change_revision
remove_from-AreSound sql s now id list h =
    elim (Bool-cases (is_read_only_result list || not (sql 2))) [
      | inl e ↦ subst AreSound (ground arith) h
      | inr e ↦ elim (Bool-cases (is_local_result list)) [
        | inl l ↦ subst AreSound (ground arith) (delete-AreSound (has_id id) s.tasks h)
        | inr l ↦ subst AreSound (ground arith) (
            update-AreSound (has_id id) (bury_task now) s.tasks (λ r. refl) (λ r p m. (refl, refl))
              h)
      ]
    ]

pub remove_found-AreSound :
    (sql : Sql) (s : Store) (now : ℕ) (id : String) (found : Result Task)
    → AreSound s.tasks
    → AreSound (remove_found sql s now id found).0.tasks
unfolding remove_found
remove_found-AreSound sql s now id (failed e) h = h
remove_found-AreSound sql s now id (ok t) h = elim (Bool-cases (is_empty t.id)) [
  | inl e ↦ rw e h
  | inr e ↦ rw e (remove_from-AreSound sql s now id (task_list (sql 1) s t.list_id) h)
]

pub remove_list-AreSound :
    (sql : Sql) (s : Store) (id : String)
    → AreSound s.tasks
    → AreSound (remove_task_list sql s id).0.tasks
unfolding remove_task_list bump_change_revision
remove_list-AreSound sql s id h = elim (Bool-cases (sql 0)) [
  | inr e ↦ rw e h
  | inl e ↦ subst AreSound (ground arith) (delete-AreSound (λ t. str_eq t.list_id id) s.tasks h)
]

sent-IsTidy :
    (edited : Bool) (remote_id etag payload format : String) (t r : Task)
    → (is_remove t.pending_operation && not edited) ≡ false
    → IsTidy r
    → r ≡ t
    → IsTidy (record_sent edited t.pending_operation remote_id etag payload format r)
sent-IsTidy edited remote_id etag payload format t r e i same =
    let op : r.pending_operation ≡ t.pending_operation = ap (λ x. x.pending_operation) same in
    ground (arith, i.1, op)

-- What was sent keeps the row that is the task's one row tidy.
write_sent-AreSound :
    (s : Store) (id : String) (sent : Sent) (t : Task)
    → rows_of id s.tasks ≡ t ∷ []
    → AreSound s.tasks
    → AreSound (write_sent id sent t s).tasks
write_sent-AreSound s id sent t row h =
    elim (Bool-cases (is_remove t.pending_operation && not (was_edited sent t))) [
      | inl e ↦ rw e (delete-AreSound (has_id id) s.tasks h)
      | inr e ↦ rw e (
          let f =
            record_sent (was_edited sent t) t.pending_operation sent.remote_id sent.etag
              sent.raw_payload sent.raw_format in
          let P : Task → Type 0 = λ r. IsTidy r × (has_id id r ≡ true → r ≡ t) in
          (
            All-update_where P IsTidy (has_id id) f
                (λ r p m.
                  sent-IsTidy (was_edited sent t) sent.remote_id sent.etag sent.raw_payload
                    sent.raw_format t r e p.0 (p.1 m))
                (λ r p m. p.0) s.tasks
                (All-zip IsTidy (λ r. has_id id r ≡ true → r ≡ t) s.tasks h.0
                  (only_row id t s.tasks row)),
            (λ id'. omega (arith, count-update id' (has_id id) f s.tasks (λ r. refl), h.1 id')),
          ))
    ]

uploaded_id : (u : Option Task) (r : Task) → (overwrite_uploaded u r).id ≡ r.id
uploaded_id none r = refl
uploaded_id (some u) r = refl

uploaded-IsTidy : (u : Option Task) (r : Task) → IsTidy r → IsTidy (overwrite_uploaded u r)
uploaded-IsTidy none r h = h
uploaded-IsTidy (some u) r h = h

pub complete_found-AreSound :
    (sql : Sql) (s : Store) (id : String) (sent : Sent) (found : Option Task)
    → first (rows_of id s.tasks) ≡ found
    → AreSound s.tasks
    → AreSound (complete_found sql s id sent found).0.tasks
unfolding complete_found bump_change_revision
complete_found-AreSound sql s id sent none f h = h
complete_found-AreSound sql s id sent (some t) f h =
    let w = write_sent-AreSound s id sent t (one_row id t s.tasks (h.1 id) f) h in
    let g = overwrite_uploaded sent.uploaded in
    let u =
      update-AreSound (has_id id) g (write_sent id sent t s).tasks (uploaded_id sent.uploaded)
        (λ r p m. uploaded-IsTidy sent.uploaded r p) w in
    elim (Bool-cases (sql 1)) [
      | inr a ↦ rw a h
      | inl a ↦ rw a (elim (Bool-cases (takes_upload sent t && sql 2)) [
        | inl b ↦ subst AreSound (ground arith) u
        | inr b ↦ subst AreSound (ground arith) w
      ])
    ]
