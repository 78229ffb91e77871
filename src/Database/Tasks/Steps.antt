-- ===== src/Database/Tasks/Steps.antt =====
-- The operations on the task store as calls, and what every call keeps of its rows.
use mathlib.Core.Path.{subst}
use omacalendar.Base.Int.{ℤ}
use omacalendar.Base.{
  ℕ, suc, ◌≤◌, String, ◌≡◌, refl, ap, inl, inr, Bool, true, false, not, ◌&&◌, ◌||◌, Option, none,
  some, List, [], ◌∷◌, arith, Bool-cases, Option-cases, select, update_where, delete_where,
  count_where, any, All-update_where, first, All-zip, str_eq_iff, is_empty,
}
use omacalendar.Database.{Task, Store, Sql, bump_if_changed}
use omacalendar.Database.Tasks.{QtText, Fresh, is_owed, has_id, task_of}
use omacalendar.Database.Tasks.Rows.{rows_of, option_eq, only_row}
use omacalendar.Database.Tasks.Remote.{
  begins, lists_stale, bumps, commits, finds, writes, removes, ApplySql, is_remote, is_kept,
  overwrite_remote, new_remote, apply_incoming, apply_all, seen_ids, stale_ids, remove_all,
  apply_batch, apply_remote_tasks, Sent, complete_task_write,
}
use omacalendar.Database.Tasks.Consistency.{
  IsTidy, AreSound, count-update, delete-AreSound, append-AreSound, one_row, save-AreSound,
  remove_found-AreSound, remove_list-AreSound, complete_found-AreSound,
}
use omacalendar.Database.Tasks.Local.{save_local_task, remove_local_task}
use omacalendar.Database.Tasks.Lists.{remove_task_list}

count-one :
    (id : String) (t : Task) (rows : List Task)
    → rows_of id rows ≡ t ∷ []
    → 1 ≤ count_where (has_id id) rows
count-one id t [] e = cc
count-one id t (r ∷ rows) e = ground (arith, count-one id t rows)

count-tail :
    (id : String) (x : Task) (rows : List Task)
    → count_where (has_id id) rows ≤ count_where (has_id id) (x ∷ rows)
count-tail id x rows = ground arith

-- A row that any SELECT returns is the one row of its task.
found_one :
    (test : Task → Bool) (rows : List Task) (r : Task)
    → first (select test rows) ≡ some r
    → count_where (has_id r.id) rows ≤ 1
    → rows_of r.id rows ≡ r ∷ []
found_one test [] r f c = cc
found_one test (x ∷ rows) r f c = elim (Bool-cases (test x)) [
  | inl e ↦ one_row r.id r (x ∷ rows) c (
      let same : x ≡ r = option_eq x r (rw e at f) in
      ground (arith, same, str_eq_iff x.id r.id, ap (λ t. t.id) same))
  | inr e ↦
      let rest = found_one test rows r (rw e at f) (omega (arith, c, count-tail r.id x rows)) in
      ground (arith, c, rest, count-one r.id r rows rest)
]

-- The rounds of a batch.
abbrev AreSoundIf : Option (List Task × Bool) → Type 0
AreSoundIf none = Unit
AreSoundIf (some (rows, changed)) = AreSound rows

overwrite-AreSound :
    (now : ℕ) (incoming r : Task) (rows : List Task)
    → rows_of r.id rows ≡ r ∷ []
    → is_owed r.pending_operation ≡ false
    → AreSound rows
    → AreSound (update_where (has_id r.id) (overwrite_remote now incoming) rows)
overwrite-AreSound now incoming r rows row free h =
    let P : Task → Type 0 = λ x. IsTidy x × (has_id r.id x ≡ true → x ≡ r) in
    (
      All-update_where P IsTidy (has_id r.id) (overwrite_remote now incoming)
          (λ x p m.
            let op : x.pending_operation ≡ r.pending_operation =
              ap (λ y. y.pending_operation) (p.1 m) in
            ground (arith, op, free))
          (λ x p m. p.0) rows
          (All-zip IsTidy (λ x. has_id r.id x ≡ true → x ≡ r) rows h.0 (only_row r.id r rows row)),
      (λ id. omega (
        arith,
        count-update id (has_id r.id) (overwrite_remote now incoming) rows (λ x. refl),
        h.1 id,
      )),
    )

apply_incoming-AreSound :
    (sql : ApplySql) (now : ℕ) (fresh : ℕ → String) (list_id : String) (k : ℕ) (incoming : Task)
    (rows : List Task)
    → AreSound rows
    → AreSoundIf (apply_incoming sql now fresh list_id k incoming rows)
unfolding apply_incoming
apply_incoming-AreSound sql now fresh list_id k incoming rows h =
    elim (Bool-cases (is_empty incoming.remote_id)) [
      | inl e ↦ rw (AreSoundIf, e) h
      | inr e ↦
          rw (AreSoundIf, e)
            (elim (Bool-cases (sql (finds k))) [
              | inr q ↦ rw q tt
              | inl q ↦ rw q (
                  let test = is_remote list_id incoming.remote_id in
                  elim (Option-cases (first (select test rows))) [
                    | inl n ↦
                        rw n
                          (elim (Bool-cases (sql (writes k) && not (any (has_id (fresh k)) rows))) [
                            | inr w ↦ rw w tt
                            | inl w ↦ rw w (
                                append-AreSound (new_remote now (fresh k) list_id incoming) rows
                                  (ground arith) (refl, refl) h)
                          ])
                    | inr (r, f) ↦ rw f (elim (Bool-cases (is_kept incoming r)) [
                      | inl o ↦ rw o h
                      | inr o ↦ rw o (elim (Bool-cases (sql (writes k))) [
                        | inr w ↦ rw w tt
                        | inl w ↦ rw w (
                            overwrite-AreSound now incoming r rows
                              (found_one test rows r f (h.1 r.id)) (ground arith) h)
                      ])
                    ])
                  ])
            ])
    ]

apply_all-AreSound :
    (sql : ApplySql) (now : ℕ) (fresh : ℕ → String) (list_id : String) (k : ℕ) (remote : List Task)
    (rows : List Task) (changed : Bool)
    → AreSound rows
    → AreSoundIf (apply_all sql now fresh list_id k remote rows changed)
unfolding apply_all
apply_all-AreSound sql now fresh list_id k [] rows changed h = h
apply_all-AreSound sql now fresh list_id k (i ∷ is) rows changed h =
    elim (Option-cases (apply_incoming sql now fresh list_id k i rows)) [
      | inl n ↦ rw (AreSoundIf, n) tt
      | inr ((rows', c), f) ↦
          rw (AreSoundIf, f)
            (apply_all-AreSound sql now fresh list_id (suc k) is rows' (changed || c)
              (subst AreSoundIf f (apply_incoming-AreSound sql now fresh list_id k i rows h)))
    ]

abbrev AreSoundKept : Option (List Task) → Type 0
AreSoundKept none = Unit
AreSoundKept (some rows) = AreSound rows

remove_all-AreSound :
    (sql : ApplySql) (k : ℕ) (ids : List String) (rows : List Task)
    → AreSound rows
    → AreSoundKept (remove_all sql k ids rows)
unfolding remove_all
remove_all-AreSound sql k [] rows h = h
remove_all-AreSound sql k (id ∷ ids) rows h = elim (Bool-cases (sql (removes k))) [
  | inl e ↦ rw e (
      remove_all-AreSound sql (suc k) ids (delete_where (has_id id) rows)
        (delete-AreSound (has_id id) rows h))
  | inr e ↦ rw e tt
]

apply_batch-AreSound :
    (sql : ApplySql) (now : ℕ) (fresh : ℕ → String) (list_id : String) (remote : List Task)
    (complete : Bool) (rows : List Task)
    → AreSound rows
    → AreSoundIf (apply_batch sql now fresh list_id remote complete rows)
unfolding apply_batch
apply_batch-AreSound sql now fresh list_id remote complete rows h =
    elim (Option-cases (apply_all sql now fresh list_id 0 remote rows false)) [
      | inl n ↦ rw (AreSoundIf, n) tt
      | inr ((applied, changed), f) ↦
          let a : AreSound applied =
            subst AreSoundIf f (apply_all-AreSound sql now fresh list_id 0 remote rows false h) in
          let stale = stale_ids list_id (seen_ids remote) applied in
          rw (AreSoundIf, f)
            (elim (Bool-cases complete) [
              | inr c ↦ rw c a
              | inl c ↦ rw c (elim (Bool-cases (sql lists_stale)) [
                | inr l ↦ rw l tt
                | inl l ↦ rw l (elim (Option-cases (remove_all sql 0 stale applied)) [
                  | inl n ↦ rw n tt
                  | inr (kept, g) ↦
                      rw g (subst AreSoundKept g (remove_all-AreSound sql 0 stale applied a))
                ])
              ])
            ])
    ]

apply_remote-AreSound :
    (sql : ApplySql) (s : Store) (now : ℕ) (fresh : ℕ → String) (list_id : String)
    (remote : List Task) (complete : Bool)
    → AreSound s.tasks
    → AreSound (apply_remote_tasks sql s now fresh list_id remote complete).0.tasks
unfolding apply_remote_tasks bump_if_changed
apply_remote-AreSound sql s now fresh list_id remote complete h = elim (Bool-cases (sql begins)) [
  | inr b ↦ rw b h
  | inl b ↦ rw b (elim (Option-cases (apply_batch sql now fresh list_id remote complete s.tasks)) [
    | inl n ↦ rw n h
    | inr ((rows, c), f) ↦
        let r : AreSound rows =
          subst AreSoundIf f
            (apply_batch-AreSound sql now fresh list_id remote complete s.tasks h) in
        rw f (elim (Bool-cases (c && not (sql bumps))) [
          | inl e ↦ rw e h
          | inr e ↦ rw e (elim (Bool-cases (sql commits)) [
            | inr q ↦ rw q (elim (Bool-cases c) [ inl t ↦ rw t r | inr t ↦ rw t r ])
            | inl q ↦ rw q (elim (Bool-cases c) [ inl t ↦ rw t r | inr t ↦ rw t r ])
          ])
        ])
  ])
]

complete-AreSound :
    (sql : Sql) (s : Store) (id : String) (sent : Sent)
    → AreSound s.tasks
    → AreSound (complete_task_write sql s id sent).0.tasks
unfolding complete_task_write
complete-AreSound sql s id sent h = elim (Bool-cases (sql 0)) [
  | inr e ↦ rw e h
  | inl e ↦ rw e (complete_found-AreSound sql s id sent (first (rows_of id s.tasks)) refl h)
]

-- The operations that write `tasks`, as calls.
pub data TaskCall : Type 0 where
  saves : QtText → Sql → ℕ → Fresh → ℤ → Task → TaskCall
  removes_task : Sql → ℕ → String → TaskCall
  removes_list : Sql → String → TaskCall
  applies : ApplySql → ℕ → (ℕ → String) → String → List Task → Bool → TaskCall
  completes : Sql → String → Sent → TaskCall

unfoldable pub call_tasks : Store → TaskCall → Store
call_tasks s (saves qt sql now fresh expected task) =
    (save_local_task qt sql s now fresh expected task).0
call_tasks s (removes_task sql now id) = (remove_local_task sql s now id).0
call_tasks s (removes_list sql id) = (remove_task_list sql s id).0
call_tasks s (applies sql now fresh list_id remote complete) =
    (apply_remote_tasks sql s now fresh list_id remote complete).0
call_tasks s (completes sql id sent) = (complete_task_write sql s id sent).0

-- Every operation, whichever of its statements run, keeps the rows sound: no two rows have the same id, a
-- row is dirty exactly where it owes a write, and a tombstone exactly where it owes a removal.
pub call_tasks-AreSound :
    (s : Store) (c : TaskCall) → AreSound s.tasks → AreSound (call_tasks s c).tasks
unfolding call_tasks remove_local_task
call_tasks-AreSound s (saves qt sql now fresh expected task) h =
    save-AreSound qt sql s now fresh expected task h
call_tasks-AreSound s (removes_task sql now id) h =
    remove_found-AreSound sql s now id (task_of (sql 0) s id) h
call_tasks-AreSound s (removes_list sql id) h = remove_list-AreSound sql s id h
call_tasks-AreSound s (applies sql now fresh list_id remote complete) h =
    apply_remote-AreSound sql s now fresh list_id remote complete h
call_tasks-AreSound s (completes sql id sent) h = complete-AreSound sql s id sent h
