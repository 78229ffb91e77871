-- ===== src/Database/Tasks/Owed.antt =====
-- A write that a task owes outlasts what the provider sends.
use mathlib.Core.Path.{subst}
use omacalendar.Base.{
  ℕ, suc, String, ◌≡◌, refl, sym, ◌∙◌, ◌≢◌, inl, inr, Bool, true, false, ◌||◌, Option, none, some,
  List, [], ◌∷◌, ◌++◌, arith, Bool-cases, Option-cases, All, select, delete_where, any, first,
  str_eq, str_eq_iff,
}
use omacalendar.Database.{Task, Store, bump_if_changed}
use omacalendar.Database.Tasks.{is_owed, has_id}
use omacalendar.Database.Tasks.Rows.{
  rows_of, rows_of-delete, rows_of-update, rows_of-append, any-rows_of, first-select, only_row,
}
use omacalendar.Database.Tasks.Remote.{
  removes, ApplySql, is_remote, overwrite_remote, new_remote, apply_incoming, apply_all, seen_ids,
  is_stale_task, stale_ids, remove_all, apply_batch, apply_remote_tasks,
}

module _ (id : String) (t : Task) (owes : is_owed t.pending_operation ≡ true) where
  -- The rows, where there are some, hold the task's one row.
  abbrev Keeps : Option (List Task × Bool) → Type 0
  Keeps none = Unit
  Keeps (some (rows, changed)) = rows_of id rows ≡ t ∷ []

  -- A row that owes nothing is another task's.
  other_row :
      (test : Task → Bool) (rows : List Task) (r : Task)
      → rows_of id rows ≡ t ∷ []
      → first (select test rows) ≡ some r
      → is_owed r.pending_operation ≡ false
      → id ≢ r.id
  other_row test rows r e f n same =
      let (own, _) =
        first-select (λ x. has_id id x ≡ true → x ≡ t) test rows r (only_row id t rows e) f in
      let r≡t = own (ground (arith, str_eq_iff r.id id)) in
      cc (subst (λ x. is_owed x.pending_operation ≡ true) (sym r≡t) owes)

  insert-Keeps :
      (now : ℕ) (fresh_id list_id : String) (incoming : Task) (rows : List Task)
      → rows_of id rows ≡ t ∷ []
      → any (has_id fresh_id) rows ≡ false
      → rows_of id (rows ++ new_remote now fresh_id list_id incoming ∷ []) ≡ t ∷ []
  insert-Keeps now fresh_id list_id incoming rows e n = elim (Bool-cases (str_eq fresh_id id)) [
    | inl same ↦
        let eq : fresh_id ≡ id = ground (arith, str_eq_iff fresh_id id) in
        cc (rw eq at n, any-rows_of id t rows e)
    | inr differ ↦ rows_of-append id rows (new_remote now fresh_id list_id incoming) differ ∙ e
  ]

  apply_incoming-Keeps :
      (sql : ApplySql) (now : ℕ) (fresh : ℕ → String) (list_id : String) (k : ℕ) (incoming : Task)
      (rows : List Task)
      → rows_of id rows ≡ t ∷ []
      → Keeps (apply_incoming sql now fresh list_id k incoming rows)
  unfolding apply_incoming
  apply_incoming-Keeps sql now fresh list_id k incoming rows e =
      let test = is_remote list_id incoming.remote_id in
      elim (Option-cases (first (select test rows))) [
        | inl n ↦ rw n (ground (arith, e, insert-Keeps now (fresh k) list_id incoming rows e))
        | inr (r, f) ↦ rw f (
            ground (
              arith,
              e,
              (λ (n : is_owed r.pending_operation ≡ false).
                  rows_of-update id r.id (overwrite_remote now incoming) rows
                    (other_row test rows r e f n) (λ x. refl)
                  ∙ e),
            ))
      ]

  apply_all-Keeps :
      (sql : ApplySql) (now : ℕ) (fresh : ℕ → String) (list_id : String) (k : ℕ)
      (remote : List Task) (rows : List Task) (changed : Bool)
      → rows_of id rows ≡ t ∷ []
      → Keeps (apply_all sql now fresh list_id k remote rows changed)
  unfolding apply_all
  apply_all-Keeps sql now fresh list_id k [] rows changed e = e
  apply_all-Keeps sql now fresh list_id k (i ∷ is) rows changed e =
      elim (Option-cases (apply_incoming sql now fresh list_id k i rows)) [
        | inl n ↦ rw (Keeps, n) tt
        | inr ((rows', c), f) ↦
            rw (Keeps, f)
              (apply_all-Keeps sql now fresh list_id (suc k) is rows' (changed || c)
                (subst Keeps f (apply_incoming-Keeps sql now fresh list_id k i rows e)))
      ]

  -- The stale ids are not the task's.
  stale_others :
      (list_id : String) (seen : List String) (all rows : List Task)
      → All (λ r. has_id id r ≡ true → r ≡ t) rows
      → All (λ other. id ≢ other) (stale_ids list_id seen rows)
  stale_others list_id seen all [] own = tt
  stale_others list_id seen all (r ∷ rows) own = elim (Bool-cases (is_stale_task list_id seen r)) [
    | inl s ↦ rw s (
      (λ (same : id ≡ r.id).
          let r≡t = own.0 (ground (arith, str_eq_iff r.id id)) in
          let o : is_owed r.pending_operation ≡ true =
            subst (λ x. is_owed x.pending_operation ≡ true) (sym r≡t) owes in
          ground arith),
      stale_others list_id seen all rows own.1,
    )
    | inr f ↦ rw f (stale_others list_id seen all rows own.1)
  ]

  abbrev KeepsRows : Option (List Task) → Type 0
  KeepsRows none = Unit
  KeepsRows (some rows) = rows_of id rows ≡ t ∷ []

  remove_all-Keeps :
      (sql : ApplySql) (k : ℕ) (ids : List String) (rows : List Task)
      → All (λ other. id ≢ other) ids
      → rows_of id rows ≡ t ∷ []
      → KeepsRows (remove_all sql k ids rows)
  unfolding remove_all
  remove_all-Keeps sql k [] rows n e = e
  remove_all-Keeps sql k (other ∷ ids) rows n e = elim (Bool-cases (sql (removes k))) [
    | inl r ↦ rw r (
        remove_all-Keeps sql (suc k) ids (delete_where (has_id other) rows) n.1
          (rows_of-delete id other rows n.0 ∙ e))
    | inr r ↦ rw r tt
  ]

  apply_batch-Keeps :
      (sql : ApplySql) (now : ℕ) (fresh : ℕ → String) (list_id : String) (remote : List Task)
      (complete : Bool) (rows : List Task)
      → rows_of id rows ≡ t ∷ []
      → Keeps (apply_batch sql now fresh list_id remote complete rows)
  unfolding apply_batch
  apply_batch-Keeps sql now fresh list_id remote complete rows e =
      elim (Option-cases (apply_all sql now fresh list_id 0 remote rows false)) [
        | inl n ↦ rw (Keeps, n) tt
        | inr ((applied, changed), f) ↦
            let e' : rows_of id applied ≡ t ∷ [] =
              subst Keeps f (apply_all-Keeps sql now fresh list_id 0 remote rows false e) in
            let stale = stale_ids list_id (seen_ids remote) applied in
            let r =
              remove_all-Keeps sql 0 stale applied
                (stale_others list_id (seen_ids remote) applied applied (only_row id t applied e'))
                e' in
            elim (Option-cases (remove_all sql 0 stale applied)) [
              | inl n ↦ rw (Keeps, f, n) (ground (arith, e'))
              | inr (kept, g) ↦
                  let e'' : rows_of id kept ≡ t ∷ [] = subst KeepsRows g r in
                  rw (Keeps, f, g) (ground (arith, e', e''))
            ]
      ]

-- A task with one row that owes a write to the provider has that row, unchanged, after any batch from the
-- provider, whether it is complete or not, whichever of its statements run.
pub apply_remote_tasks-owed :
    (sql : ApplySql) (s : Store) (now : ℕ) (fresh : ℕ → String) (list_id : String)
    (remote : List Task) (complete : Bool) (id : String) (t : Task)
    → is_owed t.pending_operation ≡ true
    → rows_of id s.tasks ≡ t ∷ []
    → rows_of id (apply_remote_tasks sql s now fresh list_id remote complete).0.tasks ≡ t ∷ []
unfolding apply_remote_tasks bump_if_changed
apply_remote_tasks-owed sql s now fresh list_id remote complete id t owes e =
    elim (Option-cases (apply_batch sql now fresh list_id remote complete s.tasks)) [
      | inl n ↦ rw n (ground (arith, e))
      | inr ((rows, changed), f) ↦
          let e' : rows_of id rows ≡ t ∷ [] =
            subst (Keeps id t owes) f
              (apply_batch-Keeps id t owes sql now fresh list_id remote complete s.tasks e) in
          rw f (ground (arith, e, e'))
    ]
