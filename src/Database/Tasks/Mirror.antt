-- ===== src/Database/Tasks/Mirror.antt =====
-- A complete batch from the provider leaves no task that the provider no longer has.
use mathlib.Core.Path.{subst}
use omacalendar.Base.{
  ℕ, suc, String, ◌≡◌, refl, sym, ◌≢◌, inl, inr, Bool, true, false, Option, none, some, List, [],
  ◌∷◌, map, arith, if◌then◌else◌, Bool-cases, Option-cases, All, select, delete_where, any,
  All-delete_where, All-map, str_eq, str_eq_iff, is_empty,
}
use omacalendar.Database.{Task, Store, ok, bump_if_changed}
use omacalendar.Database.Tasks.{is_owed, has_id}
use omacalendar.Database.Tasks.Remote.{
  lists_stale, removes, ApplySql, apply_all, seen_ids, is_stale_task, stale_ids, remove_all,
  apply_batch, apply_remote_tasks,
}

-- Rows that were kept have none of the removed ids.
abbrev IsRid : (Task → Type 0) → List String → Option (List Task) → Type 0
IsRid P ids none = Unit
IsRid P ids (some rows) = All (λ r. P r × (any (str_eq r.id) ids ≡ false)) rows

IsRid-cons :
    (P : Task → Type 0) (id : String) (ids : List String) (rows : Option (List Task))
    → IsRid (λ r. P r × (has_id id r ≡ false)) ids rows
    → IsRid P (id ∷ ids) rows
IsRid-cons P id ids none h = tt
IsRid-cons P id ids (some rows) h =
    All-map (λ r. (P r × (has_id id r ≡ false)) × (any (str_eq r.id) ids ≡ false))
      (λ r. P r × (any (str_eq r.id) (id ∷ ids) ≡ false))
      (λ r a. (a.0.0, ground (arith, a.0.1, a.1))) rows h

remove_all-IsRid :
    (P : Task → Type 0) (sql : ApplySql) (k : ℕ) (ids : List String) (rows : List Task)
    → All P rows
    → IsRid P ids (remove_all sql k ids rows)
unfolding remove_all
remove_all-IsRid P sql k [] rows h =
    All-map P (λ r. P r × (false ≡ false)) (λ r p. (p, refl)) rows h
remove_all-IsRid P sql k (id ∷ ids) rows h = elim (Bool-cases (sql (removes k))) [
  | inl e ↦ rw e (
      IsRid-cons P id ids (remove_all sql (suc k) ids (delete_where (has_id id) rows)) (
        remove_all-IsRid (λ r. P r × (has_id id r ≡ false)) sql (suc k) ids
          (delete_where (has_id id) rows)
          (All-delete_where P (λ r. P r × (has_id id r ≡ false)) (has_id id) (λ r p e. (p, e)) rows
            h)))
  | inr e ↦ rw e tt
]

abbrev Listed : String → List String → List String → List Task → Type 0
Listed list_id seen ids rows =
    All (λ r. is_stale_task list_id seen r ≡ true → any (str_eq r.id) ids ≡ true) rows

Listed-cons :
    (list_id : String) (seen : List String) (x : Task) (found rows : List Task) (stale : Bool)
    → Listed list_id seen (map (λ t. t.id) found) rows
    → Listed list_id seen (map (λ t. t.id) (if stale then x ∷ found else found)) rows
Listed-cons list_id seen x found rows false h = h
Listed-cons list_id seen x found rows true h =
    All-map
      (λ r. is_stale_task list_id seen r ≡ true → any (str_eq r.id) (map (λ t. t.id) found) ≡ true)
      (λ r.
        is_stale_task list_id seen r ≡ true
        → any (str_eq r.id) (map (λ t. t.id) (x ∷ found)) ≡ true)
      (λ r l s. ground (arith, l s)) rows h

-- Every stale row is listed.
stale-Listed :
    (list_id : String) (seen : List String) (rows : List Task)
    → Listed list_id seen (stale_ids list_id seen rows) rows
stale-Listed list_id seen [] = tt
stale-Listed list_id seen (x ∷ rows) = (
  (λ s. rw s (ground (arith, str_eq_iff x.id x.id))),
  Listed-cons list_id seen x (select (is_stale_task list_id seen) rows) rows
      (is_stale_task list_id seen x) (stale-Listed list_id seen rows),
)

abbrev IsMirror : String → List String → Option (List Task × Bool) → Type 0
IsMirror list_id seen none = Unit
IsMirror list_id seen (some (rows, changed)) = All (λ r. is_stale_task list_id seen r ≡ false) rows

apply_batch-IsMirror :
    (sql : ApplySql) (now : ℕ) (fresh : ℕ → String) (list_id : String) (remote rows : List Task)
    → IsMirror list_id (seen_ids remote) (apply_batch sql now fresh list_id remote true rows)
unfolding apply_batch
apply_batch-IsMirror sql now fresh list_id remote rows =
    elim (Option-cases (apply_all sql now fresh list_id 0 remote rows false)) [
      | inl n ↦ rw (IsMirror, n) tt
      | inr ((applied, changed), f) ↦
          let seen = seen_ids remote in
          let stale = stale_ids list_id seen applied in
          let P : Task → Type 0 =
            λ r. is_stale_task list_id seen r ≡ true → any (str_eq r.id) stale ≡ true in
          let rid = remove_all-IsRid P sql 0 stale applied (stale-Listed list_id seen applied) in
          elim (Bool-cases (sql lists_stale)) [
            | inr b ↦ rw (IsMirror, f, b) tt
            | inl b ↦ elim (Option-cases (remove_all sql 0 stale applied)) [
              | inl n ↦ rw (IsMirror, f, b, n) tt
              | inr (kept, g) ↦
                  rw (IsMirror, f, b, g)
                    (All-map (λ r. P r × (any (str_eq r.id) stale ≡ false))
                      (λ r. is_stale_task list_id seen r ≡ false)
                      (λ r h. elim (Bool-cases (is_stale_task list_id seen r)) [
                        | inl s ↦ absurd (cc (h.0 s, h.1))
                        | inr s ↦ s
                      ])
                      kept (subst (IsRid P stale) g rid))
            ]
          ]
    ]

applied_rows :
    (sql : ApplySql) (s : Store) (now : ℕ) (fresh : ℕ → String) (list_id : String)
    (remote rows : List Task) (changed c : Bool)
    → apply_batch sql now fresh list_id remote true s.tasks ≡ some (rows, c)
    → (apply_remote_tasks sql s now fresh list_id remote true).1 ≡ ok changed
    → (apply_remote_tasks sql s now fresh list_id remote true).0.tasks ≡ rows
unfolding apply_remote_tasks bump_if_changed
applied_rows sql s now fresh list_id remote rows changed c f = rw f (λ e. ground (arith, e))

not_applied :
    (sql : ApplySql) (s : Store) (now : ℕ) (fresh : ℕ → String) (list_id : String)
    (remote : List Task) (changed : Bool)
    → apply_batch sql now fresh list_id remote true s.tasks ≡ none
    → (apply_remote_tasks sql s now fresh list_id remote true).1 ≢ ok changed
unfolding apply_remote_tasks
not_applied sql s now fresh list_id remote changed f = rw f (λ e. ground (arith, e))

abbrev pub IsKnown : String → List String → Task → Type 0
IsKnown list_id seen t =
    t.list_id ≡ list_id
    → is_empty t.remote_id ≡ false
    → is_owed t.pending_operation ≡ false
    → any (str_eq t.remote_id) seen ≡ true

-- After a complete batch that was applied without a failure every task of the list that has a remote id
-- and owes no write has one of the remote ids that the batch held.
pub apply_remote_tasks_complete :
    (sql : ApplySql) (s : Store) (now : ℕ) (fresh : ℕ → String) (list_id : String)
    (remote : List Task) (changed : Bool)
    → let r = apply_remote_tasks sql s now fresh list_id remote true in
      r.1 ≡ ok changed
      → All
          (λ t.
            t.list_id ≡ list_id
            → is_empty t.remote_id ≡ false
            → is_owed t.pending_operation ≡ false
            → any (str_eq t.remote_id) (seen_ids remote) ≡ true)
          r.0.tasks
apply_remote_tasks_complete sql s now fresh list_id remote changed e =
    let seen = seen_ids remote in
    elim (Option-cases (apply_batch sql now fresh list_id remote true s.tasks)) [
      | inl n ↦ absurd (not_applied sql s now fresh list_id remote changed n e)
      | inr ((rows, c), f) ↦
          subst (All (IsKnown list_id seen))
            (sym (applied_rows sql s now fresh list_id remote rows changed c f e))
            (All-map (λ r. is_stale_task list_id seen r ≡ false) (IsKnown list_id seen)
              (λ t h l r o. ground (arith, h, l, r, o, str_eq_iff t.list_id list_id)) rows
              (subst (IsMirror list_id seen) f
                (apply_batch-IsMirror sql now fresh list_id remote s.tasks)))
    ]
