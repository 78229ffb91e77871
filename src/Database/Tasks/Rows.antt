-- ===== src/Database/Tasks/Rows.antt =====
-- The rows of one task, and what the statements on other tasks do to them: nothing.
use mathlib.Core.Path.{subst}
use omacalendar.Base.{
  String, ◌≡◌, refl, sym, ◌≢◌, inl, inr, Bool, true, false, some, List, [], ◌∷◌, ◌++◌, map, arith,
  Bool-cases, All, select, update_where, delete_where, any, first, All-select_inv, str_eq_iff,
}
use omacalendar.Database.{Task}
use omacalendar.Database.Tasks.{has_id}

abbrev pub rows_of : String → List Task → List Task
rows_of id rows = select (has_id id) rows

pub rows_of-delete :
    (id other : String) (rows : List Task)
    → id ≢ other
    → rows_of id (delete_where (has_id other) rows) ≡ rows_of id rows
rows_of-delete id other [] n = refl
rows_of-delete id other (r ∷ rows) n =
    ground (arith, str_eq_iff r.id id, str_eq_iff r.id other, rows_of-delete id other rows n)

pub rows_of-update :
    (id other : String) (f : Task → Task) (rows : List Task)
    → id ≢ other
    → ((r : Task) → (f r).id ≡ r.id)
    → rows_of id (update_where (has_id other) f rows) ≡ rows_of id rows
rows_of-update id other f [] n k = refl
rows_of-update id other f (r ∷ rows) n k =
    ground
      (arith, k r, str_eq_iff r.id id, str_eq_iff r.id other, rows_of-update id other f rows n k)

pub rows_of-append :
    (id : String) (rows : List Task) (t : Task)
    → has_id id t ≡ false
    → rows_of id (rows ++ t ∷ []) ≡ rows_of id rows
rows_of-append id [] t n = ground arith
rows_of-append id (r ∷ rows) t n = ground (arith, rows_of-append id rows t n)

-- An update of the task's own rows.
pub rows_of-update_own :
    (id : String) (f : Task → Task) (rows : List Task)
    → ((r : Task) → (f r).id ≡ r.id)
    → rows_of id (update_where (has_id id) f rows) ≡ map f (rows_of id rows)
rows_of-update_own id f [] k = refl
rows_of-update_own id f (r ∷ rows) k = ground (arith, k r, rows_of-update_own id f rows k)

pub rows_of-delete_own :
    (id : String) (rows : List Task) → rows_of id (delete_where (has_id id) rows) ≡ []
rows_of-delete_own id [] = refl
rows_of-delete_own id (r ∷ rows) = ground (arith, rows_of-delete_own id rows)

pub any-rows_of :
    (id : String) (t : Task) (rows : List Task)
    → rows_of id rows ≡ t ∷ []
    → any (has_id id) rows ≡ true
any-rows_of id t [] e = cc
any-rows_of id t (r ∷ rows) e = ground (arith, any-rows_of id t rows)

pub option_eq : (x r : Task) → some x ≡ some r → x ≡ r
option_eq x r e = cc

-- The first row that a SELECT returns satisfies the WHERE clause, and what all rows satisfy.
pub first-select :
    (P : Task → Type 0) (test : Task → Bool) (rows : List Task) (r : Task)
    → All P rows
    → first (select test rows) ≡ some r
    → P r × (test r ≡ true)
first-select P test [] r h e = cc
first-select P test (x ∷ rows) r h e = elim (Bool-cases (test x)) [
  | inl t ↦
      let x≡r : some x ≡ some r = rw t at e in
      subst (λ y. P y × (test y ≡ true)) (option_eq x r x≡r) (h.0, t)
  | inr f ↦ first-select P test rows r h.1 (rw f at e)
]

-- A row with the id is the task's row, where that is one.
pub only_row :
    (id : String) (t : Task) (rows : List Task)
    → rows_of id rows ≡ t ∷ []
    → All (λ r. has_id id r ≡ true → r ≡ t) rows
only_row id t rows e =
    All-select_inv (λ r. r ≡ t) (has_id id) rows (subst (All (λ r. r ≡ t)) (sym e) (refl, tt))
