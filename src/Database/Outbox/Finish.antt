-- ===== src/Database/Outbox/Finish.antt =====
-- What an acknowledged mutation leaves: its dependents are released, and a newer edit of the event is
-- kept.
use mathlib.Core.Path.{subst}
use omacalendar.Base.{
  ℕ, String, ◌≡◌, refl, sym, ap, ◌∙◌, inl, inr, Bool, true, false, not, ◌&&◌, Option, none, some,
  List, [], ◌∷◌, map, arith, Bool-cases, Option-cases, All, update_where, any, All-update_where,
  All-always, Stamp,
}
use omacalendar.Database.{EventRow, OutboxItem, Store, ok, Sql}
use omacalendar.Database.Transactions.{
  IfOk, IfOk-and_then, IfOk-statement, Ended, Ended-atomically, Ended-ok, Ended-kept,
}
use omacalendar.Database.Outbox.{
  is_remove, holds_up, is_held_up, has_id, find_item, has_event_id, find_event, EventWriter,
}
use omacalendar.Database.Outbox.Complete.{
  finish_item, is_later, has_later, advance_event, advance_revision, acknowledge, complete_on_event,
  complete_found, complete_outbox,
}
use omacalendar.Database.Outbox.Rows.{complete_on_event-AllRows}

abbrev IsFreeOf : ℕ → OutboxItem → Type 0
IsFreeOf id r = holds_up id r ≡ false

abbrev AllFree : ℕ → Store → Type 0
AllFree id s = All (IsFreeOf id) s.outbox

finished_rows :
    (id : ℕ) (now : Stamp) (rows : List OutboxItem)
    → All (IsFreeOf id) (update_where (has_id id) (finish_item now) rows)
finished_rows id now rows =
    All-update_where (λ _. Unit) (IsFreeOf id) (has_id id) (finish_item now) (λ r _ e. ground arith)
      (λ r _ e. ground arith) rows (All-always (λ _. Unit) (λ _. tt) rows)

complete_found-AllFree :
    (ev : EventWriter) (sql : Sql) (found : Option OutboxItem) (id : ℕ) (remote : Option EventRow)
    (now : Stamp) (s : Store)
    → IfOk (AllFree id) (complete_found ev sql found id remote now s)
unfolding complete_found
complete_found-AllFree ev sql none id remote now s = tt
complete_found-AllFree ev sql (some item) id remote now s =
    let P = AllFree id in
    IfOk-and_then P P _ _ (IfOk-statement P (sql 1) _ _ (finished_rows id now s.outbox)) (λ a p.
      IfOk-and_then P P _ _ (IfOk-statement P (sql 2) _ _ p) (λ b q.
        IfOk-and_then P P _ _
          (complete_on_event-AllRows (IsFreeOf id) (λ r e f. f) ev sql item id remote now b q)
          (λ c r. IfOk-statement P (sql 6) _ _ r)))

All-any :
    {A : Type 0} (test : A → Bool) (xs : List A)
    → All (λ x. test x ≡ false) xs
    → any test xs ≡ false
All-any test [] h = refl
All-any test (x ∷ xs) h = rw h.0 (All-any test xs h.1)

module _ (P : Store → Type 0) (ev : EventWriter) (sql : Sql) (id : ℕ) (remote : Option EventRow)
    (now : Stamp) (s : Store) where
  -- A property of the transaction's body is one of the transaction.
  pub complete_outbox-Ended :
      IfOk P (complete_found ev sql (find_item id s.outbox) id remote now s)
      → Ended P s (complete_outbox ev sql id remote now s)
  unfolding complete_outbox
  complete_outbox-Ended f = Ended-atomically P s _ (
      IfOk-and_then (λ t. t ≡ s) P _ _ (IfOk-statement (λ t. t ≡ s) (sql 7) _ s refl)
        (λ a e.
          IfOk-and_then (λ t. t ≡ s) P _ _ (IfOk-statement (λ t. t ≡ s) (sql 0) _ a e)
            (λ b g.
              IfOk-and_then P P _ _
                (subst (λ t. IfOk P (complete_found ev sql (find_item id t.outbox) id remote now t))
                  (sym g) f)
                (λ c r. IfOk-statement P (sql 8) _ c r))))

-- Once a mutation is acknowledged it holds nothing up any more: what depends on it no longer waits
-- for it, also when its event and the rows of that event are deleted.
pub complete_outbox-releases :
    (ev : EventWriter) (sql : Sql) (id : ℕ) (remote : Option EventRow) (now : Stamp) (s : Store)
    → (complete_outbox ev sql id remote now s).1 ≡ ok tt
    → is_held_up (complete_outbox ev sql id remote now s).0.outbox (some id) ≡ false
complete_outbox-releases ev sql id remote now s h =
    let out = complete_outbox ev sql id remote now s in
    All-any (holds_up id) out.0.outbox (
      Ended-ok (AllFree id) s out
        (complete_outbox-Ended (AllFree id) ev sql id remote now s
          (complete_found-AllFree ev sql (find_item id s.outbox) id remote now s))
        h)

-- The columns of an event that its acknowledgement is not about.
abbrev pub edit_of : EventRow → String × String × String × Bool × ℕ × Stamp
edit_of e = (e.id, e.calendar_id, e.uid, e.deleted, e.local_revision, e.updated_at)

abbrev HasEdits : Store → Store → Type 0
HasEdits s t = map edit_of t.events ≡ map edit_of s.events

has_later-finish :
    (event_id : String) (id : ℕ) (now : Stamp) (rows : List OutboxItem)
    → any (is_later event_id id) (update_where (has_id id) (finish_item now) rows)
      ≡ any (is_later event_id id) rows
has_later-finish event_id id now [] = refl
has_later-finish event_id id now (r ∷ rows) = ground (arith, has_later-finish event_id id now rows)

map-update_where :
    (test : EventRow → Bool) (f : EventRow → EventRow)
    → ((e : EventRow) → edit_of (f e) ≡ edit_of e)
    → (rows : List EventRow) → map edit_of (update_where test f rows) ≡ map edit_of rows
map-update_where test f same [] = refl
map-update_where test f same (e ∷ rows) = elim (Bool-cases (test e)) [
  | inl t ↦ rw (t, same e, map-update_where test f same rows) refl
  | inr t ↦ rw (t, map-update_where test f same rows) refl
]

acknowledge-HasEdits :
    (ev : EventWriter) (sql : Sql) (event_id : String) (id : ℕ) (remote : Option EventRow)
    (now : Stamp) (s : Store)
    → IfOk (HasEdits s) (acknowledge ev sql event_id id remote true now s)
unfolding acknowledge advance_revision
acknowledge-HasEdits ev sql event_id id none now s = refl
acknowledge-HasEdits ev sql event_id id (some remote) now s =
    elim (Option-cases (find_event event_id s.events)) [
      | inl e ↦ rw e tt
      | inr (current, e) ↦ rw e (
          let P = HasEdits s in
          IfOk-and_then (λ t. t ≡ s) P _ _ (IfOk-statement (λ t. t ≡ s) (sql 3) _ s refl)
            (λ a p.
              IfOk-and_then P P _ _
                (IfOk-statement P (sql 4) _ _ (
                  map-update_where (has_event_id event_id) (advance_event remote) (λ e. refl)
                    a.events
                  ∙ ap (λ t. map edit_of t.events) p))
                (λ b q. IfOk-statement P (sql 5) _ _ q)))
    ]

complete_on_event-HasEdits :
    (ev : EventWriter) (sql : Sql) (item : OutboxItem) (id : ℕ) (remote : Option EventRow)
    (now : Stamp) (s : Store)
    → has_later item.event_id id s ≡ true
    → IfOk (HasEdits s) (complete_on_event ev sql item id remote now s)
unfolding complete_on_event
complete_on_event-HasEdits ev sql item id remote now s later =
    let stays : (is_remove item.operation && not (has_later item.event_id id s)) ≡ false =
      ground arith in
    rw (stays, later) (acknowledge-HasEdits ev sql item.event_id id remote now s)

complete_found-HasEdits :
    (ev : EventWriter) (sql : Sql) (item : OutboxItem) (id : ℕ) (remote : Option EventRow)
    (now : Stamp) (s : Store)
    → has_later item.event_id id s ≡ true
    → IfOk (HasEdits s) (complete_found ev sql (some item) id remote now s)
unfolding complete_found
complete_found-HasEdits ev sql item id remote now s later =
    let P = HasEdits s in
    let s1 = record s { outbox = update_where (has_id id) (finish_item now) s.outbox } in
    let later' : has_later item.event_id id s1 ≡ true =
      has_later-finish item.event_id id now s.outbox ∙ later in
    IfOk-and_then (λ t. t ≡ s1) P _ _ (IfOk-statement (λ t. t ≡ s1) (sql 1) _ _ refl)
      (λ a p.
        IfOk-and_then (λ t. t ≡ s1) P _ _ (IfOk-statement (λ t. t ≡ s1) (sql 2) _ _ p)
          (λ b q.
            IfOk-and_then P P _ _
              (subst (λ t. IfOk P (complete_on_event ev sql item id remote now t)) (sym q)
                (complete_on_event-HasEdits ev sql item id remote now s1 later'))
              (λ c r. IfOk-statement P (sql 6) _ _ r)))

-- If a newer mutation of the event is queued, an acknowledgement keeps every edit that was made: no
-- event is deleted or added, and none changes its local revision, its deletion mark or its time.
pub complete_outbox-HasEdits :
    (ev : EventWriter) (sql : Sql) (id : ℕ) (remote : Option EventRow) (now : Stamp) (s : Store)
    (item : OutboxItem)
    → find_item id s.outbox ≡ some item
    → has_later item.event_id id s ≡ true
    → map edit_of (complete_outbox ev sql id remote now s).0.events ≡ map edit_of s.events
complete_outbox-HasEdits ev sql id remote now s item found later =
    Ended-kept (HasEdits s) s (complete_outbox ev sql id remote now s) refl (
      complete_outbox-Ended (HasEdits s) ev sql id remote now s (
        subst (λ f. IfOk (HasEdits s) (complete_found ev sql f id remote now s)) (sym found)
          (complete_found-HasEdits ev sql item id remote now s later)))
