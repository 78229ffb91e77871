-- ===== src/Database/Outbox/Ready.antt =====
-- What a discarded mutation leaves in the queue, and what is ready after it.
use mathlib.Core.Path.{subst}
use omacalendar.Base.{
  All-sort_by, sort_by, ℕ, ◌≡◌, refl, sym, ap, inl, inr, Bool, true, false, not, ◌&&◌, ◌||◌, Option,
  none, some, List, [], arith, Bool-cases, take, All, select, update_where, All-update_where,
  All-select, All-always, All-take, str_eq, str_eq_iff, is_empty, Stamp,
}
use omacalendar.Database.{
  pending, EventRow, create, update, remove, OutboxOperation, move, OutboxState, sending,
  retry_wait, blocked, done, OutboxItem, Store, Result, ok, failed, Sql,
}
use omacalendar.Database.Transactions.{
  IfOk, IfOk-and_then, IfOk-statement, IfOk-equation, IfOk-runs, IfOk-both, IfOk-mono, Ended,
  Ended-atomically, Ended-ok,
}
use omacalendar.Database.Outbox.{
  is_waiting, is_sending, is_ready, page, comes_before, ready_outbox, has_id, find_item, find_event,
  EventWriter,
}
use omacalendar.Database.Outbox.Discard.{
  discard_item, can_block, depends_on, block_item, discard_rows, restored, undo_move, undo_on_event,
  discard_steps, discard_found, discard_outbox,
}

abbrev pub HasOutbox : List OutboxItem → Store → Type 0
HasOutbox rows s = s.outbox ≡ rows

pub upsert-HasOutbox :
    (ev : EventWriter) (e : EventRow) (s : Store) → IfOk (HasOutbox s.outbox) (ev.upsert e s)
upsert-HasOutbox ev e s =
    IfOk-equation (HasOutbox s.outbox) (ev.upsert e s) (λ s' h. ev.outbox-upsert e s s' h)

module _ (ev : EventWriter) (sql : Sql) (item : OutboxItem) (id : ℕ) (now : Stamp) where
  undo_on_event-HasOutbox :
      (operation : OutboxOperation) (s : Store)
      → IfOk (HasOutbox s.outbox) (undo_on_event ev (sql 4) operation item now s)
  unfolding undo_on_event
  undo_on_event-HasOutbox remove s = IfOk-statement (HasOutbox s.outbox) (sql 4) _ _ refl
  undo_on_event-HasOutbox move s =
      let source = ev.source_event item.payload_json in
      elim (Bool-cases (
        is_empty source.id
        || not (str_eq source.id item.event_id)
        || is_empty source.calendar_id)) [
          | inl e ↦ rw e tt
          | inr e ↦ rw e (upsert-HasOutbox ev _ s)
        ]
  undo_on_event-HasOutbox create s = refl
  undo_on_event-HasOutbox update s = refl

  discard_steps-HasOutbox :
      (s : Store)
      → IfOk (HasOutbox (discard_rows id now s.outbox)) (discard_steps ev sql item id now s)
  unfolding discard_steps
  discard_steps-HasOutbox s =
      let rows = discard_rows id now s.outbox in
      IfOk-and_then (λ t. t ≡ s) (HasOutbox rows) _ _ (IfOk-statement (λ t. t ≡ s) (sql 1) _ s refl)
        (λ a p.
          IfOk-and_then (λ t. t ≡ s) (HasOutbox rows) _ _
            (IfOk-statement (λ t. t ≡ s) (sql 2) _ a p)
            (λ b q.
              IfOk-and_then (HasOutbox rows) (HasOutbox rows) _ _
                (IfOk-statement (HasOutbox rows) (sql 3) _ _
                  (ap (λ t. discard_rows id now t.outbox) q))
                (λ c r.
                  IfOk-and_then (HasOutbox rows) (HasOutbox rows) _ _
                    (subst
                      (λ l. IfOk (HasOutbox l) (undo_on_event ev (sql 4) item.operation item now c))
                      r (undo_on_event-HasOutbox item.operation c))
                    (λ d t.
                      IfOk-and_then (HasOutbox rows) (HasOutbox rows) _ _
                        (IfOk-statement (HasOutbox rows) (sql 5) _ _ t)
                        (λ e u. IfOk-statement (HasOutbox rows) (sql 6) _ e u)))))

-- What the undoing of the mutation on its event needs: a removal its statement, a move a snapshot of
-- the same event, with its calendar.
abbrev pub CanUndo : EventWriter → Bool → OutboxOperation → OutboxItem → Type 0
CanUndo ev runs remove item = runs ≡ true
CanUndo ev runs move item =
    let source = ev.source_event item.payload_json in
    (is_empty source.id ≡ false)
    × (source.id ≡ item.event_id)
    × (is_empty source.calendar_id ≡ false)
CanUndo ev runs _ item = Unit

-- Every statement of a discard runs, but for the one that undoes a removal.
abbrev pub AllRun : Sql → Type 0
AllRun sql =
    (sql 0 ≡ true)
    × (sql 1 ≡ true)
    × (sql 2 ≡ true)
    × (sql 3 ≡ true)
    × (sql 5 ≡ true)
    × (sql 6 ≡ true)

-- The discard of a row that is there and is not being sent.
abbrev pub IsDiscarded : EventWriter → Sql → Store → ℕ → Stamp → Store → Type 0
IsDiscarded ev sql s id now s' =
    (HasOutbox (discard_rows id now s.outbox) s')
    × ((item : OutboxItem) × (find_item id s.outbox ≡ some item)
        × (is_sending item.state ≡ false)
        × CanUndo ev (sql 4) item.operation item)
    × AllRun sql

module _ (ev : EventWriter) (sql : Sql) (item : OutboxItem) (id : ℕ) (now : Stamp) where
  undo_on_event-CanUndo :
      (operation : OutboxOperation) (s : Store)
      → IfOk
          (λ _. CanUndo ev (sql 4) operation item)
          (undo_on_event ev (sql 4) operation item now s)
  unfolding undo_on_event undo_move
  undo_on_event-CanUndo remove s = IfOk-runs (sql 4) _ _
  undo_on_event-CanUndo move s =
      let source = ev.source_event item.payload_json in
      elim (Bool-cases (
        is_empty source.id
        || not (str_eq source.id item.event_id)
        || is_empty source.calendar_id)) [
          | inl e ↦ rw e tt
          | inr e ↦
              let usable : CanUndo ev (sql 4) move item = (
                ground arith,
                (str_eq_iff source.id item.event_id).0 (ground arith),
                ground arith,
              ) in
              rw e (
                IfOk-equation (λ _. CanUndo ev (sql 4) move item)
                  (ev.upsert (restored source (find_event item.event_id s.events) now) s)
                  (λ s' h. usable))
        ]
  undo_on_event-CanUndo create s = tt
  undo_on_event-CanUndo update s = tt

  -- Steps that succeed have all been run.
  discard_steps-AllRun :
      (s : Store)
      → sql 0 ≡ true
      → IfOk
          (λ _. CanUndo ev (sql 4) item.operation item × AllRun sql)
          (discard_steps ev sql item id now s)
  unfolding discard_steps
  discard_steps-AllRun s r0 =
      let R : Store → Type 0 = λ _. CanUndo ev (sql 4) item.operation item × AllRun sql in
      IfOk-and_then (λ _. sql 1 ≡ true) R _ _ (IfOk-runs (sql 1) _ s)
        (λ a r1.
          IfOk-and_then (λ _. sql 2 ≡ true) R _ _ (IfOk-runs (sql 2) _ a)
            (λ b r2.
              IfOk-and_then (λ _. sql 3 ≡ true) R _ _ (IfOk-runs (sql 3) _ _)
                (λ c r3.
                  IfOk-and_then (λ _. CanUndo ev (sql 4) item.operation item) R _ _
                    (undo_on_event-CanUndo item.operation c)
                    (λ d u.
                      IfOk-and_then (λ _. sql 5 ≡ true) R _ _ (IfOk-runs (sql 5) _ _)
                        (λ e r5.
                          IfOk-mono (λ _. sql 6 ≡ true) R _ (λ t r6. (u, (r0, r1, r2, r3, r5, r6)))
                            (IfOk-runs (sql 6) _ e))))))

-- Giving up a mutation that succeeds changes the queue by its two statements. Then the mutation is
-- there and is not being sent, every statement has run, and the snapshot of a move is one of the same
-- event with a calendar. In every other case, a failing statement or an unusable snapshot among them,
-- the store stays as it was.
pub discard_outbox-Ended :
    (ev : EventWriter) (sql : Sql) (id : ℕ) (now : Stamp) (s : Store)
    → Ended (IsDiscarded ev sql s id now) s (discard_outbox ev sql id now s)
unfolding discard_outbox
discard_outbox-Ended ev sql id now s = elim (Bool-cases (sql 0)) [
  | inr e ↦ rw e refl
  | inl e ↦ simp e (discard_found-Ended e (find_item id s.outbox) refl)
]
  where
    discard_found-Ended :
        sql 0 ≡ true
        → (found : Option OutboxItem) → find_item id s.outbox ≡ found
        → Ended (IsDiscarded ev sql s id now) s (discard_found ev sql found id now s)
    discard_found-Ended r none f = refl
    discard_found-Ended r (some item) f = elim (Bool-cases (is_sending item.state)) [
      | inl b ↦ rw b refl
      | inr b ↦ simp b (
          Ended-atomically (IsDiscarded ev sql s id now) s _ (
            IfOk-both (HasOutbox (discard_rows id now s.outbox))
              (λ _. CanUndo ev (sql 4) item.operation item × AllRun sql)
              (IsDiscarded ev sql s id now) (discard_steps ev sql item id now s)
              (λ s' h u. (h, (item, f, b, u.0), u.1)) (discard_steps-HasOutbox ev sql item id now s)
              (discard_steps-AllRun ev sql item id now s r)))
    ]

waiting_can_block : (state : OutboxState) → can_block state ≡ false → is_waiting state ≡ false
waiting_can_block pending e = cc
waiting_can_block retry_wait e = cc
waiting_can_block blocked e = refl
waiting_can_block sending e = refl
waiting_can_block done e = refl

abbrev RestsOn : ℕ → OutboxItem → Type 0
RestsOn id r = depends_on id r ≡ true → is_waiting r.state ≡ false

discard_rows-RestsOn :
    (id : ℕ) (now : Stamp) (rows : List OutboxItem) → All (RestsOn id) (discard_rows id now rows)
discard_rows-RestsOn id now rows =
    All-update_where (λ _. Unit) (RestsOn id) (λ r. depends_on id r && can_block r.state)
      (block_item now) (λ r _ _ _. refl) (λ r _ m d. waiting_can_block r.state (ground arith))
      (update_where (has_id id) (discard_item now) rows) (All-always (λ _. Unit) (λ _. tt) _)

abbrev items_of : Result (List OutboxItem) → List OutboxItem
items_of (ok items) = items
items_of (failed f) = []

ready_RestsOn :
    (id : ℕ) (rows all_rows : List OutboxItem) (at : Stamp) (limit : ℕ)
    → All (RestsOn id) rows
    → All
        (λ r. depends_on id r ≡ false)
        (take (page limit) (sort_by comes_before (select (is_ready all_rows at) rows)))
unfolding is_ready
ready_RestsOn id rows all_rows at limit h =
    All-take (λ r. depends_on id r ≡ false) (page limit) _
      (All-sort_by comes_before (λ r. depends_on id r ≡ false) _
        (All-select (RestsOn id) (λ r. depends_on id r ≡ false) (is_ready all_rows at)
          (λ r p e. elim (Bool-cases (depends_on id r)) [
            | inl d ↦ absurd (ground (arith, p d))
            | inr d ↦ d
          ])
          rows h))

-- After a mutation has been given up, no query of the queue, at any time and with any limit, yields
-- a mutation that depends on it.
pub discard_outbox-held :
    (ev : EventWriter) (sql : Sql) (id : ℕ) (now : Stamp) (s : Store)
    → (discard_outbox ev sql id now s).1 ≡ ok tt
    → (at : Stamp) (limit : ℕ) (items : List OutboxItem)
    → ready_outbox true (discard_outbox ev sql id now s).0 at limit ≡ ok items
    → All (λ r. depends_on id r ≡ false) items
unfolding ready_outbox
discard_outbox-held ev sql id now s h at limit items e =
    let s' = (discard_outbox ev sql id now s).0 in
    let p =
      Ended-ok (IsDiscarded ev sql s id now) s (discard_outbox ev sql id now s)
        (discard_outbox-Ended ev sql id now s) h in
    let rests : All (RestsOn id) s'.outbox =
      subst (All (RestsOn id)) (sym p.0) (discard_rows-RestsOn id now s.outbox) in
    subst (All (λ r. depends_on id r ≡ false)) (ap items_of e)
      (ready_RestsOn id s'.outbox s'.outbox at limit rests)
