-- ===== src/Sync/Local/Settled.antt =====
-- What a drain leaves of the queue.
use mathlib.Core.Path.{subst}
use omacalendar.Base.{
  ℕ, String, ◌≡◌, refl, sym, inl, inr, Bool, true, false, Option, none, some, List, [], ◌∷◌, arith,
  ◌==◌, if◌then◌else◌, Bool-cases, All, Any, update_where, any, All-update_where, Stamp,
}
use omacalendar.Database.{
  EventRow, OutboxItem, Store, Result, ok, failed, Sql, bump_change_revision,
}
use omacalendar.Database.Transactions.{IfOk, IfOk-and_then, IfOk-statement, Ended}
use omacalendar.Database.Outbox.{
  is_sending, ready_outbox, Change, change_item, has_id, update_outbox_state, find_item,
  EventWriter,
}
use omacalendar.Database.Outbox.Complete.{finish_item, complete_found, complete_outbox}
use omacalendar.Database.Outbox.Rows.{complete_on_event-AllRows}
use omacalendar.Database.Outbox.Finish.{complete_outbox-Ended}
use omacalendar.Sync.Coordinator.{find_account}
use omacalendar.Sync.Local.{
  Signal, Surroundings, Drained, belongs, to_sending, to_retry, after_complete, after_send,
  drain_item, drain_all, drain_ready, drain,
}

-- The row is not being sent, or the row with its id was at the start.
abbrev pub IsSettled : (ℕ → Type 0) → OutboxItem → Type 0
IsSettled Was r = is_sending r.state ≡ true → Was r.id

-- A row with the id was being sent.
abbrev pub WasSending : Store → ℕ → Type 0
WasSending s id = Any (λ r. (r.id ≡ id) × (is_sending r.state ≡ true)) s.outbox

-- The statements of both calls of `updateOutboxState` run.
abbrev pub Runs : (OutboxItem → Sql) → Type 0
Runs sql = (item : OutboxItem) → (sql item 0 ≡ true) × (sql item 1 ≡ true)

module _ (Was : ℕ → Type 0) where
  abbrev AllSettled : Store → Type 0
  AllSettled s = All (IsSettled Was) s.outbox

  -- But for the row with the id.
  abbrev IsSettledBut : ℕ → OutboxItem → Type 0
  IsSettledBut id r = (r.id == id) ≡ false → IsSettled Was r

  settle_but :
      (id : ℕ) (rows : List OutboxItem)
      → any (has_id id) rows ≡ false
      → All (IsSettledBut id) rows
      → All (IsSettled Was) rows
  settle_but id [] e h = tt
  settle_but id (r ∷ rows) e h = (h.0 (ground arith), settle_but id rows (ground arith) h.1)

  settle_where :
      (id : ℕ) (f : OutboxItem → OutboxItem) (rows : List OutboxItem)
      → ((r : OutboxItem) → IsSettled Was (f r))
      → All (IsSettledBut id) rows
      → All (IsSettled Was) (update_where (has_id id) f rows)
  settle_where id f rows g h =
      All-update_where (IsSettledBut id) (IsSettled Was) (has_id id) f (λ r _ e. g r) (λ r p e. p e)
        rows h

  -- After the mutation is marked as sent.
  abbrev HasSent : ℕ → Store × Result (Unit {0}) → Type 0
  HasSent id (s, ok u) = All (IsSettledBut id) s.outbox
  HasSent id (s, failed f) = AllSettled s

  module _ (left512 : String → String) (sql : Sql) (s : Store) (id : ℕ) (c : Change) (now : Stamp)
      (runs0 : sql 0 ≡ true) (runs1 : sql 1 ≡ true) where
    update_outbox_state-HasSent :
        AllSettled s → HasSent id (update_outbox_state left512 sql s id c now)
    unfolding update_outbox_state bump_change_revision
    update_outbox_state-HasSent h = elim (Bool-cases (any (has_id id) s.outbox)) [
      | inl e ↦
          rw (runs0, runs1, e)
            (All-update_where (IsSettled Was) (IsSettledBut id) (has_id id)
              (change_item left512 c now) (λ r _ t f. absurd (ground arith)) (λ r p _ _. p) s.outbox
              h)
      | inr e ↦ rw (runs0, runs1, e) h
    ]

    update_outbox_state-AllSettled :
        is_sending c.state ≡ false
        → All (IsSettledBut id) s.outbox
        → AllSettled (update_outbox_state left512 sql s id c now).0
    unfolding update_outbox_state bump_change_revision
    update_outbox_state-AllSettled w h = elim (Bool-cases (any (has_id id) s.outbox)) [
      | inl e ↦
          rw (runs0, runs1, e)
            (settle_where id (change_item left512 c now) s.outbox (λ r t. cc (w, t)) h)
      | inr e ↦ rw (runs0, runs1, e) (settle_but id s.outbox e h)
    ]

  complete_found-AllSettled :
      (ev : EventWriter) (sql : Sql) (found : Option OutboxItem) (id : ℕ) (remote : Option EventRow)
      (now : Stamp) (s : Store)
      → All (IsSettledBut id) s.outbox
      → IfOk AllSettled (complete_found ev sql found id remote now s)
  unfolding complete_found
  complete_found-AllSettled ev sql none id remote now s h = tt
  complete_found-AllSettled ev sql (some item) id remote now s h =
      IfOk-and_then AllSettled AllSettled _ _
        (IfOk-statement AllSettled (sql 1) _ _
          (settle_where id (finish_item now) s.outbox (λ r t. cc) h))
        (λ a p.
          IfOk-and_then AllSettled AllSettled _ _ (IfOk-statement AllSettled (sql 2) _ _ p) (λ b q.
            IfOk-and_then AllSettled AllSettled _ _
              (complete_on_event-AllRows (IsSettled Was) (λ r e f. f) ev sql item id remote now b q)
              (λ c r. IfOk-statement AllSettled (sql 6) _ _ r)))

  if-AllSettled :
      (b : Bool) (x y : Store × List Signal)
      → AllSettled x.0
      → AllSettled y.0
      → AllSettled (if b then x else y).0
  if-AllSettled true x y h k = h
  if-AllSettled false x y h k = k

  module _ (d : Surroundings) (sends : Runs d.sends) (waits : Runs d.waits) where
    after_complete-AllSettled :
        (item : OutboxItem) (out : Drained) (s : Store) (done : Store × Result (Unit {0}))
        → All (IsSettledBut item.id) s.outbox
        → Ended AllSettled s done
        → AllSettled (after_complete d item out done).store
    unfolding after_complete
    after_complete-AllSettled item out s (s', ok u) h e = e
    after_complete-AllSettled item out s (s', failed f) h e =
        update_outbox_state-AllSettled d.left512 (d.waits item) s' item.id
          (to_retry item (d.time_of item)) (some (d.time_of item)) (waits item).0 (waits item).1
          refl (subst (λ t. All (IsSettledBut item.id) t.outbox) (sym e) h)

    after_send-AllSettled :
        (item : OutboxItem) (out : Drained) (sent : Store × Result (Unit {0}))
        → HasSent item.id sent
        → AllSettled (after_send d item out sent).store
    unfolding after_send
    after_send-AllSettled item out (s, failed f) h = h
    after_send-AllSettled item out (s, ok u) h =
        after_complete-AllSettled item out s
          (complete_outbox d.writer (d.completes item) item.id none (some (d.time_of item)) s) h
          (complete_outbox-Ended AllSettled d.writer (d.completes item) item.id none
            (some (d.time_of item)) s
            (complete_found-AllSettled d.writer (d.completes item) (find_item item.id s.outbox)
              item.id none (some (d.time_of item)) s h))

    drain_item-AllSettled :
        (account_id : String) (item : OutboxItem) (out : Drained)
        → AllSettled out.store
        → AllSettled (drain_item d account_id item out).store
    unfolding drain_item
    drain_item-AllSettled account_id item out h =
        elim (Bool-cases
          (belongs d account_id (find_account (d.finds item) out.store item.account_id) item)) [
            | inl b ↦ rw b (
                after_send-AllSettled item out
                  (update_outbox_state d.left512 (d.sends item) out.store item.id
                    (to_sending item (d.time_of item)) (some (d.time_of item)))
                  (update_outbox_state-HasSent d.left512 (d.sends item) out.store item.id
                    (to_sending item (d.time_of item)) (some (d.time_of item)) (sends item).0
                    (sends item).1 h))
            | inr b ↦ rw b h
          ]

    drain_all-AllSettled :
        (account_id : String) (items : List OutboxItem) (out : Drained)
        → AllSettled out.store
        → AllSettled (drain_all d account_id items out).store
    unfolding drain_all
    drain_all-AllSettled account_id [] out h = h
    drain_all-AllSettled account_id (item ∷ items) out h =
        drain_all-AllSettled account_id items (drain_item d account_id item out)
          (drain_item-AllSettled account_id item out h)

    drain_ready-AllSettled :
        (account_id : String) (s : Store) (r : Result (List OutboxItem))
        → AllSettled s
        → AllSettled (drain_ready d account_id s r).0
    unfolding drain_ready
    drain_ready-AllSettled account_id s (failed f) h = h
    drain_ready-AllSettled account_id s (ok items) h = drain_all-AllSettled account_id items _ h

All-IsSettled :
    (Was : ℕ → Type 0) (rows : List OutboxItem)
    → ((id : ℕ) → Any (λ r. (r.id ≡ id) × (is_sending r.state ≡ true)) rows → Was id)
    → All (IsSettled Was) rows
All-IsSettled Was [] embed = tt
All-IsSettled Was (r ∷ rows) embed =
    ((λ t. embed r.id (inl (refl, t))), All-IsSettled Was rows (λ id a. embed id (inr a)))

-- A drain leaves no mutation in the state of sending but those that were in it before, whichever of
-- the reads and of the statements of an acknowledgement fails, if the statements of
-- `updateOutboxState` run.
pub drain-IsSettled :
    (d : Surroundings) (account_id : String) (s : Store)
    → Runs d.sends
    → Runs d.waits
    → All (IsSettled (WasSending s)) (drain d account_id s).0.outbox
unfolding drain
drain-IsSettled d account_id s sends waits =
    let Was = WasSending s in
    let h : All (IsSettled Was) s.outbox = All-IsSettled Was s.outbox (λ id a. a) in
    let ready = ready_outbox d.lists s (some d.now) 100 in
    if-AllSettled Was d.is_open (drain_ready d account_id s ready) _
      (drain_ready-AllSettled Was d sends waits account_id s ready h) h
