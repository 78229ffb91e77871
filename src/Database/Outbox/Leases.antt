-- ===== src/Database/Outbox/Leases.antt =====
-- A mutation that waits for its turn, or is blocked, has no lease.
use mathlib.Core.Path.{subst}
use omacalendar.Base.{
  ℕ, String, ◌≡◌, refl, sym, inl, inr, Bool, true, false, Option, none, some, List, Bool-cases, All,
  update_where, any, All-update_where, Stamp,
}
use omacalendar.Database.{
  EventRow, OutboxItem, Store, Result, ok, failed, Sql, bump_change_revision, bump_if_changed,
}
use omacalendar.Database.Outbox.Steps.{
  is_open_for, cancel_item, cancel_outbox, OutboxCall, recover_expired, update_state, complete,
  discard, cancel, call_outbox,
}
use omacalendar.Database.Outbox.Rows.{complete_on_event-AllRows}
use omacalendar.Database.Transactions.{
  IfOk, IfOk-and_then, IfOk-statement, Ended, Ended-atomically, Ended-kept,
}
use omacalendar.Database.Outbox.{
  is_sending, is_done, recover_item, recover_expired_outbox, Change, change_item, has_id,
  update_outbox_state, find_item, EventWriter,
}
use omacalendar.Database.Outbox.Complete.{finish_item, complete_found, complete_outbox}
use omacalendar.Database.Outbox.Discard.{discard_item, block_item, discard_rows, discard_outbox}
use omacalendar.Database.Outbox.Ready.{IsDiscarded, discard_outbox-Ended}

abbrev pub IsLeased : OutboxItem → Type 0
IsLeased r = is_sending r.state ≡ false → is_done r.state ≡ false → r.lease_until ≡ none

abbrev pub AllLeased : Store → Type 0
AllLeased s = All IsLeased s.outbox

-- A row that a statement gives another state than sending, without a lease.
update_where-IsLeased :
    (test : OutboxItem → Bool) (f : OutboxItem → OutboxItem)
    → ((r : OutboxItem) → IsLeased r → IsLeased (f r))
    → (rows : List OutboxItem) → All IsLeased rows
    → All IsLeased (update_where test f rows)
update_where-IsLeased test f hit rows h =
    All-update_where IsLeased IsLeased test f (λ r p _. hit r p) (λ r p _. p) rows h

discard_rows-AllLeased :
    (id : ℕ) (now : Stamp) (rows : List OutboxItem)
    → All IsLeased rows
    → All IsLeased (discard_rows id now rows)
discard_rows-AllLeased id now rows h =
    update_where-IsLeased _ (block_item now) (λ r p e d. refl) _
      (update_where-IsLeased (has_id id) (discard_item now) (λ r p e d. refl) rows h)

change_item-IsLeased :
    (left512 : String → String) (c : Change) (now : Stamp) (r : OutboxItem)
    → IsLeased (change_item left512 c now r)
change_item-IsLeased left512 c now r e d = rw e refl

outbox-bump_if_changed :
    (changed runs : Bool) (s : Store)
    → (bump_if_changed changed runs (tt {0}) s).0.outbox ≡ s.outbox
unfolding bump_if_changed
outbox-bump_if_changed true true s = refl
outbox-bump_if_changed true false s = refl
outbox-bump_if_changed false runs s = refl

outbox-bump_change_revision :
    (runs : Bool) (s : Store) → (bump_change_revision runs (tt {0}) s).0.outbox ≡ s.outbox
unfolding bump_change_revision
outbox-bump_change_revision true s = refl
outbox-bump_change_revision false s = refl

update_state-AllLeased :
    (sql : Sql) (left512 : String → String) (id : ℕ) (c : Change) (now : Stamp) (s : Store)
    → AllLeased s
    → AllLeased (update_outbox_state left512 sql s id c now).0
unfolding update_outbox_state
update_state-AllLeased sql left512 id c now s h = elim (Bool-cases (sql 0)) [
  | inr e ↦ rw e h
  | inl e ↦ elim (Bool-cases (any (has_id id) s.outbox)) [
    | inr f ↦ rw (e, f) h
    | inl f ↦
        rw (e, f)
          (subst (All IsLeased) (sym (outbox-bump_change_revision (sql 1) _)) (
            update_where-IsLeased (has_id id) (change_item left512 c now)
              (λ r _. change_item-IsLeased left512 c now r) s.outbox h))
  ]
]

AllLeased-discarded :
    (ev : EventWriter) (sql : Sql) (id : ℕ) (now : Stamp) (s : Store)
    (out : Store × Result (Unit {0}))
    → AllLeased s
    → Ended (IsDiscarded ev sql s id now) s out
    → AllLeased out.0
AllLeased-discarded ev sql id now s (s', ok u) h p =
    subst (All IsLeased) (sym p.0) (discard_rows-AllLeased id now s.outbox h)
AllLeased-discarded ev sql id now s (s', failed f) h p = subst AllLeased (sym p) h

module _ (ev : EventWriter) (sql : Sql) where
  complete_found-AllLeased :
      (found : Option OutboxItem) (id : ℕ) (remote : Option EventRow) (now : Stamp) (s : Store)
      → AllLeased s
      → IfOk AllLeased (complete_found ev sql found id remote now s)
  unfolding complete_found
  complete_found-AllLeased none id remote now s h = tt
  complete_found-AllLeased (some item) id remote now s h =
      IfOk-and_then AllLeased AllLeased _ _
        (IfOk-statement AllLeased (sql 1) _ _
          (update_where-IsLeased (has_id id) (finish_item now) (λ r p e d. refl) s.outbox h))
        (λ a p.
          IfOk-and_then AllLeased AllLeased _ _ (IfOk-statement AllLeased (sql 2) _ _ p) (λ b q.
            IfOk-and_then AllLeased AllLeased _ _
              (complete_on_event-AllRows IsLeased (λ r e p. p) ev sql item id remote now b q)
              (λ c r. IfOk-statement AllLeased (sql 6) _ _ r)))

  complete_outbox-AllLeased :
      (id : ℕ) (remote : Option EventRow) (now : Stamp) (s : Store)
      → AllLeased s
      → Ended AllLeased s (complete_outbox ev sql id remote now s)
  unfolding complete_outbox
  complete_outbox-AllLeased id remote now s h = Ended-atomically AllLeased s _ (
      IfOk-and_then AllLeased AllLeased _ _ (IfOk-statement AllLeased (sql 7) _ s h) (λ a p.
        IfOk-and_then AllLeased AllLeased _ _ (IfOk-statement AllLeased (sql 0) _ a p) (λ b q.
          IfOk-and_then AllLeased AllLeased _ _
            (complete_found-AllLeased (find_item id b.outbox) id remote now b q)
            (λ c r. IfOk-statement AllLeased (sql 8) _ c r))))

  recover-AllLeased :
      (now : Stamp) (s : Store) → AllLeased s → AllLeased (recover_expired_outbox sql s now).0
  unfolding recover_expired_outbox
  recover-AllLeased now s h = elim (Bool-cases (sql 0)) [
    | inr e ↦ rw e h
    | inl e ↦ rw e (
        subst (All IsLeased)
          (sym (outbox-bump_if_changed (any (λ r. is_sending r.state) s.outbox) (sql 1) _))
          (update_where-IsLeased (λ r. is_sending r.state) (recover_item now) (λ r p e d. refl)
            s.outbox h))
  ]

cancel_item-IsLeased :
    (keeps_remote : Bool) (now : Stamp) (r : OutboxItem)
    → IsLeased r
    → IsLeased (cancel_item keeps_remote now r)
cancel_item-IsLeased true now r p e d = refl
cancel_item-IsLeased false now r p e d = cc

-- The recovery of the queue, a change of a mutation's state, its acknowledgement and its discard, and
-- the statement by which a resolved conflict cancels the mutations of an event, keep this, whichever
-- statement fails: a mutation that is neither being sent nor done has no lease.
pub call_outbox-AllLeased :
    (ev : EventWriter) (left512 : String → String) (call : OutboxCall) (sql : Sql) (now : Stamp)
    (s : Store)
    → AllLeased s
    → AllLeased (call_outbox ev left512 call sql now s).0
unfolding call_outbox cancel_outbox
call_outbox-AllLeased ev left512 recover_expired sql now s h = recover-AllLeased ev sql now s h
call_outbox-AllLeased ev left512 (update_state id c) sql now s h =
    update_state-AllLeased sql left512 id c now s h
call_outbox-AllLeased ev left512 (cancel keeps_remote event_id) sql now s h =
    elim (Bool-cases (sql 0)) [
      | inl e ↦ rw e (
          update_where-IsLeased (is_open_for event_id) (cancel_item keeps_remote now)
            (cancel_item-IsLeased keeps_remote now) s.outbox h)
      | inr e ↦ rw e h
    ]
call_outbox-AllLeased ev left512 (complete id remote) sql now s h =
    Ended-kept AllLeased s (complete_outbox ev sql id remote now s) h
      (complete_outbox-AllLeased ev sql id remote now s h)
call_outbox-AllLeased ev left512 (discard id) sql now s h =
    AllLeased-discarded ev sql id now s (discard_outbox ev sql id now s) h
      (discard_outbox-Ended ev sql id now s)
