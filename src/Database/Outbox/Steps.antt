-- ===== src/Database/Outbox/Steps.antt =====
-- Operations on the queue as calls. Of `resolveConflict` only its statement on the queue is here.
use omacalendar.Base.{
  ℕ, String, Bool, not, ◌&&◌, Option, none, if◌then◌else◌, update_where, str_eq, Stamp,
}
use omacalendar.Database.{EventRow, done, OutboxItem, Store, sql_error, Result, ok, failed, Sql}
use omacalendar.Database.Outbox.{
  is_done, recover_expired_outbox, Change, update_outbox_state, EventWriter,
}
use omacalendar.Database.Outbox.Complete.{complete_outbox}
use omacalendar.Database.Outbox.Discard.{discard_outbox}

-- A resolved conflict cancels what the event still owes. Keeping the remote side clears the lease, the
-- other strategies leave it.
abbrev pub is_open_for : String → OutboxItem → Bool
is_open_for event_id r = str_eq r.event_id event_id && not (is_done r.state)

abbrev pub cancel_for_remote : Stamp → OutboxItem → OutboxItem
cancel_for_remote now r = record r {
  state = done;
  error_code = "conflict_keep_remote";
  error_message = "";
  lease_until = none;
  updated_at = now;
}

abbrev pub cancel_for_local : Stamp → OutboxItem → OutboxItem
cancel_for_local now r = record r {
  state = done;
  error_code = "conflict_resolved";
  error_message = "";
  updated_at = now;
}

abbrev pub cancel_item : Bool → Stamp → OutboxItem → OutboxItem
cancel_item keeps_remote now r =
    if keeps_remote then cancel_for_remote now r else cancel_for_local now r

unfoldable pub cancel_outbox : Bool → Bool → String → Stamp → Store → Store × Result (Unit {0})
cancel_outbox runs keeps_remote event_id now s =
    if runs
    then (
      record s {
        outbox = update_where (is_open_for event_id) (cancel_item keeps_remote now) s.outbox;
      },
      ok tt,
    )
    else (s, failed (sql_error "cancel local mutations"))

pub data OutboxCall : Type 0 where
  recover_expired : OutboxCall
  update_state : ℕ → Change → OutboxCall
  complete : ℕ → Option EventRow → OutboxCall
  discard : ℕ → OutboxCall
  cancel : Bool → String → OutboxCall

unfoldable pub call_outbox :
    EventWriter → (String → String) → OutboxCall → Sql → Stamp → Store → Store × Result (Unit {0})
unfolding cancel_outbox recover_expired_outbox update_outbox_state complete_outbox discard_outbox
call_outbox ev left512 recover_expired sql now s = recover_expired_outbox sql s now
call_outbox ev left512 (update_state id c) sql now s = update_outbox_state left512 sql s id c now
call_outbox ev left512 (complete id remote) sql now s = complete_outbox ev sql id remote now s
call_outbox ev left512 (cancel keeps_remote event_id) sql now s =
    cancel_outbox (sql 0) keeps_remote event_id now s
call_outbox ev left512 (discard id) sql now s = discard_outbox ev sql id now s
